-- ===== src/Chunker/Tests.antt =====
-- The theorems of the chunker at a concrete text.
use darknetra.Prelude.{◌≡◌, refl, ok, codes, true, any, from_ok, [], List}
use darknetra.Chunker.{ChunkDraft, chunk_text}
use darknetra.Chunker.Cover.{is_in}
use darknetra.Chunker.Paragraphs.{chunk_text-cover}

abbrev sample : List ChunkDraft
sample = from_ok [] (chunk_text (codes "One. Two three") 8 2)

sample-chunks : chunk_text (codes "One. Two three") 8 2 ≡ ok sample
unfolding chunk_text
sample-chunks = refl

chunk_text-cover_example : any (λ d. is_in 6 d.span) sample ≡ true
chunk_text-cover_example =
    chunk_text-cover (codes "One. Two three") 8 2 6 119 sample sample-chunks refl refl
