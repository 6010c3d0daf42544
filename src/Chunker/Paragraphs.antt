-- ===== src/Chunker/Paragraphs.antt =====
-- rag/chunker.py: the characters in paragraphs and in chunks.
use darknetra.Prelude.{
  ℕ, zero, suc, ◌+◌, ◌-◌, ◌≤◌, ◌<◌, ◌≡◌, Text, arith, true, false, some, none, ok, ◌==◌, any, All,
  get_elem?, List, [], ◌∷◌, any-append, ap, Bool-cases, ◌||◌, inl, refl, inr, ◌&&◌, leb, All-append,
  not, subst, ◌∙◌,
}
use darknetra.Chunker.{
  Span, ChunkDraft, paragraphs, windows, all_windows, drafts, chunk_text, newline, continues,
}
use darknetra.Chunker.Cover.{is_in, IsWindow, windows-cover, windows-bounded}

-- What has been read of an open paragraph is in it.
opened-cover :
    (t : Text) (pos opened p : ℕ)
    → opened ≤ p
    → p < pos
    → any (is_in p) (paragraphs pos (some opened) t) ≡ true
opened-cover [] pos opened p low high = ground arith
opened-cover (c ∷ t) pos opened p low high =
    let rest = opened-cover t (pos + 1) opened p low (omega arith) in
    let here : is_in p (record { start = opened; stop = pos }) ≡ true = ground arith in
    elim (Bool-cases (c == newline && not (continues t))) [
      | inl ends ↦ rw (ends, here) refl
      | inr goes ↦ rw goes rest
    ]

-- A character that is no line break is in a paragraph, whether one is open before it or not.
mutual
  outside-cover :
      (t : Text) (pos i c : ℕ)
      → get_elem? t i ≡ some c
      → (c == newline) ≡ false
      → any (is_in (pos + i)) (paragraphs pos none t) ≡ true
  outside-cover [] pos i c h k = absurd (ground arith)
  outside-cover (d ∷ t) pos zero c h k =
      ground (arith, opened-cover t (pos + 1) pos (pos + 0) (omega arith) (omega arith))
  outside-cover (d ∷ t) pos (suc i) c h k =
      let skipped = outside-cover t (pos + 1) i c h k in
      let begun = inside-cover t (pos + 1) pos i c (omega arith) h k in
      let e : pos + suc i ≡ pos + 1 + i = omega arith in rw e (ground (arith, skipped, begun))

  inside-cover :
      (t : Text) (pos opened i c : ℕ)
      → opened ≤ pos
      → get_elem? t i ≡ some c
      → (c == newline) ≡ false
      → any (is_in (pos + i)) (paragraphs pos (some opened) t) ≡ true
  inside-cover [] pos opened i c o h k = absurd (ground arith)
  inside-cover (d ∷ t) pos opened zero c o h k =
      let more = opened-cover t (pos + 1) opened (pos + 0) (omega arith) (omega arith) in
      let goes : (d == newline && not (continues t)) ≡ false = ground arith in rw goes more
  inside-cover (d ∷ t) pos opened (suc i) c o h k =
      let more = inside-cover t (pos + 1) opened i c (omega arith) h k in
      let ended = outside-cover t (pos + 1) i c h k in
      let e : pos + suc i ≡ pos + 1 + i = omega arith in rw e (ground (arith, more, ended))

all_windows-cover :
    (text : Text) (limit overlap p : ℕ) (ps : List Span)
    → overlap < limit
    → any (is_in p) ps ≡ true
    → any (is_in p) (all_windows text limit overlap ps) ≡ true
all_windows-cover text limit overlap p [] room h = h
all_windows-cover text limit overlap p (w ∷ ps) room h =
    let own = windows (w.stop - w.start) text limit overlap w.start w.stop in
    let joined = any-append (is_in p) own (all_windows text limit overlap ps) in
    elim (Bool-cases (is_in p w)) [
      | inl here ↦
          let low : w.start ≤ p = ground arith in
          let high : p < w.stop = ground arith in
          let found =
            windows-cover (w.stop - w.start) text limit overlap w.start w.stop p room (omega arith)
              low high in
          ground (arith, joined, found)
      | inr later ↦ ground (arith, joined, all_windows-cover text limit overlap p ps room)
    ]

drafts-cover :
    (text : Text) (n p : ℕ) (ws : List Span)
    → any (λ d. is_in p d.span) (drafts text n ws) ≡ any (is_in p) ws
drafts-cover text n p [] = refl
drafts-cover text n p (w ∷ ws) = ap (λ b. is_in p w || b) (drafts-cover text (n + 1) p ws)

-- Every character of a text that is no line break is in one of its chunks.
pub chunk_text-cover :
    (text : Text) (limit overlap p c : ℕ) (chunks : List ChunkDraft)
    → chunk_text text limit overlap ≡ ok chunks
    → get_elem? text p ≡ some c
    → (c == newline) ≡ false
    → any (λ d. is_in p d.span) chunks ≡ true
unfolding chunk_text
chunk_text-cover text limit overlap p c chunks h there visible =
    elim (Bool-cases (leb limit overlap)) [
      | inl refused ↦ absurd (ground arith)
      | inr room ↦
          let ws = all_windows text limit overlap (paragraphs 0 none text) in
          let zero_plus : 0 + p ≡ p = omega arith in
          let in_paragraph =
            subst (λ q. any (is_in q) (paragraphs 0 none text) ≡ true) zero_plus
              (outside-cover text 0 p c there visible) in
          let in_window =
            all_windows-cover text limit overlap p (paragraphs 0 none text) (ground arith)
              in_paragraph in
          let all_drafts : drafts text 0 ws ≡ chunks = ground arith in
          subst (λ ds. any (λ d. is_in p d.span) ds ≡ true) all_drafts
            (drafts-cover text 0 p ws ∙ in_window)
    ]

-- A paragraph is not empty.
abbrev IsFilled : Span → Type 0
IsFilled w = w.start < w.stop

mutual
  outside-IsFilled : (t : Text) (pos : ℕ) → All IsFilled (paragraphs pos none t)
  outside-IsFilled [] pos = tt
  outside-IsFilled (c ∷ t) pos = elim (Bool-cases (c == newline)) [
    | inl skipped ↦ rw skipped (outside-IsFilled t (pos + 1))
    | inr begun ↦ rw begun (inside-IsFilled t (pos + 1) pos (omega arith))
  ]

  inside-IsFilled :
      (t : Text) (pos opened : ℕ) → opened < pos → All IsFilled (paragraphs pos (some opened) t)
  inside-IsFilled [] pos opened h = (h, tt)
  inside-IsFilled (c ∷ t) pos opened h = elim (Bool-cases (c == newline && not (continues t))) [
    | inl ends ↦ rw ends (h, outside-IsFilled t (pos + 1))
    | inr goes ↦ rw goes (inside-IsFilled t (pos + 1) opened (omega arith))
  ]

all_windows-bounded :
    (text : Text) (limit overlap : ℕ) (ps : List Span)
    → overlap < limit
    → All IsFilled ps
    → All (IsWindow limit) (all_windows text limit overlap ps)
all_windows-bounded text limit overlap [] room filled = tt
all_windows-bounded text limit overlap (w ∷ ps) room filled =
    All-append (IsWindow limit) (windows (w.stop - w.start) text limit overlap w.start w.stop)
      (all_windows text limit overlap ps)
      (windows-bounded (w.stop - w.start) text limit overlap w.start w.stop room filled.0)
      (all_windows-bounded text limit overlap ps room filled.1)

drafts-bounded :
    (text : Text) (limit n : ℕ) (ws : List Span)
    → All (IsWindow limit) ws
    → All (λ d. IsWindow limit d.span) (drafts text n ws)
drafts-bounded text limit n [] h = tt
drafts-bounded text limit n (w ∷ ws) h = (h.0, drafts-bounded text limit (n + 1) ws h.1)

-- No chunk is empty, and none spans more characters than the limit.
pub chunk_text-bounded :
    (text : Text) (limit overlap : ℕ) (chunks : List ChunkDraft)
    → chunk_text text limit overlap ≡ ok chunks
    → All (λ d. IsWindow limit d.span) chunks
unfolding chunk_text
chunk_text-bounded text limit overlap chunks h = elim (Bool-cases (leb limit overlap)) [
  | inl refused ↦ absurd (ground arith)
  | inr room ↦
      let ws = all_windows text limit overlap (paragraphs 0 none text) in
      let all_drafts : drafts text 0 ws ≡ chunks = ground arith in
      subst (λ ds. All (λ d. IsWindow limit d.span) ds) all_drafts
        (drafts-bounded text limit 0 ws (
          all_windows-bounded text limit overlap (paragraphs 0 none text) (ground arith)
            (outside-IsFilled text 0)))
]
