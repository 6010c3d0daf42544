-- ===== src/Chunker.antt =====
-- rag/chunker.py `chunk_text`: the paragraphs of a text, cut into windows that overlap. Positions are
-- offsets of code points.
pub mod Cover
pub mod Paragraphs
mod Tests
use darknetra.Prelude.{
  ℕ, zero, suc, ◌+◌, ◌-◌, ◌/◌, max, min, List, [], ◌∷◌, ◌++◌, Text, Bool, true, false, ◌&&◌, ◌||◌,
  ◌==◌, ltb, leb, Option, none, some, take, drop, length, any, count_if, if◌then◌else◌, Result, ok,
  err, value_error, raise_if, ◌>>◌, not,
}

pub record Span : Type 0 where
  pub start : ℕ
  pub stop : ℕ

abbrev pub newline : ℕ
newline = 10

-- The next character carries a paragraph over a line break.
abbrev pub continues : Text → Bool
continues [] = false
continues (c ∷ t) = not (c == newline)

-- The matches of `[^\n]+(?:\n(?!\n)[^\n]+)*` from a position on; `opened` is the start of the match that is
-- being read.
abbrev pub paragraphs : ℕ → Option ℕ → Text → List Span
paragraphs pos none [] = []
paragraphs pos (some opened) [] = record { start = opened; stop = pos } ∷ []
paragraphs pos none (c ∷ t) =
    let skipped = paragraphs (pos + 1) none t in
    let begun = paragraphs (pos + 1) (some pos) t in if c == newline then skipped else begun
paragraphs pos (some opened) (c ∷ t) =
    let more = paragraphs (pos + 1) (some opened) t in
    let ended = paragraphs (pos + 1) none t in
    if c == newline && not (continues t)
    then record { start = opened; stop = pos } ∷ ended
    else more

-- `[.!?।\n]`
abbrev pub is_break : ℕ → Bool
is_break c = c == 46 || c == 33 || c == 63 || c == 0x964 || c == 10

-- The offset behind the last break of a text, if it has one.
abbrev pub last_break : Text → Option ℕ
last_break [] = none
last_break (c ∷ t) = elim (last_break t) [
  | some n ↦ some (n + 1)
  | none ↦ if is_break c then some 1 else none
]

-- `text[a:b]`
abbrev pub slice : ℕ → ℕ → Text → Text
slice a b text = take (b - a) (drop a text)

-- The end of the window that starts at `start`: behind the last break of its second half, if any.
unfoldable pub window_end : Text → ℕ → ℕ → ℕ → ℕ
window_end text limit start stop =
    let end = min (start + limit) stop in
    if ltb end stop
    then elim (last_break (slice (start + limit / 2) end text)) [
      | none ↦ end
      | some n ↦ start + limit / 2 + n
    ]
    else end

-- The windows of a paragraph. A window starts behind the start of the one before, so as many steps as
-- the paragraph has characters are enough.
unfoldable pub windows : ℕ → Text → ℕ → ℕ → ℕ → ℕ → List Span
windows zero text limit overlap start stop = []
windows (suc fuel) text limit overlap start stop =
    let end = window_end text limit start stop in
    let rest = windows fuel text limit overlap (max (start + 1) (end - overlap)) stop in
    record { start = start; stop = end } ∷ (if end == stop then [] else rest)

abbrev pub all_windows : Text → ℕ → ℕ → List Span → List Span
all_windows text limit overlap [] = []
all_windows text limit overlap (p ∷ ps) =
    windows (p.stop - p.start) text limit overlap p.start p.stop
    ++ all_windows text limit overlap ps

pub data Script : Type 0 where
  guru deva latn : Script

abbrev pub script_of : Text → Script
script_of raw =
    if any (λ c. leb 0x0a00 c && leb c 0x0a7f) raw
    then guru
    else if any (λ c. leb 0x0900 c && leb c 0x097f) raw
    then deva
    else latn

-- `ChunkDraft`: the language is a name of the script, the kind is constant.
pub record ChunkDraft : Type 0 where
  pub ordinal : ℕ
  pub text : Text
  pub span : Span
  pub line_no : ℕ
  pub script : Script

abbrev pub drafts : Text → ℕ → List Span → List ChunkDraft
drafts text ordinal [] = []
drafts text ordinal (w ∷ ws) =
    record {
      ordinal = ordinal;
      text = slice w.start w.stop text;
      span = w;
      line_no = count_if (λ c. c == newline) (take w.start text) + 1;
      script = script_of (slice w.start w.stop text);
    }
    ∷ drafts text (ordinal + 1) ws

-- `chunk_text`: an overlap below zero can not be written here.
unfoldable pub chunk_text : Text → ℕ → ℕ → Result (List ChunkDraft)
chunk_text text limit overlap =
    raise_if (leb limit overlap) value_error
    >> ok (drafts text 0 (all_windows text limit overlap (paragraphs 0 none text)))
