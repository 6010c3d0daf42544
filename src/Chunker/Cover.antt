-- ===== src/Chunker/Cover.antt =====
-- rag/chunker.py: the positions in the windows of a paragraph.
use darknetra.Prelude.{
  ℕ, zero, suc, ◌+◌, ◌-◌, ◌≤◌, ◌<◌, ◌≡◌, [], ◌∷◌, Text, arith, true, any, some, length, min, Bool,
  max, All, Option-cases, take, ◌/◌, leb, Bool-cases, drop, ◌&&◌, ltb, ◌==◌, inl, inr,
}
use darknetra.Chunker.{Span, last_break, slice, window_end, windows}

last_break-bounds : (t : Text) (n : ℕ) → last_break t ≡ some n → (1 ≤ n) × (n ≤ length t)
last_break-bounds [] n h = cc
last_break-bounds (c ∷ t) n h = elim (Option-cases (last_break t)) [
  | inl absent ↦ ground arith
  | inr (m, later) ↦ ground (arith, last_break-bounds t m later)
]

length-take-le : (n : ℕ) (t : Text) → length (take n t) ≤ n
length-take-le zero t = omega arith
length-take-le (suc n) [] = omega arith
length-take-le (suc n) (c ∷ t) = omega (arith, length-take-le n t)

-- A window is not empty, ends in the paragraph, and is no longer than the limit.
pub window_end-bounds :
    (text : Text) (limit start stop : ℕ)
    → 1 ≤ limit
    → start < stop
    → (start < window_end text limit start stop)
      × (window_end text limit start stop ≤ stop)
      × (window_end text limit start stop ≤ start + limit)
unfolding window_end
window_end-bounds text limit start stop some_room inside =
    let end : ℕ = min (start + limit) stop in
    let half : Text = slice (start + limit / 2) end text in
    let short = length-take-le (end - (start + limit / 2)) (drop (start + limit / 2) text) in
    elim (Option-cases (last_break half)) [
      | inl unbroken ↦ ground arith
      | inr (n, found) ↦
          let bounds = last_break-bounds half n found in ground (arith, bounds.0, bounds.1, short)
    ]

-- A position lies in one of the windows.
abbrev pub is_in : ℕ → Span → Bool
is_in p w = leb w.start p && ltb p w.stop

-- Every position of a paragraph lies in one of its windows: the fuel given is enough.
pub windows-cover :
    (fuel : ℕ) (text : Text) (limit overlap start stop p : ℕ)
    → overlap < limit
    → stop ≤ start + fuel
    → start ≤ p
    → p < stop
    → any (is_in p) (windows fuel text limit overlap start stop) ≡ true
unfolding windows
windows-cover zero text limit overlap start stop p room enough low high = absurd (omega arith)
windows-cover (suc fuel) text limit overlap start stop p room enough low high =
    let end : ℕ = window_end text limit start stop in
    let next : ℕ = max (start + 1) (end - overlap) in
    let (ahead, inside, short) =
      window_end-bounds text limit start stop (omega arith) (omega arith) in
    elim (Bool-cases (ltb p end)) [
      | inl here ↦ ground arith
      | inr later ↦
          let rest =
            windows-cover fuel text limit overlap next stop p room (omega arith) (ground arith)
              high in
          ground (arith, rest)
    ]

-- The windows that a cut makes are not empty, and no longer than the limit.
abbrev pub IsWindow : ℕ → Span → Type 0
IsWindow limit w = (w.start < w.stop) × (w.stop ≤ w.start + limit)

pub windows-bounded :
    (fuel : ℕ) (text : Text) (limit overlap start stop : ℕ)
    → overlap < limit
    → start < stop
    → All (IsWindow limit) (windows fuel text limit overlap start stop)
unfolding windows
windows-bounded zero text limit overlap start stop room inside = tt
windows-bounded (suc fuel) text limit overlap start stop room inside =
    let end : ℕ = window_end text limit start stop in
    let (ahead, within_stop, short) =
      window_end-bounds text limit start stop (omega arith) inside in
    elim (Bool-cases (end == stop)) [
      | inl last ↦ rw last ((ahead, short), tt)
      | inr more ↦ rw more (
        (ahead, short),
        windows-bounded fuel text limit overlap (max (start + 1) (end - overlap)) stop room
            (ground arith),
      )
    ]
