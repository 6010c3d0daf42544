-- ===== src/Pages/Walk.antt =====
-- Following the cursors of api/pagination.py from the first page to the last.
use darknetra.Prelude.{
  ℕ, zero, suc, ◌<◌, ◌≤◌, List, [], ◌∷◌, ◌++◌, if◌then◌else◌, Bool, true, false, ◌≡◌, refl, Option,
  none, some, sym, ap, ◌∙◌, min, keep, take, drop, length, All, arith, Bool-cases, inl, inr, Result,
  ok, err, internal, ◌>>=◌, Text, ◌-◌, leb, ltb, ◌+◌, ltb→lt,
}
use mathlib.Core.Path.{◌≡⟨◌⟩◌, ◌∎}
use darknetra.Pages.{
  Row, Place, Codec, place_of, comes_first, order_by, is_after, last_row, read_cursor, page_rows,
  page_after,
}
use darknetra.Pages.Sorting.{
  IsOrdered, HasKeys, comes_first_trans, order_by-IsOrdered, keep-after, order_by-keep, All-keep,
  All-last_row, length-order_by,
}

-- A cursor that was written for a place is read as that place, and is not empty.
pub record IsFaithful (codec : Codec) : Type 0 where
  pub written :
      (newest : Bool) (a : Row)
      → read_cursor codec newest (some (codec.encode (place_of newest a)))
        ≡ ok (some (place_of newest a))

-- A client that asks for page after page, for at most `fuel` pages.
abbrev pub walk : Codec → Bool → List Row → ℕ → ℕ → Option Text → Result (List Row)
walk codec newest table limit zero cursor = err internal
walk codec newest table limit (suc fuel) cursor =
    page_rows codec newest table limit cursor >>= λ page. elim page.next_cursor [
      | none ↦ ok page.rows
      | some next ↦
          walk codec newest table limit fuel (some next) >>= λ rest. ok (page.rows ++ rest)
    ]

abbrev behind : Bool → Option Row → Row → Bool
behind newest none row = true
behind newest (some a) row = comes_first newest a row

abbrev place_of? : Bool → Option Row → Option Place
place_of? newest none = none
place_of? newest (some a) = some (place_of newest a)

is_after-eq-behind :
    (newest : Bool) (from : Option Row) → is_after (place_of? newest from) ≡ behind newest from
is_after-eq-behind newest none = refl
is_after-eq-behind true (some a) = refl
is_after-eq-behind false (some a) = refl

behind_trans :
    (newest : Bool) (from : Option Row) (a b : Row)
    → behind newest from a ≡ true
    → comes_first newest a b ≡ true
    → behind newest from b ≡ true
behind_trans newest none a b h k = refl
behind_trans newest (some c) a b h k = comes_first_trans newest c a b h k

keep-keep :
    (p q : Row → Bool) (rows : List Row)
    → ((b : Row) → q b ≡ true → p b ≡ true)
    → keep q (keep p rows) ≡ keep q rows
keep-keep p q [] h = refl
keep-keep p q (a ∷ rows) h = ground (arith, h a, keep-keep p q rows h)

take_append_drop : (n : ℕ) (rows : List Row) → take n rows ++ drop n rows ≡ rows
take_append_drop zero rows = refl
take_append_drop (suc n) [] = refl
take_append_drop (suc n) (a ∷ rows) = rw (take_append_drop n rows) refl

take-take : (n m : ℕ) (rows : List Row) → n ≤ m → take n (take m rows) ≡ take n rows
take-take zero m rows h = refl
take-take (suc n) zero rows h = absurd (omega arith)
take-take (suc n) (suc m) [] h = refl
take-take (suc n) (suc m) (a ∷ rows) h = rw (take-take n m rows (omega arith)) refl

length-take : (n : ℕ) (rows : List Row) → length (take n rows) ≡ min n (length rows)
length-take zero rows = omega arith
length-take (suc n) [] = omega arith
length-take (suc n) (a ∷ rows) = omega (arith, length-take n rows)

take_all : (n : ℕ) (rows : List Row) → length rows ≤ n → take n rows ≡ rows
take_all zero [] h = refl
take_all zero (a ∷ rows) h = absurd (omega arith)
take_all (suc n) [] h = refl
take_all (suc n) (a ∷ rows) h = rw (take_all n rows (omega arith)) refl

length-drop : (n : ℕ) (rows : List Row) → length (drop (suc n) rows) ≤ length rows - suc n
length-drop n [] = omega arith
length-drop zero (a ∷ rows) = omega arith
length-drop (suc n) (a ∷ rows) = omega (arith, length-drop n rows)

last_row-take :
    (n : ℕ) (rows : List Row)
    → 0 < length rows
    → (a : Row) × (last_row (take (suc n) rows) ≡ some a)
last_row-take n [] h = absurd (omega arith)
last_row-take zero (a ∷ rows) h = (a, refl)
last_row-take (suc n) (a ∷ []) h = (a, refl)
last_row-take (suc n) (a ∷ b ∷ rows) h = last_row-take n (b ∷ rows) (omega arith)

All-keep-true : (p : Row → Bool) (rows : List Row) → All (λ b. p b ≡ true) (keep p rows)
All-keep-true p [] = tt
All-keep-true p (a ∷ rows) = elim (Bool-cases (p a)) [
  | inl yes_p ↦ rw yes_p (yes_p, All-keep-true p rows)
  | inr no_p ↦ rw no_p (All-keep-true p rows)
]

module _ (codec : Codec) (faithful : IsFaithful codec) (newest : Bool) (table : List Row)
    (keys : HasKeys table) (n : ℕ) (small : n < 200) where
  -- The rows behind a place, in their order.
  window : Option Row → List Row
  window from = order_by newest (keep (is_after (place_of? newest from)) table)

  window-eq-keep :
      (from : Option Row) → window from ≡ keep (behind newest from) (order_by newest table)
  unfolding window
  window-eq-keep from =
      order_by-keep (is_after (place_of? newest from)) newest table keys
      ∙ ap (λ p. keep p (order_by newest table)) (is_after-eq-behind newest from)

  keep-IsOrdered :
      (p : Row → Bool) (rows : List Row) → IsOrdered newest rows → IsOrdered newest (keep p rows)
  keep-IsOrdered p [] h = tt
  keep-IsOrdered p (a ∷ rows) h = elim (Bool-cases (p a)) [
    | inl yes_p ↦ rw yes_p (All-keep _ p rows h.0, keep-IsOrdered p rows h.1)
    | inr no_p ↦ rw no_p (keep-IsOrdered p rows h.1)
  ]

  -- The window behind the last row of a page is what the page leaves.
  window-next :
      (from : Option Row) (a : Row)
      → last_row (take (suc n) (window from)) ≡ some a
      → window (some a) ≡ drop (suc n) (window from)
  window-next from a h =
      let all = order_by newest table in
      let kept = keep (behind newest from) all in
      let same = window-eq-keep from in
      let found : last_row (take (suc n) kept) ≡ some a = rw same at h in
      let here : behind newest from a ≡ true =
        All-last_row (λ b. behind newest from b ≡ true) n kept a
          (All-keep-true (behind newest from) all) found in
      let sorted : IsOrdered newest kept =
        keep-IsOrdered (behind newest from) all (order_by-IsOrdered newest table keys) in
      window (some a)
      ≡⟨ window-eq-keep (some a) ⟩ keep (comes_first newest a) all
      ≡⟨ sym (
          keep-keep (behind newest from) (comes_first newest a) all
            (λ b k. behind_trans newest from a b here k)) ⟩
        keep (comes_first newest a) kept
      ≡⟨ keep-after newest n kept a sorted found ⟩ drop (suc n) kept
      ≡⟨ ap (drop (suc n)) (sym same) ⟩ drop (suc n) (window from) ∎

  -- The page behind a place, in terms of the window.
  next_of : List Row → Option Text
  next_of rows =
      if ltb (suc n) (length rows)
      then elim (last_row (take (suc n) rows)) [
        | none ↦ none
        | some a ↦ some (codec.encode (place_of newest a))
      ]
      else none

  page_after-eq :
      (from : Option Row)
      → page_after codec newest table (suc n) (place_of? newest from) ≡ record {
        rows = take (suc n) (window from);
        next_cursor = next_of (window from);
        total = length table;
      }
  unfolding window next_of
  page_after-eq from =
      let found = window from in
      let same = take-take (suc n) (suc n + 1) found (omega arith) in
      let size = length-take (suc n + 1) found in
      let test : ltb (suc n) (length (take (suc n + 1) found)) ≡ ltb (suc n) (length found) =
        ground (arith, size) in
      rw (same, test) refl

  page_rows-eq :
      (cursor : Option Text) (from : Option Row)
      → read_cursor codec newest cursor ≡ ok (place_of? newest from)
      → page_rows codec newest table (suc n) cursor
        ≡ ok (record {
          rows = take (suc n) (window from);
          next_cursor = next_of (window from);
          total = length table;
        })
  unfolding page_rows
  page_rows-eq cursor from h =
      let low : leb 1 (suc n) ≡ true = ground arith in
      let high : leb (suc n) 200 ≡ true = ground arith in rw (low, high, h, page_after-eq from) refl

  walk-eq-window :
      (fuel : ℕ) (cursor : Option Text) (from : Option Row)
      → read_cursor codec newest cursor ≡ ok (place_of? newest from)
      → length (window from) < fuel
      → walk codec newest table (suc n) fuel cursor ≡ ok (window from)
  unfolding next_of
  walk-eq-window zero cursor from h k = absurd (omega arith)
  walk-eq-window (suc fuel) cursor from h k =
      let here = page_rows-eq cursor from h in
      let found = window from in
      elim (Bool-cases (ltb (suc n) (length found))) [
        | inl more ↦
            let (a, last) = last_row-take n found (ground arith) in
            let left = window-next from a last in
            let rest =
              walk-eq-window fuel (some (codec.encode (place_of newest a))) (some a)
                (faithful.written newest a)
                (omega (
                  arith,
                  ap length left,
                  length-drop n found,
                  ltb→lt (suc n) (length found) more,
                )) in
            rw (here, more, last, rest, left) (ap ok (take_append_drop (suc n) found))
        | inr done ↦ rw (here, done) (ap ok (take_all (suc n) found (ground arith)))
      ]

  keep_all : (rows : List Row) → keep (λ b. true) rows ≡ rows
  keep_all [] = refl
  keep_all (a ∷ rows) = rw (keep_all rows) refl

  -- Asking for page after page, from the first one on, yields every row of the query exactly once and
  -- in order, for any limit from 1 to 200, if identifiers are unique and a written cursor is read as
  -- its place. As many pages as there are rows, and one more, are enough.
  pub walk-eq-order_by :
      walk codec newest table (suc n) (suc (length table)) none ≡ ok (order_by newest table)
  unfolding window
  walk-eq-order_by =
      let all : window none ≡ order_by newest table = ap (order_by newest) (keep_all table) in
      walk-eq-window (suc (length table)) none none refl
        (omega (arith, ap length all, length-order_by newest table))
      ∙ ap ok all
