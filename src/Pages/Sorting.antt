-- ===== src/Pages/Sorting.antt =====
-- The order of api/pagination.py: sorting, and the rows behind a place.
use darknetra.Prelude.{
  ℕ, zero, suc, List, [], ◌∷◌, Bool, true, false, ◌≡◌, refl, some, keep, take, drop, length, All,
  arith, if◌then◌else◌, Bool-cases, inl, inr, ◌≢◌, subst, sym,
}
use darknetra.Pages.{Row, comes_first, insert_row, order_by, last_row}

-- Each row comes strictly before those behind it.
abbrev pub IsOrdered : Bool → List Row → Type 0
IsOrdered newest [] = Unit
IsOrdered newest (a ∷ rows) = All (λ b. comes_first newest a b ≡ true) rows × IsOrdered newest rows

-- No two rows have one identifier: it is the primary key.
abbrev pub HasKeys : List Row → Type 0
HasKeys [] = Unit
HasKeys (a ∷ rows) = All (λ b. a.id ≢ b.id) rows × HasKeys rows

pub comes_first_trans :
    (newest : Bool) (a b c : Row)
    → comes_first newest a b ≡ true
    → comes_first newest b c ≡ true
    → comes_first newest a c ≡ true
comes_first_trans true a b c h k = ground arith
comes_first_trans false a b c h k = ground arith

comes_first_asym :
    (newest : Bool) (a b : Row) → comes_first newest a b ≡ true → comes_first newest b a ≡ false
comes_first_asym true a b h = ground arith
comes_first_asym false a b h = ground arith

comes_first_irrefl : (newest : Bool) (a : Row) → comes_first newest a a ≡ false
comes_first_irrefl true a = ground arith
comes_first_irrefl false a = ground arith

comes_first_total :
    (newest : Bool) (a b : Row)
    → a.id ≢ b.id
    → comes_first newest a b ≡ false
    → comes_first newest b a ≡ true
comes_first_total true a b ne h = ground arith
comes_first_total false a b ne h = ground arith

All-trans :
    (newest : Bool) (a b : Row) (rows : List Row)
    → comes_first newest a b ≡ true
    → All (λ c. comes_first newest b c ≡ true) rows
    → All (λ c. comes_first newest a c ≡ true) rows
All-trans newest a b [] h k = tt
All-trans newest a b (c ∷ rows) h k =
    (comes_first_trans newest a b c h k.0, All-trans newest a b rows h k.1)

All-insert_row {κ} :
    (P : Row → Type κ) (newest : Bool) (a : Row) (rows : List Row)
    → P a
    → All P rows
    → All P (insert_row newest a rows)
All-insert_row P newest a [] h k = (h, tt)
All-insert_row P newest a (b ∷ rows) h k = elim (Bool-cases (comes_first newest a b)) [
  | inl first ↦ rw first (h, k)
  | inr later ↦ rw later (k.0, All-insert_row P newest a rows h k.1)
]

pub All-order_by {κ} :
    (P : Row → Type κ) (newest : Bool) (rows : List Row) → All P rows → All P (order_by newest rows)
unfolding order_by
All-order_by P newest [] h = tt
All-order_by P newest (a ∷ rows) h =
    All-insert_row P newest a (order_by newest rows) h.0 (All-order_by P newest rows h.1)

insert_row-IsOrdered :
    (newest : Bool) (a : Row) (rows : List Row)
    → All (λ b. a.id ≢ b.id) rows
    → IsOrdered newest rows
    → IsOrdered newest (insert_row newest a rows)
insert_row-IsOrdered newest a [] h k = (tt, tt)
insert_row-IsOrdered newest a (b ∷ rows) h k = elim (Bool-cases (comes_first newest a b)) [
  | inl first ↦ rw first ((first, All-trans newest a b rows first k.0), k)
  | inr later ↦ rw later (
    All-insert_row _ newest a rows (comes_first_total newest a b h.0 later) k.0,
    insert_row-IsOrdered newest a rows h.1 k.1,
  )
]

length-insert_row :
    (newest : Bool) (a : Row) (rows : List Row)
    → length (insert_row newest a rows) ≡ suc (length rows)
length-insert_row newest a [] = refl
length-insert_row newest a (b ∷ rows) = ground (arith, length-insert_row newest a rows)

pub order_by-IsOrdered :
    (newest : Bool) (rows : List Row) → HasKeys rows → IsOrdered newest (order_by newest rows)
unfolding order_by
order_by-IsOrdered newest [] h = tt
order_by-IsOrdered newest (a ∷ rows) h =
    insert_row-IsOrdered newest a (order_by newest rows) (All-order_by _ newest rows h.0)
      (order_by-IsOrdered newest rows h.1)

-- Behind a row of an ordered list stands what follows it.
all_after :
    (newest : Bool) (a : Row) (rows : List Row)
    → All (λ b. comes_first newest a b ≡ true) rows
    → keep (comes_first newest a) rows ≡ rows
all_after newest a [] h = refl
all_after newest a (b ∷ rows) h = rw (h.0, all_after newest a rows h.1) refl

pub All-last_row {κ} :
    (P : Row → Type κ) (n : ℕ) (rows : List Row) (a : Row)
    → All P rows
    → last_row (take (suc n) rows) ≡ some a
    → P a
All-last_row P zero [] a h k = cc
All-last_row P zero (b ∷ rows) a h k = let same : b ≡ a = cc in subst P same h.0
All-last_row P (suc n) [] a h k = cc
All-last_row P (suc n) (b ∷ []) a h k = let same : b ≡ a = cc in subst P same h.0
All-last_row P (suc n) (b ∷ c ∷ rows) a h k = All-last_row P n (c ∷ rows) a h.1 k

pub keep-after :
    (newest : Bool) (n : ℕ) (rows : List Row) (a : Row)
    → IsOrdered newest rows
    → last_row (take (suc n) rows) ≡ some a
    → keep (comes_first newest a) rows ≡ drop (suc n) rows
keep-after newest n [] a h k = cc
keep-after newest zero (b ∷ rows) a h k =
    let same : b ≡ a = cc in
    subst (λ c. keep (comes_first newest c) (b ∷ rows) ≡ rows) same
      (rw (comes_first_irrefl newest b) (all_after newest b rows h.0))
keep-after newest (suc n) (b ∷ []) a h k =
    let same : b ≡ a = cc in
    subst (λ c. keep (comes_first newest c) (b ∷ []) ≡ []) same
      (rw (comes_first_irrefl newest b) refl)
keep-after newest (suc n) (b ∷ c ∷ rows) a h k =
    rw (comes_first_asym newest b a (All-last_row _ n (c ∷ rows) a h.0 k))
      (keep-after newest n (c ∷ rows) a h.1 k)

insert_row-first :
    (newest : Bool) (a : Row) (rows : List Row)
    → All (λ b. comes_first newest a b ≡ true) rows
    → insert_row newest a rows ≡ a ∷ rows
insert_row-first newest a [] h = refl
insert_row-first newest a (b ∷ rows) h = rw h.0 refl

pub All-keep {κ} :
    (P : Row → Type κ) (p : Row → Bool) (rows : List Row) → All P rows → All P (keep p rows)
All-keep P p [] h = tt
All-keep P p (a ∷ rows) h = elim (Bool-cases (p a)) [
  | inl yes_p ↦ rw yes_p (h.0, All-keep P p rows h.1)
  | inr no_p ↦ rw no_p (All-keep P p rows h.1)
]

keep-insert_row :
    (p : Row → Bool) (newest : Bool) (a : Row) (rows : List Row)
    → IsOrdered newest rows
    → keep p (insert_row newest a rows)
      ≡ (if p a then insert_row newest a (keep p rows) else keep p rows)
keep-insert_row p newest a [] h = refl
keep-insert_row p newest a (b ∷ rows) h = elim (Bool-cases (comes_first newest a b)) [
  | inl first ↦
      let front : insert_row newest a (keep p rows) ≡ a ∷ keep p rows =
        insert_row-first newest a (keep p rows)
          (All-keep _ p rows (All-trans newest a b rows first h.0)) in
      ground (arith, front)
  | inr later ↦ ground (arith, keep-insert_row p newest a rows h.1)
]

-- Sorting the rows that a condition selects is selecting from the sorted rows.
pub order_by-keep :
    (p : Row → Bool) (newest : Bool) (rows : List Row)
    → HasKeys rows
    → order_by newest (keep p rows) ≡ keep p (order_by newest rows)
unfolding order_by
order_by-keep p newest [] h = refl
order_by-keep p newest (a ∷ rows) h =
    let moved =
      keep-insert_row p newest a (order_by newest rows) (order_by-IsOrdered newest rows h.1) in
    elim (Bool-cases (p a)) [
      | inl yes_p ↦ rw (yes_p, order_by-keep p newest rows h.1) (sym (rw yes_p at moved))
      | inr no_p ↦ rw (no_p, order_by-keep p newest rows h.1) (sym (rw no_p at moved))
    ]

pub length-order_by :
    (newest : Bool) (rows : List Row) → length (order_by newest rows) ≡ length rows
unfolding order_by
length-order_by newest [] = refl
length-order_by newest (a ∷ rows) =
    omega (arith, length-insert_row newest a (order_by newest rows), length-order_by newest rows)
