-- ===== src/Prelude/Lists.antt =====
-- Python lists over the native numbers, and scans of a table: a table is the list of its rows, in
-- the order of insertion.
use Prim.Native.Nat.{ℕ, zero, suc, ◌+◌, ◌≤◌, max}
use mathlib.Core.Path.{◌≡◌, refl}
use mathlib.Core.Logic.{inl, inr}
use mathlib.Core.Bool.{Bool, true, false, ◌&&◌, ◌||◌, not}
use mathlib.Core.List.{List, [], ◌∷◌, ◌++◌}
use mathlib.Core.Option.{Option, none, some}
use native.Mathlib.Omega.{arith}
use darknetra.Prelude.Tests.{leb, if◌then◌else◌, ◌==◌, Bool-cases}

module _ {ℓ} {A : Type ℓ} where
  abbrev pub length : List A → ℕ
  length [] = 0
  length (x ∷ xs) = suc (length xs)

  abbrev pub take : ℕ → List A → List A
  take zero xs = []
  take (suc n) [] = []
  take (suc n) (x ∷ xs) = x ∷ take n xs

  abbrev pub drop : ℕ → List A → List A
  drop zero xs = xs
  drop (suc n) [] = []
  drop (suc n) (x ∷ xs) = drop n xs

  pub length-append : (xs ys : List A) → length (xs ++ ys) ≡ length xs + length ys
  length-append [] ys = omega arith
  length-append (x ∷ xs) ys = omega (arith, length-append xs ys)

  -- `any(p(x) for x in xs)`
  abbrev pub any : (A → Bool) → List A → Bool
  any p [] = false
  any p (x ∷ xs) = p x || any p xs

  -- `all(p(x) for x in xs)`
  abbrev pub all : (A → Bool) → List A → Bool
  all p [] = true
  all p (x ∷ xs) = p x && all p xs

  -- `[x for x in xs if p(x)]`, and a query with a `where` clause
  abbrev pub keep : (A → Bool) → List A → List A
  keep p [] = []
  keep p (x ∷ xs) = if p x then x ∷ keep p xs else keep p xs

  -- `session.scalar(select(...).where(p))`: the first row that fits
  abbrev pub find : (A → Bool) → List A → Option A
  find p [] = none
  find p (x ∷ xs) = if p x then some x else find p xs

  -- `select(func.count()).where(p)`, and `sum(p(x) for x in xs)`
  abbrev pub count_if : (A → Bool) → List A → ℕ
  count_if p [] = 0
  count_if p (x ∷ xs) = if p x then suc (count_if p xs) else count_if p xs

  -- an update of every row that fits
  abbrev pub update_if : (A → Bool) → (A → A) → List A → List A
  update_if p f [] = []
  update_if p f (x ∷ xs) = (if p x then f x else x) ∷ update_if p f xs

  -- every row satisfies the property
  abbrev pub All {κ} : (A → Type κ) → List A → Type κ
  All P [] = Unit
  All P (x ∷ xs) = P x × All P xs

module _ {ℓ} {A : Type ℓ} where
  pub find-some :
      (p : A → Bool) (xs : List A) (a : A) → find p xs ≡ some a → (p a ≡ true) × (any p xs ≡ true)
  find-some p [] a h = cc
  find-some p (x ∷ xs) a h = ground (arith, find-some p xs a)

  pub find-none : (p : A → Bool) (xs : List A) → find p xs ≡ none → any p xs ≡ false
  find-none p [] h = refl
  find-none p (x ∷ xs) h = ground (arith, find-none p xs)

  pub find-append :
      (p : A → Bool) (xs ys : List A)
      → find p (xs ++ ys) ≡ elim (find p xs) [ none ↦ find p ys | some a ↦ some a ]
  find-append p [] ys = refl
  find-append p (x ∷ xs) ys = ground (arith, find-append p xs ys)

  pub any-append : (p : A → Bool) (xs ys : List A) → any p (xs ++ ys) ≡ (any p xs || any p ys)
  any-append p [] ys = refl
  any-append p (x ∷ xs) ys = ground (arith, any-append p xs ys)

  pub find-snoc :
      (p : A → Bool) (xs : List A) (c : A)
      → any p xs ≡ false
      → p c ≡ true
      → find p (xs ++ (c ∷ [])) ≡ some c
  find-snoc p [] c h k = ground arith
  find-snoc p (x ∷ xs) c h k = ground (arith, find-snoc p xs c)

  pub any-&& : (p q : A → Bool) (xs : List A) → any p xs ≡ false → any (λ x. p x && q x) xs ≡ false
  any-&& p q [] h = refl
  any-&& p q (x ∷ xs) h = ground (arith, any-&& p q xs)

  pub any-keep : (q p : A → Bool) (xs : List A) → any q (keep p xs) ≡ true → any q xs ≡ true
  any-keep q p [] h = h
  any-keep q p (x ∷ xs) h = ground (arith, any-keep q p xs)

  pub count_if-append :
      (p : A → Bool) (xs ys : List A) → count_if p (xs ++ ys) ≡ count_if p xs + count_if p ys
  count_if-append p [] ys = omega arith
  count_if-append p (x ∷ xs) ys = ground (arith, count_if-append p xs ys)

  pub count_if-zero : (p : A → Bool) (xs : List A) → any p xs ≡ false → count_if p xs ≡ 0
  count_if-zero p [] h = refl
  count_if-zero p (x ∷ xs) h = ground (arith, count_if-zero p xs)

  pub count_if-keep :
      (q p : A → Bool) (xs : List A) → count_if q (keep p xs) ≡ count_if (λ x. p x && q x) xs
  count_if-keep q p [] = refl
  count_if-keep q p (x ∷ xs) = ground (arith, count_if-keep q p xs)

  pub keep-append : (p : A → Bool) (xs ys : List A) → keep p (xs ++ ys) ≡ keep p xs ++ keep p ys
  keep-append p [] ys = refl
  keep-append p (x ∷ xs) ys = ground (arith, keep-append p xs ys)

  pub length-keep : (p : A → Bool) (xs : List A) → length (keep p xs) ≡ count_if p xs
  length-keep p [] = refl
  length-keep p (x ∷ xs) = ground (arith, length-keep p xs)

  -- Items that pass `p` are those that pass `p` without `q` and those that pass both.
  pub count_if-split :
      (p q r : A → Bool)
      → ((x : A) → r x ≡ (p x && not (q x)))
      → (xs : List A) → count_if r xs + count_if (λ x. p x && q x) xs ≡ count_if p xs
  count_if-split p q r h [] = refl
  count_if-split p q r h (x ∷ xs) = ground (arith, h x, count_if-split p q r h xs)

  pub count_if-le :
      (p q : A → Bool)
      → ((x : A) → p x ≡ true → q x ≡ true)
      → (xs : List A) → count_if p xs ≤ count_if q xs
  count_if-le p q h [] = omega arith
  count_if-le p q h (x ∷ xs) = ground (arith, h x, count_if-le p q h xs)

  pub All-append {κ} : (P : A → Type κ) (xs ys : List A) → All P xs → All P ys → All P (xs ++ ys)
  All-append P [] ys h k = k
  All-append P (x ∷ xs) ys h k = (h.0, All-append P xs ys h.1 k)

  -- An update that keeps every count-relevant test keeps the count.
  pub count_if-update_if :
      (q p : A → Bool) (f : A → A) (xs : List A)
      → ((x : A) → p x ≡ true → q (f x) ≡ q x)
      → count_if q (update_if p f xs) ≡ count_if q xs
  count_if-update_if q p f [] h = refl
  count_if-update_if q p f (x ∷ xs) h = elim (Bool-cases (p x)) [
    | inl yes_p ↦ rw (yes_p, h x yes_p) (ground (arith, count_if-update_if q p f xs h))
    | inr no_p ↦ rw no_p (ground (arith, count_if-update_if q p f xs h))
  ]

  -- An update after which fewer rows pass a test does not raise its count.
  pub count_if-update_if_le :
      (q p : A → Bool) (f : A → A) (xs : List A)
      → ((x : A) → q (f x) ≡ true → q x ≡ true)
      → count_if q (update_if p f xs) ≤ count_if q xs
  count_if-update_if_le q p f [] h = omega arith
  count_if-update_if_le q p f (x ∷ xs) h = elim (Bool-cases (p x)) [
    | inl yes_p ↦ rw yes_p (ground (arith, h x, count_if-update_if_le q p f xs h))
    | inr no_p ↦ rw no_p (ground (arith, count_if-update_if_le q p f xs h))
  ]

  pub All-update_if {κ} :
      (P : A → Type κ) (p : A → Bool) (f : A → A) (xs : List A)
      → ((x : A) → P x → P (f x))
      → All P xs
      → All P (update_if p f xs)
  All-update_if P p f [] h all = tt
  All-update_if P p f (x ∷ xs) h all = elim (Bool-cases (p x)) [
    | inl yes_p ↦ rw yes_p (h x all.0, All-update_if P p f xs h all.1)
    | inr no_p ↦ rw no_p (all.0, All-update_if P p f xs h all.1)
  ]

-- `x in xs` for identifiers
abbrev pub mem : ℕ → List ℕ → Bool
mem a xs = any (λ x. a == x) xs

-- `set(xs) <= set(ys)`
abbrev pub subset : List ℕ → List ℕ → Bool
subset xs ys = all (λ x. mem x ys) xs

-- `select(func.coalesce(func.max(x), 0))`
abbrev pub max_of : List ℕ → ℕ
max_of [] = 0
max_of (x ∷ xs) = max x (max_of xs)

pub mem-le-max_of : (a : ℕ) (xs : List ℕ) → mem a xs ≡ true → a ≤ max_of xs
mem-le-max_of a [] h = cc
mem-le-max_of a (x ∷ xs) h = ground (arith, mem-le-max_of a xs)

-- `list(dict.fromkeys(xs))`: the first of equal items is kept, in order.
abbrev pub dedupe : List ℕ → List ℕ
dedupe [] = []
dedupe (x ∷ xs) = x ∷ keep (λ y. not (y == x)) (dedupe xs)

-- `sorted(xs)`
abbrev pub insert_sorted : ℕ → List ℕ → List ℕ
insert_sorted a [] = a ∷ []
insert_sorted a (x ∷ xs) = if leb a x then a ∷ x ∷ xs else x ∷ insert_sorted a xs

abbrev pub sorted : List ℕ → List ℕ
sorted [] = []
sorted (x ∷ xs) = insert_sorted x (sorted xs)

-- `xs[i]`, where it exists
abbrev pub get_elem? {ℓ} : {A : Type ℓ} → List A → ℕ → Option A
get_elem? [] i = none
get_elem? (x ∷ xs) zero = some x
get_elem? (x ∷ xs) (suc i) = get_elem? xs i
