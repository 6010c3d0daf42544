-- ===== src/Blocking/Combinations.antt =====
-- Laws of the pairs of a list, and of the keys of an index.
use darknetra.Prelude.{
  ℕ, List, [], ◌∷◌, ◌++◌, ◌≡◌, refl, Bool, true, false, not, ◌&&◌, ◌||◌, ◌==◌, any-append, map,
  keep, mem, dedupe, sorted, insert_sorted, All, All-append, All-map, arith, Bool-cases, inl, inr,
  ◌⊎◌, ◌∙◌, subst,
}
use darknetra.Blocking.{Profile, combinations, signals_of, keys_of}

module _ {ℓ} {A : Type ℓ} where
  pub All-left {κ} : (P : A → Type κ) (xs ys : List A) → All P (xs ++ ys) → All P xs
  All-left P [] ys h = tt
  All-left P (x ∷ xs) ys h = (h.0, All-left P xs ys h.1)

  pub All-right {κ} : (P : A → Type κ) (xs ys : List A) → All P (xs ++ ys) → All P ys
  All-right P [] ys h = h
  All-right P (x ∷ xs) ys h = All-right P xs ys h.1

  pub All-both : (P Q : A → Type 0) (xs : List A) → All P xs → All Q xs → All (λ x. P x × Q x) xs
  All-both P Q [] h k = tt
  All-both P Q (x ∷ xs) h k = ((h.0, k.0), All-both P Q xs h.1 k.1)

-- What holds of every pair of a sublist holds of every pair of the list that lies in it.
module _ {A : Type 0} (p : A → Bool) (Q : A × A → Type 0) where
  with_first :
      (x : A)
      → p x ≡ true
      → (xs : List A) → All Q (map (λ y. (x, y)) (keep p xs))
      → All (λ c. ((p c.0 && p c.1) ≡ false) ⊎ Q c) (map (λ y. (x, y)) xs)
  with_first x h [] k = tt
  with_first x h (y ∷ xs) k = elim (Bool-cases (p y)) [
    | inl here ↦ let k' = rw here at k in (inr k'.0, with_first x h xs k'.1)
    | inr there ↦ (inl (ground arith), with_first x h xs (rw there at k))
  ]

  without_first :
      (x : A)
      → p x ≡ false
      → (xs : List A) → All (λ c. ((p c.0 && p c.1) ≡ false) ⊎ Q c) (map (λ y. (x, y)) xs)
  without_first x h [] = tt
  without_first x h (y ∷ xs) = (inl (ground arith), without_first x h xs)

  pub combinations-keep :
      (xs : List A)
      → All Q (combinations (keep p xs))
      → All (λ c. ((p c.0 && p c.1) ≡ false) ⊎ Q c) (combinations xs)
  combinations-keep [] h = tt
  combinations-keep (x ∷ xs) h = elim (Bool-cases (p x)) [
    | inl here ↦
        let k = rw here at h in
        All-append _ (map (λ y. (x, y)) xs) (combinations xs)
          (with_first x here xs (All-left Q (map (λ y. (x, y)) (keep p xs)) _ k))
          (combinations-keep xs (All-right Q (map (λ y. (x, y)) (keep p xs)) _ k))
    | inr there ↦
        All-append _ (map (λ y. (x, y)) xs) (combinations xs) (without_first x there xs)
          (combinations-keep xs (rw there at h))
  ]

-- The first of every pair comes from the list.
module _ {A : Type 0} (P : A → Type 0) where
  firsts : (x : A) → P x → (xs : List A) → All (λ (c : A × A). P c.0) (map (λ y. (x, y)) xs)
  firsts x h [] = tt
  firsts x h (y ∷ xs) = (h, firsts x h xs)

  pub combinations-first : (xs : List A) → All P xs → All (λ c. P c.0) (combinations xs)
  combinations-first [] h = tt
  combinations-first (x ∷ xs) h =
      All-append _ (map (λ y. (x, y)) xs) (combinations xs) (firsts x h.0 xs)
        (combinations-first xs h.1)

pub All-swap :
    {A B : Type 0} (R : A → B → Type 0) (xs : List A) (ys : List B)
    → All (λ x. All (R x) ys) xs
    → All (λ y. All (λ x. R x y) xs) ys
All-swap R xs [] h = tt
All-swap R xs (y ∷ ys) h = (
  All-map (λ x. All (R x) (y ∷ ys)) (λ x. R x y) (λ x k. k.0) xs h,
  All-swap R xs ys (All-map (λ x. All (R x) (y ∷ ys)) (λ x. All (R x) ys) (λ x k. k.1) xs h),
)

pub All-mem : (P : ℕ → Type 0) (k : ℕ) (ks : List ℕ) → mem k ks ≡ true → All P ks → P k
All-mem P k [] h all = absurd (cc h)
All-mem P k (j ∷ ks) h all = elim (Bool-cases (k == j)) [
  | inl here ↦ let e : j ≡ k = ground arith in subst P e all.0
  | inr there ↦ All-mem P k ks (ground arith) all.1
]

mem-insert_sorted : (k a : ℕ) (xs : List ℕ) → mem k (insert_sorted a xs) ≡ (k == a || mem k xs)
mem-insert_sorted k a [] = ground arith
mem-insert_sorted k a (x ∷ xs) = ground (arith, mem-insert_sorted k a xs)

mem-sorted : (k : ℕ) (xs : List ℕ) → mem k (sorted xs) ≡ mem k xs
mem-sorted k [] = refl
mem-sorted k (x ∷ xs) = mem-insert_sorted k x (sorted xs) ∙ ground (arith, mem-sorted k xs)

mem-without :
    (k x : ℕ) (xs : List ℕ) → (k == x) ≡ false → mem k (keep (λ y. not (y == x)) xs) ≡ mem k xs
mem-without k x [] h = refl
mem-without k x (y ∷ xs) h = ground (arith, mem-without k x xs h)

mem-dedupe : (k : ℕ) (xs : List ℕ) → mem k (dedupe xs) ≡ mem k xs
mem-dedupe k [] = refl
mem-dedupe k (x ∷ xs) = elim (Bool-cases (k == x)) [
  | inl here ↦ rw here refl
  | inr there ↦ rw (there, mem-without k x (dedupe xs) there, mem-dedupe k xs) refl
]

mem_self-append : (xs ys : List ℕ) → All (λ k. mem k (xs ++ ys) ≡ true) xs
mem_self-append [] ys = tt
mem_self-append (x ∷ xs) ys = (
  ground arith,
  All-map (λ k. mem k (xs ++ ys) ≡ true) (λ k. mem k (x ∷ xs ++ ys) ≡ true)
      (λ k h. ground (arith, h)) xs (mem_self-append xs ys),
)

pub mem_self : (xs : List ℕ) → All (λ k. mem k xs ≡ true) xs
mem_self [] = tt
mem_self (x ∷ xs) = (
  ground arith,
  All-map (λ k. mem k xs ≡ true) (λ k. mem k (x ∷ xs) ≡ true) (λ k h. ground (arith, h)) xs
      (mem_self xs),
)

-- Every signal of every profile is a key.
module _ (signals : Profile → List ℕ) where
  mem-signals_of :
      (ps : List Profile)
      → All (λ p. All (λ k. mem k (signals_of signals ps) ≡ true) (signals p)) ps
  mem-signals_of [] = tt
  mem-signals_of (p ∷ ps) = (
    mem_self-append (signals p) (signals_of signals ps),
    All-map (λ q. All (λ k. mem k (signals_of signals ps) ≡ true) (signals q)) _
        (λ q h.
          All-map (λ k. mem k (signals_of signals ps) ≡ true)
            (λ k. mem k (signals p ++ signals_of signals ps) ≡ true)
            (λ k found.
              ground (arith, any-append (λ x. k == x) (signals p) (signals_of signals ps), found))
            (signals q) h)
        ps (mem-signals_of ps),
  )

  pub mem-keys_of :
      (ps : List Profile) → All (λ p. All (λ k. mem k (keys_of signals ps) ≡ true) (signals p)) ps
  mem-keys_of ps =
      All-map (λ p. All (λ k. mem k (signals_of signals ps) ≡ true) (signals p)) _
        (λ p h.
          All-map (λ k. mem k (signals_of signals ps) ≡ true)
            (λ k. mem k (keys_of signals ps) ≡ true)
            (λ k found.
              mem-sorted k (dedupe (signals_of signals ps))
              ∙ (mem-dedupe k (signals_of signals ps) ∙ found))
            (signals p) h)
        ps (mem-signals_of ps)
