-- ===== src/Prelude/Keys.antt =====
-- Tables with a primary key: one row is read, added or rewritten by its key.
use Prim.Native.Nat.{ℕ}
use mathlib.Core.Path.{◌≡◌, refl, subst, ◌∙◌, ap}
use mathlib.Core.Logic.{inl, inr}
use mathlib.Core.Bool.{Bool, true, false}
use mathlib.Core.List.{List, [], ◌∷◌, ◌++◌}
use mathlib.Core.Option.{some}
use native.Mathlib.Omega.{arith}
use darknetra.Prelude.Tests.{◌==◌, Bool-cases}
use darknetra.Prelude.Lists.{any, find, keep, update_if, All, any-append}

module _ {ℓ} {A : Type ℓ} where
  pub update_if-none :
      (p : A → Bool) (f : A → A) (xs : List A) → any p xs ≡ false → update_if p f xs ≡ xs
  update_if-none p f [] h = refl
  update_if-none p f (x ∷ xs) h = ground (arith, update_if-none p f xs)

  -- The first row that fits is found in its new form, if it still fits.
  pub find-update_if :
      (p : A → Bool) (f : A → A) (xs : List A) (c : A)
      → find p xs ≡ some c
      → p (f c) ≡ true
      → find p (update_if p f xs) ≡ some (f c)
  find-update_if p f [] c h k = cc
  find-update_if p f (x ∷ xs) c h k = elim (Bool-cases (p x)) [
    | inl here ↦ ground arith
    | inr later ↦ ground (arith, find-update_if p f xs c)
  ]

  -- A search for what an update does not change finds the row in its new form.
  pub find-update_if_stable :
      (q p : A → Bool) (f : A → A) (xs : List A) (c : A)
      → ((x : A) → q (f x) ≡ q x)
      → find q xs ≡ some c
      → p c ≡ true
      → find q (update_if p f xs) ≡ some (f c)
  find-update_if_stable q p f [] c k h l = cc
  find-update_if_stable q p f (x ∷ xs) c k h l = elim (Bool-cases (q x)) [
    | inl here ↦ ground (arith, k x)
    | inr later ↦ ground (arith, k x, find-update_if_stable q p f xs c k)
  ]

  -- A search that neither form of an updated row concerns does not see the update.
  pub find-update_if_other :
      (q p : A → Bool) (f : A → A) (xs : List A)
      → ((x : A) → p x ≡ true → (q x ≡ false) × (q (f x) ≡ false))
      → find q (update_if p f xs) ≡ find q xs
  find-update_if_other q p f [] h = refl
  find-update_if_other q p f (x ∷ xs) h = elim (Bool-cases (p x)) [
    | inl here ↦ let k = h x here in ground (arith, find-update_if_other q p f xs h)
    | inr later ↦ ground (arith, find-update_if_other q p f xs h)
  ]

  pub All-find :
      (P : A → Type 0) (p : A → Bool) (xs : List A) (c : A) → find p xs ≡ some c → All P xs → P c
  All-find P p [] c h all = absurd (ground arith)
  All-find P p (x ∷ xs) c h all = elim (Bool-cases (p x)) [
    | inl here ↦ let e : x ≡ c = ground arith in subst P e all.0
    | inr later ↦ All-find P p xs c (ground arith) all.1
  ]

  pub keep-snoc :
      (p : A → Bool) (xs : List A) (c : A) → p c ≡ false → keep p (xs ++ (c ∷ [])) ≡ keep p xs
  keep-snoc p [] c h = ground arith
  keep-snoc p (x ∷ xs) c h = ground (arith, keep-snoc p xs c h)

  pub All-every : {P : A → Type 0} → ((x : A) → P x) → (xs : List A) → All P xs
  All-every h [] = tt
  All-every h (x ∷ xs) = (h x, All-every h xs)

  pub All-map : (P Q : A → Type 0) → ((x : A) → P x → Q x) → (xs : List A) → All P xs → All Q xs
  All-map P Q h [] all = tt
  All-map P Q h (x ∷ xs) all = (h x all.0, All-map P Q h xs all.1)

  -- Rows that all fail a test, with what they satisfy.
  pub All-none :
      (p : A → Bool) (P Q : A → Type 0)
      → ((x : A) → p x ≡ false → P x → Q x)
      → (xs : List A) → any p xs ≡ false
      → All P xs
      → All Q xs
  All-none p P Q h [] k all = tt
  All-none p P Q h (x ∷ xs) k all =
      (h x (ground arith) all.0, All-none p P Q h xs (ground arith) all.1)

  pub keep-congr : (p q : A → Bool) (xs : List A) → All (λ x. p x ≡ q x) xs → keep p xs ≡ keep q xs
  keep-congr p q [] h = refl
  keep-congr p q (x ∷ xs) h = ground (arith, h.0, keep-congr p q xs h.1)

module _ {ℓ} {A : Type ℓ} (key : A → ℕ) where
  abbrev pub has_key : ℕ → A → Bool
  has_key id x = key x == id

  -- No two rows share a key.
  abbrev pub AreUnique : List A → Type 0
  AreUnique [] = Unit
  AreUnique (x ∷ xs) = (any (has_key (key x)) xs ≡ false) × AreUnique xs

  pub AreUnique-snoc :
      (xs : List A) (c : A)
      → any (has_key (key c)) xs ≡ false
      → AreUnique xs
      → AreUnique (xs ++ (c ∷ []))
  AreUnique-snoc [] c h u = (refl, tt)
  AreUnique-snoc (x ∷ xs) c h u = (
    ground (arith, any-append (has_key (key x)) xs (c ∷ [])),
    AreUnique-snoc xs c (ground arith) u.1,
  )

  pub any-has_key-update_if :
      (id : ℕ) (p : A → Bool) (f : A → A) (xs : List A)
      → ((x : A) → key (f x) ≡ key x)
      → any (has_key id) (update_if p f xs) ≡ any (has_key id) xs
  any-has_key-update_if id p f [] k = refl
  any-has_key-update_if id p f (x ∷ xs) k = ground (arith, k x, any-has_key-update_if id p f xs k)

  pub AreUnique-update_if :
      (p : A → Bool) (f : A → A) (xs : List A)
      → ((x : A) → key (f x) ≡ key x)
      → AreUnique xs
      → AreUnique (update_if p f xs)
  AreUnique-update_if p f [] k u = tt
  AreUnique-update_if p f (x ∷ xs) k u = (
    ground (arith, k x, any-has_key-update_if (key x) p f xs k),
    AreUnique-update_if p f xs k u.1,
  )

  -- A rewritten row keeps the table well formed, if its new form is.
  pub All-update_row :
      (P : A → Type 0) (id : ℕ) (f : A → A) (xs : List A) (c : A)
      → find (has_key id) xs ≡ some c
      → AreUnique xs
      → All P xs
      → P (f c)
      → All P (update_if (has_key id) f xs)
  All-update_row P id f [] c h u all p = tt
  All-update_row P id f (x ∷ xs) c h u all p = elim (Bool-cases (has_key id x)) [
    | inl here ↦
        let e : c ≡ x = ground arith in
        let rest : update_if (has_key id) f xs ≡ xs =
          update_if-none (has_key id) f xs (ground arith) in
        rw (here, rest) (subst (λ y. P (f y)) e p, all.1)
    | inr later ↦ rw later (all.0, All-update_row P id f xs c (ground arith) u.1 all.1 p)
  ]

  pub any-test :
      (p : A → Bool) (id : ℕ) (xs : List A)
      → ((x : A) → p x ≡ true → has_key id x ≡ true)
      → any (has_key id) xs ≡ false
      → any p xs ≡ false
  any-test p id [] h k = refl
  any-test p id (x ∷ xs) h k = ground (arith, h x, any-test p id xs h)

  -- An update of the one row that a test finds, whose key the test fixes.
  pub All-update_found :
      (P Q : A → Type 0) (p : A → Bool) (f : A → A) (id : ℕ) (xs : List A) (c : A)
      → ((x : A) → p x ≡ true → has_key id x ≡ true)
      → ((x : A) → p x ≡ false → P x → Q x)
      → find p xs ≡ some c
      → AreUnique xs
      → All P xs
      → Q (f c)
      → All Q (update_if p f xs)
  All-update_found P Q p f id [] c own other found u all new = tt
  All-update_found P Q p f id (x ∷ xs) c own other found u all new = elim (Bool-cases (p x)) [
    | inl here ↦
        let e : c ≡ x = ground arith in
        let mine : key x ≡ id = ground (arith, own x here) in
        let rest : any p xs ≡ false =
          any-test p id xs own (subst (λ k. any (has_key k) xs ≡ false) mine u.0) in
        rw (here, update_if-none p f xs rest)
          (subst (λ y. Q (f y)) e new, All-none p P Q other xs rest all.1)
    | inr later ↦ rw later (
      other x later all.0,
      All-update_found P Q p f id xs c own other (ground arith) u.1 all.1 new,
    )
  ]

module _ {ℓ} {A : Type ℓ} where
  -- Rows that are pairwise apart.
  abbrev pub AreApart : (A → A → Bool) → List A → Type ℓ
  AreApart q [] = Unit
  AreApart q (x ∷ xs) = (any (q x) xs ≡ false) × AreApart q xs

  pub AreApart-snoc :
      (q : A → A → Bool) (xs : List A) (c : A)
      → any (λ x. q x c) xs ≡ false
      → AreApart q xs
      → AreApart q (xs ++ (c ∷ []))
  AreApart-snoc q [] c h k = (refl, tt)
  AreApart-snoc q (x ∷ xs) c h k =
      (ground (arith, any-append (q x) xs (c ∷ [])), AreApart-snoc q xs c (ground arith) k.1)

  any-update_if :
      (q p : A → Bool) (f : A → A) (xs : List A)
      → ((x : A) → q (f x) ≡ q x)
      → any q (update_if p f xs) ≡ any q xs
  any-update_if q p f [] h = refl
  any-update_if q p f (x ∷ xs) h = ground (arith, h x, any-update_if q p f xs h)

  pub AreApart-update_if :
      (q : A → A → Bool) (p : A → Bool) (f : A → A) (xs : List A)
      → ((x y : A) → (q (f x) y ≡ q x y) × (q x (f y) ≡ q x y))
      → AreApart q xs
      → AreApart q (update_if p f xs)
  AreApart-update_if q p f [] h k = tt
  AreApart-update_if q p f (x ∷ xs) h k = elim (Bool-cases (p x)) [
    | inl yes_p ↦ rw yes_p (
      any-update_if (q (f x)) p f xs (λ y. (h (f x) y).1)
          ∙ ap (λ t. any t xs) (λ i y. (h x y).0 i)
          ∙ k.0,
      AreApart-update_if q p f xs h k.1,
    )
    | inr no_p ↦
        rw no_p
          (any-update_if (q x) p f xs (λ y. (h x y).1) ∙ k.0, AreApart-update_if q p f xs h k.1)
  ]
