-- ===== src/Cases/Owners.antt =====
-- A case keeps an owner through the changes of its members.
use darknetra.Prelude.{
  ℕ, ◌≤◌, List, [], ◌∷◌, ◌++◌, ◌≡◌, refl, Bool, true, false, not, ◌&&◌, ◌==◌, leb, Option, none,
  some, find, any, keep, count_if, update_if, ok, arith, Bool-cases, inl, inr, ◌⊎◌, All, All-every,
  AreApart, AreApart-snoc, AreApart-update_if, any-append, count_if-keep, count_if-zero,
  count_if-split, find-some, find-none, ◌∙◌, subst,
}
use darknetra.Records.{CaseRole, Membership}
use darknetra.Cases.Members.{
  is_owner, keeps_ownership, member_at, owns, gives_up, with_role, set_member,
}

abbrev pub same_member : Membership → Membership → Bool
same_member a b = a.case_id == b.case_id && a.user_id == b.user_id

module _ {ℓ} {A : Type ℓ} (q at : A → Bool) where
  -- Rows that fail a test can go without a change of its search.
  any-quiet :
      (xs : List A)
      → All (λ x. (at x ≡ false) ⊎ (q x ≡ false)) xs
      → any q (keep (λ x. not (at x)) xs) ≡ any q xs
  any-quiet [] h = refl
  any-quiet (x ∷ xs) (inl away, h) = ground (arith, any-quiet xs h)
  any-quiet (x ∷ xs) (inr quiet, h) = ground (arith, any-quiet xs h)

  any-kept :
      (f : A → A) (xs : List A)
      → any q (keep (λ x. not (at x)) xs) ≡ true
      → any q (update_if at f xs) ≡ true
  any-kept f [] h = h
  any-kept f (x ∷ xs) h = ground (arith, any-kept f xs)

  any-updated :
      (f : A → A) (xs : List A)
      → ((x : A) → at x ≡ true → q (f x) ≡ true)
      → any at xs ≡ true
      → any q (update_if at f xs) ≡ true
  any-updated f [] k h = cc
  any-updated f (x ∷ xs) k h = ground (arith, k x, any-updated f xs k)

any_rest :
    (m : Membership) (p : Membership → Bool) (xs : List Membership)
    → any (same_member m) xs ≡ false
    → any (same_member m) (keep p xs) ≡ false
any_rest m p [] h = refl
any_rest m p (x ∷ xs) h = ground (arith, any_rest m p xs)

AreApart-keep :
    (p : Membership → Bool) (xs : List Membership)
    → AreApart same_member xs
    → AreApart same_member (keep p xs)
AreApart-keep p [] apart = tt
AreApart-keep p (x ∷ xs) apart = elim (Bool-cases (p x)) [
  | inl here ↦ rw here (any_rest x p xs apart.0, AreApart-keep p xs apart.1)
  | inr there ↦ rw there (AreApart-keep p xs apart.1)
]

module _ (case_id user_id : ℕ) where
  abbrev at : Membership → Bool
  at = member_at case_id user_id

  -- The key of a membership belongs to one row.
  gone :
      (m : Membership) (xs : List Membership)
      → at m ≡ true
      → any (same_member m) xs ≡ false
      → any at xs ≡ false
  gone m [] h k = refl
  gone m (x ∷ xs) h k = ground (arith, gone m xs h)

  away :
      (q : Membership → Bool) (xs : List Membership)
      → any at xs ≡ false
      → All (λ x. (at x ≡ false) ⊎ (q x ≡ false)) xs
  away q [] h = tt
  away q (x ∷ xs) h = (inl (ground arith), away q xs (ground arith))

  lone :
      (q : Membership → Bool) (m : Membership) (xs : List Membership)
      → AreApart same_member xs
      → find at xs ≡ some m
      → q m ≡ false
      → All (λ x. (at x ≡ false) ⊎ (q x ≡ false)) xs
  lone q m [] apart found h = tt
  lone q m (x ∷ xs) apart found h = elim (Bool-cases (at x)) [
    | inl here ↦
        let e : m ≡ x = ground arith in
        (inr (subst (λ y. q y ≡ false) e h), away q xs (gone x xs here apart.0))
    | inr there ↦ (inl there, lone q m xs apart.1 (ground arith) h)
  ]

  one_at :
      (q : Membership → Bool) (xs : List Membership)
      → AreApart same_member xs
      → count_if (λ x. q x && at x) xs ≤ 1
  one_at q [] apart = omega arith
  one_at q (x ∷ xs) apart = elim (Bool-cases (at x)) [
    | inl here ↦
        let rest : count_if (λ y. q y && at y) xs ≡ 0 =
          count_if-zero (λ y. q y && at y) xs (none_left q xs (gone x xs here apart.0)) in
        ground (arith, rest)
    | inr there ↦ ground (arith, one_at q xs apart.1)
  ]
    where
      none_left :
          (q : Membership → Bool) (xs : List Membership)
          → any at xs ≡ false
          → any (λ y. q y && at y) xs ≡ false
      none_left q [] h = refl
      none_left q (x ∷ xs) h = ground (arith, none_left q xs)

  -- Of two owners one is another member.
  enough :
      (xs : List Membership)
      → AreApart same_member xs
      → leb (count_if (owns case_id) xs) 1 ≡ false
      → any (owns case_id) (keep (λ x. not (at x)) xs) ≡ true
  enough xs apart two = elim (Bool-cases (any (owns case_id) (keep (λ x. not (at x)) xs))) [
    | inl left ↦ left
    | inr nothing ↦
        let split =
          count_if-split (owns case_id) at (λ x. not (at x) && owns case_id x) (λ x. ground arith)
            xs in
        let kept = count_if-keep (owns case_id) (λ x. not (at x)) xs in
        let zero_left = count_if-zero (owns case_id) (keep (λ x. not (at x)) xs) nothing in
        absurd (ground (arith, split, kept, zero_left, one_at (owns case_id) xs apart))
  ]

  elsewhere :
      (k : ℕ) → (k == case_id) ≡ false → (x : Membership) → (at x ≡ false) ⊎ (owns k x ≡ false)
  elsewhere k other x = elim (Bool-cases (at x)) [
    | inl here ↦ inr (ground (arith, here, other))
    | inr there ↦ inl there
  ]

  -- The rows that stay have an owner for every case that had one.
  kept-owns :
      (m : Membership) (role : Option CaseRole) (xs : List Membership) (k : ℕ)
      → find at xs ≡ some m
      → keeps_ownership role ≡ false
      → (gives_up (some m) role && leb (count_if (owns case_id) xs) 1) ≡ false
      → AreApart same_member xs
      → any (owns k) xs ≡ true
      → any (owns k) (keep (λ x. not (at x)) xs) ≡ true
  kept-owns m role xs k found drops guard apart h = elim (Bool-cases (k == case_id)) [
    | inr other ↦ any-quiet (owns k) at xs (All-every (elsewhere k other) xs) ∙ h
    | inl same ↦ elim (Bool-cases (is_owner m.role)) [
      | inl owner ↦
          let e : k ≡ case_id = ground arith in
          rw e (enough xs apart (ground (arith, owner, drops, guard)))
      | inr other ↦
          any-quiet (owns k) at xs (lone (owns k) m xs apart found (ground (arith, other))) ∙ h
    ]
  ]

  pub set_member-owns :
      (member : Option Membership) (role : Option CaseRole) (xs out : List Membership) (k : ℕ)
      → find at xs ≡ member
      → (gives_up member role && leb (count_if (owns case_id) xs) 1) ≡ false
      → set_member case_id user_id member role xs ≡ ok out
      → AreApart same_member xs
      → any (owns k) xs ≡ true
      → any (owns k) out ≡ true
  set_member-owns none none xs out k found guard set apart h = absurd (cc set)
  set_member-owns none (some role) xs out k found guard set apart h =
      let row : Membership = record { case_id = case_id; user_id = user_id; role = role } in
      let e : xs ++ (row ∷ []) ≡ out = ground arith in
      subst (λ t. any (owns k) t ≡ true) e (ground (arith, any-append (owns k) xs (row ∷ []), h))
  set_member-owns (some m) none xs out k found guard set apart h =
      let e : keep (λ x. not (at x)) xs ≡ out = ground arith in
      subst (λ t. any (owns k) t ≡ true) e (kept-owns m none xs k found refl guard apart h)
  set_member-owns (some m) (some role) xs out k found guard set apart h =
      let e : update_if at (with_role role) xs ≡ out = ground arith in
      subst (λ t. any (owns k) t ≡ true) e
        (elim (Bool-cases (is_owner role)) [
          | inr drops ↦
              any-kept (owns k) at (with_role role) xs
                (kept-owns m (some role) xs k found drops guard apart h)
          | inl owner ↦ elim (Bool-cases (k == case_id)) [
            | inl same ↦
                any-updated (owns k) at (with_role role) xs
                  (λ x here. ground (arith, owner, same, here)) (find-some at xs m found).1
            | inr other ↦
                any-kept (owns k) at (with_role role) xs
                  (any-quiet (owns k) at xs (All-every (elsewhere k other) xs) ∙ h)
          ]
        ])

  pub set_member-AreApart :
      (member : Option Membership) (role : Option CaseRole) (xs out : List Membership)
      → find at xs ≡ member
      → set_member case_id user_id member role xs ≡ ok out
      → AreApart same_member xs
      → AreApart same_member out
  set_member-AreApart none none xs out found set apart = absurd (cc set)
  set_member-AreApart none (some role) xs out found set apart =
      let row : Membership = record { case_id = case_id; user_id = user_id; role = role } in
      let e : xs ++ (row ∷ []) ≡ out = ground arith in
      subst (AreApart same_member) e
        (AreApart-snoc same_member xs row (find-none at xs found) apart)
  set_member-AreApart (some m) none xs out found set apart =
      let e : keep (λ x. not (at x)) xs ≡ out = ground arith in
      subst (AreApart same_member) e (AreApart-keep (λ x. not (at x)) xs apart)
  set_member-AreApart (some m) (some role) xs out found set apart =
      let e : update_if at (with_role role) xs ≡ out = ground arith in
      subst (AreApart same_member) e
        (AreApart-update_if same_member at (with_role role) xs (λ x y. (refl, refl)) apart)
