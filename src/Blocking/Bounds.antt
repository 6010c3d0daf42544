-- ===== src/Blocking/Bounds.antt =====
-- The pairs of `candidate_pairs`: at most as many as wanted, each once, and each in order.
use darknetra.Prelude.{
  ℕ, ◌+◌, ◌∙◌, ◌*◌, ◌≤◌, ◌<◌, max, List, [], ◌∷◌, ◌++◌, ◌≡◌, refl, Bool, true, false, ltb, leb, any,
  length, length-append, All, All-append, AreApart, AreApart-snoc, arith, Bool-cases, inl, inr, ◌⊎◌,
  Text, ◌==◌, if◌then◌else◌,
}
use darknetra.Blocking.{
  Profile, Pairs, is_pair, pair_of, insert_pair, with_pair, add, by_id, combinations, add_strong,
  candidate_pairs,
}
use darknetra.Blocking.Loops.{add_strong-keeps, compare_all-keeps}

-- Each pair once, and its identifiers in order.
pub record IsPaired (found : List (ℕ × ℕ)) : Type 0 where
  pub once : AreApart is_pair found
  pub ordered : All (λ p. p.0 < p.1) found

-- There is room for another pair as long as the pairs do not count as full.
record IsBounded (max_pairs : ℕ) (s : Pairs) : Type 0 where
  paired : IsPaired s.found
  bounded : length s.found ≤ max_pairs
  room : (s.full ≡ true) ⊎ (length s.found < max_pairs)

pair_of-ordered :
    (c : Profile × Profile) → (c.0.id == c.1.id) ≡ false → (pair_of c).0 < (pair_of c).1
pair_of-ordered (a, b) h = elim (Bool-cases (ltb b.id a.id)) [
  | inl back ↦ rw back (ground arith)
  | inr forth ↦ rw forth (ground arith)
]

is_pair_sym : (p q : ℕ × ℕ) → is_pair p q ≡ is_pair q p
is_pair_sym (a, b) (c, d) = ground arith

any_sym : (p : ℕ × ℕ) (found : List (ℕ × ℕ)) → any (λ q. is_pair q p) found ≡ any (is_pair p) found
any_sym p [] = refl
any_sym p (q ∷ found) = ground (arith, is_pair_sym q p, any_sym p found)

insert_pair-IsPaired :
    (p : ℕ × ℕ) (found : List (ℕ × ℕ))
    → p.0 < p.1
    → IsPaired found
    → IsPaired (insert_pair p found) × (length (insert_pair p found) ≤ length found + 1)
insert_pair-IsPaired p found lt h = by_case (any (is_pair p) found) refl
  where
    by_case :
        (b : Bool)
        → any (is_pair p) found ≡ b
        → IsPaired (if b then found else found ++ (p ∷ []))
          × (length (if b then found else found ++ (p ∷ [])) ≤ length found + 1)
    by_case true e = (h, omega arith)
    by_case false e = (
      record {
        once = AreApart-snoc is_pair found p (any_sym p found ∙ e) h.once;
        ordered = All-append (λ q. q.0 < q.1) found (p ∷ []) h.ordered (lt, tt);
      },
      omega (arith, length-append found (p ∷ [])),
    )

with_pair-IsPaired :
    (c : Profile × Profile) (found : List (ℕ × ℕ))
    → IsPaired found
    → IsPaired (with_pair c found) × (length (with_pair c found) ≤ length found + 1)
with_pair-IsPaired c found h = by_case (c.0.id == c.1.id) refl
  where
    by_case :
        (b : Bool)
        → (c.0.id == c.1.id) ≡ b
        → IsPaired (if b then found else insert_pair (pair_of c) found)
          × (length (if b then found else insert_pair (pair_of c) found) ≤ length found + 1)
    by_case true e = (h, omega arith)
    by_case false e = insert_pair-IsPaired (pair_of c) found (pair_of-ordered c e) h

add-IsBounded :
    (max_pairs : ℕ) (c : Profile × Profile) (s : Pairs)
    → s.full ≡ false
    → IsBounded max_pairs s
    → IsBounded max_pairs (add max_pairs c s)
add-IsBounded max_pairs c s h good =
    let next = with_pair-IsPaired c s.found good.paired in
    let size : length s.found < max_pairs = ground (arith, good.room) in
    record {
      paired = next.0;
      bounded = omega (arith, next.1, size);
      room = elim (Bool-cases (leb max_pairs (length (with_pair c s.found)))) [
        | inl here ↦ inl here
        | inr there ↦ inr (ground arith)
      ];
    }

-- `candidate_pairs` gives at most as many pairs as are wanted, no pair twice, and none of a profile with
-- itself: each pair has the lesser identifier first. At least one pair must be wanted.
pub candidate_pairs-bounded :
    (similar : Text → Text → Bool) (profiles : List Profile) (max_pairs : ℕ)
    → 1 ≤ max_pairs
    → IsPaired (candidate_pairs similar profiles max_pairs).0
      × (length (candidate_pairs similar profiles max_pairs).0 ≤ max_pairs)
unfolding candidate_pairs
candidate_pairs-bounded similar profiles max_pairs one =
    let ps = by_id profiles in
    let start : IsBounded max_pairs (record { found = []; full = false }) = record {
      paired = record { once = tt; ordered = tt };
      bounded = omega arith;
      room = inr one;
    } in
    let done =
      compare_all-keeps max_pairs (IsBounded max_pairs) (add-IsBounded max_pairs)
        (λ s good. record { paired = good.paired; bounded = good.bounded; room = inl refl }) similar
        (max 10000 (max_pairs * 20)) (combinations ps)
        (add_strong max_pairs ps (record { found = []; full = false }))
        (add_strong-keeps max_pairs (IsBounded max_pairs) (add-IsBounded max_pairs) ps _ start) in
    (done.paired, done.bounded)
