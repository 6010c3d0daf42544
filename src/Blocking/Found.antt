-- ===== src/Blocking/Found.antt =====
-- What the loops of `candidate_pairs` find when they do not stop early.
use darknetra.Prelude.{
  ℕ, List, [], ◌∷◌, ◌++◌, ◌≡◌, refl, Bool, true, false, ◌&&◌, ◌||◌, ◌==◌, any, any-append, mem, All,
  All-map, arith, Bool-cases, inl, inr, ◌⊎◌, if◌then◌else◌, Text,
}
use darknetra.Blocking.{
  Profile, Pairs, is_pair, pair_of, insert_pair, with_pair, add, combinations, holders, add_all,
  add_keys, is_alike,
}
use darknetra.Blocking.Loops.{add_all-keeps, add_keys-keeps}
use darknetra.Blocking.Combinations.{All-mem}

-- The pair is found, or it is one profile twice.
abbrev pub is_found : List (ℕ × ℕ) → Profile × Profile → Bool
is_found found c = c.0.id == c.1.id || any (is_pair (pair_of c)) found

-- Two profiles share a signal.
abbrev pub shares : (Profile → List ℕ) → Profile × Profile → Bool
shares signals c = any (λ k. mem k (signals c.1)) (signals c.0)

-- What makes two profiles a candidate, said without an index and without bounds.
abbrev pub is_linked : (Text → Text → Bool) → Profile × Profile → Bool
is_linked similar c =
    shares Profile.fingerprints c
    || shares Profile.contacts c
    || shares Profile.wallets c
    || is_alike similar c

is_found-insert :
    (c : Profile × Profile) (p : ℕ × ℕ) (found : List (ℕ × ℕ))
    → is_found found c ≡ true
    → is_found (insert_pair p found) c ≡ true
is_found-insert c p found h = by_case (any (is_pair p) found)
  where
    by_case : (b : Bool) → is_found (if b then found else found ++ (p ∷ [])) c ≡ true
    by_case true = h
    by_case false = ground (arith, any-append (is_pair (pair_of c)) found (p ∷ []), h)

pub is_found-with_pair :
    (c d : Profile × Profile) (found : List (ℕ × ℕ))
    → is_found found c ≡ true
    → is_found (with_pair d found) c ≡ true
is_found-with_pair c d found h = by_case (d.0.id == d.1.id)
  where
    by_case : (b : Bool) → is_found (if b then found else insert_pair (pair_of d) found) c ≡ true
    by_case true = h
    by_case false = is_found-insert c (pair_of d) found h

is_pair_refl : (p : ℕ × ℕ) → is_pair p p ≡ true
is_pair_refl (a, b) = ground arith

any-insert_pair : (p : ℕ × ℕ) (found : List (ℕ × ℕ)) → any (is_pair p) (insert_pair p found) ≡ true
any-insert_pair p found = by_case (any (is_pair p) found) refl
  where
    by_case :
        (b : Bool)
        → any (is_pair p) found ≡ b
        → any (is_pair p) (if b then found else found ++ (p ∷ [])) ≡ true
    by_case true h = h
    by_case false h = ground (arith, any-append (is_pair p) found (p ∷ []), is_pair_refl p)

pub with_pair-is_found :
    (c : Profile × Profile) (found : List (ℕ × ℕ)) → is_found (with_pair c found) c ≡ true
with_pair-is_found c found = by_case (c.0.id == c.1.id) refl
  where
    by_case :
        (b : Bool)
        → (c.0.id == c.1.id) ≡ b
        → is_found (if b then found else insert_pair (pair_of c) found) c ≡ true
    by_case true h = rw h refl
    by_case false h = rw (h, any-insert_pair (pair_of c) found) refl

module _ (max_pairs : ℕ) where
  -- What is found stays found, and what is full stays full.
  abbrev pub Finds : Profile × Profile → Pairs → Type 0
  Finds c s = is_found s.found c ≡ true

  pub finds_step :
      (c d : Profile × Profile) (s : Pairs)
      → s.full ≡ false
      → Finds c s
      → Finds c (add max_pairs d s)
  finds_step c d s room_left h = is_found-with_pair c d s.found h

  abbrev pub IsFull : Pairs → Type 0
  IsFull s = s.full ≡ true

  pub full_step :
      (d : Profile × Profile) (s : Pairs) → s.full ≡ false → IsFull s → IsFull (add max_pairs d s)
  full_step d s room_left h = cc

  pub open_before : (s t : Pairs) → (IsFull s → IsFull t) → t.full ≡ false → s.full ≡ false
  open_before s t keeps room_left = elim (Bool-cases s.full) [
    | inl full ↦ absurd (cc (rw (keeps full) at room_left))
    | inr room ↦ room
  ]

  add_all-finds :
      (cs : List (Profile × Profile)) (s : Pairs)
      → (add_all max_pairs cs s).full ≡ false
      → All (λ c. Finds c (add_all max_pairs cs s)) cs
  add_all-finds [] s room_left = tt
  add_all-finds (c ∷ cs) s room_left =
      let room : s.full ≡ false =
        open_before s (add_all max_pairs (c ∷ cs) s)
          (add_all-keeps max_pairs IsFull full_step (c ∷ cs) s) room_left in
      let here : Finds c (if s.full then s else add max_pairs c s) =
        rw room (with_pair-is_found c s.found) in
      (
        add_all-keeps max_pairs (Finds c) (finds_step c) cs
            (if s.full then s else add max_pairs c s) here,
        add_all-finds cs (if s.full then s else add max_pairs c s) room_left,
      )

  pub add_keys-finds :
      (signals : Profile → List ℕ) (ps : List Profile) (keys : List ℕ) (s : Pairs)
      → (add_keys max_pairs signals ps keys s).full ≡ false
      → All
          (λ k.
            All
              (λ c. Finds c (add_keys max_pairs signals ps keys s))
              (combinations (holders signals k ps)))
          keys
  add_keys-finds signals ps [] s room_left = tt
  add_keys-finds signals ps (k ∷ keys) s room_left =
      let next = add_all max_pairs (combinations (holders signals k ps)) s in
      let room : next.full ≡ false =
        open_before next (add_keys max_pairs signals ps keys next)
          (add_keys-keeps max_pairs IsFull full_step signals ps keys next) room_left in
      (
        All-map (λ c. Finds c next) (λ c. Finds c (add_keys max_pairs signals ps keys next))
            (λ c h. add_keys-keeps max_pairs (Finds c) (finds_step c) signals ps keys next h)
            (combinations (holders signals k ps)) (add_all-finds _ s room),
        add_keys-finds signals ps keys next room_left,
      )

-- A shared signal is a key, and the pair is among those that hold the key.
pub shares_of_keys :
    (signals : Profile → List ℕ) (c : Profile × Profile) (keys : List ℕ) (Q : Type 0)
    → All (λ k. ((mem k (signals c.0) && mem k (signals c.1)) ≡ false) ⊎ Q) keys
    → (ks : List ℕ) → All (λ k. mem k keys ≡ true) ks
    → All (λ k. mem k (signals c.0) ≡ true) ks
    → (any (λ k. mem k (signals c.1)) ks ≡ false) ⊎ Q
shares_of_keys signals c keys Q all [] known own = inl refl
shares_of_keys signals c keys Q all (k ∷ ks) known own = elim (Bool-cases (mem k (signals c.1))) [
  | inl common ↦
      elim (All-mem (λ j. ((mem j (signals c.0) && mem j (signals c.1)) ≡ false) ⊎ Q) k keys known.0
        all) [ inl apart ↦ absurd (cc (rw (own.0, common) at apart)) | inr q ↦ inr q ]
  | inr apart ↦ elim (shares_of_keys signals c keys Q all ks known.1 own.1) [
    | inl none_left ↦ inl (rw (apart, none_left) refl)
    | inr q ↦ inr q
  ]
]
