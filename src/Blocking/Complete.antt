-- ===== src/Blocking/Complete.antt =====
-- What `candidate_pairs` finds when it does not stop early.
use darknetra.Prelude.{
  ℕ, zero, suc, ◌*◌, max, List, [], ◌∷◌, ◌≡◌, refl, Bool, true, false, ◌&&◌, ◌||◌, mem, All,
  All-map, inl, inr, ◌⊎◌, if◌then◌else◌, Text,
}
use darknetra.Blocking.{
  Profile, Pairs, add, combinations, by_id, holders, keys_of, add_shared, is_alike, compare_all,
  candidate_pairs,
}
use darknetra.Blocking.Loops.{add_shared-keeps, compare_all-keeps}
use darknetra.Blocking.Combinations.{
  All-both, combinations-keep, combinations-first, All-swap, mem_self, mem-keys_of,
}
use darknetra.Blocking.Found.{
  is_found, shares, is_linked, with_pair-is_found, Finds, finds_step, IsFull, full_step,
  open_before, add_keys-finds, shares_of_keys,
}

module _ (max_pairs : ℕ) where
  add_shared-finds :
      (signals : Profile → List ℕ) (ps : List Profile) (s : Pairs)
      → (add_shared max_pairs signals ps s).full ≡ false
      → All
          (λ c. (shares signals c ≡ false) ⊎ Finds max_pairs c (add_shared max_pairs signals ps s))
          (combinations ps)
  add_shared-finds signals ps s room_left =
      let done = add_shared max_pairs signals ps s in
      let of_keys =
        All-map (λ k. All (λ c. Finds max_pairs c done) (combinations (holders signals k ps)))
          (λ k.
            All
              (λ c. ((mem k (signals c.0) && mem k (signals c.1)) ≡ false) ⊎ Finds max_pairs c done)
              (combinations ps))
          (λ k. combinations-keep (λ p. mem k (signals p)) (λ c. Finds max_pairs c done) ps)
          (keys_of signals ps)
          (add_keys-finds max_pairs signals ps (keys_of signals ps) s room_left) in
      let of_pairs =
        All-swap
          (λ k c. ((mem k (signals c.0) && mem k (signals c.1)) ≡ false) ⊎ Finds max_pairs c done)
          (keys_of signals ps) (combinations ps) of_keys in
      let known =
        combinations-first (λ p. All (λ k. mem k (keys_of signals ps) ≡ true) (signals p)) ps
          (mem-keys_of signals ps) in
      All-map _ (λ c. (shares signals c ≡ false) ⊎ Finds max_pairs c done)
        (λ c h.
          shares_of_keys signals c (keys_of signals ps) (Finds max_pairs c done) h.0 (signals c.0)
            h.1 (own c))
        (combinations ps) (All-both _ _ (combinations ps) of_pairs known)
    where
      own : (c : Profile × Profile) → All (λ k. mem k (signals c.0) ≡ true) (signals c.0)
      own c = mem_self (signals c.0)

  module _ (similar : Text → Text → Bool) where
    stays_full : (s : Pairs) → IsFull max_pairs s → IsFull max_pairs (record s { full = true })
    stays_full s h = refl

    compare_all-finds :
        (left : ℕ) (cs : List (Profile × Profile)) (s : Pairs)
        → (compare_all similar max_pairs left cs s).full ≡ false
        → All
            (λ c.
              (is_alike similar c ≡ false)
              ⊎ Finds max_pairs c (compare_all similar max_pairs left cs s))
            cs
    compare_all-finds zero [] s room_left = tt
    compare_all-finds (suc left) [] s room_left = tt
    compare_all-finds zero (c ∷ cs) s room_left = cc
    compare_all-finds (suc left) (c ∷ cs) s room_left =
        (here (is_alike similar c) refl, compare_all-finds left cs next room_left)
      where
        next : Pairs
        next = if s.full then s else if is_alike similar c then add max_pairs c s else s

        room : s.full ≡ false
        room =
            open_before max_pairs s (compare_all similar max_pairs (suc left) (c ∷ cs) s)
              (compare_all-keeps max_pairs (IsFull max_pairs) (full_step max_pairs) stays_full
                similar (suc left) (c ∷ cs) s)
              room_left

        here :
            (b : Bool)
            → is_alike similar c ≡ b
            → (is_alike similar c ≡ false)
              ⊎ Finds max_pairs c (compare_all similar max_pairs left cs next)
        here false e = inl e
        here true e = inr (
            compare_all-keeps max_pairs (Finds max_pairs c) (finds_step max_pairs c) (λ t h. h)
              similar left cs next (rw (room, e) (with_pair-is_found c s.found)))

-- Four tests, each of which fails or finds the pair.
any_of :
    (a b c d : Bool) (Q : Type 0)
    → (a ≡ false) ⊎ Q
    → (b ≡ false) ⊎ Q
    → (c ≡ false) ⊎ Q
    → (d ≡ false) ⊎ Q
    → ((a || b || c || d) ≡ false) ⊎ Q
any_of a b c d Q (inr q) k l m = inr q
any_of a b c d Q (inl h) (inr q) l m = inr q
any_of a b c d Q (inl h) (inl k) (inr q) m = inr q
any_of a b c d Q (inl h) (inl k) (inl l) (inr q) = inr q
any_of a b c d Q (inl h) (inl k) (inl l) (inl m) = inl (rw (h, k, l, m) refl)

later :
    (max_pairs : ℕ) (test : Profile × Profile → Bool) (s t : Pairs) (cs : List (Profile × Profile))
    → ((c : Profile × Profile) → Finds max_pairs c s → Finds max_pairs c t)
    → All (λ c. (test c ≡ false) ⊎ Finds max_pairs c s) cs
    → All (λ c. (test c ≡ false) ⊎ Finds max_pairs c t) cs
later max_pairs test s t cs keeps all = All-map _ _ (λ c h. carry c h) cs all
  where
    carry :
        (c : Profile × Profile)
        → (test c ≡ false) ⊎ Finds max_pairs c s
        → (test c ≡ false) ⊎ Finds max_pairs c t
    carry c (inl h) = inl h
    carry c (inr h) = inr (keeps c h)

module _ (similar : Text → Text → Bool) (profiles : List Profile) (max_pairs : ℕ) where
  -- The states between the loops.
  abbrev ps : List Profile
  ps = by_id profiles

  abbrev cs : List (Profile × Profile)
  cs = combinations ps

  abbrev left : ℕ
  left = max 10000 (max_pairs * 20)

  abbrev start : Pairs
  start = record { found = []; full = false }

  abbrev s1 : Pairs
  s1 = add_shared max_pairs Profile.fingerprints ps start

  abbrev s2 : Pairs
  s2 = add_shared max_pairs Profile.contacts ps s1

  abbrev s3 : Pairs
  s3 = add_shared max_pairs Profile.wallets ps s2

  abbrev end : Pairs
  end = compare_all similar max_pairs left cs s3

  add_shared-IsFull :
      (signals : Profile → List ℕ) (s : Pairs)
      → IsFull max_pairs s
      → IsFull max_pairs (add_shared max_pairs signals ps s)
  add_shared-IsFull signals s =
      add_shared-keeps max_pairs (IsFull max_pairs) (full_step max_pairs) signals ps s

  room_3 : end.full ≡ false → s3.full ≡ false
  room_3 room_left =
      open_before max_pairs s3 end
        (compare_all-keeps max_pairs (IsFull max_pairs) (full_step max_pairs) (λ s h. refl) similar
          left cs s3)
        room_left

  room_2 : end.full ≡ false → s2.full ≡ false
  room_2 room_left =
      open_before max_pairs s2 s3 (add_shared-IsFull Profile.wallets s2) (room_3 room_left)

  room_1 : end.full ≡ false → s1.full ≡ false
  room_1 room_left =
      open_before max_pairs s1 s2 (add_shared-IsFull Profile.contacts s1) (room_2 room_left)

  keeps_shared :
      (c : Profile × Profile) (signals : Profile → List ℕ) (s : Pairs)
      → Finds max_pairs c s
      → Finds max_pairs c (add_shared max_pairs signals ps s)
  keeps_shared c signals s =
      add_shared-keeps max_pairs (Finds max_pairs c) (finds_step max_pairs c) signals ps s

  into_end : (c : Profile × Profile) → Finds max_pairs c s3 → Finds max_pairs c end
  into_end c =
      compare_all-keeps max_pairs (Finds max_pairs c) (finds_step max_pairs c) (λ s h. h) similar
        left cs s3

  -- When `candidate_pairs` does not report that it stopped early, it has found every two profiles that share
  -- a fingerprint, a contact or a wallet, or that are alike in images, in texts or in platforms, times
  -- and terms.
  pub candidate_pairs-is_found :
      (candidate_pairs similar profiles max_pairs).1 ≡ false
      → All
          (λ c.
            (is_linked similar c ≡ false)
            ⊎ (is_found (candidate_pairs similar profiles max_pairs).0 c ≡ true))
          (combinations (by_id profiles))
  unfolding candidate_pairs
  candidate_pairs-is_found room_left =
      let in_1 =
        later max_pairs (shares Profile.fingerprints) s1 end cs
          (λ c h.
            into_end c (keeps_shared c Profile.wallets s2 (keeps_shared c Profile.contacts s1 h)))
          (add_shared-finds max_pairs Profile.fingerprints ps start (room_1 room_left)) in
      let in_2 =
        later max_pairs (shares Profile.contacts) s2 end cs
          (λ c h. into_end c (keeps_shared c Profile.wallets s2 h))
          (add_shared-finds max_pairs Profile.contacts ps s1 (room_2 room_left)) in
      let in_3 =
        later max_pairs (shares Profile.wallets) s3 end cs into_end
          (add_shared-finds max_pairs Profile.wallets ps s2 (room_3 room_left)) in
      let in_4 = compare_all-finds max_pairs similar left cs s3 room_left in
      All-map _ (λ c. (is_linked similar c ≡ false) ⊎ Finds max_pairs c end)
        (λ c h.
          any_of (shares Profile.fingerprints c) (shares Profile.contacts c)
            (shares Profile.wallets c) (is_alike similar c) (Finds max_pairs c end) h.0.0 h.0.1
            h.1.0 h.1.1)
        cs (All-both _ _ cs (All-both _ _ cs in_1 in_2) (All-both _ _ cs in_3 in_4))
