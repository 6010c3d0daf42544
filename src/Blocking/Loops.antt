-- ===== src/Blocking/Loops.antt =====
-- A rule for the loops of `candidate_pairs`: what each new pair and the end of the comparisons keep,
-- the loops keep.
use darknetra.Prelude.{
  ℕ, zero, suc, List, [], ◌∷◌, ◌≡◌, refl, Bool, true, false, if◌then◌else◌, Text,
}
use darknetra.Blocking.{
  Profile, Pairs, add, combinations, holders, keys_of, add_all, add_keys, add_shared, add_strong,
  is_alike, compare_all,
}

module _ (max_pairs : ℕ) (P : Pairs → Type 0)
    (step : (c : Profile × Profile) (s : Pairs)
      → s.full ≡ false
      → P s
      → P (add max_pairs c s)) where
  pub unless_full :
      (c : Profile × Profile) (s : Pairs) → P s → P (if s.full then s else add max_pairs c s)
  unless_full c s h = by_case s.full refl
    where
      by_case : (b : Bool) → s.full ≡ b → P (if b then s else add max_pairs c s)
      by_case true e = h
      by_case false e = step c s e h

  pub add_all-keeps : (cs : List (Profile × Profile)) (s : Pairs) → P s → P (add_all max_pairs cs s)
  add_all-keeps [] s h = h
  add_all-keeps (c ∷ cs) s h =
      add_all-keeps cs (if s.full then s else add max_pairs c s) (unless_full c s h)

  pub add_keys-keeps :
      (signals : Profile → List ℕ) (ps : List Profile) (keys : List ℕ) (s : Pairs)
      → P s
      → P (add_keys max_pairs signals ps keys s)
  add_keys-keeps signals ps [] s h = h
  add_keys-keeps signals ps (key ∷ keys) s h =
      add_keys-keeps signals ps keys _ (add_all-keeps (combinations (holders signals key ps)) s h)

  pub add_shared-keeps :
      (signals : Profile → List ℕ) (ps : List Profile) (s : Pairs)
      → P s
      → P (add_shared max_pairs signals ps s)
  add_shared-keeps signals ps s h = add_keys-keeps signals ps (keys_of signals ps) s h

  pub add_strong-keeps : (ps : List Profile) (s : Pairs) → P s → P (add_strong max_pairs ps s)
  add_strong-keeps ps s h =
      add_shared-keeps Profile.wallets ps _
        (add_shared-keeps Profile.contacts ps _ (add_shared-keeps Profile.fingerprints ps s h))

  module _ (stop : (s : Pairs) → P s → P (record s { full = true }))
      (similar : Text → Text → Bool) where
    pub compare-keeps :
        (c : Profile × Profile) (s : Pairs)
        → P s
        → P (if s.full then s else if is_alike similar c then add max_pairs c s else s)
    compare-keeps c s h = by_case s.full (is_alike similar c) refl
      where
        by_case :
            (b d : Bool) → s.full ≡ b → P (if b then s else if d then add max_pairs c s else s)
        by_case true d e = h
        by_case false true e = step c s e h
        by_case false false e = h

    pub compare_all-keeps :
        (left : ℕ) (cs : List (Profile × Profile)) (s : Pairs)
        → P s
        → P (compare_all similar max_pairs left cs s)
    compare_all-keeps zero [] s h = h
    compare_all-keeps (suc left) [] s h = h
    compare_all-keeps zero (c ∷ cs) s h = stop s h
    compare_all-keeps (suc left) (c ∷ cs) s h = compare_all-keeps left cs _ (compare-keeps c s h)
