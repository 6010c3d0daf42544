-- ===== src/Blocking/Tests.antt =====
-- Blocking of three profiles.
use darknetra.Prelude.{
  ℕ, ◌≡◌, refl, List, [], ◌∷◌, Option, none, some, true, false, Bool, ◌⊎◌, length, ◌≤◌, All, Text,
  codes, arith, ap,
}
use darknetra.Blocking.{Profile, phash_distance, combinations, by_id, candidate_pairs}
use darknetra.Blocking.Bounds.{IsPaired, candidate_pairs-bounded}
use darknetra.Blocking.Found.{is_found, is_linked}
use darknetra.Blocking.Complete.{candidate_pairs-is_found}

abbrev profile : ℕ → List ℕ → List (Option ℕ) → Profile
profile id wallets image_hashes = record {
  id = id;
  value = codes "amber";
  fingerprints = [];
  contacts = [];
  wallets = wallets;
  image_hashes = image_hashes;
  timestamps = [];
  platforms = [];
  terms = [];
}

-- The first and the last share a wallet, and the images of the first two differ in two bits.
abbrev three : List Profile
three =
    profile 9 (4 ∷ []) []
    ∷ profile 2 (3 ∷ 4 ∷ []) (some 12 ∷ none ∷ [])
    ∷ profile 5 [] (some 10 ∷ [])
    ∷ []

abbrev similar : Text → Text → Bool
similar a b = false

two_bits : phash_distance (some 12) (some 10) ≡ 2
unfolding phash_distance
two_bits = refl

finds_two : candidate_pairs similar three 5 ≡ ((2, 9) ∷ (2, 5) ∷ [], false)
unfolding candidate_pairs phash_distance
finds_two = refl

stops_at_one : candidate_pairs similar three 1 ≡ ((2, 9) ∷ [], true)
unfolding candidate_pairs phash_distance
stops_at_one = refl

candidate_pairs-bounded_example :
    IsPaired (candidate_pairs similar three 1).0 × (length (candidate_pairs similar three 1).0 ≤ 1)
candidate_pairs-bounded_example = candidate_pairs-bounded similar three 1 (omega arith)

candidate_pairs-is_found_example :
    All
      (λ c. (is_linked similar c ≡ false) ⊎ (is_found (candidate_pairs similar three 5).0 c ≡ true))
      (combinations (by_id three))
candidate_pairs-is_found_example =
    candidate_pairs-is_found similar three 5 (ap (λ r. r.1) finds_two)
