-- ===== src/Blocking.antt =====
-- analytics/blocking.py `candidate_pairs`, and analytics/link_scoring.py `phash_distance`.
pub mod Loops
pub mod Bounds
pub mod Combinations
pub mod Found
pub mod Complete
mod Tests
use darknetra.Prelude.{
  ℕ, zero, suc, ◌+◌, ◌*◌, ◌/◌, ◌%◌, min, max, List, [], ◌∷◌, ◌++◌, Bool, true, false, ◌&&◌, ◌||◌,
  ◌==◌, ltb, leb, Option, some, any, map, keep, mem, count_if, length, dedupe, sorted, max_of,
  if◌then◌else◌, Text, not,
}

-- What blocking reads of an `AliasProfile`. Signals are numbers that are ordered as their texts; of
-- an image hash that is not 16 hexadecimal digits it is only kept that there is one.
pub record Profile : Type 0 where
  pub id : ℕ
  pub value : Text
  pub fingerprints : List ℕ
  pub contacts : List ℕ
  pub wallets : List ℕ
  pub image_hashes : List (Option ℕ)
  pub timestamps : List ℕ
  pub platforms : List ℕ
  pub terms : List ℕ

-- The number of the last `n` bits in which two numbers differ.
abbrev pub differing : ℕ → ℕ → ℕ → ℕ
differing zero a b = 0
differing (suc n) a b = (if a % 2 == b % 2 then 0 else 1) + differing n (a / 2) (b / 2)

unfoldable pub phash_distance : Option ℕ → Option ℕ → ℕ
phash_distance (some a) (some b) = differing 64 a b
phash_distance _ _ = 65

-- The pairs so far, and whether there are as many as wanted.
pub record Pairs : Type 0 where
  pub found : List (ℕ × ℕ)
  pub full : Bool

abbrev pub is_pair : ℕ × ℕ → ℕ × ℕ → Bool
is_pair (a, b) (c, d) = a == c && b == d

-- `tuple(sorted((a.id, b.id)))`
abbrev pub pair_of : Profile × Profile → ℕ × ℕ
pair_of (a, b) = if ltb b.id a.id then (b.id, a.id) else (a.id, b.id)

abbrev pub insert_pair : ℕ × ℕ → List (ℕ × ℕ) → List (ℕ × ℕ)
insert_pair p found = if any (is_pair p) found then found else found ++ (p ∷ [])

-- `add`
abbrev pub with_pair : Profile × Profile → List (ℕ × ℕ) → List (ℕ × ℕ)
with_pair c found = if c.0.id == c.1.id then found else insert_pair (pair_of c) found

abbrev pub add : ℕ → Profile × Profile → Pairs → Pairs
add max_pairs c s = record {
  found = with_pair c s.found;
  full = leb max_pairs (length (with_pair c s.found));
}

-- `combinations(xs, 2)`
abbrev pub combinations {ℓ} : {A : Type ℓ} → List A → List (A × A)
combinations [] = []
combinations (x ∷ xs) = map (λ y. (x, y)) xs ++ combinations xs

abbrev pub insert_profile : Profile → List Profile → List Profile
insert_profile p [] = p ∷ []
insert_profile p (q ∷ ps) =
    let rest = insert_profile p ps in if ltb q.id p.id then q ∷ rest else p ∷ q ∷ ps

-- `sorted(profiles, key=lambda p: p.id)`
abbrev pub by_id : List Profile → List Profile
by_id [] = []
by_id (p ∷ ps) = insert_profile p (by_id ps)

-- The profiles of `index[key]`, and the keys of the index.
abbrev pub holders : (Profile → List ℕ) → ℕ → List Profile → List Profile
holders signals key ps = keep (λ p. mem key (signals p)) ps

abbrev pub signals_of : (Profile → List ℕ) → List Profile → List ℕ
signals_of signals [] = []
signals_of signals (p ∷ ps) = signals p ++ signals_of signals ps

abbrev pub keys_of : (Profile → List ℕ) → List Profile → List ℕ
keys_of signals ps = sorted (dedupe (signals_of signals ps))

-- The loops over the profiles that share a signal; a loop returns once there are enough pairs.
abbrev pub add_all : ℕ → List (Profile × Profile) → Pairs → Pairs
add_all max_pairs [] s = s
add_all max_pairs (c ∷ cs) s = add_all max_pairs cs (if s.full then s else add max_pairs c s)

abbrev pub add_keys : ℕ → (Profile → List ℕ) → List Profile → List ℕ → Pairs → Pairs
add_keys max_pairs signals ps [] s = s
add_keys max_pairs signals ps (key ∷ keys) s =
    add_keys max_pairs signals ps keys (add_all max_pairs (combinations (holders signals key ps)) s)

abbrev pub add_shared : ℕ → (Profile → List ℕ) → List Profile → Pairs → Pairs
add_shared max_pairs signals ps s = add_keys max_pairs signals ps (keys_of signals ps) s

abbrev pub add_strong : ℕ → List Profile → Pairs → Pairs
add_strong max_pairs ps s =
    add_shared max_pairs Profile.wallets ps
      (add_shared max_pairs Profile.contacts ps (add_shared max_pairs Profile.fingerprints ps s))

abbrev pub min_of : List ℕ → ℕ
min_of [] = 0
min_of (t ∷ []) = t
min_of (t ∷ u ∷ ts) = min t (min_of (u ∷ ts))

abbrev pub is_empty : List ℕ → Bool
is_empty [] = true
is_empty _ = false

-- `timedelta(days=30)` in microseconds
abbrev pub month : ℕ
month = 2592000000000

abbrev pub in_window : Profile → Profile → Bool
in_window a b =
    not (is_empty a.timestamps)
    && not (is_empty b.timestamps)
    && leb (min_of a.timestamps) (max_of b.timestamps + month)
    && leb (min_of b.timestamps) (max_of a.timestamps + month)

abbrev pub same_image : Profile → Profile → Bool
same_image a b = any (λ x. any (λ y. leb (phash_distance x y) 8) b.image_hashes) a.image_hashes

-- The comparison of texts by another package, at a ratio of 85, is an argument.
module _ (similar : Text → Text → Bool) where
  abbrev pub is_alike : Profile × Profile → Bool
  is_alike (a, b) =
      same_image a b
      || similar a.value b.value
      || any (λ p. mem p b.platforms) a.platforms
        && in_window a b
        && leb 2 (count_if (λ t. mem t b.terms) a.terms)

  -- The loop over all pairs, with the comparisons that it may still make.
  abbrev pub compare_all : ℕ → ℕ → List (Profile × Profile) → Pairs → Pairs
  compare_all max_pairs left [] s = s
  compare_all max_pairs zero (c ∷ cs) s = record s { full = true }
  compare_all max_pairs (suc left) (c ∷ cs) s =
      compare_all max_pairs left cs
        (if s.full then s else if is_alike c then add max_pairs c s else s)

  -- The pairs, and whether they may be incomplete.
  unfoldable pub candidate_pairs : List Profile → ℕ → List (ℕ × ℕ) × Bool
  candidate_pairs profiles max_pairs =
      let ps = by_id profiles in
      let strong = add_strong max_pairs ps (record { found = []; full = false }) in
      let weak = compare_all max_pairs (max 10000 (max_pairs * 20)) (combinations ps) strong in
      (weak.found, weak.full)
