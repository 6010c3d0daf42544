-- ===== src/Vault/Tests.antt =====
-- A small vault, with the sum of the bytes for a digest.
use darknetra.Prelude.{◌≡◌, refl, ok, err, value_error, [], ◌∷◌, ◌+◌, ℕ}
use darknetra.Vault.{Bytes, Key, Vault, read, commit, put_bytes}
use darknetra.Vault.Stored.{IsStored, put_bytes-IsStored}

abbrev sum : Bytes → ℕ
sum [] = 0
sum (b ∷ content) = b + sum content

abbrev key : ℕ → ℕ → Key
key case_id digest = record { case_id = case_id; digest = digest }

abbrev one : Vault
one = record { key = key 1 3; content = 1 ∷ 2 ∷ [] } ∷ []

abbrev two : Vault
two =
    record { key = key 1 3; content = 1 ∷ 2 ∷ [] } ∷ record { key = key 2 3; content = 3 ∷ [] } ∷ []

abbrev broken : Vault
broken = record { key = key 1 3; content = 4 ∷ [] } ∷ []

put-other : put_bytes sum 2 (3 ∷ []) one ≡ ok (key 2 3, two)
unfolding put_bytes commit
put-other = refl

put-again : put_bytes sum 1 (2 ∷ 1 ∷ []) one ≡ ok (key 1 3, one)
unfolding put_bytes commit read
put-again = refl

put-broken : put_bytes sum 1 (2 ∷ 1 ∷ []) broken ≡ err value_error
unfolding put_bytes commit read
put-broken = refl

put_bytes-IsStored_example : IsStored sum 2 (3 ∷ []) one (key 2 3, two)
put_bytes-IsStored_example = put_bytes-IsStored sum 2 (3 ∷ []) one (key 2 3, two) put-other
