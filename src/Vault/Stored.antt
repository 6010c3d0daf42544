-- ===== src/Vault/Stored.antt =====
-- What evidence/vault.py keeps: originals are never replaced, and are read back as they were put.
use mathlib.Core.List.{append-nil}
use darknetra.Prelude.{
  find-none, All-find, ℕ, [], ◌∷◌, ◌++◌, ◌≡◌, refl, true, false, Bool, none, some, find, All,
  All-append, ok, arith, Option-cases, inl, inr, ◌⊎◌, find-append, find-snoc, find-some, ltb, subst,
  max, sym, length,
}
use darknetra.Vault.{Bytes, Key, Blob, Vault, at_key, read, exists, commit, put_bytes}

find-snoc-none :
    (p : Blob → Bool) (vault : Vault) (c : Blob)
    → find p vault ≡ none
    → p c ≡ true
    → find p (vault ++ (c ∷ [])) ≡ some c
find-snoc-none p vault c h k = find-snoc p vault c (find-none p vault h) k

module _ (sha256 : Bytes → ℕ) where
  -- Every file holds bytes of the digest that names it.
  abbrev pub IsIntact : Vault → Type 0
  IsIntact vault = All (λ b. sha256 b.content ≡ b.key.digest) vault

  at_key_refl :
      (key : Key) (content : Bytes) → at_key key (record { key = key; content = content }) ≡ true
  at_key_refl key content = ground arith

  fits : (content : Bytes) → ltb (max 1 (length content)) (length content) ≡ false
  fits content = ground arith

  -- What `put_bytes` of some bytes leaves, with the key that it returns.
  pub record IsStored (case_id : ℕ) (content : Bytes) (vault : Vault) (result : Key × Vault)
      : Type 0 where
    pub named : result.0 ≡ record { case_id = case_id; digest = sha256 content }
    pub added : (fresh : Vault) × (result.1 ≡ vault ++ fresh)
    pub held :
        (found : Bytes) × (read result.0 result.1 ≡ ok found)
        × (sha256 found ≡ sha256 content)
        × ((exists result.0 vault ≡ true) ⊎ (found ≡ content))

  -- After `put_bytes`, the key is the case with the digest of the bytes, and files have at most been
  -- added. What is read under the key has that digest, and it is the bytes themselves unless a file
  -- stood under the key before.
  pub put_bytes-IsStored :
      (case_id : ℕ) (content : Bytes) (vault : Vault) (result : Key × Vault)
      → put_bytes sha256 case_id content vault ≡ ok result
      → IsStored case_id content vault result
  unfolding put_bytes commit read exists
  put_bytes-IsStored case_id content vault result h =
      let named : Key = record { case_id = case_id; digest = sha256 content } in
      let made : Blob = record { key = named; content = content } in
      elim (Option-cases (find (at_key named) vault)) [
        | inl missing ↦
            let same : ◌≡◌ {A = Key × Vault} (named, vault ++ (made ∷ [])) result =
              ground (arith, fits content) in
            subst (IsStored case_id content vault) same (record {
              named = refl;
              added = (made ∷ [], refl);
              held = (
                content,
                ground (arith, find-snoc-none (at_key named) vault made, at_key_refl named content),
                refl,
                inr refl,
              );
            })
        | inr (blob, there) ↦
            let same : ◌≡◌ {A = Key × Vault} (named, vault) result = ground (arith, fits content) in
            subst (IsStored case_id content vault) same (record {
              named = refl;
              added = ([], sym (append-nil vault));
              held = (blob.content, ground arith, ground (arith, fits content), inl (ground arith));
            })
      ]

  -- The read of a file survives every addition to the vault.
  pub read-append :
      (key : Key) (vault fresh : Vault) (content : Bytes)
      → read key vault ≡ ok content
      → read key (vault ++ fresh) ≡ ok content
  unfolding read
  read-append key vault fresh content h = ground (arith, find-append (at_key key) vault fresh)

  -- In an intact vault bytes can always be put, and it stays intact.
  pub put_bytes-IsIntact :
      (case_id : ℕ) (content : Bytes) (vault : Vault)
      → IsIntact vault
      → (after : Vault) × (put_bytes sha256 case_id content vault
          ≡ ok (record { case_id = case_id; digest = sha256 content }, after))
        × IsIntact after
  unfolding put_bytes commit read exists
  put_bytes-IsIntact case_id content vault intact =
      let named : Key = record { case_id = case_id; digest = sha256 content } in
      let made : Blob = record { key = named; content = content } in
      elim (Option-cases (find (at_key named) vault)) [
        | inl missing ↦ (
          vault ++ (made ∷ []),
          ground (arith, fits content),
          All-append _ vault (made ∷ []) intact (refl, tt),
        )
        | inr (blob, there) ↦
            let held = All-find _ (at_key named) vault blob there intact in
            let hit = find-some (at_key named) vault blob there in
            (vault, ground (arith, fits content, held, hit), intact)
      ]
