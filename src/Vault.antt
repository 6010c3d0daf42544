-- ===== src/Vault.antt =====
-- evidence/vault.py: `LocalVault`, the store of original bytes under their digests. The path of a
-- blob is the case and the digest; temporary files and the manifest beside a blob are left out.
pub mod Stored
mod Tests
use darknetra.Prelude.{
  ℕ, max, List, [], ◌∷◌, ◌++◌, Bool, ◌&&◌, ◌==◌, ltb, not, Option, none, some, find, length,
  is_some, Result, ok, err, value_error, internal, too_large, raise_if, ◌>>=◌, ◌>>◌, if◌then◌else◌,
}

abbrev pub Bytes : Type 0
Bytes = List ℕ

pub record Key : Type 0 where
  pub case_id : ℕ
  pub digest : ℕ

pub record Blob : Type 0 where
  pub key : Key
  pub content : Bytes

-- The files below the root, in the order in which they were made.
abbrev pub Vault : Type 0
Vault = List Blob

abbrev pub at_key : Key → Blob → Bool
at_key key blob = blob.key.case_id == key.case_id && blob.key.digest == key.digest

-- `open(key).read()`: a missing file is an error of the system.
unfoldable pub read : Key → Vault → Result Bytes
read key vault = elim (find (at_key key) vault) [
  | none ↦ err internal
  | some blob ↦ ok blob.content
]

unfoldable pub exists : Key → Vault → Bool
exists key vault = is_some (find (at_key key) vault)

module _ (sha256 : Bytes → ℕ) where
  -- `hash(key)`
  abbrev pub hash : Key → Vault → Result ℕ
  hash key vault = read key vault >>= λ content. ok (sha256 content)

  -- `put_stream` of one chunk, at its size: what it has read, with the digest.
  abbrev pub put_stream : Bytes → ℕ → Result (ℕ × Bytes)
  put_stream content max_bytes =
      raise_if (ltb max_bytes (length content)) too_large >> ok (sha256 content, content)

  -- The file is created exclusively; an existing one has to hold the same digest.
  unfoldable pub commit : ℕ × Bytes → Key → Vault → Result Vault
  unfolding exists
  commit blob key vault =
      if exists key vault
      then (hash key vault >>= λ held. raise_if (not (held == blob.0)) value_error >> ok vault)
      else ok (vault ++ (record { key = key; content = blob.1 } ∷ []))

  unfoldable pub put_bytes : ℕ → Bytes → Vault → Result (Key × Vault)
  put_bytes case_id content vault = do
    blob ← put_stream content (max 1 (length content))
    let key : Key = record { case_id = case_id; digest = blob.0 }
    after ← commit blob key vault
    ok (key, after)
