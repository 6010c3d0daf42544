-- ===== src/Archives.antt =====
-- ingest/zipsafe.py: `safe_members`, the check of an archive before it is unpacked.
pub mod Safe
mod Tests
use darknetra.Prelude.{
  ℕ, ◌+◌, ◌*◌, ◌/◌, ◌%◌, max, List, [], ◌∷◌, Text, Bool, true, false, not, ◌&&◌, ◌||◌, ◌==◌, ltb,
  any, length, keep, map, reverse, text_eq, is_empty, casefold, codes, partition, starts_with,
  if◌then◌else◌, Result, ok, value_error, raise_if, ◌>>◌,
}

-- `ZipInfo`, as far as the check reads it.
pub record Member : Type 0 where
  pub filename : Text
  pub external_attr : ℕ
  pub flag_bits : ℕ
  pub file_size : ℕ
  pub compress_size : ℕ

-- `filename.replace("\\", "/")`
abbrev pub forward : Text → Text
forward = map (λ c. if c == 92 then 47 else c)

abbrev pub push : ℕ → List Text → List Text
push c [] = (c ∷ []) ∷ []
push c (w ∷ ws) = (c ∷ w) ∷ ws

-- `name.split("/")`
abbrev pub split : Text → List Text
split [] = [] ∷ []
split (c ∷ t) = let rest = split t in if c == 47 then [] ∷ rest else push c rest

-- `PurePosixPath(name).parts` of a relative path
abbrev pub parts : Text → List Text
parts name = keep (λ w. not (is_empty w || text_eq w (codes "."))) (split name)

abbrev pub is_parent : Text → Bool
is_parent w = text_eq w (codes "..")

abbrev pub unsafe_path : Text → Bool
unsafe_path name =
    starts_with name (codes "/") || any (λ c. c == 58) name || any is_parent (parts name)

-- `PurePosixPath(name).name`
abbrev pub last_part : List Text → Text
last_part [] = []
last_part (w ∷ []) = w
last_part (w ∷ v ∷ ws) = last_part (v ∷ ws)

-- The suffix without its dot: what follows the last dot, if that is neither the first nor the last
-- character.
abbrev pub suffix : Text → Text
suffix name =
    let (after, before) = partition 46 (reverse name) in
    if is_empty before then [] else reverse after

abbrev pub is_archive : Text → Bool
is_archive s =
    any (text_eq (casefold s))
      (codes "zip" ∷ codes "rar" ∷ codes "7z" ∷ codes "tar" ∷ codes "gz" ∷ [])

-- `stat.S_ISLNK(external_attr >> 16)`
abbrev pub is_link : ℕ → Bool
is_link attr = attr / 65536 / 4096 % 16 == 10

-- `flag_bits & 1`
abbrev pub is_encrypted : ℕ → Bool
is_encrypted bits = bits % 2 == 1

-- The loop over the members, with the sum of the sizes so far.
abbrev pub check_members : ℕ → ℕ → List Member → Result (Unit {0})
check_members max_bytes total [] = ok tt
check_members max_bytes total (m ∷ ms) =
    let name = forward m.filename in
    let sum = total + m.file_size in
    raise_if (unsafe_path name) value_error
    >> raise_if (is_link m.external_attr || is_encrypted m.flag_bits) value_error
    >> raise_if (ltb max_bytes sum || ltb (max 1 m.compress_size * 100) m.file_size) value_error
    >> raise_if (is_archive (suffix (last_part (parts name)))) value_error
    >> check_members max_bytes sum ms

unfoldable pub safe_members : List Member → ℕ → Result (List Member)
safe_members members max_bytes =
    raise_if (ltb 2000 (length members)) value_error
    >> check_members max_bytes 0 members
    >> ok members
