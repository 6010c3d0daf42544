-- ===== src/Archives/Safe.antt =====
-- What `safe_members` of ingest/zipsafe.py lets through.
use darknetra.Prelude.{
  ℕ, zero, suc, ◌+◌, ◌*◌, ◌≤◌, max, List, [], ◌∷◌, Text, ◌≡◌, refl, true, false, Option, none, some,
  any, All, mem, ◌==◌, ◌||◌, Bool, starts_with, codes, length, is_some, arith, ok, if◌then◌else◌,
}
use darknetra.Archives.{
  Member, forward, unsafe_path, parts, is_parent, is_link, is_encrypted, is_archive, suffix,
  last_part, check_members, safe_members,
}

-- How deep below the target a path ends, walked part by part; `none` if it ever leaves the target.
abbrev pub depth : ℕ → List Text → Option ℕ
depth n [] = some n
depth zero (w ∷ ws) = if is_parent w then none else depth 1 ws
depth (suc n) (w ∷ ws) = if is_parent w then depth n ws else depth (suc (suc n)) ws

-- A name that starts at the root, or at a drive, does not lie below the target at all.
abbrev pub is_rooted : Text → Bool
is_rooted [] = false
is_rooted (c ∷ t) = c == 47

abbrev pub lands : Text → Option ℕ
lands name = if is_rooted name || mem 58 name then none else depth 0 (parts name)

-- The member is unpacked inside the target, is no link, is readable, and grows at most a hundredfold.
pub record IsSafe (m : Member) : Type 0 where
  pub inside : is_some (lands (forward m.filename)) ≡ true
  pub no_link : is_link m.external_attr ≡ false
  pub readable : is_encrypted m.flag_bits ≡ false
  pub ratio : m.file_size ≤ max 1 m.compress_size * 100
  pub no_archive : is_archive (suffix (last_part (parts (forward m.filename)))) ≡ false

-- `sum(m.file_size for m in members)`
abbrev pub total_size : List Member → ℕ
total_size [] = 0
total_size (m ∷ ms) = m.file_size + total_size ms

depth-some : (n : ℕ) (ws : List Text) → any is_parent ws ≡ false → is_some (depth n ws) ≡ true
depth-some n [] h = refl
depth-some zero (w ∷ ws) h = ground (arith, depth-some 1 ws)
depth-some (suc n) (w ∷ ws) h = ground (arith, depth-some (suc (suc n)) ws)

mem-any : (t : Text) → any (λ c. c == 58) t ≡ mem 58 t
mem-any [] = refl
mem-any (c ∷ t) = ground (arith, mem-any t)

is_rooted-starts_with : (name : Text) → starts_with name (codes "/") ≡ is_rooted name
is_rooted-starts_with [] = refl
is_rooted-starts_with (c ∷ t) = ground arith

lands-some : (name : Text) → unsafe_path name ≡ false → is_some (lands name) ≡ true
lands-some name h =
    let root : is_rooted name ≡ false = ground (arith, is_rooted-starts_with name) in
    let drive : mem 58 name ≡ false = ground (arith, mem-any name) in
    rw (root, drive) (depth-some 0 (parts name) (ground arith))

check_members-total :
    (max_bytes total : ℕ) (ms : List Member)
    → total ≤ max_bytes
    → check_members max_bytes total ms ≡ ok tt
    → total + total_size ms ≤ max_bytes
check_members-total max_bytes total [] k h = omega arith
check_members-total max_bytes total (m ∷ ms) k h =
    ground (arith, check_members-total max_bytes (total + m.file_size) ms)

check_members-AreSafe :
    (max_bytes total : ℕ) (ms : List Member)
    → check_members max_bytes total ms ≡ ok tt
    → All IsSafe ms
check_members-AreSafe max_bytes total [] h = tt
check_members-AreSafe max_bytes total (m ∷ ms) h = (
  record {
    inside = lands-some (forward m.filename) (ground arith);
    no_link = ground arith;
    readable = ground arith;
    ratio = ground arith;
    no_archive = ground arith;
  },
  check_members-AreSafe max_bytes (total + m.file_size) ms (ground arith),
)

-- An archive that passes the check is returned as it is. It has at most 2000 members, whose sizes add
-- up to at most the limit. No member has a name from the root or from a drive, leaves the directory it is
-- unpacked in at any part of its path, is a link, is encrypted, grows more than a hundredfold or is an archive itself.
pub safe_members-IsSafe :
    (members kept : List Member) (max_bytes : ℕ)
    → safe_members members max_bytes ≡ ok kept
    → (kept ≡ members)
      × (length members ≤ 2000)
      × (total_size members ≤ max_bytes)
      × All IsSafe members
unfolding safe_members
safe_members-IsSafe members kept max_bytes h =
    let passed : check_members max_bytes 0 members ≡ ok tt = ground arith in
    (
      ground arith,
      ground arith,
      omega (arith, check_members-total max_bytes 0 members (omega arith) passed),
      check_members-AreSafe max_bytes 0 members passed,
    )
