-- ===== src/Ingest/Sniffing.antt =====
-- ingest/sniff.py `quarantine_reason`, and the reasons that evidence/service.py `ingest_bytes` adds.
use darknetra.Prelude.{
  List, [], ◌∷◌, Bool, true, false, ◌&&◌, Option, none, some, any, map, is_some, Text, codes,
  text_eq, casefold, if◌then◌else◌, ok, err, ℕ, not,
}
use darknetra.Policy.Engine.{SourceClass}
use darknetra.Archives.{suffix, last_part, parts, safe_members}
use darknetra.Ingest.Rows.{
  Kind, Sniffed, Reason, Packed, executable_or_script, unsupported_type, dark_image,
  nested_container, unsafe_archive, unsafe_office,
}

abbrev pub is_script : Text → Bool
is_script filename = any (text_eq (casefold (suffix (last_part (parts filename))))) (
    codes "js"
    ∷ codes "vbs"
    ∷ codes "ps1"
    ∷ codes "sh"
    ∷ codes "bat"
    ∷ codes "cmd"
    ∷ codes "py"
    ∷ codes "jar"
    ∷ codes "apk"
    ∷ codes "msi"
    ∷ codes "exe"
    ∷ codes "com"
    ∷ codes "dll"
    ∷ [])

abbrev pub is_unsupported : Kind → Bool
is_unsupported Kind.unknown = true
is_unsupported Kind.video = true
is_unsupported _ = false

abbrev pub is_image : Kind → Bool
is_image Kind.image = true
is_image _ = false

abbrev pub is_dark : SourceClass → Bool
is_dark SourceClass.osint_dark = true
is_dark _ = false

unfoldable pub quarantine_reason : Sniffed → Text → SourceClass → Option Reason
quarantine_reason sniffed filename source_class =
    if is_script filename then some executable_or_script else elim sniffed.unsafe_reason [
      | some reason ↦ some (unsafe_office reason)
      | none ↦
          if is_unsupported sniffed.kind
          then some unsupported_type
          else if is_image sniffed.kind && is_dark source_class
          then some dark_image
          else none
    ]

abbrev pub is_container : Kind → Bool
is_container Kind.zip = true
is_container Kind.warc = true
is_container _ = false

abbrev pub is_zip : Kind → Bool
is_zip Kind.zip = true
is_zip _ = false

-- `safe_members(archive, max_bytes)` of an archive that may not open: does it raise?
abbrev pub is_unsafe : Option (List Packed) → ℕ → Bool
is_unsafe none max_bytes = true
is_unsafe (some packed) max_bytes = elim (safe_members (map Packed.member packed) max_bytes) [
  | ok members ↦ false
  | err e ↦ true
]

-- The reason to quarantine new bytes. An archive is opened only if there is no other reason.
unfoldable pub reason_for :
    Sniffed → Option (List Packed) → Text → SourceClass → Option ℕ → ℕ → Option Reason
reason_for sniffed opened filename source_class parent_id max_bytes =
    let first =
      if is_container sniffed.kind && is_some parent_id
      then some nested_container
      else quarantine_reason sniffed filename source_class in
    if is_zip sniffed.kind && not (is_some first) && is_unsafe opened max_bytes
    then some unsafe_archive
    else first
