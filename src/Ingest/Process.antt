-- ===== src/Ingest/Process.antt =====
-- evidence/service.py `process_evidence`. The rows of the index and of the extraction, which it
-- fills at the end, are not modelled.
use darknetra.Prelude.{
  ℕ, ◌+◌, List, [], ◌∷◌, ◌++◌, Bool, true, false, ◌&&◌, ◌||◌, ◌==◌, not, ltb, leb, Option, none,
  some, map, keep, length, max_of, is_empty, Text, if◌then◌else◌, Result, ok, conflict, internal,
  raise_if, or_raise, ◌>>=◌, ◌>>◌, String,
}
use darknetra.Records.{EvidenceStatus}
use darknetra.Policy.Engine.{SourceClass}
use darknetra.Archives.{safe_members}
use darknetra.Vault.{Bytes, read, hash, put_bytes, Key, Vault}
use darknetra.Ingest.Rows.{
  Kind, Origin, Warning, from_parser, extension_mismatch, parser_failed, warc_limit,
  integrity_mismatch, quarantine, unsafe_office, executable_or_script, unsupported_type, dark_image,
  nested_container, unsafe_archive, Packed, Outside, Original, Custody, verified, derived,
  quarantined, reported, Derivative, Shelf, key_of, custody_event, log, set_outcome,
}
use darknetra.Ingest.Sniffing.{is_image}

-- The ingestion of a child: its bytes and its name.
abbrev pub Ingest : Type 0
Ingest = Bytes → Text → Shelf → Result Shelf

-- The loop over the members of an archive.
abbrev pub ingest_members : Ingest → List Packed → Shelf → Result Shelf
ingest_members child [] s = ok s
ingest_members child (p ∷ packed) s =
    (if p.is_dir then ok s else child p.content p.member.filename s) >>= λ t.
    ingest_members child packed t

-- The loop over the responses of a web archive: how many were taken, and whether a limit was met.
abbrev pub ingest_responses :
    Outside → Ingest → (ℕ → Text) → ℕ → List Bytes → Shelf → Result (ℕ × Bool × Shelf)
ingest_responses o child name count [] s = ok (count, false, s)
ingest_responses o child name count (payload ∷ payloads) s =
    if ltb o.max_upload_bytes (length payload) || leb 2000 count
    then ok (count, true, s)
    else child payload (name (count + 1)) s >>= λ t.
        ingest_responses o child name (count + 1) payloads t

-- `custody_event` and `record` on one row.
abbrev pub derived_log : Original → Custody → String → Shelf → Shelf
derived_log e action name s =
    log name e.row.case_id e.row.id (custody_event e.row.case_id e.row.id action none s)

abbrev pub process_zip : Outside → Ingest → Original → Bytes → Shelf → Result Shelf
process_zip o child e content s = do
  packed ← or_raise (o.unzip content) internal
  members ← safe_members (map Packed.member packed) o.max_zip_bytes
  t ← ingest_members child packed s
  ok (
      derived_log e derived "evidence.derived"
        (set_outcome e.row.id EvidenceStatus.ready e.warnings t))

abbrev pub process_warc : Outside → Ingest → (ℕ → Text) → Original → Bytes → Shelf → Result Shelf
process_warc o child name e content s =
    ingest_responses o child name 0 (o.responses content) s >>= λ out.
    let (count, limited, t) = out in
    let warnings = if limited then e.warnings ++ (warc_limit ∷ []) else e.warnings in
    let status = if count == 0 then EvidenceStatus.partial else EvidenceStatus.ready in
    ok (derived_log e derived "evidence.derived" (set_outcome e.row.id status warnings t))

-- A parser that raises.
abbrev pub declined : Original → Shelf → Shelf
declined e s =
    let warnings = e.warnings ++ (parser_failed ∷ []) in
    if is_image e.kind
    then derived_log e quarantined "evidence.parser_declined"
        (set_outcome e.row.id EvidenceStatus.quarantined warnings s)
    else derived_log e derived "evidence.parser_declined"
        (set_outcome e.row.id EvidenceStatus.partial warnings s)

abbrev pub derivative_of : Original → ℕ → Derivative → Bool
derivative_of e kind d = d.case_id == e.row.case_id && d.evidence_id == e.row.id && d.kind == kind

-- A document of a kind becomes the next version of that kind.
abbrev pub new_derivative : Original → ℕ → Key → List Derivative → Derivative
new_derivative e kind storage_key derivatives = record {
  case_id = e.row.case_id;
  evidence_id = e.row.id;
  kind = kind;
  version = max_of (map Derivative.version (keep (derivative_of e kind) derivatives)) + 1;
  storage_key = storage_key;
}

-- A stored document.
abbrev pub add_derivative : Original → ℕ → Key → Vault → Shelf → Shelf
add_derivative e kind storage_key vault s = record s {
  vault = vault;
  derivatives = s.derivatives ++ (new_derivative e kind storage_key s.derivatives ∷ []);
}

-- The loop over the parsed documents.
abbrev pub add_derivatives : Outside → Original → List (ℕ × Bytes) → Shelf → Result Shelf
add_derivatives o e [] s = ok s
add_derivatives o e ((kind, document) ∷ documents) s =
    put_bytes o.sha256 e.row.case_id document s.vault >>= λ stored.
    add_derivatives o e documents (add_derivative e kind stored.0 stored.1 s)

abbrev pub warning_eq : Warning → Warning → Bool
warning_eq (from_parser a) (from_parser b) = a == b
warning_eq extension_mismatch extension_mismatch = true
warning_eq parser_failed parser_failed = true
warning_eq warc_limit warc_limit = true
warning_eq integrity_mismatch integrity_mismatch = true
warning_eq (quarantine (unsafe_office a)) (quarantine (unsafe_office b)) = a == b
warning_eq (quarantine executable_or_script) (quarantine executable_or_script) = true
warning_eq (quarantine unsupported_type) (quarantine unsupported_type) = true
warning_eq (quarantine dark_image) (quarantine dark_image) = true
warning_eq (quarantine nested_container) (quarantine nested_container) = true
warning_eq (quarantine unsafe_archive) (quarantine unsafe_archive) = true
warning_eq _ _ = false

-- `list(dict.fromkeys(warnings))`
abbrev pub distinct : List Warning → List Warning
distinct [] = []
distinct (w ∷ ws) = w ∷ keep (λ v. not (warning_eq v w)) (distinct ws)

abbrev pub process_document : Outside → Original → Bytes → Shelf → Result Shelf
process_document o e content s = elim (o.parse content e.kind e.filename) [
  | none ↦ ok (declined e s)
  | some parsed ↦ add_derivatives o e parsed.documents s >>= λ t.
      let status =
        if is_empty parsed.warnings then EvidenceStatus.ready else EvidenceStatus.partial in
      ok (
        derived_log e derived "evidence.derived" (
          set_outcome e.row.id status (distinct (e.warnings ++ map from_parser parsed.warnings)) t))
]

abbrev pub process_kind : Outside → Ingest → (ℕ → Text) → Original → Bytes → Shelf → Result Shelf
process_kind o child name e content s = elim e.kind [
  | Kind.zip ↦ process_zip o child e content s
  | Kind.warc ↦ process_warc o child name e content s
  | _ ↦ process_document o e content s
]

abbrev pub is_expired : EvidenceStatus → Bool
is_expired EvidenceStatus.expired = true
is_expired _ = false

abbrev pub is_reported : Origin → SourceClass → Bool
is_reported reported source_class = true
is_reported _ SourceClass.report = true
is_reported _ _ = false

-- The bytes that are not at hand: `none` if those in the vault have another digest.
abbrev pub stored_bytes : Outside → Original → Shelf → Result (Option Bytes)
stored_bytes o e s = do
  found ← hash o.sha256 (key_of e) s.vault
  content ← read (key_of e) s.vault
  ok (if found == e.row.sha256 then some content else none)

-- On the row as it stands, with the bytes if they are at hand.
unfoldable pub process_evidence :
    Outside → Ingest → (ℕ → Text) → Original → Option Bytes → Shelf → Result Shelf
process_evidence o child name e given s = do
  raise_if (is_expired e.row.status) conflict
  raise_if (is_reported e.origin e.source_class) conflict
  held ← elim given [ none ↦ stored_bytes o e s | some content ↦ ok (some content) ]
  elim held [
    | none ↦ ok (
        custody_event e.row.case_id e.row.id verified (some false)
          (set_outcome e.row.id EvidenceStatus.failed e.warnings s))
    | some content ↦ process_kind o child name e content s
  ]
