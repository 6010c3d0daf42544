-- ===== src/Ingest/Receive.antt =====
-- evidence/service.py `ingest_bytes`. A child is ingested by the same function, one level deeper:
-- the fuel counts the levels.
use darknetra.Prelude.{
  ℕ, zero, suc, ◌+◌, List, [], ◌∷◌, ◌++◌, Bool, true, false, ◌&&◌, ◌==◌, not, ltb, Option, none,
  some, find, any, length, is_some, Text, if◌then◌else◌, Result, ok, err, conflict, internal,
  too_large, not_found, raise_if, or_raise, ◌>>=◌, ◌>>◌,
}
use darknetra.Records.{Case, CaseStatus, EvidenceStatus}
use darknetra.Policy.Engine.{SourceClass}
use darknetra.Archives.{forward, parts, last_part}
use darknetra.Vault.{Bytes, exists, hash, put_bytes}
use darknetra.Ingest.Rows.{
  Origin, Warning, extension_mismatch, integrity_mismatch, quarantine, Reason, Sniffed, Outside,
  Original, ingested, verified, quarantined, derivative, Shelf, key_of, original_of,
  next_evidence_code, custody_event, log, set_outcome,
}
use darknetra.Ingest.Sniffing.{reason_for}
use darknetra.Ingest.Process.{Ingest, process_evidence}

pub record Request : Type 0 where
  pub case_id : ℕ
  pub content : Bytes
  pub filename : Text
  pub source_class : SourceClass
  pub origin : Origin
  pub parent_id : Option ℕ
  pub defer_processing : Bool

-- `EvidenceIngestResult`
pub record Receipt : Type 0 where
  pub evidence_id : ℕ
  pub duplicate : Bool
  pub warnings : List Warning

abbrev pub is_opened : CaseStatus → Bool
is_opened CaseStatus.opened = true
is_opened _ = false

abbrev pub in_case : ℕ → ℕ → Original → Bool
in_case case_id id e = e.row.case_id == case_id && e.row.id == id

abbrev pub same_bytes : ℕ → ℕ → Original → Bool
same_bytes case_id digest e = e.row.case_id == case_id && e.row.sha256 == digest

-- `get_evidence` of the parent, if there is one
abbrev pub has_parent : ℕ → Option ℕ → List Original → Bool
has_parent case_id none originals = true
has_parent case_id (some id) originals = any (in_case case_id id) originals

-- Bytes that the case has already: the file is checked against its digest.
abbrev pub is_intact : Outside → Original → Shelf → Bool
is_intact o e s =
    exists (key_of e) s.vault
    && elim (hash o.sha256 (key_of e) s.vault) [ ok found ↦ found == e.row.sha256 | err e ↦ false ]

abbrev pub recheck : Outside → Original → Shelf → Receipt × Shelf
recheck o e s =
    let good = is_intact o e s in
    let t =
      log "evidence.duplicate_verified" e.row.case_id e.row.id
        (custody_event e.row.case_id e.row.id verified (some good) s) in
    (
      record {
        evidence_id = e.row.id;
        duplicate = true;
        warnings = if good then [] else integrity_mismatch ∷ [];
      },
      if good then t else set_outcome e.row.id EvidenceStatus.failed e.warnings t,
    )

abbrev pub warnings_of : Option Reason → Bool → List Warning
warnings_of reason mismatch =
    elim reason [ none ↦ [] | some r ↦ quarantine r ∷ [] ]
    ++ (if mismatch then extension_mismatch ∷ [] else [])

abbrev pub new_original : Outside → Request → ℕ → ℕ → Option Reason → Sniffed → Original
new_original o r id code reason sniffed = record {
  row = record {
    id = id;
    case_id = r.case_id;
    code = code;
    sha256 = o.sha256 r.content;
    status = if is_some reason then EvidenceStatus.quarantined else EvidenceStatus.processing;
    captured_at = o.now;
  };
  kind = sniffed.kind;
  filename = last_part (parts (forward r.filename));
  source_class = r.source_class;
  origin = r.origin;
  parent_id = r.parent_id;
  warnings = warnings_of reason sniffed.ext_mismatch;
}

-- The new row with its code, and its first custody event.
abbrev pub add_original : Outside → Request → Option Reason → Sniffed → Shelf → Original × Shelf
add_original o r reason sniffed s =
    let (code, counters) = next_evidence_code r.case_id s.counters in
    let e = new_original o r s.fresh code reason sniffed in
    (
      e,
      custody_event r.case_id e.row.id ingested (some true) (record s {
        originals = s.originals ++ (e ∷ []);
        counters = counters;
        fresh = s.fresh + 1;
      }),
    )

-- What follows the new row: quarantine, or the processing of the bytes.
abbrev pub derive : Outside → Ingest → Request → Option Reason → Original → Shelf → Result Shelf
derive o child r reason e s = elim reason [
  | some q ↦ ok (custody_event r.case_id e.row.id quarantined none s)
  | none ↦
      if r.defer_processing
      then ok s
      else process_evidence o child o.response_name e (some r.content) s
]

abbrev pub current_warnings : ℕ → Shelf → List Warning
current_warnings id s = elim (find (original_of id) s.originals) [ none ↦ [] | some e ↦ e.warnings ]

unfoldable pub store_new : Outside → (ℕ → Ingest) → Request → Shelf → Result (Receipt × Shelf)
store_new o child r s = do
  let sniffed = o.sniff r.content r.filename
  let reason =
      reason_for sniffed (o.unzip r.content) r.filename r.source_class r.parent_id o.max_zip_bytes
  stored ← put_bytes o.sha256 r.case_id r.content s.vault
  let added = add_original o r reason sniffed (record s { vault = stored.1 })
  t ← derive o (child s.fresh) r reason added.0 added.1
  ok (
    record { evidence_id = s.fresh; duplicate = false; warnings = current_warnings s.fresh t },
    log "evidence.ingest" r.case_id s.fresh t,
  )

abbrev pub child_request : Request → ℕ → Bytes → Text → Request
child_request r parent content filename = record {
  case_id = r.case_id;
  content = content;
  filename = filename;
  source_class = r.source_class;
  origin = derivative;
  parent_id = some parent;
  defer_processing = false;
}

-- One level of `ingest_bytes`, with the ingestion of children.
unfoldable pub ingest_with :
    Outside
    → (Request → Shelf → Result (Receipt × Shelf))
    → Request
    → Shelf
    → Result (Receipt × Shelf)
ingest_with o deeper r s = do
  raise_if (ltb o.max_upload_bytes (length r.content)) too_large
  c ← or_raise (find (λ (c : Case). c.id == r.case_id) s.cases) internal
  raise_if (not (is_opened c.status)) conflict
  raise_if (not (has_parent r.case_id r.parent_id s.originals)) not_found
  elim (find (same_bytes r.case_id (o.sha256 r.content)) s.originals) [
    | some previous ↦ ok (recheck o previous s)
    | none ↦
        store_new o
          (λ parent content filename t.
            deeper (child_request r parent content filename) t >>= λ out. ok (out.1))
          r s
  ]

unfoldable pub ingest_bytes : ℕ → Outside → Request → Shelf → Result (Receipt × Shelf)
ingest_bytes zero o r s = err internal
ingest_bytes (suc fuel) o r s = ingest_with o (ingest_bytes fuel o) r s
