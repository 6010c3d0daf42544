-- ===== src/Ingest/Rows.antt =====
-- The tables of evidence/models.py and evidence/codes.py, and what evidence/service.py takes from
-- outside: the digest, the type of bytes, archives and parsers, the names of responses, the time.
use darknetra.Prelude.{
  ℕ, ◌+◌, List, [], ◌∷◌, ◌++◌, Bool, ◌==◌, Option, none, some, find, update_if, Text, String,
}
use darknetra.Records.{Case, Evidence, EvidenceStatus}
use darknetra.Audit.{Entry, record_entry}
use darknetra.Policy.Engine.{SourceClass}
use darknetra.Archives.{Member}
use darknetra.Vault.{Bytes, Key, Vault}

pub data Kind : Type 0 where
  pdf html warc image csv json plain zip audio video office unknown : Kind

pub data Origin : Type 0 where
  uploaded captured monitored derivative reported : Origin

pub data Reason : Type 0 where
  executable_or_script unsupported_type dark_image nested_container unsafe_archive : Reason
  unsafe_office : (reason : ℕ) → Reason

pub data Warning : Type 0 where
  quarantine : (reason : Reason) → Warning
  extension_mismatch integrity_mismatch parser_failed warc_limit : Warning
  from_parser : (text : ℕ) → Warning

-- `Sniffed`, without the media type.
pub record Sniffed : Type 0 where
  pub kind : Kind
  pub ext_mismatch : Bool
  pub unsafe_reason : Option ℕ

-- An entry of an archive with its bytes.
pub record Packed : Type 0 where
  pub member : Member
  pub is_dir : Bool
  pub content : Bytes

-- What a parser makes of bytes: documents of a kind, and warnings.
pub record Parsed : Type 0 where
  pub documents : List (ℕ × Bytes)
  pub warnings : List ℕ

pub record Outside : Type 0 where
  pub max_upload_bytes : ℕ
  pub max_zip_bytes : ℕ
  pub sha256 : Bytes → ℕ
  pub sniff : Bytes → Text → Sniffed
  pub unzip : Bytes → Option (List Packed)
  pub responses : Bytes → List Bytes
  pub parse : Bytes → Kind → Text → Option Parsed
  pub response_name : ℕ → Text
  pub now : ℕ

-- The columns of `evidence` that ingestion reads or sets; the storage key is the case and the digest.
pub record Original : Type 0 where
  pub row : Evidence
  pub kind : Kind
  pub filename : Text
  pub source_class : SourceClass
  pub origin : Origin
  pub parent_id : Option ℕ
  pub warnings : List Warning

pub data Custody : Type 0 where
  ingested verified derived quarantined : Custody

pub record CustodyEvent : Type 0 where
  pub case_id : ℕ
  pub evidence_id : ℕ
  pub action : Custody
  pub hash_verified : Option Bool

pub record Derivative : Type 0 where
  pub case_id : ℕ
  pub evidence_id : ℕ
  pub kind : ℕ
  pub version : ℕ
  pub storage_key : Key

-- `evidence_code_counters`: the next number of a case.
pub record Counter : Type 0 where
  pub case_id : ℕ
  pub next : ℕ

-- The tables and the vault; `fresh` is the identifier that the next new row draws.
pub record Shelf : Type 0 where
  pub cases : List Case
  pub originals : List Original
  pub counters : List Counter
  pub custody : List CustodyEvent
  pub derivatives : List Derivative
  pub vault : Vault
  pub trail : List Entry
  pub fresh : ℕ

abbrev pub key_of : Original → Key
key_of o = record { case_id = o.row.case_id; digest = o.row.sha256 }

abbrev pub original_of : ℕ → Original → Bool
original_of id o = o.row.id == id

-- `next_evidence_code`: the number of the new code, and the counters.
abbrev pub counter_of : ℕ → Counter → Bool
counter_of case_id c = c.case_id == case_id

abbrev pub bumped : Counter → Counter
bumped c = record c { next = c.next + 1 }

abbrev pub next_evidence_code : ℕ → List Counter → ℕ × List Counter
next_evidence_code case_id counters = elim (find (counter_of case_id) counters) [
  | none ↦ (1, counters ++ (record { case_id = case_id; next = 2 } ∷ []))
  | some c ↦ (c.next, update_if (counter_of case_id) bumped counters)
]

-- `custody_event`
abbrev pub custody_event : ℕ → ℕ → Custody → Option Bool → Shelf → Shelf
custody_event case_id evidence_id action hash_verified s = record s {
  custody =
      s.custody
      ++ (record {
        case_id = case_id;
        evidence_id = evidence_id;
        action = action;
        hash_verified = hash_verified;
      }
          ∷ []);
}

-- `audit.record` on evidence
abbrev pub log : String → ℕ → ℕ → Shelf → Shelf
log action case_id evidence_id s = record s {
  trail = record_entry action (some case_id) (some evidence_id) s.trail;
}

abbrev pub with_status : EvidenceStatus → Original → Original
with_status status o = record o { row = record (o.row) { status = status } }

-- `evidence.status = status; evidence.warnings = warnings`
abbrev pub set_outcome : ℕ → EvidenceStatus → List Warning → Shelf → Shelf
set_outcome id status warnings s = record s {
  originals =
      update_if (original_of id) (λ o. record (with_status status o) { warnings = warnings })
        s.originals;
}
