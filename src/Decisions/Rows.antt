-- ===== src/Decisions/Rows.antt =====
-- The tables that a decision reads and writes. Texts are code points; scores, features and the
-- descriptions that nothing here reads are left out.
use darknetra.Prelude.{ℕ, Option, List, Text, Bool, ◌==◌, true, ◌||◌, false, ◌≡◌, arith}
use darknetra.Records.{Directory, Evidence, Thread}
use darknetra.Audit.{Entry}

pub data TargetType : Type 0 where
  link activity finding alert : TargetType

pub data Verdict : Type 0 where
  accept reject defer request_more_evidence : Verdict

pub record Decision : Type 0 where
  pub id : ℕ
  pub case_id : ℕ
  pub target_type : TargetType
  pub target_id : ℕ
  pub target_version : ℕ
  pub verdict : Verdict
  pub decided_by : ℕ
  pub supersedes_id : Option ℕ
  pub at : ℕ

pub data FindingKind : Type 0 where
  observed model candidate confirmed : FindingKind

pub data FindingStatus : Type 0 where
  draft promoted superseded : FindingStatus

pub record Finding : Type 0 where
  pub id : ℕ
  pub case_id : ℕ
  pub thread_id : Option ℕ
  pub title : Text
  pub claim : Text
  pub kind : FindingKind
  pub evidence_ids : List ℕ
  pub method : Text
  pub status : FindingStatus
  pub version : ℕ
  pub supersedes_id : Option ℕ
  pub source_message_id : Option ℕ
  pub claim_index : Option ℕ
  pub decision_id : Option ℕ
  pub created_by : ℕ
  pub at : ℕ

pub data CandidateStatus : Type 0 where
  pending accepted rejected : CandidateStatus

pub record LinkCandidate : Type 0 where
  pub id : ℕ
  pub case_id : ℕ
  pub subject_a_id : ℕ
  pub subject_b_id : ℕ
  pub version : ℕ
  pub evidence_ids : List ℕ
  pub status : CandidateStatus
  pub deferred_at : Option ℕ

pub record ActivityCandidate : Type 0 where
  pub id : ℕ
  pub case_id : ℕ
  pub evidence_id : ℕ
  pub version : ℕ
  pub status : CandidateStatus

pub data EdgeType : Type 0 where
  possible_same_operator analyst_confirmed_related : EdgeType

pub data EdgeStatus : Type 0 where
  pending confirmed rejected : EdgeStatus

-- Of the provenance the evidence and the version of the candidate are kept.
pub record GraphEdge : Type 0 where
  pub case_id : ℕ
  pub src_entity_id : ℕ
  pub dst_entity_id : ℕ
  pub type : EdgeType
  pub status : EdgeStatus
  pub candidate_id : Option ℕ
  pub decision_id : Option ℕ
  pub evidence_ids : List ℕ
  pub candidate_version : Option ℕ
  pub first_seen_at : ℕ
  pub last_seen_at : ℕ

pub data AlertKind : Type 0 where
  signal overflow : AlertKind

pub data AlertStatus : Type 0 where
  opened acknowledged dismissed escalated : AlertStatus

-- Every kind but OVERFLOW is `signal`; of the diversity the overflow count is kept.
pub record Alert : Type 0 where
  pub id : ℕ
  pub case_id : ℕ
  pub kind : AlertKind
  pub title : Text
  pub summary : Text
  pub evidence_ids : List ℕ
  pub item_id : Option ℕ
  pub overflow_count : Option ℕ
  pub status : AlertStatus
  pub finding_id : Option ℕ
  pub at : ℕ
  pub handled_at : Option ℕ
  pub handled_by : Option ℕ
  pub decision_id : Option ℕ

pub record MessageClaim : Type 0 where
  pub text : Text
  pub evidence_codes : List ℕ

pub record Message : Type 0 where
  pub id : ℕ
  pub case_id : ℕ
  pub thread_id : ℕ
  pub claims : List MessageClaim

pub record Store : Type 0 where
  pub dir : Directory
  pub audit : List Entry
  pub evidence : List Evidence
  pub threads : List Thread
  pub messages : List Message
  pub links : List LinkCandidate
  pub activities : List ActivityCandidate
  pub findings : List Finding
  pub alerts : List Alert
  pub edges : List GraphEdge
  pub decisions : List Decision

-- Equality of the enumerations.
abbrev pub type_ordinal : TargetType → ℕ
type_ordinal link = 0
type_ordinal activity = 1
type_ordinal finding = 2
type_ordinal alert = 3

abbrev pub same_type : TargetType → TargetType → Bool
same_type a b = type_ordinal a == type_ordinal b

pub type_eq : (a b : TargetType) → same_type a b ≡ true → a ≡ b
type_eq link b h = ground arith
type_eq activity b h = ground arith
type_eq finding b h = ground arith
type_eq alert b h = ground arith

abbrev pub same_edge_type : EdgeType → EdgeType → Bool
same_edge_type possible_same_operator possible_same_operator = true
same_edge_type analyst_confirmed_related analyst_confirmed_related = true
same_edge_type _ _ = false

abbrev pub is_accept : Verdict → Bool
is_accept accept = true
is_accept _ = false

abbrev pub is_reject : Verdict → Bool
is_reject reject = true
is_reject _ = false

-- `decision in {"ACCEPT", "REJECT"}`
abbrev pub is_final : Verdict → Bool
is_final v = is_accept v || is_reject v
