-- ===== src/Records.antt =====
-- The rows that several services read: auth/actor.py, auth/models.py, cases/models.py,
-- evidence/models.py and agent/models.py.
-- An identifier is a number, and so is a time, in microseconds. The check constraints of the tables
-- leave a role or a status no other value than the constructors here.
use darknetra.Prelude.{ℕ, Bool, Option, List, String}

pub data GlobalRole : Type 0 where
  admin investigator viewer : GlobalRole

pub data CaseRole : Type 0 where
  viewer analyst lead owner : CaseRole

pub data ActorKind : Type 0 where
  user token system model : ActorKind

pub record Actor : Type 0 where
  pub kind : ActorKind
  pub id : Option ℕ
  pub global_role : Option GlobalRole
  pub scopes : List String
  pub session_id : Option ℕ
  pub user_id : Option ℕ
  pub token_case_id : Option ℕ
  pub must_change_password : Bool

pub record User : Type 0 where
  pub id : ℕ
  pub password_hash : ℕ
  pub global_role : GlobalRole
  pub is_active : Bool
  pub must_change_password : Bool
  pub failed_logins : ℕ
  pub locked_until : Option ℕ

pub record Session : Type 0 where
  pub id : ℕ
  pub user_id : ℕ
  pub refresh_hash : ℕ
  pub csrf_hash : ℕ
  pub expires_at : ℕ
  pub revoked_at : Option ℕ
  pub rotated_from : Option ℕ

pub record ApiToken : Type 0 where
  pub id : ℕ
  pub owner_user_id : ℕ
  pub token_hash : ℕ
  pub scopes : List String
  pub case_id : Option ℕ
  pub expires_at : ℕ
  pub revoked_at : Option ℕ
  pub last_used_at : Option ℕ

pub data CaseStatus : Type 0 where
  opened closed archived : CaseStatus

-- `cases`, without its texts, which no operation here reads.
pub record Case : Type 0 where
  pub id : ℕ
  pub year : ℕ
  pub number : ℕ
  pub status : CaseStatus
  pub legal_hold : Bool
  pub created_by : ℕ
  pub closed_at : Option ℕ
  pub archived_at : Option ℕ

pub record Membership : Type 0 where
  pub case_id : ℕ
  pub user_id : ℕ
  pub role : CaseRole

pub data EvidenceStatus : Type 0 where
  processing ready partial quarantined failed expired : EvidenceStatus

-- `evidence`: a code `E-<number>` is its number, a digest is a number.
pub record Evidence : Type 0 where
  pub id : ℕ
  pub case_id : ℕ
  pub code : ℕ
  pub sha256 : ℕ
  pub status : EvidenceStatus
  pub captured_at : ℕ

-- `threads`: money is in units of 0.0001 USD, the precision of the column.
pub record Thread : Type 0 where
  pub id : ℕ
  pub case_id : ℕ
  pub is_opened : Bool
  pub created_at : ℕ
  pub pinned_finding_ids : List ℕ
  pub budget_usd : ℕ
  pub spent_usd : ℕ
  pub last_message_at : Option ℕ

-- The tables that decide who may do what.
pub record Directory : Type 0 where
  pub users : List User
  pub sessions : List Session
  pub tokens : List ApiToken
  pub cases : List Case
  pub memberships : List Membership

abbrev pub is_open : CaseStatus → Bool
is_open opened = Bool.true
is_open _ = Bool.false

abbrev pub is_admin : Option GlobalRole → Bool
is_admin (Option.some admin) = Bool.true
is_admin _ = Bool.false

abbrev pub is_token : ActorKind → Bool
is_token token = Bool.true
is_token _ = Bool.false

abbrev pub is_user : ActorKind → Bool
is_user user = Bool.true
is_user _ = Bool.false

-- `status in ["READY", "PARTIAL"]`
abbrev pub is_citable : EvidenceStatus → Bool
is_citable ready = Bool.true
is_citable partial = Bool.true
is_citable _ = Bool.false

-- `status not in {"QUARANTINED", "EXPIRED", "FAILED"}`
abbrev pub is_accessible : EvidenceStatus → Bool
is_accessible quarantined = Bool.false
is_accessible expired = Bool.false
is_accessible failed = Bool.false
is_accessible _ = Bool.true
