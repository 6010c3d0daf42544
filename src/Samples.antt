-- ===== src/Samples.antt =====
-- Small tables that the tests of several modules share: one user, one open case and one closed case,
-- a session and a token.
use darknetra.Records.{
  User, Case, Session, ApiToken, Directory, Actor, GlobalRole, CaseStatus, ActorKind, CaseRole,
}
use darknetra.Prelude.{none, ◌∷◌, true, false, [], some}

abbrev pub ada : User
ada = record {
  id = 7;
  password_hash = 11;
  global_role = GlobalRole.investigator;
  is_active = true;
  must_change_password = false;
  failed_logins = 0;
  locked_until = none;
}

abbrev pub case_one : Case
case_one = record {
  id = 1;
  year = 2026;
  number = 1;
  status = CaseStatus.opened;
  legal_hold = false;
  created_by = 7;
  closed_at = none;
  archived_at = none;
}

abbrev pub case_two : Case
case_two = record {
  id = 2;
  year = 2026;
  number = 2;
  status = CaseStatus.closed;
  legal_hold = false;
  created_by = 7;
  closed_at = some 40;
  archived_at = none;
}

abbrev pub login_row : Session
login_row = record {
  id = 30;
  user_id = 7;
  refresh_hash = 301;
  csrf_hash = 302;
  expires_at = 1000;
  revoked_at = none;
  rotated_from = none;
}

abbrev pub token_row : ApiToken
token_row = record {
  id = 50;
  owner_user_id = 7;
  token_hash = 501;
  scopes = "threads:run" ∷ "alerts:read" ∷ [];
  case_id = some 1;
  expires_at = 1000;
  revoked_at = none;
  last_used_at = none;
}

abbrev pub office : Directory
office = record {
  users = ada ∷ [];
  sessions = login_row ∷ [];
  tokens = token_row ∷ [];
  cases = case_one ∷ case_two ∷ [];
  memberships = record { case_id = 1; user_id = 7; role = CaseRole.analyst } ∷ [];
}

abbrev pub ada_actor : Actor
ada_actor = record {
  kind = ActorKind.user;
  id = some 7;
  global_role = some GlobalRole.investigator;
  scopes = [];
  session_id = some 30;
  user_id = some 7;
  token_case_id = none;
  must_change_password = false;
}

-- The actor that the token gave an hour ago, with a scope that it no longer has.
abbrev pub token_actor_before : Actor
token_actor_before = record {
  kind = ActorKind.token;
  id = some 50;
  global_role = some GlobalRole.investigator;
  scopes = "threads:run" ∷ "evidence:write" ∷ [];
  session_id = none;
  user_id = some 7;
  token_case_id = none;
  must_change_password = false;
}
