-- ===== src/Authz/Roles.antt =====
-- What the tables of roles and scopes of authz/permissions.py grant.
use darknetra.Prelude.{
  ℕ, min, ◌≡◌, refl, inl, inr, Bool, true, Option, none, some, List, [], ◌∷◌, String, arith,
  Bool-cases, leb,
}
use darknetra.Records.{GlobalRole, CaseRole}
use darknetra.Authz.Permissions.{
  Permission, case_create, case_view, evidence_view, thread_view, alert_view, evidence_upload,
  thread_run, watchlist_manage, alert_handle, report_generate, decide, finding_edit,
  evidence_view_original, evidence_release_quarantine, export, audit_view_case, case_edit,
  case_close, case_manage_members, case_manage_policy, case_archive, grants, permitted,
  scope_permits, token_scopes,
}

-- The rank of a role in a case; no membership ranks lowest.
abbrev pub rank : Option CaseRole → ℕ
rank none = 0
rank (some CaseRole.viewer) = 1
rank (some CaseRole.analyst) = 2
rank (some CaseRole.lead) = 3
rank (some CaseRole.owner) = 4

-- The rank that a permission takes; 5 is beyond every role in a case.
abbrev pub level : Permission → ℕ
level case_view = 1
level evidence_view = 1
level thread_view = 1
level alert_view = 1
level evidence_upload = 2
level thread_run = 2
level watchlist_manage = 2
level alert_handle = 2
level report_generate = 2
level decide = 2
level finding_edit = 2
level evidence_view_original = 2
level evidence_release_quarantine = 3
level export = 3
level audit_view_case = 3
level case_edit = 3
level case_close = 3
level case_manage_members = 3
level case_manage_policy = 3
level case_archive = 4
level _ = 5

-- A global viewer counts as a viewer in every case; an unknown global role counts for nothing.
abbrev pub clearance : Option GlobalRole → Option CaseRole → ℕ
clearance none r = 0
clearance (some GlobalRole.admin) r = 5
clearance (some GlobalRole.investigator) r = rank r
clearance (some GlobalRole.viewer) r = min 1 (rank r)

-- Creating a case is the one right that no membership gives.
abbrev pub expected : Option GlobalRole → Option CaseRole → Permission → Bool
expected (some GlobalRole.investigator) r case_create = true
expected g r p = leb (level p) (clearance g r)

-- `permitted` is the comparison of ranks, for every global role, role in the case and permission.
pub permitted-eq-expected :
    (g : Option GlobalRole) (r : Option CaseRole) (p : Permission)
    → permitted g r p ≡ expected g r p
unfolding permitted
permitted-eq-expected none none case_create = refl
permitted-eq-expected none none _ = refl
permitted-eq-expected none (some CaseRole.viewer) case_create = refl
permitted-eq-expected none (some CaseRole.viewer) _ = refl
permitted-eq-expected none (some CaseRole.analyst) case_create = refl
permitted-eq-expected none (some CaseRole.analyst) _ = refl
permitted-eq-expected none (some CaseRole.lead) case_create = refl
permitted-eq-expected none (some CaseRole.lead) _ = refl
permitted-eq-expected none (some CaseRole.owner) case_create = refl
permitted-eq-expected none (some CaseRole.owner) _ = refl
permitted-eq-expected (some GlobalRole.admin) r case_create = refl
permitted-eq-expected (some GlobalRole.admin) r _ = refl
permitted-eq-expected (some GlobalRole.investigator) none case_create = refl
permitted-eq-expected (some GlobalRole.investigator) none _ = refl
permitted-eq-expected (some GlobalRole.investigator) (some CaseRole.viewer) case_create = refl
permitted-eq-expected (some GlobalRole.investigator) (some CaseRole.viewer) _ = refl
permitted-eq-expected (some GlobalRole.investigator) (some CaseRole.analyst) case_create = refl
permitted-eq-expected (some GlobalRole.investigator) (some CaseRole.analyst) _ = refl
permitted-eq-expected (some GlobalRole.investigator) (some CaseRole.lead) case_create = refl
permitted-eq-expected (some GlobalRole.investigator) (some CaseRole.lead) _ = refl
permitted-eq-expected (some GlobalRole.investigator) (some CaseRole.owner) case_create = refl
permitted-eq-expected (some GlobalRole.investigator) (some CaseRole.owner) _ = refl
permitted-eq-expected (some GlobalRole.viewer) none case_create = refl
permitted-eq-expected (some GlobalRole.viewer) none _ = refl
permitted-eq-expected (some GlobalRole.viewer) (some CaseRole.viewer) case_create = refl
permitted-eq-expected (some GlobalRole.viewer) (some CaseRole.viewer) _ = refl
permitted-eq-expected (some GlobalRole.viewer) (some CaseRole.analyst) case_create = refl
permitted-eq-expected (some GlobalRole.viewer) (some CaseRole.analyst) _ = refl
permitted-eq-expected (some GlobalRole.viewer) (some CaseRole.lead) case_create = refl
permitted-eq-expected (some GlobalRole.viewer) (some CaseRole.lead) _ = refl
permitted-eq-expected (some GlobalRole.viewer) (some CaseRole.owner) case_create = refl
permitted-eq-expected (some GlobalRole.viewer) (some CaseRole.owner) _ = refl

-- What any token may do, whatever its scopes.
abbrev pub token_grants : Permission → Bool
token_grants = grants (
    case_view ∷ evidence_view ∷ thread_view ∷ evidence_upload ∷ thread_run ∷ alert_view
    ∷ alert_handle ∷ watchlist_manage ∷ report_generate ∷ [])

token_scopes-bounded :
    (scope : String) (p : Permission) → grants (token_scopes scope) p ≡ true → token_grants p ≡ true
unfolding token_scopes
token_scopes-bounded scope p h = ground arith

-- No list of scopes, unknown scopes included, grants more than nine permissions: a token never
-- decides, edits a finding, views an original, exports, manages a case or administers.
pub scope_permits-bounded :
    (scopes : List String) (p : Permission) → scope_permits scopes p ≡ true → token_grants p ≡ true
unfolding scope_permits
scope_permits-bounded [] p h = cc
scope_permits-bounded (scope ∷ scopes) p h = elim (Bool-cases (grants (token_scopes scope) p)) [
  | inl here ↦ token_scopes-bounded scope p here
  | inr later ↦ scope_permits-bounded scopes p (rw later at h)
]
