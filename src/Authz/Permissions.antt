-- ===== src/Authz/Permissions.antt =====
-- authz/permissions.py: the permissions, the tables of roles and scopes, and the two tests.
use darknetra.Prelude.{
  ℕ, Bool, true, false, Option, none, some, List, [], ◌∷◌, ◌++◌, String, ◌==◌, any, keep,
  if◌then◌else◌, str_eq,
}
use darknetra.Records.{GlobalRole, CaseRole, is_admin}

pub data Permission : Type 0 where
  case_create case_view case_edit case_close case_archive : Permission
  case_manage_members case_manage_policy : Permission
  evidence_upload evidence_view evidence_view_original evidence_release_quarantine : Permission
  thread_run thread_view decide finding_edit watchlist_manage : Permission
  alert_view alert_handle report_generate export audit_view_case audit_view_global : Permission
  admin_users admin_settings admin_taxonomy tools_health : Permission

-- The position of a member in the enumeration, by which members are compared.
abbrev ordinal : Permission → ℕ
ordinal case_create = 0
ordinal case_view = 1
ordinal case_edit = 2
ordinal case_close = 3
ordinal case_archive = 4
ordinal case_manage_members = 5
ordinal case_manage_policy = 6
ordinal evidence_upload = 7
ordinal evidence_view = 8
ordinal evidence_view_original = 9
ordinal evidence_release_quarantine = 10
ordinal thread_run = 11
ordinal thread_view = 12
ordinal decide = 13
ordinal finding_edit = 14
ordinal watchlist_manage = 15
ordinal alert_view = 16
ordinal alert_handle = 17
ordinal report_generate = 18
ordinal export = 19
ordinal audit_view_case = 20
ordinal audit_view_global = 21
ordinal admin_users = 22
ordinal admin_settings = 23
ordinal admin_taxonomy = 24
ordinal tools_health = 25

-- `permission in permissions`
abbrev pub grants : List Permission → Permission → Bool
grants ps p = any (λ q. ordinal q == ordinal p) ps

abbrev pub read_permissions : List Permission
read_permissions = case_view ∷ evidence_view ∷ thread_view ∷ alert_view ∷ []

abbrev analyst_permissions : List Permission
analyst_permissions =
    read_permissions
    ++ (evidence_upload ∷ thread_run ∷ watchlist_manage ∷ alert_handle ∷ report_generate ∷ decide
        ∷ finding_edit ∷ evidence_view_original ∷ [])

abbrev lead_permissions : List Permission
lead_permissions =
    analyst_permissions
    ++ (evidence_release_quarantine ∷ export ∷ audit_view_case ∷ case_edit ∷ case_close
        ∷ case_manage_members ∷ case_manage_policy ∷ [])

-- `CASE_PERMISSIONS.get(case_role or "", frozenset())`
abbrev case_permissions : Option CaseRole → List Permission
case_permissions none = []
case_permissions (some CaseRole.viewer) = read_permissions
case_permissions (some CaseRole.analyst) = analyst_permissions
case_permissions (some CaseRole.lead) = lead_permissions
case_permissions (some CaseRole.owner) = lead_permissions ++ (case_archive ∷ [])

-- `TOKEN_SCOPES.get(scope, set())`
unfoldable pub token_scopes : String → List Permission
token_scopes scope =
    if str_eq scope "cases:read"
    then case_view ∷ evidence_view ∷ thread_view ∷ []
    else if str_eq scope "evidence:write"
    then evidence_upload ∷ []
    else if str_eq scope "threads:run"
    then thread_run ∷ []
    else if str_eq scope "alerts:read"
    then alert_view ∷ []
    else if str_eq scope "alerts:handle"
    then alert_handle ∷ []
    else if str_eq scope "monitor:run"
    then watchlist_manage ∷ []
    else if str_eq scope "reports:generate"
    then report_generate ∷ []
    else []

unfoldable pub permitted : Option GlobalRole → Option CaseRole → Permission → Bool
permitted global_role case_role permission =
    if is_admin global_role
    then true
    else if ordinal permission == ordinal case_create
    then elim global_role [ some GlobalRole.investigator ↦ true | _ ↦ false ]
    else let role_permissions = case_permissions case_role in
      elim global_role [
        | some GlobalRole.viewer ↦
            grants (keep (grants read_permissions) role_permissions) permission
        | some GlobalRole.investigator ↦ grants role_permissions permission
        | _ ↦ false
      ]

unfoldable pub scope_permits : List String → Permission → Bool
scope_permits scopes permission = any (λ scope. grants (token_scopes scope) permission) scopes
