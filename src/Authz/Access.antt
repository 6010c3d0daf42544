-- ===== src/Authz/Access.antt =====
-- authz/deps.py: the dependencies that guard a route. An exception is the result `err`.
use darknetra.Prelude.{
  ℕ, Bool, false, not, ◌&&◌, ◌||◌, Option, none, some, ◌==◌, if◌then◌else◌, is_some, find, Result,
  ok, err, not_found, forbidden, ◌>>=◌, ◌>>◌, raise_if,
}
use darknetra.Records.{Actor, CaseRole, Case, Membership, Directory, is_admin, is_token}
use darknetra.Authz.Permissions.{Permission, permitted, scope_permits}

-- `require(permission)`: for routes outside a case.
unfoldable pub require : Permission → Actor → Result Actor
require permission actor = do
  raise_if (is_token actor.kind || not (permitted actor.global_role none permission)) forbidden
  ok actor

-- `db.get(CaseMembership, (case_id, actor.user_id)) if actor.user_id else None`
abbrev pub membership_of : Directory → Option ℕ → ℕ → Option Membership
membership_of dir none case_id = none
membership_of dir (some user_id) case_id =
    find (λ m. m.case_id == case_id && m.user_id == user_id) dir.memberships

-- `member.role if member else None`
abbrev pub role_of : Option Membership → Option CaseRole
role_of none = none
role_of (some m) = some m.role

-- `token_case_id is not None and token_case_id != case_id`
abbrev pub bound_elsewhere : Option ℕ → ℕ → Bool
bound_elsewhere none case_id = false
bound_elsewhere (some bound) case_id = not (bound == case_id)

abbrev pub case_of : Directory → ℕ → Option Case
case_of dir case_id = find (λ c. c.id == case_id) dir.cases

unfoldable pub visible_case : Directory → Actor → ℕ → Result (Case × Option CaseRole)
visible_case dir actor case_id =
    let member = membership_of dir actor.user_id case_id in
    elim (case_of dir case_id) [
      | none ↦ err not_found
      | some c ↦
          if (not (is_admin actor.global_role) && not (is_some member))
            || (is_token actor.kind && bound_elsewhere actor.token_case_id case_id)
          then err not_found
          else ok (c, role_of member)
    ]

-- `require_case(permission)`: for routes of a case.
unfoldable pub require_case : Directory → Permission → ℕ → Actor → Result (Actor × Case)
require_case dir permission case_id actor = do
  found ← visible_case dir actor case_id
  raise_if
      (not (permitted actor.global_role found.1 permission)
        || (is_token actor.kind && not (scope_permits actor.scopes permission)))
      forbidden
  ok (actor, found.0)
