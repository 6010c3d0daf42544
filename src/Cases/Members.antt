-- ===== src/Cases/Members.antt =====
-- api/v1/routes/cases.py: the change of a member of a case, and the routes that add, change and
-- remove one. The rendered member is left out.
use darknetra.Prelude.{
  ℕ, List, [], ◌∷◌, ◌++◌, Bool, true, false, not, ◌&&◌, ◌==◌, leb, Option, none, some, find, keep,
  count_if, update_if, Result, ok, err, conflict, not_found, raise_if, or_raise, ◌>>=◌, ◌>>◌,
}
use darknetra.Records.{Actor, Case, CaseRole, Membership, User}
use darknetra.Audit.{record_entry}
use darknetra.Authz.Access.{require_case}
use darknetra.Authz.Permissions.{Permission}
use darknetra.Cases.{Store, ensure_open}

abbrev pub is_owner : CaseRole → Bool
is_owner CaseRole.owner = true
is_owner _ = false

-- `role != "OWNER"`, where no role is the removal of the member.
abbrev pub keeps_ownership : Option CaseRole → Bool
keeps_ownership none = false
keeps_ownership (some role) = is_owner role

abbrev pub member_at : ℕ → ℕ → Membership → Bool
member_at case_id user_id m = m.case_id == case_id && m.user_id == user_id

abbrev pub owns : ℕ → Membership → Bool
owns case_id m = m.case_id == case_id && is_owner m.role

-- `member and member.role == "OWNER" and role != "OWNER"`
abbrev pub gives_up : Option Membership → Option CaseRole → Bool
gives_up none role = false
gives_up (some m) role = is_owner m.role && not (keeps_ownership role)

abbrev pub with_role : CaseRole → Membership → Membership
with_role role m = record m { role = role }

-- The row of the member is deleted, changed or added.
abbrev pub set_member :
    ℕ → ℕ → Option Membership → Option CaseRole → List Membership → Result (List Membership)
set_member case_id user_id none none members = err not_found
set_member case_id user_id (some m) none members =
    ok (keep (λ x. not (member_at case_id user_id x)) members)
set_member case_id user_id (some m) (some role) members =
    ok (update_if (member_at case_id user_id) (with_role role) members)
set_member case_id user_id none (some role) members =
    ok (members ++ (record { case_id = case_id; user_id = user_id; role = role } ∷ []))

unfoldable pub change_member : Case → ℕ → Option CaseRole → Store → Result Store
unfolding ensure_open
change_member c user_id role s = do
  ensure_open c
  u ← or_raise (find (λ (u : User). u.id == user_id) s.dir.users) not_found
  raise_if (not u.is_active) not_found
  let member = find (member_at c.id user_id) s.dir.memberships
  raise_if (gives_up member role && leb (count_if (owns c.id) s.dir.memberships) 1) conflict
  members ← set_member c.id user_id member role s.dir.memberships
  ok (record {
    dir = record (s.dir) { memberships = members };
    audit = record_entry "case.member_change" (some c.id) (some user_id) s.audit;
  })

-- The routes; a removal is a change to no role.
unfoldable pub route_member : ℕ → ℕ → Option CaseRole → Actor → Store → Result Store
route_member case_id user_id role actor s = do
  access ← require_case s.dir Permission.case_manage_members case_id actor
  change_member access.1 user_id role s
