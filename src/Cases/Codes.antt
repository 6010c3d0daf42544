-- ===== src/Cases/Codes.antt =====
-- cases/service.py `create`: the codes of cases.
use darknetra.Authz.CaseAccess.{require_case_iff}
use darknetra.Authz.Access.{require_case, membership_of}
use darknetra.Authz.Roles.{level, expected}
use darknetra.Authz.Permissions.{Permission}
use darknetra.Prelude.{
  ℕ, List, ◌≡◌, any, ◌==◌, ◌&&◌, false, true, max_of, ◌≤◌, ◌+◌, some, arith, ◌∷◌, [], refl, ok,
  find-snoc, any-&&, inl, inr,
}
use darknetra.Records.{Case, CaseRole, Actor, ActorKind, GlobalRole, Membership}
use darknetra.Cases.{Store, numbers, create}

numbers_bound :
    (year : ℕ) (cases : List Case) (n : ℕ)
    → any (λ c. (c.year == year) && (c.number == n)) cases ≡ true
    → n ≤ max_of (numbers year cases)
numbers_bound year [] n h = cc
numbers_bound year (c ∷ cases) n h = ground (arith, numbers_bound year cases n)

owner_cleared :
    (p : Permission)
    → level p ≤ 4
    → expected (some GlobalRole.investigator) (some CaseRole.owner) p ≡ true
owner_cleared Permission.case_create l = refl
owner_cleared _ l = ground arith

-- The code of a new case is that of no case in the table: it carries the year asked for and a number
-- above every number of that year.
pub create-new_code :
    (id year user_id : ℕ) (s : Store)
    → let c = (create id year user_id s).0 in
      (c.year ≡ year)
      × (any (λ d. (d.year == c.year) && (d.number == c.number)) s.dir.cases ≡ false)
unfolding create
create-new_code id year user_id s =
    let n = max_of (numbers year s.dir.cases) + 1 in
    (refl, ground (arith, numbers_bound year s.dir.cases n))

-- The investigator who creates a case under a new identifier may at once do everything in it that a
-- role in a case can give, archiving included.
pub create-opens_to_owner :
    (id year user_id : ℕ) (s : Store) (actor : Actor) (p : Permission)
    → any (λ c. c.id == id) s.dir.cases ≡ false
    → any (λ m. m.case_id == id) s.dir.memberships ≡ false
    → actor.kind ≡ ActorKind.user
    → actor.user_id ≡ some user_id
    → actor.global_role ≡ some GlobalRole.investigator
    → level p ≤ 4
    → let (c, s') = create id year user_id s in require_case s'.dir p id actor ≡ ok (actor, c)
unfolding create
create-opens_to_owner id year user_id s actor p new_case new_member kind uid role l =
    let (c, s') = create id year user_id s in
    let m : Membership = record { case_id = id; user_id = user_id; role = CaseRole.owner } in
    let joined : membership_of s'.dir (some user_id) id ≡ some m =
      find-snoc _ s.dir.memberships m
        (any-&& _ (λ m. m.user_id == user_id) s.dir.memberships new_member) (ground arith) in
    let found : membership_of s'.dir actor.user_id id ≡ some m = rw uid joined in
    (require_case_iff s'.dir p id actor c).1 (record {
      listed = find-snoc _ s.dir.cases c new_case (ground arith);
      member = inr (rw found);
      cleared = rw (found, role) (owner_cleared p l);
      as_token = inl (ground arith);
    })
