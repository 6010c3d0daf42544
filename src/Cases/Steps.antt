-- ===== src/Cases/Steps.antt =====
-- The administration of cases as a sequence of steps: creation, transitions and changes of members.
use darknetra.Prelude.{
  ℕ, List, [], ◌∷◌, ◌++◌, ◌≡◌, refl, true, false, ◌&&◌, ◌==◌, leb, Option, find, any, count_if,
  update_if, ok, arith, Option-cases, Result-cases, inl, inr, All, All-map, All-append, AreApart,
  AreApart-snoc, any-append, ◌∙◌, ap, All-update_if,
}
use darknetra.Records.{Actor, Case, CaseRole, CaseStatus, Membership, User}
use darknetra.Authz.Access.{require_case}
use darknetra.Authz.Permissions.{Permission}
use darknetra.Cases.{Store, create, transition, moved, ensure_open}
use darknetra.Cases.Lifecycle.{moved-id}
use darknetra.Cases.Members.{member_at, owns, gives_up, set_member, change_member, route_member}
use darknetra.Cases.Owners.{same_member, set_member-owns, set_member-AreApart}

-- Each membership is one row, and each case has an owner.
pub record HasOwners (s : Store) : Type 0 where
  pub apart : AreApart same_member s.dir.memberships
  pub owned : All (λ c. any (owns c.id) s.dir.memberships ≡ true) s.dir.cases

-- What a change of a member does: only the rows of memberships change.
pub record IsChanged (c : Case) (user_id : ℕ) (role : Option CaseRole) (s s' : Store) : Type 0 where
  pub cases : s'.dir.cases ≡ s.dir.cases
  pub allowed :
      (gives_up (find (member_at c.id user_id) s.dir.memberships) role
        && leb (count_if (owns c.id) s.dir.memberships) 1)
      ≡ false
  pub set :
      set_member c.id user_id
        (find (member_at c.id user_id) s.dir.memberships)
        role
        s.dir.memberships
      ≡ ok s'.dir.memberships

pub change_member-IsChanged :
    (c : Case) (user_id : ℕ) (role : Option CaseRole) (s s' : Store)
    → change_member c user_id role s ≡ ok s'
    → IsChanged c user_id role s s'
unfolding change_member ensure_open
change_member-IsChanged c user_id role s s' h =
    elim (Option-cases (find (λ (u : User). u.id == user_id) s.dir.users)) [
      | inl unknown ↦ absurd (ground arith)
      | inr (u, known) ↦
          elim (Result-cases (
            set_member c.id user_id (find (member_at c.id user_id) s.dir.memberships) role
              s.dir.memberships)) [
                | inr (e, refused) ↦ absurd (ground arith)
                | inl (rows, set) ↦ record {
                  cases = ground arith;
                  allowed = ground (arith, known, set);
                  set = set ∙ ap ok (ground (arith, known, set));
                }
              ]
    ]

route_member-IsChanged :
    (case_id user_id : ℕ) (role : Option CaseRole) (actor : Actor) (s s' : Store)
    → route_member case_id user_id role actor s ≡ ok s'
    → (c : Case) × IsChanged c user_id role s s'
unfolding route_member
route_member-IsChanged case_id user_id role actor s s' h =
    elim (Result-cases (require_case s.dir Permission.case_manage_members case_id actor)) [
      | inl (access, cleared) ↦
          (access.1, change_member-IsChanged access.1 user_id role s s' (ground (arith, cleared)))
      | inr (e, refused) ↦ absurd (ground arith)
    ]

IsChanged-HasOwners :
    (c : Case) (user_id : ℕ) (role : Option CaseRole) (s s' : Store)
    → IsChanged c user_id role s s'
    → HasOwners s
    → HasOwners s'
IsChanged-HasOwners c user_id role s s' changed good =
    let member = find (member_at c.id user_id) s.dir.memberships in
    record {
      apart =
          set_member-AreApart c.id user_id member role s.dir.memberships s'.dir.memberships refl
            changed.set good.apart;
      owned = rw changed.cases (
          All-map (λ k. any (owns k.id) s.dir.memberships ≡ true)
            (λ k. any (owns k.id) s'.dir.memberships ≡ true)
            (λ k h.
              set_member-owns c.id user_id member role s.dir.memberships s'.dir.memberships k.id
                refl changed.allowed changed.set good.apart h)
            s.dir.cases good.owned);
    }

alien :
    (id : ℕ) (row : Membership) (xs : List Membership)
    → row.case_id ≡ id
    → any (λ m. m.case_id == id) xs ≡ false
    → any (λ x. same_member x row) xs ≡ false
alien id row [] e h = refl
alien id row (x ∷ xs) e h = ground (arith, alien id row xs e)

create-HasOwners :
    (id year user_id : ℕ) (s : Store)
    → any (λ m. m.case_id == id) s.dir.memberships ≡ false
    → HasOwners s
    → HasOwners (create id year user_id s).1
unfolding create
create-HasOwners id year user_id s fresh good =
    let row : Membership = record { case_id = id; user_id = user_id; role = CaseRole.owner } in
    record {
      apart =
          AreApart-snoc same_member s.dir.memberships row
            (alien id row s.dir.memberships refl fresh) good.apart;
      owned =
          All-append (λ k. any (owns k.id) (s.dir.memberships ++ (row ∷ [])) ≡ true) s.dir.cases _
            (All-map (λ k. any (owns k.id) s.dir.memberships ≡ true) _
              (λ k h. ground (arith, any-append (owns k.id) s.dir.memberships (row ∷ []), h))
              s.dir.cases good.owned)
            (ground (arith, any-append (owns id) s.dir.memberships (row ∷ [])), tt);
    }

transition-HasOwners :
    (now id : ℕ) (t : CaseStatus) (c : Case) (s s' : Store)
    → transition now id t s ≡ ok (c, s')
    → HasOwners s
    → HasOwners s'
unfolding transition
transition-HasOwners now id t c s s' h good =
    elim (Option-cases (find (λ k. k.id == id) s.dir.cases)) [
      | inl absent ↦ absurd (ground arith)
      | inr (old, found) ↦
          let cases : s'.dir.cases ≡ update_if (λ k. k.id == id) (moved now t) s.dir.cases =
            ground arith in
          let rows : s'.dir.memberships ≡ s.dir.memberships = ground arith in
          record {
            apart = rw rows good.apart;
            owned =
                rw (cases, rows)
                  (All-update_if (λ k. any (owns k.id) s.dir.memberships ≡ true) (λ k. k.id == id)
                    (moved now t) s.dir.cases (λ k e. rw (moved-id now t k) e) good.owned);
          }
    ]

-- A step: an operation on cases that succeeds; the identifier of a new case is new.
pub data CaseStep : Store → Store → Type 0 where
  creates :
      (id year user_id : ℕ) (s : Store)
      → any (λ m. m.case_id == id) s.dir.memberships ≡ false
      → CaseStep s (create id year user_id s).1
  moves :
      (now id : ℕ) (t : CaseStatus) (c : Case) (s s' : Store)
      → transition now id t s ≡ ok (c, s')
      → CaseStep s s'
  changes :
      (case_id user_id : ℕ) (role : Option CaseRole) (actor : Actor) (s s' : Store)
      → route_member case_id user_id role actor s ≡ ok s'
      → CaseStep s s'

-- The tables that the administration reaches.
pub data Administered : Store → Store → Type 0 where
  start : (s : Store) → Administered s s
  next : (s mid s' : Store) → Administered s mid → CaseStep mid s' → Administered s s'

step-HasOwners : (s s' : Store) → CaseStep s s' → HasOwners s → HasOwners s'
step-HasOwners _ _ (CaseStep.creates id year user_id s fresh) good =
    create-HasOwners id year user_id s fresh good
step-HasOwners _ _ (CaseStep.moves now id t c s s' h) good =
    transition-HasOwners now id t c s s' h good
step-HasOwners _ _ (CaseStep.changes case_id user_id role actor s s' h) good =
    let (c, changed) = route_member-IsChanged case_id user_id role actor s s' h in
    IsChanged-HasOwners c user_id role s s' changed good

-- Whatever cases are created and moved and whatever members are added, changed and removed, in whatever
-- order: each case keeps an owner, and a user has at most one membership in a case.
pub administered-HasOwners : (s s' : Store) → Administered s s' → HasOwners s → HasOwners s'
administered-HasOwners _ _ (Administered.start s) good = good
administered-HasOwners _ _ (Administered.next s mid s' before step) good =
    step-HasOwners mid s' step (administered-HasOwners s mid before good)
