-- ===== src/Cases/Roles.antt =====
-- The role that a user has in a case after a change of a member.
use darknetra.Prelude.{
  ℕ, List, [], ◌∷◌, ◌++◌, ◌≡◌, refl, ap, Bool, false, not, ◌&&◌, ◌==◌, Option, none, some, find,
  keep, update_if, ok, arith, Bool-cases, inl, inr, find-none, find-snoc, find-some, find-update_if,
  subst,
}
use darknetra.Records.{Case, CaseRole, Membership}
use darknetra.Authz.Access.{membership_of, role_of}
use darknetra.Cases.{Store}
use darknetra.Cases.Members.{member_at, with_role, set_member, change_member}
use darknetra.Cases.Steps.{change_member-IsChanged}

module _ (case_id user_id : ℕ) where
  abbrev at : Membership → Bool
  at = member_at case_id user_id

  find-keep_gone : (xs : List Membership) → find at (keep (λ x. not (at x)) xs) ≡ none
  find-keep_gone [] = refl
  find-keep_gone (x ∷ xs) = ground (arith, find-keep_gone xs)

  -- The row of the member says the new role.
  set_member-role_of :
      (member : Option Membership) (role : Option CaseRole) (xs out : List Membership)
      → find at xs ≡ member
      → set_member case_id user_id member role xs ≡ ok out
      → role_of (find at out) ≡ role
  set_member-role_of none none xs out found set = absurd (cc set)
  set_member-role_of none (some role) xs out found set =
      let row : Membership = record { case_id = case_id; user_id = user_id; role = role } in
      let e : xs ++ (row ∷ []) ≡ out = ground arith in
      subst (λ t. role_of (find at t) ≡ some role) e
        (ap role_of (find-snoc at xs row (find-none at xs found) (ground arith)))
  set_member-role_of (some m) none xs out found set =
      let e : keep (λ x. not (at x)) xs ≡ out = ground arith in
      subst (λ t. role_of (find at t) ≡ none) e (ap role_of (find-keep_gone xs))
  set_member-role_of (some m) (some role) xs out found set =
      let e : update_if at (with_role role) xs ≡ out = ground arith in
      subst (λ t. role_of (find at t) ≡ some role) e
        (ap role_of (find-update_if at (with_role role) xs m found (find-some at xs m found).0))

  module _ (k u : ℕ) (other : (k == case_id && u == user_id) ≡ false) where
    find-keep_other :
        (xs : List Membership)
        → find (member_at k u) (keep (λ x. not (at x)) xs) ≡ find (member_at k u) xs
    find-keep_other [] = refl
    find-keep_other (x ∷ xs) = ground (arith, other, find-keep_other xs)

    find-update_other :
        (role : CaseRole) (xs : List Membership)
        → find (member_at k u) (update_if at (with_role role) xs) ≡ find (member_at k u) xs
    find-update_other role [] = refl
    find-update_other role (x ∷ xs) = elim (Bool-cases (at x)) [
      | inl here ↦ rw here (ground (arith, other, find-update_other role xs))
      | inr there ↦ rw there (ground (arith, find-update_other role xs))
    ]

    find-snoc_other :
        (role : CaseRole) (xs : List Membership)
        → find
            (member_at k u)
            (xs ++ (record { case_id = case_id; user_id = user_id; role = role } ∷ []))
          ≡ find (member_at k u) xs
    find-snoc_other role [] = ground (arith, other)
    find-snoc_other role (x ∷ xs) = ground (arith, find-snoc_other role xs)

    -- The rows of other users and of other cases are found as before.
    set_member-find :
        (member : Option Membership) (role : Option CaseRole) (xs out : List Membership)
        → set_member case_id user_id member role xs ≡ ok out
        → find (member_at k u) out ≡ find (member_at k u) xs
    set_member-find none none xs out set = absurd (cc set)
    set_member-find none (some role) xs out set =
        let row : Membership = record { case_id = case_id; user_id = user_id; role = role } in
        let e : xs ++ (row ∷ []) ≡ out = ground arith in
        subst (λ t. find (member_at k u) t ≡ find (member_at k u) xs) e (find-snoc_other role xs)
    set_member-find (some m) none xs out set =
        let e : keep (λ x. not (at x)) xs ≡ out = ground arith in
        subst (λ t. find (member_at k u) t ≡ find (member_at k u) xs) e (find-keep_other xs)
    set_member-find (some m) (some role) xs out set =
        let e : update_if at (with_role role) xs ≡ out = ground arith in
        subst (λ t. find (member_at k u) t ≡ find (member_at k u) xs) e (find-update_other role xs)

-- After a change of a member, the guards of the routes see the new role of that user in that case, or
-- none after a removal, and see every other membership as before.
pub change_member-role_of :
    (c : Case) (user_id : ℕ) (role : Option CaseRole) (s s' : Store) (k u : ℕ)
    → change_member c user_id role s ≡ ok s'
    → (k == c.id && u == user_id) ≡ false
    → (role_of (membership_of s'.dir (some user_id) c.id) ≡ role)
      × (membership_of s'.dir (some u) k ≡ membership_of s.dir (some u) k)
change_member-role_of c user_id role s s' k u h other =
    let changed = change_member-IsChanged c user_id role s s' h in
    let member = find (member_at c.id user_id) s.dir.memberships in
    (
      set_member-role_of c.id user_id member role s.dir.memberships s'.dir.memberships refl
          changed.set,
      set_member-find c.id user_id k u other member role s.dir.memberships s'.dir.memberships
          changed.set,
    )
