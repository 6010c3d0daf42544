-- ===== src/Authz/CaseAccess.antt =====
-- What the guard of a case route, `require_case` of authz/deps.py, lets through.
use darknetra.Prelude.{
  ℕ, ◌≡◌, ◌↔◌, ◌⊎◌, true, false, some, is_some, arith, Bool-cases, inl, inr, ok,
}
use darknetra.Records.{Actor, Case, Directory, is_admin, is_token}
use darknetra.Authz.Permissions.{Permission, scope_permits}
use darknetra.Authz.Roles.{expected, permitted-eq-expected}
use darknetra.Authz.Access.{
  membership_of, role_of, bound_elsewhere, case_of, visible_case, require_case,
}

-- The actor is an administrator or a member, has the rank that the permission takes, and, as a
-- token, is bound to no other case and has a scope for the permission.
pub record MayEnter (dir : Directory) (permission : Permission) (case_id : ℕ) (actor : Actor)
    (c : Case) : Type 0 where
  pub listed : case_of dir case_id ≡ some c
  pub member :
      (is_admin actor.global_role ≡ true)
      ⊎ (is_some (membership_of dir actor.user_id case_id) ≡ true)
  pub cleared :
      expected actor.global_role (role_of (membership_of dir actor.user_id case_id)) permission
      ≡ true
  pub as_token :
      (is_token actor.kind ≡ false)
      ⊎ ((bound_elsewhere actor.token_case_id case_id ≡ false)
          × (scope_permits actor.scopes permission ≡ true))

module _ (dir : Directory) (permission : Permission) (case_id : ℕ) (actor : Actor) where
  -- The guard returns an actor and a case exactly if the case is the one asked for, and the actor is
  -- the one given, is an administrator or a member, has the rank that the permission takes, and, as
  -- a token, is bound to no other case and has a scope for the permission.
  pub require_case_iff :
      (c : Case)
      → (require_case dir permission case_id actor ≡ ok (actor, c))
        ↔ MayEnter dir permission case_id actor c
  unfolding require_case visible_case
  require_case_iff c =
      let member = membership_of dir actor.user_id case_id in
      let same = permitted-eq-expected actor.global_role (role_of member) permission in
      (
        (λ h. record {
          listed = ground arith;
          member = ground arith;
          cleared = ground (arith, same);
          as_token = elim (Bool-cases (is_token actor.kind)) [
            | inl bearer ↦ inr (ground arith, ground arith)
            | inr other ↦ inl other
          ];
        }),
        (λ m. ground (arith, same, m.listed, m.member, m.cleared, m.as_token)),
      )
