-- ===== src/Policy/Admitted.antt =====
-- tools/invoke.py `invoke`: the checks before a tool runs.
use darknetra.Agent.Budget.{ExecutionBudget}
use darknetra.Prelude.{
  ℕ, ◌≡◌, Bool, true, Option, none, some, ok, arith, List, Result-cases, inr, inl, false, ap, subst,
}
use darknetra.Records.{Actor, Case, CaseRole}
use darknetra.Policy.Engine.{PolicyStore, ToolSpec, check}
use darknetra.Policy.Gate.{IsPermitted, check-IsPermitted}
use darknetra.Policy.Invoke.{CallState, Outcome, ToolResult, admit, invoke, role_in, spend}

-- The checks of a call that was admitted.
pub record IsAdmitted (now : ℕ) (s : PolicyStore) (valid : Bool) (spec : Option ToolSpec)
    (st : CallState) (t : ToolSpec) (actor : Actor) (c : Case) (role : Option CaseRole)
    : Type 0 where
  pub known : spec ≡ some t
  pub in_budget : (b : Option ExecutionBudget) × (spend now st.budget ≡ ok b)
  pub for_role : role_in st.role t.allowed_for ≡ true
  pub valid_args : valid ≡ true
  pub permitted : IsPermitted now s st.ctx t actor c role

admit-IsAdmitted :
    (now : ℕ) (s : PolicyStore) (valid : Bool) (spec : Option ToolSpec) (st : CallState)
    (t : ToolSpec)
    → (admit now s valid spec st).1 ≡ ok t
    → (actor : Actor) × (c : Case) × (role : Option CaseRole) × IsAdmitted now s valid spec st t
        actor c role
unfolding admit
admit-IsAdmitted now s valid none st t h = absurd (ground arith)
admit-IsAdmitted now s valid (some u) st t h = elim (Result-cases (spend now st.budget)) [
  | inr (e, spent) ↦ absurd (ground arith)
  | inl (b, left) ↦ elim (Result-cases (check now s st.ctx u false).1) [
    | inr (e, refused) ↦ absurd (ground arith)
    | inl ((c, counters), passed) ↦
        let same : u ≡ t = ground arith in
        let whole : check now s st.ctx u false
            ≡ ((check now s st.ctx u false).0, ok (c, counters)) =
          ap (λ r. ((check now s st.ctx u false).0, r)) passed in
        let (role, p) =
          check-IsPermitted now s st.ctx u false (check now s st.ctx u false).0 c counters whole in
        (
          (check now s st.ctx u false).0,
          c,
          role,
          record {
            known = ap (λ x. some x) same;
            in_budget = (b, left);
            for_role = ground arith;
            valid_args = ground arith;
            permitted =
                subst (λ x. IsPermitted now s st.ctx x (check now s st.ctx u false).0 c role) same
                  p;
          },
        )
  ]
]

-- A call whose result has no error has had budget left, a tool for the agent's role, valid arguments, and
-- the permission of the case's policy for the refreshed actor.
pub invoke-IsAdmitted :
    (now : ℕ) (s : PolicyStore) (valid : Bool) (spec : Option ToolSpec) (name hashed : ℕ)
    (captured : List ℕ) (outcome : Outcome) (st : CallState) (r : ToolResult)
    → (invoke now s valid spec name hashed captured outcome st).0 ≡ some r
    → r.error ≡ none
    → (t : ToolSpec) × (actor : Actor) × (c : Case) × (role : Option CaseRole) × IsAdmitted now s
        valid spec st t actor c role
unfolding invoke
invoke-IsAdmitted now s valid spec name hashed captured outcome st r h k =
    elim (Result-cases (admit now s valid spec st).1) [
      | inr (e, refused) ↦ absurd (ground arith)
      | inl (t, passed) ↦
          let (actor, c, role, p) = admit-IsAdmitted now s valid spec st t passed in
          (t, actor, c, role, p)
    ]
