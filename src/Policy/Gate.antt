-- ===== src/Policy/Gate.antt =====
-- policy/engine.py `evaluate` and `check`: the checks of a call.
use darknetra.Prelude.{
  ℕ, ◌≡◌, Bool, true, false, not, ◌&&◌, ◌||◌, Option, none, some, ok, err, arith, if◌then◌else◌,
  Result-cases, List, network_required, inr, policy_denied, inl,
}
use darknetra.Records.{Actor, Case, CaseRole, is_open, is_token}
use darknetra.Authz.Permissions.{Permission, permitted}
use darknetra.Authz.Access.{visible_case}
use darknetra.Authz.Credentials.{refresh_actor}
use darknetra.Policy.Engine.{
  SourceClass, SourcePolicy, PolicyTags, PolicyStore, ToolContext, ToolSpec, RateCounter, class_in,
  evaluate, tool_enabled, token_may_run, check_actor, rated, check,
}

-- The policy allows a use of the network, of a source class and of what the tags name.
abbrev pub allows : SourcePolicy → Bool → Bool → Option SourceClass → PolicyTags → Bool
allows policy offline network source_class tags =
    not (network && offline)
    && elim source_class [ none ↦ true | some c ↦ class_in c policy.allowed_source_classes ]
    && (not tags.tor || policy.tor_enabled)
    && (not tags.telegram || policy.telegram_enabled)
    && not tags.person_lookup

-- A use is permitted exactly if it needs no network while offline, its source class is allowed, Tor and
-- Telegram are enabled where it needs them, and it looks up no person; a refusal is for the network
-- exactly when the network is what is missing.
pub evaluate-eq :
    (policy : SourcePolicy) (offline network : Bool) (source_class : Option SourceClass)
    (tags : PolicyTags)
    → evaluate policy offline network source_class tags ≡ (
        if allows policy offline network source_class tags
        then ok tt
        else err (if network && offline then network_required else policy_denied))
unfolding evaluate
evaluate-eq policy offline network none tags = ground arith
evaluate-eq policy offline network (some c) tags = ground arith

-- The checks that a permitted call has passed.
pub record IsPermitted (now : ℕ) (s : PolicyStore) (ctx : ToolContext) (spec : ToolSpec)
    (actor : Actor) (c : Case) (role : Option CaseRole) : Type 0 where
  pub refreshed : refresh_actor now s.dir ctx.actor ≡ ok actor
  pub visible : visible_case s.dir actor ctx.case_id ≡ ok (c, role)
  pub may_run : permitted actor.global_role role Permission.thread_run ≡ true
  pub scoped : (is_token actor.kind && not (token_may_run actor ctx.watchlist_item_id)) ≡ false
  pub open_case : is_open c.status ≡ true
  pub enabled : tool_enabled s.plugin_enabled spec.integration (s.policy_of ctx.case_id) ≡ true
  pub allowed :
      allows
        (s.policy_of ctx.case_id)
        ctx.offline_mode
        spec.requires_network
        spec.source_class
        spec.policy_tags
      ≡ true

check_actor-IsPermitted :
    (now : ℕ) (s : PolicyStore) (ctx : ToolContext) (spec : ToolSpec) (actor : Actor) (c : Case)
    → refresh_actor now s.dir ctx.actor ≡ ok actor
    → check_actor s ctx spec actor ≡ ok c
    → (role : Option CaseRole) × IsPermitted now s ctx spec actor c role
unfolding check_actor
check_actor-IsPermitted now s ctx spec actor c refreshed h =
    let e =
      evaluate-eq (s.policy_of ctx.case_id) ctx.offline_mode spec.requires_network spec.source_class
        spec.policy_tags in
    elim (Result-cases (visible_case s.dir actor ctx.case_id)) [
      | inr (e', hidden) ↦ absurd (ground arith)
      | inl (found, visible) ↦ (
        found.1,
        record {
          refreshed = refreshed;
          visible = ground arith;
          may_run = ground arith;
          scoped = ground arith;
          open_case = ground arith;
          enabled = ground arith;
          allowed = ground (arith, e);
        },
      )
    ]

-- A tool is let through only for the refreshed actor, who may run tools in the case and, with a token,
-- has the scope; in an open case, with its plugin enabled, and as the case's policy allows.
pub check-IsPermitted :
    (now : ℕ) (s : PolicyStore) (ctx : ToolContext) (spec : ToolSpec) (consumes : Bool)
    (actor : Actor) (c : Case) (counters : List RateCounter)
    → check now s ctx spec consumes ≡ (actor, ok (c, counters))
    → (role : Option CaseRole) × IsPermitted now s ctx spec actor c role
unfolding check
check-IsPermitted now s ctx spec consumes actor c counters h =
    elim (Result-cases (refresh_actor now s.dir ctx.actor)) [
      | inr (e, gone) ↦ absurd (ground arith)
      | inl (fresh, refreshed) ↦ elim (Result-cases (check_actor s ctx spec fresh)) [
        | inr (e, refused) ↦ absurd (ground arith)
        | inl (found, passed) ↦ elim (Result-cases (rated now s ctx spec.rate_key consumes)) [
          | inr (e, refused) ↦ absurd (ground arith)
          | inl (after, counted) ↦
              check_actor-IsPermitted now s ctx spec actor c (ground arith) (ground arith)
        ]
      ]
    ]
