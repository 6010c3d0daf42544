-- ===== src/Policy/Engine.antt =====
-- policy/engine.py: `evaluate` and `check`.
use darknetra.Prelude.{
  ℕ, ◌+◌, ◌-◌, List, [], ◌∷◌, ◌++◌, Bool, true, false, not, ◌&&◌, ◌||◌, ◌==◌, leb, any, mem, Option,
  none, some, Result, ok, err, ◌>>=◌, ◌>>◌, raise_if, is_some, policy_denied, network_required,
  rate_limited, if◌then◌else◌,
}
use darknetra.Records.{Actor, Case, Directory, is_open, is_token}
use darknetra.Authz.Permissions.{Permission, permitted, scope_permits}
use darknetra.Authz.Access.{visible_case}
use darknetra.Authz.Credentials.{refresh_actor}

pub data SourceClass : Type 0 where
  synthetic seized upload osint_surface osint_dark chain telegram report : SourceClass

abbrev class_ordinal : SourceClass → ℕ
class_ordinal synthetic = 0
class_ordinal seized = 1
class_ordinal upload = 2
class_ordinal osint_surface = 3
class_ordinal osint_dark = 4
class_ordinal chain = 5
class_ordinal telegram = 6
class_ordinal report = 7

abbrev pub class_in : SourceClass → List SourceClass → Bool
class_in c classes = any (λ d. class_ordinal c == class_ordinal d) classes

-- `SourcePolicy`: a rate key is a number, and so is a plugin; a key without a limit has limit 0.
pub record SourcePolicy : Type 0 where
  pub allowed_source_classes : List SourceClass
  pub tor_enabled : Bool
  pub telegram_enabled : Bool
  pub max_requests_per_hour : ℕ → ℕ
  pub enabled_plugins : Option (List ℕ)

-- The tags that the policy names.
pub record PolicyTags : Type 0 where
  pub tor : Bool
  pub telegram : Bool
  pub person_lookup : Bool

pub data AgentRole : Type 0 where
  case_lead evidence_analyst surface_scout dark_scout chain_analyst identity_scout reporter :
      AgentRole

-- `ToolSpec`, as the policy reads it; `integration` is the plugin, none for a built-in tool.
pub record ToolSpec : Type 0 where
  pub name : ℕ
  pub integration : Option ℕ
  pub allowed_for : List AgentRole
  pub requires_network : Bool
  pub source_class : Option SourceClass
  pub policy_tags : PolicyTags
  pub rate_key : Option ℕ
  pub max_result_chars : ℕ

pub record RateCounter : Type 0 where
  pub case_id : ℕ
  pub rate_key : ℕ
  pub window_start : ℕ
  pub count : ℕ

-- What the policy reads: the tables, the policy of each case, the plugins whose manifest is enabled, and
-- the counters.
pub record PolicyStore : Type 0 where
  pub dir : Directory
  pub policy_of : ℕ → SourcePolicy
  pub plugin_enabled : ℕ → Bool
  pub counters : List RateCounter

unfoldable pub evaluate :
    SourcePolicy → Bool → Bool → Option SourceClass → PolicyTags → Result (Unit {0})
evaluate policy offline network source_class tags = do
  raise_if (network && offline) network_required
  raise_if
      (elim source_class [ none ↦ false | some c ↦ not (class_in c policy.allowed_source_classes) ])
      policy_denied
  raise_if (tags.tor && not policy.tor_enabled) policy_denied
  raise_if (tags.telegram && not policy.telegram_enabled) policy_denied
  raise_if tags.person_lookup policy_denied

-- `tool_enabled`
unfoldable pub tool_enabled : (ℕ → Bool) → Option ℕ → SourcePolicy → Bool
tool_enabled plugin_enabled none policy = true
tool_enabled plugin_enabled (some plugin) policy =
    plugin_enabled plugin
    && elim policy.enabled_plugins [ none ↦ true | some names ↦ mem plugin names ]

-- What `check` reads of a `ToolContext`.
pub record ToolContext : Type 0 where
  pub case_id : ℕ
  pub actor : Actor
  pub watchlist_item_id : Option ℕ
  pub offline_mode : Bool

-- The scopes of a token permit tools.
abbrev pub token_may_run : Actor → Option ℕ → Bool
token_may_run actor item =
    scope_permits actor.scopes Permission.thread_run
    || (is_some item && scope_permits actor.scopes Permission.watchlist_manage)

-- The checks of `check` for a refreshed actor.
unfoldable pub check_actor : PolicyStore → ToolContext → ToolSpec → Actor → Result Case
check_actor s ctx spec actor = do
  found ← visible_case s.dir actor ctx.case_id
  raise_if (not (permitted actor.global_role found.1 Permission.thread_run)) policy_denied
  raise_if (is_token actor.kind && not (token_may_run actor ctx.watchlist_item_id)) policy_denied
  raise_if (not (is_open found.0.status)) policy_denied
  let policy = s.policy_of ctx.case_id
  raise_if (not (tool_enabled s.plugin_enabled spec.integration policy)) policy_denied
  evaluate policy ctx.offline_mode spec.requires_network spec.source_class spec.policy_tags
  ok found.0

-- The sum of the counters of a key in the hour before `now`.
abbrev pub used : ℕ → ℕ → ℕ → List RateCounter → ℕ
used case_id rate_key start [] = 0
used case_id rate_key start (c ∷ counters) =
    if c.case_id == case_id && c.rate_key == rate_key && leb start c.window_start
    then c.count + used case_id rate_key start counters
    else used case_id rate_key start counters

-- One hour in microseconds.
abbrev pub hour : ℕ
hour = 3600000000

-- `consume`: one more request in the sliding hour.
unfoldable pub consume : ℕ → ℕ → ℕ → ℕ → List RateCounter → Result (List RateCounter)
consume now case_id rate_key limit counters = do
  raise_if (leb limit (used case_id rate_key (now - hour) counters)) rate_limited
  ok (
      counters
      ++ (record { case_id = case_id; rate_key = rate_key; window_start = now; count = 1 } ∷ []))

-- The rate check, where the tool has a key and the caller consumes.
abbrev pub rated : ℕ → PolicyStore → ToolContext → Option ℕ → Bool → Result (List RateCounter)
rated now s ctx none consumes = ok s.counters
rated now s ctx (some key) false = ok s.counters
rated now s ctx (some key) true =
    consume now ctx.case_id key ((s.policy_of ctx.case_id).max_requests_per_hour key) s.counters

-- `check`: the actor is refreshed first, and stays so in the context whatever follows.
unfoldable pub check :
    ℕ → PolicyStore → ToolContext → ToolSpec → Bool → Actor × Result (Case × List RateCounter)
check now s ctx spec consumes = elim (refresh_actor now s.dir ctx.actor) [
  | err e ↦ (ctx.actor, err e)
  | ok actor ↦ (
    actor,
    check_actor s ctx spec actor >>= λ found.
        rated now s ctx spec.rate_key consumes >>= λ counters. ok (found, counters),
  )
]
