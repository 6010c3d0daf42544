-- ===== src/Policy/Tests.antt =====
-- The theorems of the tool policy at concrete inputs.
use darknetra.Prelude.{
  ◌≡◌, ◌+◌, ◌<◌, arith, List, Option, refl, ok, some, none, from_ok, false, true, [], ◌∷◌,
}
use darknetra.Records.{Actor, Case, CaseRole}
use darknetra.Samples.{office, ada_actor, case_one}
use darknetra.Authz.Permissions.{permitted}
use darknetra.Authz.Access.{visible_case}
use darknetra.Authz.Credentials.{refresh_actor, refresh_session}
use darknetra.Agent.Budget.{ExecutionBudget, consume_tool}
use darknetra.Policy.Engine.{
  SourceClass, SourcePolicy, PolicyTags, PolicyStore, ToolContext, ToolSpec, AgentRole, RateCounter,
  evaluate, tool_enabled, check_actor, check, consume, used,
}
use darknetra.Policy.Rates.{IsRated, within_hour, consume-IsRated}
use darknetra.Policy.Invoke.{
  Outcome, CallState, ToolResult, invoke, admit, execute, conclude, packed, with_captured,
}
use darknetra.Policy.Admitted.{IsAdmitted, invoke-IsAdmitted}

abbrev tor_tag : PolicyTags
tor_tag = record { tor = true; telegram = false; person_lookup = false }

abbrev no_tags : PolicyTags
no_tags = record { tor = false; telegram = false; person_lookup = false }

abbrev policy : SourcePolicy
policy = record {
  allowed_source_classes = SourceClass.upload ∷ SourceClass.chain ∷ [];
  tor_enabled = false;
  telegram_enabled = false;
  max_requests_per_hour = λ k. 2;
  enabled_plugins = none;
}

abbrev counters : List RateCounter
counters = record { case_id = 1; rate_key = 3; window_start = 5000000000; count = 1 } ∷ []

abbrev counted : List RateCounter
counted = from_ok [] (consume 7200000000 1 3 2 counters)

counters-consume : consume 7200000000 1 3 2 counters ≡ ok counted
unfolding consume
counters-consume = refl

consume-IsRated_example :
    (within_hour 1 3 7200000000 counters < 2)
    × (used 1 3 0 counted ≡ used 1 3 0 counters + 1)
    × (used 1 4 0 counted ≡ used 1 4 0 counters)
    × IsRated 1 3 2 7200000000 counted
consume-IsRated_example =
    consume-IsRated 7200000000 1 3 2 counters counted 1 4 0 (ground arith) refl counters-consume

abbrev tables : PolicyStore
tables = record {
  dir = office;
  policy_of = λ c. policy;
  plugin_enabled = λ p. false;
  counters = counters;
}

abbrev call_ctx : ToolContext
call_ctx = record { case_id = 1; actor = ada_actor; watchlist_item_id = none; offline_mode = false }

abbrev lookup : ToolSpec
lookup = record {
  name = 12;
  integration = none;
  allowed_for = AgentRole.case_lead ∷ AgentRole.chain_analyst ∷ [];
  requires_network = true;
  source_class = some SourceClass.chain;
  policy_tags = no_tags;
  rate_key = some 3;
  max_result_chars = 100;
}

tables-check : check 50 tables call_ctx lookup true ≡ (
  (check 50 tables call_ctx lookup true).0,
  ok (case_one, from_ok [] (consume 50 1 3 2 counters)),
)
unfolding check refresh_actor refresh_session check_actor visible_case permitted tool_enabled
    evaluate consume
tables-check = refl

abbrev before : CallState
before = record {
  ctx = call_ctx;
  run_id = some 9;
  thread_id = some 40;
  role = AgentRole.case_lead;
  budget = some (ExecutionBudget.root 100 48 4);
  cache = [];
  calls = [];
  audit = [];
}

abbrev reply : Outcome
reply = Outcome.returned 77 20 (61 ∷ 60 ∷ [])

abbrev result : ToolResult
result = with_captured (60 ∷ []) (packed lookup 77 20 (61 ∷ 60 ∷ []))

abbrev warm : CallState
warm = record before { cache = ((12, 5), result) ∷ [] }

before-invoke :
    (invoke 50 tables true (some lookup) 12 5 (60 ∷ []) reply before).0
    ≡ some (with_captured (60 ∷ []) result)
unfolding invoke admit consume_tool check refresh_actor refresh_session check_actor visible_case
    permitted tool_enabled evaluate execute conclude
before-invoke = refl

invoke-IsAdmitted_example :
    (t : ToolSpec) × (actor : Actor) × (c : Case) × (role : Option CaseRole) × IsAdmitted 50 tables
      true
      (some lookup)
      before
      t
      actor
      c
      role
invoke-IsAdmitted_example =
    invoke-IsAdmitted 50 tables true (some lookup) 12 5 (60 ∷ []) reply before
      (with_captured (60 ∷ []) result) before-invoke refl
