-- ===== src/Policy/Invoke.antt =====
-- tools/invoke.py: `invoke` and `persist`. What a tool computes, and whether it accepts the arguments, is
-- an argument; the presentation events are not modelled.
use darknetra.Prelude.{
  ℕ, ◌+◌, List, [], ◌∷◌, ◌++◌, Bool, true, false, not, ◌&&◌, ◌==◌, ltb, any, keep, map, max_of,
  sorted, dedupe, Option, none, some, Result, ok, err, Error, ◌>>=◌, policy_denied,
  network_required, rate_limited, budget_exceeded, validation, unavailable, if◌then◌else◌,
}
use darknetra.Audit.{Entry, record_entry}
use darknetra.Agent.Budget.{ExecutionBudget, consume_tool}
use darknetra.Policy.Engine.{AgentRole, PolicyStore, ToolContext, ToolSpec, check}

-- `ToolResult`: the data is a number; a result that is too long has none.
pub record ToolResult : Type 0 where
  pub error : Option Error
  pub output : Option ℕ
  pub evidence_ids : List ℕ
  pub truncated : Bool

-- How the implementation of a tool ends.
pub data Outcome : Type 0 where
  returned : (value : ℕ) (chars : ℕ) (evidence_ids : List ℕ) → Outcome
  invalid_output timed_out cancelled crashed : Outcome
  raised : Error → Outcome

pub data CallStatus : Type 0 where
  done denied failed : CallStatus

pub record ToolCall : Type 0 where
  pub case_id : ℕ
  pub run_id : ℕ
  pub thread_id : ℕ
  pub seq : ℕ
  pub tool : ℕ
  pub args_hash : ℕ
  pub status : CallStatus
  pub cached : Bool
  pub error : Option Error

-- The context of a call, and the tables that it writes.
pub record CallState : Type 0 where
  pub ctx : ToolContext
  pub run_id : Option ℕ
  pub thread_id : Option ℕ
  pub role : AgentRole
  pub budget : Option ExecutionBudget
  pub cache : List ((ℕ × ℕ) × ToolResult)
  pub calls : List ToolCall
  pub audit : List Entry

abbrev pub role_ordinal : AgentRole → ℕ
role_ordinal AgentRole.case_lead = 0
role_ordinal AgentRole.evidence_analyst = 1
role_ordinal AgentRole.surface_scout = 2
role_ordinal AgentRole.dark_scout = 3
role_ordinal AgentRole.chain_analyst = 4
role_ordinal AgentRole.identity_scout = 5
role_ordinal AgentRole.reporter = 6

abbrev pub role_in : AgentRole → List AgentRole → Bool
role_in r roles = any (λ q. role_ordinal r == role_ordinal q) roles

abbrev pub cache_get : ℕ → ℕ → List ((ℕ × ℕ) × ToolResult) → Option ToolResult
cache_get name hashed [] = none
cache_get name hashed (entry ∷ cache) =
    let rest = cache_get name hashed cache in
    if entry.0.0 == name && entry.0.1 == hashed then some entry.1 else rest

abbrev pub failure : Error → ToolResult
failure e = record { error = some e; output = none; evidence_ids = []; truncated = false }

-- The result of an output: one that is longer than the tool's limit keeps its evidence only.
abbrev pub packed : ToolSpec → ℕ → ℕ → List ℕ → ToolResult
packed spec value chars ids = record {
  error = none;
  output = if ltb spec.max_result_chars chars then none else some value;
  evidence_ids = ids;
  truncated = ltb spec.max_result_chars chars;
}

-- The result with the evidence captured on the way.
abbrev pub with_captured : List ℕ → ToolResult → ToolResult
with_captured captured r = record r { evidence_ids = sorted (dedupe (r.evidence_ids ++ captured)) }

-- The steps before a tool is looked up in the cache: the budget, the tool, the role, the arguments, the
-- policy. The context keeps the budget and the actor as they are when a step fails.
abbrev pub spend : ℕ → Option ExecutionBudget → Result (Option ExecutionBudget)
spend now none = ok none
spend now (some b) = consume_tool now b >>= λ b'. ok (some b')

unfoldable pub admit :
    ℕ → PolicyStore → Bool → Option ToolSpec → CallState → CallState × Result ToolSpec
admit now s valid spec st = elim (spend now st.budget) [
  | err e ↦ (st, err e)
  | ok budget ↦
      let st' : CallState = record st { budget = budget } in
      elim spec [
        | none ↦ (st', err validation)
        | some t ↦
            if not (role_in st.role t.allowed_for)
            then (st', err policy_denied)
            else if not valid
            then (st', err validation)
            else (
              record st' { ctx = record (st.ctx) { actor = (check now s st.ctx t false).0 } },
              (check now s st.ctx t false).1 >>= λ c. ok t,
            )
      ]
]

-- The result of the call, whether it came from the cache, and the cache after it; a cancelled call
-- has the result that is stored before the cancellation goes on.
pub record Answer : Type 0 where
  pub result : ToolResult
  pub cached : Bool
  pub is_cancelled : Bool
  pub cache : List ((ℕ × ℕ) × ToolResult)

-- The cache keeps the very result that is returned, so with what was captured.
abbrev pub answer : List ℕ → ToolSpec → ℕ → List ((ℕ × ℕ) × ToolResult) → Outcome → Answer
answer captured t hashed cache (returned value chars ids) =
    let result = with_captured captured (packed t value chars ids) in
    record {
      result = result;
      cached = false;
      is_cancelled = false;
      cache = ((t.name, hashed), result) ∷ cache;
    }
answer captured t hashed cache invalid_output = record {
  result = failure validation;
  cached = false;
  is_cancelled = false;
  cache = cache;
}
answer captured t hashed cache timed_out = record {
  result = failure unavailable;
  cached = false;
  is_cancelled = false;
  cache = cache;
}
answer captured t hashed cache cancelled = record {
  result = failure unavailable;
  cached = false;
  is_cancelled = true;
  cache = cache;
}
answer captured t hashed cache crashed = record {
  result = failure unavailable;
  cached = false;
  is_cancelled = false;
  cache = cache;
}
answer captured t hashed cache (raised e) = record {
  result = failure e;
  cached = false;
  is_cancelled = false;
  cache = cache;
}

unfoldable pub execute : List ℕ → ToolSpec → ℕ → CallState → Outcome → Answer
execute captured t hashed st outcome = elim (cache_get t.name hashed st.cache) [
  | some result ↦ record { result = result; cached = true; is_cancelled = false; cache = st.cache }
  | none ↦ answer captured t hashed st.cache outcome
]

-- `code in {"POLICY_DENIED", "NETWORK_REQUIRED", "RATE_LIMITED", "BUDGET_EXCEEDED"}`
abbrev pub is_denial : Error → Bool
is_denial policy_denied = true
is_denial network_required = true
is_denial rate_limited = true
is_denial budget_exceeded = true
is_denial _ = false

abbrev pub status_of : ToolResult → CallStatus
status_of r = elim r.error [ none ↦ done | some e ↦ if is_denial e then denied else failed ]

-- `ctx.run_id and ctx.thread_id`
abbrev pub run_and_thread : CallState → Option (ℕ × ℕ)
run_and_thread st = elim st.run_id [
  | none ↦ none
  | some run_id ↦ elim st.thread_id [ none ↦ none | some thread_id ↦ some (run_id, thread_id) ]
]

-- `persist`: the row of a call of a run in a thread has the next number of the run; the trail gets an
-- entry always.
unfoldable pub persist : ℕ → ℕ → ToolResult → CallStatus → Bool → CallState → CallState
persist name hashed result status cached st = record st {
  calls = elim (run_and_thread st) [
    | none ↦ st.calls
    | some (run_id, thread_id) ↦
        st.calls
        ++ (record {
          case_id = st.ctx.case_id;
          run_id = run_id;
          thread_id = thread_id;
          seq =
              max_of (
                map (λ c. c.seq)
                  (keep (λ c. c.case_id == st.ctx.case_id && c.run_id == run_id) st.calls))
              + 1;
          tool = name;
          args_hash = hashed;
          status = status;
          cached = cached;
          error = result.error;
        }
            ∷ [])
  ];
  audit = record_entry "tool.call" (some st.ctx.case_id) none st.audit;
}

-- The end of a call that was admitted: of a cancelled one there is no result, but its row.
unfoldable pub conclude : ℕ → ℕ → List ℕ → Answer → CallState → Option ToolResult × CallState
conclude name hashed captured a st =
    let result = with_captured (if a.cached then [] else captured) a.result in
    let st' : CallState = record st { cache = a.cache } in
    if a.is_cancelled
    then (none, persist name hashed result failed false st')
    else (some result, persist name hashed result (status_of result) a.cached st')

-- `invoke`
unfoldable pub invoke :
    ℕ
    → PolicyStore
    → Bool
    → Option ToolSpec
    → ℕ
    → ℕ
    → List ℕ
    → Outcome
    → CallState
    → Option ToolResult × CallState
invoke now s valid spec name hashed captured outcome st =
    let admitted = admit now s valid spec st in
    elim admitted.1 [
      | err e ↦
          let result = with_captured [] (failure e) in
          (some result, persist name hashed result (status_of result) false admitted.0)
      | ok t ↦
          conclude name hashed captured (execute captured t hashed admitted.0 outcome) admitted.0
    ]
