-- ===== src/Agent/Budget.antt =====
-- agent/budget.py, and the nested tool and time limits of agent/delegation.py.
use darknetra.Prelude.{
  ℕ, ◌+◌, ◌-◌, ◌≤◌, ◌≡◌, Bool, Option, none, some, Result, ok, err, value_error, budget_exceeded,
  leb, not, raise_if, ◌>>◌, ◌>>=◌, arith, ◌&&◌, if◌then◌else◌, true, Bool-cases, ◌||◌, List, ltb,
  unavailable, inl, ◌∷◌, subst, ◌*◌, [], inr,
}
use darknetra.Records.{Thread}

-- `remaining`: the subtraction stops at 0.
unfoldable pub remaining : Thread → ℕ
remaining t = t.budget_usd - t.spent_usd

-- `charge`: `none` is a cost that is negative or not finite.
unfoldable pub charge : Thread → Option ℕ → Result Thread
charge t none = err value_error
charge t (some amount) = ok (record t { spent_usd = t.spent_usd + amount })

-- What a charge leaves is what was left, less the cost, down to nothing.
pub remaining-charge :
    (t t' : Thread) (amount : ℕ)
    → charge t (some amount) ≡ ok t'
    → remaining t' ≡ remaining t - amount
unfolding remaining charge
remaining-charge t t' amount h = ground arith

-- `ExecutionBudget`: the limits of an agent, within those of its parent.
pub data ExecutionBudget : Type 0 where
  root : (deadline max_tool_calls tool_calls : ℕ) → ExecutionBudget
  within : (deadline max_tool_calls tool_calls : ℕ) → (parent : ExecutionBudget) → ExecutionBudget

-- `remaining_seconds`
abbrev pub remaining_seconds : ℕ → ℕ → Result ℕ
remaining_seconds now deadline = do raise_if (leb deadline now) budget_exceeded; ok (deadline - now)

-- `consume_tool`: the parent's call is counted before the own one.
unfoldable pub consume_tool : ℕ → ExecutionBudget → Result ExecutionBudget
consume_tool now (root deadline most calls) = do
  left ← remaining_seconds now deadline
  raise_if (leb most calls) budget_exceeded
  ok (root deadline most (calls + 1))
consume_tool now (within deadline most calls parent) = do
  left ← remaining_seconds now deadline
  raise_if (leb most calls) budget_exceeded
  parent' ← consume_tool now parent
  ok (within deadline most (calls + 1) parent')

-- No level has counted more calls than it allows.
abbrev pub IsWithin : ExecutionBudget → Type 0
IsWithin (root deadline most calls) = calls ≤ most
IsWithin (within deadline most calls parent) = (calls ≤ most) × IsWithin parent

-- One more call at every level.
abbrev pub counted : ExecutionBudget → ExecutionBudget
counted (root deadline most calls) = root deadline most (calls + 1)
counted (within deadline most calls parent) = within deadline most (calls + 1) (counted parent)

-- Every level still has time and a call left.
abbrev pub has_call : ℕ → ExecutionBudget → Bool
has_call now (root deadline most calls) = not (leb deadline now) && not (leb most calls)
has_call now (within deadline most calls parent) =
    not (leb deadline now) && not (leb most calls) && has_call now parent

-- A tool call is admitted exactly when every level has time and a call left, and is then counted once at
-- every level.
pub consume_tool-eq :
    (now : ℕ) (b : ExecutionBudget)
    → consume_tool now b ≡ (if has_call now b then ok (counted b) else err budget_exceeded)
unfolding consume_tool
consume_tool-eq now (root deadline most calls) = ground arith
consume_tool-eq now (within deadline most calls parent) = ground (arith, consume_tool-eq now parent)

has_call-counted : (now : ℕ) (b : ExecutionBudget) → has_call now b ≡ true → IsWithin (counted b)
has_call-counted now (root deadline most calls) h = ground arith
has_call-counted now (within deadline most calls parent) h =
    (ground arith, has_call-counted now parent (ground arith))

-- An admitted tool call leaves every level, the parents' included, within its limit.
pub consume_tool-IsWithin :
    (now : ℕ) (b b' : ExecutionBudget) → consume_tool now b ≡ ok b' → IsWithin b'
consume_tool-IsWithin now b b' h = elim (Bool-cases (has_call now b)) [
  | inl some_left ↦
      let e : counted b ≡ b' = ground (arith, consume_tool-eq now b) in
      subst IsWithin e (has_call-counted now b some_left)
  | inr spent ↦ absurd (ground (arith, consume_tool-eq now b))
]

-- `DelegationState`, without its clock and counters of tokens.
pub record DelegationState : Type 0 where
  pub worker_pool : ℕ
  pub children : ℕ
  pub spent : ℕ

-- The guards of `run_specialist`: a child owns a third of the pool, taken as an exact fraction.
unfoldable pub start_specialist : DelegationState → Result DelegationState
start_specialist s = do
  raise_if (leb 3 s.children || leb s.worker_pool s.spent) budget_exceeded
  raise_if (ltb (3 * s.worker_pool) (3 * s.spent + s.worker_pool)) budget_exceeded
  ok (record s { children = s.children + 1 })

-- The usage events of one child: what it costs is added to what all have spent, before the child's own
-- share is checked. `none` is a usage that is negative or not finite.
unfoldable pub charge_usage : ℕ → DelegationState → List (Option ℕ) → DelegationState × Result ℕ
charge_usage cost s [] = (s, ok cost)
charge_usage cost s (none ∷ usages) = (s, err unavailable)
charge_usage cost s (some amount ∷ usages) =
    let s' : DelegationState = record s { spent = s.spent + amount } in
    let rest = charge_usage (cost + amount) s' usages in
    if ltb s.worker_pool (3 * (cost + amount)) then (s', err budget_exceeded) else rest

-- A child's run, by the usages that its provider reports.
unfoldable pub run_child : DelegationState → List (Option ℕ) → DelegationState × Result ℕ
run_child s usages = elim (start_specialist s) [
  | err e ↦ (s, err e)
  | ok started ↦ charge_usage 0 started usages
]

-- The runs of a lead's children, one after the other.
abbrev pub run_children : DelegationState → List (List (Option ℕ)) → DelegationState
run_children s [] = s
run_children s (usages ∷ later) = run_children (run_child s usages).0 later
