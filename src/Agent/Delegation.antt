-- ===== src/Agent/Delegation.antt =====
-- The share of the budget that the specialists of a run can spend.
use darknetra.Prelude.{ℕ, ◌+◌, ◌*◌, ◌≤◌, ◌≡◌, List, [], ◌∷◌, Option, none, some, ok, arith, refl}
use darknetra.Agent.Budget.{
  DelegationState, start_specialist, charge_usage, run_child, run_children,
}

charge_usage-state :
    (cost : ℕ) (s : DelegationState) (usages : List (Option ℕ))
    → ((charge_usage cost s usages).0.children ≡ s.children)
      × ((charge_usage cost s usages).0.worker_pool ≡ s.worker_pool)
unfolding charge_usage
charge_usage-state cost s [] = (refl, refl)
charge_usage-state cost s (none ∷ usages) = (refl, refl)
charge_usage-state cost s (some amount ∷ usages) =
    ground
      (arith, charge_usage-state (cost + amount) (record s { spent = s.spent + amount }) usages)

-- A run that succeeds has spent what it reports, which is within a third of the pool.
charge_usage-share :
    (cost : ℕ) (s s' : DelegationState) (usages : List (Option ℕ)) (total : ℕ)
    → charge_usage cost s usages ≡ (s', ok total)
    → 3 * cost ≤ s.worker_pool
    → (s'.spent + cost ≡ s.spent + total) × (3 * total ≤ s.worker_pool)
unfolding charge_usage
charge_usage-share cost s s' [] total h k = (ground arith, ground arith)
charge_usage-share cost s s' (none ∷ usages) total h k = absurd (ground arith)
charge_usage-share cost s s' (some amount ∷ usages) total h k =
    let more : DelegationState = record s { spent = s.spent + amount } in
    ground (arith, charge_usage-share (cost + amount) more s' usages total)

run_child-children :
    (s : DelegationState) (usages : List (Option ℕ))
    → s.children ≤ 3
    → ((run_child s usages).0.children ≤ 3) × ((run_child s usages).0.worker_pool ≡ s.worker_pool)
unfolding run_child start_specialist
run_child-children s usages h =
    ground (arith, charge_usage-state 0 (record s { children = s.children + 1 }) usages)

-- However many specialists a lead asks for and whatever their providers report, at most three start.
pub run_children-at_most_three :
    (s : DelegationState) (runs : List (List (Option ℕ)))
    → s.children ≤ 3
    → (run_children s runs).children ≤ 3
run_children-at_most_three s [] h = h
run_children-at_most_three s (usages ∷ later) h =
    run_children-at_most_three (run_child s usages).0 later (run_child-children s usages h).0

-- A specialist that succeeds has stayed within its third of the pool, and the specialists together
-- within the pool: the pool covered what was spent before and the whole third.
pub run_child-share :
    (s s' : DelegationState) (usages : List (Option ℕ)) (total : ℕ)
    → run_child s usages ≡ (s', ok total)
    → (s'.spent ≡ s.spent + total) × (3 * total ≤ s.worker_pool) × (s'.spent ≤ s.worker_pool)
unfolding run_child start_specialist
run_child-share s s' usages total h =
    let started : DelegationState = record s { children = s.children + 1 } in
    ground (arith, charge_usage-share 0 started s' usages total)
