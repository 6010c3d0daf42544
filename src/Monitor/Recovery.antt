-- ===== src/Monitor/Recovery.antt =====
-- monitor/recovery.py: attempts that were interrupted are closed. Whether the advisory lock of an item
-- can be taken is an argument.
use darknetra.Prelude.{
  ℕ, ◌+◌, List, [], ◌∷◌, Bool, false, ◌&&◌, ◌==◌, ltb, leb, none, some, find, keep, update_if,
  if◌then◌else◌,
}
use darknetra.Monitor.Rows.{
  Monitor, Item, Run, failed, Interruption, application_restart, Settings, effective_interval,
  seconds, item_at, run_at, is_running, note,
}

-- A newer completed attempt keeps its schedule and its result.
abbrev pub is_superseded : Item → ℕ → Bool
is_superseded i started_at = elim i.last_run_at [ none ↦ false | some last ↦ ltb started_at last ]

abbrev pub interrupted_item : Settings → ℕ → Run → Interruption → Item → Item
interrupted_item settings now r reason i = if is_superseded i r.started_at then i else record i {
  last_run_at = some now;
  next_run_at =
      if i.active
      then some (now + seconds (effective_interval i.interval_seconds settings))
      else none;
  last_run_id = some r.id;
  last_status = some failed;
  interruption = some reason;
}

abbrev pub interrupted : ℕ → Interruption → Run → Run
interrupted now reason r = record r {
  status = failed;
  finished_at = some now;
  interruption = some reason;
}

-- `interrupt_run`
abbrev pub interrupt_run : Settings → ℕ → Run → Interruption → Monitor → Monitor
interrupt_run settings now r reason m = note "monitor.interrupted" r.case_id r.item_id (record m {
  runs = update_if (run_at r.case_id r.id) (interrupted now reason) m.runs;
  items = update_if (item_at r.case_id r.item_id) (interrupted_item settings now r reason) m.items;
})

abbrev pub running_at : ℕ → ℕ → Run → Bool
running_at case_id id r = run_at case_id id r && is_running r.status

-- `persist_interruption`
unfoldable pub persist_interruption : Settings → ℕ → Bool → ℕ → ℕ → Interruption → Monitor → Monitor
persist_interruption settings now free case_id run_id reason m =
    if free
    then elim (find (running_at case_id run_id) m.runs) [
      | none ↦ m
      | some r ↦ interrupt_run settings now r reason m
    ]
    else m

abbrev pub is_candidate : ℕ → ℕ → Run → Bool
is_candidate case_id before r =
    r.case_id == case_id && is_running r.status && leb r.started_at before

-- The loop over the candidates: those whose lock is free and that still run are closed, and counted.
abbrev pub recover_runs : Settings → ℕ → (ℕ → Bool) → ℕ → List Run → ℕ × Monitor → ℕ × Monitor
recover_runs settings now free case_id [] done = done
recover_runs settings now free case_id (c ∷ candidates) (count, m) =
    let kept = recover_runs settings now free case_id candidates (count, m) in
    let closed : ℕ × Monitor = elim (find (running_at case_id c.id) m.runs) [
      | none ↦ recover_runs settings now free case_id candidates (count, m)
      | some r ↦
          recover_runs settings now free case_id candidates
            (count + 1, interrupt_run settings now r application_restart m)
    ] in
    if free c.item_id then closed else kept

-- `recover_interrupted_monitors`; the candidates come in an order of their own, the newest first.
unfoldable pub recover_interrupted_monitors :
    (List Run → List Run) → Settings → ℕ → (ℕ → Bool) → ℕ → ℕ → Monitor → ℕ × Monitor
recover_interrupted_monitors newest_first settings now free case_id before m =
    recover_runs settings now free case_id
      (newest_first (keep (is_candidate case_id before) m.runs)) (0, m)
