-- ===== src/Agent/Recovery.antt =====
-- agent/service.py `recover_interrupted_runs`: runs and events after it.
use darknetra.Agent.Events.{RunEvent, AreAscending, append, append-AreAscending}
use darknetra.Prelude.{
  ℕ, List, Bool, ◌≡◌, false, refl, update_if, any, arith, mem, ◌∷◌, true, keep, [], Bool-cases,
  ◌==◌, inr, inl,
}
use darknetra.Agent.Runs.{
  Run, Store, active_in_case, interrupted, recover_case, recover_interrupted_runs, recovered_events,
}

-- An active run of one of the cases.
abbrev pub active_among : List ℕ → Run → Bool
active_among case_ids r = any (λ c. active_in_case c r) case_ids

recover_case-runs :
    (now case_id : ℕ) (s : Store)
    → (recover_case now case_id s).runs
      ≡ update_if (active_in_case case_id) (interrupted now) s.runs
unfolding recover_case
recover_case-runs now case_id s = refl

-- A run that an interruption reaches is not active in any case.
interrupted-active : (now c : ℕ) (r : Run) → active_in_case c (interrupted now r) ≡ false
interrupted-active now c r = ground arith

recovered-none :
    (now case_id : ℕ) (runs : List Run)
    → any (active_in_case case_id) (update_if (active_in_case case_id) (interrupted now) runs)
      ≡ false
recovered-none now case_id [] = refl
recovered-none now case_id (r ∷ runs) = ground (arith, recovered-none now case_id runs)

still-none :
    (now case_id c : ℕ) (runs : List Run)
    → any (active_in_case c) runs ≡ false
    → any (active_in_case c) (update_if (active_in_case case_id) (interrupted now) runs) ≡ false
still-none now case_id c [] h = refl
still-none now case_id c (r ∷ runs) h = ground (arith, still-none now case_id c runs)

recover-keeps_none :
    (now : ℕ) (case_ids : List ℕ) (s : Store) (c : ℕ)
    → any (active_in_case c) s.runs ≡ false
    → any (active_in_case c) (recover_interrupted_runs now case_ids s).1.runs ≡ false
unfolding recover_interrupted_runs
recover-keeps_none now [] s c h = h
recover-keeps_none now (case_id ∷ case_ids) s c h =
    recover-keeps_none now case_ids (recover_case now case_id s) c
      (rw (recover_case-runs now case_id s) (still-none now case_id c s.runs h))

-- After the recovery at a restart no run of any of the cases is active.
pub recover_interrupted_runs-none_active :
    (now : ℕ) (case_ids : List ℕ) (s : Store) (c : ℕ)
    → mem c case_ids ≡ true
    → any (active_in_case c) (recover_interrupted_runs now case_ids s).1.runs ≡ false
unfolding recover_interrupted_runs
recover_interrupted_runs-none_active now [] s c h = absurd (ground arith)
recover_interrupted_runs-none_active now (case_id ∷ case_ids) s c h =
    elim (Bool-cases (c == case_id)) [
      | inr other ↦
          recover_interrupted_runs-none_active now case_ids (recover_case now case_id s) c
            (ground arith)
      | inl same ↦
          let e : c ≡ case_id = ground arith in
          recover-keeps_none now case_ids (recover_case now case_id s) c
            (rw (recover_case-runs now case_id s, e) (recovered-none now case_id s.runs))
    ]

recovered_events-AreAscending :
    (now : ℕ) (runs : List Run) (events : List RunEvent)
    → AreAscending events
    → AreAscending (recovered_events now runs events)
recovered_events-AreAscending now [] events h = h
recovered_events-AreAscending now (r ∷ runs) events h =
    recovered_events-AreAscending now runs
      (append now r.case_id r.id "run.finished" (append now r.case_id r.id "run.error" events))
      (append-AreAscending now r.case_id r.id "run.finished"
        (append now r.case_id r.id "run.error" events)
        (append-AreAscending now r.case_id r.id "run.error" events h))

-- The recovery logs its events with numbers that keep growing along every run's log.
pub recover_interrupted_runs-AreAscending :
    (now : ℕ) (case_ids : List ℕ) (s : Store)
    → AreAscending s.events
    → AreAscending (recover_interrupted_runs now case_ids s).1.events
unfolding recover_interrupted_runs recover_case
recover_interrupted_runs-AreAscending now [] s h = h
recover_interrupted_runs-AreAscending now (case_id ∷ case_ids) s h =
    recover_interrupted_runs-AreAscending now case_ids (recover_case now case_id s)
      (recovered_events-AreAscending now (keep (active_in_case case_id) s.runs) s.events h)
