-- ===== src/Monitor/Closed.antt =====
-- No attempt of monitor/runner.py `run_item` is left running, and monitor/recovery.py closes those that a
-- restart has interrupted.
use darknetra.Prelude.{
  ℕ, ◌+◌, List, [], ◌∷◌, ◌≡◌, refl, true, false, some, find, any, keep, All, find-some, find-none,
  update_if, arith, ok, Result-cases, Bool-cases, Option-cases, inl, inr, subst,
}
use darknetra.Records.{Actor}
use darknetra.Monitor.Sources.{Source}
use darknetra.Monitor.Rows.{
  Monitor, Item, Run, Interruption, application_restart, Settings, run_at, is_running,
}
use darknetra.Monitor.Recovery.{
  interrupted, interrupt_run, running_at, recover_runs, is_candidate, recover_interrupted_monitors,
}
use darknetra.Monitor.Principal.{require_execution_actor}
use darknetra.Monitor.Publish.{Call, Outcome, Publication, publish_sources, collect_source}
use darknetra.Monitor.Attempt.{
  finished_run, finish, finished_run, publish, active_item, start_publication,
}

closed_of_update :
    (f : Run → Run) (case_id id : ℕ) (runs : List Run)
    → ((r : Run) → is_running (f r).status ≡ false)
    → any (running_at case_id id) (update_if (run_at case_id id) f runs) ≡ false
closed_of_update f case_id id [] h = refl
closed_of_update f case_id id (r ∷ runs) h = elim (Bool-cases (run_at case_id id r)) [
  | inl here ↦ rw here (ground (arith, h r, closed_of_update f case_id id runs h))
  | inr there ↦ rw (there, there) (closed_of_update f case_id id runs h)
]

pub publish-finish :
    (c : Call) (i : Item) (actor : Actor) (adapter : Source → Outcome) (before m after : Monitor)
    → publish c i actor adapter before m ≡ ok after
    → (p : Publication) × ((j : Item) × (publish_sources c j
            (collect_source c i adapter)
            i.sources
            (start_publication c i before m)
          ≡ ok p)
        × (finish c p ≡ after))
unfolding publish
publish-finish c i actor adapter before m after h = elim (Result-cases (active_item c m)) [
  | inr (e, gone) ↦ absurd (ground arith)
  | inl (j, active) ↦
      elim (Result-cases (require_execution_actor c.finished m.store.dir c.case_id actor)) [
        | inr (e, denied) ↦ absurd (ground arith)
        | inl (current, cleared) ↦
            elim (Result-cases (
              publish_sources c j (collect_source c i adapter) i.sources
                (start_publication c i before m))) [
                  | inr (e, failed) ↦ absurd (ground arith)
                  | inl (p, published) ↦ (p, (j, published, ground arith))
                ]
      ]
]

closed_stays :
    (settings : Settings) (now : ℕ) (r : Run) (reason : Interruption) (m : Monitor) (case_id id : ℕ)
    → any (running_at case_id id) m.runs ≡ false
    → any (running_at case_id id) (interrupt_run settings now r reason m).runs ≡ false
closed_stays settings now r reason m case_id id h = fewer m.runs h
  where
    fewer :
        (runs : List Run)
        → any (running_at case_id id) runs ≡ false
        → any
            (running_at case_id id)
            (update_if (run_at r.case_id r.id) (interrupted now reason) runs)
          ≡ false
    fewer [] k = refl
    fewer (x ∷ runs) k = ground (arith, fewer runs)

interrupt_run-closes :
    (settings : Settings) (now : ℕ) (r : Run) (reason : Interruption) (m : Monitor) (case_id id : ℕ)
    → find (running_at case_id id) m.runs ≡ some r
    → any (running_at case_id id) (interrupt_run settings now r reason m).runs ≡ false
interrupt_run-closes settings now r reason m case_id id found =
    let hit = (find-some (running_at case_id id) m.runs r found).0 in
    let home : r.case_id ≡ case_id = ground arith in
    let same : r.id ≡ id = ground arith in
    rw (home, same) (closed_of_update (interrupted now reason) case_id id m.runs (λ r. refl))

recover_runs-keeps :
    (settings : Settings) (now : ℕ) (case_id id : ℕ) (candidates : List Run) (count : ℕ)
    (m : Monitor)
    → any (running_at case_id id) m.runs ≡ false
    → any
        (running_at case_id id)
        (recover_runs settings now (λ i. true) case_id candidates (count, m)).1.runs
      ≡ false
recover_runs-keeps settings now case_id id [] count m h = h
recover_runs-keeps settings now case_id id (c ∷ candidates) count m h =
    elim (Option-cases (find (running_at case_id c.id) m.runs)) [
      | inl gone ↦ rw gone (recover_runs-keeps settings now case_id id candidates count m h)
      | inr (r, found) ↦ rw found (
          recover_runs-keeps settings now case_id id candidates (count + 1) _
            (closed_stays settings now r application_restart m case_id id h))
    ]

-- Each of the candidates is closed at the end.
abbrev pub AreClosed : ℕ → List Run → ℕ × Monitor → Type 0
AreClosed case_id candidates out =
    All (λ c. any (running_at case_id c.id) out.1.runs ≡ false) candidates

recover_runs-closes :
    (settings : Settings) (now : ℕ) (case_id : ℕ) (candidates : List Run) (count : ℕ) (m : Monitor)
    → AreClosed case_id candidates
        (recover_runs settings now (λ i. true) case_id candidates (count, m))
recover_runs-closes settings now case_id [] count m = tt
recover_runs-closes settings now case_id (c ∷ candidates) count m =
    elim (Option-cases (find (running_at case_id c.id) m.runs)) [
      | inl gone ↦
          let same : recover_runs settings now (λ i. true) case_id candidates (count, m)
              ≡ recover_runs settings now (λ i. true) case_id (c ∷ candidates) (count, m) =
            ground arith in
          subst (AreClosed case_id (c ∷ candidates)) same (
            recover_runs-keeps settings now case_id c.id candidates count m
                (find-none (running_at case_id c.id) m.runs gone),
            recover_runs-closes settings now case_id candidates count m,
          )
      | inr (r, found) ↦
          let next = interrupt_run settings now r application_restart m in
          let same : recover_runs settings now (λ i. true) case_id candidates (count + 1, next)
              ≡ recover_runs settings now (λ i. true) case_id (c ∷ candidates) (count, m) =
            ground arith in
          subst (AreClosed case_id (c ∷ candidates)) same (
            recover_runs-keeps settings now case_id c.id candidates (count + 1) next
                (interrupt_run-closes settings now r application_restart m case_id c.id found),
            recover_runs-closes settings now case_id candidates (count + 1) next,
          )
    ]

-- The recovery at a restart closes every attempt of the case that had started by then and was running, if
-- no lock is held by another process; the order in which they are taken does not matter.
pub recover_interrupted_monitors-closes :
    (newest_first : List Run → List Run) (settings : Settings) (now case_id before : ℕ)
    (m : Monitor)
    → AreClosed case_id
        (newest_first (keep (is_candidate case_id before) m.runs))
        (recover_interrupted_monitors newest_first settings now (λ i. true) case_id before m)
unfolding recover_interrupted_monitors
recover_interrupted_monitors-closes newest_first settings now case_id before m =
    recover_runs-closes settings now case_id
      (newest_first (keep (is_candidate case_id before) m.runs)) 0 m
