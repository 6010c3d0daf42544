-- ===== src/Agent/Ending.antt =====
-- agent/service.py: the last transaction of `execute_run`, more than once.
use darknetra.Agent.Budget.{charge}
use darknetra.Prelude.{
  none, some, ℕ, ◌≡◌, ok, Bool, find, false, ◌==◌, some, ◌&&◌, arith, Option-cases, inl, inr,
  Bool-cases, Result-cases, find-some, find-update_if_stable, refl,
}
use darknetra.Agent.Runs.{Ending, Store, Run, is_active, finish_run, get_thread, is_run, ended}

abbrev pub in_thread : ℕ → ℕ → ℕ → Run → Bool
in_thread case_id thread_id run_id r =
    r.case_id == case_id && r.thread_id == thread_id && r.id == run_id

finish_run-again :
    (now : ℕ) (e : Ending) (s : Store) (case_id thread_id run_id : ℕ) (r : Run)
    → find (in_thread case_id thread_id run_id) s.runs ≡ some r
    → is_active r.status ≡ false
    → finish_run now e s case_id thread_id run_id ≡ ok s
unfolding finish_run
finish_run-again now e s case_id thread_id run_id r found over = ground arith

-- The run as it is stored after `finish_run`, which leaves it ended.
finish_run-stored :
    (now : ℕ) (e : Ending) (s s' : Store) (case_id thread_id run_id : ℕ)
    → is_active e.status ≡ false
    → finish_run now e s case_id thread_id run_id ≡ ok s'
    → (r : Run) × (find (in_thread case_id thread_id run_id) s'.runs ≡ some r)
      × (is_active r.status ≡ false)
unfolding finish_run
finish_run-stored now e s s' case_id thread_id run_id over h =
    elim (Option-cases (find (in_thread case_id thread_id run_id) s.runs)) [
      | inl unknown ↦ absurd (ground arith)
      | inr (run, found) ↦ elim (Bool-cases (is_active run.status)) [
        | inr past ↦ (run, ground arith, past)
        | inl active ↦ elim (Result-cases (get_thread case_id thread_id s)) [
          | inr (e', unknown) ↦ absurd (ground arith)
          | inl (thread, there) ↦ elim (Result-cases (charge thread e.cost_usd)) [
            | inr (e', invalid) ↦ absurd (ground arith)
            | inl (charged, valid) ↦
                let cost : ℕ = elim e.cost_usd [ none ↦ 0 | some c ↦ c ] in
                let here = find-some (in_thread case_id thread_id run_id) s.runs run found in
                let kept =
                  find-update_if_stable (in_thread case_id thread_id run_id) (is_run case_id run_id)
                    (ended now e cost) s.runs run (λ x. refl) found (ground arith) in
                (ended now e cost run, ground (arith, kept), over)
          ]
        ]
      ]
    ]

-- Once a run has ended, ending it again, in any way, changes nothing: its cost is charged once.
pub finish_run-once :
    (now later : ℕ) (e e' : Ending) (s s' : Store) (case_id thread_id run_id : ℕ)
    → is_active e.status ≡ false
    → finish_run now e s case_id thread_id run_id ≡ ok s'
    → finish_run later e' s' case_id thread_id run_id ≡ ok s'
finish_run-once now later e e' s s' case_id thread_id run_id over h =
    let (r, found, past) = finish_run-stored now e s s' case_id thread_id run_id over h in
    finish_run-again later e' s' case_id thread_id run_id r found past
