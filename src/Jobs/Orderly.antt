-- ===== src/Jobs/Orderly.antt =====
-- jobs/runner.py: the bound and the keys under each step.
use darknetra.Prelude.{
  ℕ, ◌≡◌, ◌≤◌, ◌==◌, some, find, true, refl, arith, find-some, update_if, All-find, subst, sym, ◌∙◌,
  ap,
}
use darknetra.Jobs.{
  JobStatus, Job, Runner, is_active_phase, is_live, change, waits, runs, ends, end_job, popped,
  dropped, settled, settle, without_job,
}
use darknetra.Jobs.Steps.{Step, Reached, running_jobs}
use darknetra.Jobs.Limits.{
  IsHolder, IsOrderly, job_of-without_job, job_of-popped, count-one, change-IsOrderly, idle-bound,
  submit-IsOrderly,
}

-- The row that a step finds holds its key, if it is live.
found-holds :
    (r : Runner) (j : Job) (id : ℕ)
    → IsOrderly r
    → find (λ x. x.id == id) r.jobs ≡ some j
    → IsHolder r.keys j × (j.id ≡ id)
found-holds r j id o found =
    let here = find-some (λ x. x.id == id) r.jobs j found in
    (All-find (IsHolder r.keys) (λ x. x.id == id) r.jobs j found o.holders, ground arith)

-- A change of a live row that keeps it live keeps the keys.
live-IsOrderly :
    (r : Runner) (id : ℕ) (f : Job → Job) (j : Job)
    → IsOrderly r
    → find (λ x. x.id == id) r.jobs ≡ some j
    → is_live j.phase ≡ true
    → ((x : Job) → (f x).id ≡ x.id)
    → (f j).key ≡ j.key
    → running_jobs (update_if (λ x. x.id == id) f r.jobs) ≤ r.max_workers
    → IsOrderly (change id f r)
live-IsOrderly r id f j o found live same same_key bound =
    let (holds, own) = found-holds r j id o found in
    subst (λ n. IsOrderly (change n f r)) own
      (change-IsOrderly r j f r.keys o
        (subst (λ n. find (λ x. x.id == n) r.jobs ≡ some j) (sym own) found) same
        (λ key held h k. h)
        (λ key lives owns. holds key live (sym same_key ∙ owns) ∙ ap (λ n. some n) (sym (same j)))
        (subst (λ n. running_jobs (update_if (λ x. x.id == n) f r.jobs) ≤ r.max_workers) (sym own)
          bound))

settled-id : (x : Job) → (settled x).id ≡ x.id
settled-id x = ground arith

settled-phase : (x : Job) → (settled x).phase ≡ x.phase
settled-phase x = ground arith

Step-IsOrderly : (r r' : Runner) → Step r r' → IsOrderly r → IsOrderly r'
unfolding end_job settle
Step-IsOrderly _ _ (Step.submits id key r given r' fresh h) o =
    submit-IsOrderly id key r given r' fresh o h
Step-IsOrderly _ _ (Step.starts id r at_phase) o =
    let (j, found, phase) = at_phase in
    live-IsOrderly r id waits j o found (ground arith) (λ x. refl) refl
      (idle-bound r id waits o (λ x k. absurd (ground arith)))
Step-IsOrderly _ _ (Step.acquires id r at_phase room) o =
    let (j, found, phase) = at_phase in
    live-IsOrderly r id runs j o found (ground arith) (λ x. refl) refl
      (omega (arith, room, count-one (λ x. is_active_phase x.phase) id runs r.jobs o.ids))
Step-IsOrderly _ _ (Step.finishes j status r found phase over) o =
    change-IsOrderly r j (ends status) (popped j.key j.id r.keys) o found (λ x. refl)
      (λ key held h k. job_of-popped key j.id held j.key r.keys h k)
      (λ key live own. absurd (ground arith))
      (idle-bound r j.id (ends status) o (λ x k. absurd (ground arith)))
Step-IsOrderly _ _ (Step.gives_up j r found phase) o =
    change-IsOrderly r j (ends JobStatus.cancelled) (popped j.key j.id r.keys) o found (λ x. refl)
      (λ key held h k. job_of-popped key j.id held j.key r.keys h k)
      (λ key live own. absurd (ground arith))
      (idle-bound r j.id (ends JobStatus.cancelled) o (λ x k. absurd (ground arith)))
Step-IsOrderly _ _ (Step.drops j r found phase) o =
    change-IsOrderly r j dropped r.keys o found (λ x. refl) (λ key held h k. h)
      (λ key live own. absurd (ground arith))
      (idle-bound r j.id dropped o (λ x k. absurd (ground arith)))
Step-IsOrderly _ _ (Step.settles j r found phase) o =
    change-IsOrderly r j settled (without_job j.id r.keys) o found settled-id
      (λ key held h k. job_of-without_job key j.id held r.keys h k)
      (λ key live own. absurd (ground (arith, settled-phase j)))
      (idle-bound r j.id settled o (λ x k. ground (arith, settled-phase x)))
Step-IsOrderly _ _ (Step.closes r) o = record {
  bounded = o.bounded;
  ids = o.ids;
  holders = o.holders;
}

-- In every state that the runner reaches, at most `max_workers` jobs run, no two jobs share an identifier,
-- and a job that is live and was submitted with a key is the one that the key stands for: so there is at
-- most one of them for each key.
pub Reached-IsOrderly : (max_workers : ℕ) (r : Runner) → Reached max_workers r → IsOrderly r
Reached-IsOrderly n _ Reached.new = record { bounded = omega arith; ids = tt; holders = tt }
Reached-IsOrderly n _ (Reached.after r r' before step) =
    Step-IsOrderly r r' step (Reached-IsOrderly n r before)
