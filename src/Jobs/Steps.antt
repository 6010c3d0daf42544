-- ===== src/Jobs/Steps.antt =====
-- jobs/runner.py: the steps that the event loop takes with jobs, in any order.
use darknetra.Prelude.{
  ℕ, ◌≡◌, ◌<◌, ◌==◌, List, Option, some, ok, any, count_if, find, false, true, [],
}
use darknetra.Jobs.{
  Phase, JobStatus, Job, Runner, is_active_phase, is_unfinished, submit, change, waits, runs,
  end_job, dropped, settle,
}

abbrev pub JobIs : ℕ → Phase → Runner → Type 0
JobIs id phase r = (j : Job) × (find (λ x. x.id == id) r.jobs ≡ some j) × (j.phase ≡ phase)

abbrev pub running_jobs : List Job → ℕ
running_jobs jobs = count_if (λ j. is_active_phase j.phase) jobs

pub data Step : Runner → Runner → Type 0 where
  submits :
      (id : ℕ) (key : Option ℕ) (r : Runner) (given : ℕ) (r' : Runner)
      → any (λ j. j.id == id) r.jobs ≡ false
      → submit id key r ≡ ok (given, r')
      → Step r r'
  starts : (id : ℕ) (r : Runner) → JobIs id Phase.created r → Step r (change id waits r)
  acquires :
      (id : ℕ) (r : Runner)
      → JobIs id Phase.waiting r
      → running_jobs r.jobs < r.max_workers
      → Step r (change id runs r)
  finishes :
      (j : Job) (status : JobStatus) (r : Runner)
      → find (λ x. x.id == j.id) r.jobs ≡ some j
      → j.phase ≡ Phase.active
      → is_unfinished status ≡ false
      → Step r (end_job j status r)
  gives_up :
      (j : Job) (r : Runner)
      → find (λ x. x.id == j.id) r.jobs ≡ some j
      → j.phase ≡ Phase.waiting
      → Step r (end_job j JobStatus.cancelled r)
  drops :
      (j : Job) (r : Runner)
      → find (λ x. x.id == j.id) r.jobs ≡ some j
      → j.phase ≡ Phase.created
      → Step r (change j.id dropped r)
  settles :
      (j : Job) (r : Runner)
      → find (λ x. x.id == j.id) r.jobs ≡ some j
      → j.phase ≡ Phase.gone
      → Step r (settle j.id r)
  closes : (r : Runner) → Step r (record r { closing = true })

-- The runners that a new one reaches.
pub data Reached (max_workers : ℕ) : Runner → Type 0 where
  new :
      Reached max_workers
        (record { max_workers = max_workers; jobs = []; keys = []; closing = false })
  after : (r r' : Runner) → Reached max_workers r → Step r r' → Reached max_workers r'
