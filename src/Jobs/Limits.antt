-- ===== src/Jobs/Limits.antt =====
-- jobs/runner.py: the bound of the semaphore and the keys of the jobs.
use darknetra.Prelude.{
  ℕ, ◌≡◌, ◌≤◌, ◌+◌, ◌==◌, List, Option, some, none, ok, any, count_if, find, false, true, arith,
  All, AreUnique, update_if, ◌∷◌, [], Bool, AreUnique-update_if, count_if-update_if_le, Bool-cases,
  Option-cases, All-update_found, inl, update_if-none, inr, subst,
}
use darknetra.Jobs.{
  Phase, JobStatus, Job, Runner, is_active_phase, is_live, job_of, without_job, submit, change,
  popped, taken_by, registered,
}
use darknetra.Jobs.Steps.{running_jobs}

-- A live job with a key holds it.
abbrev pub IsHolder : List (ℕ × ℕ) → Job → Type 0
IsHolder keys j =
    (key : ℕ) → is_live j.phase ≡ true → j.key ≡ some key → job_of key keys ≡ some j.id

pub record IsOrderly (r : Runner) : Type 0 where
  pub bounded : running_jobs r.jobs ≤ r.max_workers
  pub ids : AreUnique (λ j. j.id) r.jobs
  pub holders : All (IsHolder r.keys) r.jobs

-- The entries of one job are dropped without effect on another's.
pub job_of-without_job :
    (key id held : ℕ) (keys : List (ℕ × ℕ))
    → job_of key keys ≡ some held
    → (held == id) ≡ false
    → job_of key (without_job id keys) ≡ some held
job_of-without_job key id held [] h k = h
job_of-without_job key id held (e ∷ keys) h k = ground (arith, job_of-without_job key id held keys)

pub job_of-popped :
    (key id held : ℕ) (own : Option ℕ) (keys : List (ℕ × ℕ))
    → job_of key keys ≡ some held
    → (held == id) ≡ false
    → job_of key (popped own id keys) ≡ some held
job_of-popped key id held none keys h k = h
job_of-popped key id held (some own) [] h k = h
job_of-popped key id held (some own) (e ∷ keys) h k =
    ground (arith, job_of-popped key id held (some own) keys)

-- One row that changes adds at most one to a count.
pub count-one :
    (q : Job → Bool) (id : ℕ) (f : Job → Job) (jobs : List Job)
    → AreUnique (λ j. j.id) jobs
    → count_if q (update_if (λ j. j.id == id) f jobs) ≤ count_if q jobs + 1
count-one q id f [] u = omega arith
count-one q id f (j ∷ jobs) u = elim (Bool-cases (j.id == id)) [
  | inl here ↦
      let e : j.id ≡ id = ground arith in
      let rest : update_if (λ x. x.id == id) f jobs ≡ jobs =
        update_if-none (λ x. x.id == id) f jobs
          (subst (λ k. any (λ x. x.id == k) jobs ≡ false) e u.0) in
      rw (here, rest) (ground arith)
  | inr later ↦ rw later (ground (arith, count-one q id f jobs u.1))
]

-- A change of one row, with the keys that it leaves.
pub change-IsOrderly :
    (r : Runner) (j : Job) (f : Job → Job) (keys : List (ℕ × ℕ))
    → IsOrderly r
    → find (λ x. x.id == j.id) r.jobs ≡ some j
    → ((x : Job) → (f x).id ≡ x.id)
    → ((key held : ℕ)
        → job_of key r.keys ≡ some held
        → (held == j.id) ≡ false
        → job_of key keys ≡ some held)
    → IsHolder keys (f j)
    → running_jobs (update_if (λ x. x.id == j.id) f r.jobs) ≤ r.max_workers
    → IsOrderly (record (change j.id f r) { keys = keys })
change-IsOrderly r j f keys o found same others new bound = record {
  bounded = bound;
  ids = AreUnique-update_if (λ x. x.id) (λ x. x.id == j.id) f r.jobs same o.ids;
  holders =
      All-update_found (λ x. x.id) (IsHolder r.keys) (IsHolder keys) (λ x. x.id == j.id) f j.id
        r.jobs j (λ x k. k) (λ x k h key live own. others key x.id (h key live own) k) found o.ids
        o.holders new;
}

-- A change that sets no job running keeps the bound.
pub idle-bound :
    (r : Runner) (id : ℕ) (f : Job → Job)
    → IsOrderly r
    → ((x : Job) → is_active_phase (f x).phase ≡ true → is_active_phase x.phase ≡ true)
    → running_jobs (update_if (λ x. x.id == id) f r.jobs) ≤ r.max_workers
idle-bound r id f o h = omega (
  arith,
  o.bounded,
  count_if-update_if_le (λ j. is_active_phase j.phase) (λ x. x.id == id) f r.jobs h,
)

unheld :
    (jobs : List Job) (keys : List (ℕ × ℕ)) (key : ℕ)
    → job_of key keys ≡ none
    → All (IsHolder keys) jobs
    → (id : ℕ) → All (IsHolder ((key, id) ∷ keys)) jobs
unheld [] keys key h all id = tt
unheld (j ∷ jobs) keys key h all id = (
  λ k live own. elim (Bool-cases (key == k)) [
    | inl same ↦ absurd (ground (arith, all.0 k live own))
    | inr other ↦ ground (arith, all.0 k live own)
  ],
  unheld jobs keys key h all.1 id,
)

registered-own :
    (key : Option ℕ) (k id : ℕ) (keys : List (ℕ × ℕ))
    → key ≡ some k
    → job_of k (registered key id keys) ≡ some id
registered-own none k id keys h = absurd (ground arith)
registered-own (some key) k id keys h = ground arith

registered-others :
    (key : Option ℕ) (id : ℕ) (jobs : List Job) (keys : List (ℕ × ℕ))
    → taken_by key keys ≡ none
    → All (IsHolder keys) jobs
    → All (IsHolder (registered key id keys)) jobs
registered-others none id jobs keys free all = all
registered-others (some key) id jobs keys free all = unheld jobs keys key free all id

pub submit-IsOrderly :
    (id : ℕ) (key : Option ℕ) (r : Runner) (given : ℕ) (r' : Runner)
    → any (λ j. j.id == id) r.jobs ≡ false
    → IsOrderly r
    → submit id key r ≡ ok (given, r')
    → IsOrderly r'
unfolding submit
submit-IsOrderly id key r given r' fresh o h = elim (Option-cases (taken_by key r.keys)) [
  | inr (held, taken) ↦ let e : r ≡ r' = ground arith in subst IsOrderly e o
  | inl free ↦
      let made : Runner = record r {
        jobs =
            record { id = id; key = key; phase = Phase.created; status = JobStatus.queued }
            ∷ r.jobs;
        keys = registered key id r.keys;
      } in
      let e : made ≡ r' = ground arith in
      subst IsOrderly e (record {
        bounded = o.bounded;
        ids = (fresh, o.ids);
        holders = (
          λ k live own. registered-own key k id r.keys own,
          registered-others key id r.jobs r.keys free o.holders,
        );
      })
]
