-- ===== src/Jobs.antt =====
-- jobs/runner.py `InProcessRunner`: the jobs of one process, as steps of its event loop. The entries of
-- `_statuses` and `_tasks` are one row per job; the key of a row is the key it was submitted with.
pub mod Steps
pub mod Limits
pub mod Orderly
mod Tests
use darknetra.Prelude.{
  ℕ, ◌+◌, List, [], ◌∷◌, ◌++◌, Bool, true, false, not, ◌&&◌, ◌||◌, ◌==◌, Option, none, some, Result,
  ok, err, internal, keep, update_if, find, if◌then◌else◌,
}

-- A task is created, waits for the semaphore, runs its job, and is gone from `_tasks`.
pub data Phase : Type 0 where
  created waiting active gone : Phase

pub data JobStatus : Type 0 where
  queued running done failed cancelled : JobStatus

pub record Job : Type 0 where
  pub id : ℕ
  pub key : Option ℕ
  pub phase : Phase
  pub status : JobStatus

pub record Runner : Type 0 where
  pub max_workers : ℕ
  pub jobs : List Job
  pub keys : List (ℕ × ℕ)
  pub closing : Bool

abbrev pub is_active_phase : Phase → Bool
is_active_phase active = true
is_active_phase _ = false

abbrev pub is_live : Phase → Bool
is_live gone = false
is_live _ = true

abbrev pub is_unfinished : JobStatus → Bool
is_unfinished queued = true
is_unfinished running = true
is_unfinished _ = false

-- `self._keys.get(key)`
abbrev pub job_of : ℕ → List (ℕ × ℕ) → Option ℕ
job_of key [] = none
job_of key (entry ∷ keys) =
    let rest = job_of key keys in if entry.0 == key then some entry.1 else rest

-- `if key and self._keys.get(key) == job_id: self._keys.pop(key)`
abbrev pub popped : Option ℕ → ℕ → List (ℕ × ℕ) → List (ℕ × ℕ)
popped none id keys = keys
popped (some key) id keys = keep (λ entry. not (entry.0 == key && entry.1 == id)) keys

-- The keys that `cancel` leaves
abbrev pub without_job : ℕ → List (ℕ × ℕ) → List (ℕ × ℕ)
without_job id keys = keep (λ entry. not (entry.1 == id)) keys

abbrev pub registered : Option ℕ → ℕ → List (ℕ × ℕ) → List (ℕ × ℕ)
registered none id keys = keys
registered (some key) id keys = (key, id) ∷ keys

abbrev pub taken_by : Option ℕ → List (ℕ × ℕ) → Option ℕ
taken_by none keys = none
taken_by (some key) keys = job_of key keys

-- `submit`: a key that is taken gives the job that has it.
unfoldable pub submit : ℕ → Option ℕ → Runner → Result (ℕ × Runner)
submit id key r = if r.closing then err internal else elim (taken_by key r.keys) [
  | some held ↦ ok (held, r)
  | none ↦ ok (
    id,
    record r {
      jobs = record { id = id; key = key; phase = created; status = queued } ∷ r.jobs;
      keys = registered key id r.keys;
    },
  )
]

abbrev pub change : ℕ → (Job → Job) → Runner → Runner
change id f r = record r { jobs = update_if (λ j. j.id == id) f r.jobs }

-- `run` starts, and takes the semaphore.
abbrev pub waits : Job → Job
waits j = record j { phase = waiting }

abbrev pub runs : Job → Job
runs j = record j { phase = active; status = running }

-- `run` ends: the last status is set, the key is popped if it is still the job's, and the task is gone.
abbrev pub ends : JobStatus → Job → Job
ends status j = record j { phase = gone; status = status }

unfoldable pub end_job : Job → JobStatus → Runner → Runner
end_job j status r = record (change j.id (ends status) r) { keys = popped j.key j.id r.keys }

-- A task that is cancelled before it starts runs none of `run`.
abbrev pub dropped : Job → Job
dropped j = record j { phase = gone }

-- The end of `cancel`, when the task is gone.
abbrev pub settled : Job → Job
settled j = if is_unfinished j.status then record j { status = cancelled } else j

unfoldable pub settle : ℕ → Runner → Runner
settle id r = record (change id settled r) { keys = without_job id r.keys }
