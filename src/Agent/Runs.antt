-- ===== src/Agent/Runs.antt =====
-- agent/service.py: choosing a harness, posting a message, the end of a run and the recovery of runs.
use darknetra.Prelude.{
  ℕ, ◌+◌, List, [], ◌∷◌, ◌++◌, Text, Bool, true, false, not, ◌&&◌, ◌||◌, ◌==◌, ltb, leb, Option,
  none, some, Result, ok, ◌>>=◌, ◌>>◌, raise_if, or_raise, find, count_if, any, update_if, keep,
  not_found, conflict, unavailable, budget_exceeded, if◌then◌else◌, String, length,
}
use darknetra.Records.{Directory, Evidence, Thread, is_open, is_accessible}
use darknetra.Audit.{Entry, record_entry}
use darknetra.Authz.Access.{case_of}
use darknetra.Agent.Budget.{remaining, charge}
use darknetra.Agent.Events.{RunEvent, append}

pub data Harness : Type 0 where
  claude nim offline deterministic : Harness

pub data HarnessMode : Type 0 where
  deterministic offline nim auto : HarnessMode

-- The settings that `select_harness` reads; every mode it does not name is `auto`.
pub record Settings : Type 0 where
  pub harness_mode : HarnessMode
  pub offline_mode : Bool
  pub nim_ready : Bool
  pub has_anthropic_key : Bool

abbrev pub is_mode_offline : HarnessMode → Bool
is_mode_offline offline = true
is_mode_offline _ = false

abbrev pub is_mode_nim : HarnessMode → Bool
is_mode_nim nim = true
is_mode_nim _ = false

abbrev pub is_mode_deterministic : HarnessMode → Bool
is_mode_deterministic deterministic = true
is_mode_deterministic _ = false

abbrev pub wants_offline : Option Harness → Bool
wants_offline (some Harness.offline) = true
wants_offline _ = false

abbrev pub wants_nim : Option Harness → Bool
wants_nim (some Harness.nim) = true
wants_nim _ = false

unfoldable pub select_harness : Settings → Option Harness → Harness
select_harness s requested =
    if is_mode_deterministic s.harness_mode
    then Harness.deterministic
    else if s.offline_mode || is_mode_offline s.harness_mode || wants_offline requested
    then Harness.offline
    else if wants_nim requested
    then Harness.nim
    else if is_mode_nim s.harness_mode
    then Harness.nim
    else if s.has_anthropic_key
    then Harness.claude
    else if s.nim_ready
    then Harness.nim
    else Harness.offline

pub data RunStatus : Type 0 where
  queued running done error cancelled budget : RunStatus

-- Of an error only that there is one is kept.
pub record Run : Type 0 where
  pub id : ℕ
  pub case_id : ℕ
  pub thread_id : ℕ
  pub status : RunStatus
  pub harness : Harness
  pub started_at : Option ℕ
  pub finished_at : Option ℕ
  pub cost_usd : ℕ
  pub tokens_in : ℕ
  pub tokens_out : ℕ
  pub has_error : Bool

-- A message of a user; its attachments are identifiers of evidence.
pub record UserMessage : Type 0 where
  pub case_id : ℕ
  pub thread_id : ℕ
  pub run_id : ℕ
  pub text : Text
  pub attachments : List ℕ
  pub at : ℕ

pub record Store : Type 0 where
  pub dir : Directory
  pub audit : List Entry
  pub evidence : List Evidence
  pub threads : List Thread
  pub runs : List Run
  pub events : List RunEvent
  pub messages : List UserMessage

-- `status in ["QUEUED", "RUNNING"]`; all other statuses are `TERMINAL`.
abbrev pub is_active : RunStatus → Bool
is_active queued = true
is_active running = true
is_active _ = false

abbrev pub active_in_case : ℕ → Run → Bool
active_in_case case_id r = r.case_id == case_id && is_active r.status

abbrev pub active_in_thread : ℕ → ℕ → Run → Bool
active_in_thread case_id thread_id r =
    r.case_id == case_id && r.thread_id == thread_id && is_active r.status

abbrev pub get_thread : ℕ → ℕ → Store → Result Thread
get_thread case_id thread_id s =
    or_raise (find (λ t. t.case_id == case_id && t.id == thread_id) s.threads) not_found

-- The evidence attached: every code must be one of accessible evidence of the case.
unfoldable pub attach : ℕ → List ℕ → List Evidence → Result (List ℕ)
attach case_id [] rows = ok []
attach case_id (asked ∷ more) rows = do
  found ←
      or_raise (find (λ e. e.case_id == case_id && e.code == asked && is_accessible e.status) rows)
        not_found
  rest ← attach case_id more rows
  ok (found.id ∷ rest)

abbrev pub queued_run : ℕ → ℕ → ℕ → Harness → Run
queued_run id case_id thread_id mode = record {
  id = id;
  case_id = case_id;
  thread_id = thread_id;
  status = queued;
  harness = mode;
  started_at = none;
  finished_at = none;
  cost_usd = 0;
  tokens_in = 0;
  tokens_out = 0;
  has_error = false;
}

-- `post_message`: the run has the identifier `id`; `wanted` is the harness of the thread.
unfoldable pub post_message :
    ℕ → ℕ → Settings → Option Harness → Store → ℕ → ℕ → Text → List ℕ → Result (Run × Store)
post_message now id settings wanted s case_id thread_id content attachments = do
  thread ← get_thread case_id thread_id s
  raise_if
      (not (elim (case_of s.dir case_id) [ none ↦ false | some c ↦ is_open c.status ])
        || not thread.is_opened)
      conflict
  raise_if (any (active_in_thread case_id thread_id) s.runs) conflict
  raise_if (leb 3 (count_if (active_in_case case_id) s.runs)) unavailable
  raise_if (ltb (remaining thread) 2500) budget_exceeded
  attached ← attach case_id attachments s.evidence
  let run = queued_run id case_id thread_id (select_harness settings wanted)
  let message : UserMessage = record {
    case_id = case_id;
    thread_id = thread_id;
    run_id = id;
    text = content;
    attachments = attached;
    at = now;
  }
  ok (
    run,
    record s {
      runs = s.runs ++ (run ∷ []);
      messages = s.messages ++ (message ∷ []);
      threads =
          update_if (λ t. t.case_id == case_id && t.id == thread_id)
            (λ t. record t { last_message_at = some now }) s.threads;
      audit = record_entry "run.queued" (some case_id) (some id) s.audit;
    },
  )

-- How a run ended.
pub record Ending : Type 0 where
  pub status : RunStatus
  pub has_error : Bool
  pub cost_usd : Option ℕ
  pub tokens_in : ℕ
  pub tokens_out : ℕ

abbrev pub is_run : ℕ → ℕ → Run → Bool
is_run case_id run_id r = r.case_id == case_id && r.id == run_id

abbrev pub is_cancelled : RunStatus → Bool
is_cancelled cancelled = true
is_cancelled _ = false

abbrev pub ended : ℕ → Ending → ℕ → Run → Run
ended now e cost r = record r {
  status = e.status;
  finished_at = some now;
  has_error = e.has_error;
  cost_usd = cost;
  tokens_in = e.tokens_in;
  tokens_out = e.tokens_out;
}

abbrev pub log_if : Bool → ℕ → ℕ → ℕ → String → List RunEvent → List RunEvent
log_if c now case_id run_id type events =
    if c then append now case_id run_id type events else events

-- The last transaction of `execute_run`, in its `finally` block: a run that has already ended, or that
-- is not there, is left alone. The cost is the one after rounding up.
unfoldable pub finish_run : ℕ → Ending → Store → ℕ → ℕ → ℕ → Result Store
finish_run now e s case_id thread_id run_id = do
  run ←
      or_raise
        (find (λ r. r.case_id == case_id && r.thread_id == thread_id && r.id == run_id) s.runs)
        not_found
  elim (is_active run.status) [
    | false ↦ ok s
    | true ↦ do
      thread ← get_thread case_id thread_id s
      charged ← charge thread e.cost_usd
      let cost : ℕ = elim e.cost_usd [ none ↦ 0 | some c ↦ c ]
      let failed = log_if e.has_error now case_id run_id "run.error" s.events
      let stopped = log_if (is_cancelled e.status) now case_id run_id "run.cancelled" failed
      ok (record s {
        runs = update_if (is_run case_id run_id) (ended now e cost) s.runs;
        threads =
            update_if (λ t. t.case_id == case_id && t.id == thread_id)
              (λ t. record t { spent_usd = charged.spent_usd }) s.threads;
        events = append now case_id run_id "run.finished" stopped;
        audit = record_entry "run.finished" (some case_id) (some run_id) s.audit;
      })
  ]

abbrev pub interrupted : ℕ → Run → Run
interrupted now r = record r { status = error; finished_at = some now; has_error = true }

-- The events and the entry that `recover_interrupted_runs` adds for each of the runs.
abbrev pub recovered_events : ℕ → List Run → List RunEvent → List RunEvent
recovered_events now [] events = events
recovered_events now (r ∷ runs) events =
    recovered_events now runs
      (append now r.case_id r.id "run.finished" (append now r.case_id r.id "run.error" events))

abbrev pub recovered_audit : List Run → List Entry → List Entry
recovered_audit [] trail = trail
recovered_audit (r ∷ runs) trail =
    recovered_audit runs (record_entry "run.recovered" (some r.case_id) (some r.id) trail)

-- `recover_interrupted_runs`, which a single process calls as it starts, for one case.
unfoldable pub recover_case : ℕ → ℕ → Store → Store
recover_case now case_id s =
    let runs = keep (active_in_case case_id) s.runs in
    record s {
      runs = update_if (active_in_case case_id) (interrupted now) s.runs;
      events = recovered_events now runs s.events;
      audit = recovered_audit runs s.audit;
    }

-- All cases, one transaction each, and the number of runs recovered.
unfoldable pub recover_interrupted_runs : ℕ → List ℕ → Store → ℕ × Store
recover_interrupted_runs now [] s = (0, s)
recover_interrupted_runs now (case_id ∷ case_ids) s =
    let rest = recover_interrupted_runs now case_ids (recover_case now case_id s) in
    (length (keep (active_in_case case_id) s.runs) + rest.0, rest.1)
