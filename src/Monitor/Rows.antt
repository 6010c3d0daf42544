-- ===== src/Monitor/Rows.antt =====
-- The tables of monitor/models.py, and monitor/service.py `effective_interval`.
use darknetra.Prelude.{
  ℕ, ◌-◌, ◌*◌, ◌%◌, List, Bool, true, false, ◌&&◌, ◌==◌, Option, some, if◌then◌else◌, Text, Error,
  String,
}
use darknetra.Audit.{record_entry}
use darknetra.Decisions.Rows.{Store}
use darknetra.Monitor.Sources.{Source, ItemKind, same_source}

pub record Watchlist : Type 0 where
  pub id : ℕ
  pub case_id : ℕ
  pub active : Bool

pub data RunStatus : Type 0 where
  running done partial rate_limit failed : RunStatus

pub data SourceStatus : Type 0 where
  collected denied failing : SourceStatus

pub data Interruption : Type 0 where
  cancelled run_failed application_restart : Interruption

-- `watchlist_items`: of the state, the counts of failures and the times of the next try by source, the
-- last run, and why the item was suspended or interrupted.
pub record Item : Type 0 where
  pub id : ℕ
  pub case_id : ℕ
  pub watchlist_id : ℕ
  pub kind : ItemKind
  pub value_norm : Text
  pub variants : List Text
  pub sources : List Source
  pub interval_seconds : ℕ
  pub active : Bool
  pub failure_counts : Source → ℕ
  pub source_backoff : Source → Option ℕ
  pub last_run_id : Option ℕ
  pub last_status : Option RunStatus
  pub suspended : Bool
  pub interruption : Option Interruption
  pub last_run_at : Option ℕ
  pub next_run_at : Option ℕ
  pub created_by : ℕ
  pub updated_at : ℕ

-- `monitor_runs`: of the errors those of the sources, of the execution and of its user.
pub record Run : Type 0 where
  pub id : ℕ
  pub case_id : ℕ
  pub item_id : ℕ
  pub status : RunStatus
  pub started_at : ℕ
  pub finished_at : Option ℕ
  pub manual : Bool
  pub sources_run : List (Source × SourceStatus)
  pub new_hits : ℕ
  pub errors : List (Source × Error)
  pub interruption : Option Interruption
  pub principal_denied : Bool

pub record Hit : Type 0 where
  pub case_id : ℕ
  pub run_id : ℕ
  pub item_id : ℕ
  pub evidence_id : ℕ
  pub url_hash : ℕ
  pub content_hash : ℕ
  pub relevance : ℕ
  pub alertable : Bool
  pub family : ℕ
  pub alert_id : Option ℕ
  pub at : ℕ

pub record SeenUrl : Type 0 where
  pub case_id : ℕ
  pub item_id : ℕ
  pub url_hash : ℕ
  pub first_seen_at : ℕ
  pub last_seen_at : ℕ

-- What the diversity of a MONITOR_ERROR alert names: a source, or the user of the execution.
pub data Cause : Type 0 where
  by_source : (source : Source) → Cause
  by_principal : Cause

abbrev pub same_cause : Cause → Cause → Bool
same_cause (by_source a) (by_source b) = same_source a b
same_cause by_principal by_principal = true
same_cause _ _ = false

-- The tables of monitoring with those of the decisions; `causes` has the cause of each
-- MONITOR_ERROR alert, and `fresh` is the identifier that the next new row draws.
pub record Monitor : Type 0 where
  pub watchlists : List Watchlist
  pub items : List Item
  pub runs : List Run
  pub hits : List Hit
  pub seen : List SeenUrl
  pub causes : List (ℕ × Cause)
  pub store : Store
  pub fresh : ℕ

pub record Settings : Type 0 where
  pub monitor_interval_override : ℕ
  pub demo_mode : Bool

-- `effective_interval`: an override of zero counts as none.
abbrev pub effective_interval : ℕ → Settings → ℕ
effective_interval interval settings =
    if settings.monitor_interval_override == 0
    then (if settings.demo_mode then 120 else interval)
    else settings.monitor_interval_override

-- `timedelta(seconds=n)` in microseconds
abbrev pub seconds : ℕ → ℕ
seconds n = n * 1000000

-- `now.replace(hour=0, minute=0, second=0, microsecond=0)`
abbrev pub day_start : ℕ → ℕ
day_start now = now - now % 86400000000

abbrev pub item_at : ℕ → ℕ → Item → Bool
item_at case_id id i = i.case_id == case_id && i.id == id

abbrev pub run_at : ℕ → ℕ → Run → Bool
run_at case_id id r = r.case_id == case_id && r.id == id

abbrev pub is_running : RunStatus → Bool
is_running running = true
is_running _ = false

-- `audit.record`
abbrev pub note : String → ℕ → ℕ → Monitor → Monitor
note action case_id target_id m = record m {
  store = record (m.store) {
    audit = record_entry action (some case_id) (some target_id) m.store.audit;
  };
}
