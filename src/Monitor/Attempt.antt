-- ===== src/Monitor/Attempt.antt =====
-- monitor/runner.py `_run_item` and `run_item`: an attempt is recorded before the sources are asked, and
-- its outcome is published in one transaction, or its failure or its cancellation is recorded.
use darknetra.Prelude.{
  ◌+◌, ◌-◌, max, List, [], ◌∷◌, ◌++◌, Bool, true, false, not, ◌&&◌, ◌||◌, ◌==◌, leb, Option, none,
  some, find, keep, all, any, update_if, if◌then◌else◌, Text, text_eq, Error, rate_limited,
  conflict, not_found, Result, ok, err, raise_if, or_raise, ◌>>=◌, ◌>>◌, map, dedupe, internal,
}
use darknetra.Records.{Actor, is_open}
use darknetra.Authz.Access.{case_of}
use darknetra.Monitor.Sources.{Source, same_source}
use darknetra.Monitor.Rows.{
  Monitor, Watchlist, Item, Run, Hit, RunStatus, running, done, partial, rate_limit, failed,
  SourceStatus, collected, Interruption, run_failed, effective_interval, seconds, item_at, run_at,
  note,
}
use darknetra.Monitor.Recovery.{persist_interruption}
use darknetra.Monitor.Principal.{require_execution_actor}
use darknetra.Monitor.Publish.{
  Outcome, Call, Publication, collect_source, is_rate_limited, publish_sources,
}

-- The item with its list and its case, all active.
abbrev pub active_item : Call → Monitor → Result Item
active_item c m = do
  i ← or_raise (find (item_at c.case_id c.item_id) m.items) not_found
  k ← or_raise (case_of m.store.dir c.case_id) not_found
  w ←
      or_raise
        (find (λ (w : Watchlist). w.case_id == c.case_id && w.id == i.watchlist_id) m.watchlists)
        internal
  raise_if (not i.active || not w.active || not (is_open k.status)) conflict
  ok i

abbrev pub new_run : Call → Run
new_run c = record {
  id = c.run_id;
  case_id = c.case_id;
  item_id = c.item_id;
  status = running;
  started_at = c.now;
  finished_at = none;
  manual = c.manual;
  sources_run = [];
  new_hits = 0;
  errors = [];
  interruption = none;
  principal_denied = false;
}

-- What stands before the sources are asked: the attempt is committed. `locked` says whether the lock
-- of the item was taken.
unfoldable pub begin_attempt : Call → Bool → Actor → Monitor → Result (Item × Actor × Monitor)
begin_attempt c locked actor m = do
  raise_if (not locked) rate_limited
  i ← active_item c m
  current ← require_execution_actor c.now m.store.dir c.case_id actor
  ok (
    i,
    current,
    note "monitor.started" c.case_id c.item_id (record m { runs = m.runs ++ (new_run c ∷ []) }),
  )

-- The configuration that must not change while the sources are asked.
abbrev pub texts_eq : List Text → List Text → Bool
texts_eq [] [] = true
texts_eq (s ∷ ss) (t ∷ ts) = text_eq s t && texts_eq ss ts
texts_eq _ _ = false

abbrev pub sources_eq : List Source → List Source → Bool
sources_eq [] [] = true
sources_eq (s ∷ ss) (t ∷ ts) = same_source s t && sources_eq ss ts
sources_eq _ _ = false

abbrev pub same_config : Item → Item → Bool
same_config i j =
    text_eq i.value_norm j.value_norm
    && texts_eq i.variants j.variants
    && sources_eq i.sources j.sources

-- The hits of the last 24 hours, and the families of their sources.
abbrev pub recent_hits : Call → Monitor → List Hit
recent_hits c m =
    keep (λ h. h.case_id == c.case_id && h.item_id == c.item_id && leb (c.now - 86400000000) h.at)
      m.hits

abbrev pub start_publication : Call → Item → Monitor → Monitor → Publication
start_publication c i before m = record {
  tables = m;
  sources = [];
  errors = [];
  failure_counts = i.failure_counts;
  backoff = i.source_backoff;
  retry_after = 0;
  families = dedupe (map Hit.family (recent_hits c before));
  recent = recent_hits c before;
  new_hits = 0;
}

abbrev pub no_errors : List (Source × Error) → Bool
no_errors [] = true
no_errors _ = false

abbrev pub is_collected : SourceStatus → Bool
is_collected collected = true
is_collected _ = false

abbrev pub successful : Publication → Bool
successful p = any (λ s. is_collected s.1) p.sources

abbrev pub final_status : Publication → RunStatus
final_status p =
    if no_errors p.errors
    then done
    else if successful p
    then partial
    else if all (λ e. is_rate_limited e.1) p.errors
    then rate_limit
    else failed

abbrev pub finished_run : Call → Publication → Run → Run
finished_run c p r = record r {
  status = final_status p;
  finished_at = some c.finished;
  sources_run = p.sources;
  new_hits = p.new_hits;
  errors = p.errors;
}

abbrev pub finished_item : Call → Publication → Item → Item
finished_item c p i = record i {
  failure_counts = p.failure_counts;
  source_backoff = p.backoff;
  last_run_id = some c.run_id;
  last_status = some (final_status p);
  suspended = false;
  interruption = none;
  last_run_at = some c.finished;
  next_run_at = some (
      c.finished
      + seconds (
          max (if successful p then 0 else p.retry_after)
            (effective_interval i.interval_seconds c.settings)));
}

-- The end of a publication.
abbrev pub finish : Call → Publication → Monitor
finish c p = note "monitor.run" c.case_id c.item_id (record (p.tables) {
  runs = update_if (run_at c.case_id c.run_id) (finished_run c p) p.tables.runs;
  items = update_if (item_at c.case_id c.item_id) (finished_item c p) p.tables.items;
})

-- The publication, on the tables as they stand when the sources have answered.
unfoldable pub publish :
    Call → Item → Actor → (Source → Outcome) → Monitor → Monitor → Result Monitor
publish c i actor adapter before m = do
  j ← active_item c m
  raise_if (not (same_config i j)) conflict
  current ← require_execution_actor c.finished m.store.dir c.case_id actor
  p ← publish_sources c j (collect_source c i adapter) i.sources (start_publication c i before m)
  ok (finish c p)

-- Where a cancellation reaches an attempt: before it is committed, at a wait between that and the end of
-- the publication, or when the publication is committed.
pub data Cancellation : Type 0 where
  never before_start while_asked after_commit : Cancellation

-- The exception that `run_item` passes on.
pub data Stop : Type 0 where
  raised : (error : Error) → Stop
  cancelled : Stop

-- `_run_item` returns, or it is stopped and its transaction is rolled back to the tables that are given.
pub data Ending : Type 0 where
  returned : (after : Monitor) → Ending
  stopped : (stop : Stop) (left : Monitor) → Ending

abbrev pub interruption_of : Stop → Interruption
interruption_of (raised e) = run_failed
interruption_of cancelled = Interruption.cancelled

-- The handler of `run_item`: whatever stops the attempt is recorded with its reason and passed on.
abbrev pub conclude : Call → Bool → Ending → Option Stop × Monitor
conclude c free (returned after) = (none, after)
conclude c free (stopped stop left) = (
  some stop,
  persist_interruption c.settings c.finished free c.case_id c.run_id (interruption_of stop) left,
)

-- How the publication ends on the tables that the sources left.
abbrev pub ending : Cancellation → Monitor → Result Monitor → Ending
ending while_asked asked r = stopped cancelled asked
ending after_commit asked (ok after) = stopped cancelled after
ending _ asked (ok after) = returned after
ending _ asked (err e) = stopped (raised e) asked

-- What follows the start of an attempt.
abbrev pub proceed :
    Call
    → Cancellation
    → (Monitor → Monitor)
    → Bool
    → (Source → Outcome)
    → Monitor
    → Result (Item × Actor × Monitor)
    → Option Stop × Monitor
proceed c cut during free adapter m (err e) = conclude c free (stopped (raised e) m)
proceed c cut during free adapter m (ok begun) =
    let asked = during begun.2 in
    conclude c free (ending cut asked (publish c begun.0 begun.1 adapter begun.2 asked))

abbrev pub is_before_start : Cancellation → Bool
is_before_start before_start = true
is_before_start _ = false

-- `run_item`: whether and where it is cancelled, whether the lock is taken, what other requests and the
-- captures do to the tables while the sources are asked, and whether the interruption can be recorded
-- after the attempt is stopped (the lock is free again, and writing does not fail, which is only logged),
-- are arguments. It returns nothing or the exception.
unfoldable pub run_item :
    Call
    → Cancellation
    → Bool
    → (Monitor → Monitor)
    → Bool
    → Actor
    → (Source → Outcome)
    → Monitor
    → Option Stop × Monitor
run_item c cut locked during free actor adapter m =
    if is_before_start cut
    then conclude c free (stopped cancelled m)
    else proceed c cut during free adapter m (begin_attempt c locked actor m)
