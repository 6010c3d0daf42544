-- ===== src/Monitor/Tests.antt =====
-- The monitoring of one item at concrete inputs.
use darknetra.Prelude.{
  ℕ, ◌≡◌, refl, [], ◌∷◌, none, true, false, ok, from_ok, codes, ◌⊎◌, length, ◌+◌, AreApart, All,
  keep, internal, arith,
}
use darknetra.Authz.Permissions.{permitted}
use darknetra.Authz.Access.{visible_case}
use darknetra.Authz.Credentials.{refresh_actor, refresh_session}
use darknetra.Alerts.{raise_alert}
use darknetra.Monitor.Principal.{require_execution_actor, report}
use darknetra.Monitor.Triage.{score}
use darknetra.Samples.{ada_actor}
use darknetra.Policy.Engine.{SourceClass}
use darknetra.Decisions.Samples.{desk}
use darknetra.Monitor.Sources.{Source, ItemKind, Grants, sources_for}
use darknetra.Monitor.Asked.{IsAsked, sources_for-IsAsked}
use darknetra.Monitor.Rows.{Monitor, Item, Settings, run_at}
use darknetra.Monitor.Publish.{
  Call, Found, Outcome, hits, failure, Publication, failed_source, collect_source,
}
use darknetra.Monitor.Attempt.{begin_attempt, publish}
use darknetra.Monitor.Fresh.{same_hit, publish-hits}
use darknetra.Monitor.Backoff.{failed_source-backoff}
use darknetra.Monitor.Scheduler.{Schedule, reconcile, runs_now}
use darknetra.Monitor.Reconciled.{Matches, reconcile-Matches}

abbrev surface : Grants
surface = record {
  allowed_source_classes = SourceClass.osint_surface ∷ SourceClass.osint_dark ∷ [];
  tor_enabled = false;
  telegram_enabled = false;
  person_lookup_enabled = false;
  offline_mode = false;
  demo = false;
}

abbrev settings : Settings
settings = record { monitor_interval_override = 0; demo_mode = false }

abbrev watched : Item
watched = record {
  id = 70;
  case_id = 1;
  watchlist_id = 60;
  kind = ItemKind.keyword;
  value_norm = codes "amber";
  variants = [];
  sources = Source.web_search ∷ Source.onion_search ∷ [];
  interval_seconds = 3600;
  active = true;
  failure_counts = λ s. 0;
  source_backoff = λ s. none;
  last_run_id = none;
  last_status = none;
  suspended = false;
  interruption = none;
  last_run_at = none;
  next_run_at = none;
  created_by = 7;
  updated_at = 5;
}

abbrev tables : Monitor
tables = record {
  watchlists = record { id = 60; case_id = 1; active = true } ∷ [];
  items = watched ∷ [];
  runs = [];
  hits = [];
  seen = [];
  causes = [];
  store = desk;
  fresh = 900;
}

abbrev call : Call
call = record {
  case_id = 1;
  item_id = 70;
  run_id = 80;
  manual = false;
  settings = settings;
  grants = surface;
  grants_after = surface;
  count_text = λ n. [];
  started = 190;
  now = 200;
  finished = 210;
}

abbrev page : ℕ → Found
page content_hash = record {
  evidence_id = 0;
  evidence_code = codes "EV-2026-000001";
  source_class = SourceClass.osint_surface;
  url_hash = 31;
  content_hash = content_hash;
  family = 3;
  matched = 0;
  news = false;
  image_distance = none;
}

-- One source gives two pages of the same content and another, and one source fails.
abbrev adapter : Source → Outcome
adapter Source.web_search = hits (page 41 ∷ page 41 ∷ page 42 ∷ [])
adapter _ = failure internal 0 false

abbrev begun : Monitor
begun = (from_ok (watched, ada_actor, tables) (begin_attempt call true ada_actor tables)).2

abbrev published : Monitor
published = from_ok tables (publish call watched ada_actor adapter begun begun)

tables-publish : publish call watched ada_actor adapter begun begun ≡ ok published
unfolding begin_attempt publish require_execution_actor refresh_actor refresh_session visible_case
    permitted sources_for score report raise_alert
tables-publish = refl

adds_two : length published.hits ≡ 2
unfolding begin_attempt publish require_execution_actor refresh_actor refresh_session visible_case
    permitted sources_for score report raise_alert
adds_two = refl

publish-hits_example :
    AreApart same_hit published.hits
    × All (λ r. (run_at 1 80 r ≡ false) ⊎ (0 + r.new_hits ≡ length published.hits)) published.runs
unfolding begin_attempt require_execution_actor refresh_actor refresh_session visible_case permitted
publish-hits_example =
    publish-hits call watched ada_actor adapter begun begun published tables-publish tt

-- Another request switches the item off while the sources are asked.
abbrev meanwhile : Monitor → Monitor
meanwhile m = record m { items = [] }

surface-sources_for :
    sources_for ItemKind.keyword (Source.web_search ∷ Source.web_search ∷ []) surface
    ≡ ok (Source.web_search ∷ [])
unfolding sources_for
surface-sources_for = refl

sources_for-IsAsked_example :
    IsAsked ItemKind.keyword
      (Source.web_search ∷ Source.web_search ∷ [])
      surface
      (Source.web_search ∷ [])
sources_for-IsAsked_example =
    sources_for-IsAsked ItemKind.keyword (Source.web_search ∷ Source.web_search ∷ []) surface
      (Source.web_search ∷ []) surface-sources_for

-- The third failure in a row of a source.
abbrev failing_twice : Publication
failing_twice = record {
  tables = tables;
  sources = [];
  errors = [];
  failure_counts = λ s. 2;
  backoff = λ s. none;
  retry_after = 0;
  families = [];
  recent = [];
  new_hits = 0;
}

abbrev waiting : Item
waiting = record watched {
  source_backoff = (failed_source 200 Source.web_search internal 0 false failing_twice).backoff;
}

-- Two minutes and five minutes after the failure.
abbrev early : Call
early = record call { now = 120000200 }

abbrev late : Call
late = record call { now = 300000200 }

waiting-granted :
    sources_for ItemKind.keyword (Source.web_search ∷ []) surface ≡ ok (Source.web_search ∷ [])
unfolding sources_for
waiting-granted = refl

failed_source-backoff_example :
    ((failed_source 200 Source.web_search internal 0 false failing_twice).failure_counts
        Source.web_search
      ≡ 3)
    × (collect_source early waiting adapter Source.web_search
        ≡ collect_source early waiting (λ s. hits []) Source.web_search)
    × (collect_source late waiting adapter Source.web_search ≡ adapter Source.web_search)
failed_source-backoff_example =
    failed_source-backoff 200 Source.web_search internal 0 false failing_twice early late waiting
      adapter (λ s. hits []) (Source.web_search ∷ []) refl refl (ground arith) (ground arith)
      waiting-granted

-- The item has a job under an older version, and an item that is gone has one.
abbrev before : Schedule
before = record {
  jobs =
      record { item_id = 70; interval = 60; next_run = 0 }
      ∷ record { item_id = 71; interval = 60; next_run = 0 }
      ∷ [];
  signatures =
      record { item_id = 70; updated_at = 4; interval = 60 }
      ∷ record { item_id = 71; updated_at = 4; interval = 60 }
      ∷ [];
}

reconcile-Matches_example :
    Matches settings (keep (runs_now tables) tables.items) (reconcile settings 200 tables before)
reconcile-Matches_example =
    reconcile-Matches settings 200 tables before (refl, tt) (refl, (refl, tt))
