-- ===== src/Monitor/Principal.antt =====
-- monitor/principal.py: who a run of an item acts for, and the suspension of an item whose user has
-- lost the authority.
use darknetra.Prelude.{
  ℕ, ◌+◌, [], ◌∷◌, ◌++◌, Bool, true, false, not, ◌&&◌, ◌||◌, ◌==◌, leb, Option, none, some, find,
  any, update_if, if◌then◌else◌, Text, codes, Result, ok, err, policy_denied, ◌>>=◌, is_some,
  is_value,
}
use darknetra.Records.{Actor, Directory, User, is_open, is_token}
use darknetra.Authz.Permissions.{permitted, scope_permits, watchlist_manage}
use darknetra.Authz.Access.{case_of, visible_case}
use darknetra.Authz.Credentials.{refresh_actor, user_actor}
use darknetra.Decisions.Rows.{Alert, AlertKind, Store}
use darknetra.Alerts.{raise_alert, is_overflow}
use darknetra.Monitor.Rows.{
  Monitor, Item, Run, failed, Cause, by_principal, same_cause, Settings, effective_interval,
  seconds, day_start, item_at, note,
}

-- `require_execution_actor`: every refusal becomes one of the policy.
unfoldable pub require_execution_actor : ℕ → Directory → ℕ → Actor → Result Actor
require_execution_actor now dir case_id actor = elim (refresh_actor now dir actor) [
  | err e ↦ err policy_denied
  | ok current ↦ elim (visible_case dir current case_id) [
    | err e ↦ err policy_denied
    | ok found ↦
        if not (is_open found.0.status)
          || not (permitted current.global_role found.1 watchlist_manage)
          || (is_token current.kind && not (scope_permits current.scopes watchlist_manage))
        then err policy_denied
        else ok current
  ]
]

-- `user and user.is_active and …`: the user's own authority over the watchlists of the case.
abbrev pub authorised : Directory → ℕ → User → Bool
authorised dir case_id u =
    u.is_active
    && not u.must_change_password
    && elim (visible_case dir (user_actor u none) case_id) [
      | err e ↦ false
      | ok found ↦ permitted (user_actor u none).global_role found.1 watchlist_manage
    ]

-- A MONITOR_ERROR alert of the item with the cause since a time.
abbrev pub already_reported : ℕ → Option ℕ → Cause → ℕ → Monitor → Bool
already_reported case_id item_id cause since m =
    any
      (λ a.
        a.case_id == case_id
        && elim item_id [ none ↦ not (is_some a.item_id) | some i ↦ is_value a.item_id i ]
        && leb since a.at
        && any (λ c. c.0 == a.id && same_cause cause c.1) m.causes)
      m.store.alerts

-- The cause of a new alert; a signal that the overflow row takes has none.
abbrev pub caused : Cause → Alert → Monitor → Monitor
caused cause a m =
    if is_overflow a.kind then m else record m { causes = m.causes ++ ((a.id, cause) ∷ []) }

-- `raise_alert` for a failure.
abbrev pub error_alert :
    (ℕ → Text) → ℕ → ℕ → ℕ → Option ℕ → Text → Text → Monitor → Result (Alert × Store)
error_alert count_text started now case_id item_id title summary m =
    raise_alert count_text started now m.fresh m.store case_id (record {
      kind = AlertKind.signal;
      title = title;
      summary = summary;
      evidence_ids = [];
      item_id = item_id;
    })

-- At most one alert a day for a cause.
unfoldable pub report :
    (ℕ → Text) → ℕ → ℕ → ℕ → Option ℕ → Cause → Text → Text → Monitor → Result Monitor
report count_text started now case_id item_id cause title summary m =
    if already_reported case_id item_id cause (day_start now) m
    then ok m
    else error_alert count_text started now case_id item_id title summary m >>= λ raised.
        ok (caused cause raised.0 (record m { store = raised.1; fresh = m.fresh + 1 }))

abbrev pub denied_run : ℕ → ℕ → ℕ → ℕ → Run
denied_run now id case_id item_id = record {
  id = id;
  case_id = case_id;
  item_id = item_id;
  status = failed;
  started_at = now;
  finished_at = some now;
  manual = false;
  sources_run = [];
  new_hits = 0;
  errors = [];
  interruption = none;
  principal_denied = true;
}

abbrev pub suspended_item : Settings → ℕ → ℕ → Item → Item
suspended_item settings now run_id i = record i {
  last_run_at = some now;
  next_run_at = some (now + seconds (effective_interval i.interval_seconds settings));
  last_run_id = some run_id;
  last_status = some failed;
  suspended = true;
}

-- The record of a denial for an item, or for the case.
abbrev pub suspend : Settings → ℕ → ℕ → Option ℕ → Monitor → Monitor
suspend settings now case_id none m = m
suspend settings now case_id (some item_id) m = record m {
  runs = m.runs ++ (denied_run now m.fresh case_id item_id ∷ []);
  items = update_if (item_at case_id item_id) (suspended_item settings now m.fresh) m.items;
  fresh = m.fresh + 1;
}

abbrev pub may_suspend : ℕ → Option ℕ → Monitor → Bool
may_suspend case_id item_id m =
    elim (case_of m.store.dir case_id) [ none ↦ false | some c ↦ is_open c.status ]
    && elim item_id [
      | none ↦ true
      | some id ↦ elim (find (item_at case_id id) m.items) [ none ↦ false | some i ↦ i.active ]
    ]

-- `execution_actor`: the actor, or `none` with the suspension recorded.
unfoldable pub execution_actor :
    (ℕ → Text) → Settings → ℕ → ℕ → ℕ → ℕ → Option ℕ → Monitor → Result (Option Actor × Monitor)
execution_actor count_text settings started now case_id user_id item_id m =
    let owner : Option Actor = elim (find (λ (u : User). u.id == user_id) m.store.dir.users) [
      | none ↦ none
      | some u ↦ if authorised m.store.dir case_id u then some (user_actor u none) else none
    ] in
    let target : ℕ = elim item_id [ none ↦ case_id | some id ↦ id ] in
    elim owner [
      | some actor ↦ ok (some actor, m)
      | none ↦
          if may_suspend case_id item_id m
          then (report count_text started now case_id item_id by_principal
                (codes "Monitoring authority requires attention")
                (codes "Monitoring execution user is no longer authorised")
                (suspend settings now case_id item_id m)
              >>= λ t. ok (none, note "monitor.suspended" case_id target t))
          else ok (none, m)
    ]
