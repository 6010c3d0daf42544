-- ===== src/Monitor/Scheduler.antt =====
-- monitor/scheduler.py: `catch_up_times` and the reconciliation of the jobs with the items. The jitter of
-- a job is left out.
use darknetra.Prelude.{
  ℕ, ◌+◌, ◌*◌, List, [], ◌∷◌, ◌++◌, Bool, true, false, not, ◌&&◌, ◌||◌, ◌==◌, ltb, leb, Option,
  none, some, find, any, keep, map, mem, if◌then◌else◌,
}
use darknetra.Records.{is_open}
use darknetra.Authz.Access.{case_of}
use darknetra.Monitor.Rows.{Monitor, Item, Settings, effective_interval, seconds}

pub record Job : Type 0 where
  pub item_id : ℕ
  pub interval : ℕ
  pub next_run : ℕ

-- The version of an item under which its job was made.
pub record Signature : Type 0 where
  pub item_id : ℕ
  pub updated_at : ℕ
  pub interval : ℕ

pub record Schedule : Type 0 where
  pub jobs : List Job
  pub signatures : List Signature

abbrev pub job_of : ℕ → Job → Bool
job_of id j = j.item_id == id

abbrev pub signature_of : ℕ → Signature → Bool
signature_of id g = g.item_id == id

-- The key of the catch-up: the time an item is due, and its identifier.
abbrev pub due_at : ℕ → Item → ℕ
due_at now i = elim i.next_run_at [ none ↦ now | some at ↦ at ]

abbrev pub due_before : ℕ → Item → Item → Bool
due_before now i j =
    ltb (due_at now i) (due_at now j) || (due_at now i == due_at now j && ltb i.id j.id)

abbrev pub insert_due : ℕ → Item → List Item → List Item
insert_due now i [] = i ∷ []
insert_due now i (j ∷ items) =
    let rest = insert_due now i items in if due_before now j i then j ∷ rest else i ∷ j ∷ items

abbrev pub by_due : ℕ → List Item → List Item
by_due now [] = []
by_due now (i ∷ items) = insert_due now i (by_due now items)

-- `{item.id: now + 5 * index seconds for index, item in enumerate(items)}`
abbrev pub spaced : ℕ → ℕ → List Item → List (ℕ × ℕ)
spaced now index [] = []
spaced now index (i ∷ items) = (i.id, now + seconds (5 * index)) ∷ spaced now (index + 1) items

unfoldable pub catch_up_times : List Item → ℕ → List (ℕ × ℕ)
catch_up_times items now = spaced now 0 (by_due now items)

-- The items that are to run: active, in an active list of an open case.
abbrev pub runs_now : Monitor → Item → Bool
runs_now m i =
    i.active
    && any (λ w. w.case_id == i.case_id && w.id == i.watchlist_id && w.active) m.watchlists
    && elim (case_of m.store.dir i.case_id) [ none ↦ false | some c ↦ is_open c.status ]

abbrev pub is_due : ℕ → Item → Bool
is_due now i = elim i.next_run_at [ none ↦ true | some at ↦ leb at now ]

abbrev pub remove_item : ℕ → Schedule → Schedule
remove_item id s = record {
  jobs = keep (λ j. not (job_of id j)) s.jobs;
  signatures = keep (λ g. not (signature_of id g)) s.signatures;
}

abbrev pub signature : Settings → Item → Signature
signature settings i = record {
  item_id = i.id;
  updated_at = i.updated_at;
  interval = effective_interval i.interval_seconds settings;
}

abbrev pub new_job : Settings → ℕ → Item → Option ℕ → Job
new_job settings now i next_run = record {
  item_id = i.id;
  interval = effective_interval i.interval_seconds settings;
  next_run = elim next_run [ some at ↦ at | none ↦ due_at now i ];
}

-- `add_item`, which replaces a job of the item.
abbrev pub add_item : Settings → ℕ → Item → Option ℕ → Schedule → Schedule
add_item settings now i next_run s = record {
  jobs = keep (λ j. not (job_of i.id j)) s.jobs ++ (new_job settings now i next_run ∷ []);
  signatures = keep (λ g. not (signature_of i.id g)) s.signatures ++ (signature settings i ∷ []);
}

abbrev pub same_signature : Signature → Signature → Bool
same_signature a b =
    a.item_id == b.item_id && a.updated_at == b.updated_at && a.interval == b.interval

-- The item has a job, made under its present version.
abbrev pub is_current : Settings → Schedule → Item → Bool
is_current settings s i =
    elim (find (signature_of i.id) s.signatures) [
      | none ↦ false
      | some g ↦ same_signature g (signature settings i)
    ]
    && any (job_of i.id) s.jobs

abbrev pub time_of : ℕ → List (ℕ × ℕ) → Option ℕ
time_of id times = elim (find (λ t. t.0 == id) times) [ none ↦ none | some t ↦ some t.1 ]

-- The loop that removes the jobs of items that are no longer to run.
abbrev pub remove_stale : List Item → List Signature → Schedule → Schedule
remove_stale items [] s = s
remove_stale items (g ∷ signatures) s =
    remove_stale items signatures
      (if mem g.item_id (map Item.id items) then s else remove_item g.item_id s)

-- A pass of the loop that makes the jobs that are missing or out of date, and the loop.
abbrev pub ensure : Settings → ℕ → List (ℕ × ℕ) → Item → Schedule → Schedule
ensure settings now times i s =
    if is_current settings s i then s else add_item settings now i (time_of i.id times) s

abbrev pub add_missing : Settings → ℕ → List (ℕ × ℕ) → List Item → Schedule → Schedule
add_missing settings now times [] s = s
add_missing settings now times (i ∷ items) s =
    add_missing settings now times items (ensure settings now times i s)

unfoldable pub reconcile : Settings → ℕ → Monitor → Schedule → Schedule
unfolding catch_up_times
reconcile settings now m s =
    let items = keep (runs_now m) m.items in
    let times = catch_up_times (keep (is_due now) items) now in
    add_missing settings now times items (remove_stale items s.signatures s)
