-- ===== src/Alerts.antt =====
-- monitor/alerts.py: raising an alert under the hourly cap, and handling one.
pub mod Cap
pub mod Handling
pub mod Reopened
mod Tests
use darknetra.Prelude.{
  ℕ, String, ◌+◌, ◌-◌, ◌%◌, ◌/◌, List, Option, Result, Bool, Text, codes, none, some, true, false,
  not, ◌&&◌, ◌||◌, ◌==◌, ltb, leb, if◌then◌else◌, keep, find, take, count_if, length, mem, dedupe,
  map, update_if, is_some, is_empty, strip, ◌>>=◌, ◌>>◌, raise_if, or_raise, ◌++◌, ◌∷◌, [],
  not_found, validation, conflict, ok, internal,
}
use darknetra.Records.{Actor, Evidence, Thread, Case}
use darknetra.Audit.{record_entry}
use darknetra.Authz.Access.{case_of}
use darknetra.Cases.{ensure_open}
use darknetra.Decisions.Rows.{
  TargetType, Verdict, Store, Decision, Finding, Alert, AlertKind, AlertStatus,
}
use darknetra.Decisions.Service.{find_alert}
use darknetra.Decisions.Decide.{decide}
use darknetra.Decisions.Findings.{FindingCreate, create_finding}

-- `HOURLY_CAP`
abbrev pub hourly_cap : ℕ
hourly_cap = 20

-- `now.replace(minute=0, second=0, microsecond=0)`, in microseconds
abbrev pub hour_of : ℕ → ℕ
hour_of now = now / 3600000000

abbrev pub hour_start : ℕ → ℕ
hour_start now = now - now % 3600000000

abbrev pub is_overflow : AlertKind → Bool
is_overflow AlertKind.overflow = true
is_overflow _ = false

-- The rows of `evidence_refs`: each identifier must be one of the case.
unfoldable pub evidence_refs : ℕ → List ℕ → List Evidence → Result (List Evidence)
evidence_refs case_id ids rows = do
  let asked = dedupe ids
  let found = keep (λ e. e.case_id == case_id && mem e.id asked) rows
  raise_if (not (length found == length asked)) validation
  ok found

-- The earliest alert of a list, the first of equals.
abbrev pub earliest : List Alert → Option Alert
earliest [] = none
earliest (a ∷ rest) = elim (earliest rest) [
  | none ↦ some a
  | some b ↦ if ltb b.at a.at then some b else some a
]

-- What an alert is raised with.
pub record Signal : Type 0 where
  pub kind : AlertKind
  pub title : Text
  pub summary : Text
  pub evidence_ids : List ℕ
  pub item_id : Option ℕ

abbrev pub overflow_since : ℕ → ℕ → Alert → Bool
overflow_since case_id start a = a.case_id == case_id && is_overflow a.kind && leb start a.at

abbrev pub signal_since : ℕ → ℕ → Alert → Bool
signal_since case_id start a = a.case_id == case_id && leb start a.at && not (is_overflow a.kind)

-- The overflow row with one more signal. `count_text` prints the count in the summary.
abbrev pub attached : (ℕ → Text) → List ℕ → Alert → Alert
attached count_text evidence_ids a =
    let total : ℕ = elim a.overflow_count [ none ↦ 2 | some n ↦ n + 1 ] in
    record a {
      evidence_ids = dedupe (a.evidence_ids ++ evidence_ids);
      overflow_count = some total;
      summary = count_text total;
    }

-- The time of a row is a default of the table: the start of the transaction.
abbrev pub new_alert : ℕ → ℕ → ℕ → AlertKind → Text → Text → List ℕ → Option ℕ → Option ℕ → Alert
new_alert started id case_id kind title summary evidence_ids item_id overflow_count = record {
  id = id;
  case_id = case_id;
  kind = kind;
  title = take 300 title;
  summary = summary;
  evidence_ids = dedupe evidence_ids;
  item_id = item_id;
  overflow_count = overflow_count;
  status = AlertStatus.opened;
  finding_id = none;
  at = started;
  handled_at = none;
  handled_by = none;
  decision_id = none;
}

-- The alert that a signal adds, when the hour holds `total` signals and no overflow row.
abbrev pub fresh_alert : (ℕ → Text) → ℕ → ℕ → ℕ → Signal → ℕ → Alert
fresh_alert count_text started id case_id g total =
    if leb hourly_cap total
    then new_alert started id case_id AlertKind.overflow (codes "Hourly alert overflow")
        (count_text 1) g.evidence_ids none (some 1)
    else new_alert started id case_id g.kind g.title g.summary g.evidence_ids g.item_id none

-- `raise_alert`: the transaction starts at `started`, and `now` is the time that is taken once the case is
-- locked. The identifier `id` of a new row is drawn by the caller, and `count_text` writes the summary
-- of an overflow row.
unfoldable pub raise_alert : (ℕ → Text) → ℕ → ℕ → ℕ → Store → ℕ → Signal → Result (Alert × Store)
raise_alert count_text started now id s case_id g = do
  locked ← or_raise (case_of s.dir case_id) internal
  ensure_open locked
  refs ← evidence_refs case_id g.evidence_ids s.evidence
  let total = count_if (signal_since case_id (hour_start now)) s.alerts
  let overflow = earliest (keep (overflow_since case_id (hour_start now)) s.alerts)
  let row = fresh_alert count_text started id case_id g total
  elim (if leb hourly_cap total then overflow else none) [
    | some kept ↦ ok (
      attached count_text g.evidence_ids kept,
      record s {
        alerts = update_if (λ a. a.id == kept.id) (attached count_text g.evidence_ids) s.alerts;
        audit = record_entry "alert.overflow_attach" (some case_id) (some kept.id) s.audit;
      },
    )
    | none ↦ ok (
      row,
      record s {
        alerts = s.alerts ++ (row ∷ []);
        audit = record_entry "alert.create" (some case_id) (some id) s.audit;
      },
    )
  ]

pub data AlertAction : Type 0 where
  acknowledge dismiss escalate : AlertAction

abbrev pub verdict_of : AlertAction → Verdict
verdict_of dismiss = Verdict.reject
verdict_of _ = Verdict.accept

abbrev pub is_open_alert : AlertStatus → Bool
is_open_alert AlertStatus.opened = true
is_open_alert _ = false

-- The open thread of the case that is oldest, the first of equals.
abbrev pub oldest_thread : List Thread → Option Thread
oldest_thread [] = none
oldest_thread (t ∷ ts) = elim (oldest_thread ts) [
  | none ↦ some t
  | some u ↦ if ltb u.created_at t.created_at then some u else some t
]

abbrev pub case_thread : ℕ → List Thread → Option Thread
case_thread case_id threads =
    oldest_thread (keep (λ t. t.case_id == case_id && t.is_opened) threads)

abbrev pub escalation : Alert → List Evidence → Option Thread → FindingCreate
escalation a refs thread = record {
  title = a.title;
  claim = a.summary;
  kind_hint = some (codes "CANDIDATE");
  evidence_codes = map (λ e. e.code) refs;
  method = codes "monitor-alert-escalation";
  thread_id = elim thread [ none ↦ none | some t ↦ some t.id ];
  source_message_id = none;
  claim_index = none;
}

abbrev pub pinned : ℕ → Thread → Thread
pinned finding_id t = record t {
  pinned_finding_ids = dedupe (t.pinned_finding_ids ++ (finding_id ∷ []));
}

-- The part of `handle` that escalates: a finding is drafted, the alert refers to it, and the oldest
-- open thread pins it.
unfoldable pub escalate_alert :
    ℕ → ℕ → Store → ℕ → Actor → Alert → List Evidence → Result (Finding × Store)
escalate_alert now id s case_id actor a refs = do
  let thread = case_thread case_id s.threads
  drafted ← create_finding now id s case_id actor (escalation a refs thread)
  ok (
    drafted.0,
    record (drafted.1) {
      alerts =
          update_if (λ r. r.case_id == case_id && r.id == a.id)
            (λ r. record r { status = AlertStatus.escalated; finding_id = some drafted.0.id })
            drafted.1.alerts;
      threads = elim thread [
        | none ↦ drafted.1.threads
        | some t ↦ update_if (λ u. u.id == t.id) (pinned drafted.0.id) drafted.1.threads
      ];
    },
  )

abbrev pub action_name : AlertAction → String
action_name acknowledge = "alert.acknowledge"
action_name dismiss = "alert.dismiss"
action_name escalate = "alert.escalate"

abbrev pub is_escalation : AlertAction → Bool
is_escalation escalate = true
is_escalation _ = false

-- What `handle` does after the decision, by the action.
abbrev pub settle :
    AlertAction
    → ℕ
    → ℕ
    → Store
    → ℕ
    → Actor
    → Alert
    → List Evidence
    → Result (Option Finding × Store)
settle escalate now id s case_id actor a refs = do
  drafted ← escalate_alert now id s case_id actor a refs
  ok (some drafted.0, drafted.1)
settle acknowledge now id s case_id actor a refs = ok (none, s)
settle dismiss now id s case_id actor a refs = ok (none, s)

-- `handle`: the decision has the identifier `id`, an escalation's finding `finding_id`.
unfoldable pub handle :
    ℕ
    → ℕ
    → ℕ
    → Store
    → ℕ
    → Actor
    → ℕ
    → AlertAction
    → Text
    → Option ℕ
    → Result (Option Finding × Store)
handle now id finding_id s case_id actor alert_id action rationale expected_version = do
  raise_if (is_empty (strip rationale)) validation
  locked ← or_raise (case_of s.dir case_id) internal
  ensure_open locked
  row ← or_raise (find_alert case_id alert_id s) not_found
  raise_if
      (not (is_open_alert row.status)
        || elim expected_version [ none ↦ false | some v ↦ not (v == 1) ])
      conflict
  refs ← evidence_refs case_id row.evidence_ids s.evidence
  raise_if (is_escalation action && length refs == 0) conflict
  decided ← decide now id s case_id actor (record {
    type = TargetType.alert;
    target_id = alert_id;
    verdict = verdict_of action;
    rationale = rationale;
    supersede = false;
    target_version = some 1;
  })
  result ← settle action now finding_id decided.1 case_id actor row refs
  ok (
    result.0,
    record (result.1) {
      audit = record_entry (action_name action) (some case_id) (some alert_id) result.1.audit;
    },
  )
