-- ===== src/Alerts/Tests.antt =====
-- The theorems of alerts at concrete inputs.
use darknetra.Prelude.{
  ℕ, ◌≡◌, Option, Text, Error, refl, ok, err, none, codes, from_ok, strip, [], ◌∷◌, arith,
}
use darknetra.Samples.{ada_actor}
use darknetra.Authz.Permissions.{permitted}
use darknetra.Cases.{ensure_open}
use darknetra.Decisions.Rows.{Store, Decision, Finding, Alert, AlertKind, TargetType, Verdict}
use darknetra.Decisions.Service.{authorize, latest_decision, target_version}
use darknetra.Decisions.Effects.{apply_decision}
use darknetra.Decisions.Decide.{decide}
use darknetra.Decisions.Findings.{draft_kind, check_source, create_finding}
use darknetra.Decisions.Samples.{desk, bell}
use darknetra.Alerts.{AlertAction, Signal, evidence_refs, raise_alert, escalate_alert, handle}
use darknetra.Alerts.Cap.{IsCapped, raise_alert-IsCapped}
use darknetra.Alerts.Handling.{IsHandled, handle-IsHandled}
use darknetra.Alerts.Reopened.{handle-blocked}

abbrev more_text : ℕ → Text
more_text n = n ∷ codes " more"

abbrev ring : Signal
ring = record {
  kind = AlertKind.signal;
  title = codes "again";
  summary = codes "Seen.";
  evidence_ids = 60 ∷ [];
  item_id = none;
}

abbrev rung : Alert × Store
rung = from_ok (bell, desk) (raise_alert more_text 7200000000 7300000000 91 desk 1 ring)

desk-rings : raise_alert more_text 7200000000 7300000000 91 desk 1 ring ≡ ok (rung.0, rung.1)
unfolding raise_alert ensure_open evidence_refs
desk-rings = refl

desk-IsCapped : IsCapped desk.alerts
desk-IsCapped case_id hour = (ground arith, ground arith)

raise_alert-IsCapped_example : IsCapped rung.1.alerts
raise_alert-IsCapped_example =
    raise_alert-IsCapped more_text 7200000000 7300000000 91 desk 1 ring rung.0 rung.1 refl refl
      desk-IsCapped desk-rings

abbrev rationale : Text
rationale = codes "Confirmed by the exhibit."

abbrev escalated : Option Finding × Store
escalated =
    from_ok (none, desk)
      (handle 7400000000 201 82 desk 1 ada_actor 90 AlertAction.escalate rationale none)

desk-escalates :
    handle 7400000000 201 82 desk 1 ada_actor 90 AlertAction.escalate rationale none
    ≡ ok (escalated.0, escalated.1)
unfolding handle ensure_open evidence_refs decide authorize permitted latest_decision target_version
    apply_decision strip escalate_alert create_finding draft_kind check_source
desk-escalates = refl

handle-IsHandled_example :
    (old new : Alert) × (d : Decision) × IsHandled 7400000000 201 desk 1 90 AlertAction.escalate
      escalated.0 escalated.1 old new d
handle-IsHandled_example =
    handle-IsHandled 7400000000 201 82 desk 1 ada_actor 90 AlertAction.escalate rationale none
      escalated.0 escalated.1 desk-escalates

abbrev deferral : Decision
deferral = record {
  id = 202;
  case_id = 1;
  target_type = TargetType.alert;
  target_id = 90;
  target_version = 1;
  verdict = Verdict.defer;
  decided_by = 7;
  supersedes_id = none;
  at = 30;
}

handle-blocked_example :
    (e : Error) × (handle 7400000000 203 82
        (record desk { decisions = deferral ∷ [] })
        1
        ada_actor
        90
        AlertAction.acknowledge
        rationale
        none
      ≡ err e)
unfolding latest_decision
handle-blocked_example =
    handle-blocked 7400000000 203 82 (record desk { decisions = deferral ∷ [] }) 1 ada_actor 90
      AlertAction.acknowledge rationale none deferral refl
