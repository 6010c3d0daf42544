-- ===== src/Alerts/Reopened.antt =====
-- Alerts that a decision has left open: `handle` of monitor/alerts.py with `decide`.
use darknetra.Prelude.{
  ℕ, ◌≡◌, some, err, refl, Text, Option, Error, false, Result-cases, inr, inl, arith, Option-cases,
  subst,
}
use darknetra.Records.{Actor}
use darknetra.Decisions.Rows.{Store, Decision, TargetType}
use darknetra.Decisions.Service.{latest_decision, find_alert}
use darknetra.Decisions.Decide.{DecisionRequest, decide}
use darknetra.Decisions.Gates.{Supersedes}
use darknetra.Decisions.Review.{decide-IsDecided, target_of}
use darknetra.Alerts.{AlertAction, handle, verdict_of, evidence_refs}

decide-once :
    (now id : ℕ) (s : Store) (case_id : ℕ) (actor : Actor) (r : DecisionRequest) (p : Decision)
    → r.supersede ≡ false
    → r.target_version ≡ some 1
    → latest_decision (target_of case_id r 1) s.decisions ≡ some p
    → (e : Error) × (decide now id s case_id actor r ≡ err e)
decide-once now id s case_id actor r p once at_one latest =
    elim (Result-cases (decide now id s case_id actor r)) [
      | inr refused ↦ refused
      | inl ((row, s'), decided) ↦
          let (user_id, role, version, d) =
            decide-IsDecided now id s case_id actor r row s' decided in
          let first : version ≡ 1 = ground (arith, d.expected_version) in
          let named : latest_decision (target_of case_id r version) s.decisions ≡ some p =
            rw first latest in
          let link = subst (Supersedes actor r role row) named d.supersedes in
          absurd (cc (rw once at link.1))
    ]

-- An alert on which a decision stands can not be handled, by anyone and with any action: also not one
-- that a deferring decision has left open.
pub handle-blocked :
    (now id finding_id : ℕ) (s : Store) (case_id : ℕ) (actor : Actor) (alert_id : ℕ)
    (action : AlertAction) (rationale : Text) (expected : Option ℕ) (p : Decision)
    → latest_decision
        (record { case_id = case_id; type = TargetType.alert; id = alert_id; version = 1 })
        s.decisions
      ≡ some p
    → (e : Error) × (handle now id finding_id s case_id actor alert_id action rationale expected
        ≡ err e)
unfolding handle
handle-blocked now id finding_id s case_id actor alert_id action rationale expected p latest =
    let req : DecisionRequest = record {
      type = TargetType.alert;
      target_id = alert_id;
      verdict = verdict_of action;
      rationale = rationale;
      supersede = false;
      target_version = some 1;
    } in
    let (e, refused) = decide-once now id s case_id actor req p refl refl latest in
    elim (Result-cases
      (handle now id finding_id s case_id actor alert_id action rationale expected)) [
        | inr failed ↦ failed
        | inl ((f, s'), h) ↦ elim (Option-cases (find_alert case_id alert_id s)) [
          | inl absent ↦ absurd (ground arith)
          | inr (old, found) ↦
              elim (Result-cases (evidence_refs case_id old.evidence_ids s.evidence)) [
                | inr (e', missing) ↦ absurd (ground arith)
                | inl (refs, there) ↦ absurd (ground arith)
              ]
        ]
      ]
