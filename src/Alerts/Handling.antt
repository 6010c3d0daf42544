-- ===== src/Alerts/Handling.antt =====
-- monitor/alerts.py `handle`: the alert, the decision and the finding after it.
use darknetra.Decisions.Decide.{DecisionRequest}
use darknetra.Decisions.Effects.{apply_decision, decided_alert, alert_status}
use darknetra.Prelude.{
  [], ap, subst, some, ℕ, Option, Text, Bool, ◌==◌, ◌&&◌, ◌≡◌, ok, update_if, ◌++◌, ◌∷◌, [], arith,
  Result-cases, inr, inl, Option-cases, List, codes, true, is_some, false, refl, find-some,
  find-update_if, ◌∙◌,
}
use darknetra.Records.{Actor, Evidence}
use darknetra.Decisions.Rows.{Store, Alert, AlertStatus, Finding, Decision, TargetType, Verdict}
use darknetra.Decisions.Service.{find_alert}
use darknetra.Decisions.Findings.{draft_kind, create_finding}
use darknetra.Decisions.Drafting.{create_finding-IsDraft}
use darknetra.Alerts.{
  escalation, case_thread, escalate_alert, settle, is_open_alert, verdict_of, evidence_refs,
  is_escalation,
}
use darknetra.Decisions.Review.{decide-IsDecided}
use darknetra.Alerts.{AlertAction, handle, decide, record_entry}

abbrev pub is_alert : ℕ → ℕ → Alert → Bool
is_alert case_id id r = r.case_id == case_id && r.id == id

-- A decision on an alert rewrites the rows of that alert and no others.
decide-alerts :
    (now id : ℕ) (s : Store) (case_id : ℕ) (actor : Actor) (r : DecisionRequest) (row : Decision)
    (s' : Store)
    → r.type ≡ TargetType.alert
    → decide now id s case_id actor r ≡ ok (row, s')
    → (s'.alerts ≡ update_if (is_alert case_id r.target_id) (decided_alert row) s.alerts)
      × (row.verdict ≡ r.verdict)
      × (row.id ≡ id)
      × (s'.decisions ≡ s.decisions ++ (row ∷ []))
unfolding apply_decision
decide-alerts now id s case_id actor r row s' on_alert h =
    let (user_id, role, version, d) = decide-IsDecided now id s case_id actor r row s' h in
    let before = record s {
      decisions = s.decisions ++ (row ∷ []);
      audit = record_entry "decision" (some case_id) (some id) s.audit;
    } in
    let after : s' ≡ apply_decision row TargetType.alert before =
      subst (λ t. s' ≡ apply_decision row t before) on_alert d.applied in
    let rows : s'.alerts
        ≡ update_if (is_alert row.case_id row.target_id) (decided_alert row) s.alerts =
      ap (λ x. x.alerts) after in
    let same_case : row.case_id ≡ case_id = ground (arith, d.row_eq) in
    let same_row : row.target_id ≡ r.target_id = ground (arith, d.row_eq) in
    (
      subst (λ c. s'.alerts ≡ update_if (is_alert c r.target_id) (decided_alert row) s.alerts)
          same_case
          (subst (λ i. s'.alerts ≡ update_if (is_alert row.case_id i) (decided_alert row) s.alerts)
            same_row rows),
      ground (arith, d.row_eq),
      ground (arith, d.row_eq),
      d.appended,
    )

-- A drafted finding leaves the alerts and the decisions as they are.
escalate_alert-alerts :
    (now id : ℕ) (s : Store) (case_id : ℕ) (actor : Actor) (a : Alert) (refs : List Evidence)
    (f : Finding) (s' : Store)
    → escalate_alert now id s case_id actor a refs ≡ ok (f, s')
    → (s'.alerts
        ≡ update_if
            (is_alert case_id a.id)
            (λ r. record r { status = AlertStatus.escalated; finding_id = some f.id })
            s.alerts)
      × (s'.decisions ≡ s.decisions)
      × (s'.findings ≡ s.findings ++ (f ∷ []))
      × (some f.kind ≡ draft_kind (some (codes "CANDIDATE")))
unfolding escalate_alert
escalate_alert-alerts now id s case_id actor a refs f s' h =
    let data_of = escalation a refs (case_thread case_id s.threads) in
    elim (Result-cases (create_finding now id s case_id actor data_of)) [
      | inr (e, refused) ↦ absurd (ground arith)
      | inl ((g, s''), drafted) ↦
          let (user_id, role, d) =
            create_finding-IsDraft now id s case_id actor data_of g s'' drafted in
          let same : f ≡ g = ground arith in
          let table : s''.alerts ≡ s.alerts = ap (λ x. x.alerts) d.added in
          let kept : s''.decisions ≡ s.decisions = ap (λ x. x.decisions) d.added in
          let more : s''.findings ≡ s.findings ++ (g ∷ []) = ap (λ x. x.findings) d.added in
          (ground arith, ground arith, ground arith, ground (arith, d.hinted))
    ]

-- The status in which an action leaves the alert.
abbrev pub handled_status : AlertAction → AlertStatus
handled_status AlertAction.acknowledge = AlertStatus.acknowledged
handled_status AlertAction.dismiss = AlertStatus.dismissed
handled_status AlertAction.escalate = AlertStatus.escalated

-- What `settle` leaves of an alert that was decided.
settle-Settled :
    (action : AlertAction) (now id : ℕ) (s : Store) (case_id : ℕ) (actor : Actor) (a : Alert)
    (refs : List Evidence) (f : Option Finding) (s' : Store) (r : Alert)
    → settle action now id s case_id actor a refs ≡ ok (f, s')
    → r.status ≡ alert_status (verdict_of action)
    → (r.case_id ≡ case_id) × (r.id ≡ a.id)
    → find_alert case_id a.id s ≡ some r
    → (s'.decisions ≡ s.decisions)
      × ((r' : Alert) × (find_alert case_id a.id s' ≡ some r')
          × (r'.status ≡ handled_status action)
          × (r'.decision_id ≡ r.decision_id)
          × (is_some f ≡ is_escalation action))
settle-Settled AlertAction.acknowledge now id s case_id actor a refs f s' r h k own found =
    (ground arith, (r, ground arith, k, refl, ground arith))
settle-Settled AlertAction.dismiss now id s case_id actor a refs f s' r h k own found =
    (ground arith, (r, ground arith, k, refl, ground arith))
settle-Settled AlertAction.escalate now id s case_id actor a refs f s' r h k own found =
    elim (Result-cases (escalate_alert now id s case_id actor a refs)) [
      | inr (e, refused) ↦ absurd (ground arith)
      | inl ((g, s''), drafted) ↦
          let e = escalate_alert-alerts now id s case_id actor a refs g s'' drafted in
          let change : Alert → Alert =
            λ x. record x { status = AlertStatus.escalated; finding_id = some g.id } in
          let kept =
            find-update_if (is_alert case_id a.id) change s.alerts r found (ground arith) in
          let same : s' ≡ s'' = ground arith in
          (ground arith, (change r, ground (arith, e.0, kept), refl, refl, ground arith))
    ]

-- A dismissal rejects the alert, and everything else accepts it.
abbrev pub expected_verdict : AlertAction → Verdict
expected_verdict AlertAction.dismiss = Verdict.reject
expected_verdict AlertAction.acknowledge = Verdict.accept
expected_verdict AlertAction.escalate = Verdict.accept

verdict_of-expected : (action : AlertAction) → verdict_of action ≡ expected_verdict action
verdict_of-expected AlertAction.dismiss = refl
verdict_of-expected AlertAction.acknowledge = refl
verdict_of-expected AlertAction.escalate = refl

-- What is known after an alert has been handled.
pub record IsHandled (now id : ℕ) (s : Store) (case_id alert_id : ℕ) (action : AlertAction)
    (f : Option Finding) (s' : Store) (old new : Alert) (d : Decision) : Type 0 where
  pub was : find_alert case_id alert_id s ≡ some old
  pub was_open : old.status ≡ AlertStatus.opened
  pub decided : s'.decisions ≡ s.decisions ++ (d ∷ [])
  pub verdict : d.verdict ≡ expected_verdict action
  pub stored : find_alert case_id alert_id s' ≡ some new
  pub status : new.status ≡ handled_status action
  pub decision : new.decision_id ≡ some id
  pub finding : is_some f ≡ is_escalation action

opened_eq : (t : AlertStatus) → is_open_alert t ≡ true → t ≡ AlertStatus.opened
opened_eq AlertStatus.opened h = refl
opened_eq AlertStatus.acknowledged h = cc
opened_eq AlertStatus.dismissed h = cc
opened_eq AlertStatus.escalated h = cc

-- Handling an alert succeeds only while it is open. It adds one decision with the verdict of the
-- action, stores the alert with the status of the action and that decision, and returns a finding
-- exactly when it escalates.
pub handle-IsHandled :
    (now id finding_id : ℕ) (s : Store) (case_id : ℕ) (actor : Actor) (alert_id : ℕ)
    (action : AlertAction) (rationale : Text) (expected : Option ℕ) (f : Option Finding)
    (s' : Store)
    → handle now id finding_id s case_id actor alert_id action rationale expected ≡ ok (f, s')
    → (old : Alert) × (new : Alert) × (d : Decision) × IsHandled now id s case_id alert_id action f
        s' old new d
unfolding handle
handle-IsHandled now id finding_id s case_id actor alert_id action rationale expected f s' h =
    elim (Option-cases (find_alert case_id alert_id s)) [
      | inl absent ↦ absurd (ground arith)
      | inr (old, found) ↦ elim (Result-cases (evidence_refs case_id old.evidence_ids s.evidence)) [
        | inr (e, missing) ↦ absurd (ground arith)
        | inl (refs, there) ↦
            let req : DecisionRequest = record {
              type = TargetType.alert;
              target_id = alert_id;
              verdict = verdict_of action;
              rationale = rationale;
              supersede = false;
              target_version = some 1;
            } in
            elim (Result-cases (decide now id s case_id actor req)) [
              | inr (e, refused) ↦ absurd (ground arith)
              | inl ((d, s1), decided) ↦
                  elim (Result-cases (settle action now finding_id s1 case_id actor old refs)) [
                    | inr (e, refused) ↦ absurd (ground arith)
                    | inl ((g, s2), settled) ↦
                        let here = find-some (is_alert case_id alert_id) s.alerts old found in
                        let (table, verdict, ident, rows) =
                          decide-alerts now id s case_id actor req d s1 refl decided in
                        let same : old.id ≡ alert_id = ground arith in
                        let stored =
                          find-update_if (is_alert case_id alert_id) (decided_alert d) s.alerts old
                            found here.0 in
                        let (decisions, (r', found', status, decision, finding)) =
                          settle-Settled action now finding_id s1 case_id actor old refs g s2
                            (decided_alert d old) settled (ground arith) (ground arith)
                            (ground arith) in
                        (
                          old,
                          r',
                          d,
                          record {
                            was = found;
                            was_open = opened_eq old.status (ground arith);
                            decided = ground arith;
                            verdict = verdict ∙ verdict_of-expected action;
                            stored = ground arith;
                            status = status;
                            decision = ground arith;
                            finding = ground arith;
                          },
                        )
                  ]
            ]
      ]
    ]
