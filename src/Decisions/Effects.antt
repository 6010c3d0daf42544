-- ===== src/Decisions/Effects.antt =====
-- decisions/service.py: what a decision changes besides the table of decisions: the status of its
-- target and, for a link, the edges of the graph.
use darknetra.Decisions.Service.{find_link}
use darknetra.Decisions.Rows.{
  TargetType, Verdict, LinkCandidate, Decision, CandidateStatus, AlertStatus, EdgeStatus, EdgeType,
  Finding, Alert, Store, GraphEdge, is_final, is_accept, FindingKind, same_edge_type, FindingStatus,
}
use darknetra.Prelude.{
  ℕ, List, if◌then◌else◌, some, update_if, Bool, none, any, ◌==◌, ◌&&◌, [], ◌++◌, ◌∷◌,
}

abbrev pub candidate_status : Verdict → CandidateStatus
candidate_status Verdict.accept = CandidateStatus.accepted
candidate_status Verdict.reject = CandidateStatus.rejected
candidate_status _ = CandidateStatus.pending

abbrev pub alert_status : Verdict → AlertStatus
alert_status Verdict.accept = AlertStatus.acknowledged
alert_status Verdict.reject = AlertStatus.dismissed
alert_status _ = AlertStatus.opened

abbrev pub edge_status : Verdict → EdgeStatus
edge_status Verdict.accept = EdgeStatus.confirmed
edge_status Verdict.reject = EdgeStatus.rejected
edge_status _ = EdgeStatus.pending

-- The edge of a type between the subjects of a candidate.
abbrev pub is_edge : LinkCandidate → EdgeType → GraphEdge → Bool
is_edge c t e =
    e.case_id == c.case_id
    && e.src_entity_id == c.subject_a_id
    && e.dst_entity_id == c.subject_b_id
    && same_edge_type e.type t

abbrev pub new_edge : ℕ → LinkCandidate → EdgeType → GraphEdge
new_edge now c t = record {
  case_id = c.case_id;
  src_entity_id = c.subject_a_id;
  dst_entity_id = c.subject_b_id;
  type = t;
  status = EdgeStatus.pending;
  candidate_id = none;
  decision_id = none;
  evidence_ids = [];
  candidate_version = none;
  first_seen_at = now;
  last_seen_at = now;
}

-- The edge as the decision leaves it, with the candidate as its provenance.
abbrev pub stamped : ℕ → LinkCandidate → Decision → EdgeStatus → GraphEdge → GraphEdge
stamped now c d status e = record e {
  status = status;
  candidate_id = some c.id;
  decision_id = some d.id;
  evidence_ids = c.evidence_ids;
  candidate_version = some c.version;
  last_seen_at = now;
}

-- Adds the edge if there is none, and rewrites it.
abbrev pub put_edge :
    ℕ → LinkCandidate → EdgeType → (GraphEdge → GraphEdge) → List GraphEdge → List GraphEdge
put_edge now c t f edges =
    if any (is_edge c t) edges
    then update_if (is_edge c t) f edges
    else edges ++ (f (new_edge now c t) ∷ [])

-- `_link_effects`
unfoldable pub link_effects : ℕ → LinkCandidate → Decision → List GraphEdge → List GraphEdge
link_effects now c d edges =
    let edges' =
      put_edge now c EdgeType.possible_same_operator (stamped now c d (edge_status d.verdict))
        edges in
    if is_accept d.verdict
    then put_edge now c EdgeType.analyst_confirmed_related (stamped now c d EdgeStatus.confirmed)
        edges'
    else update_if (is_edge c EdgeType.analyst_confirmed_related)
        (λ e. record e {
          status = EdgeStatus.rejected;
          decision_id = some d.id;
          last_seen_at = now;
        })
        edges'

-- The changes of the target, by its type.
abbrev pub decided_link : Decision → LinkCandidate → LinkCandidate
decided_link d r = record r {
  status = candidate_status d.verdict;
  deferred_at = if is_final d.verdict then r.deferred_at else some d.at;
}

abbrev pub decided_finding : Decision → Finding → Finding
decided_finding d r = record r {
  decision_id = some d.id;
  kind = if is_accept d.verdict then FindingKind.confirmed else FindingKind.candidate;
  status = if is_accept d.verdict then r.status else FindingStatus.draft;
}

abbrev pub decided_alert : Decision → Alert → Alert
decided_alert d r = record r {
  status = alert_status d.verdict;
  decision_id = some d.id;
  handled_at = if is_final d.verdict then some d.at else none;
  handled_by = if is_final d.verdict then some d.decided_by else none;
}

unfoldable pub apply_decision : Decision → TargetType → Store → Store
apply_decision d TargetType.link s = record s {
  links = update_if (λ r. r.case_id == d.case_id && r.id == d.target_id) (decided_link d) s.links;
  edges = elim (find_link d.case_id d.target_id s) [
    | none ↦ s.edges
    | some c ↦ link_effects d.at c d s.edges
  ];
}
apply_decision d TargetType.activity s = record s {
  activities =
      update_if (λ r. r.case_id == d.case_id && r.id == d.target_id)
        (λ r. record r { status = candidate_status d.verdict }) s.activities;
}
apply_decision d TargetType.finding s = record s {
  findings =
      update_if (λ r. r.case_id == d.case_id && r.id == d.target_id) (decided_finding d) s.findings;
}
apply_decision d TargetType.alert s = record s {
  alerts =
      update_if (λ r. r.case_id == d.case_id && r.id == d.target_id) (decided_alert d) s.alerts;
}
