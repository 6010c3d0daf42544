-- ===== src/Decisions/Samples.antt =====
-- A small case with evidence, a draft and an alert, for the tests of decisions and alerts.
use darknetra.Prelude.{false, [], ◌∷◌, none, some, true, codes}
use darknetra.Records.{Evidence, EvidenceStatus, Thread}
use darknetra.Samples.{office}
use darknetra.Decisions.Rows.{
  Store, Finding, FindingKind, FindingStatus, Alert, AlertKind, AlertStatus, TargetType, Verdict,
}
use darknetra.Decisions.Decide.{DecisionRequest}
use darknetra.Decisions.Findings.{FindingCreate}

abbrev pub exhibit : Evidence
exhibit = record {
  id = 60;
  case_id = 1;
  code = 4;
  sha256 = 99;
  status = EvidenceStatus.ready;
  captured_at = 5;
}

abbrev pub room : Thread
room = record {
  id = 70;
  case_id = 1;
  is_opened = true;
  created_at = 3;
  pinned_finding_ids = [];
  budget_usd = 20000;
  spent_usd = 0;
  last_message_at = none;
}

abbrev pub note : Finding
note = record {
  id = 80;
  case_id = 1;
  thread_id = none;
  title = codes "wallet";
  claim = codes "The wallet is reused.";
  kind = FindingKind.candidate;
  evidence_ids = 60 ∷ [];
  method = codes "manual";
  status = FindingStatus.draft;
  version = 1;
  supersedes_id = none;
  source_message_id = none;
  claim_index = none;
  decision_id = none;
  created_by = 7;
  at = 10;
}

abbrev pub bell : Alert
bell = record {
  id = 90;
  case_id = 1;
  kind = AlertKind.signal;
  title = codes "new hit";
  summary = codes "A wallet was seen again.";
  evidence_ids = 60 ∷ [];
  item_id = none;
  overflow_count = none;
  status = AlertStatus.opened;
  finding_id = none;
  at = 7200000001;
  handled_at = none;
  handled_by = none;
  decision_id = none;
}

abbrev pub desk : Store
desk = record {
  dir = office;
  audit = [];
  evidence = exhibit ∷ [];
  threads = room ∷ [];
  messages = [];
  links = [];
  activities = [];
  findings = note ∷ [];
  alerts = bell ∷ [];
  edges = [];
  decisions = [];
}

abbrev pub acceptance : DecisionRequest
acceptance = record {
  type = TargetType.finding;
  target_id = 80;
  verdict = Verdict.accept;
  rationale = codes " Both records agree. ";
  supersede = false;
  target_version = some 1;
}

abbrev pub new_note : FindingCreate
new_note = record {
  title = codes "wallet";
  claim = codes "The wallet is new.";
  kind_hint = some (codes "model");
  evidence_codes = 4 ∷ 4 ∷ [];
  method = codes "graph";
  thread_id = some 70;
  source_message_id = none;
  claim_index = none;
}
