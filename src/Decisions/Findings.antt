-- ===== src/Decisions/Findings.antt =====
-- decisions/service.py: `get_finding`, `create_finding`, `promote` and `supersede_finding`.
use darknetra.Prelude.{
  ℕ, List, Option, Result, Bool, Text, codes, text_eq, ◌+◌, ◌-◌, none, some, true, false, not, ◌&&◌,
  ◌||◌, ◌==◌, ltb, if◌then◌else◌, keep, find, length, mem, subset, dedupe, sorted, map, update_if,
  get_elem?, is_some, is_value, is_empty, strip, ◌>>=◌, ◌>>◌, raise_if, or_raise, ◌++◌, ◌∷◌, [],
  not_found, validation, conflict, ok,
}
use darknetra.Records.{Actor, Evidence, Thread, is_citable}
use darknetra.Audit.{record_entry}
use darknetra.Authz.Permissions.{Permission}
use darknetra.Decisions.Rows.{
  TargetType, Store, Decision, Finding, FindingKind, FindingStatus, Message, MessageClaim,
  is_accept,
}
use darknetra.Decisions.Service.{Target, authorize, latest_decision, find_finding}

-- `FindingCreate`. A code `E-<number>` is its number.
pub record FindingCreate : Type 0 where
  pub title : Text
  pub claim : Text
  pub kind_hint : Option Text
  pub evidence_codes : List ℕ
  pub method : Text
  pub thread_id : Option ℕ
  pub source_message_id : Option ℕ
  pub claim_index : Option ℕ

-- `s.upper()` on ASCII letters
abbrev pub upper : Text → Text
upper [] = []
upper (c ∷ s) = (if ltb 96 c && ltb c 123 then c - 32 else c) ∷ upper s

-- The kinds that a draft may have.
unfoldable pub draft_kind : Option Text → Option FindingKind
draft_kind none = some FindingKind.candidate
draft_kind (some hint) =
    let kind = upper hint in
    if is_empty hint || text_eq kind (codes "CANDIDATE")
    then some FindingKind.candidate
    else if text_eq kind (codes "OBSERVED")
    then some FindingKind.observed
    else if text_eq kind (codes "MODEL")
    then some FindingKind.model
    else none

-- The citable evidence of the case under the codes.
abbrev pub cited : ℕ → List ℕ → List Evidence → List Evidence
cited case_id asked rows =
    keep (λ e. e.case_id == case_id && mem e.code asked && is_citable e.status) rows

-- The thread, where one is named, is one of the case.
abbrev pub thread_is_known : ℕ → Option ℕ → List Thread → Bool
thread_is_known case_id none threads = true
thread_is_known case_id (some id) threads =
    is_some (find (λ t. t.case_id == case_id && t.id == id) threads)

abbrev pub find_message : ℕ → ℕ → List Message → Option Message
find_message case_id id messages = find (λ m. m.case_id == case_id && m.id == id) messages

-- The claim of the source has the text and the citations of the finding.
abbrev pub same_claim : FindingCreate → MessageClaim → Bool
same_claim fields c =
    text_eq c.text fields.claim
    && subset c.evidence_codes fields.evidence_codes
    && subset fields.evidence_codes c.evidence_codes

-- The checks of the source of a finding.
unfoldable pub check_source : ℕ → FindingCreate → List Message → Result (Unit {0})
check_source case_id fields messages = elim fields.source_message_id [
  | none ↦ raise_if (is_some fields.claim_index) validation
  | some id ↦ do
    message ← or_raise (find_message case_id id messages) not_found
    raise_if (is_some fields.thread_id && not (is_value fields.thread_id message.thread_id))
        not_found
    index ← or_raise fields.claim_index validation
    claim ← or_raise (get_elem? message.claims index) validation
    raise_if (not (same_claim fields claim)) validation
]

abbrev pub draft : ℕ → ℕ → ℕ → ℕ → FindingCreate → FindingKind → List Evidence → Finding
draft now id case_id user_id fields kind evidence = record {
  id = id;
  case_id = case_id;
  thread_id = fields.thread_id;
  title = strip fields.title;
  claim = strip fields.claim;
  kind = kind;
  evidence_ids = sorted (map (λ e. e.id) evidence);
  method = strip fields.method;
  status = FindingStatus.draft;
  version = 1;
  supersedes_id = none;
  source_message_id = fields.source_message_id;
  claim_index = fields.claim_index;
  decision_id = none;
  created_by = user_id;
  at = now;
}

-- `create_finding`: the identifier `id` is drawn by the caller.
unfoldable pub create_finding : ℕ → ℕ → Store → ℕ → Actor → FindingCreate → Result (Finding × Store)
create_finding now id s case_id actor fields = do
  who ← authorize s case_id actor Permission.finding_edit
  kind ← or_raise (draft_kind fields.kind_hint) validation
  raise_if
      (is_empty (strip fields.claim)
        || is_empty (strip fields.method)
        || length fields.evidence_codes == 0)
      validation
  let evidence = cited case_id fields.evidence_codes s.evidence
  raise_if (not (length evidence == length (dedupe fields.evidence_codes))) not_found
  raise_if (not (thread_is_known case_id fields.thread_id s.threads)) not_found
  check_source case_id fields s.messages
  let row = draft now id case_id who.0 fields kind evidence
  ok (
    row,
    record s {
      findings = s.findings ++ (row ∷ []);
      audit = record_entry "finding.create" (some case_id) (some id) s.audit;
    },
  )

abbrev pub is_finding : ℕ → ℕ → Finding → Bool
is_finding case_id id r = r.case_id == case_id && r.id == id

abbrev pub is_superseded : FindingStatus → Bool
is_superseded FindingStatus.superseded = true
is_superseded _ = false

-- A finding at its version, as the target of decisions.
abbrev pub finding_target : Finding → Target
finding_target f = record {
  case_id = f.case_id;
  type = TargetType.finding;
  id = f.id;
  version = f.version;
}

abbrev pub promoted_by : Decision → Finding → Finding
promoted_by d f = record f {
  kind = FindingKind.confirmed;
  status = FindingStatus.promoted;
  decision_id = some d.id;
}

unfoldable pub promote : Store → ℕ → Actor → ℕ → ℕ → Result (Finding × Store)
promote s case_id actor finding_id decision_id = do
  who ← authorize s case_id actor Permission.decide
  finding ← or_raise (find_finding case_id finding_id s) not_found
  decision ←
      or_raise
        (latest_decision
          (record {
            case_id = case_id;
            type = TargetType.finding;
            id = finding.id;
            version = finding.version;
          })
          s.decisions)
        conflict
  raise_if (not (decision.id == decision_id) || not (is_accept decision.verdict)) conflict
  raise_if (is_superseded finding.status) conflict
  ok (
    promoted_by decision finding,
    record s {
      findings = update_if (is_finding case_id finding_id) (promoted_by decision) s.findings;
      audit = record_entry "finding.promote" (some case_id) (some finding_id) s.audit;
    },
  )

-- `supersede_finding`: the replacement is created as any finding is, and takes the next version.
unfoldable pub supersede_finding :
    ℕ → ℕ → Store → ℕ → Actor → ℕ → FindingCreate → Result (Finding × Store)
supersede_finding now id s case_id actor finding_id fields = do
  who ← authorize s case_id actor Permission.finding_edit
  original ← or_raise (find_finding case_id finding_id s) not_found
  raise_if (is_superseded original.status) conflict
  created ← create_finding now id s case_id actor fields
  let revise : Finding → Finding =
      λ f. record f { version = original.version + 1; supersedes_id = some original.id }
  let retire : Finding → Finding = λ f. record f { status = FindingStatus.superseded }
  ok (
    revise created.0,
    record (created.1) {
      findings =
          update_if (is_finding case_id finding_id) retire
            (update_if (is_finding case_id id) revise created.1.findings);
      audit = record_entry "finding.supersede" (some case_id) (some id) created.1.audit;
    },
  )
