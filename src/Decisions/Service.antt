-- ===== src/Decisions/Service.antt =====
-- decisions/service.py: who may decide, the latest decision on a target, and the row to decide on.
use darknetra.Prelude.{
  ℕ, List, Option, Result, Bool, none, keep, Text, ◌==◌, not, ◌&&◌, find, length, ◌∷◌, some, any,
  if◌then◌else◌, ◌||◌, true, is_value, ltb, false, [], ◌>>◌, ◌>>=◌, raise_if, or_raise, forbidden,
  not_found, is_some, internal, conflict, ok,
}
use darknetra.Records.{Actor, CaseRole, is_open, is_admin, is_user}
use darknetra.Authz.Permissions.{Permission, permitted}
use darknetra.Authz.Access.{membership_of, role_of, case_of}
use darknetra.Authz.Credentials.{acting_user}
use darknetra.Decisions.Rows.{
  TargetType, Store, Decision, Verdict, LinkCandidate, ActivityCandidate, Finding, Alert, same_type,
  is_final, FindingStatus,
}

-- `_authorize`, as it is always called, for a human.
unfoldable pub authorize : Store → ℕ → Actor → Permission → Result (ℕ × Option CaseRole)
authorize s case_id actor permission = do
  raise_if (not (is_user actor.kind)) forbidden
  user_id ← or_raise (acting_user actor) forbidden
  let membership = membership_of s.dir (some user_id) case_id
  raise_if (not (is_admin actor.global_role) && not (is_some membership)) not_found
  raise_if (not (permitted actor.global_role (role_of membership) permission)) forbidden
  locked ← or_raise (case_of s.dir case_id) not_found
  raise_if (not (is_open locked.status)) conflict
  ok (user_id, role_of membership)

-- The target of a decision: a row of a case, at a version.
pub record Target : Type 0 where
  pub case_id : ℕ
  pub type : TargetType
  pub id : ℕ
  pub version : ℕ

abbrev pub is_about : Target → Decision → Bool
is_about t d =
    d.case_id == t.case_id
    && same_type d.target_type t.type
    && d.target_id == t.id
    && d.target_version == t.version

-- `~exists(...)`: no decision of the case supersedes this one.
abbrev pub is_current : ℕ → List Decision → Decision → Bool
is_current case_id all_decisions d =
    not (any (λ n. n.case_id == case_id && is_value n.supersedes_id d.id) all_decisions)

abbrev pub current_on : Target → List Decision → Decision → Bool
current_on t all_decisions d = is_about t d && is_current t.case_id all_decisions d

-- `order_by(at.desc()).limit(1)`; of equal times the first is taken.
abbrev pub newest : List Decision → Option Decision
newest [] = none
newest (d ∷ ds) = elim (newest ds) [
  | none ↦ some d
  | some e ↦ if ltb d.at e.at then some e else some d
]

-- `latest_decision` at a given version, as this service calls it.
unfoldable pub latest_decision : Target → List Decision → Option Decision
latest_decision t ds = newest (keep (current_on t ds) ds)

-- The row with the highest version, the first of equals.
abbrev pub newest_link : List LinkCandidate → Option LinkCandidate
newest_link [] = none
newest_link (c ∷ cs) = elim (newest_link cs) [
  | none ↦ some c
  | some e ↦ if ltb c.version e.version then some e else some c
]

abbrev pub newest_activity : List ActivityCandidate → Option ActivityCandidate
newest_activity [] = none
newest_activity (c ∷ cs) = elim (newest_activity cs) [
  | none ↦ some c
  | some e ↦ if ltb c.version e.version then some e else some c
]

abbrev pub find_link : ℕ → ℕ → Store → Option LinkCandidate
find_link case_id id s = find (λ r. r.case_id == case_id && r.id == id) s.links

abbrev pub find_activity : ℕ → ℕ → Store → Option ActivityCandidate
find_activity case_id id s = find (λ r. r.case_id == case_id && r.id == id) s.activities

abbrev pub find_finding : ℕ → ℕ → Store → Option Finding
find_finding case_id id s = find (λ r. r.case_id == case_id && r.id == id) s.findings

abbrev pub find_alert : ℕ → ℕ → Store → Option Alert
find_alert case_id id s = find (λ r. r.case_id == case_id && r.id == id) s.alerts

-- `_target`: the version of the row, once it is the row to decide on. A missing version is 1.
unfoldable pub target_version : Store → ℕ → TargetType → ℕ → Result ℕ
target_version s case_id TargetType.link id = do
  target ← or_raise (find_link case_id id s) not_found
  latest ←
      or_raise
        (newest_link (
          keep
            (λ r.
              r.case_id == case_id
              && r.subject_a_id == target.subject_a_id
              && r.subject_b_id == target.subject_b_id)
            s.links))
        internal
  raise_if (not (latest.id == target.id)) conflict
  ok target.version
target_version s case_id TargetType.activity id = do
  target ← or_raise (find_activity case_id id s) not_found
  latest ←
      or_raise
        (newest_activity
          (keep (λ r. r.case_id == case_id && r.evidence_id == target.evidence_id) s.activities))
        internal
  raise_if (not (latest.id == target.id)) conflict
  ok target.version
target_version s case_id TargetType.finding id = do
  target ← or_raise (find_finding case_id id s) not_found
  raise_if (elim target.status [ FindingStatus.superseded ↦ true | _ ↦ false ]) conflict
  ok target.version
target_version s case_id TargetType.alert id = do
  target ← or_raise (find_alert case_id id s) not_found
  ok 1

-- `rationale` after `strip`: empty, too long, or too short for a final decision.
abbrev pub bad_rationale : Verdict → Text → Bool
bad_rationale v r = length r == 0 || ltb 10000 (length r) || (is_final v && ltb (length r) 10)

-- `role in {"LEAD", "OWNER"}`
abbrev pub leads : Option CaseRole → Bool
leads (some CaseRole.lead) = true
leads (some CaseRole.owner) = true
leads _ = false
