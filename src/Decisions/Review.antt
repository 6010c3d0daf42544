-- ===== src/Decisions/Review.antt =====
-- decisions/service.py `decide`: its checks and its row.
use darknetra.Prelude.{
  ap, is_some, ◌&&◌, not, ℕ, ◌≡◌, ◌++◌, ◌∷◌, [], Option-cases, Option, ok, refl, strip,
  Result-cases, false, inr, none, arith, ◌⊎◌, inl, some, true,
}
use darknetra.Audit.{record_entry}
use darknetra.Records.{Actor, Case, CaseRole, is_admin}
use darknetra.Authz.Permissions.{Permission}
use darknetra.Decisions.Rows.{TargetType, Decision, Store, same_type}
use darknetra.Decisions.Service.{
  is_about, Target, authorize, latest_decision, target_version, bad_rationale, leads,
}
use darknetra.Decisions.Effects.{apply_decision}
use darknetra.Decisions.Decide.{DecisionRequest, decision_row, decide}
use darknetra.Decisions.Gates.{
  MayDecide, IsReasoned, Supersedes, SaysSo, authorize-MayDecide, reason_of, superseding,
  decision_row-SaysSo,
}
use darknetra.Decisions.Chain.{IsFresh, HasOneCurrent, snoc-HasOneCurrent, latest_decision-snoc}

pub apply_decision-decisions :
    (d : Decision) (t : TargetType) (s : Store) → (apply_decision d t s).decisions ≡ s.decisions
unfolding apply_decision
apply_decision-decisions d TargetType.link s = refl
apply_decision-decisions d TargetType.activity s = refl
apply_decision-decisions d TargetType.finding s = refl
apply_decision-decisions d TargetType.alert s = refl

abbrev pub target_of : ℕ → DecisionRequest → ℕ → Target
target_of case_id r version = record {
  case_id = case_id;
  type = r.type;
  id = r.target_id;
  version = version;
}

-- The checks of `decide` in its own terms.
record IsTaken (now id : ℕ) (s : Store) (case_id : ℕ) (actor : Actor) (r : DecisionRequest)
    (row : Decision) (s' : Store) (user_id : ℕ) (role : Option CaseRole) (version : ℕ)
    : Type 0 where
  authorized : authorize s case_id actor Permission.decide ≡ ok (user_id, role)
  reasoned : bad_rationale r.verdict (strip r.rationale) ≡ false
  on_current_row : target_version s case_id r.type r.target_id ≡ ok version
  expected_version : (r.target_version ≡ none) ⊎ (r.target_version ≡ some version)
  asked :
      (is_some (latest_decision (target_of case_id r version) s.decisions) && not r.supersede)
      ≡ false
  may :
      (is_some (latest_decision (target_of case_id r version) s.decisions)
        && not (is_admin actor.global_role)
        && not (leads role))
      ≡ false
  row_eq :
      row
      ≡ decision_row now id case_id user_id r version
          (latest_decision (target_of case_id r version) s.decisions)
  appended : s'.decisions ≡ s.decisions ++ (row ∷ [])
  applied :
      s'
      ≡ apply_decision row r.type (record s {
        decisions = s.decisions ++ (row ∷ []);
        audit = record_entry "decision" (some case_id) (some id) s.audit;
      })

decide-IsTaken :
    (now id : ℕ) (s : Store) (case_id : ℕ) (actor : Actor) (r : DecisionRequest) (row : Decision)
    (s' : Store)
    → decide now id s case_id actor r ≡ ok (row, s')
    → (user_id : ℕ) × (role : Option CaseRole) × (version : ℕ) × IsTaken now id s case_id actor r
        row s' user_id role version
unfolding decide
decide-IsTaken now id s case_id actor r row s' h =
    elim (Result-cases (authorize s case_id actor Permission.decide)) [
      | inr (e, refused) ↦ absurd (ground arith)
      | inl (who, allowed) ↦ elim (Result-cases (target_version s case_id r.type r.target_id)) [
        | inr (e, refused) ↦ absurd (ground arith)
        | inl (version, current) ↦ (
          who.0,
          who.1,
          version,
          record {
            authorized = ground arith;
            reasoned = ground arith;
            on_current_row = current;
            expected_version = elim (Option-cases r.target_version) [
              | inl anyone ↦ inl anyone
              | inr (v, seen) ↦ inr (ground arith)
            ];
            asked = ground arith;
            may = ground arith;
            row_eq = ground arith;
            appended =
                let left =
                  decision_row now id case_id who.0 r version
                    (latest_decision (target_of case_id r version) s.decisions) in
                let kept = apply_decision-decisions left r.type (record s {
                  decisions = s.decisions ++ (left ∷ []);
                  audit = record_entry "decision" (some case_id) (some id) s.audit;
                }) in
                ground (arith, kept);
            applied = ground arith;
          },
        )
      ]
    ]

-- The gates that a decision has passed, and the row and the tables that it leaves.
pub record IsDecided (now id : ℕ) (s : Store) (case_id : ℕ) (actor : Actor) (r : DecisionRequest)
    (row : Decision) (s' : Store) (user_id : ℕ) (role : Option CaseRole) (version : ℕ)
    : Type 0 where
  pub authorized : (c : Case) × MayDecide s case_id actor user_id role c
  pub reasoned : IsReasoned r.verdict (strip r.rationale)
  pub on_current_row : target_version s case_id r.type r.target_id ≡ ok version
  pub expected_version : (r.target_version ≡ none) ⊎ (r.target_version ≡ some version)
  pub says : SaysSo now id case_id r row user_id version
  pub supersedes :
      Supersedes actor r role row (latest_decision (target_of case_id r version) s.decisions)
  pub row_eq :
      row
      ≡ decision_row now id case_id user_id r version
          (latest_decision (target_of case_id r version) s.decisions)
  pub appended : s'.decisions ≡ s.decisions ++ (row ∷ [])
  pub applied :
      s'
      ≡ apply_decision row r.type (record s {
        decisions = s.decisions ++ (row ∷ []);
        audit = record_entry "decision" (some case_id) (some id) s.audit;
      })

pub decide-IsDecided :
    (now id : ℕ) (s : Store) (case_id : ℕ) (actor : Actor) (r : DecisionRequest) (row : Decision)
    (s' : Store)
    → decide now id s case_id actor r ≡ ok (row, s')
    → (user_id : ℕ) × (role : Option CaseRole) × (version : ℕ) × IsDecided now id s case_id actor r
        row s' user_id role version
decide-IsDecided now id s case_id actor r row s' h =
    let (user_id, role, version, t) = decide-IsTaken now id s case_id actor r row s' h in
    let previous = latest_decision (target_of case_id r version) s.decisions in
    (
      user_id,
      role,
      version,
      record {
        authorized = authorize-MayDecide s case_id actor user_id role t.authorized;
        reasoned = reason_of r.verdict (strip r.rationale) t.reasoned;
        on_current_row = t.on_current_row;
        expected_version = t.expected_version;
        says = decision_row-SaysSo now id case_id user_id r version previous row t.row_eq;
        supersedes =
            superseding actor r role row previous t.asked t.may
              (ap (λ d. d.supersedes_id) t.row_eq);
        row_eq = t.row_eq;
        appended = t.appended;
        applied = t.applied;
      },
    )

same_type_refl : (t : TargetType) → same_type t t ≡ true
same_type_refl TargetType.link = refl
same_type_refl TargetType.activity = refl
same_type_refl TargetType.finding = refl
same_type_refl TargetType.alert = refl

-- The new row is about the target that the request names.
pub row-about :
    (now id case_id user_id version : ℕ) (r : DecisionRequest) (previous : Option Decision)
    → is_about
        (target_of case_id r version)
        (decision_row now id case_id user_id r version previous)
      ≡ true
row-about now id case_id user_id version r previous = ground (arith, same_type_refl r.type)

-- A decision that is taken leaves at most one current decision on every target.
pub decide-HasOneCurrent :
    (now id : ℕ) (s : Store) (case_id : ℕ) (actor : Actor) (r : DecisionRequest) (row : Decision)
    (s' : Store)
    → HasOneCurrent s.decisions
    → decide now id s case_id actor r ≡ ok (row, s')
    → HasOneCurrent s'.decisions
decide-HasOneCurrent now id s case_id actor r row s' one h =
    let (user_id, role, version, d) = decide-IsDecided now id s case_id actor r row s' h in
    let t = target_of case_id r version in
    let previous = latest_decision t s.decisions in
    let about = row-about now id case_id user_id version r previous in
    let grown =
      snoc-HasOneCurrent s.decisions (decision_row now id case_id user_id r version previous) t
        about refl one in
    rw (d.appended, d.row_eq) grown

-- After a decision under a new identifier, the latest decision on its target is that decision.
pub decide-latest_decision :
    (now id : ℕ) (s : Store) (case_id : ℕ) (actor : Actor) (r : DecisionRequest) (row : Decision)
    (s' : Store)
    → HasOneCurrent s.decisions
    → IsFresh id s.decisions
    → decide now id s case_id actor r ≡ ok (row, s')
    → latest_decision (target_of case_id r row.target_version) s'.decisions ≡ some row
decide-latest_decision now id s case_id actor r row s' one fresh h =
    let (user_id, role, version, d) = decide-IsDecided now id s case_id actor r row s' h in
    let t = target_of case_id r version in
    let previous = latest_decision t s.decisions in
    let about = row-about now id case_id user_id version r previous in
    let latest =
      latest_decision-snoc s.decisions (decision_row now id case_id user_id r version previous) t
        about refl fresh one in
    rw (d.appended, d.row_eq) latest
