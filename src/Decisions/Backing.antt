-- ===== src/Decisions/Backing.antt =====
-- decisions/service.py: the decisions that findings rest on.
use darknetra.Prelude.{
  ℕ, ◌≡◌, ◌==◌, ◌∷◌, ◌++◌, [], List, some, none, true, false, any, All, AreUnique, ok, arith, refl,
  update_if, find, ◌⊎◌, ◌∙◌, Bool-cases, Option-cases, inl, inr, All-update_found, AreUnique-snoc,
  AreUnique-update_if, All-map,
}
use darknetra.Decisions.Rows.{
  TargetType, Decision, Finding, FindingKind, FindingStatus, Store, Verdict, is_accept, same_type,
}
use darknetra.Decisions.Service.{Target, is_about, latest_decision, find_finding, target_version}
use darknetra.Decisions.Effects.{decided_finding, apply_decision}
use darknetra.Decisions.Chain.{HasOneCurrent, IsFresh}
use darknetra.Decisions.Findings.{finding_target, is_finding, is_superseded}
use darknetra.Decisions.Elsewhere.{latest_decision-elsewhere}
use darknetra.Decisions.Review.{apply_decision-decisions}

-- The latest decision on the finding's version accepts it, if it is confirmed.
abbrev pub IsBacked : List Decision → Finding → Type 0
IsBacked ds f =
    (f.kind ≡ FindingKind.confirmed
      → (d : Decision) × (latest_decision (finding_target f) ds ≡ some d)
        × (d.verdict ≡ Verdict.accept))
    × (f.status ≡ FindingStatus.promoted → f.kind ≡ FindingKind.confirmed)

-- The tables of decisions and findings.
pub record IsSound (s : Store) : Type 0 where
  pub one_current : HasOneCurrent s.decisions
  pub decision_ids : AreUnique (λ d. d.id) s.decisions
  pub finding_ids : AreUnique (λ f. f.id) s.findings
  pub backed : All (IsBacked s.decisions) s.findings

pub fresh-unused : (id : ℕ) (ds : List Decision) → IsFresh id ds → any (λ d. d.id == id) ds ≡ false
fresh-unused id [] h = refl
fresh-unused id (d ∷ ds) h = ground (arith, fresh-unused id ds)

-- What a decision does to the table of findings, by the type of its target.
applied-findings :
    (d : Decision) (type : TargetType) (s : Store)
    → ((type ≡ TargetType.finding)
        × ((apply_decision d type s).findings
            ≡ update_if (is_finding d.case_id d.target_id) (decided_finding d) s.findings))
      ⊎ ((same_type type TargetType.finding ≡ false)
          × ((apply_decision d type s).findings ≡ s.findings))
unfolding apply_decision
applied-findings d TargetType.link s = inr (refl, refl)
applied-findings d TargetType.activity s = inr (refl, refl)
applied-findings d TargetType.alert s = inr (refl, refl)
applied-findings d TargetType.finding s = inl (refl, refl)

-- The version of a finding to decide on is that of the row.
pub target_version-finding :
    (s : Store) (case_id id version : ℕ)
    → target_version s case_id TargetType.finding id ≡ ok version
    → (f : Finding) × (find_finding case_id id s ≡ some f)
      × (f.version ≡ version)
      × (is_superseded f.status ≡ false)
unfolding target_version
target_version-finding s case_id id version h = elim (Option-cases (find_finding case_id id s)) [
  | inl unknown ↦ absurd (ground arith)
  | inr (f, found) ↦ (f, found, ground arith, ground arith)
]

accept_eq : (v : Verdict) → is_accept v ≡ true → v ≡ Verdict.accept
accept_eq Verdict.accept h = refl
accept_eq Verdict.reject h = cc
accept_eq Verdict.defer h = cc
accept_eq Verdict.request_more_evidence h = cc

-- A finding about which the new row is not stays backed.
elsewhere-IsBacked :
    (ds : List Decision) (r : Decision) (t : Target) (f : Finding)
    → AreUnique (λ d. d.id) ds
    → is_about t r ≡ true
    → is_about (finding_target f) r ≡ false
    → r.supersedes_id ≡ elim (latest_decision t ds) [ none ↦ none | some p ↦ some p.id ]
    → IsBacked ds f
    → IsBacked (ds ++ (r ∷ [])) f
elsewhere-IsBacked ds r t f unique about other link backed = (
  λ k.
      let (d, latest, accepts) = backed.0 k in
      (
        d,
        latest_decision-elsewhere ds r t (finding_target f) unique about other link ∙ latest,
        accepts,
      ),
  backed.1,
)

-- The decided finding is backed by the decision, which is the latest on it.
decided-IsBacked :
    (ds : List Decision) (r : Decision) (f : Finding)
    → latest_decision (finding_target f) ds ≡ some r
    → IsBacked ds (decided_finding r f)
decided-IsBacked ds r f latest = elim (Bool-cases (is_accept r.verdict)) [
  | inl accepts ↦ (λ k. (r, latest, accept_eq r.verdict accepts), λ k. ground arith)
  | inr refuses ↦ (λ k. absurd (ground arith), λ k. absurd (ground arith))
]

-- The table of findings after a decision on a finding.
decided_findings :
    (ds : List Decision) (r : Decision) (t : Target) (findings : List Finding) (f : Finding)
    → AreUnique (λ d. d.id) ds
    → AreUnique (λ g. g.id) findings
    → is_about t r ≡ true
    → r.supersedes_id ≡ elim (latest_decision t ds) [ none ↦ none | some p ↦ some p.id ]
    → find (is_finding r.case_id r.target_id) findings ≡ some f
    → latest_decision (finding_target f) (ds ++ (r ∷ [])) ≡ some r
    → All (IsBacked ds) findings
    → All
        (IsBacked (ds ++ (r ∷ [])))
        (update_if (is_finding r.case_id r.target_id) (decided_finding r) findings)
decided_findings ds r t findings f unique ids about link found latest backed =
    All-update_found (λ g. g.id) (IsBacked ds) (IsBacked (ds ++ (r ∷ [])))
      (is_finding r.case_id r.target_id) (decided_finding r) r.target_id findings f
      (λ g k. ground arith)
      (λ g k b. elsewhere-IsBacked ds r t g unique about (ground arith) link b) found ids backed
      (decided-IsBacked (ds ++ (r ∷ [])) r f latest)

-- The tables after a decision whose target was found.
pub applied-IsSound :
    (ds : List Decision) (r : Decision) (type : TargetType) (t : Target) (s : Store)
    → s.decisions ≡ ds ++ (r ∷ [])
    → r.target_type ≡ type
    → is_about t r ≡ true
    → r.supersedes_id ≡ elim (latest_decision t ds) [ none ↦ none | some p ↦ some p.id ]
    → (type ≡ TargetType.finding
        → (f : Finding) × (find (is_finding r.case_id r.target_id) s.findings ≡ some f)
          × (latest_decision (finding_target f) (ds ++ (r ∷ [])) ≡ some r))
    → HasOneCurrent (ds ++ (r ∷ []))
    → AreUnique (λ d. d.id) ds
    → any (λ d. d.id == r.id) ds ≡ false
    → AreUnique (λ f. f.id) s.findings
    → All (IsBacked ds) s.findings
    → IsSound (apply_decision r type s)
applied-IsSound ds r type t s rows of_type about link target one ids fresh finding_ids backed =
    let kept : (apply_decision r type s).decisions ≡ ds ++ (r ∷ []) =
      apply_decision-decisions r type s ∙ rows in
    elim (applied-findings r type s) [
      | inl (is_one, table) ↦
          let (f, found, latest) = target is_one in
          record {
            one_current = rw kept one;
            decision_ids = rw kept (AreUnique-snoc (λ d. d.id) ds r fresh ids);
            finding_ids = rw table (
                AreUnique-update_if (λ g. g.id) (is_finding r.case_id r.target_id)
                  (decided_finding r) s.findings (λ g. refl) finding_ids);
            backed =
                rw (table, kept)
                  (decided_findings ds r t s.findings f ids finding_ids about link found latest
                    backed);
          }
      | inr (is_other, table) ↦ record {
        one_current = rw kept one;
        decision_ids = rw kept (AreUnique-snoc (λ d. d.id) ds r fresh ids);
        finding_ids = rw table finding_ids;
        backed =
            rw (table, kept)
              (All-map (IsBacked ds) (IsBacked (ds ++ (r ∷ [])))
                (λ g b. elsewhere-IsBacked ds r t g ids about (ground arith) link b) s.findings
                backed);
      }
    ]
