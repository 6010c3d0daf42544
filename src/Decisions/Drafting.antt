-- ===== src/Decisions/Drafting.antt =====
-- decisions/service.py `create_finding` and `promote`: their checks and their rows.
use darknetra.Prelude.{
  ℕ, Option, ◌≡◌, ok, map, sorted, some, Result-cases, Option-cases, Text, length, inr, Bool-cases,
  dedupe, arith, false, is_empty, ◌++◌, inl, ◌||◌, ◌∷◌, sym, find-some, text_eq, [], ◌∙◌, ap, codes,
  none, find-update_if, update_if,
}
use darknetra.Records.{Actor, CaseRole}
use darknetra.Audit.{record_entry}
use darknetra.Authz.Permissions.{Permission}
use darknetra.Decisions.Rows.{
  Store, Decision, Finding, FindingKind, FindingStatus, Verdict, TargetType,
}
use darknetra.Decisions.Service.{authorize, latest_decision, find_finding, Target}
use darknetra.Decisions.Findings.{
  FindingCreate, draft_kind, cited, check_source, create_finding, finding_target, promoted_by,
  promote, is_finding, is_superseded, upper,
}

draft_kind-unconfirmed : (hint : Option Text) → draft_kind hint ≡ some FindingKind.confirmed → ⊥
unfolding draft_kind
draft_kind-unconfirmed none h = cc
draft_kind-unconfirmed (some hint) h =
    elim (Bool-cases (is_empty hint || text_eq (upper hint) (codes "CANDIDATE"))) [
      | inl a ↦ ground arith
      | inr b ↦ elim (Bool-cases (text_eq (upper hint) (codes "OBSERVED"))) [
        | inl c ↦ ground arith
        | inr d ↦ elim (Bool-cases (text_eq (upper hint) (codes "MODEL"))) [
          | inl e ↦ ground arith
          | inr f ↦ ground arith
        ]
      ]
    ]

-- What is known of a finding that `create_finding` returns.
pub record IsDraft (now id : ℕ) (s : Store) (case_id : ℕ) (actor : Actor) (fields : FindingCreate)
    (f : Finding) (s' : Store) (user_id : ℕ) (role : Option CaseRole) : Type 0 where
  pub authorized : authorize s case_id actor Permission.finding_edit ≡ ok (user_id, role)
  pub is_new : (f.id ≡ id) × (f.case_id ≡ case_id) × (f.version ≡ 1)
  pub is_draft : f.status ≡ FindingStatus.draft
  pub hinted : some f.kind ≡ draft_kind fields.kind_hint
  pub unconfirmed : (f.kind ≡ FindingKind.confirmed) → ⊥
  pub citations :
      f.evidence_ids ≡ sorted (map (λ e. e.id) (cited case_id fields.evidence_codes s.evidence))
  pub one_per_code :
      length (cited case_id fields.evidence_codes s.evidence)
      ≡ length (dedupe fields.evidence_codes)
  pub added : s' ≡ record s {
    findings = s.findings ++ (f ∷ []);
    audit = record_entry "finding.create" (some case_id) (some id) s.audit;
  }

pub create_finding-IsDraft :
    (now id : ℕ) (s : Store) (case_id : ℕ) (actor : Actor) (fields : FindingCreate) (f : Finding)
    (s' : Store)
    → create_finding now id s case_id actor fields ≡ ok (f, s')
    → (user_id : ℕ) × (role : Option CaseRole) × IsDraft now id s case_id actor fields f s' user_id
        role
unfolding create_finding
create_finding-IsDraft now id s case_id actor fields f s' h =
    elim (Result-cases (authorize s case_id actor Permission.finding_edit)) [
      | inr (e, refused) ↦ absurd (ground arith)
      | inl (who, allowed) ↦ elim (Option-cases (draft_kind fields.kind_hint)) [
        | inl unknown ↦ absurd (ground arith)
        | inr (kind, known) ↦ elim (Result-cases (check_source case_id fields s.messages)) [
          | inr (e, refused) ↦ absurd (ground arith)
          | inl (done, sourced) ↦
              let hint : some f.kind ≡ draft_kind fields.kind_hint = ground arith in
              (
                who.0,
                who.1,
                record {
                  authorized = ground arith;
                  is_new = (ground arith, ground arith, ground arith);
                  is_draft = ground arith;
                  hinted = hint;
                  unconfirmed =
                      λ k. draft_kind-unconfirmed fields.kind_hint (sym hint ∙ ap (λ x. some x) k);
                  citations = ground arith;
                  one_per_code = ground arith;
                  added = ground arith;
                },
              )
        ]
      ]
    ]

-- The gates that a promotion has passed.
pub record IsPromoted (s : Store) (case_id : ℕ) (actor : Actor) (finding_id decision_id : ℕ)
    (f : Finding) (s' : Store) (old : Finding) (d : Decision) (user_id : ℕ) (role : Option CaseRole)
    : Type 0 where
  pub authorized : authorize s case_id actor Permission.decide ≡ ok (user_id, role)
  pub found : find_finding case_id finding_id s ≡ some old
  pub latest : latest_decision (finding_target old) s.decisions ≡ some d
  pub named : d.id ≡ decision_id
  pub accepting : d.verdict ≡ Verdict.accept
  pub not_superseded : is_superseded old.status ≡ false
  pub changed : f ≡ promoted_by d old
  pub stored : find_finding case_id finding_id s' ≡ some f
  pub table : s'.findings ≡ update_if (is_finding case_id finding_id) (promoted_by d) s.findings
  pub decisions_kept : s'.decisions ≡ s.decisions

pub promote-IsPromoted :
    (s : Store) (case_id : ℕ) (actor : Actor) (finding_id decision_id : ℕ) (f : Finding)
    (s' : Store)
    → promote s case_id actor finding_id decision_id ≡ ok (f, s')
    → (old : Finding) × (d : Decision) × (user_id : ℕ) × (role : Option CaseRole) × IsPromoted s
        case_id actor finding_id decision_id f s' old d user_id role
unfolding promote
promote-IsPromoted s case_id actor finding_id decision_id f s' h =
    elim (Result-cases (authorize s case_id actor Permission.decide)) [
      | inr (e, refused) ↦ absurd (ground arith)
      | inl (who, allowed) ↦ elim (Option-cases (find_finding case_id finding_id s)) [
        | inl unknown ↦ absurd (ground arith)
        | inr (old, found) ↦
            let here = find-some (is_finding case_id finding_id) s.findings old found in
            let t : Target = record {
              case_id = case_id;
              type = TargetType.finding;
              id = old.id;
              version = old.version;
            } in
            let same : finding_target old ≡ t = ground arith in
            elim (Option-cases (latest_decision t s.decisions)) [
              | inl undecided ↦ absurd (ground arith)
              | inr (d, latest) ↦ (
                old,
                d,
                who.0,
                who.1,
                record {
                  authorized = ground arith;
                  found = found;
                  latest = rw same latest;
                  named = ground arith;
                  accepting = ground arith;
                  not_superseded = ground arith;
                  changed = ground arith;
                  table = ground arith;
                  decisions_kept = ground arith;
                  stored =
                      let kept =
                        find-update_if (is_finding case_id finding_id) (promoted_by d) s.findings
                          old found here.0 in
                      ground (arith, kept);
                },
              )
            ]
      ]
    ]
