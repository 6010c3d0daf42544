-- ===== src/Decisions/Steps.antt =====
-- The review of a case as a sequence of steps: every operation on decisions and findings.
use darknetra.Prelude.{
  ℕ, ◌≡◌, ◌==◌, ◌+◌, ◌∷◌, ◌++◌, [], some, false, any, All, ok, arith, refl, update_if, find, Option,
  Option-cases, All-update_found, inl, AreUnique-update_if, inr, All-update_if, Result-cases,
  any-test, ap, find-snoc,
}
use darknetra.Records.{Actor}
use darknetra.Decisions.Rows.{Decision, Finding, FindingKind, FindingStatus, Store}
use darknetra.Decisions.Service.{find_finding}
use darknetra.Decisions.Decide.{DecisionRequest, decide}
use darknetra.Decisions.Chain.{IsFresh}
use darknetra.Decisions.Findings.{
  FindingCreate, is_finding, create_finding, promote, supersede_finding,
}
use darknetra.Decisions.Drafting.{create_finding-IsDraft}
use darknetra.Decisions.Backing.{IsBacked, IsSound}
use darknetra.Decisions.Soundness.{decide-IsSound, create_finding-IsSound, promote-IsSound}

-- The tables after the replacement has taken its version and the original has been retired.
replaced-IsSound :
    (s : Store) (case_id finding_id id : ℕ) (f : Finding) (version : ℕ) (of_id : Option ℕ)
    (s' : Store)
    → IsSound s
    → find (is_finding case_id id) s.findings ≡ some f
    → ((f.kind ≡ FindingKind.confirmed) → ⊥)
    → f.status ≡ FindingStatus.draft
    → s'.decisions ≡ s.decisions
    → s'.findings
      ≡ update_if
          (is_finding case_id finding_id)
          (λ g. record g { status = FindingStatus.superseded })
          (update_if
            (is_finding case_id id)
            (λ g. record g { version = version; supersedes_id = of_id })
            s.findings)
    → IsSound s'
replaced-IsSound s case_id finding_id id f version of_id s' sound found unconfirmed drafted rows
      table =
    let revise : Finding → Finding = λ g. record g { version = version; supersedes_id = of_id } in
    let retire : Finding → Finding = λ g. record g { status = FindingStatus.superseded } in
    let revised : All (IsBacked s.decisions) (update_if (is_finding case_id id) revise s.findings) =
      All-update_found (λ g. g.id) (IsBacked s.decisions) (IsBacked s.decisions)
        (is_finding case_id id) revise id s.findings f (λ g k. ground arith) (λ g k b. b) found
        sound.finding_ids sound.backed
        (λ k. absurd (unconfirmed k), λ k. absurd (ground (arith, drafted))) in
    record {
      one_current = rw rows sound.one_current;
      decision_ids = rw rows sound.decision_ids;
      finding_ids = rw table (
          AreUnique-update_if (λ g. g.id) (is_finding case_id finding_id) retire
            (update_if (is_finding case_id id) revise s.findings) (λ g. refl)
            (AreUnique-update_if (λ g. g.id) (is_finding case_id id) revise s.findings (λ g. refl)
              sound.finding_ids));
      backed =
          rw (table, rows)
            (All-update_if (IsBacked s.decisions) (is_finding case_id finding_id) retire
              (update_if (is_finding case_id id) revise s.findings)
              (λ g b. (b.0, λ k. absurd (ground arith))) revised);
    }

supersede_finding-IsSound :
    (now id : ℕ) (s : Store) (case_id : ℕ) (actor : Actor) (finding_id : ℕ) (fields : FindingCreate)
    (f : Finding) (s' : Store)
    → any (λ g. g.id == id) s.findings ≡ false
    → IsSound s
    → supersede_finding now id s case_id actor finding_id fields ≡ ok (f, s')
    → IsSound s'
unfolding supersede_finding
supersede_finding-IsSound now id s case_id actor finding_id fields f s' fresh sound h =
    elim (Option-cases (find_finding case_id finding_id s)) [
      | inl unknown ↦ absurd (ground arith)
      | inr (old, found) ↦ elim (Result-cases (create_finding now id s case_id actor fields)) [
        | inr (e, refused) ↦ absurd (ground arith)
        | inl ((g, s1), created) ↦
            let (user_id, role, d) =
              create_finding-IsDraft now id s case_id actor fields g s1 created in
            let drafted =
              create_finding-IsSound now id s case_id actor fields g s1 fresh sound created in
            let none_before : any (is_finding case_id id) s.findings ≡ false =
              any-test (λ x. x.id) (is_finding case_id id) id s.findings (λ x k. ground arith)
                fresh in
            let rows : s1.findings ≡ s.findings ++ (g ∷ []) = ap (λ x. x.findings) d.added in
            let here : find (is_finding case_id id) s1.findings ≡ some g = rw rows (
              find-snoc (is_finding case_id id) s.findings g none_before
                (ground (arith, d.is_new))) in
            replaced-IsSound s1 case_id finding_id id g (old.version + 1) (some old.id) s' drafted
              here d.unconfirmed d.is_draft (ground arith) (ground arith)
      ]
    ]

-- A step of the review: an operation that succeeds, under a new identifier where it draws one.
pub data ReviewStep : Store → Store → Type 0 where
  decides :
      (now id : ℕ) (s : Store) (case_id : ℕ) (actor : Actor) (r : DecisionRequest) (row : Decision)
      (s' : Store)
      → IsFresh id s.decisions
      → decide now id s case_id actor r ≡ ok (row, s')
      → ReviewStep s s'
  drafts :
      (now id : ℕ) (s : Store) (case_id : ℕ) (actor : Actor) (fields : FindingCreate) (f : Finding)
      (s' : Store)
      → any (λ g. g.id == id) s.findings ≡ false
      → create_finding now id s case_id actor fields ≡ ok (f, s')
      → ReviewStep s s'
  promotes :
      (s : Store) (case_id : ℕ) (actor : Actor) (finding_id decision_id : ℕ) (f : Finding)
      (s' : Store)
      → promote s case_id actor finding_id decision_id ≡ ok (f, s')
      → ReviewStep s s'
  supersedes :
      (now id : ℕ) (s : Store) (case_id : ℕ) (actor : Actor) (finding_id : ℕ)
      (fields : FindingCreate) (f : Finding) (s' : Store)
      → any (λ g. g.id == id) s.findings ≡ false
      → supersede_finding now id s case_id actor finding_id fields ≡ ok (f, s')
      → ReviewStep s s'

-- The stores that a review reaches.
pub data Reviewed : Store → Store → Type 0 where
  start : (s : Store) → Reviewed s s
  next : (s mid s' : Store) → Reviewed s mid → ReviewStep mid s' → Reviewed s s'

step-IsSound : (s s' : Store) → ReviewStep s s' → IsSound s → IsSound s'
step-IsSound _ _ (ReviewStep.decides now id s case_id actor r row s' fresh h) sound =
    decide-IsSound now id s case_id actor r row s' fresh sound h
step-IsSound _ _ (ReviewStep.drafts now id s case_id actor fields f s' fresh h) sound =
    create_finding-IsSound now id s case_id actor fields f s' fresh sound h
step-IsSound _ _ (ReviewStep.promotes s case_id actor finding_id decision_id f s' h) sound =
    promote-IsSound s case_id actor finding_id decision_id f s' sound h
step-IsSound _ _ (ReviewStep.supersedes now id s case_id actor finding_id fields f s' fresh h)
      sound =
    supersede_finding-IsSound now id s case_id actor finding_id fields f s' fresh sound h

-- Whatever decisions, drafts, promotions and replacements follow on sound tables, in whatever order: each
-- confirmed finding has an accepting decision as the latest on its version, each promoted finding is
-- confirmed, and at most one decision on each target is current.
pub reviewed-IsSound : (s s' : Store) → Reviewed s s' → IsSound s → IsSound s'
reviewed-IsSound _ _ (Reviewed.start s) sound = sound
reviewed-IsSound _ _ (Reviewed.next s mid s' before step) sound =
    step-IsSound mid s' step (reviewed-IsSound s mid before sound)
