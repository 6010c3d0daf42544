-- ===== src/Decisions/Soundness.antt =====
-- decisions/service.py: the tables after a decision, a draft and a promotion.
use darknetra.Prelude.{
  ℕ, ◌≡◌, ◌==◌, ◌∷◌, ◌++◌, [], some, true, false, any, ok, arith, refl, find, sym, subst, find-some,
  AreUnique-snoc, AreUnique-update_if, All-append, All-update_found,
}
use darknetra.Records.{Actor}
use darknetra.Audit.{record_entry}
use darknetra.Decisions.Rows.{TargetType, Decision, Finding, Store}
use darknetra.Decisions.Service.{latest_decision, target_version, is_about}
use darknetra.Decisions.Decide.{DecisionRequest, decision_row, decide}
use darknetra.Decisions.Effects.{apply_decision}
use darknetra.Decisions.Chain.{HasOneCurrent, IsFresh}
use darknetra.Decisions.Findings.{
  FindingCreate, finding_target, is_finding, create_finding, promote, promoted_by,
}
use darknetra.Decisions.Review.{
  decide-IsDecided, decide-HasOneCurrent, decide-latest_decision, target_of, row-about,
}
use darknetra.Decisions.Drafting.{create_finding-IsDraft, promote-IsPromoted}
use darknetra.Decisions.Backing.{
  IsBacked, IsSound, fresh-unused, target_version-finding, applied-IsSound,
}

pub decide-IsSound :
    (now id : ℕ) (s : Store) (case_id : ℕ) (actor : Actor) (r : DecisionRequest) (row : Decision)
    (s' : Store)
    → IsFresh id s.decisions
    → IsSound s
    → decide now id s case_id actor r ≡ ok (row, s')
    → IsSound s'
decide-IsSound now id s case_id actor r row s' fresh sound h =
    let (user_id, role, version, d) = decide-IsDecided now id s case_id actor r row s' h in
    let t = target_of case_id r version in
    let made = decision_row now id case_id user_id r version (latest_decision t s.decisions) in
    let same : made ≡ row = sym d.row_eq in
    let one : HasOneCurrent (s.decisions ++ (row ∷ [])) =
      subst HasOneCurrent d.appended
        (decide-HasOneCurrent now id s case_id actor r row s' sound.one_current h) in
    let latest : latest_decision (target_of case_id r row.target_version)
          (s.decisions ++ (row ∷ []))
        ≡ some row =
      subst (λ ds. latest_decision (target_of case_id r row.target_version) ds ≡ some row)
        d.appended
        (decide-latest_decision now id s case_id actor r row s' sound.one_current fresh h) in
    let target : r.type ≡ TargetType.finding
        → (f : Finding) × (find (is_finding row.case_id row.target_id) s.findings ≡ some f)
          × (latest_decision (finding_target f) (s.decisions ++ (row ∷ [])) ≡ some row) =
      λ on_finding.
        let (f, found, of_version, live) = target_version-finding s case_id r.target_id version (
          subst (λ type. target_version s case_id type r.target_id ≡ ok version) on_finding
            d.on_current_row) in
        let here = find-some (is_finding case_id r.target_id) s.findings f found in
        let row_version : row.target_version ≡ version = ground (arith, d.row_eq) in
        let about : target_of case_id r row.target_version ≡ finding_target f =
          ground (arith, here.0, on_finding, of_version, row_version) in
        (
          f,
          subst (λ x. find (is_finding x.case_id x.target_id) s.findings ≡ some f) same found,
          subst (λ x. latest_decision x (s.decisions ++ (row ∷ [])) ≡ some row) about latest,
        ) in
    let after : IsSound (
        apply_decision row r.type (record s {
          decisions = s.decisions ++ (row ∷ []);
          audit = record_entry "decision" (some case_id) (some id) s.audit;
        })) =
      applied-IsSound s.decisions row r.type t
        (record s {
          decisions = s.decisions ++ (row ∷ []);
          audit = record_entry "decision" (some case_id) (some id) s.audit;
        })
        refl (ground (arith, d.row_eq))
        (subst (λ x. is_about t x ≡ true) same
          (row-about now id case_id user_id version r (latest_decision t s.decisions)))
        (ground (arith, d.row_eq)) target one sound.decision_ids
        (ground (arith, d.row_eq, fresh-unused id s.decisions fresh)) sound.finding_ids
        sound.backed in
    subst IsSound (sym d.applied) after

pub create_finding-IsSound :
    (now id : ℕ) (s : Store) (case_id : ℕ) (actor : Actor) (fields : FindingCreate) (f : Finding)
    (s' : Store)
    → any (λ g. g.id == id) s.findings ≡ false
    → IsSound s
    → create_finding now id s case_id actor fields ≡ ok (f, s')
    → IsSound s'
create_finding-IsSound now id s case_id actor fields f s' fresh sound h =
    let (user_id, role, d) = create_finding-IsDraft now id s case_id actor fields f s' h in
    let own : any (λ g. g.id == f.id) s.findings ≡ false =
      subst (λ k. any (λ g. g.id == k) s.findings ≡ false) (sym d.is_new.0) fresh in
    let new : IsBacked s.decisions f =
      (λ k. absurd (d.unconfirmed k), λ k. absurd (ground (arith, d.is_draft))) in
    subst IsSound (sym d.added) (record {
      one_current = sound.one_current;
      decision_ids = sound.decision_ids;
      finding_ids = AreUnique-snoc (λ g. g.id) s.findings f own sound.finding_ids;
      backed = All-append (IsBacked s.decisions) s.findings (f ∷ []) sound.backed (new, tt);
    })

pub promote-IsSound :
    (s : Store) (case_id : ℕ) (actor : Actor) (finding_id decision_id : ℕ) (f : Finding)
    (s' : Store)
    → IsSound s
    → promote s case_id actor finding_id decision_id ≡ ok (f, s')
    → IsSound s'
promote-IsSound s case_id actor finding_id decision_id f s' sound h =
    let (old, d, user_id, role, p) =
      promote-IsPromoted s case_id actor finding_id decision_id f s' h in
    record {
      one_current = rw p.decisions_kept sound.one_current;
      decision_ids = rw p.decisions_kept sound.decision_ids;
      finding_ids = rw p.table (
          AreUnique-update_if (λ g. g.id) (is_finding case_id finding_id) (promoted_by d) s.findings
            (λ g. refl) sound.finding_ids);
      backed =
          rw (p.table, p.decisions_kept)
            (All-update_found (λ g. g.id) (IsBacked s.decisions) (IsBacked s.decisions)
              (is_finding case_id finding_id) (promoted_by d) finding_id s.findings old
              (λ g k. ground arith) (λ g k b. b) p.found sound.finding_ids sound.backed
              (λ k. (d, p.latest, p.accepting), λ k. refl));
    }
