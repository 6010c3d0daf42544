-- ===== src/Decisions/Tests.antt =====
-- The theorems of decisions at concrete inputs.
use darknetra.Prelude.{◌≡◌, refl, ok, some, none, from_ok, strip, arith}
use darknetra.Samples.{ada_actor}
use darknetra.Authz.Permissions.{permitted}
use darknetra.Decisions.Rows.{Store, Decision, Finding}
use darknetra.Decisions.Service.{authorize, latest_decision, target_version}
use darknetra.Decisions.Effects.{apply_decision}
use darknetra.Decisions.Decide.{decide}
use darknetra.Decisions.Chain.{HasOneCurrent}
use darknetra.Decisions.Review.{target_of, decide-latest_decision}
use darknetra.Decisions.Findings.{draft_kind, check_source, create_finding, promote}
use darknetra.Decisions.Findings.{supersede_finding}
use darknetra.Decisions.Backing.{IsSound}
use darknetra.Decisions.Steps.{ReviewStep, Reviewed, reviewed-IsSound}
use darknetra.Decisions.Samples.{desk, note, acceptance, new_note}

abbrev outcome : Decision × Store
outcome =
    from_ok
      (
        record {
          id = 0;
          case_id = 0;
          target_type = acceptance.type;
          target_id = 0;
          target_version = 0;
          verdict = acceptance.verdict;
          decided_by = 0;
          supersedes_id = none;
          at = 0;
        },
        desk,
      )
      (decide 50 200 desk 1 ada_actor acceptance)

abbrev reviewed : Store
reviewed = outcome.1

desk-decides : decide 50 200 desk 1 ada_actor acceptance ≡ ok (outcome.0, reviewed)
unfolding decide authorize permitted latest_decision target_version apply_decision strip
desk-decides = refl

desk-HasOneCurrent : HasOneCurrent desk.decisions
desk-HasOneCurrent t = omega arith

decide-latest_decision_example :
    latest_decision (target_of 1 acceptance outcome.0.target_version) reviewed.decisions
    ≡ some outcome.0
decide-latest_decision_example =
    decide-latest_decision 50 200 desk 1 ada_actor acceptance outcome.0 reviewed desk-HasOneCurrent
      refl desk-decides

abbrev drafted : Finding × Store
drafted = from_ok (note, desk) (create_finding 60 81 desk 1 ada_actor new_note)

abbrev promoted : Finding × Store
promoted = from_ok (note, desk) (promote reviewed 1 ada_actor 80 200)

reviewed-promotes : promote reviewed 1 ada_actor 80 200 ≡ ok (promoted.0, promoted.1)
unfolding decide authorize permitted latest_decision target_version apply_decision strip promote
reviewed-promotes = refl

desk-IsSound : IsSound desk
desk-IsSound = record {
  one_current = desk-HasOneCurrent;
  decision_ids = tt;
  finding_ids = (refl, tt);
  backed = ((λ k. absurd (ground arith), λ k. absurd (ground arith)), tt);
}

abbrev replaced : Finding × Store
replaced = from_ok (note, desk) (supersede_finding 70 82 promoted.1 1 ada_actor 80 new_note)

promoted-replaces :
    supersede_finding 70 82 promoted.1 1 ada_actor 80 new_note ≡ ok (replaced.0, replaced.1)
unfolding supersede_finding create_finding draft_kind check_source decide authorize permitted
    latest_decision target_version apply_decision strip promote
promoted-replaces = refl

desk-Reviewed : Reviewed desk replaced.1
unfolding decide authorize permitted latest_decision target_version apply_decision strip promote
desk-Reviewed =
    Reviewed.next desk promoted.1 replaced.1
      (Reviewed.next desk reviewed promoted.1
        (Reviewed.next desk desk reviewed (Reviewed.start desk) (
          ReviewStep.decides 50 200 desk 1 ada_actor acceptance outcome.0 reviewed refl
            desk-decides))
        (ReviewStep.promotes reviewed 1 ada_actor 80 200 promoted.0 promoted.1 reviewed-promotes))
      (ReviewStep.supersedes 70 82 promoted.1 1 ada_actor 80 new_note replaced.0 replaced.1 refl
        promoted-replaces)

reviewed-IsSound_example : IsSound replaced.1
reviewed-IsSound_example = reviewed-IsSound desk replaced.1 desk-Reviewed desk-IsSound
