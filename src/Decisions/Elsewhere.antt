-- ===== src/Decisions/Elsewhere.antt =====
-- decisions/service.py: decisions on different targets.
use darknetra.Prelude.{
  ℕ, ◌≡◌, ◌==◌, ◌&&◌, ◌∷◌, ◌++◌, [], List, Bool, some, none, true, false, any, All, keep, AreUnique,
  arith, Option-cases, inl, inr, subst, All-every, keep-congr, Bool-cases, All-map, ap, not, ltb,
  ◌∙◌, keep-snoc,
}
use darknetra.Decisions.Rows.{Decision}
use darknetra.Decisions.Service.{Target, is_about, current_on, newest, latest_decision}
use darknetra.Decisions.Chain.{is_current-snoc, target_eq}

newest-in :
    (q : Decision → Bool) (ds : List Decision) (p : Decision)
    → newest (keep q ds) ≡ some p
    → any (λ d. d.id == p.id) ds ≡ true
newest-in q [] p h = cc
newest-in q (x ∷ xs) p h = elim (Option-cases (newest (keep q xs))) [
  | inl last ↦ ground arith
  | inr (e, later) ↦ let there = newest-in q xs e later in ground arith
]

absent-holder :
    (q : Decision → Bool) (id : ℕ) (ds : List Decision)
    → any (λ d. d.id == id) ds ≡ false
    → All (λ d. (id == d.id) ≡ true → q d ≡ true) ds
absent-holder q id [] h = tt
absent-holder q id (x ∷ xs) h = (λ k. absurd (ground arith), absent-holder q id xs (ground arith))

-- The decision that has the identifier of the newest of a selection is in the selection.
newest-holder :
    (q : Decision → Bool) (ds : List Decision) (p : Decision)
    → AreUnique (λ d. d.id) ds
    → newest (keep q ds) ≡ some p
    → All (λ d. (p.id == d.id) ≡ true → q d ≡ true) ds
newest-holder q [] p u h = tt
newest-holder q (x ∷ xs) p u h = elim (Option-cases (newest (keep q xs))) [
  | inl last ↦
      let own : x ≡ p = ground arith in
      let fits : q x ≡ true = ground arith in
      subst (λ y. All (λ d. (y.id == d.id) ≡ true → q d ≡ true) (x ∷ xs)) own
        (λ k. fits, absent-holder q x.id xs u.0)
  | inr (e, later) ↦
      let there = newest-in q xs e later in
      let others = newest-holder q xs e u.1 later in
      elim (Bool-cases (q x && not (ltb x.at e.at))) [
        | inl first ↦
            let own : x ≡ p = ground arith in
            let fits : q x ≡ true = ground arith in
            subst (λ y. All (λ d. (y.id == d.id) ≡ true → q d ≡ true) (x ∷ xs)) own
              (λ k. fits, absent-holder q x.id xs u.0)
        | inr second ↦
            let own : e ≡ p = ground arith in
            let apart : (e.id == x.id) ≡ true → any (λ d. d.id == x.id) xs ≡ true = λ k.
              let same : e.id ≡ x.id = ground arith in
              subst (λ n. any (λ d. d.id == n) xs ≡ true) same there in
            subst (λ y. All (λ d. (y.id == d.id) ≡ true → q d ≡ true) (x ∷ xs)) own
              (λ k. absurd (ground (arith, u.0, apart k)), others)
      ]
]

-- The decisions that count for another target do so after the new row as before.
others-current :
    (ds : List Decision) (r : Decision) (t u : Target)
    → AreUnique (λ d. d.id) ds
    → is_about t r ≡ true
    → is_about u r ≡ false
    → r.supersedes_id ≡ elim (latest_decision t ds) [ none ↦ none | some p ↦ some p.id ]
    → All (λ d. current_on u (ds ++ (r ∷ [])) d ≡ current_on u ds d) ds
unfolding latest_decision
others-current ds r t u unique about other link =
    elim (Option-cases (newest (keep (current_on t ds) ds))) [
      | inl first ↦ All-every (λ d. ground (arith, is_current-snoc u.case_id ds r d)) ds
      | inr (p, latest) ↦
          All-map (λ d. (p.id == d.id) ≡ true → current_on t ds d ≡ true)
            (λ d. current_on u (ds ++ (r ∷ [])) d ≡ current_on u ds d)
            (λ d holds. elim (Bool-cases (is_about u d && (p.id == d.id))) [
              | inr apart ↦ ground (arith, is_current-snoc u.case_id ds r d)
              | inl both ↦
                  let mine : current_on t ds d ≡ true = holds (ground arith) in
                  let same : t ≡ u = target_eq t u d (ground arith) (ground arith) in
                  absurd (ground (arith, subst (λ v. is_about v r ≡ true) same about))
            ])
            ds (newest-holder (current_on t ds) ds p unique latest)
    ]

-- A decision on one target leaves the latest decision on every other target.
pub latest_decision-elsewhere :
    (ds : List Decision) (r : Decision) (t u : Target)
    → AreUnique (λ d. d.id) ds
    → is_about t r ≡ true
    → is_about u r ≡ false
    → r.supersedes_id ≡ elim (latest_decision t ds) [ none ↦ none | some p ↦ some p.id ]
    → latest_decision u (ds ++ (r ∷ [])) ≡ latest_decision u ds
unfolding latest_decision
latest_decision-elsewhere ds r t u unique about other link =
    let p = current_on u (ds ++ (r ∷ [])) in
    let kept : keep p ds ≡ keep (current_on u ds) ds =
      keep-congr p (current_on u ds) ds (others-current ds r t u unique about other link) in
    ap newest (keep-snoc p ds r (ground arith) ∙ kept)
