-- ===== src/Decisions/Chain.antt =====
-- decisions/service.py: decisions on one target, and the ones that they supersede.
use darknetra.Prelude.{
  ℕ, List, Bool, count_if, is_value, ◌++◌, keep, ◌≤◌, ◌∷◌, ◌≡◌, [], some, ◌&&◌, ◌+◌, true, not,
  ◌==◌, any, arith, refl, any-append, count_if-split, none, Option-cases, length, inl, inr,
  length-keep, Bool-cases, count_if-keep, count_if-append, subst, ◌||◌, false, keep-append,
}
use darknetra.Decisions.Rows.{Decision, type_eq}
use darknetra.Decisions.Service.{Target, is_about, is_current, current_on, newest, latest_decision}

-- At most one decision on each target is current.
abbrev pub HasOneCurrent : List Decision → Type 0
HasOneCurrent ds = (t : Target) → count_if (current_on t ds) ds ≤ 1

pub is_current-snoc :
    (case_id : ℕ) (ds : List Decision) (r d : Decision)
    → is_current case_id (ds ++ (r ∷ [])) d
      ≡ (is_current case_id ds d && not (r.case_id == case_id && is_value r.supersedes_id d.id))
is_current-snoc case_id ds r d =
    ground
      (arith, any-append (λ n. n.case_id == case_id && is_value n.supersedes_id d.id) ds (r ∷ []))

-- The rows that `r` takes out of the current ones.
abbrev taken : Target → List Decision → Decision → Decision → Bool
taken t ds r d = current_on t ds d && (r.case_id == t.case_id && is_value r.supersedes_id d.id)

count-taken :
    (t : Target) (ds : List Decision) (r : Decision)
    → count_if (current_on t (ds ++ (r ∷ []))) ds + count_if (taken t ds r) ds
      ≡ count_if (current_on t ds) ds
count-taken t ds r =
    count_if-split (current_on t ds) (λ d. r.case_id == t.case_id && is_value r.supersedes_id d.id)
      (current_on t (ds ++ (r ∷ []))) (λ d. ground (arith, is_current-snoc t.case_id ds r d)) ds

newest-none : (ds : List Decision) → newest ds ≡ none → length ds ≡ 0
newest-none [] h = refl
newest-none (d ∷ ds) h = absurd (ground arith)

newest-count :
    (q : Decision → Bool) (ds : List Decision) (d : Decision)
    → newest ds ≡ some d
    → q d ≡ true
    → 1 ≤ count_if q ds
newest-count q [] d h k = cc
newest-count q (x ∷ ds) d h k = elim (Option-cases (newest ds)) [
  | inl last ↦ ground arith
  | inr (e, later) ↦ ground (arith, newest-count q ds e later)
]

pub target_eq : (t u : Target) (r : Decision) → is_about t r ≡ true → is_about u r ≡ true → t ≡ u
target_eq t u r h k =
    let types : t.type ≡ u.type = type_eq t.type u.type (ground arith) in ground arith

-- Once the latest decision is superseded, no earlier one is current.
count-left_zero :
    (ds : List Decision) (r : Decision) (t : Target)
    → is_about t r ≡ true
    → r.supersedes_id ≡ elim (latest_decision t ds) [ none ↦ none | some p ↦ some p.id ]
    → count_if (current_on t ds) ds ≤ 1
    → count_if (current_on t (ds ++ (r ∷ []))) ds ≡ 0
unfolding latest_decision
count-left_zero ds r t about link one = elim (Option-cases (newest (keep (current_on t ds) ds))) [
  | inl first ↦ omega (
    arith,
    newest-none (keep (current_on t ds) ds) first,
    length-keep {0} (current_on t ds) ds,
    count-taken t ds r,
  )
  | inr (p, latest) ↦
      let q : Decision → Bool = λ d. r.case_id == t.case_id && is_value r.supersedes_id d.id in
      let hit : q p ≡ true = ground arith in
      omega (
        arith,
        newest-count q (keep (current_on t ds) ds) p latest hit,
        count_if-keep {0} q (current_on t ds) ds,
        count-taken t ds r,
      )
]

-- A decision that supersedes the latest one on its target, or none where there is none, leaves at most
-- one current decision on every target.
pub snoc-HasOneCurrent :
    (ds : List Decision) (r : Decision) (t : Target)
    → is_about t r ≡ true
    → r.supersedes_id ≡ elim (latest_decision t ds) [ none ↦ none | some p ↦ some p.id ]
    → HasOneCurrent ds
    → HasOneCurrent (ds ++ (r ∷ []))
unfolding latest_decision
snoc-HasOneCurrent ds r t about link one u = elim (Bool-cases (is_about u r)) [
  | inr elsewhere ↦ ground (
    arith,
    count_if-append (current_on u (ds ++ (r ∷ []))) ds (r ∷ []),
    count-taken u ds r,
    one u,
  )
  | inl here ↦
      let none_left = count-left_zero ds r t about link (one t) in
      let grown : count_if (current_on t (ds ++ (r ∷ []))) (ds ++ (r ∷ [])) ≤ 1 =
        ground (arith, count_if-append (current_on t (ds ++ (r ∷ []))) ds (r ∷ []), none_left) in
      subst (λ v. count_if (current_on v (ds ++ (r ∷ []))) (ds ++ (r ∷ [])) ≤ 1)
        (target_eq t u r about here) grown
]

-- A new identifier: no decision has it or supersedes it.
abbrev pub IsFresh : ℕ → List Decision → Type 0
IsFresh id ds = any (λ d. d.id == id || is_value d.supersedes_id id) ds ≡ false

keep-eq-nil : (p : Decision → Bool) (ds : List Decision) → count_if p ds ≡ 0 → keep p ds ≡ []
keep-eq-nil p [] h = refl
keep-eq-nil p (d ∷ ds) h = ground (arith, keep-eq-nil p ds)

fresh-is_current :
    (case_id : ℕ) (ds : List Decision) (r : Decision)
    → IsFresh r.id ds
    → any (λ n. n.case_id == case_id && is_value n.supersedes_id r.id) ds ≡ false
fresh-is_current case_id [] r h = refl
fresh-is_current case_id (d ∷ ds) r h = ground (arith, fresh-is_current case_id ds r)

newest-fresh :
    (p : Decision → Bool) (ds : List Decision) (id : ℕ) (d : Decision)
    → IsFresh id ds
    → newest (keep p ds) ≡ some d
    → (d.id == id) ≡ false
newest-fresh p [] id d fresh h = cc
newest-fresh p (x ∷ ds) id d fresh h = elim (Option-cases (newest (keep p ds))) [
  | inl last ↦ ground arith
  | inr (e, later) ↦ ground (arith, newest-fresh p ds id e)
]

supersedes-other :
    (ds : List Decision) (r : Decision) (t : Target)
    → r.supersedes_id ≡ elim (latest_decision t ds) [ none ↦ none | some p ↦ some p.id ]
    → IsFresh r.id ds
    → is_value r.supersedes_id r.id ≡ false
unfolding latest_decision
supersedes-other ds r t link fresh = elim (Option-cases (newest (keep (current_on t ds) ds))) [
  | inl first ↦ ground arith
  | inr (p, latest) ↦
      let other = newest-fresh (current_on t ds) ds r.id p fresh latest in ground arith
]

-- The decision just added is the latest on its target.
pub latest_decision-snoc :
    (ds : List Decision) (r : Decision) (t : Target)
    → is_about t r ≡ true
    → r.supersedes_id ≡ elim (latest_decision t ds) [ none ↦ none | some p ↦ some p.id ]
    → IsFresh r.id ds
    → HasOneCurrent ds
    → latest_decision t (ds ++ (r ∷ [])) ≡ some r
unfolding latest_decision
latest_decision-snoc ds r t about link fresh one =
    let p = current_on t (ds ++ (r ∷ [])) in
    let none_left : keep p ds ≡ [] = keep-eq-nil p ds (count-left_zero ds r t about link (one t)) in
    let kept : keep p (ds ++ (r ∷ [])) ≡ keep p ds ++ keep p (r ∷ []) = keep-append p ds (r ∷ []) in
    let own : is_value r.supersedes_id r.id ≡ false = supersedes-other ds r t link fresh in
    let here : p r ≡ true =
      ground (arith, is_current-snoc t.case_id ds r r, fresh-is_current t.case_id ds r fresh) in
    rw (kept, none_left, here) refl
