-- ===== src/Cases/Lifecycle.antt =====
-- The life of a case: open, closed, open again or archived for good.
use darknetra.Audit.{length-record_entry}
use darknetra.Prelude.{
  keep, not, [], ◌∷◌, ℕ, ◌≡◌, true, none, arith, is_some, List, find, ◌==◌, some, All, update_if,
  any, Bool-cases, false, inl, inr, AreUnique, ok, AreUnique-snoc, err, Option-cases, All-append,
  internal, All-find, conflict, AreUnique-update_if, ◌⊎◌, All-update_row, length, ◌+◌, refl, Option,
  find-some, find-update_if,
}
use darknetra.Records.{Case, CaseStatus, opened, closed, archived}
use darknetra.Cases.{allowed, moved, transition, create, Store, record_entry, transition_action}

-- The dates of a case say what its status says.
abbrev pub IsDated : Case → Type 0
IsDated c = elim c.status as (λ s. Type 0) [
  | opened ↦ (c.closed_at ≡ none) × (c.archived_at ≡ none)
  | closed ↦ (is_some c.closed_at ≡ true) × (c.archived_at ≡ none)
  | archived ↦ (is_some c.closed_at ≡ true) × (is_some c.archived_at ≡ true)
]

moved-IsDated :
    (now : ℕ) (t : CaseStatus) (c : Case)
    → allowed c.status t ≡ true
    → IsDated c
    → IsDated (moved now t c)
moved-IsDated now opened c a d = ground arith
moved-IsDated now closed c a d = ground arith
moved-IsDated now archived c a d = ground arith

pub moved-id : (now : ℕ) (t : CaseStatus) (c : Case) → (moved now t c).id ≡ c.id
moved-id now opened c = refl
moved-id now closed c = refl
moved-id now archived c = refl

-- The table of cases: the identifiers are a key, and the dates fit.
pub record IsSound (cases : List Case) : Type 0 where
  pub unique : AreUnique (λ c. c.id) cases
  pub dated : All IsDated cases

-- A transition leaves every case's dates in step with its status, and so does a creation under a
-- new identifier.
pub transition-IsSound :
    (now id : ℕ) (t : CaseStatus) (s s' : Store) (c : Case)
    → IsSound s.dir.cases
    → transition now id t s ≡ ok (c, s')
    → IsSound s'.dir.cases × IsDated c
unfolding transition
transition-IsSound now id t s s' c v h = elim (Option-cases (find (λ c. c.id == id) s.dir.cases)) [
  | inl absent ↦ absurd (ground arith)
  | inr (old, e) ↦
      let may : allowed old.status t ≡ true = ground arith in
      let dated = moved-IsDated now t old may (All-find IsDated _ s.dir.cases old e v.dated) in
      let table : s'.dir.cases ≡ update_if (λ c. c.id == id) (moved now t) s.dir.cases =
        ground arith in
      let row : c ≡ moved now t old = ground arith in
      (
        rw table (record {
          unique =
              AreUnique-update_if _ _ (moved now t) s.dir.cases (λ x. moved-id now t x) v.unique;
          dated =
              All-update_row _ IsDated id (moved now t) s.dir.cases old e v.unique v.dated dated;
        }),
        rw row dated,
      )
]

pub create-IsSound :
    (id year user_id : ℕ) (s : Store)
    → any (λ c. c.id == id) s.dir.cases ≡ false
    → IsSound s.dir.cases
    → IsSound (create id year user_id s).1.dir.cases
unfolding create
create-IsSound id year user_id s fresh v = record {
  unique = AreUnique-snoc _ s.dir.cases _ fresh v.unique;
  dated = All-append IsDated s.dir.cases _ v.dated ((refl, refl), tt);
}

-- The moves that there are: an open case is closed, a closed one opened again or archived.
abbrev pub Moves : CaseStatus → CaseStatus → Type 0
Moves from to =
    ((from ≡ opened) × (to ≡ closed))
    ⊎ (((from ≡ closed) × (to ≡ opened)) ⊎ ((from ≡ closed) × (to ≡ archived)))

-- The dates of a case that has moved.
abbrev pub IsStamped : ℕ → CaseStatus → Case → Case → Type 0
IsStamped now opened c after = (after.closed_at ≡ none) × (after.archived_at ≡ c.archived_at)
IsStamped now closed c after = (after.closed_at ≡ some now) × (after.archived_at ≡ c.archived_at)
IsStamped now archived c after = (after.closed_at ≡ c.closed_at) × (after.archived_at ≡ some now)

-- The row after a move: the new status and its date, and all else as before.
pub record IsMoved (now : ℕ) (t : CaseStatus) (c after : Case) : Type 0 where
  pub status : after.status ≡ t
  pub stamped : IsStamped now t c after
  pub same_id : after.id ≡ c.id
  pub same_code : (after.year ≡ c.year) × (after.number ≡ c.number)
  pub same_hold : after.legal_hold ≡ c.legal_hold
  pub same_creator : after.created_by ≡ c.created_by

-- What a transition does, by the row that it finds.
abbrev pub Outcome : ℕ → ℕ → CaseStatus → Store → Option Case → Type 0
Outcome now id t s none = transition now id t s ≡ err internal
Outcome now id t s (some c) =
    ((Moves c.status t → ⊥) × (transition now id t s ≡ err conflict))
    ⊎ (Moves c.status t
        × ((after : Case) × (s' : Store) × (transition now id t s ≡ ok (after, s'))
            × IsMoved now t c after
            × (find (λ k. k.id == id) s'.dir.cases ≡ some after)
            × (keep (λ k. not (k.id == id)) s'.dir.cases ≡ keep (λ k. not (k.id == id)) s.dir.cases)
            × (length s'.audit ≡ length s.audit + 1)))

allowed-Moves : (from to : CaseStatus) → allowed from to ≡ true → Moves from to
allowed-Moves opened opened h = cc
allowed-Moves opened closed h = inl (refl, refl)
allowed-Moves opened archived h = cc
allowed-Moves closed opened h = inr (inl (refl, refl))
allowed-Moves closed closed h = cc
allowed-Moves closed archived h = inr (inr (refl, refl))
allowed-Moves archived opened h = cc
allowed-Moves archived closed h = cc
allowed-Moves archived archived h = cc

Moves-allowed : (from to : CaseStatus) → Moves from to → allowed from to ≡ true
Moves-allowed from to (inl (a, b)) = rw (a, b) refl
Moves-allowed from to (inr (inl (a, b))) = rw (a, b) refl
Moves-allowed from to (inr (inr (a, b))) = rw (a, b) refl

moved-IsMoved : (now : ℕ) (t : CaseStatus) (c : Case) → IsMoved now t c (moved now t c)
moved-IsMoved now opened c = record {
  status = refl;
  stamped = (refl, refl);
  same_id = refl;
  same_code = (refl, refl);
  same_hold = refl;
  same_creator = refl;
}
moved-IsMoved now closed c = record {
  status = refl;
  stamped = (refl, refl);
  same_id = refl;
  same_code = (refl, refl);
  same_hold = refl;
  same_creator = refl;
}
moved-IsMoved now archived c = record {
  status = refl;
  stamped = (refl, refl);
  same_id = refl;
  same_code = (refl, refl);
  same_hold = refl;
  same_creator = refl;
}

keep-moved :
    (now id : ℕ) (t : CaseStatus) (cases : List Case)
    → keep (λ k. not (k.id == id)) (update_if (λ k. k.id == id) (moved now t) cases)
      ≡ keep (λ k. not (k.id == id)) cases
keep-moved now id t [] = refl
keep-moved now id t (c ∷ cases) = elim (Bool-cases (c.id == id)) [
  | inl here ↦ rw here (ground (arith, here, moved-id now t c, keep-moved now id t cases))
  | inr there ↦ rw (there, there) (ground (arith, keep-moved now id t cases))
]

transition-by-row :
    (now id : ℕ) (t : CaseStatus) (s : Store) (found : Option Case)
    → find (λ c. c.id == id) s.dir.cases ≡ found
    → Outcome now id t s found
unfolding transition
transition-by-row now id t s none e = rw e
transition-by-row now id t s (some c) e = elim (Bool-cases (allowed c.status t)) [
  | inr refused ↦
      inl ((λ may. absurd (cc (rw (Moves-allowed c.status t may) at refused))), ground arith)
  | inl may ↦
      let here = find-some (λ c. c.id == id) s.dir.cases c e in
      let cases = update_if (λ c. c.id == id) (moved now t) s.dir.cases in
      let audit = record_entry (transition_action t) (some id) (some id) s.audit in
      inr (
        allowed-Moves c.status t may,
        (
          moved now t c,
          record { dir = record (s.dir) { cases = cases }; audit = audit },
          rw (e, may),
          moved-IsMoved now t c,
          find-update_if _ (moved now t) s.dir.cases c e (ground (arith, moved-id now t c)),
          keep-moved now id t s.dir.cases,
          length-record_entry (transition_action t) (some id) (some id) s.audit,
        ),
      )
]

-- The outcome of a transition, on every branch: an unknown case is an internal error; otherwise it
-- succeeds exactly from open to closed, from closed to open and from closed to archived, and is a conflict
-- elsewhere. A success stores the row with the new status and its date, clears the closing date of a
-- case that is opened again, leaves the other cases as they are, and adds one audit entry.
pub transition-Outcome :
    (now id : ℕ) (t : CaseStatus) (s : Store)
    → Outcome now id t s (find (λ c. c.id == id) s.dir.cases)
transition-Outcome now id t s = transition-by-row now id t s _ refl
