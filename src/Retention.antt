-- ===== src/Retention.antt =====
-- monitor/retention.py: `expire`, which ends the visibility of old evidence. The retention period of
-- a case's policy, in days, and the order of codes in the database are arguments.
pub mod Expiry
mod Tests
use darknetra.Prelude.{
  ℕ, ◌*◌, ◌-◌, List, [], ◌∷◌, Bool, true, false, ◌&&◌, ◌||◌, ◌==◌, ltb, Option, none, some, find,
  keep, map, update_if, if◌then◌else◌, Result, ok, err, not_found,
}
use darknetra.Records.{Case, Evidence, EvidenceStatus}
use darknetra.Audit.{Entry, record_entry}

pub record Store : Type 0 where
  pub cases : List Case
  pub evidence : List Evidence
  pub trail : List Entry

-- `timedelta(days=days)` in microseconds
abbrev pub days_long : ℕ → ℕ
days_long days = days * 86400000000

abbrev pub is_visible : EvidenceStatus → Bool
is_visible EvidenceStatus.ready = true
is_visible EvidenceStatus.partial = true
is_visible _ = false

-- The `where` clause of the query.
abbrev pub due : ℕ → ℕ → Evidence → Bool
due case_id threshold e = e.case_id == case_id && ltb e.captured_at threshold && is_visible e.status

abbrev pub expired : Evidence → Evidence
expired e = record e { status = EvidenceStatus.expired }

-- `order_by(Evidence.code)`
abbrev pub insert_row : (ℕ → ℕ → Bool) → Evidence → List Evidence → List Evidence
insert_row before e [] = e ∷ []
insert_row before e (row ∷ rows) =
    let rest = insert_row before e rows in
    if before row.code e.code then row ∷ rest else e ∷ row ∷ rows

abbrev pub by_code : (ℕ → ℕ → Bool) → List Evidence → List Evidence
by_code before [] = []
by_code before (e ∷ rows) = insert_row before e (by_code before rows)

-- The entries of the loop over the rows.
abbrev pub log_expired : ℕ → List Evidence → List Entry → List Entry
log_expired case_id [] trail = trail
log_expired case_id (e ∷ rows) trail =
    log_expired case_id rows (record_entry "evidence.expired" (some case_id) (some e.id) trail)

abbrev pub expire_before : (ℕ → ℕ → Bool) → ℕ → ℕ → Store → List Evidence × Store
expire_before before case_id threshold s =
    let rows = by_code before (keep (due case_id threshold) s.evidence) in
    (
      map expired rows,
      record {
        cases = s.cases;
        evidence = update_if (due case_id threshold) expired s.evidence;
        trail = log_expired case_id rows s.trail;
      },
    )

abbrev pub is_held : Case → ℕ → Bool
is_held c days = c.legal_hold || days == 0

unfoldable pub expire : (ℕ → ℕ → Bool) → (Case → ℕ) → ℕ → ℕ → Store → Result (List Evidence × Store)
expire before retention_days now case_id s = elim (find (λ c. c.id == case_id) s.cases) [
  | none ↦ err not_found
  | some c ↦
      let days = retention_days c in
      if is_held c days
      then ok ([], s)
      else ok (expire_before before case_id (now - days_long days) s)
]
