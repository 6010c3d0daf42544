-- ===== src/Retention/Expiry.antt =====
-- What `expire` of monitor/retention.py does to the evidence.
use darknetra.Prelude.{
  ◌&&◌, ltb, ◌*◌, if◌then◌else◌, ℕ, ◌+◌, ◌-◌, List, [], ◌∷◌, ◌≡◌, refl, true, false, Bool, ◌==◌,
  find, some, keep, map, any, length, update_if, count_if, arith, ok, Bool-cases, Option-cases, ◌⊎◌,
  inl, subst, inr,
}
use darknetra.Records.{Case, Evidence, EvidenceStatus}
use darknetra.Audit.{Entry, length-record_entry}
use darknetra.Retention.{
  is_visible, Store, due, expired, insert_row, by_code, log_expired, days_long, is_held, expire,
  expire_before,
}

-- What retention preserves of a row: all but its status.
abbrev pub provenance : Evidence → (ℕ × ℕ) × (ℕ × (ℕ × ℕ))
provenance e = ((e.id, e.case_id), (e.code, (e.sha256, e.captured_at)))

abbrev pub was_visible : EvidenceStatus → Bool
was_visible EvidenceStatus.ready = true
was_visible EvidenceStatus.partial = true
was_visible EvidenceStatus.processing = false
was_visible EvidenceStatus.quarantined = false
was_visible EvidenceStatus.failed = false
was_visible EvidenceStatus.expired = false

-- Ready or partial evidence of the case that was captured before the period.
abbrev pub was_due : ℕ → ℕ → ℕ → Evidence → Bool
was_due case_id now days e =
    e.case_id == case_id && ltb e.captured_at (now - days * 86400000000) && was_visible e.status

abbrev pub ended : Evidence → Evidence
ended e = record e { status = EvidenceStatus.expired }

-- With or without an expiry: every row keeps its provenance, and one entry is logged for each row
-- that is returned. Under a legal hold, or without a period, nothing changes.
-- Otherwise the rows that were due are expired, and no other, and none is due any more; the rows that are
-- returned are these, each once, as every test that counts them sees.
pub record IsExpired (c : Case) (days now case_id : ℕ) (s s' : Store) (rows : List Evidence)
    : Type 0 where
  pub found : find (λ k. k.id == case_id) s.cases ≡ some c
  pub preserved : map provenance s'.evidence ≡ map provenance s.evidence
  pub logged : length s'.trail ≡ length s.trail + length rows
  pub outcome :
      ((is_held c days ≡ true) × (s' ≡ s) × (rows ≡ []))
      ⊎ ((is_held c days ≡ false)
          × ((q : Evidence → Bool)
              → count_if q rows
                ≡ count_if (λ e. was_due case_id now days e && q (ended e)) s.evidence)
          × (s'.evidence ≡ map (λ e. if was_due case_id now days e then ended e else e) s.evidence)
          × (any (was_due case_id now days) s'.evidence ≡ false))

is_visible-was_visible : (t : EvidenceStatus) → is_visible t ≡ was_visible t
is_visible-was_visible EvidenceStatus.ready = refl
is_visible-was_visible EvidenceStatus.partial = refl
is_visible-was_visible EvidenceStatus.processing = refl
is_visible-was_visible EvidenceStatus.quarantined = refl
is_visible-was_visible EvidenceStatus.failed = refl
is_visible-was_visible EvidenceStatus.expired = refl

due-was_due :
    (case_id now days : ℕ) (e : Evidence)
    → due case_id (now - days_long days) e ≡ was_due case_id now days e
due-was_due case_id now days e = rw (is_visible-was_visible e.status) refl

count_if-insert_row :
    (q : Evidence → Bool) (before : ℕ → ℕ → Bool) (e : Evidence) (rows : List Evidence)
    → count_if q (map expired (insert_row before e rows)) ≡ count_if q (map expired (e ∷ rows))
count_if-insert_row q before e [] = refl
count_if-insert_row q before e (row ∷ rows) = ground (arith, count_if-insert_row q before e rows)

-- The rows that are returned, whatever test counts them.
count_if-rows :
    (q : Evidence → Bool) (before : ℕ → ℕ → Bool) (case_id now days : ℕ) (rows : List Evidence)
    → count_if q (map expired (by_code before (keep (due case_id (now - days_long days)) rows)))
      ≡ count_if (λ e. was_due case_id now days e && q (ended e)) rows
count_if-rows q before case_id now days [] = refl
count_if-rows q before case_id now days (e ∷ rows) =
    let same = due-was_due case_id now days e in
    let rest = count_if-rows q before case_id now days rows in
    elim (Bool-cases (was_due case_id now days e)) [
      | inr not_due ↦ rw (same, not_due) rest
      | inl now_due ↦
          rw
            (
              same,
              now_due,
              count_if-insert_row q before e
                  (by_code before (keep (due case_id (now - days_long days)) rows)),
            )
            (ground (arith, rest))
    ]

-- The table, row by row.
update_if-rows :
    (case_id now days : ℕ) (rows : List Evidence)
    → update_if (due case_id (now - days_long days)) expired rows
      ≡ map (λ e. if was_due case_id now days e then ended e else e) rows
update_if-rows case_id now days [] = refl
update_if-rows case_id now days (e ∷ rows) =
    rw (due-was_due case_id now days e, update_if-rows case_id now days rows) refl

none_left :
    (case_id now days : ℕ) (rows : List Evidence)
    → any
        (was_due case_id now days)
        (map (λ e. if was_due case_id now days e then ended e else e) rows)
      ≡ false
none_left case_id now days [] = refl
none_left case_id now days (e ∷ rows) = elim (Bool-cases (was_due case_id now days e)) [
  | inl now_due ↦ rw now_due (ground (arith, none_left case_id now days rows))
  | inr not_due ↦ rw (not_due, not_due) (none_left case_id now days rows)
]

length-log_expired :
    (case_id : ℕ) (rows : List Evidence) (trail : List Entry)
    → length (log_expired case_id rows trail) ≡ length trail + length rows
length-log_expired case_id [] trail = omega arith
length-log_expired case_id (e ∷ rows) trail = omega (
  arith,
  length-log_expired case_id rows _,
  length-record_entry "evidence.expired" (some case_id) (some e.id) trail,
)

length-map : (rows : List Evidence) → length (map expired rows) ≡ length rows
length-map [] = refl
length-map (e ∷ rows) = omega (arith, length-map rows)

map-update_if :
    (p : Evidence → Bool) (rows : List Evidence)
    → map provenance (update_if p expired rows) ≡ map provenance rows
map-update_if p [] = refl
map-update_if p (e ∷ rows) = elim (Bool-cases (p e)) [
  | inl yes_p ↦ rw (yes_p, map-update_if p rows) refl
  | inr no_p ↦ rw (no_p, map-update_if p rows) refl
]

held_case :
    (c : Case) (days now case_id : ℕ) (s s' : Store) (rows : List Evidence)
    → find (λ k. k.id == case_id) s.cases ≡ some c
    → is_held c days ≡ true
    → ◌≡◌ {A = List Evidence × Store} ([], s) (rows, s')
    → IsExpired c days now case_id s s' rows
held_case c days now case_id s s' rows found yes_held h =
    let same : s' ≡ s = ground arith in
    let empty : rows ≡ [] = ground arith in
    record {
      found = found;
      preserved = rw same refl;
      logged = rw (same, empty) (omega arith);
      outcome = inl (yes_held, same, empty);
    }

ended_case :
    (before : ℕ → ℕ → Bool) (c : Case) (days now case_id : ℕ) (s s' : Store) (rows : List Evidence)
    → find (λ k. k.id == case_id) s.cases ≡ some c
    → is_held c days ≡ false
    → expire_before before case_id (now - days_long days) s ≡ (rows, s')
    → IsExpired c days now case_id s s' rows
ended_case before c days now case_id s s' rows found no_held h =
    let limit = now - days_long days in
    let picked = keep (due case_id limit) s.evidence in
    let sorted = by_code before picked in
    subst (λ r. IsExpired c days now case_id s r.1 r.0) h
      (record {
        found = found;
        preserved = map-update_if (due case_id limit) s.evidence;
        logged = omega (arith, length-log_expired case_id sorted s.trail, length-map sorted);
        outcome = inr (
          no_held,
          λ q. count_if-rows q before case_id now days s.evidence,
          update_if-rows case_id now days s.evidence,
          rw (update_if-rows case_id now days s.evidence) (none_left case_id now days s.evidence),
        );
      })

-- When `expire` returns, its case exists, every row of evidence keeps all but its status, and the
-- trail grows by one entry for each row returned. Under a legal hold, or without a retention period,
-- the state stays as it is. Otherwise exactly the visible rows of the case from before the period
-- are returned and become expired, and none is left to expire.
pub expire-IsExpired :
    (before : ℕ → ℕ → Bool) (retention_days : Case → ℕ) (now case_id : ℕ) (s s' : Store)
    (rows : List Evidence)
    → expire before retention_days now case_id s ≡ ok (rows, s')
    → (c : Case) × IsExpired c (retention_days c) now case_id s s' rows
unfolding expire
expire-IsExpired before retention_days now case_id s s' rows h =
    elim (Option-cases (find (λ k. k.id == case_id) s.cases)) [
      | inl missing ↦ ground arith
      | inr (c, found) ↦ elim (Bool-cases (is_held c (retention_days c))) [
        | inl yes_held ↦
            (c, held_case c (retention_days c) now case_id s s' rows found yes_held (ground arith))
        | inr no_held ↦ (
          c,
          ended_case before c (retention_days c) now case_id s s' rows found no_held (ground arith),
        )
      ]
    ]
