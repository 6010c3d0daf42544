-- ===== src/Alerts/Cap.antt =====
-- The hourly cap of monitor/alerts.py `raise_alert`: the counts of a case in an hour.
use darknetra.Cases.{ensure_open}
use darknetra.Authz.Access.{case_of}
use darknetra.Prelude.{
  ℕ, ◌≤◌, ◌≡◌, Bool, List, Text, ◌==◌, count_if, ◌&&◌, none, ok, not, [], update_if, keep, ◌∷◌,
  arith, ◌⊎◌, Option-cases, refl, ◌<◌, ◌++◌, inl, inr, Result-cases, ◌/◌, count_if-le, length-keep,
  false, Bool-cases, ◌-◌, count_if-update_if, leb, ◌%◌, count_if-append,
}
use darknetra.Cases.{ensure_open}
use darknetra.Alerts.{
  is_overflow, raise_alert, hourly_cap, Signal, earliest, signal_since, hour_of, is_overflow,
  hour_start, attached, overflow_since, fresh_alert, evidence_refs,
}
use darknetra.Decisions.Rows.{Alert, Store}

abbrev pub in_hour : ℕ → ℕ → Alert → Bool
in_hour case_id hour a = a.case_id == case_id && hour_of a.at == hour

abbrev pub signals_in : ℕ → ℕ → List Alert → ℕ
signals_in case_id hour alerts =
    count_if (λ a. in_hour case_id hour a && not (is_overflow a.kind)) alerts

abbrev pub overflows_in : ℕ → ℕ → List Alert → ℕ
overflows_in case_id hour alerts =
    count_if (λ a. in_hour case_id hour a && is_overflow a.kind) alerts

-- In no hour has a case more than the cap of signals, or more than one overflow row.
abbrev pub IsCapped : List Alert → Type 0
IsCapped alerts =
    (case_id hour : ℕ)
    → (signals_in case_id hour alerts ≤ hourly_cap) × (overflows_in case_id hour alerts ≤ 1)

-- The two ways in which `raise_alert` changes the table.
abbrev pub Raised : (ℕ → Text) → ℕ → ℕ → ℕ → ℕ → Signal → List Alert → List Alert → Type 0
Raised count_text started now id case_id g alerts alerts' =
    ((kept : Alert) × (hourly_cap ≤ count_if (signal_since case_id (hour_start now)) alerts)
      × (alerts' ≡ update_if (λ a. a.id == kept.id) (attached count_text g.evidence_ids) alerts))
    ⊎ (((count_if (signal_since case_id (hour_start now)) alerts < hourly_cap)
          ⊎ (keep (overflow_since case_id (hour_start now)) alerts ≡ []))
        × (alerts'
            ≡ alerts
              ++ (fresh_alert count_text started id case_id g
                    (count_if (signal_since case_id (hour_start now)) alerts)
                  ∷ [])))

earliest-none : (rest : List Alert) → earliest rest ≡ none → rest ≡ []
earliest-none [] h = refl
earliest-none (a ∷ rest) h = absurd (ground arith)

raise_alert-Raised :
    (count_text : ℕ → Text) (started now id : ℕ) (s : Store) (case_id : ℕ) (g : Signal) (a : Alert)
    (s' : Store)
    → raise_alert count_text started now id s case_id g ≡ ok (a, s')
    → Raised count_text started now id case_id g s.alerts s'.alerts
unfolding raise_alert
raise_alert-Raised count_text started now id s case_id g a s' h =
    let total = count_if (signal_since case_id (hour_start now)) s.alerts in
    let rows = keep (overflow_since case_id (hour_start now)) s.alerts in
    elim (Option-cases (case_of s.dir case_id)) [
      | inl absent ↦ absurd (ground arith)
      | inr (c, found) ↦ elim (Result-cases (ensure_open c)) [
        | inr (e, shut) ↦ absurd (ground arith)
        | inl (done, is_open) ↦
            elim (Result-cases (evidence_refs case_id g.evidence_ids s.evidence)) [
              | inr (e, missing) ↦ absurd (ground arith)
              | inl (refs, there) ↦ elim (Bool-cases (leb hourly_cap total)) [
                | inr below ↦ inr (inl (ground arith), ground arith)
                | inl full ↦ elim (Option-cases (earliest rows)) [
                  | inl first ↦ inr (inr (earliest-none rows first), ground arith)
                  | inr (kept, later) ↦ inl (kept, ground arith, ground arith)
                ]
              ]
            ]
      ]
    ]

-- A row of an hour is not before the hour starts.
hour_start-le : (now at : ℕ) → at / 3600000000 ≡ now / 3600000000 → now - now % 3600000000 ≤ at
hour_start-le now at h = omega arith

signals-le :
    (now case_id : ℕ) (alerts : List Alert)
    → signals_in case_id (hour_of now) alerts
      ≤ count_if (signal_since case_id (hour_start now)) alerts
signals-le now case_id alerts =
    count_if-le (λ a. in_hour case_id (hour_of now) a && not (is_overflow a.kind))
      (signal_since case_id (hour_start now)) (λ a h. ground (arith, hour_start-le now a.at)) alerts

overflows-le :
    (now case_id : ℕ) (alerts : List Alert)
    → overflows_in case_id (hour_of now) alerts
      ≤ count_if (overflow_since case_id (hour_start now)) alerts
overflows-le now case_id alerts =
    count_if-le (λ a. in_hour case_id (hour_of now) a && is_overflow a.kind)
      (overflow_since case_id (hour_start now)) (λ a h. ground (arith, hour_start-le now a.at))
      alerts

no-overflow :
    (now case_id : ℕ) (alerts : List Alert)
    → keep (overflow_since case_id (hour_start now)) alerts ≡ []
    → overflows_in case_id (hour_of now) alerts ≡ 0
no-overflow now case_id alerts h = ground (
  arith,
  overflows-le now case_id alerts,
  length-keep {0} (overflow_since case_id (hour_start now)) alerts,
)

-- A row of the current hour that is an overflow row exactly when the cap is reached keeps the cap.
snoc-IsCapped :
    (now case_id : ℕ) (alerts : List Alert) (r : Alert)
    → r.case_id ≡ case_id
    → hour_of r.at ≡ hour_of now
    → is_overflow r.kind ≡ leb hourly_cap (count_if (signal_since case_id (hour_start now)) alerts)
    → (count_if (signal_since case_id (hour_start now)) alerts < hourly_cap)
      ⊎ (keep (overflow_since case_id (hour_start now)) alerts ≡ [])
    → IsCapped alerts
    → IsCapped (alerts ++ (r ∷ []))
snoc-IsCapped now case_id alerts r of_case in_time kind room capped c hour =
    let p : Alert → Bool = λ a. in_hour c hour a && not (is_overflow a.kind) in
    let q : Alert → Bool = λ a. in_hour c hour a && is_overflow a.kind in
    elim (Bool-cases (in_hour c hour r)) [
      | inr elsewhere ↦ (
        ground (arith, capped c hour, count_if-append p alerts (r ∷ [])),
        ground (arith, capped c hour, count_if-append q alerts (r ∷ [])),
      )
      | inl here ↦
          let same_case : c ≡ case_id = ground arith in
          let same_hour : hour ≡ hour_of now = ground arith in
          let signals : signals_in c hour alerts
              ≤ count_if (signal_since case_id (hour_start now)) alerts =
            rw (same_case, same_hour) (signals-le now case_id alerts) in
          let overflows : keep (overflow_since case_id (hour_start now)) alerts ≡ []
              → overflows_in c hour alerts ≡ 0 =
            rw (same_case, same_hour) (no-overflow now case_id alerts) in
          (
            ground (arith, capped c hour, signals, count_if-append p alerts (r ∷ [])),
            ground (arith, capped c hour, overflows, count_if-append q alerts (r ∷ [])),
          )
    ]

-- Raising an alert of any other kind than the overflow row keeps the cap of every case in every hour, if
-- the transaction started in the hour in which the alerts are counted.
pub raise_alert-IsCapped :
    (count_text : ℕ → Text) (started now id : ℕ) (s : Store) (case_id : ℕ) (g : Signal) (a : Alert)
    (s' : Store)
    → is_overflow g.kind ≡ false
    → hour_of started ≡ hour_of now
    → IsCapped s.alerts
    → raise_alert count_text started now id s case_id g ≡ ok (a, s')
    → IsCapped s'.alerts
raise_alert-IsCapped count_text started now id s case_id g a s' plain in_time capped h c hour =
    elim (raise_alert-Raised count_text started now id s case_id g a s' h) [
      | inl (kept, full, table) ↦
          let q : Alert → Bool = λ b. b.id == kept.id in
          let f = attached count_text g.evidence_ids in
          rw table (
            ground (
              arith,
              capped c hour,
              count_if-update_if (λ b. in_hour c hour b && not (is_overflow b.kind)) q f s.alerts
                  (λ b k. refl),
            ),
            ground (
              arith,
              capped c hour,
              count_if-update_if (λ b. in_hour c hour b && is_overflow b.kind) q f s.alerts
                  (λ b k. refl),
            ),
          )
      | inr (room, table) ↦ rw table (
          snoc-IsCapped now case_id s.alerts
            (fresh_alert count_text started id case_id g
              (count_if (signal_since case_id (hour_start now)) s.alerts))
            (ground arith) (ground arith) (ground arith) room capped c hour)
    ]
