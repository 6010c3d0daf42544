-- ===== src/Agent/Limits.antt =====
-- agent/service.py: the limits on concurrent runs.
use darknetra.Agent.Budget.{remaining, charge}
use darknetra.Prelude.{
  none, some, ℕ, ◌≤◌, ◌≡◌, ok, List, Bool, true, false, count_if, Option, update_if, Text, arith,
  Result-cases, count_if-zero, count_if-update_if_le, Option-cases, any, count_if-append, find, inr,
  ◌<◌, ◌∷◌, ◌==◌, inl, [], ◌&&◌, Bool-cases, subst, ◌++◌,
}
use darknetra.Agent.Runs.{
  Run, Settings, Harness, Store, active_in_case, active_in_thread, post_message, finish_run, Ending,
  is_active, get_thread, attach, queued_run, select_harness, is_run, ended,
}
use darknetra.Records.{Thread}

-- At most three runs of a case are active, and at most one of a thread.
abbrev pub IsLimited : List Run → Type 0
IsLimited runs =
    (case_id thread_id : ℕ)
    → (count_if (active_in_case case_id) runs ≤ 3)
      × (count_if (active_in_thread case_id thread_id) runs ≤ 1)

-- The gates that a posted message has passed.
pub record IsPosted (now id : ℕ) (settings : Settings) (wanted : Option Harness) (s : Store)
    (case_id thread_id : ℕ) (content : Text) (attachments : List ℕ) (run : Run) (s' : Store)
    (thread : Thread) (attached : List ℕ) : Type 0 where
  pub found : get_thread case_id thread_id s ≡ ok thread
  pub writable : thread.is_opened ≡ true
  pub idle : any (active_in_thread case_id thread_id) s.runs ≡ false
  pub room : count_if (active_in_case case_id) s.runs < 3
  pub funded : 2500 ≤ remaining thread
  pub accessible : attach case_id attachments s.evidence ≡ ok attached
  pub run_eq : run ≡ queued_run id case_id thread_id (select_harness settings wanted)
  pub runs_eq : s'.runs ≡ s.runs ++ (run ∷ [])

-- A message is queued only on an open thread without an active run, in a case with fewer than three,
-- with at least 0.25 USD left, and with accessible attachments; one queued run is added.
pub post_message-IsPosted :
    (now id : ℕ) (settings : Settings) (wanted : Option Harness) (s : Store) (case_id thread_id : ℕ)
    (content : Text) (attachments : List ℕ) (run : Run) (s' : Store)
    → post_message now id settings wanted s case_id thread_id content attachments ≡ ok (run, s')
    → (thread : Thread) × (attached : List ℕ) × IsPosted now id settings wanted s case_id thread_id
        content attachments run s' thread attached
unfolding post_message
post_message-IsPosted now id settings wanted s case_id thread_id content attachments run s' h =
    elim (Result-cases (get_thread case_id thread_id s)) [
      | inr (e, unknown) ↦ absurd (ground arith)
      | inl (thread, found) ↦ elim (Result-cases (attach case_id attachments s.evidence)) [
        | inr (e, missing) ↦ absurd (ground arith)
        | inl (attached, there) ↦ (
          thread,
          attached,
          record {
            found = found;
            writable = ground arith;
            idle = ground arith;
            room = ground arith;
            funded = ground arith;
            accessible = there;
            run_eq = ground arith;
            runs_eq = ground arith;
          },
        )
      ]
    ]

-- Posting a message keeps the limits of every case and every thread.
pub post_message-IsLimited :
    (now id : ℕ) (settings : Settings) (wanted : Option Harness) (s : Store) (case_id thread_id : ℕ)
    (content : Text) (attachments : List ℕ) (run : Run) (s' : Store)
    → IsLimited s.runs
    → post_message now id settings wanted s case_id thread_id content attachments ≡ ok (run, s')
    → IsLimited s'.runs
post_message-IsLimited now id settings wanted s case_id thread_id content attachments run s' limited
      h c t =
    let (thread, attached, p) =
      post_message-IsPosted now id settings wanted s case_id thread_id content attachments run s'
        h in
    let idle = count_if-zero (active_in_thread case_id thread_id) s.runs p.idle in
    let (few, one) = limited c t in
    let room : c ≡ case_id → count_if (active_in_case c) s.runs < 3 = λ e. rw e p.room in
    let free : c ≡ case_id → t ≡ thread_id → count_if (active_in_thread c t) s.runs ≡ 0 =
      λ e k. rw (e, k) idle in
    rw p.runs_eq (
      rw (count_if-append (active_in_case c) s.runs (run ∷ []))
          (ground (arith, few, room, p.run_eq)),
      rw (count_if-append (active_in_thread c t) s.runs (run ∷ []))
          (ground (arith, one, free, p.run_eq)),
    )

-- An update that activates no run keeps the limits.
update_if-IsLimited :
    (p : Run → Bool) (f : Run → Run) (runs : List Run)
    → ((c t : ℕ) (r : Run) → active_in_case c (f r) ≡ true → active_in_case c r ≡ true)
    → ((c t : ℕ) (r : Run) → active_in_thread c t (f r) ≡ true → active_in_thread c t r ≡ true)
    → IsLimited runs
    → IsLimited (update_if p f runs)
update_if-IsLimited p f runs h k limited c t =
    let (few, one) = limited c t in
    (
      omega (arith, few, count_if-update_if_le (active_in_case c) p f runs (h c t)),
      omega (arith, one, count_if-update_if_le (active_in_thread c t) p f runs (k c t)),
    )

-- The end of a run keeps the limits.
pub finish_run-IsLimited :
    (now : ℕ) (e : Ending) (s s' : Store) (case_id thread_id run_id : ℕ)
    → is_active e.status ≡ false
    → IsLimited s.runs
    → finish_run now e s case_id thread_id run_id ≡ ok s'
    → IsLimited s'.runs
unfolding finish_run
finish_run-IsLimited now e s s' case_id thread_id run_id over limited h =
    elim (Option-cases
      (find (λ r. r.case_id == case_id && r.thread_id == thread_id && r.id == run_id) s.runs)) [
        | inl unknown ↦ absurd (ground arith)
        | inr (run, found) ↦ elim (Bool-cases (is_active run.status)) [
          | inr past ↦
              let same : s ≡ s' = ground arith in subst (λ x. IsLimited x.runs) same limited
          | inl active ↦ elim (Result-cases (get_thread case_id thread_id s)) [
            | inr (e', unknown) ↦ absurd (ground arith)
            | inl (thread, there) ↦ elim (Result-cases (charge thread e.cost_usd)) [
              | inr (e', invalid) ↦ absurd (ground arith)
              | inl (charged, valid) ↦
                  let cost : ℕ = elim e.cost_usd [ none ↦ 0 | some c ↦ c ] in
                  let table : s'.runs
                      ≡ update_if (is_run case_id run_id) (ended now e cost) s.runs =
                    ground arith in
                  rw table (
                    update_if-IsLimited (is_run case_id run_id) (ended now e cost) s.runs
                      (λ c t r. ground arith) (λ c t r. ground arith) limited)
            ]
          ]
        ]
      ]
