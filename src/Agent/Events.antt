-- ===== src/Agent/Events.antt =====
-- agent/events.py: the log of the events of a run.
use darknetra.Prelude.{
  ℕ, ◌+◌, ◌≤◌, ◌<◌, ◌≡◌, List, [], ◌∷◌, ◌++◌, String, Bool, true, ◌&&◌, ◌==◌, max_of, map, keep,
  All, arith, All-append,
}

-- Of the data of an event nothing is kept.
pub record RunEvent : Type 0 where
  pub case_id : ℕ
  pub run_id : ℕ
  pub seq : ℕ
  pub type : String
  pub at : ℕ

abbrev pub of_run : ℕ → ℕ → RunEvent → Bool
of_run case_id run_id e = e.case_id == case_id && e.run_id == run_id

-- `append`: the run is locked, so the next number is free.
unfoldable pub append : ℕ → ℕ → ℕ → String → List RunEvent → List RunEvent
append now case_id run_id type events =
    let seq = max_of (map (λ e. e.seq) (keep (of_run case_id run_id) events)) + 1 in
    events ++ (record { case_id = case_id; run_id = run_id; seq = seq; type = type; at = now } ∷ [])

-- The numbers of a run's events grow along the log.
abbrev pub AreAscending : List RunEvent → Type 0
AreAscending [] = Unit
AreAscending (e ∷ events) =
    All (λ f. of_run e.case_id e.run_id f ≡ true → e.seq < f.seq) events × AreAscending events

max_of-lt :
    (case_id run_id : ℕ) (e : RunEvent) (events : List RunEvent)
    → of_run case_id run_id e ≡ true
    → e.seq ≤ max_of (map (λ e. e.seq) (keep (of_run case_id run_id) (e ∷ events)))
max_of-lt case_id run_id e events h = ground arith

snoc-AreAscending :
    (events : List RunEvent) (f : RunEvent)
    → max_of (map (λ e. e.seq) (keep (of_run f.case_id f.run_id) events)) < f.seq
    → AreAscending events
    → AreAscending (events ++ (f ∷ []))
snoc-AreAscending [] f h k = (tt, tt)
snoc-AreAscending (e ∷ events) f h k = (
  All-append (λ g. of_run e.case_id e.run_id g ≡ true → e.seq < g.seq) events (f ∷ []) k.0
      (λ same. ground arith, tt),
  snoc-AreAscending events f (ground arith) k.1,
)

-- Appending an event keeps the numbers of every run's events growing along the log.
pub append-AreAscending :
    (now case_id run_id : ℕ) (type : String) (events : List RunEvent)
    → AreAscending events
    → AreAscending (append now case_id run_id type events)
unfolding append
append-AreAscending now case_id run_id type events h = snoc-AreAscending events _ (omega arith) h
