-- ===== src/Monitor/Backoff.antt =====
-- The waiting times of monitor/runner.py after failures of a source.
use darknetra.Prelude.{
  ℕ, zero, suc, ◌+◌, ◌-◌, ◌≤◌, min, ◌≡◌, refl, Bool, true, false, ◌==◌, some, arith, Error, List,
  Result-cases, ◌∷◌, [], ok, inr, ◌∙◌, inl, ap,
}
use darknetra.Monitor.Sources.{Source, source_ordinal, sources_for}
use darknetra.Monitor.Rows.{seconds, Item}
use darknetra.Monitor.Publish.{
  Publication, retry_delay, failed_source, is_denial, backoff_seconds, is_rate_limited, Call,
  Outcome, collect_source,
}

-- The waits in seconds after a number of failures in a row.
abbrev pub wait_seconds : ℕ → ℕ
wait_seconds zero = 60
wait_seconds (suc zero) = 60
wait_seconds (suc (suc zero)) = 120
wait_seconds (suc (suc (suc zero))) = 240
wait_seconds (suc (suc (suc (suc zero)))) = 480
wait_seconds (suc (suc (suc (suc (suc zero))))) = 960
wait_seconds (suc (suc (suc (suc (suc (suc zero)))))) = 1920
wait_seconds (suc (suc (suc (suc (suc (suc (suc n))))))) = 3600

backoff_seconds-wait_seconds : (n : ℕ) → backoff_seconds n ≡ wait_seconds n
backoff_seconds-wait_seconds zero = omega arith
backoff_seconds-wait_seconds (suc zero) = omega arith
backoff_seconds-wait_seconds (suc (suc zero)) = omega arith
backoff_seconds-wait_seconds (suc (suc (suc zero))) = omega arith
backoff_seconds-wait_seconds (suc (suc (suc (suc zero)))) = omega arith
backoff_seconds-wait_seconds (suc (suc (suc (suc (suc zero))))) = omega arith
backoff_seconds-wait_seconds (suc (suc (suc (suc (suc (suc zero)))))) = omega arith
backoff_seconds-wait_seconds (suc (suc (suc (suc (suc (suc (suc n))))))) =
    let full : min (suc (suc (suc (suc (suc (suc (suc n)))))) - 1) 6 ≡ 6 = omega arith in
    rw full refl

-- The delay is cut down to whole seconds.
still_waits :
    (until now : ℕ) → now + seconds 1 ≤ until → (retry_delay (some until) now == 0) ≡ false
still_waits until now h =
    let some_left : 1 ≤ retry_delay (some until) now = omega arith in ground arith

waits_no_more : (until now : ℕ) → until ≤ now → retry_delay (some until) now ≡ 0
waits_no_more until now h = omega arith

limited_of_denial : (code : Error) → is_denial code ≡ false → is_rate_limited code ≡ false
limited_of_denial code h = ground arith

-- An adapter is not asked for a source whose time has not come, and is asked from that time on.
collect_source-waits :
    (c : Call) (i : Item) (a b : Source → Outcome) (source : Source) (until : ℕ)
    → i.source_backoff source ≡ some until
    → c.now + seconds 1 ≤ until
    → collect_source c i a source ≡ collect_source c i b source
collect_source-waits c i a b source until set early =
    elim (Result-cases (sources_for i.kind (source ∷ []) c.grants)) [
      | inr (e, denied) ↦ rw (collect_source, denied) refl
      | inl (sources, granted) ↦
          rw (collect_source, granted, set, still_waits until c.now early) refl
    ]

collect_source-asks :
    (c : Call) (i : Item) (a : Source → Outcome) (source : Source) (until : ℕ)
    (sources : List Source)
    → i.source_backoff source ≡ some until
    → sources_for i.kind (source ∷ []) c.grants ≡ ok sources
    → until ≤ c.now
    → collect_source c i a source ≡ a source
collect_source-asks c i a source until sources set granted late =
    rw (collect_source, granted, set, waits_no_more until c.now late) refl

failed_source-set :
    (now : ℕ) (source : Source) (code : Error) (wait : ℕ) (deferred : Bool) (p : Publication)
    → is_denial code ≡ false
    → ((failed_source now source code wait deferred p).failure_counts source
        ≡ p.failure_counts source + 1)
      × ((failed_source now source code wait deferred p).backoff source
          ≡ some (now + seconds (backoff_seconds (p.failure_counts source + 1))))
failed_source-set now source code wait deferred p h =
    let limited : is_rate_limited code ≡ false = limited_of_denial code h in
    let self : (source_ordinal source == source_ordinal source) ≡ true = ground arith in
    rw (limited, h, self) (refl, refl)

-- A source that fails for the n-th time in a row is next asked after 60, 120, 240, 480, 960 or 1920
-- seconds, and after an hour from the seventh time on, to the second: until a second before that time
-- what an adapter would answer does not matter, and from that time on a granted source is asked. The count
-- of its failures goes up by one.
pub failed_source-backoff :
    (now : ℕ) (source : Source) (code : Error) (wait : ℕ) (deferred : Bool) (p : Publication)
    (early late : Call) (i : Item) (a b : Source → Outcome) (sources : List Source)
    → is_denial code ≡ false
    → i.source_backoff source ≡ (failed_source now source code wait deferred p).backoff source
    → early.now + seconds 1 ≤ now + seconds (wait_seconds (p.failure_counts source + 1))
    → now + seconds (wait_seconds (p.failure_counts source + 1)) ≤ late.now
    → sources_for i.kind (source ∷ []) late.grants ≡ ok sources
    → ((failed_source now source code wait deferred p).failure_counts source
        ≡ p.failure_counts source + 1)
      × (collect_source early i a source ≡ collect_source early i b source)
      × (collect_source late i a source ≡ a source)
failed_source-backoff now source code wait deferred p early late i a b sources h kept soon then
      granted =
    let until = now + seconds (wait_seconds (p.failure_counts source + 1)) in
    let (counted, set) = failed_source-set now source code wait deferred p h in
    let at : i.source_backoff source ≡ some until =
      kept
      ∙ (set
          ∙ ap (λ n. some (now + seconds n))
              (backoff_seconds-wait_seconds (p.failure_counts source + 1))) in
    (
      counted,
      collect_source-waits early i a b source until at soon,
      collect_source-asks late i a source until sources at granted then,
    )
