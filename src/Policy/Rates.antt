-- ===== src/Policy/Rates.antt =====
-- policy/engine.py: the sliding hour of `check`.
use darknetra.Prelude.{
  ℕ, ◌+◌, ◌-◌, ◌≤◌, ◌<◌, ◌≡◌, false, ◌&&◌, ◌==◌, List, [], ◌∷◌, ◌++◌, ok, arith,
}
use darknetra.Policy.Engine.{RateCounter, used, hour, consume}

-- Counters that lie in the hour up to a time.
abbrev pub within_hour : ℕ → ℕ → ℕ → List RateCounter → ℕ
within_hour case_id rate_key end counters = used case_id rate_key (end - hour) counters

used-append :
    (case_id rate_key start : ℕ) (xs ys : List RateCounter)
    → used case_id rate_key start (xs ++ ys)
      ≡ used case_id rate_key start xs + used case_id rate_key start ys
used-append case_id rate_key start [] ys = omega arith
used-append case_id rate_key start (x ∷ xs) ys =
    ground (arith, used-append case_id rate_key start xs ys)

-- A later start leaves fewer requests in the window.
used-le :
    (case_id rate_key start later : ℕ) (xs : List RateCounter)
    → start ≤ later
    → used case_id rate_key later xs ≤ used case_id rate_key start xs
used-le case_id rate_key start later [] h = omega arith
used-le case_id rate_key start later (x ∷ xs) h =
    ground (arith, used-le case_id rate_key start later xs h)

-- A request is admitted exactly below the limit; then the hour before it holds, with it, at most the
-- limit of requests.
pub consume-bounded :
    (now case_id rate_key limit : ℕ) (counters counters' : List RateCounter)
    → consume now case_id rate_key limit counters ≡ ok counters'
    → (used case_id rate_key (now - hour) counters < limit)
      × (used case_id rate_key (now - hour) counters'
          ≡ used case_id rate_key (now - hour) counters + 1)
unfolding consume
consume-bounded now case_id rate_key limit counters counters' h =
    let one : List RateCounter =
      record { case_id = case_id; rate_key = rate_key; window_start = now; count = 1 } ∷ [] in
    ground (arith, used-append case_id rate_key (now - hour) counters one)

-- No window of an hour that ends at `end` or later holds more than the limit.
abbrev pub IsRated : ℕ → ℕ → ℕ → ℕ → List RateCounter → Type 0
IsRated case_id rate_key limit now counters =
    (later : ℕ) → now ≤ later → used case_id rate_key (later - hour) counters ≤ limit

used-snoc_other :
    (case_id rate_key start : ℕ) (xs : List RateCounter) (x : RateCounter)
    → (x.case_id == case_id && x.rate_key == rate_key) ≡ false
    → used case_id rate_key start (xs ++ (x ∷ [])) ≡ used case_id rate_key start xs
used-snoc_other case_id rate_key start xs x h =
    ground (arith, used-append case_id rate_key start xs (x ∷ []), h)

-- A request is admitted only below the limit of its hour. It is counted in every window that has begun by
-- then, and no other case or key is charged; every hour that ends now or later stays within the limit.
pub consume-IsRated :
    (now case_id rate_key limit : ℕ) (counters counters' : List RateCounter)
    (other_case other_key start : ℕ)
    → start ≤ now
    → (case_id == other_case && rate_key == other_key) ≡ false
    → consume now case_id rate_key limit counters ≡ ok counters'
    → (within_hour case_id rate_key now counters < limit)
      × (used case_id rate_key start counters' ≡ used case_id rate_key start counters + 1)
      × (used other_case other_key start counters' ≡ used other_case other_key start counters)
      × IsRated case_id rate_key limit now counters'
unfolding consume
consume-IsRated now case_id rate_key limit counters counters' other_case other_key start begun other
      h =
    let one : RateCounter = record {
      case_id = case_id;
      rate_key = rate_key;
      window_start = now;
      count = 1;
    } in
    let (below, total) = consume-bounded now case_id rate_key limit counters counters' h in
    let table : counters' ≡ counters ++ (one ∷ []) = ground arith in
    (
      below,
      rw table (ground (arith, used-append case_id rate_key start counters (one ∷ []))),
      rw table (used-snoc_other other_case other_key start counters one other),
      λ later k.
          let fewer =
            used-le case_id rate_key (now - hour) (later - hour) counters' (omega arith) in
          omega (arith, below, total, fewer),
    )
