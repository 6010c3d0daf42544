-- ===== src/Monitor/Reconciled.antt =====
-- What the reconciliation of monitor/scheduler.py leaves of the schedule.
use darknetra.Prelude.{
  ℕ, List, [], ◌∷◌, ◌≡◌, refl, ◌∙◌, Bool, true, false, ◌||◌, ◌==◌, any, keep, map, mem, All,
  All-map, AreUnique, has_key, arith, if◌then◌else◌,
}
use darknetra.Monitor.Rows.{Monitor, Item, Settings}
use darknetra.Monitor.Scheduler.{
  Schedule, job_of, signature_of, add_item, is_current, time_of, remove_stale, add_missing, ensure,
  catch_up_times, is_due, runs_now, reconcile,
}
use darknetra.Monitor.Jobs.{
  add_item-current, add_item-others, any-job_of-add_item, any-signature_of-add_item,
  any-job_of-remove_stale, any-signature_of-remove_stale, any-job_of-current,
  any-signature_of-current, job_of-at, signature_of-at,
}
use darknetra.Monitor.Signed.{
  IsSigned, IsVersioned, IsTimed, is_current-IsVersioned, IsVersioned-IsTimed,
  remove_stale-IsSigned, add_missing-IsSigned, any-job_of-IsSigned,
}

-- The schedule has a job and a signature for just these items: the signatures say their present versions
-- and intervals, and the jobs run at these intervals.
pub record Matches (settings : Settings) (items : List Item) (s : Schedule) : Type 0 where
  pub versioned : All (IsVersioned settings s) items
  pub timed : All (IsTimed settings s) items
  pub signed : IsSigned s
  pub jobs : (id : ℕ) → any (job_of id) s.jobs ≡ mem id (map Item.id items)
  pub signatures : (id : ℕ) → any (signature_of id) s.signatures ≡ mem id (map Item.id items)

-- A pass of the loop of the additions gives its item a job, and leaves the others as they are.
module _ (settings : Settings) (now : ℕ) (times : List (ℕ × ℕ)) where
  ensure-current :
      (i : Item) (s : Schedule) → is_current settings (ensure settings now times i s) i ≡ true
  ensure-current i s = by_case (is_current settings s i) refl
    where
      added : Schedule
      added = add_item settings now i (time_of i.id times) s

      by_case :
          (b : Bool)
          → is_current settings s i ≡ b
          → is_current settings (if b then s else added) i ≡ true
      by_case true h = h
      by_case false h = add_item-current settings now i (time_of i.id times) s

  ensure-others :
      (i other : Item) (s : Schedule)
      → (other.id == i.id) ≡ false
      → is_current settings s other ≡ true
      → is_current settings (ensure settings now times i s) other ≡ true
  ensure-others i other s apart h = by_case (is_current settings s i)
    where
      added : Schedule
      added = add_item settings now i (time_of i.id times) s

      by_case : (b : Bool) → is_current settings (if b then s else added) other ≡ true
      by_case true = h
      by_case false = add_item-others settings now i other (time_of i.id times) s apart ∙ h

  any-job_of-ensure :
      (i : Item) (s : Schedule) (id : ℕ)
      → any (job_of id) (Schedule.jobs (ensure settings now times i s))
        ≡ (any (job_of id) s.jobs || i.id == id)
  any-job_of-ensure i s id = by_case (is_current settings s i) refl
    where
      added : Schedule
      added = add_item settings now i (time_of i.id times) s

      by_case :
          (b : Bool)
          → is_current settings s i ≡ b
          → any (job_of id) (Schedule.jobs (if b then s else added))
            ≡ (any (job_of id) s.jobs || i.id == id)
      by_case true h = ground (arith, any-job_of-current settings s i h, job_of-at i.id id s.jobs)
      by_case false h = any-job_of-add_item settings now i (time_of i.id times) s id

  any-signature_of-ensure :
      (i : Item) (s : Schedule) (id : ℕ)
      → any (signature_of id) (Schedule.signatures (ensure settings now times i s))
        ≡ (any (signature_of id) s.signatures || i.id == id)
  any-signature_of-ensure i s id = by_case (is_current settings s i) refl
    where
      added : Schedule
      added = add_item settings now i (time_of i.id times) s

      by_case :
          (b : Bool)
          → is_current settings s i ≡ b
          → any (signature_of id) (Schedule.signatures (if b then s else added))
            ≡ (any (signature_of id) s.signatures || i.id == id)
      by_case true h =
          ground
            (arith, any-signature_of-current settings s i h, signature_of-at i.id id s.signatures)
      by_case false h = any-signature_of-add_item settings now i (time_of i.id times) s id

  pub add_missing-others :
      (items : List Item) (other : Item) (s : Schedule)
      → any (has_key Item.id other.id) items ≡ false
      → is_current settings s other ≡ true
      → is_current settings (add_missing settings now times items s) other ≡ true
  add_missing-others [] other s fresh h = h
  add_missing-others (i ∷ items) other s fresh h =
      add_missing-others items other (ensure settings now times i s) (ground arith)
        (ensure-others i other s (ground arith) h)

  pub add_missing-current :
      (items : List Item) (s : Schedule)
      → AreUnique Item.id items
      → All (λ i. is_current settings (add_missing settings now times items s) i ≡ true) items
  add_missing-current [] s unique = tt
  add_missing-current (i ∷ items) s unique = (
    add_missing-others items i (ensure settings now times i s) unique.0 (ensure-current i s),
    add_missing-current items (ensure settings now times i s) unique.1,
  )

  pub any-job_of-add_missing :
      (items : List Item) (s : Schedule) (id : ℕ)
      → any (job_of id) (Schedule.jobs (add_missing settings now times items s))
        ≡ (any (job_of id) s.jobs || mem id (map Item.id items))
  any-job_of-add_missing [] s id = ground arith
  any-job_of-add_missing (i ∷ items) s id =
      rw (any-job_of-add_missing items (ensure settings now times i s) id, any-job_of-ensure i s id)
        (ground arith)

  pub any-signature_of-add_missing :
      (items : List Item) (s : Schedule) (id : ℕ)
      → any (signature_of id) (Schedule.signatures (add_missing settings now times items s))
        ≡ (any (signature_of id) s.signatures || mem id (map Item.id items))
  any-signature_of-add_missing [] s id = ground arith
  any-signature_of-add_missing (i ∷ items) s id =
      rw
        (
          any-signature_of-add_missing items (ensure settings now times i s) id,
          any-signature_of-ensure i s id,
        )
        (ground arith)

-- After the reconciliation, the schedule has a job for exactly the items that are to run (active, in an
-- active watchlist of an open case): each job runs at the present interval of its item, and is signed with
-- its present version, whatever jobs there were before; provided the items have different identifiers
-- and each job had a signature that says its interval, which holds again.
pub reconcile-Matches :
    (settings : Settings) (now : ℕ) (m : Monitor) (s : Schedule)
    → AreUnique Item.id (keep (runs_now m) m.items)
    → IsSigned s
    → Matches settings (keep (runs_now m) m.items) (reconcile settings now m s)
unfolding reconcile
reconcile-Matches settings now m s unique signed = record {
  versioned = versions;
  timed =
      All-map (IsVersioned settings after) (IsTimed settings after)
        (λ i v. IsVersioned-IsTimed settings after i kept v) items versions;
  signed = kept;
  jobs = λ id.
      rw
        (
          any-job_of-add_missing settings now times items left id,
          any-job_of-remove_stale items id s.signatures s,
        )
        (ground (arith, any-job_of-IsSigned id s.signatures s.jobs signed));
  signatures = λ id.
      rw
        (
          any-signature_of-add_missing settings now times items left id,
          any-signature_of-remove_stale items id s.signatures s,
        )
        (ground arith);
}
  where
    items : List Item
    items = keep (runs_now m) m.items

    times : List (ℕ × ℕ)
    times = catch_up_times (keep (is_due now) items) now

    left : Schedule
    left = remove_stale items s.signatures s

    after : Schedule
    after = add_missing settings now times items left

    kept : IsSigned after
    kept =
        add_missing-IsSigned settings now times items left
          (remove_stale-IsSigned items s.signatures s signed)

    versions : All (IsVersioned settings after) items
    versions =
        All-map (λ i. is_current settings after i ≡ true) (IsVersioned settings after)
          (λ i h. is_current-IsVersioned settings after i h) items
          (add_missing-current settings now times items left unique)
