-- ===== src/Monitor/Jobs.antt =====
-- The jobs and signatures of monitor/scheduler.py under its removals and additions.
use darknetra.Prelude.{
  ℕ, List, [], ◌∷◌, ◌≡◌, refl, ap, true, false, not, ◌&&◌, ◌||◌, ◌==◌, Option, none, find, any,
  keep, map, mem, find-append, find-some, any-append, arith, Bool-cases, Option-cases, inl, inr,
}
use darknetra.Monitor.Rows.{Item, Settings}
use darknetra.Monitor.Scheduler.{
  Job, Signature, Schedule, job_of, signature_of, remove_item, signature, add_item, new_job,
  is_current, remove_stale,
}

pub find-keep_other :
    (id other : ℕ) (gs : List Signature)
    → (other == id) ≡ false
    → find (signature_of other) (keep (λ g. not (signature_of id g)) gs)
      ≡ find (signature_of other) gs
find-keep_other id other [] h = refl
find-keep_other id other (g ∷ gs) h = ground (arith, find-keep_other id other gs)

pub any-keep_other :
    (id other : ℕ) (js : List Job)
    → (other == id) ≡ false
    → any (job_of other) (keep (λ j. not (job_of id j)) js) ≡ any (job_of other) js
any-keep_other id other [] h = refl
any-keep_other id other (j ∷ js) h = ground (arith, any-keep_other id other js)

pub find-keep_self :
    (id : ℕ) (gs : List Signature)
    → find (signature_of id) (keep (λ g. not (signature_of id g)) gs) ≡ none
find-keep_self id [] = refl
find-keep_self id (g ∷ gs) = ground (arith, find-keep_self id gs)

-- Adding the job of an item makes it current, and leaves the others as they are.
pub add_item-current :
    (settings : Settings) (now : ℕ) (i : Item) (next_run : Option ℕ) (s : Schedule)
    → is_current settings (add_item settings now i next_run s) i ≡ true
add_item-current settings now i next_run s =
    rw
      (
        find-append (signature_of i.id) (keep (λ g. not (signature_of i.id g)) s.signatures)
            (signature settings i ∷ []),
        find-keep_self i.id s.signatures,
        any-append (job_of i.id) (keep (λ j. not (job_of i.id j)) s.jobs)
            (new_job settings now i next_run ∷ []),
      )
      (ground arith)

pub add_item-others :
    (settings : Settings) (now : ℕ) (i other : Item) (next_run : Option ℕ) (s : Schedule)
    → (other.id == i.id) ≡ false
    → is_current settings (add_item settings now i next_run s) other ≡ is_current settings s other
add_item-others settings now i other next_run s h =
    let back : (i.id == other.id) ≡ false = ground arith in
    rw
      (
        find-append (signature_of other.id) (keep (λ g. not (signature_of i.id g)) s.signatures)
            (signature settings i ∷ []),
        find-keep_other i.id other.id s.signatures h,
        any-append (job_of other.id) (keep (λ j. not (job_of i.id j)) s.jobs)
            (new_job settings now i next_run ∷ []),
        any-keep_other i.id other.id s.jobs h,
        back,
      )
      (elim (Option-cases (find (signature_of other.id) s.signatures)) [
        | inl gone ↦ ground arith
        | inr (g, found) ↦ ground arith
      ])

-- The jobs left when those of an item are removed, and those there are when one is added.
pub any-job_of-removed :
    (id other : ℕ) (js : List Job)
    → any (job_of other) (keep (λ j. not (job_of id j)) js)
      ≡ (any (job_of other) js && not (id == other))
any-job_of-removed id other [] = refl
any-job_of-removed id other (j ∷ js) = ground (arith, any-job_of-removed id other js)

pub any-signature_of-removed :
    (id other : ℕ) (gs : List Signature)
    → any (signature_of other) (keep (λ g. not (signature_of id g)) gs)
      ≡ (any (signature_of other) gs && not (id == other))
any-signature_of-removed id other [] = refl
any-signature_of-removed id other (g ∷ gs) = ground (arith, any-signature_of-removed id other gs)

pub any-job_of-add_item :
    (settings : Settings) (now : ℕ) (i : Item) (next_run : Option ℕ) (s : Schedule) (id : ℕ)
    → any (job_of id) (Schedule.jobs (add_item settings now i next_run s))
      ≡ (any (job_of id) s.jobs || i.id == id)
any-job_of-add_item settings now i next_run s id = ground (
  arith,
  any-append (job_of id) (keep (λ j. not (job_of i.id j)) s.jobs)
      (new_job settings now i next_run ∷ []),
  any-job_of-removed i.id id s.jobs,
)

pub any-signature_of-add_item :
    (settings : Settings) (now : ℕ) (i : Item) (next_run : Option ℕ) (s : Schedule) (id : ℕ)
    → any (signature_of id) (Schedule.signatures (add_item settings now i next_run s))
      ≡ (any (signature_of id) s.signatures || i.id == id)
any-signature_of-add_item settings now i next_run s id = ground (
  arith,
  any-append (signature_of id) (keep (λ g. not (signature_of i.id g)) s.signatures)
      (signature settings i ∷ []),
  any-signature_of-removed i.id id s.signatures,
)

-- The loop of the removals takes the items that are no longer to run, and no other.
module _ (items : List Item) (id : ℕ) where
  mem_at : (k : ℕ) → (k == id) ≡ true → mem k (map Item.id items) ≡ mem id (map Item.id items)
  mem_at k same = let e : k ≡ id = ground arith in ap (λ n. mem n (map Item.id items)) e

  pub any-job_of-remove_stale :
      (gs : List Signature) (s : Schedule)
      → any (job_of id) (Schedule.jobs (remove_stale items gs s))
        ≡ (any (job_of id) s.jobs && (not (any (signature_of id) gs) || mem id (map Item.id items)))
  any-job_of-remove_stale [] s = ground arith
  any-job_of-remove_stale (g ∷ gs) s = elim (Bool-cases (mem g.item_id (map Item.id items))) [
    | inl here ↦ rw (here, any-job_of-remove_stale gs s) (ground (arith, mem_at g.item_id))
    | inr gone ↦
        rw
          (
            gone,
            any-job_of-remove_stale gs (remove_item g.item_id s),
            any-job_of-removed g.item_id id s.jobs,
          )
          (ground (arith, mem_at g.item_id))
  ]

  pub any-signature_of-remove_stale :
      (gs : List Signature) (s : Schedule)
      → any (signature_of id) (Schedule.signatures (remove_stale items gs s)) ≡ (
          any (signature_of id) s.signatures
          && (not (any (signature_of id) gs) || mem id (map Item.id items)))
  any-signature_of-remove_stale [] s = ground arith
  any-signature_of-remove_stale (g ∷ gs) s = elim (Bool-cases (mem g.item_id (map Item.id items))) [
    | inl here ↦ rw (here, any-signature_of-remove_stale gs s) (ground (arith, mem_at g.item_id))
    | inr gone ↦
        rw
          (
            gone,
            any-signature_of-remove_stale gs (remove_item g.item_id s),
            any-signature_of-removed g.item_id id s.signatures,
          )
          (ground (arith, mem_at g.item_id))
  ]

-- A current item has a job and a signature.
pub any-job_of-current :
    (settings : Settings) (s : Schedule) (i : Item)
    → is_current settings s i ≡ true
    → any (job_of i.id) s.jobs ≡ true
any-job_of-current settings s i h = ground arith

pub any-signature_of-current :
    (settings : Settings) (s : Schedule) (i : Item)
    → is_current settings s i ≡ true
    → any (signature_of i.id) s.signatures ≡ true
any-signature_of-current settings s i h =
    elim (Option-cases (find (signature_of i.id) s.signatures)) [
      | inl gone ↦ absurd (ground (arith, gone, h))
      | inr (g, found) ↦ (find-some (signature_of i.id) s.signatures g found).1
    ]

pub job_of-at :
    (i id : ℕ) (js : List Job) → (i == id) ≡ true → any (job_of i) js ≡ any (job_of id) js
job_of-at i id js same = let e : i ≡ id = ground arith in ap (λ n. any (job_of n) js) e

pub signature_of-at :
    (i id : ℕ) (gs : List Signature)
    → (i == id) ≡ true
    → any (signature_of i) gs ≡ any (signature_of id) gs
signature_of-at i id gs same = let e : i ≡ id = ground arith in ap (λ n. any (signature_of n) gs) e
