-- ===== src/Monitor/Signed.antt =====
-- The signatures of monitor/scheduler.py say the intervals of the jobs that run.
use darknetra.Prelude.{
  ℕ, List, [], ◌∷◌, ◌++◌, ◌≡◌, refl, sym, ap, ◌∙◌, Bool, true, false, not, ◌==◌, Option, none, some,
  find, any, keep, map, mem, All, All-append, All-map, find-append, find-some, arith, if◌then◌else◌,
  Bool-cases, Option-cases, inl, inr, ◌⊎◌, subst,
}
use darknetra.Monitor.Rows.{Item, Settings, effective_interval}
use darknetra.Monitor.Scheduler.{
  Job, Signature, Schedule, job_of, signature_of, remove_item, signature, new_job, add_item,
  is_current, time_of, remove_stale, add_missing, ensure,
}
use darknetra.Monitor.Jobs.{find-keep_other, find-keep_self, signature_of-at}

-- The job runs at the interval that the signature of its item says.
abbrev pub is_signed : List Signature → Job → Bool
is_signed gs j = elim (find (signature_of j.item_id) gs) [
  | none ↦ false
  | some g ↦ g.interval == j.interval
]

-- Every job has a signature that says its interval.
abbrev pub IsSigned : Schedule → Type 0
IsSigned s = All (λ j. is_signed s.signatures j ≡ true) s.jobs

signed_in :
    (gs : List Signature) (j : Job)
    → is_signed gs j ≡ true
    → (g : Signature) × (find (signature_of j.item_id) gs ≡ some g) × (g.interval ≡ j.interval)
signed_in gs j h = elim (Option-cases (find (signature_of j.item_id) gs)) [
  | inl gone ↦ absurd (ground (arith, gone))
  | inr (g, found) ↦ (g, found, ground (arith, found))
]

signed_at :
    (gs : List Signature) (j : Job) (g : Signature)
    → find (signature_of j.item_id) gs ≡ some g
    → g.interval ≡ j.interval
    → is_signed gs j ≡ true
signed_at gs j g found same = ground (arith, found, same)

-- The jobs that stay when an item goes keep their signatures.
rest-signed :
    (id : ℕ) (gs : List Signature) (js : List Job)
    → All (λ j. is_signed gs j ≡ true) js
    → All
        (λ j. is_signed (keep (λ g. not (signature_of id g)) gs) j ≡ true)
        (keep (λ j. not (job_of id j)) js)
rest-signed id gs [] h = tt
rest-signed id gs (j ∷ js) h = elim (Bool-cases (j.item_id == id)) [
  | inl here ↦ rw here (rest-signed id gs js h.1)
  | inr other ↦
      let (g, found, same) = signed_in gs j h.0 in
      rw other (
        signed_at (keep (λ g. not (signature_of id g)) gs) j g
            (find-keep_other id j.item_id gs other ∙ found) same,
        rest-signed id gs js h.1,
      )
]

remove_item-IsSigned : (id : ℕ) (s : Schedule) → IsSigned s → IsSigned (remove_item id s)
remove_item-IsSigned id s h = rest-signed id s.signatures s.jobs h

still_signed :
    (gs : List Signature) (g : Signature) (j : Job)
    → is_signed gs j ≡ true
    → is_signed (gs ++ (g ∷ [])) j ≡ true
still_signed gs g j h =
    let (k, found, same) = signed_in gs j h in
    signed_at (gs ++ (g ∷ [])) j k
      (rw (find-append (signature_of j.item_id) gs (g ∷ []), found) refl) same

add_item-IsSigned :
    (settings : Settings) (now : ℕ) (i : Item) (next_run : Option ℕ) (s : Schedule)
    → IsSigned s
    → IsSigned (add_item settings now i next_run s)
add_item-IsSigned settings now i next_run s h =
    let gs = keep (λ g. not (signature_of i.id g)) s.signatures in
    let js = keep (λ j. not (job_of i.id j)) s.jobs in
    let new : is_signed (gs ++ (signature settings i ∷ [])) (new_job settings now i next_run)
        ≡ true =
      signed_at (gs ++ (signature settings i ∷ [])) (new_job settings now i next_run)
        (signature settings i)
        (rw
          (
            find-append (signature_of i.id) gs (signature settings i ∷ []),
            find-keep_self i.id s.signatures,
          )
          (ground arith))
        refl in
    All-append (λ j. is_signed (gs ++ (signature settings i ∷ [])) j ≡ true) js
      (new_job settings now i next_run ∷ [])
      (All-map (λ j. is_signed gs j ≡ true) _ (λ j k. still_signed gs (signature settings i) j k) js
        (rest-signed i.id s.signatures s.jobs h))
      (new, tt)

pub remove_stale-IsSigned :
    (items : List Item) (gs : List Signature) (s : Schedule)
    → IsSigned s
    → IsSigned (remove_stale items gs s)
remove_stale-IsSigned items [] s h = h
remove_stale-IsSigned items (g ∷ gs) s h =
    remove_stale-IsSigned items gs
      (if mem g.item_id (map Item.id items) then s else remove_item g.item_id s)
      (by_case (mem g.item_id (map Item.id items)))
  where
    by_case : (b : Bool) → IsSigned (if b then s else remove_item g.item_id s)
    by_case true = h
    by_case false = remove_item-IsSigned g.item_id s h

pub add_missing-IsSigned :
    (settings : Settings) (now : ℕ) (times : List (ℕ × ℕ)) (items : List Item) (s : Schedule)
    → IsSigned s
    → IsSigned (add_missing settings now times items s)
add_missing-IsSigned settings now times [] s h = h
add_missing-IsSigned settings now times (i ∷ items) s h =
    add_missing-IsSigned settings now times items (ensure settings now times i s)
      (by_case (is_current settings s i))
  where
    by_case :
        (b : Bool) → IsSigned (if b then s else add_item settings now i (time_of i.id times) s)
    by_case true = h
    by_case false = add_item-IsSigned settings now i (time_of i.id times) s h

-- The signature of an item says its present version and interval.
abbrev pub IsVersioned : Settings → Schedule → Item → Type 0
IsVersioned settings s i =
    (g : Signature) × (find (signature_of i.id) s.signatures ≡ some g)
    × (g.updated_at ≡ i.updated_at)
    × (g.interval ≡ effective_interval i.interval_seconds settings)

pub is_current-IsVersioned :
    (settings : Settings) (s : Schedule) (i : Item)
    → is_current settings s i ≡ true
    → IsVersioned settings s i
is_current-IsVersioned settings s i h =
    elim (Option-cases (find (signature_of i.id) s.signatures)) [
      | inl gone ↦ absurd (ground (arith, gone))
      | inr (g, found) ↦ (g, found, ground (arith, found), ground (arith, found))
    ]

-- Every job of the item runs at its present interval.
abbrev pub IsTimed : Settings → Schedule → Item → Type 0
IsTimed settings s i =
    All
      (λ j.
        ((j.item_id == i.id) ≡ false)
        ⊎ (j.interval ≡ effective_interval i.interval_seconds settings))
      s.jobs

pub IsVersioned-IsTimed :
    (settings : Settings) (s : Schedule) (i : Item)
    → IsSigned s
    → IsVersioned settings s i
    → IsTimed settings s i
IsVersioned-IsTimed settings s i signed (g, found, version, interval) =
    All-map (λ j. is_signed s.signatures j ≡ true) _ timed s.jobs signed
  where
    timed :
        (j : Job)
        → is_signed s.signatures j ≡ true
        → ((j.item_id == i.id) ≡ false)
          ⊎ (j.interval ≡ effective_interval i.interval_seconds settings)
    timed j h = elim (Bool-cases (j.item_id == i.id)) [
      | inr other ↦ inl other
      | inl here ↦
          let (k, stored, same) = signed_in s.signatures j h in
          let e : j.item_id ≡ i.id = ground arith in
          let stored' = subst (λ n. find (signature_of n) s.signatures ≡ some k) e stored in
          let one : k ≡ g = ground (arith, found, stored') in
          inr (sym same ∙ (ap (λ x. x.interval) one ∙ interval))
    ]

pub any-job_of-IsSigned :
    (id : ℕ) (gs : List Signature) (js : List Job)
    → All (λ j. is_signed gs j ≡ true) js
    → any (job_of id) js ≡ true
    → any (signature_of id) gs ≡ true
any-job_of-IsSigned id gs [] signed h = cc
any-job_of-IsSigned id gs (j ∷ js) signed h = elim (Bool-cases (j.item_id == id)) [
  | inl here ↦
      let (g, found, same) = signed_in gs j signed.0 in
      sym (signature_of-at j.item_id id gs here) ∙ (find-some (signature_of j.item_id) gs g found).1
  | inr other ↦ any-job_of-IsSigned id gs js signed.1 (ground arith)
]
