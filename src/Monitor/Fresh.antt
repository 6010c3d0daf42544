-- ===== src/Monitor/Fresh.antt =====
-- The hits that monitor/runner.py publishes.
use darknetra.Monitor.Attempt.{publish}
use darknetra.Prelude.{
  ℕ, ◌+◌, List, [], ◌∷◌, ◌++◌, ◌≡◌, refl, Bool, true, false, not, Option, none, any, length,
  update_if, All, AreApart, AreApart-snoc, Holds, Holds-bind, length-append, arith, if◌then◌else◌,
  Result, ok, err, Error, Bool-cases, inl, inr, ◌⊎◌, leb, Text, Holds-then, ap, Holds-if, ◌∙◌,
  ◌>>=◌, policy_denied, subst, sym, Holds-ok,
}
use darknetra.Records.{Actor}
use darknetra.Policy.Engine.{class_in}
use darknetra.Monitor.Sources.{Source}
use darknetra.Decisions.Rows.{Alert}
use darknetra.Monitor.Rows.{Monitor, Item, Run, Hit, Cause, run_at, collected, note, day_start}
use darknetra.Monitor.Attempt.{publish, start_publication, finished_run}
use darknetra.Monitor.Closed.{publish-finish}
use darknetra.Monitor.Principal.{error_alert, caused, report, already_reported}
use darknetra.Monitor.Publish.{
  Call, Found, Outcome, hits, failure, Publication, known_hit, alert_of, publish_failure,
  publish_hit, publish_hits, publish_source, publish_sources, hit_alert, triage_hit, see_url,
  triage_of, put_error, failed_source, new_hit, assign, with_hit, alert_failure, denial_action,
  collect_source,
}

-- Two hits of one item with the same content.
abbrev pub same_hit : Hit → Hit → Bool
same_hit a b = known_hit a.case_id a.item_id a.content_hash b

-- From one publication to a later one: hits stay pairwise different, and `new_hits` counts them.
record Advances (p q : Publication) : Type 0 where
  pub counted : length q.tables.hits + p.new_hits ≡ length p.tables.hits + q.new_hits
  pub apart : AreApart same_hit p.tables.hits → AreApart same_hit q.tables.hits

Advances-trans : (p q r : Publication) → Advances p q → Advances q r → Advances p r
Advances-trans p q r h k = record {
  counted = omega (arith, h.counted, k.counted);
  apart = λ a. k.apart (h.apart a);
}

caused-hits : (cause : Cause) (a : Alert) (m : Monitor) → (caused cause a m).hits ≡ m.hits
caused-hits cause a m = ground arith

report-hits :
    (count_text : ℕ → Text) (started now case_id : ℕ) (item_id : Option ℕ) (cause : Cause)
    (title summary : Text) (m : Monitor)
    → Holds
        (λ t. t.hits ≡ m.hits)
        (report count_text started now case_id item_id cause title summary m)
unfolding report
report-hits count_text started now case_id item_id cause title summary m =
    Holds-if (λ t. t.hits ≡ m.hits) (already_reported case_id item_id cause (day_start now) m)
      (ok m) _ refl
      (Holds-then (λ t. t.hits ≡ m.hits)
        (error_alert count_text started now case_id item_id title summary m) _
        (λ raised. caused-hits cause raised.0 (record m { store = raised.1; fresh = m.fresh + 1 })))

alert_of-hits :
    (c : Call) (i : Item) (f : Found) (alertable : Bool) (p : Publication) (m : Monitor)
    → Holds (λ r. r.1.hits ≡ m.hits) (alert_of c i f alertable p m)
alert_of-hits c i f true p m =
    Holds-then (λ r. r.1.hits ≡ m.hits) (hit_alert c i f p m) _ (λ raised. refl)
alert_of-hits c i f false p m = refl

Advances-refl : (p : Publication) → Advances p p
Advances-refl p = record { counted = refl; apart = λ a. a }

same_tables :
    (p q : Publication) → q.tables.hits ≡ p.tables.hits → q.new_hits ≡ p.new_hits → Advances p q
same_tables p q h k = record { counted = omega (arith, ap length h, k); apart = λ a. rw h a }

-- A hit that is not known yet.
added_hit :
    (p q : Publication) (row : Hit)
    → q.tables.hits ≡ p.tables.hits ++ (row ∷ [])
    → q.new_hits ≡ p.new_hits + 1
    → any (λ h. same_hit h row) p.tables.hits ≡ false
    → Advances p q
added_hit p q row h k fresh = record {
  counted = omega (arith, ap length h, k, length-append {0} p.tables.hits (row ∷ []));
  apart = λ a. rw h (AreApart-snoc same_hit p.tables.hits row fresh a);
}

known-same_hit :
    (row : Hit) (rows : List Hit)
    → any (known_hit row.case_id row.item_id row.content_hash) rows ≡ false
    → any (λ h. same_hit h row) rows ≡ false
known-same_hit row [] h = refl
known-same_hit row (x ∷ rows) h = ground (arith, known-same_hit row rows)

triage_hit-Advances :
    (c : Call) (i : Item) (f : Found) (p : Publication) (m : Monitor)
    → m.hits ≡ p.tables.hits
    → any (known_hit c.case_id c.item_id f.content_hash) p.tables.hits ≡ false
    → Holds (Advances p) (triage_hit c i f p m)
triage_hit-Advances c i f p m same fresh =
    let result = triage_of c i f p in
    Holds-bind (λ r. r.1.hits ≡ m.hits) (Advances p) (alert_of c i f result.alertable p m) _
      (alert_of-hits c i f result.alertable p m)
      (λ raised kept.
        let row = new_hit c f result raised.0 in
        added_hit p (with_hit f.family row raised.1 p) row (ap (λ h. h ++ (row ∷ [])) (kept ∙ same))
          refl (known-same_hit row p.tables.hits fresh))

publish_hit-Advances :
    (c : Call) (i : Item) (source : Source) (f : Found) (p : Publication)
    → Holds (Advances p) (publish_hit c i source f p)
publish_hit-Advances c i source f p =
    let m = record (p.tables) { seen = see_url c f.url_hash p.tables.seen } in
    let refused = record p { errors = put_error source policy_denied p.errors } in
    let seen = record p { tables = m } in
    Holds-if (Advances p) (not (class_in f.source_class c.grants_after.allowed_source_classes))
      (ok refused) _ (same_tables p refused refl refl)
      (elim (Bool-cases (any (known_hit c.case_id c.item_id f.content_hash) p.tables.hits)) [
        | inl known ↦
            subst (λ b. Holds (Advances p) (if b then ok seen else triage_hit c i f p m))
              (sym known) (same_tables p seen refl refl)
        | inr fresh ↦
            subst (λ b. Holds (Advances p) (if b then ok seen else triage_hit c i f p m))
              (sym fresh) (triage_hit-Advances c i f p m refl fresh)
      ])

Advances-after :
    (p q : Publication) (r : Result Publication)
    → Advances p q
    → Holds (Advances q) r
    → Holds (Advances p) r
Advances-after p q (ok t) h k = Advances-trans p q t h k
Advances-after p q (err e) h k = tt

Advances-bind :
    (p : Publication) (r : Result Publication) (f : Publication → Result Publication)
    → Holds (Advances p) r
    → ((q : Publication) → Holds (Advances q) (f q))
    → Holds (Advances p) (r >>= f)
Advances-bind p (ok q) f h k = Advances-after p q (f q) h (k q)
Advances-bind p (err e) f h k = tt

publish_hits-Advances :
    (c : Call) (i : Item) (source : Source) (found : List Found) (p : Publication)
    → Holds (Advances p) (publish_hits c i source found p)
publish_hits-Advances c i source [] p = Advances-refl p
publish_hits-Advances c i source (f ∷ found) p =
    Advances-bind p (publish_hit c i source f p) (λ q. publish_hits c i source found q)
      (publish_hit-Advances c i source f p) (λ q. publish_hits-Advances c i source found q)

failed_source-hits :
    (now : ℕ) (source : Source) (code : Error) (wait : ℕ) (deferred : Bool) (p : Publication)
    → ((failed_source now source code wait deferred p).tables ≡ p.tables)
      × ((failed_source now source code wait deferred p).new_hits ≡ p.new_hits)
failed_source-hits now source code wait deferred p = (ground arith, ground arith)

alert_failure-hits :
    (c : Call) (source : Source) (count : ℕ) (m : Monitor)
    → Holds (λ t. t.hits ≡ m.hits) (alert_failure c source count m)
alert_failure-hits c source count m =
    Holds-if (λ t. t.hits ≡ m.hits) (leb 3 count) _ (ok m)
      (report-hits c.count_text c.started c.now c.case_id _ _ _ _ m) refl

publish_failure-Advances :
    (c : Call) (source : Source) (code : Error) (wait : ℕ) (deferred : Bool) (p : Publication)
    → Holds (Advances p) (publish_failure c source code wait deferred p)
publish_failure-Advances c source code wait deferred p =
    let q = failed_source c.now source code wait deferred p in
    let same = failed_source-hits c.now source code wait deferred p in
    let m = note (denial_action code) c.case_id c.item_id q.tables in
    Holds-bind (λ t. t.hits ≡ m.hits) (Advances p)
      (alert_failure c source (q.failure_counts source) m) _
      (alert_failure-hits c source (q.failure_counts source) m)
      (λ t kept. same_tables p (record q { tables = t }) (kept ∙ ap (λ u. u.hits) same.0) same.1)

publish_source-Advances :
    (c : Call) (i : Item) (source : Source) (outcome : Outcome) (p : Publication)
    → Holds (Advances p) (publish_source c i source outcome p)
publish_source-Advances c i source (failure code wait deferred) p =
    publish_failure-Advances c source code wait deferred p
publish_source-Advances c i source (hits found) p =
    let q = record p {
      sources = p.sources ++ ((source, collected) ∷ []);
      failure_counts = assign source 0 p.failure_counts;
      backoff = assign source none p.backoff;
    } in
    Advances-after p q (publish_hits c i source found q) (same_tables p q refl refl)
      (publish_hits-Advances c i source found q)

publish_sources-Advances :
    (c : Call) (i : Item) (outcome : Source → Outcome) (sources : List Source) (p : Publication)
    → Holds (Advances p) (publish_sources c i outcome sources p)
publish_sources-Advances c i outcome [] p = Advances-refl p
publish_sources-Advances c i outcome (s ∷ sources) p =
    Advances-bind p (publish_source c i s (outcome s) p)
      (λ q. publish_sources c i outcome sources q) (publish_source-Advances c i s (outcome s) p)
      (λ q. publish_sources-Advances c i outcome sources q)

counts :
    (c : Call) (p : Publication) (before : List Hit) (runs : List Run)
    → length before + p.new_hits ≡ length p.tables.hits
    → All
        (λ r.
          (run_at c.case_id c.run_id r ≡ false)
          ⊎ (length before + r.new_hits ≡ length p.tables.hits))
        (update_if (run_at c.case_id c.run_id) (finished_run c p) runs)
counts c p before [] h = tt
counts c p before (r ∷ runs) h = elim (Bool-cases (run_at c.case_id c.run_id r)) [
  | inl here ↦ rw here (inr h, counts c p before runs h)
  | inr there ↦ rw there (inl there, counts c p before runs h)
]

-- A publication that succeeds keeps the hits of every item different in content, and the finished row of
-- its run counts exactly the hits that were added.
pub publish-hits :
    (c : Call) (i : Item) (actor : Actor) (adapter : Source → Outcome) (before m after : Monitor)
    → publish c i actor adapter before m ≡ ok after
    → AreApart same_hit m.hits
    → AreApart same_hit after.hits
      × All
          (λ r.
            (run_at c.case_id c.run_id r ≡ false)
            ⊎ (length m.hits + r.new_hits ≡ length after.hits))
          after.runs
publish-hits c i actor adapter before m after h apart =
    let (p, published) = publish-finish c i actor adapter before m after h in
    let led =
      Holds-ok (Advances (start_publication c i before m)) _ p
        (publish_sources-Advances c published.0 (collect_source c i adapter) i.sources
          (start_publication c i before m))
        published.1 in
    subst
      (λ t.
        AreApart same_hit t.hits
        × All
            (λ r.
              (run_at c.case_id c.run_id r ≡ false) ⊎ (length m.hits + r.new_hits ≡ length t.hits))
            t.runs)
      published.2 (led.apart apart, counts c p m.hits p.tables.runs (omega (arith, led.counted)))
