-- ===== src/Monitor/Publish.antt =====
-- monitor/runner.py: the last transaction of `_run_item`, which publishes hits, failures and the state.
use darknetra.Prelude.{
  ℕ, ◌+◌, ◌-◌, ◌*◌, ◌/◌, ◌^◌, min, max, List, [], ◌∷◌, ◌++◌, Bool, true, false, not, ◌&&◌, ◌==◌,
  leb, Option, none, some, any, map, mem, dedupe, length, update_if, Text, codes, String,
  if◌then◌else◌, Error, policy_denied, network_required, rate_limited, Result, ok, err, ◌>>=◌,
}
use darknetra.Decisions.Rows.{Alert, AlertKind, Store}
use darknetra.Alerts.{raise_alert}
use darknetra.Policy.Engine.{SourceClass, class_in}
use darknetra.Monitor.Sources.{Source, ItemKind, Grants, same_source, sources_for}
use darknetra.Monitor.Rows.{
  Monitor, Item, Hit, SeenUrl, SourceStatus, collected, denied, failing, by_source, Settings,
  seconds, note,
}
use darknetra.Monitor.Principal.{report}
use darknetra.Monitor.Triage.{TriageResult, score, wants_diversity}

-- `adapters.Hit` with its fingerprints, and what triage finds in its excerpt.
pub record Found : Type 0 where
  pub evidence_id : ℕ
  pub evidence_code : Text
  pub source_class : SourceClass
  pub url_hash : ℕ
  pub content_hash : ℕ
  pub family : ℕ
  pub matched : ℕ
  pub news : Bool
  pub image_distance : Option ℕ

-- What a source gave: hits, or an error with the seconds to wait that its detail names.
pub data Outcome : Type 0 where
  hits : (found : List Found) → Outcome
  failure : (code : Error) (retry_after : ℕ) (deferred : Bool) → Outcome

-- What `_run_item` is called with, the policy of the case before and after the sources are asked, the
-- start of its transaction, and the times that it takes.
pub record Call : Type 0 where
  pub case_id : ℕ
  pub item_id : ℕ
  pub run_id : ℕ
  pub manual : Bool
  pub settings : Settings
  pub grants : Grants
  pub grants_after : Grants
  pub count_text : ℕ → Text
  pub started : ℕ
  pub now : ℕ
  pub finished : ℕ

-- The local variables of the publication, with the tables.
pub record Publication : Type 0 where
  pub tables : Monitor
  pub sources : List (Source × SourceStatus)
  pub errors : List (Source × Error)
  pub failure_counts : Source → ℕ
  pub backoff : Source → Option ℕ
  pub retry_after : ℕ
  pub families : List ℕ
  pub recent : List Hit
  pub new_hits : ℕ

-- `retry_delay`, in seconds
abbrev pub retry_delay : Option ℕ → ℕ → ℕ
retry_delay none now = 0
retry_delay (some until) now = min 3600 ((until - now) / 1000000)

-- The first loop: the checks of a source, its delay, and the adapter.
abbrev pub collect_source : Call → Item → (Source → Outcome) → Source → Outcome
collect_source c i adapter source = elim (sources_for i.kind (source ∷ []) c.grants) [
  | err e ↦ failure e 60 false
  | ok sources ↦
      let delay = retry_delay (i.source_backoff source) c.now in
      if delay == 0 then adapter source else failure rate_limited delay true
]

abbrev pub is_denial : Error → Bool
is_denial policy_denied = true
is_denial network_required = true
is_denial rate_limited = true
is_denial _ = false

abbrev pub is_rate_limited : Error → Bool
is_rate_limited rate_limited = true
is_rate_limited _ = false

-- `d[source] = value`
abbrev pub assign {ℓ} : {A : Type ℓ} → Source → A → (Source → A) → Source → A
assign source value f other = if same_source other source then value else f other

abbrev pub put_error : Source → Error → List (Source × Error) → List (Source × Error)
put_error source code [] = (source, code) ∷ []
put_error source code ((s, e) ∷ errors) =
    let rest = put_error source code errors in
    if same_source s source then (source, code) ∷ errors else (s, e) ∷ rest

-- The seconds until the next try after `count` failures in a row.
abbrev pub backoff_seconds : ℕ → ℕ
backoff_seconds count = min 3600 (60 * 2 ^ min (count - 1) 6)

-- The bookkeeping of an error of a source.
abbrev pub failed_source : ℕ → Source → Error → ℕ → Bool → Publication → Publication
failed_source now source code wait deferred p =
    let count = p.failure_counts source + 1 in
    let q = record p {
      errors = put_error source code p.errors;
      sources = p.sources ++ ((source, (if is_denial code then denied else failing)) ∷ []);
    } in
    if is_rate_limited code
    then record q {
      retry_after = max p.retry_after wait;
      backoff =
          if deferred
          then p.backoff
          else assign source (some (now + seconds (max 1 wait))) p.backoff;
    }
    else if is_denial code
    then q
    else record q {
      failure_counts = assign source count p.failure_counts;
      backoff = assign source (some (now + seconds (backoff_seconds count))) p.backoff;
    }

abbrev pub denial_action : Error → String
denial_action code = if is_denial code then "monitor.source_denied" else "monitor.source_failed"

-- From the third failure in a row on, an alert.
abbrev pub alert_failure : Call → Source → ℕ → Monitor → Result Monitor
alert_failure c source count m =
    if leb 3 count
    then report c.count_text c.started c.now c.case_id (some c.item_id) (by_source source)
        (codes "Monitoring source requires attention")
        (codes "A source failed for three consecutive runs; no clean result can be inferred.") m
    else ok m

-- An error of a source: bookkeeping, the audit, and the alert.
abbrev pub publish_failure : Call → Source → Error → ℕ → Bool → Publication → Result Publication
publish_failure c source code wait deferred p =
    let q = failed_source c.now source code wait deferred p in
    alert_failure c source (q.failure_counts source)
      (note (denial_action code) c.case_id c.item_id q.tables)
    >>= λ t. ok (record q { tables = t })

-- The row of a URL that the item has seen, new or seen again.
abbrev pub seen_at : Call → ℕ → SeenUrl → Bool
seen_at c url_hash s = s.item_id == c.item_id && s.url_hash == url_hash

abbrev pub see_url : Call → ℕ → List SeenUrl → List SeenUrl
see_url c url_hash seen =
    if any (seen_at c url_hash) seen
    then update_if (λ s. seen_at c url_hash s && s.case_id == c.case_id)
        (λ s. record s { last_seen_at = c.now }) seen
    else seen
      ++ (record {
        case_id = c.case_id;
        item_id = c.item_id;
        url_hash = url_hash;
        first_seen_at = c.now;
        last_seen_at = c.now;
      }
          ∷ [])

abbrev pub known_hit : ℕ → ℕ → ℕ → Hit → Bool
known_hit case_id item_id content_hash h =
    h.case_id == case_id && h.item_id == item_id && h.content_hash == content_hash

abbrev pub add_family : ℕ → List ℕ → List ℕ
add_family family families = if mem family families then families else family ∷ families

-- `item.type.lower()`
abbrev pub kind_name : ItemKind → Text
kind_name ItemKind.keyword = codes "keyword"
kind_name ItemKind.alias = codes "alias"
kind_name ItemKind.wallet = codes "wallet"
kind_name ItemKind.pgp_fingerprint = codes "pgp_fingerprint"
kind_name ItemKind.onion_domain = codes "onion_domain"
kind_name ItemKind.telegram_channel = codes "telegram_channel"
kind_name ItemKind.image_hash = codes "image_hash"

-- The alert of a hit that triage finds worth one.
abbrev pub alert_evidence : ItemKind → Found → List Hit → List ℕ
alert_evidence kind f recent =
    if wants_diversity kind
    then dedupe (f.evidence_id ∷ map Hit.evidence_id recent)
    else f.evidence_id ∷ []

abbrev pub hit_alert : Call → Item → Found → Publication → Monitor → Result (Alert × Store)
hit_alert c i f p m = raise_alert c.count_text c.started c.now m.fresh m.store c.case_id (record {
  kind = AlertKind.signal;
  title = codes "New " ++ kind_name i.kind ++ codes " review signal";
  summary =
      codes "New stored evidence matched the watchlist item ["
      ++ f.evidence_code
      ++ codes "]. Analyst review is required.";
  evidence_ids = alert_evidence i.kind f p.recent;
  item_id = some c.item_id;
})

abbrev pub alert_of :
    Call → Item → Found → Bool → Publication → Monitor → Result (Option ℕ × Monitor)
alert_of c i f true p m = hit_alert c i f p m >>= λ raised.
    ok (some raised.0.id, record m { store = raised.1; fresh = m.fresh + 1 })
alert_of c i f false p m = ok (none, m)

abbrev pub triage_of : Call → Item → Found → Publication → TriageResult
triage_of c i f p =
    score i.kind f.source_class f.matched f.news (not (mem f.family p.families))
      (length (add_family f.family p.families)) f.image_distance

abbrev pub new_hit : Call → Found → TriageResult → Option ℕ → Hit
new_hit c f result alert_id = record {
  case_id = c.case_id;
  run_id = c.run_id;
  item_id = c.item_id;
  evidence_id = f.evidence_id;
  url_hash = f.url_hash;
  content_hash = f.content_hash;
  relevance = result.relevance;
  alertable = result.alertable;
  family = f.family;
  alert_id = alert_id;
  at = c.started;
}

abbrev pub with_hit : ℕ → Hit → Monitor → Publication → Publication
with_hit family row m p = record p {
  tables = record m { hits = m.hits ++ (row ∷ []) };
  families = add_family family p.families;
  recent = p.recent ++ (row ∷ []);
  new_hits = p.new_hits + 1;
}

-- A hit that triage sees: the alert and the row.
abbrev pub triage_hit : Call → Item → Found → Publication → Monitor → Result Publication
triage_hit c i f p m =
    let result = triage_of c i f p in
    alert_of c i f result.alertable p m >>= λ raised.
    ok (with_hit f.family (new_hit c f result raised.0) raised.1 p)

-- One hit of a source: the policy, the URL, the fingerprint, and triage.
abbrev pub publish_hit : Call → Item → Source → Found → Publication → Result Publication
publish_hit c i source f p =
    let m = record (p.tables) { seen = see_url c f.url_hash p.tables.seen } in
    if not (class_in f.source_class c.grants_after.allowed_source_classes)
    then ok (record p { errors = put_error source policy_denied p.errors })
    else if any (known_hit c.case_id c.item_id f.content_hash) m.hits
    then ok (record p { tables = m })
    else triage_hit c i f p m

abbrev pub publish_hits : Call → Item → Source → List Found → Publication → Result Publication
publish_hits c i source [] p = ok p
publish_hits c i source (f ∷ found) p =
    publish_hit c i source f p >>= λ q. publish_hits c i source found q

abbrev pub publish_source : Call → Item → Source → Outcome → Publication → Result Publication
publish_source c i source (failure code wait deferred) p =
    publish_failure c source code wait deferred p
publish_source c i source (hits found) p = publish_hits c i source found (record p {
  sources = p.sources ++ ((source, collected) ∷ []);
  failure_counts = assign source 0 p.failure_counts;
  backoff = assign source none p.backoff;
})

-- The second loop, over the sources in their order.
abbrev pub publish_sources :
    Call → Item → (Source → Outcome) → List Source → Publication → Result Publication
publish_sources c i outcome [] p = ok p
publish_sources c i outcome (s ∷ sources) p =
    publish_source c i s (outcome s) p >>= λ q. publish_sources c i outcome sources q
