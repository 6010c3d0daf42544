-- ===== src/Ingest/Depth.antt =====
-- How deep evidence/service.py `ingest_bytes` calls itself.
use darknetra.Prelude.{
  ℕ, suc, List, ◌≡◌, refl, ap, true, false, Option, none, some, is_some, Text, Result, ok, arith,
  ◌>>=◌, Bool-cases, inl, inr, Result-cases,
}
use darknetra.Policy.Engine.{SourceClass}
use darknetra.Vault.{Bytes, put_bytes}
use darknetra.Ingest.Rows.{Reason, Sniffed, Packed, Outside, Original, Shelf}
use darknetra.Ingest.Sniffing.{is_container, reason_for}
use darknetra.Ingest.Process.{Ingest, process_evidence, process_kind}
use darknetra.Ingest.Receive.{
  Request, Receipt, derive, store_new, child_request, ingest_with, ingest_bytes, add_original,
}

-- A container inside another one is quarantined.
nested-reason :
    (sniffed : Sniffed) (opened : Option (List Packed)) (filename : Text) (c : SourceClass)
    (parent max_bytes : ℕ)
    → is_container sniffed.kind ≡ true
    → is_some (reason_for sniffed opened filename c (some parent) max_bytes) ≡ true
unfolding reason_for
nested-reason sniffed opened filename c parent max_bytes h = ground arith

process_kind-shallow :
    (o : Outside) (child other : Ingest) (name : ℕ → Text) (e : Original) (content : Bytes)
    (s : Shelf)
    → is_container e.kind ≡ false
    → process_kind o child name e content s ≡ process_kind o other name e content s
process_kind-shallow o child other name e content s h = ground arith

process_evidence-shallow :
    (o : Outside) (child other : Ingest) (name : ℕ → Text) (e : Original) (content : Bytes)
    (s : Shelf)
    → is_container e.kind ≡ false
    → process_evidence o child name e (some content) s
      ≡ process_evidence o other name e (some content) s
unfolding process_evidence
process_evidence-shallow o child other name e content s h =
    rw (process_kind-shallow o child other name e content s h) refl

derive-shallow :
    (o : Outside) (child other : Ingest) (r : Request) (reason : Option Reason) (e : Original)
    (s : Shelf)
    → (is_container e.kind ≡ true → is_some reason ≡ true)
    → derive o child r reason e s ≡ derive o other r reason e s
derive-shallow o child other r (some q) e s h = refl
derive-shallow o child other r none e s h = elim (Bool-cases (is_container e.kind)) [
  | inl packed ↦ absurd (ground (arith, h packed))
  | inr single ↦
      rw (process_evidence-shallow o child other o.response_name e r.content s single) refl
]

store_new-nested :
    (o : Outside) (child other : ℕ → Ingest) (r : Request) (parent : ℕ) (s : Shelf)
    → r.parent_id ≡ some parent
    → store_new o child r s ≡ store_new o other r s
unfolding store_new
store_new-nested o child other r parent s h =
    let sniffed = o.sniff r.content r.filename in
    let reason =
      reason_for sniffed (o.unzip r.content) r.filename r.source_class r.parent_id
        o.max_zip_bytes in
    let quarantines : is_container sniffed.kind ≡ true → is_some reason ≡ true = λ k. rw h (
      nested-reason sniffed (o.unzip r.content) r.filename r.source_class parent o.max_zip_bytes
        k) in
    elim (Result-cases (put_bytes o.sha256 r.case_id r.content s.vault)) [
      | inl (stored, put) ↦
          let added = add_original o r reason sniffed (record s { vault = stored.1 }) in
          rw
            (
              put,
              derive-shallow o (child s.fresh) (other s.fresh) r reason added.0 added.1 quarantines,
            )
            refl
      | inr (e, failed) ↦ rw failed refl
    ]

-- The ingestion of a child, in terms of that of any bytes.
children : (Request → Shelf → Result (Receipt × Shelf)) → Request → ℕ → Ingest
children deeper r p content filename t =
    deeper (child_request r p content filename) t >>= λ out. ok (out.1)

ingest_with-store_new :
    (o : Outside) (deeper other : Request → Shelf → Result (Receipt × Shelf)) (r : Request)
    (s : Shelf)
    → store_new o (children deeper r) r s ≡ store_new o (children other r) r s
    → ingest_with o deeper r s ≡ ingest_with o other r s
unfolding ingest_with children
ingest_with-store_new o deeper other r s h = ground arith

ingest_with-nested :
    (o : Outside) (deeper other : Request → Shelf → Result (Receipt × Shelf)) (r : Request)
    (parent : ℕ) (s : Shelf)
    → r.parent_id ≡ some parent
    → ingest_with o deeper r s ≡ ingest_with o other r s
ingest_with-nested o deeper other r parent s h =
    ingest_with-store_new o deeper other r s
      (store_new-nested o (children deeper r) (children other r) r parent s h)

ingest_with-congr :
    (o : Outside) (deeper other : Request → Shelf → Result (Receipt × Shelf)) (r : Request)
    (s : Shelf)
    → ((q : Request) (parent : ℕ) (t : Shelf) → q.parent_id ≡ some parent → deeper q t ≡ other q t)
    → ingest_with o deeper r s ≡ ingest_with o other r s
unfolding children
ingest_with-congr o deeper other r s h =
    let same : children deeper r ≡ children other r = λ i p content filename t.
      h (child_request r p content filename) p t refl i >>= λ out. ok (out.1) in
    ingest_with-store_new o deeper other r s (ap (λ c. store_new o c r s) same)

-- Ingestion never goes deeper than the children of an archive: an archive among them is quarantined
-- unopened. So two levels give the result, whatever more are allowed.
pub ingest_bytes-two_levels :
    (o : Outside) (r : Request) (s : Shelf) (more : ℕ)
    → ingest_bytes (suc (suc more)) o r s ≡ ingest_bytes 2 o r s
unfolding ingest_bytes
ingest_bytes-two_levels o r s more =
    ingest_with-congr o (ingest_bytes (suc more) o) (ingest_bytes 1 o) r s
      (λ q parent t h. ingest_with-nested o (ingest_bytes more o) (ingest_bytes 0 o) q parent t h)
