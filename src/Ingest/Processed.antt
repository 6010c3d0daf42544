-- ===== src/Ingest/Processed.antt =====
-- What evidence/service.py `process_evidence` leaves of the tables, on every way through it.
use darknetra.Prelude.{
  Holds, Holds-bind, Holds-any, ℕ, is_empty, ◌+◌, List, [], ◌∷◌, ◌++◌, Bool, true, false, ◌||◌, ltb,
  leb, length, Option, none, some, map, Text, if◌then◌else◌, Result, ok, err, ◌>>=◌, or_raise,
  internal, raise_if, Bool-cases, Result-cases, inl, inr, conflict,
}
use darknetra.Records.{EvidenceStatus}
use darknetra.Archives.{safe_members}
use darknetra.Vault.{Bytes, Key, Vault, put_bytes}
use darknetra.Vault.Stored.{put_bytes-IsStored}
use darknetra.Ingest.Rows.{
  Kind, Outside, Original, quarantined, derived, verified, Shelf, Packed, Parsed, from_parser,
  custody_event, set_outcome,
}
use darknetra.Ingest.Sniffing.{is_image}
use darknetra.Ingest.Process.{
  Ingest, ingest_members, ingest_responses, add_derivative, add_derivatives, process_zip,
  process_warc, process_document, process_kind, process_evidence, declined, derived_log, distinct,
  stored_bytes, is_expired, is_reported,
}
use darknetra.Ingest.Sound.{Extends, Extends-refl, vault-IsSound}
use darknetra.Ingest.Growth.{
  Leads, Leads-refl, Leads-trans, Leads-after, Leads-bind, set_outcome-Leads, custody_event-Leads,
  concluded-Leads, ingest_members-Leads, identity,
}

ingest_responses-Leads :
    (o : Outside) (child : Ingest) (name : ℕ → Text) (count : ℕ) (payloads : List Bytes) (s : Shelf)
    → ((content : Bytes) (filename : Text) (t : Shelf) → Holds (Leads t) (child content filename t))
    → Holds (λ out. Leads s out.2) (ingest_responses o child name count payloads s)
ingest_responses-Leads o child name count [] s h = Leads-refl s
ingest_responses-Leads o child name count (payload ∷ payloads) s h =
    split (ltb o.max_upload_bytes (length payload) || leb 2000 count)
      (child payload (name (count + 1)) s) (h payload (name (count + 1)) s)
      (λ t. ingest_responses-Leads o child name (count + 1) payloads t h)
  where
    after :
        (t : Shelf) (out : Result (ℕ × Bool × Shelf))
        → Leads s t
        → Holds (λ out. Leads t out.2) out
        → Holds (λ out. Leads s out.2) out
    after t (ok out) k l = Leads-trans s t out.2 k l
    after t (err e) k l = tt

    next :
        (r : Result Shelf)
        → Holds (Leads s) r
        → ((t : Shelf)
            → Holds (λ out. Leads t out.2) (ingest_responses o child name (count + 1) payloads t))
        → Holds
            (λ out. Leads s out.2)
            (r >>= λ t. ingest_responses o child name (count + 1) payloads t)
    next (ok t) k l = after t (ingest_responses o child name (count + 1) payloads t) k (l t)
    next (err e) k l = tt

    split :
        (b : Bool) (r : Result Shelf)
        → Holds (Leads s) r
        → ((t : Shelf)
            → Holds (λ out. Leads t out.2) (ingest_responses o child name (count + 1) payloads t))
        → Holds
            (λ out. Leads s out.2)
            (if b
              then ok (count, true, s)
              else (r >>= λ t. ingest_responses o child name (count + 1) payloads t))
    split true r k l = Leads-refl s
    split false r k l = next r k l

-- A vault that has grown, and derivatives, touch no original.
add_derivative-Leads :
    (e : Original) (kind : ℕ) (key : Key) (vault : Vault) (s : Shelf)
    → Extends s.vault vault
    → Leads s (add_derivative e kind key vault s)
add_derivative-Leads e kind key vault s grown = (
  record {
    rows = Extends-refl (map identity s.originals);
    vault = grown;
    custody = Extends-refl s.custody;
    trail = Extends-refl s.trail;
  },
  vault-IsSound s.originals s.counters s.vault vault grown,
)

add_derivatives-Leads :
    (o : Outside) (e : Original) (documents : List (ℕ × Bytes)) (s : Shelf)
    → Holds (Leads s) (add_derivatives o e documents s)
add_derivatives-Leads o e [] s = Leads-refl s
add_derivatives-Leads o e ((kind, document) ∷ documents) s =
    elim (Result-cases (put_bytes o.sha256 e.row.case_id document s.vault)) [
      | inr (x, failed) ↦ rw failed tt
      | inl (stored, put) ↦
          let t = add_derivative e kind stored.0 stored.1 s in
          rw put (
            Leads-after s t (add_derivatives o e documents t)
              (add_derivative-Leads e kind stored.0 stored.1 s
                (put_bytes-IsStored o.sha256 e.row.case_id document s.vault stored put).added)
              (add_derivatives-Leads o e documents t))
    ]

module _ (o : Outside) (child : Ingest) (name : ℕ → Text)
    (child-Leads : (content : Bytes) (filename : Text) (t : Shelf)
      → Holds (Leads t) (child content filename t)) where
  process_zip-Leads :
      (e : Original) (content : Bytes) (s : Shelf)
      → Holds (Leads s) (process_zip o child e content s)
  process_zip-Leads e content s =
      Holds-bind (λ p. Unit {0}) (Leads s) (or_raise (o.unzip content) internal) _
        (Holds-any (or_raise (o.unzip content) internal))
        (λ packed u.
          Holds-bind (λ p. Unit {0}) (Leads s)
            (safe_members (map Packed.member packed) o.max_zip_bytes) _
            (Holds-any (safe_members (map Packed.member packed) o.max_zip_bytes))
            (λ members v.
              Leads-bind s (ingest_members child packed s) _
                (ingest_members-Leads child packed s child-Leads)
                (λ t.
                  concluded-Leads e EvidenceStatus.ready e.warnings derived "evidence.derived" t)))

  process_warc-Leads :
      (e : Original) (content : Bytes) (s : Shelf)
      → Holds (Leads s) (process_warc o child name e content s)
  process_warc-Leads e content s =
      Holds-bind (λ out. Leads s out.2) (Leads s)
        (ingest_responses o child name 0 (o.responses content) s) _
        (ingest_responses-Leads o child name 0 (o.responses content) s child-Leads)
        (λ out k. Leads-trans s out.2 _ k (concluded-Leads e _ _ derived "evidence.derived" out.2))

  declined-Leads : (e : Original) (s : Shelf) → Leads s (declined e s)
  declined-Leads e s = elim (Bool-cases (is_image e.kind)) [
    | inl image ↦ rw image (concluded-Leads e _ _ quarantined "evidence.parser_declined" s)
    | inr other ↦ rw other (concluded-Leads e _ _ derived "evidence.parser_declined" s)
  ]

  process_document-Leads :
      (e : Original) (content : Bytes) (s : Shelf)
      → Holds (Leads s) (process_document o e content s)
  process_document-Leads e content s = by_result (o.parse content e.kind e.filename)
    where
      by_result :
          (result : Option Parsed)
          → Holds (Leads s) (elim result [
            | none ↦ ok (declined e s)
            | some parsed ↦ add_derivatives o e parsed.documents s >>= λ t.
                let status =
                  if is_empty parsed.warnings
                  then EvidenceStatus.ready
                  else EvidenceStatus.partial in
                ok (
                  derived_log e derived "evidence.derived" (
                    set_outcome e.row.id status
                      (distinct (e.warnings ++ map from_parser parsed.warnings))
                      t))
          ])
      by_result none = declined-Leads e s
      by_result (some parsed) =
          Leads-bind s (add_derivatives o e parsed.documents s) _
            (add_derivatives-Leads o e parsed.documents s)
            (λ t. concluded-Leads e _ _ derived "evidence.derived" t)

  process_kind-Leads :
      (e : Original) (content : Bytes) (s : Shelf)
      → Holds (Leads s) (process_kind o child name e content s)
  process_kind-Leads e content s = by_kind e.kind
    where
      by_kind :
          (k : Kind)
          → Holds (Leads s) (elim k [
            | Kind.zip ↦ process_zip o child e content s
            | Kind.warc ↦ process_warc o child name e content s
            | _ ↦ process_document o e content s
          ])
      by_kind Kind.zip = process_zip-Leads e content s
      by_kind Kind.warc = process_warc-Leads e content s
      by_kind _ = process_document-Leads e content s

  pub process_evidence-Leads :
      (e : Original) (given : Option Bytes) (s : Shelf)
      → Holds (Leads s) (process_evidence o child name e given s)
  unfolding process_evidence
  process_evidence-Leads e given s =
      Holds-bind (λ u. Unit {0}) (Leads s) (raise_if (is_expired e.row.status) conflict) _
        (Holds-any (raise_if (is_expired e.row.status) conflict))
        (λ u v.
          Holds-bind (λ w. Unit {0}) (Leads s)
            (raise_if (is_reported e.origin e.source_class) conflict) _
            (Holds-any (raise_if (is_reported e.origin e.source_class) conflict))
            (λ w x.
              Holds-bind (λ h. Unit {0}) (Leads s)
                (elim given [ none ↦ stored_bytes o e s | some content ↦ ok (some content) ]) _
                (Holds-any
                  (elim given [ none ↦ stored_bytes o e s | some content ↦ ok (some content) ]))
                (λ held y. at_hand held)))
    where
      at_hand :
          (held : Option Bytes)
          → Holds (Leads s) (elim held [
            | none ↦ ok (
                custody_event e.row.case_id e.row.id verified
                  (some false)
                  (set_outcome e.row.id EvidenceStatus.failed e.warnings s))
            | some content ↦ process_kind o child name e content s
          ])
      at_hand none =
          Leads-trans s (set_outcome e.row.id EvidenceStatus.failed e.warnings s) _
            (set_outcome-Leads e.row.id EvidenceStatus.failed e.warnings s)
            (custody_event-Leads e.row.case_id e.row.id verified (some false)
              (set_outcome e.row.id EvidenceStatus.failed e.warnings s))
      at_hand (some content) = process_kind-Leads e content s
