-- ===== src/Ingest/Integrity.antt =====
-- What evidence/service.py `ingest_bytes` leaves of the tables and of the vault.
use mathlib.Core.List.{map-append}
use darknetra.Prelude.{
  Holds-ok, Holds, Holds-bind, Holds-any, ℕ, List, [], ◌∷◌, ◌++◌, ◌≡◌, refl, Bool, true, false,
  ◌&&◌, ◌==◌, Option, none, some, find, any, map, find-none, any-append, if◌then◌else◌, arith, ok,
  ◌>>=◌, Result-cases, Bool-cases, inl, inr, Text, subst, Error, Result, raise_if, suc, ◌>>◌, zero,
  ltb, length, too_large, or_raise, internal, not, conflict, not_found,
}
use darknetra.Records.{EvidenceStatus, Case}
use darknetra.Vault.{Bytes, Key, Vault, read, exists, put_bytes}
use darknetra.Vault.Stored.{put_bytes-IsStored}
use darknetra.Ingest.Rows.{
  Outside, Original, Reason, Sniffed, quarantined, verified, Shelf, key_of, next_evidence_code,
  custody_event, log, set_outcome,
}
use darknetra.Ingest.Sniffing.{reason_for}
use darknetra.Ingest.Process.{Ingest}
use darknetra.Ingest.Receive.{
  Request, Receipt, same_bytes, recheck, is_intact, new_original, add_original, current_warnings,
  derive, store_new, ingest_bytes, ingest_with, child_request, is_opened, has_parent,
}
use darknetra.Ingest.Sound.{Extends, Extends-refl, vault-IsSound, IsSound}
use darknetra.Ingest.Numbering.{next_evidence_code-eq, AreSound-snoc}
use darknetra.Ingest.Growth.{
  Identity, identity, Leads, Leads-refl, Leads-trans, set_outcome-Leads, custody_event-Leads,
  log-Leads, Grows,
}
use darknetra.Ingest.Processed.{process_evidence-Leads}

recheck-Leads : (o : Outside) (e : Original) (s : Shelf) → Leads s (recheck o e s).1
recheck-Leads o e s = by_check (is_intact o e s)
  where
    by_check :
        (good : Bool)
        → Leads s (
            let t =
              log "evidence.duplicate_verified" e.row.case_id e.row.id
                (custody_event e.row.case_id e.row.id verified (some good) s) in
            if good then t else set_outcome e.row.id EvidenceStatus.failed e.warnings t)
    by_check true =
        Leads-trans s _ _ (custody_event-Leads e.row.case_id e.row.id verified (some true) s)
          (log-Leads "evidence.duplicate_verified" e.row.case_id e.row.id _)
    by_check false =
        Leads-trans s _ _ (custody_event-Leads e.row.case_id e.row.id verified (some false) s) (
          Leads-trans _ _ _ (log-Leads "evidence.duplicate_verified" e.row.case_id e.row.id _)
            (set_outcome-Leads e.row.id EvidenceStatus.failed e.warnings _))

read-exists :
    (key : Key) (vault : Vault) (content : Bytes)
    → read key vault ≡ ok content
    → exists key vault ≡ true
unfolding read exists
read-exists key vault content h = ground arith

-- The new row, once its bytes are in the vault.
add_original-Leads :
    (o : Outside) (r : Request) (reason : Option Reason) (sniffed : Sniffed) (s : Shelf)
    (stored : Key × Vault)
    → put_bytes o.sha256 r.case_id r.content s.vault ≡ ok stored
    → find (same_bytes r.case_id (o.sha256 r.content)) s.originals ≡ none
    → Leads s (add_original o r reason sniffed (record s { vault = stored.1 })).1
add_original-Leads o r reason sniffed s stored put fresh =
    let kept = put_bytes-IsStored o.sha256 r.case_id r.content s.vault stored put in
    let code = (next_evidence_code r.case_id s.counters).0 in
    let e = new_original o r s.fresh code reason sniffed in
    let named : stored.0 ≡ key_of e = kept.named in
    let there : exists (key_of e) stored.1 ≡ true =
      subst (λ k. exists k stored.1 ≡ true) named
        (read-exists stored.0 stored.1 kept.held.0 kept.held.1) in
    (
      record {
        rows = (identity e ∷ [], map-append identity s.originals (e ∷ []));
        vault = kept.added;
        custody = (_, refl);
        trail = Extends-refl s.trail;
      },
      λ sound.
          AreSound-snoc e s.originals s.counters stored.1
            (find-none (same_bytes r.case_id (o.sha256 r.content)) s.originals fresh)
            (next_evidence_code-eq r.case_id s.counters) there
            (vault-IsSound s.originals s.counters s.vault stored.1 kept.added sound),
    )

derive-Leads :
    (o : Outside) (child : Ingest) (r : Request) (reason : Option Reason) (e : Original) (s : Shelf)
    → ((content : Bytes) (filename : Text) (t : Shelf) → Holds (Leads t) (child content filename t))
    → Holds (Leads s) (derive o child r reason e s)
derive-Leads o child r (some q) e s h = custody_event-Leads r.case_id e.row.id quarantined none s
derive-Leads o child r none e s h = elim (Bool-cases r.defer_processing) [
  | inl later ↦ rw later (Leads-refl s)
  | inr now ↦ rw now (process_evidence-Leads o child o.response_name h e (some r.content) s)
]

-- The row with these bytes stands in the table.
abbrev pub is_kept : ℕ → ℕ → ℕ → Identity → Bool
is_kept id case_id digest i = i.id == id && i.case_id == case_id && i.digest == digest

-- What a successful ingestion of some bytes leaves.
abbrev pub Received : Outside → Request → Shelf → Receipt × Shelf → Type 0
Received o r s out =
    Leads s out.1
    × (any (is_kept out.0.evidence_id r.case_id (o.sha256 r.content)) (map identity out.1.originals)
        ≡ true)

kept-Extends :
    (p : Identity → Bool) (rows after : List Identity)
    → Extends rows after
    → any p rows ≡ true
    → any p after ≡ true
kept-Extends p rows after (added, e) h = rw e (ground (arith, any-append p rows added))

any-snoc :
    (p : Identity → Bool) (rows : List Identity) (i : Identity)
    → p i ≡ true
    → any p (rows ++ (i ∷ [])) ≡ true
any-snoc p rows i h = ground (arith, any-append p rows (i ∷ []))

store_new-Received :
    (o : Outside) (child : ℕ → Ingest) (r : Request) (s : Shelf)
    → ((parent : ℕ) (content : Bytes) (filename : Text) (t : Shelf)
        → Holds (Leads t) (child parent content filename t))
    → find (same_bytes r.case_id (o.sha256 r.content)) s.originals ≡ none
    → Holds (Received o r s) (store_new o child r s)
unfolding store_new
store_new-Received o child r s h fresh =
    elim (Result-cases (put_bytes o.sha256 r.case_id r.content s.vault)) [
      | inr (x, failed) ↦ rw failed tt
      | inl (stored, put) ↦ rw put (finish stored put)
    ]
  where
    sniffed : Sniffed
    sniffed = o.sniff r.content r.filename

    reason : Option Reason
    reason =
        reason_for sniffed (o.unzip r.content) r.filename r.source_class r.parent_id o.max_zip_bytes

    finish :
        (stored : Key × Vault)
        → put_bytes o.sha256 r.case_id r.content s.vault ≡ ok stored
        → Holds (Received o r s) (
            let added = add_original o r reason sniffed (record s { vault = stored.1 }) in
            derive o (child s.fresh) r reason added.0 added.1 >>= λ t. ok (
              record {
                evidence_id = s.fresh;
                duplicate = false;
                warnings = current_warnings s.fresh t;
              },
              log "evidence.ingest" r.case_id s.fresh t,
            ))
    finish stored put =
        let added = add_original o r reason sniffed (record s { vault = stored.1 }) in
        let first = add_original-Leads o r reason sniffed s stored put fresh in
        Holds-bind (Leads added.1) (Received o r s)
          (derive o (child s.fresh) r reason added.0 added.1) _
          (derive-Leads o (child s.fresh) r reason added.0 added.1 (h s.fresh))
          (λ t k.
            let last = log-Leads "evidence.ingest" r.case_id s.fresh t in
            (
              Leads-trans s added.1 _ first (Leads-trans added.1 t _ k last),
              kept-Extends (is_kept s.fresh r.case_id (o.sha256 r.content)) _ _ k.0.rows (
                  rw (map-append identity s.originals (added.0 ∷ [])) (
                    any-snoc (is_kept s.fresh r.case_id (o.sha256 r.content))
                      (map identity s.originals) (identity added.0) (ground arith))),
            ))

known-is_kept :
    (case_id digest : ℕ) (originals : List Original) (e : Original)
    → find (same_bytes case_id digest) originals ≡ some e
    → any (is_kept e.row.id case_id digest) (map identity originals) ≡ true
known-is_kept case_id digest [] e h = absurd (ground arith)
known-is_kept case_id digest (x ∷ originals) e h =
    ground (arith, known-is_kept case_id digest originals e)

recheck-Received :
    (o : Outside) (r : Request) (e : Original) (s : Shelf)
    → find (same_bytes r.case_id (o.sha256 r.content)) s.originals ≡ some e
    → Received o r s (recheck o e s)
recheck-Received o r e s h =
    let led = recheck-Leads o e s in
    (
      led,
      kept-Extends (is_kept e.row.id r.case_id (o.sha256 r.content)) _ _ led.0.rows
          (known-is_kept r.case_id (o.sha256 r.content) s.originals e h),
    )

-- A step that only checks.
Holds-check :
    {A : Type 0} (P : A → Type 0) (c : Bool) (e : Error) (f : Result A)
    → Holds P f
    → Holds P (raise_if c e >> f)
Holds-check P true e f h = tt
Holds-check P false e f h = h

module _ (o : Outside) (deeper : Request → Shelf → Result (Receipt × Shelf))
    (deeper-Received : (q : Request) (t : Shelf) → Holds (Received o q t) (deeper q t)) where
  child-Leads : (q : Request) (t : Shelf) → Holds (Leads t) (deeper q t >>= λ out. ok (out.1))
  child-Leads q t =
      Holds-bind (Received o q t) (Leads t) (deeper q t) _ (deeper-Received q t) (λ out k. k.0)

  ingest_with-Received :
      (r : Request) (s : Shelf) → Holds (Received o r s) (ingest_with o deeper r s)
  unfolding ingest_with
  ingest_with-Received r s =
      Holds-check (Received o r s) (ltb o.max_upload_bytes (length r.content)) too_large _ (
        Holds-bind (λ c. Unit {0}) (Received o r s)
          (or_raise (find (λ (c : Case). c.id == r.case_id) s.cases) internal) _
          (Holds-any (or_raise (find (λ (c : Case). c.id == r.case_id) s.cases) internal))
          (λ c u. Holds-check (Received o r s) (not (is_opened c.status)) conflict _ (
            Holds-check (Received o r s) (not (has_parent r.case_id r.parent_id s.originals))
              not_found _
              (by_bytes (find (same_bytes r.case_id (o.sha256 r.content)) s.originals) refl))))
    where
      by_bytes :
          (found : Option Original)
          → find (same_bytes r.case_id (o.sha256 r.content)) s.originals ≡ found
          → Holds (Received o r s) (elim found [
            | some previous ↦ ok (recheck o previous s)
            | none ↦
                store_new o
                  (λ parent content filename t.
                    deeper (child_request r parent content filename) t >>= λ out. ok (out.1))
                  r
                  s
          ])
      by_bytes (some previous) h = recheck-Received o r previous s h
      by_bytes none h =
          store_new-Received o _ r s
            (λ parent content filename t. child-Leads (child_request r parent content filename) t) h

ingest_bytes-Received :
    (fuel : ℕ) (o : Outside) (r : Request) (s : Shelf)
    → Holds (Received o r s) (ingest_bytes fuel o r s)
unfolding ingest_bytes
ingest_bytes-Received zero o r s = tt
ingest_bytes-Received (suc fuel) o r s =
    ingest_with-Received o (ingest_bytes fuel o) (λ q t. ingest_bytes-Received fuel o q t) r s

module _ (o : Outside) (r : Request) (s : Shelf) (out : Receipt × Shelf)
    (success : ingest_bytes 2 o r s ≡ ok out) where
  -- A successful ingestion, the archive's members included, keeps the tables in order: in a case no
  -- two originals have one digest or one code, every code has been drawn from the counter of its
  -- case, and the bytes of each original are in the vault.
  pub ingest_bytes-IsSound : IsSound s → IsSound out.1
  ingest_bytes-IsSound sound =
      (Holds-ok (Received o r s) (ingest_bytes 2 o r s) out (ingest_bytes-Received 2 o r s)
          success).0.1
        sound

  -- A successful ingestion takes nothing back: no original loses its identifier, its case, its code or
  -- its digest, no file of the vault is lost or replaced, and custody events and audit entries
  -- are only added. The original that the receipt names then has the digest of the bytes, in the
  -- case that was asked for.
  pub ingest_bytes-Grows :
      Grows s out.1
      × (any
            (is_kept out.0.evidence_id r.case_id (o.sha256 r.content))
            (map identity out.1.originals)
          ≡ true)
  ingest_bytes-Grows =
      let received =
        Holds-ok (Received o r s) (ingest_bytes 2 o r s) out (ingest_bytes-Received 2 o r s)
          success in
      (received.0.0, received.1)
