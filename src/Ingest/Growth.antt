-- ===== src/Ingest/Growth.antt =====
-- What every part of evidence/service.py `process_evidence` leaves of the tables.
use mathlib.Core.List.{append-nil}
use darknetra.Prelude.{
  Holds, ℕ, List, [], ◌∷◌, ◌≡◌, refl, sym, ◌∙◌, Bool, true, false, Option, none, some, map,
  update_if, String, Text, if◌then◌else◌, Bool-cases, inl, inr, Result, ok, err, ◌>>=◌,
}
use darknetra.Records.{EvidenceStatus}
use darknetra.Audit.{record_entry-eq-append}
use darknetra.Vault.{Bytes}
use darknetra.Ingest.Rows.{
  Original, Custody, Shelf, Warning, Packed, original_of, custody_event, log, set_outcome,
  with_status,
}
use darknetra.Ingest.Process.{Ingest, ingest_members, derived_log}
use darknetra.Ingest.Sound.{Extends, Extends-refl, Extends-trans, IsSound, set_outcome-IsSound}

-- What never changes of an original: its identifier, its case, its code and its digest.
pub record Identity : Type 0 where
  pub id : ℕ
  pub case_id : ℕ
  pub code : ℕ
  pub digest : ℕ

abbrev pub identity : Original → Identity
identity e = record {
  id = e.row.id;
  case_id = e.row.case_id;
  code = e.row.code;
  digest = e.row.sha256;
}

-- From one state to a later one nothing is taken back.
pub record Grows (s t : Shelf) : Type 0 where
  pub rows : Extends (map identity s.originals) (map identity t.originals)
  pub vault : Extends s.vault t.vault
  pub custody : Extends s.custody t.custody
  pub trail : Extends s.trail t.trail

-- A later state in which nothing is taken back, and the tables are in order if they were before.
abbrev pub Leads : Shelf → Shelf → Type 0
Leads s t = Grows s t × (IsSound s → IsSound t)

pub Leads-refl : (s : Shelf) → Leads s s
Leads-refl s = (
  record {
    rows = Extends-refl (map identity s.originals);
    vault = Extends-refl s.vault;
    custody = Extends-refl s.custody;
    trail = Extends-refl s.trail;
  },
  λ h. h,
)

pub Leads-trans : (s t u : Shelf) → Leads s t → Leads t u → Leads s u
Leads-trans s t u h k = (
  record {
    rows = Extends-trans _ _ _ h.0.rows k.0.rows;
    vault = Extends-trans _ _ _ h.0.vault k.0.vault;
    custody = Extends-trans _ _ _ h.0.custody k.0.custody;
    trail = Extends-trans _ _ _ h.0.trail k.0.trail;
  },
  λ sound. k.1 (h.1 sound),
)

map-update_if :
    (f : Original → Original) (p : Original → Bool) (rows : List Original)
    → ((e : Original) → identity (f e) ≡ identity e)
    → map identity (update_if p f rows) ≡ map identity rows
map-update_if f p [] h = refl
map-update_if f p (e ∷ rows) h = elim (Bool-cases (p e)) [
  | inl yes_p ↦ rw (yes_p, h e, map-update_if f p rows h) refl
  | inr no_p ↦ rw (no_p, map-update_if f p rows h) refl
]

pub set_outcome-Leads :
    (id : ℕ) (status : EvidenceStatus) (warnings : List Warning) (s : Shelf)
    → Leads s (set_outcome id status warnings s)
set_outcome-Leads id status warnings s = (
  record {
    rows = (
      [],
      map-update_if (λ o. record (with_status status o) { warnings = warnings }) (original_of id)
            s.originals (λ e. refl)
          ∙ sym (append-nil (map identity s.originals)),
    );
    vault = Extends-refl s.vault;
    custody = Extends-refl s.custody;
    trail = Extends-refl s.trail;
  },
  set_outcome-IsSound id status warnings s,
)

pub custody_event-Leads :
    (case_id evidence_id : ℕ) (action : Custody) (checked : Option Bool) (s : Shelf)
    → Leads s (custody_event case_id evidence_id action checked s)
custody_event-Leads case_id evidence_id action checked s = (
  record {
    rows = Extends-refl (map identity s.originals);
    vault = Extends-refl s.vault;
    custody = (_, refl);
    trail = Extends-refl s.trail;
  },
  λ h. h,
)

pub log-Leads :
    (action : String) (case_id evidence_id : ℕ) (s : Shelf)
    → Leads s (log action case_id evidence_id s)
log-Leads action case_id evidence_id s = (
  record {
    rows = Extends-refl (map identity s.originals);
    vault = Extends-refl s.vault;
    custody = Extends-refl s.custody;
    trail = (_, record_entry-eq-append action (some case_id) (some evidence_id) s.trail);
  },
  λ h. h,
)

-- The end of each way through `process_evidence`.
pub concluded-Leads :
    (e : Original) (status : EvidenceStatus) (warnings : List Warning) (action : Custody)
    (name : String) (s : Shelf)
    → Leads s (derived_log e action name (set_outcome e.row.id status warnings s))
concluded-Leads e status warnings action name s =
    let t = set_outcome e.row.id status warnings s in
    let u = custody_event e.row.case_id e.row.id action none t in
    Leads-trans s t _ (set_outcome-Leads e.row.id status warnings s) (
      Leads-trans t u _ (custody_event-Leads e.row.case_id e.row.id action none t)
        (log-Leads name e.row.case_id e.row.id u))

pub Leads-after :
    (s t : Shelf) (r : Result Shelf) → Leads s t → Holds (Leads t) r → Holds (Leads s) r
Leads-after s t (ok u) k l = Leads-trans s t u k l
Leads-after s t (err e) k l = tt

-- What follows a step that leads to a later state.
pub Leads-bind :
    (s : Shelf) (r : Result Shelf) (f : Shelf → Result Shelf)
    → Holds (Leads s) r
    → ((t : Shelf) → Holds (Leads t) (f t))
    → Holds (Leads s) (r >>= f)
Leads-bind s (err e) f h k = tt
Leads-bind s (ok t) f h k = Leads-after s t (f t) h (k t)

pub ingest_members-Leads :
    (child : Ingest) (packed : List Packed) (s : Shelf)
    → ((content : Bytes) (filename : Text) (t : Shelf) → Holds (Leads t) (child content filename t))
    → Holds (Leads s) (ingest_members child packed s)
ingest_members-Leads child [] s h = Leads-refl s
ingest_members-Leads child (p ∷ packed) s h =
    Leads-bind s (if p.is_dir then ok s else child p.content p.member.filename s)
      (λ t. ingest_members child packed t) (first p.is_dir)
      (λ t. ingest_members-Leads child packed t h)
  where
    first : (b : Bool) → Holds (Leads s) (if b then ok s else child p.content p.member.filename s)
    first true = Leads-refl s
    first false = h p.content p.member.filename s
