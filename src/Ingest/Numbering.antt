-- ===== src/Ingest/Numbering.antt =====
-- A new original in evidence/service.py: its code, and the tables with it.
use darknetra.Prelude.{
  AreApart-snoc, ℕ, ◌+◌, ◌<◌, List, [], ◌∷◌, ◌++◌, ◌≡◌, refl, ap, true, false, ◌==◌, none, some,
  find, any, All, All-append, update_if, find-append, arith, if◌then◌else◌, Bool-cases,
  Option-cases, inl, inr,
}
use darknetra.Ingest.Rows.{Original, Counter, key_of, counter_of, bumped, next_evidence_code}
use darknetra.Vault.{Vault, exists}
use darknetra.Ingest.Receive.{same_bytes}
use darknetra.Ingest.Sound.{same_digest, same_code, next_of, AreSound}

find-bumped :
    (case_id other : ℕ) (counters : List Counter)
    → next_of other (update_if (counter_of case_id) bumped counters) ≡ (
        if other == case_id
        then elim (find (counter_of case_id) counters) [ none ↦ 1 | some c ↦ c.next + 1 ]
        else next_of other counters)
find-bumped case_id other [] = ground arith
find-bumped case_id other (c ∷ counters) = ground (arith, find-bumped case_id other counters)

-- Drawing a code moves the counter of the case on by one, and no other.
pub next_of-next_evidence_code :
    (case_id other : ℕ) (counters : List Counter)
    → next_of other (next_evidence_code case_id counters).1
      ≡ (if other == case_id then next_of case_id counters + 1 else next_of other counters)
next_of-next_evidence_code case_id other counters =
    elim (Option-cases (find (counter_of case_id) counters)) [
      | inl missing ↦ ground (
        arith,
        find-append (counter_of other) counters (record { case_id = case_id; next = 2 } ∷ []),
      )
      | inr (c, found) ↦ ground (arith, find-bumped case_id other counters)
    ]

pub next_evidence_code-eq :
    (case_id : ℕ) (counters : List Counter)
    → (next_evidence_code case_id counters).0 ≡ next_of case_id counters
next_evidence_code-eq case_id counters = ground arith

-- A code that has not been drawn yet clashes with none.
code_apart :
    (e : Original) (originals : List Original) (counters : List Counter)
    → e.row.code ≡ next_of e.row.case_id counters
    → All (λ x. x.row.code < next_of x.row.case_id counters) originals
    → any (λ x. same_code x e) originals ≡ false
code_apart e [] counters h k = refl
code_apart e (x ∷ originals) counters h k = elim (Bool-cases (same_code x e)) [
  | inl clash ↦
      let home : e.row.case_id ≡ x.row.case_id = ground arith in
      let number : e.row.code ≡ x.row.code = ground arith in
      absurd (omega (arith, k.0, h, ap (λ c. next_of c counters) home))
  | inr apart ↦ rw apart (code_apart e originals counters h k.1)
]

digest_apart :
    (e : Original) (originals : List Original)
    → any (same_bytes e.row.case_id e.row.sha256) originals ≡ false
    → any (λ x. same_digest x e) originals ≡ false
digest_apart e [] h = refl
digest_apart e (x ∷ originals) h = ground (arith, digest_apart e originals)

drawn_before :
    (case_id : ℕ) (originals : List Original) (counters : List Counter)
    → All (λ x. x.row.code < next_of x.row.case_id counters) originals
    → All
        (λ x. x.row.code < next_of x.row.case_id (next_evidence_code case_id counters).1)
        originals
drawn_before case_id [] counters h = tt
drawn_before case_id (x ∷ originals) counters h = (
  elim (Bool-cases (x.row.case_id == case_id)) [
    | inl here ↦
        let home : x.row.case_id ≡ case_id = ground arith in
        omega (
          arith,
          h.0,
          ap (λ c. next_of c counters) home,
          rw here at (next_of-next_evidence_code case_id x.row.case_id counters),
        )
    | inr there ↦
        omega (arith, h.0, rw there at (next_of-next_evidence_code case_id x.row.case_id counters))
  ],
  drawn_before case_id originals counters h.1,
)

-- A new row with bytes that the case does not have, the next code and its bytes in the vault.
pub AreSound-snoc :
    (e : Original) (originals : List Original) (counters : List Counter) (vault : Vault)
    → any (same_bytes e.row.case_id e.row.sha256) originals ≡ false
    → e.row.code ≡ next_of e.row.case_id counters
    → exists (key_of e) vault ≡ true
    → AreSound originals counters vault
    → AreSound (originals ++ (e ∷ [])) (next_evidence_code e.row.case_id counters).1 vault
AreSound-snoc e originals counters vault fresh number held h =
    let moved = next_of-next_evidence_code e.row.case_id e.row.case_id counters in
    record {
      digests = AreApart-snoc same_digest originals e (digest_apart e originals fresh) h.digests;
      codes =
          AreApart-snoc same_code originals e (code_apart e originals counters number h.drawn)
            h.codes;
      drawn =
          All-append _ originals (e ∷ []) (drawn_before e.row.case_id originals counters h.drawn)
            (ground (arith, moved), tt);
      stored = All-append _ originals (e ∷ []) h.stored (held, tt);
    }
