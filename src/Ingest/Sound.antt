-- ===== src/Ingest/Sound.antt =====
-- The tables of evidence/service.py in order, and the effects that keep them so.
use mathlib.Core.List.{append-nil, append_assoc}
use darknetra.Prelude.{
  ℕ, ◌<◌, List, [], ◌++◌, ◌≡◌, refl, sym, ap, ◌∙◌, Bool, true, ◌&&◌, ◌==◌, none, some, find, All,
  All-update_if, find-append, arith, All-map, AreApart, AreApart-update_if,
}
use darknetra.Records.{EvidenceStatus}
use darknetra.Vault.{Key, Vault, at_key, exists}
use darknetra.Ingest.Rows.{
  Original, Counter, Shelf, Warning, key_of, original_of, counter_of, with_status, set_outcome,
}

-- `ys` is `xs` with rows added.
abbrev pub Extends {ℓ} : {A : Type ℓ} → List A → List A → Type ℓ
Extends {A = A} xs ys = (added : List A) × (ys ≡ xs ++ added)

module _ {ℓ} {A : Type ℓ} where
  pub Extends-refl : (xs : List A) → Extends xs xs
  Extends-refl xs = ([], sym (append-nil xs))

  pub Extends-trans : (xs ys zs : List A) → Extends xs ys → Extends ys zs → Extends xs zs
  Extends-trans xs ys zs h k = (h.0 ++ k.0, k.1 ∙ ap (λ t. t ++ k.0) h.1 ∙ append_assoc xs h.0 k.0)

abbrev pub same_digest : Original → Original → Bool
same_digest a b = b.row.case_id == a.row.case_id && b.row.sha256 == a.row.sha256

abbrev pub same_code : Original → Original → Bool
same_code a b = b.row.case_id == a.row.case_id && b.row.code == a.row.code

-- The number that the next code of a case gets.
abbrev pub next_of : ℕ → List Counter → ℕ
next_of case_id counters = elim (find (counter_of case_id) counters) [ none ↦ 1 | some c ↦ c.next ]

-- In a case no two originals have one digest or one code, and every code has been drawn from the
-- counter of its case; the bytes of each original are in the vault.
pub record AreSound (originals : List Original) (counters : List Counter) (vault : Vault)
    : Type 0 where
  pub digests : AreApart same_digest originals
  pub codes : AreApart same_code originals
  pub drawn : All (λ e. e.row.code < next_of e.row.case_id counters) originals
  pub stored : All (λ e. exists (key_of e) vault ≡ true) originals

abbrev pub IsSound : Shelf → Type 0
IsSound s = AreSound s.originals s.counters s.vault

abbrev renewed : EvidenceStatus → List Warning → Original → Original
renewed status warnings o = record (with_status status o) { warnings = warnings }

pub set_outcome-IsSound :
    (id : ℕ) (status : EvidenceStatus) (warnings : List Warning) (s : Shelf)
    → IsSound s
    → IsSound (set_outcome id status warnings s)
set_outcome-IsSound id status warnings s h =
    let f = renewed status warnings in
    record {
      digests =
          AreApart-update_if same_digest (original_of id) f s.originals (λ x y. (refl, refl))
            h.digests;
      codes =
          AreApart-update_if same_code (original_of id) f s.originals (λ x y. (refl, refl)) h.codes;
      drawn = All-update_if _ (original_of id) f s.originals (λ x k. k) h.drawn;
      stored = All-update_if _ (original_of id) f s.originals (λ x k. k) h.stored;
    }

exists-append :
    (key : Key) (vault added : Vault) → exists key vault ≡ true → exists key (vault ++ added) ≡ true
unfolding exists
exists-append key vault added h = ground (arith, find-append (at_key key) vault added)

pub vault-IsSound :
    (originals : List Original) (counters : List Counter) (vault after : Vault)
    → Extends vault after
    → AreSound originals counters vault
    → AreSound originals counters after
vault-IsSound originals counters vault after grown h = record {
  digests = h.digests;
  codes = h.codes;
  drawn = h.drawn;
  stored =
      rw (grown.1)
        (All-map _ _ (λ e k. exists-append (key_of e) vault grown.0 k) originals h.stored);
}
