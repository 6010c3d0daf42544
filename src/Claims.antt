-- ===== src/Claims.antt =====
-- agent/claim_checker.py: `normalize` and `verify`, on claims that have been extracted.
pub mod Support
mod Tests
use darknetra.Prelude.{
  ℕ, zero, suc, ◌+◌, List, [], ◌∷◌, reverse, Text, Bool, true, false, not, ◌&&◌, ◌||◌, ◌==◌, leb,
  Option, none, some, keep, find, any, all, mem, subset, length, count_if, is_some, is_value,
  is_empty, is_space, casefold, codes, starts_with, drop, strip, text_eq, if◌then◌else◌,
}
use darknetra.Records.{Evidence, is_accessible}
use darknetra.Decisions.Rows.{Store, Finding, FindingKind, FindingStatus, Decision, is_accept}

-- `Claim`, without the mark and the reason that `verify` sets.
pub record Claim : Type 0 where
  pub text : Text
  pub evidence_codes : List ℕ
  pub kind : FindingKind

-- What follows the first `]`.
abbrev pub after_bracket : Text → Option Text
after_bracket [] = none
after_bracket (c ∷ t) = let rest = after_bracket t in if c == 93 then some t else rest

abbrev pub starts_digit : Text → Bool
starts_digit [] = false
starts_digit (c ∷ t) = leb 48 c && leb c 57

-- A match of `\[E-\d+[^\]]*\]` at the start of a text, by what follows it.
abbrev pub after_citation : Text → Option Text
after_citation t =
    if starts_with t (codes "[E-") && starts_digit (drop 3 t) then after_bracket t else none

-- `CITATION.sub("", text)`: every step takes at least a character.
abbrev pub without_citations : ℕ → Text → Text
without_citations zero t = []
without_citations (suc fuel) [] = []
without_citations (suc fuel) (c ∷ t) =
    let kept = without_citations fuel t in
    elim (after_citation (c ∷ t)) [ none ↦ c ∷ kept | some rest ↦ without_citations fuel rest ]

-- `re.sub(r"\s+", " ", text)`; the flag says that a space has just been written.
abbrev pub collapsed : Bool → Text → Text
collapsed spaced [] = []
collapsed spaced (c ∷ t) =
    let after_space = collapsed true t in
    let after_char = collapsed false t in
    if is_space c then (if spaced then after_space else 32 ∷ after_space) else c ∷ after_char

-- The characters that `strip` takes off: space, line break, tab, `-`, `*`, `.` and quotation marks.
abbrev pub is_trimmed : ℕ → Bool
is_trimmed c = mem c (32 ∷ 10 ∷ 9 ∷ 45 ∷ 42 ∷ 46 ∷ 34 ∷ 0x201c ∷ 0x201d ∷ [])

abbrev pub ltrim : Text → Text
ltrim [] = []
ltrim (c ∷ t) = let rest = ltrim t in if is_trimmed c then rest else c ∷ t

unfoldable pub normalize : Text → Text
normalize t =
    casefold (reverse (ltrim (reverse (ltrim (collapsed false (without_citations (length t) t))))))

-- `by_code.get(code)`
abbrev pub evidence_by_code : ℕ → List Evidence → ℕ → Option Evidence
evidence_by_code case_id rows asked =
    find (λ e. e.case_id == case_id && e.code == asked && is_accessible e.status) rows

-- The identifiers of the evidence under the codes that are known.
abbrev pub ids_of : ℕ → List Evidence → List ℕ → List ℕ
ids_of case_id rows [] = []
ids_of case_id rows (c ∷ cs) = elim (evidence_by_code case_id rows c) [
  | none ↦ ids_of case_id rows cs
  | some e ↦ e.id ∷ ids_of case_id rows cs
]

abbrev pub is_confirmed : FindingKind → Bool
is_confirmed FindingKind.confirmed = true
is_confirmed _ = false

abbrev pub is_promoted : FindingStatus → Bool
is_promoted FindingStatus.promoted = true
is_promoted _ = false

-- The decision of a finding accepts it, and no decision of the case supersedes it.
abbrev pub in_force : ℕ → List Decision → Decision → Bool
in_force case_id ds d =
    d.case_id == case_id
    && is_accept d.verdict
    && not (any (λ n. n.case_id == case_id && is_value n.supersedes_id d.id) ds)

-- A finding that confirms the claim.
abbrev pub confirms : Store → ℕ → Claim → Finding → Bool
confirms s case_id c f =
    f.case_id == case_id
    && is_confirmed f.kind
    && is_promoted f.status
    && text_eq (normalize f.claim) (normalize c.text)
    && subset (ids_of case_id s.evidence c.evidence_codes) f.evidence_ids
    && any (λ d. is_value f.decision_id d.id && in_force case_id s.decisions d) s.decisions

-- A claim is verified.
unfoldable pub is_verified : Store → ℕ → Claim → Bool
is_verified s case_id c =
    not (length c.evidence_codes == 0)
    && not (is_empty (strip c.text))
    && all (λ k. is_some (evidence_by_code case_id s.evidence k)) c.evidence_codes
    && (not (is_confirmed c.kind) || any (confirms s case_id c) s.findings)

-- `verify`: whether all claims are, and how many are not.
unfoldable pub verify : Store → ℕ → List Claim → Bool × ℕ
verify s case_id claims =
    let unverified = count_if (λ c. not (is_verified s case_id c)) claims in
    (unverified == 0, unverified)
