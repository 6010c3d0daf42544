-- ===== src/Claims/Support.antt =====
-- agent/claim_checker.py `verify`: the evidence and the decisions behind verified claims.
use darknetra.Prelude.{
  get_elem?, suc, refl, ℕ, ◌≡◌, ◌≤◌, ◌==◌, ◌&&◌, List, [], ◌∷◌, Bool, true, false, some, All, any,
  arith, text_eq, length, Bool-cases, all, is_value, subset, is_empty, is_some, inl, strip,
  Option-cases, inr, find-some, ◌⊎◌,
}
use darknetra.Records.{Evidence, is_accessible}
use darknetra.Decisions.Rows.{Store, Finding, FindingKind, FindingStatus, Decision, is_accept}
use darknetra.Claims.{
  is_confirmed, Claim, evidence_by_code, confirms, in_force, is_verified, verify, normalize, ids_of,
}

-- The code stands for accessible evidence of the case.
abbrev pub IsCited : Store → ℕ → ℕ → Type 0
IsCited s case_id k =
    (e : Evidence) × (evidence_by_code case_id s.evidence k ≡ some e)
    × (e.case_id ≡ case_id)
    × (e.code ≡ k)
    × (is_accessible e.status ≡ true)

-- The row stands in the table.
abbrev pub Among {ℓ} : {A : Type ℓ} → A → List A → Type ℓ
Among x xs = (n : ℕ) × (get_elem? xs n ≡ some x)

-- A promoted finding of the case in the table, with the claim's text and evidence, and the accepting
-- decision on it in the table that nothing supersedes.
abbrev pub IsConfirmed : Store → ℕ → Claim → Type 0
IsConfirmed s case_id c =
    (f : Finding) × (d : Decision) × Among f s.findings
    × Among d s.decisions
    × (f.case_id ≡ case_id)
    × (f.kind ≡ FindingKind.confirmed)
    × (f.status ≡ FindingStatus.promoted)
    × (text_eq (normalize f.claim) (normalize c.text) ≡ true)
    × (subset (ids_of case_id s.evidence c.evidence_codes) f.evidence_ids ≡ true)
    × (f.decision_id ≡ some d.id)
    × (d.case_id ≡ case_id)
    × (is_accept d.verdict ≡ true)
    × (any (λ n. n.case_id == case_id && is_value n.supersedes_id d.id) s.decisions ≡ false)

pub record IsSupported (s : Store) (case_id : ℕ) (c : Claim) : Type 0 where
  pub cites : 1 ≤ length c.evidence_codes
  pub says : is_empty (strip c.text) ≡ false
  pub cited : All (IsCited s case_id) c.evidence_codes
  pub confirmed : (is_confirmed c.kind ≡ false) ⊎ IsConfirmed s case_id c

any-Among :
    {A : Type 0} (p : A → Bool) (xs : List A)
    → any p xs ≡ true
    → (x : A) × Among x xs × (p x ≡ true)
any-Among p [] h = cc
any-Among p (x ∷ xs) h = elim (Bool-cases (p x)) [
  | inl here ↦ (x, (0, refl), here)
  | inr later ↦
      let (y, among, fits) = any-Among p xs (ground arith) in (y, (suc among.0, among.1), fits)
]

all-IsCited :
    (s : Store) (case_id : ℕ) (ks : List ℕ)
    → all (λ k. is_some (evidence_by_code case_id s.evidence k)) ks ≡ true
    → All (IsCited s case_id) ks
all-IsCited s case_id [] h = tt
all-IsCited s case_id (k ∷ ks) h = elim (Option-cases (evidence_by_code case_id s.evidence k)) [
  | inl absent ↦ absurd (ground arith)
  | inr (e, found) ↦
      let here =
        find-some (λ e. e.case_id == case_id && e.code == k && is_accessible e.status) s.evidence e
          found in
      (
        (e, found, ground arith, ground arith, ground arith),
        all-IsCited s case_id ks (ground arith),
      )
]

confirms-IsConfirmed :
    (s : Store) (case_id : ℕ) (c : Claim) (f : Finding)
    → Among f s.findings
    → confirms s case_id c f ≡ true
    → IsConfirmed s case_id c
confirms-IsConfirmed s case_id c f stored h =
    let (d, decided, found) =
      any-Among (λ d. is_value f.decision_id d.id && in_force case_id s.decisions d) s.decisions
        (ground arith) in
    (
      f,
      d,
      stored,
      decided,
      ground arith,
      ground arith,
      ground arith,
      ground arith,
      ground arith,
      ground arith,
      ground arith,
      ground arith,
      ground arith,
    )

is_verified-IsSupported :
    (s : Store) (case_id : ℕ) (c : Claim) → is_verified s case_id c ≡ true → IsSupported s case_id c
unfolding is_verified
is_verified-IsSupported s case_id c h = record {
  cites = ground arith;
  says = ground arith;
  cited = all-IsCited s case_id c.evidence_codes (ground arith);
  confirmed = elim (Bool-cases (is_confirmed c.kind)) [
    | inr other ↦ inl other
    | inl confirming ↦
        let found : any (confirms s case_id c) s.findings ≡ true = ground arith in
        let (f, stored, fits) = any-Among (confirms s case_id c) s.findings found in
        inr (confirms-IsConfirmed s case_id c f stored fits)
  ];
}

-- If a text passes the check, each of its claims cites evidence, all of it accessible evidence of the case,
-- and each claim of a confirmation has, among the stored rows, a promoted finding of the case with its text and its evidence, whose
-- decision accepts it and is not superseded.
pub verify-IsSupported :
    (s : Store) (case_id : ℕ) (claims : List Claim)
    → (verify s case_id claims).0 ≡ true
    → All (IsSupported s case_id) claims
unfolding verify
verify-IsSupported s case_id [] h = tt
verify-IsSupported s case_id (c ∷ claims) h = (
  is_verified-IsSupported s case_id c (ground arith),
  verify-IsSupported s case_id claims (ground arith),
)
