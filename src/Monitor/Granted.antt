-- ===== src/Monitor/Granted.antt =====
-- The sources that monitor/validation.py `sources_for` returns.
use darknetra.Prelude.{
  List, [], ◌∷◌, ◌≡◌, refl, ◌↔◌, Bool, true, false, not, All, arith, Result, ok, Result-cases,
  Bool-cases, inl, inr, raise_if, validation, ◌>>◌, policy_denied, Error,
}
use darknetra.Monitor.Sources.{
  Source, ItemKind, Grants, allowed_source, evidence_allowed, class_allowed, tor_allowed,
  telegram_allowed, person_allowed, check_source, check_sources, no_sources, chosen, sources_for,
}

-- The case and the settings permit the source for the kind of item.
pub record IsGranted (kind : ItemKind) (g : Grants) (source : Source) : Type 0 where
  pub of_kind : allowed_source kind source ≡ true
  pub stored : evidence_allowed g source ≡ true
  pub of_class : class_allowed g source ≡ true
  pub by_tor : tor_allowed g source ≡ true
  pub by_telegram : telegram_allowed g source ≡ true
  pub of_persons : person_allowed g source ≡ true

passes :
    {A : Type 0} (c : Bool) (e : Error) (f : Result A) (a : A)
    → (raise_if (not c) e >> f) ≡ ok a
    → (c ≡ true) × (f ≡ ok a)
passes true e f a h = (refl, h)
passes false e f a h = cc

last_passes : (c : Bool) (e : Error) → raise_if (not c) e ≡ ok tt → c ≡ true
last_passes true e h = refl
last_passes false e h = cc

check_source-IsGranted :
    (kind : ItemKind) (g : Grants) (source : Source)
    → check_source kind g source ≡ ok tt
    → IsGranted kind g source
check_source-IsGranted kind g source h =
    let kinds = passes (allowed_source kind source) validation _ tt h in
    let stored = passes (evidence_allowed g source) policy_denied _ tt kinds.1 in
    let classes = passes (class_allowed g source) policy_denied _ tt stored.1 in
    let tor = passes (tor_allowed g source) policy_denied _ tt classes.1 in
    let telegram = passes (telegram_allowed g source) policy_denied _ tt tor.1 in
    let persons = last_passes (person_allowed g source) policy_denied telegram.1 in
    record {
      of_kind = kinds.0;
      stored = stored.0;
      of_class = classes.0;
      by_tor = tor.0;
      by_telegram = telegram.0;
      of_persons = persons;
    }

check_of_granted :
    (kind : ItemKind) (g : Grants) (source : Source)
    → IsGranted kind g source
    → check_source kind g source ≡ ok tt
check_of_granted kind g source h =
    rw (h.of_kind, h.stored, h.of_class, h.by_tor, h.by_telegram, h.of_persons) refl

check_sources-IsGranted :
    (kind : ItemKind) (g : Grants) (sources : List Source)
    → check_sources kind g sources ≡ ok tt
    → All (IsGranted kind g) sources
check_sources-IsGranted kind g [] h = tt
check_sources-IsGranted kind g (s ∷ sources) h = elim (Result-cases (check_source kind g s)) [
  | inl (u, good) ↦
      (check_source-IsGranted kind g s good, check_sources-IsGranted kind g sources (rw good at h))
  | inr (e, bad) ↦ absurd (cc (rw bad at h))
]

checks_of_granted :
    (kind : ItemKind) (g : Grants) (sources : List Source)
    → All (IsGranted kind g) sources
    → check_sources kind g sources ≡ ok tt
checks_of_granted kind g [] h = refl
checks_of_granted kind g (s ∷ sources) h =
    rw (check_of_granted kind g s h.0) (checks_of_granted kind g sources h.1)

-- The sources of an item are exactly those that are asked for, each once, or the permitted defaults of
-- its kind when none is asked for; and they are returned exactly if there is one and each is of
-- the kind, of an allowed class, and enabled in the policy where it needs Tor, Telegram, the lookup of
-- persons or stored evidence.
pub sources_for_iff :
    (kind : ItemKind) (requested : List Source) (g : Grants) (sources : List Source)
    → (sources_for kind requested g ≡ ok sources) ↔ (
        (chosen kind requested g ≡ sources)
        × (no_sources sources ≡ false)
        × All (IsGranted kind g) sources)
unfolding sources_for
sources_for_iff kind requested g sources =
    let picked = chosen kind requested g in
    (
      (λ h. elim (Bool-cases (no_sources picked)) [
        | inl empty ↦ absurd (cc (rw empty at h))
        | inr some_left ↦ elim (Result-cases (check_sources kind g picked)) [
          | inl (u, good) ↦
              let same : picked ≡ sources = ground arith in
              (
                same,
                rw (← same) some_left,
                rw (← same) (check_sources-IsGranted kind g picked good),
              )
          | inr (e, bad) ↦ absurd (ground arith)
        ]
      ]),
      (λ h.
          let nonempty : no_sources picked ≡ false = rw (h.0) (h.1) in
          let good : check_sources kind g picked ≡ ok tt =
            checks_of_granted kind g picked (rw (h.0) (h.2)) in
          rw (nonempty, good, h.0) refl),
    )
