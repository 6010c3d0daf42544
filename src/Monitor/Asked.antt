-- ===== src/Monitor/Asked.antt =====
-- The choice of monitor/validation.py `sources_for`, against the table of sources read by source.
use darknetra.Prelude.{
  List, [], ◌∷◌, ◌≡◌, refl, sym, ap, subst, ◌∙◌, Bool, true, false, not, ◌&&◌, ◌||◌, ◌==◌, any,
  keep, find, some, All, if◌then◌else◌, arith, ok, Bool-cases, inl, inr, AreApart,
}
use darknetra.Policy.Engine.{SourceClass, class_in}
use darknetra.Monitor.Sources.{
  Source, ItemKind, Grants, source_ordinal, same_source, source_in, default_sources, is_report,
  class_allowed, tor_allowed, telegram_allowed, person_allowed, distinct_sources, fallback,
  no_sources, chosen, sources_for,
}
use darknetra.Monitor.Granted.{IsGranted, sources_for_iff}

-- The kinds of item that a source is asked for by default.
abbrev pub is_default : Source → ItemKind → Bool
is_default Source.evidence ItemKind.image_hash = true
is_default Source.web_search ItemKind.keyword = true
is_default Source.web_search ItemKind.alias = true
is_default Source.onion_search ItemKind.keyword = true
is_default Source.onion_search ItemKind.alias = true
is_default Source.onion_search ItemKind.pgp_fingerprint = true
is_default Source.onion_lookup ItemKind.onion_domain = true
is_default Source.onion_fetch ItemKind.onion_domain = true
is_default Source.username_lookup ItemKind.alias = true
is_default Source.chain_lookup ItemKind.wallet = true
is_default Source.sanctions_check ItemKind.wallet = true
is_default Source.keyserver_lookup ItemKind.pgp_fingerprint = true
is_default Source.telegram_channel_read ItemKind.telegram_channel = true
is_default _ _ = false

abbrev pub is_evidence : Source → Bool
is_evidence Source.evidence = true
is_evidence _ = false

-- What a source that goes out needs of the policy and the settings.
abbrev pub is_enabled : Grants → Source → Bool
is_enabled g Source.evidence = true
is_enabled g Source.web_search = class_in SourceClass.osint_surface g.allowed_source_classes
is_enabled g Source.onion_search = class_in SourceClass.osint_dark g.allowed_source_classes
is_enabled g Source.onion_lookup = class_in SourceClass.osint_dark g.allowed_source_classes
is_enabled g Source.onion_fetch =
    class_in SourceClass.osint_dark g.allowed_source_classes && g.tor_enabled
is_enabled g Source.username_lookup =
    class_in SourceClass.osint_surface g.allowed_source_classes && g.person_lookup_enabled
is_enabled g Source.chain_lookup = class_in SourceClass.chain g.allowed_source_classes
is_enabled g Source.sanctions_check = class_in SourceClass.chain g.allowed_source_classes
is_enabled g Source.keyserver_lookup = class_in SourceClass.osint_surface g.allowed_source_classes
is_enabled g Source.telegram_channel_read =
    class_in SourceClass.telegram g.allowed_source_classes && g.telegram_enabled

-- The sources that no request names: those of the kind, or only the evidence in a demonstration or when
-- there is no network; and of them those that are enabled.
abbrev pub is_expected : ItemKind → Grants → Source → Bool
is_expected kind g s =
    (if g.offline_mode || g.demo then is_evidence s else is_default s kind) && is_enabled g s

-- What the returned sources are.
pub record IsAsked (kind : ItemKind) (requested : List Source) (g : Grants) (sources : List Source)
    : Type 0 where
  pub each_once : AreApart same_source sources
  pub present : no_sources sources ≡ false
  pub as_requested :
      no_sources requested ≡ false → (s : Source) → source_in s sources ≡ source_in s requested
  pub by_default : requested ≡ [] → (s : Source) → source_in s sources ≡ is_expected kind g s
  pub permitted :
      (s : Source)
      → source_in s sources ≡ true
      → (is_enabled g s ≡ true) × ((is_default s kind || is_evidence s) ≡ true)
  pub kept :
      source_in Source.evidence sources ≡ true
      → any (λ c. not (is_report c)) g.allowed_source_classes ≡ true

abbrev all_sources : List Source
all_sources =
    Source.evidence ∷ Source.web_search ∷ Source.onion_search ∷ Source.onion_lookup
    ∷ Source.onion_fetch ∷ Source.username_lookup ∷ Source.chain_lookup ∷ Source.sanctions_check
    ∷ Source.keyserver_lookup ∷ Source.telegram_channel_read ∷ []

-- A source is found in the list by its number.
find-source_ordinal :
    (s : Source) → find (λ t. source_ordinal t == source_ordinal s) all_sources ≡ some s
find-source_ordinal Source.evidence = refl
find-source_ordinal Source.web_search = refl
find-source_ordinal Source.onion_search = refl
find-source_ordinal Source.onion_lookup = refl
find-source_ordinal Source.onion_fetch = refl
find-source_ordinal Source.username_lookup = refl
find-source_ordinal Source.chain_lookup = refl
find-source_ordinal Source.sanctions_check = refl
find-source_ordinal Source.keyserver_lookup = refl
find-source_ordinal Source.telegram_channel_read = refl

same_source-eq : (s t : Source) → same_source s t ≡ true → s ≡ t
same_source-eq s t h =
    let e : source_ordinal s ≡ source_ordinal t = ground arith in
    let same : some s ≡ some t =
      sym (find-source_ordinal s)
      ∙ (ap (λ n. find (λ u. source_ordinal u == n) all_sources) e ∙ find-source_ordinal t) in
    cc

source_in-keep :
    (p : Source → Bool) (s : Source) (xs : List Source)
    → source_in s (keep p xs) ≡ (source_in s xs && p s)
source_in-keep p s [] = refl
source_in-keep p s (x ∷ xs) = elim (Bool-cases (same_source s x)) [
  | inl here ↦
      let e : p x ≡ p s = ap p (sym (same_source-eq s x here)) in
      ground (arith, here, e, source_in-keep p s xs)
  | inr other ↦ ground (arith, other, source_in-keep p s xs)
]

drop_again : (a b : Bool) → (a || (b && not a)) ≡ (a || b)
drop_again true b = refl
drop_again false true = refl
drop_again false false = refl

source_in-distinct_sources :
    (s : Source) (xs : List Source) → source_in s (distinct_sources xs) ≡ source_in s xs
source_in-distinct_sources s [] = refl
source_in-distinct_sources s (x ∷ xs) =
    ap (λ b. same_source s x || b)
      (source_in-keep (λ t. not (same_source t x)) s (distinct_sources xs)
        ∙ ap (λ b. b && not (same_source s x)) (source_in-distinct_sources s xs))
    ∙ drop_again (same_source s x) (source_in s xs)

AreApart-keep :
    (p : Source → Bool) (xs : List Source)
    → AreApart same_source xs
    → AreApart same_source (keep p xs)
AreApart-keep p [] h = tt
AreApart-keep p (x ∷ xs) h = elim (Bool-cases (p x)) [
  | inl yes_p ↦ rw yes_p (ground (arith, source_in-keep p x xs), AreApart-keep p xs h.1)
  | inr no_p ↦ rw no_p (AreApart-keep p xs h.1)
]

distinct_sources-AreApart : (xs : List Source) → AreApart same_source (distinct_sources xs)
distinct_sources-AreApart [] = tt
distinct_sources-AreApart (x ∷ xs) = (
  ground (arith, source_in-keep (λ t. not (same_source t x)) x (distinct_sources xs)),
  AreApart-keep (λ t. not (same_source t x)) (distinct_sources xs) (distinct_sources-AreApart xs),
)

default_sources-AreApart : (kind : ItemKind) → AreApart same_source (default_sources kind)
default_sources-AreApart ItemKind.keyword = (refl, (refl, tt))
default_sources-AreApart ItemKind.alias = (refl, (refl, (refl, tt)))
default_sources-AreApart ItemKind.wallet = (refl, (refl, tt))
default_sources-AreApart ItemKind.pgp_fingerprint = (refl, (refl, tt))
default_sources-AreApart ItemKind.onion_domain = (refl, (refl, tt))
default_sources-AreApart ItemKind.telegram_channel = (refl, tt)
default_sources-AreApart ItemKind.image_hash = (refl, tt)

-- A statement about every kind of item.
every_kind :
    (p : ItemKind → Type 0)
    → p ItemKind.keyword
    → p ItemKind.alias
    → p ItemKind.wallet
    → p ItemKind.pgp_fingerprint
    → p ItemKind.onion_domain
    → p ItemKind.telegram_channel
    → p ItemKind.image_hash
    → (kind : ItemKind) → p kind
every_kind p a b c d e f g ItemKind.keyword = a
every_kind p a b c d e f g ItemKind.alias = b
every_kind p a b c d e f g ItemKind.wallet = c
every_kind p a b c d e f g ItemKind.pgp_fingerprint = d
every_kind p a b c d e f g ItemKind.onion_domain = e
every_kind p a b c d e f g ItemKind.telegram_channel = f
every_kind p a b c d e f g ItemKind.image_hash = g

source_in-default_sources :
    (s : Source) (kind : ItemKind) → source_in s (default_sources kind) ≡ is_default s kind
source_in-default_sources Source.evidence =
    every_kind (λ k. source_in Source.evidence (default_sources k) ≡ is_default Source.evidence k)
      refl refl refl refl refl refl refl
source_in-default_sources Source.web_search =
    every_kind
      (λ k. source_in Source.web_search (default_sources k) ≡ is_default Source.web_search k) refl
      refl refl refl refl refl refl
source_in-default_sources Source.onion_search =
    every_kind
      (λ k. source_in Source.onion_search (default_sources k) ≡ is_default Source.onion_search k)
      refl refl refl refl refl refl refl
source_in-default_sources Source.onion_lookup =
    every_kind
      (λ k. source_in Source.onion_lookup (default_sources k) ≡ is_default Source.onion_lookup k)
      refl refl refl refl refl refl refl
source_in-default_sources Source.onion_fetch =
    every_kind
      (λ k. source_in Source.onion_fetch (default_sources k) ≡ is_default Source.onion_fetch k) refl
      refl refl refl refl refl refl
source_in-default_sources Source.username_lookup =
    every_kind
      (λ k.
        source_in Source.username_lookup (default_sources k) ≡ is_default Source.username_lookup k)
      refl refl refl refl refl refl refl
source_in-default_sources Source.chain_lookup =
    every_kind
      (λ k. source_in Source.chain_lookup (default_sources k) ≡ is_default Source.chain_lookup k)
      refl refl refl refl refl refl refl
source_in-default_sources Source.sanctions_check =
    every_kind
      (λ k.
        source_in Source.sanctions_check (default_sources k) ≡ is_default Source.sanctions_check k)
      refl refl refl refl refl refl refl
source_in-default_sources Source.keyserver_lookup =
    every_kind
      (λ k.
        source_in Source.keyserver_lookup (default_sources k)
        ≡ is_default Source.keyserver_lookup k)
      refl refl refl refl refl refl refl
source_in-default_sources Source.telegram_channel_read =
    every_kind
      (λ k.
        source_in Source.telegram_channel_read (default_sources k)
        ≡ is_default Source.telegram_channel_read k)
      refl refl refl refl refl refl refl

source_in-evidence : (s : Source) → source_in s (Source.evidence ∷ []) ≡ is_evidence s
source_in-evidence Source.evidence = refl
source_in-evidence Source.web_search = refl
source_in-evidence Source.onion_search = refl
source_in-evidence Source.onion_lookup = refl
source_in-evidence Source.onion_fetch = refl
source_in-evidence Source.username_lookup = refl
source_in-evidence Source.chain_lookup = refl
source_in-evidence Source.sanctions_check = refl
source_in-evidence Source.keyserver_lookup = refl
source_in-evidence Source.telegram_channel_read = refl

-- The filters and the checks of the code together.
is_enabled-eq :
    (g : Grants) (s : Source)
    → is_enabled g s
      ≡ (class_allowed g s && (tor_allowed g s && (telegram_allowed g s && person_allowed g s)))
is_enabled-eq g Source.evidence = ground arith
is_enabled-eq g Source.web_search = ground arith
is_enabled-eq g Source.onion_search = ground arith
is_enabled-eq g Source.onion_lookup = ground arith
is_enabled-eq g Source.onion_fetch = ground arith
is_enabled-eq g Source.username_lookup = ground arith
is_enabled-eq g Source.chain_lookup = ground arith
is_enabled-eq g Source.sanctions_check = ground arith
is_enabled-eq g Source.keyserver_lookup = ground arith
is_enabled-eq g Source.telegram_channel_read = ground arith

chosen-AreApart :
    (kind : ItemKind) (requested : List Source) (g : Grants)
    → AreApart same_source (chosen kind requested g)
chosen-AreApart kind requested g = elim (Bool-cases (no_sources (distinct_sources requested))) [
  | inl empty ↦ rw empty (fallback-AreApart (g.offline_mode || g.demo))
  | inr asked ↦ rw asked (distinct_sources-AreApart requested)
]
  where
    kept :
        (xs : List Source)
        → AreApart same_source xs
        → AreApart same_source (
            keep
              (person_allowed g)
              (keep (telegram_allowed g) (keep (tor_allowed g) (keep (class_allowed g) xs))))
    kept xs h = AreApart-keep (person_allowed g) _ (
        AreApart-keep (telegram_allowed g) _
          (AreApart-keep (tor_allowed g) _ (AreApart-keep (class_allowed g) xs h)))

    fallback-AreApart :
        (b : Bool)
        → AreApart same_source (
            keep (person_allowed g) (
              keep (telegram_allowed g) (
                keep (tor_allowed g) (
                  keep
                    (class_allowed g)
                    (if b then Source.evidence ∷ [] else default_sources kind)))))
    fallback-AreApart true = kept (Source.evidence ∷ []) (refl, tt)
    fallback-AreApart false = kept (default_sources kind) (default_sources-AreApart kind)

source_in-fallback :
    (kind : ItemKind) (g : Grants) (s : Source)
    → source_in s (fallback kind g) ≡ is_expected kind g s
source_in-fallback kind g s = go (g.offline_mode || g.demo)
  where
    kept :
        (xs : List Source)
        → source_in s (
            keep
              (person_allowed g)
              (keep (telegram_allowed g) (keep (tor_allowed g) (keep (class_allowed g) xs))))
          ≡ (source_in s xs && is_enabled g s)
    kept xs = ground (
      arith,
      source_in-keep (person_allowed g) s
          (keep (telegram_allowed g) (keep (tor_allowed g) (keep (class_allowed g) xs))),
      source_in-keep (telegram_allowed g) s (keep (tor_allowed g) (keep (class_allowed g) xs)),
      source_in-keep (tor_allowed g) s (keep (class_allowed g) xs),
      source_in-keep (class_allowed g) s xs,
      is_enabled-eq g s,
    )

    go :
        (b : Bool)
        → source_in s (
            keep (person_allowed g) (
              keep (telegram_allowed g) (
                keep (tor_allowed g) (
                  keep
                    (class_allowed g)
                    (if b then Source.evidence ∷ [] else default_sources kind)))))
          ≡ ((if b then is_evidence s else is_default s kind) && is_enabled g s)
    go true = rw (sym (source_in-evidence s)) (kept (Source.evidence ∷ []))
    go false = rw (sym (source_in-default_sources s kind)) (kept (default_sources kind))

IsGranted-in :
    (kind : ItemKind) (g : Grants) (s : Source) (xs : List Source)
    → All (IsGranted kind g) xs
    → source_in s xs ≡ true
    → IsGranted kind g s
IsGranted-in kind g s [] granted h = absurd (cc h)
IsGranted-in kind g s (x ∷ xs) granted h = elim (Bool-cases (same_source s x)) [
  | inl here ↦ subst (IsGranted kind g) (sym (same_source-eq s x here)) granted.0
  | inr other ↦ IsGranted-in kind g s xs granted.1 (ground (arith, h, other))
]

IsGranted-is_enabled :
    (kind : ItemKind) (g : Grants) (s : Source) → IsGranted kind g s → is_enabled g s ≡ true
IsGranted-is_enabled kind g s h =
    rw (is_enabled-eq g s, h.of_class, h.by_tor, h.by_telegram, h.of_persons) refl

or_or_false : (a b : Bool) → (a || b) ≡ true → (a || (b || false)) ≡ true
or_or_false true b h = refl
or_or_false false true h = refl
or_or_false false false h = h

IsGranted-is_default :
    (kind : ItemKind) (g : Grants) (s : Source)
    → IsGranted kind g s
    → (is_default s kind || is_evidence s) ≡ true
IsGranted-is_default kind g s h =
    rw (← source_in-default_sources s kind, ← source_in-evidence s)
      (or_or_false (source_in s (default_sources kind)) (same_source s Source.evidence) h.of_kind)

chosen-requested :
    (kind : ItemKind) (requested : List Source) (g : Grants) (s : Source)
    → no_sources requested ≡ false
    → source_in s (chosen kind requested g) ≡ source_in s requested
chosen-requested kind [] g s h = absurd (cc h)
chosen-requested kind (x ∷ xs) g s h = source_in-distinct_sources s (x ∷ xs)

chosen-default :
    (kind : ItemKind) (requested : List Source) (g : Grants) (s : Source)
    → requested ≡ []
    → source_in s (chosen kind requested g) ≡ is_expected kind g s
chosen-default kind requested g s h = rw h (source_in-fallback kind g s)

-- The sources that are returned are different, and there is one. They are those that are requested; if
-- none is requested they are the enabled defaults of the kind, or the evidence alone in a demonstration
-- and without network. Each of them is enabled for the case, and it is one of the kind or the evidence;
-- the evidence is returned only if the case admits a class besides reports.
pub sources_for-IsAsked :
    (kind : ItemKind) (requested : List Source) (g : Grants) (sources : List Source)
    → sources_for kind requested g ≡ ok sources
    → IsAsked kind requested g sources
sources_for-IsAsked kind requested g sources h =
    let (same, present, granted) = (sources_for_iff kind requested g sources).0 h in
    record {
      each_once = subst (AreApart same_source) same (chosen-AreApart kind requested g);
      present = present;
      as_requested = λ some_left s.
          subst (λ xs. source_in s xs ≡ source_in s requested) same
            (chosen-requested kind requested g s some_left);
      by_default = λ empty s.
          subst (λ xs. source_in s xs ≡ is_expected kind g s) same
            (chosen-default kind requested g s empty);
      permitted = λ s here.
          let k = IsGranted-in kind g s sources granted here in
          (IsGranted-is_enabled kind g s k, IsGranted-is_default kind g s k);
      kept = λ here. (IsGranted-in kind g Source.evidence sources granted here).stored;
    }
