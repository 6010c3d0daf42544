-- ===== src/Monitor/Sources.antt =====
-- monitor/validation.py `sources_for`, and the tables of sources beside it.
use darknetra.Prelude.{
  ℕ, List, [], ◌∷◌, Bool, true, false, not, ◌||◌, ◌==◌, Option, none, some, any, keep,
  if◌then◌else◌, Result, ok, policy_denied, validation, raise_if, ◌>>◌,
}
use darknetra.Policy.Engine.{SourceClass, class_in}

pub data Source : Type 0 where
  evidence web_search onion_search onion_lookup onion_fetch username_lookup chain_lookup : Source
  sanctions_check keyserver_lookup telegram_channel_read : Source

pub data ItemKind : Type 0 where
  keyword alias wallet pgp_fingerprint onion_domain telegram_channel image_hash : ItemKind

abbrev pub source_ordinal : Source → ℕ
source_ordinal evidence = 0
source_ordinal web_search = 1
source_ordinal onion_search = 2
source_ordinal onion_lookup = 3
source_ordinal onion_fetch = 4
source_ordinal username_lookup = 5
source_ordinal chain_lookup = 6
source_ordinal sanctions_check = 7
source_ordinal keyserver_lookup = 8
source_ordinal telegram_channel_read = 9

abbrev pub same_source : Source → Source → Bool
same_source a b = source_ordinal a == source_ordinal b

abbrev pub source_in : Source → List Source → Bool
source_in a sources = any (same_source a) sources

-- `SOURCE_CLASSES`
abbrev pub source_class : Source → Option SourceClass
source_class evidence = none
source_class web_search = some SourceClass.osint_surface
source_class onion_search = some SourceClass.osint_dark
source_class onion_lookup = some SourceClass.osint_dark
source_class onion_fetch = some SourceClass.osint_dark
source_class username_lookup = some SourceClass.osint_surface
source_class chain_lookup = some SourceClass.chain
source_class sanctions_check = some SourceClass.chain
source_class keyserver_lookup = some SourceClass.osint_surface
source_class telegram_channel_read = some SourceClass.telegram

-- The sources of `DEFAULTS`.
abbrev pub default_sources : ItemKind → List Source
default_sources keyword = web_search ∷ onion_search ∷ []
default_sources alias = web_search ∷ onion_search ∷ username_lookup ∷ []
default_sources wallet = chain_lookup ∷ sanctions_check ∷ []
default_sources pgp_fingerprint = keyserver_lookup ∷ onion_search ∷ []
default_sources onion_domain = onion_lookup ∷ onion_fetch ∷ []
default_sources telegram_channel = telegram_channel_read ∷ []
default_sources image_hash = evidence ∷ []

-- `ALLOWED_SOURCES`
abbrev pub allowed_source : ItemKind → Source → Bool
allowed_source kind source = source_in source (default_sources kind) || same_source source evidence

-- What monitoring reads of the policy of a case and of the settings.
pub record Grants : Type 0 where
  pub allowed_source_classes : List SourceClass
  pub tor_enabled : Bool
  pub telegram_enabled : Bool
  pub person_lookup_enabled : Bool
  pub offline_mode : Bool
  pub demo : Bool

abbrev pub class_allowed : Grants → Source → Bool
class_allowed g source = elim (source_class source) [
  | none ↦ true
  | some c ↦ class_in c g.allowed_source_classes
]

abbrev pub tor_allowed : Grants → Source → Bool
tor_allowed g source = not (same_source source onion_fetch) || g.tor_enabled

abbrev pub telegram_allowed : Grants → Source → Bool
telegram_allowed g source = not (same_source source telegram_channel_read) || g.telegram_enabled

abbrev pub person_allowed : Grants → Source → Bool
person_allowed g source = not (same_source source username_lookup) || g.person_lookup_enabled

-- `set(allowed_source_classes) - {"REPORT"}` is not empty.
abbrev pub is_report : SourceClass → Bool
is_report SourceClass.report = true
is_report _ = false

abbrev pub evidence_allowed : Grants → Source → Bool
evidence_allowed g source =
    not (same_source source evidence) || any (λ c. not (is_report c)) g.allowed_source_classes

-- `list(dict.fromkeys(requested))`
abbrev pub distinct_sources : List Source → List Source
distinct_sources [] = []
distinct_sources (s ∷ sources) = s ∷ keep (λ t. not (same_source t s)) (distinct_sources sources)

-- The sources when none is requested.
abbrev pub fallback : ItemKind → Grants → List Source
fallback kind g = keep (person_allowed g) (
    keep (telegram_allowed g) (
      keep (tor_allowed g) (
        keep (class_allowed g)
          (if g.offline_mode || g.demo then evidence ∷ [] else default_sources kind))))

-- The checks of the loop over the sources.
abbrev pub check_source : ItemKind → Grants → Source → Result (Unit {0})
check_source kind g source = do
  raise_if (not (allowed_source kind source)) validation
  raise_if (not (evidence_allowed g source)) policy_denied
  raise_if (not (class_allowed g source)) policy_denied
  raise_if (not (tor_allowed g source)) policy_denied
  raise_if (not (telegram_allowed g source)) policy_denied
  raise_if (not (person_allowed g source)) policy_denied

abbrev pub check_sources : ItemKind → Grants → List Source → Result (Unit {0})
check_sources kind g [] = ok tt
check_sources kind g (s ∷ sources) = check_source kind g s >> check_sources kind g sources

abbrev pub no_sources : List Source → Bool
no_sources [] = true
no_sources _ = false

-- The sources that are asked for, or the fallback.
abbrev pub chosen : ItemKind → List Source → Grants → List Source
chosen kind requested g =
    let asked = distinct_sources requested in if no_sources asked then fallback kind g else asked

unfoldable pub sources_for : ItemKind → List Source → Grants → Result (List Source)
sources_for kind requested g =
    let sources = chosen kind requested g in
    raise_if (no_sources sources) policy_denied >> check_sources kind g sources >> ok sources
