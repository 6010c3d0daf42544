-- ===== src/Monitor/Triage.antt =====
-- monitor/triage.py `score`, in units of 0.05. The search of the item's variants and of the cues of
-- news in the excerpt is an argument: the number of variants found, and whether a cue was.
use darknetra.Prelude.{
  ℕ, ◌+◌, ◌-◌, ◌*◌, min, Bool, true, false, not, ◌&&◌, ◌||◌, ltb, leb, Option, none, some,
  if◌then◌else◌,
}
use darknetra.Policy.Engine.{SourceClass}
use darknetra.Monitor.Sources.{ItemKind, keyword, alias}

abbrev pub class_bonus : SourceClass → ℕ
class_bonus SourceClass.osint_dark = 2
class_bonus SourceClass.telegram = 2
class_bonus SourceClass.osint_surface = 1
class_bonus SourceClass.chain = 4
class_bonus _ = 0

abbrev pub is_keyword : ItemKind → Bool
is_keyword keyword = true
is_keyword _ = false

abbrev pub wants_diversity : ItemKind → Bool
wants_diversity keyword = true
wants_diversity alias = true
wants_diversity _ = false

abbrev pub is_exact : ℕ → Option ℕ → Bool
is_exact matched image_distance =
    ltb 0 matched || elim image_distance [ none ↦ false | some d ↦ leb d 8 ]

-- The value before it is cut to at most 1; a negative one counts as 0.
abbrev pub relevance_of : ItemKind → SourceClass → ℕ → Bool → Bool → Option ℕ → ℕ
relevance_of kind source_class matched news novel image_distance =
    let base = if is_exact matched image_distance then 8 else 0 in
    let extra = if ltb 1 matched then min 8 ((matched - 1) * 4) else 0 in
    let fresh = if novel then 4 else 0 in
    let context = if is_keyword kind && news then 6 else 0 in
    min 20 (base + extra + fresh + class_bonus source_class - context)

pub record TriageResult : Type 0 where
  pub relevance : ℕ
  pub alertable : Bool

unfoldable pub score : ItemKind → SourceClass → ℕ → Bool → Bool → ℕ → Option ℕ → TriageResult
score kind source_class matched news novel families image_distance =
    let relevance = relevance_of kind source_class matched news novel image_distance in
    let diverse = not (wants_diversity kind) || leb 2 families in
    record {
      relevance = relevance;
      alertable = is_exact matched image_distance && leb 12 relevance && diverse;
    }
