-- ===== src/Claims/Tests.antt =====
-- The theorem of the claim checker on one claim.
use darknetra.Prelude.{map, some, none, false, [], ◌∷◌, All, codes, refl, ◌≡◌, strip}
use darknetra.Records.{Evidence}
use darknetra.Decisions.Rows.{Store, FindingKind, FindingStatus, TargetType, Verdict}
use darknetra.Decisions.Samples.{desk, note}
use darknetra.Claims.{Claim, normalize, is_verified, verify}
use darknetra.Claims.Support.{IsSupported, verify-IsSupported}

abbrev sighting : Claim
sighting = record {
  text = codes "The wallet was seen. [E-0004]";
  evidence_codes = 4 ∷ [];
  kind = FindingKind.observed;
}

sighting-normalize : normalize sighting.text ≡ codes "the wallet was seen"
unfolding normalize
sighting-normalize = refl

-- A confirmation, and the tables in which a finding with its text has been promoted on a decision.
abbrev confirmation : Claim
confirmation = record sighting { kind = FindingKind.confirmed }

abbrev promoted : Store
promoted = record desk {
  findings =
      record note {
        claim = codes "the wallet was SEEN";
        kind = FindingKind.confirmed;
        status = FindingStatus.promoted;
        evidence_ids = map (λ (e : Evidence). e.id) desk.evidence;
        decision_id = some 90;
      }
      ∷ [];
  decisions =
      record {
        id = 90;
        case_id = 1;
        target_type = TargetType.finding;
        target_id = note.id;
        target_version = note.version;
        verdict = Verdict.accept;
        decided_by = 7;
        supersedes_id = none;
        at = 60;
      }
      ∷ [];
}

unconfirmed : (verify desk 1 (confirmation ∷ [])).0 ≡ false
unfolding verify is_verified normalize strip
unconfirmed = refl

verify-IsSupported_example : All (IsSupported promoted 1) (sighting ∷ confirmation ∷ [])
unfolding verify is_verified normalize strip
verify-IsSupported_example = verify-IsSupported promoted 1 (sighting ∷ confirmation ∷ []) refl
