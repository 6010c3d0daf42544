-- ===== src/Retention/Tests.antt =====
-- The expiry of evidence in a small case.
use darknetra.Prelude.{◌≡◌, refl, ok, [], ◌∷◌, true, List, ℕ, ◌*◌, ltb, map, ◌-◌, err, not_found}
use darknetra.Samples.{case_one}
use darknetra.Records.{Case, Evidence, EvidenceStatus}
use darknetra.Retention.{Store, expire, expire_before}
use darknetra.Retention.Expiry.{IsExpired, expire-IsExpired}

abbrev case_two : Case
case_two = record case_one { id = 2; legal_hold = true }

abbrev day : ℕ
day = 86400000000

abbrev row : ℕ → ℕ → ℕ → EvidenceStatus → Evidence
row id case_id captured_at status = record {
  id = id;
  case_id = case_id;
  code = 10 - id;
  sha256 = id;
  status = status;
  captured_at = captured_at;
}

abbrev store : Store
store = record {
  cases = case_one ∷ case_two ∷ [];
  evidence =
      row 1 1 0 EvidenceStatus.ready
      ∷ row 2 1 0 EvidenceStatus.partial
      ∷ row 3 1 0 EvidenceStatus.quarantined
      ∷ row 4 1 (9 * day) EvidenceStatus.ready
      ∷ row 5 2 0 EvidenceStatus.ready
      ∷ [];
  trail = [];
}

abbrev period : Case → ℕ
period c = 2

abbrev after : List Evidence × Store
after = expire_before ltb 1 (8 * day) store

after-ids : map Evidence.id (after.0) ≡ 2 ∷ 1 ∷ []
after-ids = refl

expired-one : expire ltb period (10 * day) 1 store ≡ ok after
unfolding expire
expired-one = refl

held-two : expire ltb period (10 * day) 2 store ≡ ok ([], store)
unfolding expire
held-two = refl

unknown-three : expire ltb period (10 * day) 3 store ≡ err not_found
unfolding expire
unknown-three = refl

expire-IsExpired_example : (c : Case) × IsExpired c 2 (10 * day) 1 store after.1 after.0
expire-IsExpired_example =
    expire-IsExpired ltb period (10 * day) 1 store after.1 after.0 expired-one
