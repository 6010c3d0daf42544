-- ===== src/Audit.antt =====
-- audit/service.py `record`: the audit trail, which is only appended to. Of an entry the action, the
-- case and the target are kept; the hashes and details are not modelled.
use darknetra.Prelude.{
  refl, ℕ, Option, List, [], ◌∷◌, ◌++◌, String, length, ◌≡◌, ◌+◌, arith, length-append,
}

pub record Entry : Type 0 where
  pub action : String
  pub case_id : Option ℕ
  pub target_id : Option ℕ

pub record_entry : String → Option ℕ → Option ℕ → List Entry → List Entry
record_entry action case_id target_id trail =
    trail ++ (record { action = action; case_id = case_id; target_id = target_id } ∷ [])

pub length-record_entry :
    (action : String) (case_id target_id : Option ℕ) (trail : List Entry)
    → length (record_entry action case_id target_id trail) ≡ length trail + 1
unfolding record_entry
length-record_entry action case_id target_id trail = omega (arith, length-append {0} trail)

pub record_entry-eq-append :
    (action : String) (case_id target_id : Option ℕ) (trail : List Entry)
    → record_entry action case_id target_id trail
      ≡ trail ++ (record { action = action; case_id = case_id; target_id = target_id } ∷ [])
unfolding record_entry
record_entry-eq-append action case_id target_id trail = refl
