-- ===== src/Decisions/Decide.antt =====
-- decisions/service.py `decide`.
use darknetra.Decisions.Effects.{apply_decision}
use darknetra.Records.{Actor, is_admin}
use darknetra.Decisions.Rows.{TargetType, Verdict, Store, Decision}
use darknetra.Audit.{record_entry}
use darknetra.Prelude.{
  ℕ, none, some, Option, Text, Bool, Result, ◌>>=◌, ◌>>◌, raise_if, strip, validation, false, not,
  ◌==◌, conflict, is_some, ◌&&◌, forbidden, ok, ◌++◌, ◌∷◌, [],
}
use darknetra.Authz.Permissions.{Permission}
use darknetra.Decisions.Service.{authorize, latest_decision, target_version, bad_rationale, leads}

-- What is asked of `decide`.
pub record DecisionRequest : Type 0 where
  pub type : TargetType
  pub target_id : ℕ
  pub verdict : Verdict
  pub rationale : Text
  pub supersede : Bool
  pub target_version : Option ℕ

abbrev pub decision_row : ℕ → ℕ → ℕ → ℕ → DecisionRequest → ℕ → Option Decision → Decision
decision_row now id case_id user_id r version previous = record {
  id = id;
  case_id = case_id;
  target_type = r.type;
  target_id = r.target_id;
  target_version = version;
  verdict = r.verdict;
  decided_by = user_id;
  supersedes_id = elim previous [ none ↦ none | some p ↦ some p.id ];
  at = now;
}

-- `decide`: the new row has the identifier `id`, drawn by the caller. The row is added and the target
-- changed together, or nothing is.
unfoldable pub decide : ℕ → ℕ → Store → ℕ → Actor → DecisionRequest → Result (Decision × Store)
decide now id s case_id actor r = do
  who ← authorize s case_id actor Permission.decide
  raise_if (bad_rationale r.verdict (strip r.rationale)) validation
  version ← target_version s case_id r.type r.target_id
  raise_if (elim r.target_version [ none ↦ false | some v ↦ not (v == version) ]) conflict
  let previous =
      latest_decision
        (record { case_id = case_id; type = r.type; id = r.target_id; version = version })
        s.decisions
  raise_if (is_some previous && not r.supersede) conflict
  raise_if (is_some previous && not (is_admin actor.global_role) && not (leads who.1)) forbidden
  let row = decision_row now id case_id who.0 r version previous
  ok (
    row,
    apply_decision row r.type (record s {
      decisions = s.decisions ++ (row ∷ []);
      audit = record_entry "decision" (some case_id) (some id) s.audit;
    }),
  )
