-- ===== src/Cases.antt =====
-- cases/service.py: creating a case, its code, and the transitions of its status.
pub mod Lifecycle
pub mod Codes
pub mod Members
pub mod Owners
pub mod Steps
pub mod Roles
mod Tests
use darknetra.Prelude.{
  ℕ, ◌+◌, ◌≡◌, Bool, true, false, ◌&&◌, not, Option, none, some, List, [], ◌∷◌, ◌++◌, String, map,
  ◌==◌, if◌then◌else◌, keep, find, max_of, update_if, Result, ok, err, conflict, internal, ◌>>=◌,
  ◌>>◌, raise_if, or_raise,
}
use darknetra.Records.{
  Case, CaseStatus, opened, closed, archived, CaseRole, Membership, Directory, is_open,
}
use darknetra.Audit.{Entry, record_entry}

pub record Store : Type 0 where
  pub dir : Directory
  pub audit : List Entry

-- The numbers in the codes `CHD-<year>-<number>` of a year.
abbrev pub numbers : ℕ → List Case → List ℕ
numbers year cases = map (λ c. c.number) (keep (λ c. c.year == year) cases)

-- The code is the year with the next number. The new row's `id` is drawn by the caller, which also
-- names the acting user.
unfoldable pub create : ℕ → ℕ → ℕ → Store → Case × Store
create id year user_id s =
    let c : Case = record {
      id = id;
      year = year;
      number = max_of (numbers year s.dir.cases) + 1;
      status = opened;
      legal_hold = false;
      created_by = user_id;
      closed_at = none;
      archived_at = none;
    } in
    let m : Membership = record { case_id = id; user_id = user_id; role = CaseRole.owner } in
    (
      c,
      record {
        dir = record (s.dir) {
          cases = s.dir.cases ++ (c ∷ []);
          memberships = s.dir.memberships ++ (m ∷ []);
        };
        audit = record_entry "case.create" (some id) (some id) s.audit;
      },
    )

unfoldable pub ensure_open : Case → Result (Unit {0})
ensure_open c = raise_if (not (is_open c.status)) conflict

-- `target in transitions[status]`
abbrev pub allowed : CaseStatus → CaseStatus → Bool
allowed opened closed = true
allowed closed opened = true
allowed closed archived = true
allowed _ _ = false

-- The row after the transition.
abbrev pub moved : ℕ → CaseStatus → Case → Case
moved now opened c = record c { status = opened; closed_at = none }
moved now closed c = record c { status = closed; closed_at = some now }
moved now archived c = record c { status = archived; archived_at = some now }

abbrev pub transition_action : CaseStatus → String
transition_action opened = "case.open"
transition_action closed = "case.closed"
transition_action archived = "case.archived"

unfoldable pub transition : ℕ → ℕ → CaseStatus → Store → Result (Case × Store)
transition now case_id target s = do
  locked ← or_raise (find (λ c. c.id == case_id) s.dir.cases) internal
  raise_if (not (allowed locked.status target)) conflict
  ok (
    moved now target locked,
    record {
      dir = record (s.dir) {
        cases = update_if (λ c. c.id == case_id) (moved now target) s.dir.cases;
      };
      audit = record_entry (transition_action target) (some case_id) (some case_id) s.audit;
    },
  )
