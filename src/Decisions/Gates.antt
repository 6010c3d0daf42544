-- ===== src/Decisions/Gates.antt =====
-- The gates of decisions/service.py `decide`, each said on its own.
use darknetra.Prelude.{
  subst, sym, Text, Bool-cases, length, ◌≤◌, is_some, ◌&&◌, not, ℕ, ◌≡◌, Option-cases, Option, ok,
  refl, false, inr, none, arith, ◌⊎◌, inl, some, true,
}
use darknetra.Records.{Actor, Case, CaseRole, is_admin, is_user, is_open}
use darknetra.Authz.Access.{case_of, membership_of, role_of}
use darknetra.Authz.Credentials.{acting_user}
use darknetra.Authz.Permissions.{Permission, permitted}
use darknetra.Decisions.Rows.{Verdict, Decision, Store}
use darknetra.Decisions.Service.{authorize, bad_rationale, leads}
use darknetra.Decisions.Decide.{DecisionRequest, decision_row}

-- The case, open, in which the human who is named has the permission to decide.
pub record MayDecide (s : Store) (case_id : ℕ) (actor : Actor) (user_id : ℕ)
    (role : Option CaseRole) (c : Case) : Type 0 where
  pub human : is_user actor.kind ≡ true
  pub named : acting_user actor ≡ some user_id
  pub in_case : case_of s.dir case_id ≡ some c
  pub case_open : is_open c.status ≡ true
  pub role_in_case : role ≡ role_of (membership_of s.dir (some user_id) case_id)
  pub permits : permitted actor.global_role role Permission.decide ≡ true

-- A rationale has 1 to 10000 characters, and at least 10 for an acceptance or a rejection.
abbrev pub IsReasoned : Verdict → Text → Type 0
IsReasoned Verdict.accept reason = (10 ≤ length reason) × (length reason ≤ 10000)
IsReasoned Verdict.reject reason = (10 ≤ length reason) × (length reason ≤ 10000)
IsReasoned Verdict.defer reason = (1 ≤ length reason) × (length reason ≤ 10000)
IsReasoned Verdict.request_more_evidence reason = (1 ≤ length reason) × (length reason ≤ 10000)

-- The latest decision on the target, if there is one, is the one that the row supersedes; the request
-- asked for that, and comes from an administrator or a lead.
abbrev pub Supersedes :
    Actor → DecisionRequest → Option CaseRole → Decision → Option Decision → Type 0
Supersedes actor r role row none = row.supersedes_id ≡ none
Supersedes actor r role row (some p) =
    (row.supersedes_id ≡ some p.id)
    × (r.supersede ≡ true)
    × ((is_admin actor.global_role ≡ true)
        ⊎ ((role ≡ some CaseRole.lead) ⊎ (role ≡ some CaseRole.owner)))

-- What the row says.
pub record SaysSo (now id case_id : ℕ) (r : DecisionRequest) (row : Decision) (user_id version : ℕ)
    : Type 0 where
  pub own_id : row.id ≡ id
  pub of_case : row.case_id ≡ case_id
  pub of_type : row.target_type ≡ r.type
  pub of_target : row.target_id ≡ r.target_id
  pub of_version : row.target_version ≡ version
  pub of_verdict : row.verdict ≡ r.verdict
  pub by_user : row.decided_by ≡ user_id
  pub at_time : row.at ≡ now

pub authorize-MayDecide :
    (s : Store) (case_id : ℕ) (actor : Actor) (user_id : ℕ) (role : Option CaseRole)
    → authorize s case_id actor Permission.decide ≡ ok (user_id, role)
    → (c : Case) × MayDecide s case_id actor user_id role c
unfolding authorize
authorize-MayDecide s case_id actor user_id role h = elim (Option-cases (acting_user actor)) [
  | inl unknown ↦ absurd (ground arith)
  | inr (u, known) ↦ elim (Option-cases (case_of s.dir case_id)) [
    | inl missing ↦ absurd (ground arith)
    | inr (c, found) ↦ (
      c,
      record {
        human = ground arith;
        named = ground arith;
        in_case = found;
        case_open = ground arith;
        role_in_case = ground arith;
        permits = ground arith;
      },
    )
  ]
]

pub reason_of : (v : Verdict) (reason : Text) → bad_rationale v reason ≡ false → IsReasoned v reason
reason_of Verdict.accept reason h = (ground arith, ground arith)
reason_of Verdict.reject reason h = (ground arith, ground arith)
reason_of Verdict.defer reason h = (ground arith, ground arith)
reason_of Verdict.request_more_evidence reason h = (ground arith, ground arith)

leads_of :
    (role : Option CaseRole)
    → leads role ≡ true
    → (role ≡ some CaseRole.lead) ⊎ (role ≡ some CaseRole.owner)
leads_of none h = cc
leads_of (some CaseRole.viewer) h = cc
leads_of (some CaseRole.analyst) h = cc
leads_of (some CaseRole.lead) h = inl refl
leads_of (some CaseRole.owner) h = inr refl

pub superseding :
    (actor : Actor) (r : DecisionRequest) (role : Option CaseRole) (row : Decision)
    (previous : Option Decision)
    → (is_some previous && not r.supersede) ≡ false
    → (is_some previous && not (is_admin actor.global_role) && not (leads role)) ≡ false
    → row.supersedes_id ≡ elim previous [ none ↦ none | some p ↦ some p.id ]
    → Supersedes actor r role row previous
superseding actor r role row none asked may link = link
superseding actor r role row (some p) asked may link = (
  link,
  ground arith,
  elim (Bool-cases (is_admin actor.global_role)) [
    | inl admin ↦ inl admin
    | inr other ↦ inr (leads_of role (ground arith))
  ],
)

-- What a row of `decide` says, and what it supersedes.
pub decision_row-SaysSo :
    (now id case_id user_id : ℕ) (r : DecisionRequest) (version : ℕ) (previous : Option Decision)
    (row : Decision)
    → row ≡ decision_row now id case_id user_id r version previous
    → SaysSo now id case_id r row user_id version
decision_row-SaysSo now id case_id user_id r version previous row h =
    subst (λ d. SaysSo now id case_id r d user_id version) (sym h)
      (record {
        own_id = refl;
        of_case = refl;
        of_type = refl;
        of_target = refl;
        of_version = refl;
        of_verdict = refl;
        by_user = refl;
        at_time = refl;
      })
