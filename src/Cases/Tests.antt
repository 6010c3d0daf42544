-- ===== src/Cases/Tests.antt =====
-- The theorems of the cases at concrete inputs.
use darknetra.Authz.Access.{visible_case, membership_of, role_of}
use darknetra.Authz.Permissions.{permitted}
use darknetra.Cases.{ensure_open}
use darknetra.Cases.Members.{change_member, route_member}
use darknetra.Cases.Steps.{HasOwners, CaseStep, Administered, administered-HasOwners}
use darknetra.Cases.Roles.{change_member-role_of}
use darknetra.Authz.Access.{require_case}
use darknetra.Cases.Lifecycle.{Outcome, transition-Outcome}
use darknetra.Prelude.{none, true, map, err, conflict, from_ok, [], ◌∷◌, ◌≡◌, some, refl, false, ok}
use darknetra.Records.{CaseStatus, CaseRole, User, GlobalRole}
use darknetra.Samples.{ada, case_one, case_two, office, ada_actor}
use darknetra.Cases.{Store}

abbrev start : Store
start = record { dir = office; audit = [] }

transition-Outcome_example : Outcome 90 2 CaseStatus.archived start (some case_two)
transition-Outcome_example = transition-Outcome 90 2 CaseStatus.archived start

-- Another user, who becomes the second owner of the case; then the first owner steps down.
abbrev bob : User
bob = record {
  id = 8;
  password_hash = 12;
  global_role = GlobalRole.investigator;
  is_active = true;
  must_change_password = false;
  failed_logins = 0;
  locked_until = none;
}

abbrev staffed : Store
staffed = record {
  dir = record office {
    users = ada ∷ bob ∷ [];
    cases = case_one ∷ [];
    memberships = record { case_id = 1; user_id = 7; role = CaseRole.owner } ∷ [];
  };
  audit = [];
}

abbrev two_owners : Store
two_owners = from_ok staffed (route_member 1 8 (some CaseRole.owner) ada_actor staffed)

abbrev handed_over : Store
handed_over = from_ok staffed (route_member 1 7 none ada_actor two_owners)

staffed-HasOwners : HasOwners staffed
staffed-HasOwners = record { apart = (refl, tt); owned = (refl, tt) }

last_owner_stays : route_member 1 7 none ada_actor staffed ≡ err conflict
unfolding route_member require_case visible_case permitted change_member ensure_open
last_owner_stays = refl

bob_owns : map (λ m. m.user_id) handed_over.dir.memberships ≡ 8 ∷ []
unfolding route_member require_case visible_case permitted change_member ensure_open
bob_owns = refl

joins : route_member 1 8 (some CaseRole.owner) ada_actor staffed ≡ ok two_owners
unfolding route_member require_case visible_case permitted change_member ensure_open
joins = refl

leaves : route_member 1 7 none ada_actor two_owners ≡ ok handed_over
unfolding route_member require_case visible_case permitted change_member ensure_open
leaves = refl

administered-HasOwners_example : HasOwners handed_over
administered-HasOwners_example =
    administered-HasOwners staffed handed_over
      (Administered.next staffed two_owners handed_over
        (Administered.next staffed staffed two_owners (Administered.start staffed)
          (CaseStep.changes 1 8 (some CaseRole.owner) ada_actor staffed two_owners joins))
        (CaseStep.changes 1 7 none ada_actor two_owners handed_over leaves))
      staffed-HasOwners

abbrev promoted : Store
promoted = from_ok staffed (change_member case_one 8 (some CaseRole.lead) staffed)

is_promoted : change_member case_one 8 (some CaseRole.lead) staffed ≡ ok promoted
unfolding change_member ensure_open
is_promoted = refl

change_member-role_of_example :
    (role_of (membership_of promoted.dir (some 8) 1) ≡ some CaseRole.lead)
    × (membership_of promoted.dir (some 7) 1 ≡ membership_of staffed.dir (some 7) 1)
change_member-role_of_example =
    change_member-role_of case_one 8 (some CaseRole.lead) staffed promoted 1 7 is_promoted refl
