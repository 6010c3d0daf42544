-- ===== src/Authz/Tests.antt =====
-- The theorems of authorization at concrete inputs.
use darknetra.Authz.CaseAccess.{MayEnter, require_case_iff}
use darknetra.Authz.Roles.{permitted-eq-expected}
use darknetra.Authz.Credentials.{Request, refresh_actor, refresh_token}
use darknetra.Authz.Access.{require_case, visible_case}
use darknetra.Prelude.{ℕ, Text, ◌∷◌, some, ◌≡◌, ◌+◌, Result, [], ok, codes, ◌↔◌, refl, false}
use darknetra.Records.{Actor, GlobalRole, CaseRole}
use darknetra.Samples.{case_one, office, ada_actor, token_actor_before}
use darknetra.Authz.Permissions.{Permission, permitted}

permitted-eq-expected_example :
    permitted (some GlobalRole.viewer) (some CaseRole.lead) Permission.decide ≡ false
permitted-eq-expected_example =
    permitted-eq-expected (some GlobalRole.viewer) (some CaseRole.lead) Permission.decide

require_case_iff_example :
    (require_case office Permission.decide 1 ada_actor ≡ ok (ada_actor, case_one))
    ↔ MayEnter office Permission.decide 1 ada_actor case_one
require_case_iff_example = require_case_iff office Permission.decide 1 ada_actor case_one

require_case-decide : require_case office Permission.decide 1 ada_actor ≡ ok (ada_actor, case_one)
unfolding require_case visible_case permitted
require_case-decide = refl

-- Tokens hash to the sum of their code points here, and every cookie decodes to session 30.
abbrev hash_text : Text → ℕ
hash_text [] = 0
hash_text (c ∷ s) = c + hash_text s

abbrev decode_cookie : Text → Result (ℕ × ℕ)
decode_cookie _ = ok (30, 7)

abbrev read_request : Request
read_request = record {
  authorization = [];
  access = codes "cookie";
  csrf_cookie = [];
  csrf_header = [];
  origin = "";
  method = "GET";
  path = "/api/v1/cases";
}

abbrev token_actor_after : Actor
token_actor_after = record token_actor_before {
  scopes = "threads:run" ∷ [];
  token_case_id = some 1;
}

token-refreshed : refresh_actor 500 office token_actor_before ≡ ok token_actor_after
unfolding refresh_actor refresh_token
token-refreshed = refl
