-- ===== src/Accounts/Tests.antt =====
-- The theorems of logins and sessions at concrete inputs.
use darknetra.Prelude.{
  List, ℕ, ◌+◌, ◌≡◌, ◌==◌, Text, Bool, Result, refl, ok, err, Error, some, none, codes, from_ok,
  true, false, any, [], ◌∷◌,
}
use darknetra.Records.{User, Session}
use darknetra.Samples.{office, ada, ada_actor, login_row}
use darknetra.Authz.Credentials.{Request, verify_csrf}
use darknetra.Accounts.{
  Store, Tokens, login, attempt, refresh, rotate, change_password, new_session, cleared, live_of,
}
use darknetra.Accounts.Lockout.{Try}
use darknetra.Accounts.Rotation.{refresh-once}

-- Hashes are sums of code points here.
abbrev sum : Text → ℕ
sum [] = 0
sum (c ∷ s) = c + sum s

abbrev matches : ℕ → Text → Bool
matches stored password = stored == sum password

abbrev tired_ada : User
tired_ada = record ada { password_hash = sum (codes "sesame"); failed_logins = 4 }

abbrev accounts : Store
accounts = record {
  dir = record office {
    users = tired_ada ∷ [];
    sessions =
        record login_row { refresh_hash = sum (codes "r1"); csrf_hash = sum (codes "c1") } ∷ [];
  };
  names = (codes "ada", 7) ∷ [];
  audit = [];
}

abbrev drawn : Tokens
drawn = record { id = 31; refresh_hash = 900; csrf_hash = 901 }

-- Four wrong passwords over an hour, and a fifth.
abbrev guess : ℕ → Try
guess now = record { at = now; tokens = drawn; password = codes "open" }

abbrev guesses : List Try
guesses = guess 60 ∷ guess 70 ∷ guess 80 ∷ guess 3600000000 ∷ []

abbrev rested : Store
rested = record accounts {
  dir = record (accounts.dir) { users = record tired_ada { failed_logins = 0 } ∷ [] };
}

abbrev logged_in : Store
logged_in = (login matches 1000 60 drawn true (codes "ADA") (codes "sesame") accounts).0

accounts-login :
    login matches 1000 60 drawn true (codes "ADA") (codes "sesame") accounts
    ≡ (logged_in, ok (cleared tired_ada, new_session 60 1000 7 none drawn))
unfolding login attempt
accounts-login = refl

abbrev decode_none : Text → Result (ℕ × ℕ)
decode_none _ = err Error.unauthenticated

abbrev form : Request
form = record {
  authorization = [];
  access = [];
  csrf_cookie = codes "c1";
  csrf_header = codes "c1";
  origin = "https://web";
  method = "POST";
  path = "/api/v1/auth/refresh";
}

abbrev first_row : Session
first_row = record login_row { refresh_hash = sum (codes "r1"); csrf_hash = sum (codes "c1") }

abbrev rotated : Store
rotated = (refresh sum decode_none "https://web" 1000 60 drawn form (codes "r1") accounts).0

accounts-refresh :
    refresh sum decode_none "https://web" 1000 60 drawn form (codes "r1") accounts
    ≡ (rotated, ok (tired_ada, new_session 60 1000 7 (some 30) drawn))
unfolding refresh rotate verify_csrf
accounts-refresh = refl

refresh-once_example :
    ((refresh sum decode_none "https://web" 1000 70 drawn form (codes "r1") rotated).1
      ≡ err Error.unauthenticated)
    × (any
          (live_of 7)
          (refresh sum decode_none "https://web" 1000 70 drawn form
            (codes "r1")
            rotated).0.dir.sessions
        ≡ false)
unfolding verify_csrf
refresh-once_example =
    refresh-once sum decode_none "https://web" 1000 60 70 drawn drawn form form (codes "r1")
      accounts rotated tired_ada (new_session 60 1000 7 (some 30) drawn) first_row accounts-refresh
      refl refl

abbrev changed : Store
changed =
    from_ok accounts (
      change_password matches sum 60 ada_actor (codes "sesame") (codes "a much longer one")
        accounts)

accounts-change :
    change_password matches sum 60 ada_actor (codes "sesame") (codes "a much longer one") accounts
    ≡ ok changed
unfolding change_password
accounts-change = refl
