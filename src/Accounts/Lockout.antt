-- ===== src/Accounts/Lockout.antt =====
-- auth/service.py `login`: wrong passwords in a row.
use darknetra.Prelude.{ℕ, List, [], ◌∷◌, Text, true, none, Bool}
use darknetra.Records.{User}
use darknetra.Accounts.{Store, Tokens, login}

-- One try to log in.
pub record Try : Type 0 where
  pub at : ℕ
  pub tokens : Tokens
  pub password : Text

-- The user after `count` failures, none of which has locked the account.
abbrev pub counted : ℕ → User → User
counted count u = record u { failed_logins = count; locked_until = none }

module _ (verify_password : ℕ → Text → Bool) (ttl : ℕ) (name : Text) where
  -- The tables after several tries with one name.
  abbrev pub after : List Try → Store → Store
  after [] s = s
  after (t ∷ tries) s =
      after tries (login verify_password ttl t.at t.tokens true name t.password s).0
