-- ===== src/Accounts.antt =====
-- auth/service.py: logging in, rotating a session, and changing a password. What a handler has committed
-- when it raises is part of its result.
pub mod Login
pub mod Lockout
pub mod Rotation
mod Tests
use darknetra.Prelude.{
  ℕ, ◌+◌, List, [], ◌∷◌, ◌++◌, Text, String, Bool, true, false, not, ◌&&◌, ◌||◌, ◌==◌, ltb, leb,
  Option, none, some, Result, ok, err, Error, find, update_if, is_some, is_value, length, text_eq,
  casefold, is_empty, if◌then◌else◌, unauthenticated, forbidden, locked, validation, ◌>>◌, raise_if,
  ◌>>=◌, or_raise,
}
use darknetra.Records.{Actor, User, Session, Directory, is_user}
use darknetra.Audit.{Entry, record_entry}
use darknetra.Authz.Credentials.{Request, verify_csrf, user_of}

-- The tables, and the user of each username in lower case.
pub record Store : Type 0 where
  pub dir : Directory
  pub names : List (Text × ℕ)
  pub audit : List Entry

-- The tokens of a new session, as they are drawn: its identifier and the hashes of its secrets.
pub record Tokens : Type 0 where
  pub id : ℕ
  pub refresh_hash : ℕ
  pub csrf_hash : ℕ

abbrev pub id_of_name : Text → List (Text × ℕ) → Option ℕ
id_of_name name [] = none
id_of_name name (row ∷ rows) =
    let rest = id_of_name name rows in if text_eq row.0 name then some row.1 else rest

abbrev pub user_by_name : Text → Store → Option User
user_by_name name s = elim (id_of_name (casefold name) s.names) [
  | none ↦ none
  | some id ↦ user_of s.dir id
]

abbrev pub set_user : ℕ → (User → User) → Directory → Directory
set_user id f dir = record dir { users = update_if (λ u. u.id == id) f dir.users }

-- `issue_session`, whose cookies go to the response.
abbrev pub new_session : ℕ → ℕ → ℕ → Option ℕ → Tokens → Session
new_session now ttl user_id rotated_from t = record {
  id = t.id;
  user_id = user_id;
  refresh_hash = t.refresh_hash;
  csrf_hash = t.csrf_hash;
  expires_at = now + ttl;
  revoked_at = none;
  rotated_from = rotated_from;
}

-- Five minutes in microseconds.
abbrev pub lockout : ℕ
lockout = 300000000

abbrev pub is_after : Option ℕ → ℕ → Bool
is_after none now = false
is_after (some t) now = ltb now t

-- A failed attempt counts, and the fifth in a row and every further one lock the account.
abbrev pub failed_once : ℕ → User → User
failed_once now u = record u {
  failed_logins = u.failed_logins + 1;
  locked_until = if leb 5 (u.failed_logins + 1) then some (now + lockout) else u.locked_until;
}

abbrev pub cleared : User → User
cleared u = record u { failed_logins = 0; locked_until = none }

-- The checks of a password hash and of an origin are arguments: argon2, the settings and the headers.
module _ (verify_password : ℕ → Text → Bool) (ttl : ℕ) where
  -- The end of `login` for a user that is there and not locked.
  unfoldable pub attempt : ℕ → Tokens → User → Text → Store → Store × Result (User × Session)
  attempt now t u password s =
      if verify_password u.password_hash password && u.is_active
      then (
        record {
          dir = record (set_user u.id cleared s.dir) {
            sessions = s.dir.sessions ++ (new_session now ttl u.id none t ∷ []);
          };
          names = s.names;
          audit = record_entry "auth.login" none (some t.id) s.audit;
        },
        ok (cleared u, new_session now ttl u.id none t),
      )
      else (
        record {
          dir = set_user u.id (failed_once now) s.dir;
          names = s.names;
          audit = record_entry "auth.login_failed" none none s.audit;
        },
        err (if is_after (failed_once now u).locked_until now then locked else unauthenticated),
      )

  -- `login`
  unfoldable pub login : ℕ → Tokens → Bool → Text → Text → Store → Store × Result (User × Session)
  login now t origin_permitted name password s =
      if not origin_permitted then (s, err forbidden) else elim (user_by_name name s) [
        | none ↦ (
          record s { audit = record_entry "auth.login_failed" none none s.audit },
          err unauthenticated,
        )
        | some u ↦
            if is_after u.locked_until now
            then (
              record s { audit = record_entry "auth.login_locked" none none s.audit },
              err locked,
            )
            else attempt now t u password s
      ]

abbrev pub revoked : ℕ → Session → Session
revoked now row = record row { revoked_at = some now }

-- The sessions of a user that are not revoked yet.
abbrev pub live_of : ℕ → Session → Bool
live_of user_id row = row.user_id == user_id && not (is_some row.revoked_at)

module _ (token_hash : Text → ℕ) (decode_access_token : Text → Result (ℕ × ℕ)) (web_origin : String)
    (ttl : ℕ) where
  -- The end of `refresh` for a session whose user is active.
  unfoldable pub rotate : ℕ → Tokens → Session → User → Store → Store × Result (User × Session)
  rotate now t entry u s =
      if is_some entry.revoked_at
      then (
        record {
          dir = record (s.dir) {
            sessions = update_if (live_of entry.user_id) (revoked now) s.dir.sessions;
          };
          names = s.names;
          audit = record_entry "auth.refresh_reuse" none (some entry.id) s.audit;
        },
        err unauthenticated,
      )
      else if leb entry.expires_at now
      then (s, err unauthenticated)
      else (
        record {
          dir = record (s.dir) {
            sessions =
                update_if (λ r. r.id == entry.id) (revoked now) s.dir.sessions
                ++ (new_session now ttl u.id (some entry.id) t ∷ []);
          };
          names = s.names;
          audit = record_entry "auth.refresh" none (some t.id) s.audit;
        },
        ok (u, new_session now ttl u.id (some entry.id) t),
      )

  -- `refresh`: `value` is the refresh cookie.
  unfoldable pub refresh : ℕ → Tokens → Request → Text → Store → Store × Result (User × Session)
  refresh now t request value s =
      if is_empty value
      then (s, err unauthenticated)
      else elim (find (λ r. r.refresh_hash == token_hash value) s.dir.sessions) [
        | none ↦ (s, err unauthenticated)
        | some entry ↦
            elim (verify_csrf token_hash decode_access_token web_origin request entry.csrf_hash) [
              | err e ↦ (s, err e)
              | ok checked ↦ elim (user_of s.dir entry.user_id) [
                | none ↦ (s, err unauthenticated)
                | some u ↦ if u.is_active then rotate now t entry u s else (s, err unauthenticated)
              ]
            ]
      ]

-- `change_password`: all sessions of the user but the acting one end.
module _ (verify_password : ℕ → Text → Bool) (hash_password : Text → ℕ) where
  unfoldable pub change_password : ℕ → Actor → Text → Text → Store → Result Store
  change_password now actor current replacement s = do
    raise_if (not (is_user actor.kind)) forbidden
    user_id ← or_raise actor.user_id forbidden
    user ← or_raise (user_of s.dir user_id) unauthenticated
    raise_if (not (verify_password user.password_hash current)) unauthenticated
    raise_if
        (ltb (length replacement) 12
          || ltb 1024 (length replacement)
          || text_eq replacement current)
        validation
    let change : User → User =
        λ u. record u { password_hash = hash_password replacement; must_change_password = false }
    ok (record {
      dir = record (set_user user.id change s.dir) {
        sessions =
            update_if (λ r. live_of user.id r && not (is_value actor.session_id r.id)) (revoked now)
              s.dir.sessions;
      };
      names = s.names;
      audit = record_entry "auth.change_password" none (some user.id) s.audit;
    })
