-- ===== src/Authz/Credentials.antt =====
-- authz/deps.py `current_actor`, the parts of auth/service.py that it calls, and policy/actor.py
-- `refresh_actor`: from the credentials of a request to an actor, and the check before background
-- work that the actor still has its authority. `request.state`, which only the log reads, is left
-- out.
pub mod Laws
use darknetra.Prelude.{
  ℕ, ◌-◌, Bool, true, false, not, ◌&&◌, ◌||◌, Option, none, some, List, [], String, ◌==◌, leb,
  if◌then◌else◌, is_some, is_value, find, any, keep, update_if, Result, ok, err, unauthenticated,
  forbidden, policy_denied, ◌>>=◌, ◌>>◌, raise_if, or_raise, str_eq, Text, codes, text_eq, is_empty,
  starts_with, partition, casefold,
}
use darknetra.Records.{Actor, ActorKind, User, Session, ApiToken, Directory, is_token, is_user}

pub record Request : Type 0 where
  pub authorization : Text
  pub access : Text
  pub csrf_cookie : Text
  pub csrf_header : Text
  pub origin : String
  pub method : String
  pub path : String

abbrev pub user_actor : User → Option ℕ → Actor
user_actor u session_id = record {
  kind = ActorKind.user;
  id = some u.id;
  global_role = some u.global_role;
  scopes = [];
  session_id = session_id;
  user_id = some u.id;
  token_case_id = none;
  must_change_password = u.must_change_password;
}

abbrev pub token_actor : ApiToken → User → Actor
token_actor row u = record {
  kind = ActorKind.token;
  id = some row.id;
  global_role = some u.global_role;
  scopes = row.scopes;
  session_id = none;
  user_id = some u.id;
  token_case_id = row.case_id;
  must_change_password = false;
}

-- `row.revoked_at or row.expires_at <= now`
abbrev pub is_dead : Option ℕ → ℕ → ℕ → Bool
is_dead revoked_at expires_at now = is_some revoked_at || leb expires_at now

abbrev pub user_of : Directory → ℕ → Option User
user_of dir id = find (λ u. u.id == id) dir.users

-- The time of the last use is written at most once a minute.
touch : ℕ → ApiToken → Directory → Directory
touch now row dir =
    let stale : Bool = elim row.last_used_at [ none ↦ true | some t ↦ leb 60_000_000 (now - t) ] in
    if stale
    then record dir {
      tokens =
          update_if (λ t. t.id == row.id) (λ t. record t { last_used_at = some now }) dir.tokens;
    }
    else dir

abbrev safe_method : String → Bool
safe_method m = str_eq m "GET" || str_eq m "HEAD" || str_eq m "OPTIONS"

-- The three routes that an actor who must change the password may still use.
abbrev pub exempt_path : String → Bool
exempt_path p =
    str_eq p "/api/v1/auth/me"
    || str_eq p "/api/v1/auth/change-password"
    || str_eq p "/api/v1/auth/logout"

-- SHA-256 of a token, the decoding of an access cookie (its session and its subject), and the
-- configured origin of the web interface.
module _ (token_hash : Text → ℕ) (decode_access_token : Text → Result (ℕ × ℕ))
    (web_origin : String) where
  unfoldable pub verify_csrf : Request → ℕ → Result (Unit {0})
  verify_csrf request stored_hash =
      raise_if
        (is_empty request.csrf_cookie
          || is_empty request.csrf_header
          || not (str_eq request.origin web_origin)
          || not (text_eq request.csrf_cookie request.csrf_header)
          || not (token_hash request.csrf_header == stored_hash))
        forbidden

  unfoldable pub bearer_actor : ℕ → Request → Directory → Result (Actor × Directory)
  unfolding touch
  bearer_actor now request dir =
      let (scheme, token) = partition 32 request.authorization in
      do
        raise_if
            (not (text_eq (casefold scheme) (codes "bearer"))
              || not (starts_with token (codes "dk_")))
            unauthenticated
        row ← or_raise (find (λ t. t.token_hash == token_hash token) dir.tokens) unauthenticated
        raise_if (is_dead row.revoked_at row.expires_at now) unauthenticated
        user ← or_raise (user_of dir row.owner_user_id) unauthenticated
        raise_if (not user.is_active || user.must_change_password) unauthenticated
        ok (token_actor row user, touch now row dir)

  unfoldable pub cookie_actor : ℕ → Request → Directory → Result (Actor × Directory)
  unfolding verify_csrf
  cookie_actor now request dir = do
    claims ← decode_access_token request.access
    row ← or_raise (find (λ s. s.id == claims.0) dir.sessions) unauthenticated
    raise_if (is_dead row.revoked_at row.expires_at now || not (row.user_id == claims.1))
        unauthenticated
    user ← or_raise (user_of dir row.user_id) unauthenticated
    raise_if (not user.is_active) unauthenticated
    if safe_method request.method then ok tt else verify_csrf request row.csrf_hash
    ok (user_actor user (some row.id), dir)

  unfoldable pub current_actor : ℕ → Request → Directory → Result (Actor × Directory)
  current_actor now request dir = do
    found ←
        if not (is_empty request.authorization)
        then (if not (is_empty request.access)
            then err unauthenticated
            else bearer_actor now request dir)
        else if not (is_empty request.access)
        then cookie_actor now request dir
        else err unauthenticated
    raise_if ((found.0).must_change_password && not (exempt_path request.path)) forbidden
    ok found

-- `actor.user_id or (actor.id if actor.kind == "USER" else None)`
abbrev pub acting_user : Actor → Option ℕ
acting_user actor = elim actor.user_id [
  | some u ↦ some u
  | none ↦ if is_user actor.kind then actor.id else none
]

-- `db.get(Model, id) if id else None`
abbrev pub find_by : {A : Type 0} → (ℕ → Option A) → Option ℕ → Option A
find_by get none = none
find_by get (some id) = get id

-- `actor.scopes & frozenset(token.scopes)`
abbrev pub common_scopes : List String → List String → List String
common_scopes mine theirs = keep (λ s. any (str_eq s) theirs) mine

-- The token branch and the session branch of `refresh_actor`, on the user of the actor.
unfoldable pub refresh_token : ℕ → Directory → Actor → User → Actor → Result Actor
refresh_token now dir actor user current = do
  row ← or_raise (find_by (λ id. find (λ t. t.id == id) dir.tokens) actor.id) policy_denied
  raise_if (not (row.owner_user_id == user.id) || is_dead row.revoked_at row.expires_at now)
      policy_denied
  ok (record current {
    scopes = common_scopes actor.scopes row.scopes;
    token_case_id = row.case_id;
  })

unfoldable pub refresh_session : ℕ → Directory → Actor → User → Actor → Result Actor
refresh_session now dir actor user current = elim actor.session_id [
  | none ↦ ok current
  | some session_id ↦ do
    login ← or_raise (find (λ s. s.id == session_id) dir.sessions) policy_denied
    raise_if (not (login.user_id == user.id) || is_dead login.revoked_at login.expires_at now)
        policy_denied
    ok current
]

unfoldable pub refresh_actor : ℕ → Directory → Actor → Result Actor
refresh_actor now dir actor = do
  raise_if (not (is_user actor.kind || is_token actor.kind)) policy_denied
  user ← or_raise (find_by (user_of dir) (acting_user actor)) policy_denied
  raise_if (not user.is_active || user.must_change_password) policy_denied
  let current = record actor {
    user_id = some user.id;
    global_role = some user.global_role;
    must_change_password = false;
  }
  if is_token actor.kind
      then refresh_token now dir actor user current
      else refresh_session now dir actor user current
