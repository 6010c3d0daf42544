-- ===== src/Authz/Credentials/Laws.antt =====
-- What `current_actor` and `refresh_actor` guarantee of the actor that they return.
use darknetra.Prelude.{
  ℕ, ◌<◌, ◌≡◌, ◌⊎◌, subst, inl, inr, true, false, Option, none, some, List, String, arith,
  Bool-cases, Option-cases, partition, find, any, any-keep, ◌==◌, Result, ok, Text, str_eq,
}
use darknetra.Records.{Actor, ActorKind, User, Session, ApiToken, Directory, is_token}
use darknetra.Authz.Permissions.{Permission, scope_permits}
use darknetra.Authz.Credentials.{
  Request, user_actor, token_actor, user_of, acting_user, find_by, common_scopes, refresh_actor,
  refresh_token, refresh_session, safe_method, verify_csrf,
}

-- The token is neither revoked nor expired, and its owner may act.
pub record IsLiveToken (dir : Directory) (now : ℕ) (row : ApiToken) (u : User) : Type 0 where
  pub owner : user_of dir row.owner_user_id ≡ some u
  pub unrevoked : row.revoked_at ≡ none
  pub unexpired : now < row.expires_at
  pub active : u.is_active ≡ true
  pub settled : u.must_change_password ≡ false

-- The session is neither revoked nor expired, and its user is active.
pub record IsLiveSession (dir : Directory) (now : ℕ) (row : Session) (u : User) : Type 0 where
  pub owner : user_of dir row.user_id ≡ some u
  pub unrevoked : row.revoked_at ≡ none
  pub unexpired : now < row.expires_at
  pub active : u.is_active ≡ true

abbrev pub token_of : (Text → ℕ) → Request → Directory → Option ApiToken
token_of token_hash request dir =
    find (λ t. t.token_hash == token_hash (partition 32 request.authorization).1) dir.tokens

module _ (token_hash : Text → ℕ) (decode_access_token : Text → Result (ℕ × ℕ))
    (web_origin : String) where
  -- The row is the one that the presented token hashes to.
  abbrev pub FromToken : ℕ → Request → Directory → Actor → Type 0
  FromToken now request dir a =
      (row : ApiToken) × (u : User) × IsLiveToken dir now row u
      × (token_of token_hash request dir ≡ some row)
      × (a ≡ token_actor row u)

  -- The row is the one that the signed cookie names, and so is its user.
  abbrev pub FromSession : ℕ → Request → Directory → Actor → Type 0
  FromSession now request dir a =
      (row : Session) × (u : User) × IsLiveSession dir now row u
      × (decode_access_token request.access ≡ ok (row.id, row.user_id))
      × (find (λ s. s.id == row.id) dir.sessions ≡ some row)
      × (a ≡ user_actor u (some row.id))
      × ((safe_method request.method ≡ true)
          ⊎ (verify_csrf token_hash decode_access_token web_origin request row.csrf_hash ≡ ok tt))

scope_permits-common :
    (mine theirs : List String) (p : Permission)
    → scope_permits (common_scopes mine theirs) p ≡ true
    → scope_permits mine p ≡ true
unfolding scope_permits
scope_permits-common mine theirs p = any-keep _ (λ s. any (str_eq s) theirs) mine

-- What a refresh settled, on the user row that it read.
pub record IsRefreshed (now : ℕ) (dir : Directory) (a b : Actor) (u : User) : Type 0 where
  pub active : u.is_active ≡ true
  pub settled : u.must_change_password ≡ false
  pub same_kind : b.kind ≡ a.kind
  pub current_role : b.global_role ≡ some u.global_role
  pub same_user : b.user_id ≡ some u.id

abbrev pub Narrows : Actor → Actor → Type 0
Narrows b a = (p : Permission) → scope_permits b.scopes p ≡ true → scope_permits a.scopes p ≡ true

refresh_token-IsRefreshed :
    (now : ℕ) (dir : Directory) (a c b : Actor) (u : User)
    → refresh_token now dir a u c ≡ ok b
    → IsRefreshed now dir a c u
    → IsRefreshed now dir a b u × Narrows b a
unfolding refresh_token
refresh_token-IsRefreshed now dir a c b u h r =
    elim (Option-cases (find_by (λ id. find (λ t. t.id == id) dir.tokens) a.id)) [
      | inl absent ↦ absurd (ground arith)
      | inr (row, e) ↦ (
        ground arith,
        λ p.
            subst (λ s. scope_permits s p ≡ true → scope_permits a.scopes p ≡ true) (ground arith)
              (scope_permits-common a.scopes row.scopes p),
      )
    ]

refresh_session-eq :
    (now : ℕ) (dir : Directory) (a c b : Actor) (u : User)
    → refresh_session now dir a u c ≡ ok b
    → b ≡ c
unfolding refresh_session
refresh_session-eq now dir a c b u h = elim (Option-cases a.session_id) [
  | inl none_given ↦ ground arith
  | inr (id, e) ↦ elim (Option-cases (find (λ s. s.id == id) dir.sessions)) [
    | inl absent ↦ absurd (ground arith)
    | inr (row, found) ↦ ground arith
  ]
]

-- A refreshed actor is the same principal with the role that its user has now: the user is still
-- active and need not change the password, and every permission in the scopes that it keeps was
-- in the scopes that it had. System and model actors are never refreshed.
pub refresh_actor-Narrows :
    (now : ℕ) (dir : Directory) (a b : Actor)
    → refresh_actor now dir a ≡ ok b
    → (u : User) × IsRefreshed now dir a b u
      × Narrows b a
      × ((a.kind ≡ ActorKind.user) ⊎ (a.kind ≡ ActorKind.token))
unfolding refresh_actor
refresh_actor-Narrows now dir a b h = elim (Option-cases (find_by (user_of dir) (acting_user a))) [
  | inl absent ↦ absurd (ground arith)
  | inr (u, e) ↦
      let current : Actor = record a {
        user_id = some u.id;
        global_role = some u.global_role;
        must_change_password = false;
      } in
      elim (Bool-cases (is_token a.kind)) [
        | inl tok ↦
            let (r, n) =
              refresh_token-IsRefreshed now dir a current b u (ground arith) (ground arith) in
            (u, r, n, inr (ground arith))
        | inr usr ↦
            let same = refresh_session-eq now dir a current b u (ground arith) in
            (u, ground arith, λ p h. rw same at h, inl (ground arith))
      ]
]
