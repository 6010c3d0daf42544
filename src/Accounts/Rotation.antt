-- ===== src/Accounts/Rotation.antt =====
-- auth/service.py `refresh` and `change_password`: the sessions of a user.
use darknetra.Prelude.{
  ℕ, ◌≡◌, List, [], ◌∷◌, ◌++◌, Text, String, Bool, Option, Result, true, false, some, ok, err,
  Error, find, any, update_if, ◌==◌, ◌&&◌, arith, refl, is_empty, is_some, Option-cases,
  find-update_if_stable, ◌<◌, find-append, inl, ap, inr, Result-cases, ◌∙◌, subst, not, is_value,
  ◌≤◌, length, text_eq,
}
use darknetra.Records.{User, Session, Actor}
use darknetra.Authz.Credentials.{Request, verify_csrf, user_of}
use darknetra.Accounts.{Store, Tokens, live_of, revoked, rotate, refresh, change_password}

-- After all live sessions of a user are revoked, none is live.
revoked-none_live :
    (now user_id : ℕ) (rows : List Session)
    → any (live_of user_id) (update_if (live_of user_id) (revoked now) rows) ≡ false
revoked-none_live now user_id [] = refl
revoked-none_live now user_id (r ∷ rows) = ground (arith, revoked-none_live now user_id rows)

module _ (token_hash : Text → ℕ) (decode_access_token : Text → Result (ℕ × ℕ)) (web_origin : String)
    (ttl : ℕ) where
  refresh-reaches :
      (now : ℕ) (t : Tokens) (request : Request) (value : Text) (s : Store) (entry : Session)
      (u : User)
      → is_empty value ≡ false
      → find (λ r. r.refresh_hash == token_hash value) s.dir.sessions ≡ some entry
      → verify_csrf token_hash decode_access_token web_origin request entry.csrf_hash ≡ ok tt
      → user_of s.dir entry.user_id ≡ some u
      → u.is_active ≡ true
      → refresh token_hash decode_access_token web_origin ttl now t request value s
        ≡ rotate token_hash decode_access_token web_origin ttl now t entry u s
  unfolding refresh
  refresh-reaches now t request value s entry u given found checked known active =
      rw (refresh, given, found, checked, known, active) refl

  rotate-reuse :
      (now : ℕ) (t : Tokens) (entry : Session) (u : User) (s : Store)
      → is_some entry.revoked_at ≡ true
      → ((rotate token_hash decode_access_token web_origin ttl now t entry u s).1
          ≡ err Error.unauthenticated)
        × (any
              (live_of entry.user_id)
              (rotate token_hash decode_access_token web_origin ttl now t entry u s).0.dir.sessions
            ≡ false)
  unfolding rotate
  rotate-reuse now t entry u s used =
      rw (rotate, used) (refl, revoked-none_live now entry.user_id s.dir.sessions)

  -- What a refresh that succeeds has found and left.
  pub record IsRotated (now : ℕ) (t : Tokens) (request : Request) (value : Text) (s s' : Store)
      (u : User) (fresh entry : Session) : Type 0 where
    pub given : is_empty value ≡ false
    pub found : find (λ r. r.refresh_hash == token_hash value) s.dir.sessions ≡ some entry
    pub checked :
        verify_csrf token_hash decode_access_token web_origin request entry.csrf_hash ≡ ok tt
    pub known : user_of s.dir entry.user_id ≡ some u
    pub active : u.is_active ≡ true
    pub unused : is_some entry.revoked_at ≡ false
    pub not_expired : now < entry.expires_at
    pub follows : fresh.rotated_from ≡ some entry.id
    pub users_kept : s'.dir.users ≡ s.dir.users
    pub sessions_eq :
        s'.dir.sessions
        ≡ update_if (λ r. r.id == entry.id) (revoked now) s.dir.sessions ++ (fresh ∷ [])

  -- A session is rotated only for its active user, with the checks against forgery, while it is neither
  -- revoked nor expired; it is revoked and a session that names it is added.
  pub refresh-IsRotated :
      (now : ℕ) (t : Tokens) (request : Request) (value : Text) (s s' : Store) (u : User)
      (fresh : Session)
      → refresh token_hash decode_access_token web_origin ttl now t request value s
        ≡ (s', ok (u, fresh))
      → (entry : Session) × IsRotated now t request value s s' u fresh entry
  unfolding refresh rotate
  refresh-IsRotated now t request value s s' u fresh h =
      elim (Option-cases (find (λ r. r.refresh_hash == token_hash value) s.dir.sessions)) [
        | inl absent ↦ absurd (ground arith)
        | inr (entry, found) ↦
            elim (Result-cases
              (verify_csrf token_hash decode_access_token web_origin request entry.csrf_hash)) [
                | inr (e, forged) ↦ absurd (ground arith)
                | inl (done, checked) ↦ elim (Option-cases (user_of s.dir entry.user_id)) [
                  | inl gone ↦ absurd (ground arith)
                  | inr (v, known) ↦ (
                    entry,
                    record {
                      given = ground arith;
                      found = found;
                      checked = checked;
                      known = ground arith;
                      active = ground arith;
                      unused = ground arith;
                      not_expired = ground arith;
                      follows = ground arith;
                      users_kept = ground arith;
                      sessions_eq = ground arith;
                    },
                  )
                ]
              ]
      ]

  refresh_again :
      (now later : ℕ) (t t' : Tokens) (request request' : Request) (value : Text) (s s' : Store)
      (u : User) (fresh : Session)
      → refresh token_hash decode_access_token web_origin ttl now t request value s
        ≡ (s', ok (u, fresh))
      → ((entry : Session)
          → find (λ r. r.refresh_hash == token_hash value) s.dir.sessions ≡ some entry
          → verify_csrf token_hash decode_access_token web_origin request' entry.csrf_hash ≡ ok tt)
      → (entry : Session) × (find (λ r. r.refresh_hash == token_hash value) s.dir.sessions
          ≡ some entry)
        × ((refresh token_hash decode_access_token web_origin ttl later t' request' value s').1
            ≡ err Error.unauthenticated)
        × (any
              (live_of entry.user_id)
              (refresh token_hash decode_access_token web_origin ttl later t' request' value
                s').0.dir.sessions
            ≡ false)
  refresh_again now later t t' request request' value s s' u fresh h again =
      let (entry, d) = refresh-IsRotated now t request value s s' u fresh h in
      let q : Session → Bool = λ r. r.refresh_hash == token_hash value in
      let kept =
        find-update_if_stable q (λ r. r.id == entry.id) (revoked now) s.dir.sessions entry
          (λ x. refl) d.found (ground arith) in
      let joined =
        find-append q (update_if (λ r. r.id == entry.id) (revoked now) s.dir.sessions)
          (fresh ∷ []) in
      let found : find q s'.dir.sessions ≡ some (revoked now entry) =
        ground (arith, joined, kept, d.sessions_eq) in
      let known : user_of s'.dir entry.user_id ≡ some u = ground (arith, d.known, d.users_kept) in
      let e =
        refresh-reaches later t' request' value s' (revoked now entry) u d.given found
          (again entry d.found) known d.active in
      let (refused, ended) = rotate-reuse later t' (revoked now entry) u s' refl in
      (
        entry,
        d.found,
        ap (λ x. x.1) e ∙ refused,
        ap (λ x. any (live_of entry.user_id) x.0.dir.sessions) e ∙ ended,
      )

  -- A refresh token that has been used is refused when it is presented again, with the checks against
  -- forgery, and that ends every session of its user, the one that replaced it included.
  pub refresh-once :
      (now later : ℕ) (t t' : Tokens) (request request' : Request) (value : Text) (s s' : Store)
      (u : User) (fresh entry : Session)
      → refresh token_hash decode_access_token web_origin ttl now t request value s
        ≡ (s', ok (u, fresh))
      → find (λ r. r.refresh_hash == token_hash value) s.dir.sessions ≡ some entry
      → verify_csrf token_hash decode_access_token web_origin request' entry.csrf_hash ≡ ok tt
      → ((refresh token_hash decode_access_token web_origin ttl later t' request' value s').1
          ≡ err Error.unauthenticated)
        × (any
              (live_of entry.user_id)
              (refresh token_hash decode_access_token web_origin ttl later t' request' value
                s').0.dir.sessions
            ≡ false)
  refresh-once now later t t' request request' value s s' u fresh entry h found checked =
      let q : Session → Bool = λ r. r.refresh_hash == token_hash value in
      let passes : (e : Session)
          → find q s.dir.sessions ≡ some e
          → verify_csrf token_hash decode_access_token web_origin request' e.csrf_hash ≡ ok tt =
        λ e k.
          let same : entry ≡ e = ground (arith, found, k) in
          subst
            (λ x.
              verify_csrf token_hash decode_access_token web_origin request' x.csrf_hash ≡ ok tt)
            same checked in
      let (e, known, refused, ended) =
        refresh_again now later t t' request request' value s s' u fresh h passes in
      let same : e ≡ entry = ground (arith, found, known) in
      (
        refused,
        subst
            (λ x.
              any (live_of x.user_id)
                (refresh token_hash decode_access_token web_origin ttl later t' request' value
                  s').0.dir.sessions
              ≡ false)
            same ended,
      )

-- A live session of a user other than the acting one.
abbrev pub other_live : ℕ → Option ℕ → Session → Bool
other_live user_id acting r = live_of user_id r && not (is_value acting r.id)

others-none_live :
    (now user_id : ℕ) (acting : Option ℕ) (rows : List Session)
    → any (other_live user_id acting) (update_if (other_live user_id acting) (revoked now) rows)
      ≡ false
others-none_live now user_id acting [] = refl
others-none_live now user_id acting (r ∷ rows) =
    ground (arith, others-none_live now user_id acting rows)

-- A password changes only for a human who knows the current one, to another one of 12 to 1024 characters;
-- every other session of the user then has ended.
pub change_password-ends_others :
    (verify_password : ℕ → Text → Bool) (hash_password : Text → ℕ) (now : ℕ) (actor : Actor)
    (current replacement : Text) (s s' : Store)
    → change_password verify_password hash_password now actor current replacement s ≡ ok s'
    → (u : User) × (user_id : ℕ) × (actor.user_id ≡ some user_id)
      × (user_of s.dir user_id ≡ some u)
      × (verify_password u.password_hash current ≡ true)
      × ((12 ≤ length replacement)
          × (length replacement ≤ 1024)
          × (text_eq replacement current ≡ false))
      × (any (other_live u.id actor.session_id) s'.dir.sessions ≡ false)
unfolding change_password
change_password-ends_others verify_password hash_password now actor current replacement s s' h =
    elim (Option-cases actor.user_id) [
      | inl nobody ↦ absurd (ground arith)
      | inr (user_id, known) ↦ elim (Option-cases (user_of s.dir user_id)) [
        | inl gone ↦ absurd (ground arith)
        | inr (u, found) ↦
            let rows : s'.dir.sessions
                ≡ update_if (other_live u.id actor.session_id) (revoked now) s.dir.sessions =
              ground arith in
            (
              u,
              user_id,
              known,
              found,
              ground arith,
              (ground arith, ground arith, ground arith),
              rw rows (others-none_live now u.id actor.session_id s.dir.sessions),
            )
      ]
    ]
