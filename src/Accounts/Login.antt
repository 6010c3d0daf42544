-- ===== src/Accounts/Login.antt =====
-- auth/service.py `login`: its checks, and the lock of an account.
use darknetra.Prelude.{
  ℕ, ◌+◌, ◌≤◌, ◌<◌, ◌≡◌, Text, Bool, true, false, some, none, ok, err, arith, refl, Error, ◌==◌,
  ◌∷◌, ◌++◌, [], find-some, Option-cases, ap, find-update_if, casefold, ◌∙◌, inl, inr, subst, sym,
}
use darknetra.Records.{User, Session, Directory}
use darknetra.Authz.Credentials.{user_of}
use darknetra.Accounts.{
  Store, Tokens, user_by_name, set_user, failed_once, is_after, lockout, id_of_name, attempt, login,
}

user_of-set_user :
    (dir : Directory) (id : ℕ) (f : User → User) (u : User)
    → ((x : User) → (f x).id ≡ x.id)
    → user_of dir id ≡ some u
    → user_of (set_user u.id f dir) id ≡ some (f u)
user_of-set_user dir id f u same h =
    let here = find-some (λ x. x.id == id) dir.users u h in
    let key : u.id ≡ id = ground arith in
    let k : (f u).id ≡ u.id = same u in
    subst (λ x. user_of (set_user x f dir) id ≡ some (f u)) (sym key)
      (find-update_if (λ x. x.id == id) f dir.users u h (ground arith))

pub user_by_name-set_user :
    (s s' : Store) (name : Text) (f : User → User) (u : User)
    → ((x : User) → (f x).id ≡ x.id)
    → user_by_name name s ≡ some u
    → s'.names ≡ s.names
    → s'.dir.users ≡ (set_user u.id f s.dir).users
    → user_by_name name s' ≡ some (f u)
user_by_name-set_user s s' name f u same h names users =
    elim (Option-cases (id_of_name (casefold name) s.names)) [
      | inl unknown ↦ absurd (ground arith)
      | inr (id, known) ↦
          let found : user_of s.dir id ≡ some u = ground arith in
          let kept = user_of-set_user s.dir id f u same found in ground (arith, kept)
    ]

module _ (verify_password : ℕ → Text → Bool) (ttl : ℕ) where
  pub attempt-fails :
      (now : ℕ) (t : Tokens) (u : User) (password : Text) (s : Store)
      → verify_password u.password_hash password ≡ false
      → ((attempt verify_password ttl now t u password s).0.names ≡ s.names)
        × ((attempt verify_password ttl now t u password s).0.dir
            ≡ set_user u.id (failed_once now) s.dir)
  unfolding attempt
  attempt-fails now t u password s wrong = rw (attempt, wrong) (refl, refl)

  pub login-attempt :
      (now : ℕ) (t : Tokens) (name password : Text) (s : Store) (u : User)
      → user_by_name name s ≡ some u
      → is_after u.locked_until now ≡ false
      → login verify_password ttl now t true name password s
        ≡ attempt verify_password ttl now t u password s
  unfolding login
  login-attempt now t name password s u found free = rw (login, found, free) refl

  login-shut :
      (now : ℕ) (t : Tokens) (name password : Text) (s : Store) (u : User)
      → user_by_name name s ≡ some u
      → is_after u.locked_until now ≡ true
      → (login verify_password ttl now t true name password s).1 ≡ err Error.locked
  unfolding login
  login-shut now t name password s u found shut = rw (login, found, shut) refl

  -- A wrong password after four or more locks the account for five minutes.
  pub login-locks :
      (now later : ℕ) (t t' : Tokens) (name wrong password : Text) (s : Store) (u : User)
      → user_by_name name s ≡ some u
      → is_after u.locked_until now ≡ false
      → 4 ≤ u.failed_logins
      → verify_password u.password_hash wrong ≡ false
      → later < now + lockout
      → (login verify_password ttl later t' true name password
          (login verify_password ttl now t true name wrong s).0).1
        ≡ err Error.locked
  login-locks now later t t' name wrong password s u found free many bad soon =
      let s' = (attempt verify_password ttl now t u wrong s).0 in
      let (names, dir) = attempt-fails now t u wrong s bad in
      let kept : user_by_name name s' ≡ some (failed_once now u) =
        user_by_name-set_user s s' name (failed_once now) u (λ x. refl) found names
          (ap (λ d. d.users) dir) in
      let shut = login-shut later t' name password s' (failed_once now u) kept (ground arith) in
      ap (λ r. (login verify_password ttl later t' true name password r.0).1)
        (login-attempt now t name wrong s u found free)
      ∙ shut

  -- What a successful login has found.
  pub record IsLogin (now : ℕ) (t : Tokens) (name password : Text) (s s' : Store) (u : User)
      (entry : Session) (before : User) : Type 0 where
    pub found : user_by_name name s ≡ some before
    pub verified : verify_password before.password_hash password ≡ true
    pub active : before.is_active ≡ true
    pub not_locked : is_after before.locked_until now ≡ false
    pub counter : (u.failed_logins ≡ 0) × (u.locked_until ≡ none)
    pub entry_of : (entry.user_id ≡ before.id) × (entry.expires_at ≡ now + ttl)
    pub added : s'.dir.sessions ≡ s.dir.sessions ++ (entry ∷ [])

  -- A login succeeds only from a permitted origin, for an active user that is not locked and whose password
  -- is right; it clears the count of failures and adds one session of that user.
  pub login-IsLogin :
      (now : ℕ) (t : Tokens) (origin : Bool) (name password : Text) (s s' : Store) (u : User)
      (entry : Session)
      → login verify_password ttl now t origin name password s ≡ (s', ok (u, entry))
      → (origin ≡ true) × ((before : User) × IsLogin now t name password s s' u entry before)
  unfolding login attempt
  login-IsLogin now t false name password s s' u entry h = absurd (ground arith)
  login-IsLogin now t true name password s s' u entry h =
      elim (Option-cases (user_by_name name s)) [
        | inl unknown ↦ absurd (ground arith)
        | inr (b, found) ↦ (
          refl,
          (
            b,
            record {
              found = found;
              verified = ground arith;
              active = ground arith;
              not_locked = ground arith;
              counter = (ground arith, ground arith);
              entry_of = (ground arith, ground arith);
              added = ground arith;
            },
          ),
        )
      ]
