-- ===== src/Auth/Sessions.antt =====
-- Who gets tokens from src/modules/auth/auth.service.ts, and how long a session can be refreshed.
use mediavault_backend.Prelude.{
  ℕ, String, ◌≡◌, ◌≢◌, ◌⊎◌, inl, inr, refl, true, false, none, some, ◌==◌, arith, Option-cases,
  eq_iff, eq_refl, ok, err, HttpError, unauthorized, forbidden, ltb, if◌then◌else◌,
}
use mediavault_backend.Platform.Repository.{by_key}
use mediavault_backend.Platform.Repository.Laws.{find_one_unique, find_one-deleted, find_one-key}
use mediavault_backend.Backend.{User, Session, session_id, Env, Backend}
use mediavault_backend.Auth.{
  LoginDto, LoginResult, has_at, is_numeric, find_login_user, hash_of, new_session, sign_access,
  login_result, login, refresh, logout, logout_all, session_of, of_user, revoke_session,
  blacklist_token,
}

module _ (env : Env) (now : ℕ) (sid : String) (dto : LoginDto) (ip agent : String) where
  -- What a login that succeeds shows.
  pub record Granted (b b' : Backend env) (u : User) (r : LoginResult) : Type 0 where
    pub found : find_login_user env dto.username b ≡ some u
    pub valid : env.tokens.bcrypt_compare dto.password u.password_hash ≡ true
    pub active : u.is_active ≡ true
    pub answer : r ≡ login_result env now u sid
    pub stored :
        env.sessions.find_one (by_key session_id sid) b'.sessions
        ≡ some (new_session env now u sid ip agent)

  -- A login that succeeds is that of the user found for the identifier, whose password hash accepts
  -- the password and whose account is active; the answer is that user's, and the session with the
  -- answer's id, user and token hashes is stored.
  pub login-Granted :
      (b : Backend env) (r : LoginResult)
      → (login env now sid dto ip agent b).1 ≡ ok r
      → (u : User) × Granted b (login env now sid dto ip agent b).0 u r
  unfolding login
  login-Granted b r e = elim (Option-cases (find_login_user env dto.username b)) [
    | inl missing ↦ absurd (ground arith)
    | inr (u, found) ↦ (
      u,
      record {
        found = found;
        valid = ground arith;
        active = ground arith;
        answer = ground arith;
        stored = ground (
          arith,
          env.sessions.find_one-save sid (new_session env now u sid ip agent) b.sessions,
          eq_refl sid,
        );
      },
    )
  ]

  -- A login that fails changes nothing, and tells an account that is disabled only to who knows its
  -- password: the answer is 403 then, and 401 otherwise.
  login-refused :
      (b : Backend env) (e : HttpError)
      → (login env now sid dto ip agent b).1 ≡ err e
      → ((login env now sid dto ip agent b).0 ≡ b)
        × ((e ≡ unauthorized)
            ⊎ ((e ≡ forbidden)
                × (env.tokens.bcrypt_compare dto.password
                      (hash_of env (find_login_user env dto.username b))
                    ≡ true)))
  unfolding login
  login-refused b e h = ground arith

  -- An identifier that is neither a mail nor a number is refused whatever the password is.
  login-unknown :
      (b : Backend env)
      → has_at dto.username ≡ false
      → is_numeric dto.username ≡ false
      → login env now sid dto ip agent b ≡ (b, err unauthorized)
  unfolding login find_login_user
  login-unknown b mail number = ground arith

session_of-key :
    (env : Env) (uid sid : String) (s : Session)
    → session_of env uid sid s ≡ true
    → session_id s ≡ sid
session_of-key env uid sid s h = ground (arith, eq_iff s.id sid)

module _ (env : Env) (later : ℕ) (uid sid : String) (b : Backend env) where
  -- A stored session of the user is refreshed up to its expiry, with a new token for its user and
  -- the same session, and refused after it; the state does not change either way.
  refresh_stored :
      (s : Session)
      → env.sessions.find_one (by_key session_id sid) b.sessions ≡ some s
      → s.user.id ≡ uid
      → refresh env later uid sid b ≡ (
          if ltb s.expires_at later then (b, err unauthorized) else (
            b,
            ok (record { access_token = sign_access env later s.user sid; expires_in = 900 }),
          ))
  unfolding refresh
  refresh_stored s e owner =
      let found =
        find_one_unique env.sessions (session_of env uid sid) b.sessions sid s e
          (ground (
            arith,
            find_one-key env.sessions b.sessions sid s e,
            eq_iff s.id sid,
            eq_iff s.user.id uid,
          ))
          (session_of-key env uid sid) in
      rw found (ground arith)

  -- It is refused once the session is gone.
  pub refresh-absent :
      env.sessions.find_one (session_of env uid sid) b.sessions ≡ none
      → refresh env later uid sid b ≡ (b, err unauthorized)
  unfolding refresh
  refresh-absent e = rw e refl

blacklist_token-sessions :
    (env : Env) (now : ℕ) (raw : String) (b : Backend env)
    → (blacklist_token env now raw b).sessions ≡ b.sessions
unfolding blacklist_token
blacklist_token-sessions env now raw b = ground arith

module _ (env : Env) (now later : ℕ) (uid sid : String) (b : Backend env) where
  -- After a logout the session cannot be refreshed, by whoever.
  refresh-logout :
      (other raw : String)
      → let b' = logout env now uid sid raw b in
        refresh env later other sid b' ≡ (b', err unauthorized)
  unfolding logout
  refresh-logout other raw = refresh-absent env later other sid (logout env now uid sid raw b) (
      rw (blacklist_token-sessions env now raw b) (
        find_one-deleted env.sessions (session_of env other sid) (by_key session_id sid) b.sessions
          λ s h. ground (arith, eq_iff s.id sid)))

  -- After a logout from everywhere no session of the user can be refreshed.
  refresh-logout_all :
      let b' = logout_all env uid b in refresh env later uid sid b' ≡ (b', err unauthorized)
  unfolding logout_all
  refresh-logout_all = refresh-absent env later uid sid (logout_all env uid b) (
      find_one-deleted env.sessions (session_of env uid sid) (of_user env uid) b.sessions
        λ s h. ground arith)

-- A session is revoked by its owner or by an administrator: for any other the answer is 403 and
-- nothing changes, for these the session is gone, and one that is not there is no error.
revoke_session_lem :
    (env : Env) (sid uid role : String) (b : Backend env) (s : Session)
    → env.sessions.find_one (by_key session_id sid) b.sessions ≡ some s
    → let b' = (revoke_session env sid uid role b).0 in
      ((s.user.id ≢ uid)
        × ((role == "admin") ≡ false)
        × (revoke_session env sid uid role b ≡ (b, err forbidden)))
      ⊎ (((s.user.id ≡ uid) ⊎ ((role == "admin") ≡ true))
          × ((revoke_session env sid uid role b).1 ≡ ok tt)
          × (env.sessions.find_one (by_key session_id sid) b'.sessions ≡ none))
unfolding revoke_session
revoke_session_lem env sid uid role b s e = ground (
  arith,
  eq_iff s.user.id uid,
  find_one-deleted env.sessions (by_key session_id sid) (by_key session_id sid) b.sessions
      (λ (r : Session) (h : by_key session_id sid r ≡ true). h),
)
