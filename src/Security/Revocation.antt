-- ===== src/Security/Revocation.antt =====
-- What the revocations of src/modules/security/security.service.ts and the logout of
-- src/modules/auth/auth.service.ts do to access tokens, as `JwtStrategy.validate` sees them.
use mediavault_backend.Prelude.{
  ℕ, ◌-◌, ◌*◌, ◌/◌, ◌≤◌, ◌<◌, String, ◌≡◌, refl, true, false, some, ◌==◌, arith, eq_iff, err,
  unauthorized, ok, subst, sym, Option-cases, inl, inr,
}
use mediavault_backend.Platform.Repository.{by_key}
use mediavault_backend.Platform.Repository.Laws.{find_one-deleted}
use mediavault_backend.Platform.Tokens.{JwtPayload}
use mediavault_backend.Redis as Redis
use mediavault_backend.Redis.{RedisService}
use mediavault_backend.Redis.Laws.{Serves, exists-set, exists-set_ne}
use mediavault_backend.Backend.{Session, session_id, Env, Backend}
use mediavault_backend.Auth.{
  blacklist_key, blacklist_token, logout, refresh, session_of, RefreshResult,
}
use mediavault_backend.Auth.Sessions.{refresh-absent}
use mediavault_backend.Auth.Guards.{validate}
use mediavault_backend.Security.{blacklist_session, ttl_seconds, revoke_session}

module _ (env : Env) (now later : ℕ) (p : JwtPayload) where
  -- A token whose hash is on the blacklist is refused.
  validate-blacklisted :
      (token : String) (r : RedisService env.redis)
      → (token == "") ≡ false
      → Redis.exists env.redis later (blacklist_key (env.tokens.sha256 token)) r ≡ true
      → validate env later (some token) p r ≡ err unauthorized
  unfolding validate
  validate-blacklisted token r some_text e = ground arith

  -- The answer depends on the token's own key alone.
  validate-cong :
      (token : String) (r r' : RedisService env.redis)
      → Redis.exists env.redis later (blacklist_key (env.tokens.sha256 token)) r
        ≡ Redis.exists env.redis later (blacklist_key (env.tokens.sha256 token)) r'
      → validate env later (some token) p r ≡ validate env later (some token) p r'
  unfolding validate
  validate-cong token r r' e = rw e refl

  blacklist_session-refuses :
      (token : String) (s : Session) (r : RedisService env.redis)
      → (token == "") ≡ false
      → env.tokens.sha256 token ≡ s.token_hash
      → now ≤ later
      → later < s.expires_at
      → Serves env.redis now later (blacklist_key s.token_hash) "1" (ttl_seconds now s.expires_at) r
      → validate env later (some token) p (blacklist_session env now s r) ≡ err unauthorized
  unfolding blacklist_session
  blacklist_session-refuses token s r some_text hash h h' serves =
      validate-blacklisted token _ some_text (
        rw hash (
          ground (
            arith,
            exists-set env.redis now later (ttl_seconds now s.expires_at)
                (blacklist_key s.token_hash) "1" r serves h (omega arith),
          )))

  blacklist_session-other :
      (token : String) (s : Session) (r : RedisService env.redis)
      → (blacklist_key s.token_hash == blacklist_key (env.tokens.sha256 token)) ≡ false
      → validate env later (some token) p (blacklist_session env now s r)
        ≡ validate env later (some token) p r
  unfolding blacklist_session
  blacklist_session-other token s r ne = validate-cong token _ r (
      ground (
        arith,
        exists-set_ne env.redis now later (ttl_seconds now s.expires_at)
            (blacklist_key s.token_hash) (blacklist_key (env.tokens.sha256 token)) "1" r ne,
      ))

-- What the revocation of a session by an administrator does.
module _ (env : Env) (now : ℕ) (uuid sid admin : String) (b : Backend env) (s : Session)
    (stored : env.sessions.find_one (by_key session_id sid) b.sessions ≡ some s) where
  revoke_session-redis :
      (revoke_session env now uuid sid admin b).0.redis ≡ blacklist_session env now s b.redis
  unfolding revoke_session
  revoke_session-redis = rw stored refl

  revoke_session-sessions :
      (revoke_session env now uuid sid admin b).0.sessions
      ≡ env.sessions.delete (by_key session_id sid) b.sessions
  unfolding revoke_session
  revoke_session-sessions = rw stored refl

  -- While the session would have lasted, and Redis serves, its access token is refused.
  pub validate-revoke_session :
      (later : ℕ) (p : JwtPayload) (token : String)
      → (token == "") ≡ false
      → env.tokens.sha256 token ≡ s.token_hash
      → now ≤ later
      → later < s.expires_at
      → Serves env.redis now later
          (blacklist_key s.token_hash)
          "1"
          (ttl_seconds now s.expires_at)
          b.redis
      → validate env later (some token) p (revoke_session env now uuid sid admin b).0.redis
        ≡ err unauthorized
  validate-revoke_session later p token some_text hash h h' serves =
      rw revoke_session-redis
        (blacklist_session-refuses env now later p token s b.redis some_text hash h h' serves)

  -- The session can no longer be refreshed.
  refresh-revoke_session :
      (later : ℕ) (uid : String)
      → let b' = (revoke_session env now uuid sid admin b).0 in
        refresh env later uid sid b' ≡ (b', err unauthorized)
  refresh-revoke_session later uid = refresh-absent env later uid sid _ (
      rw revoke_session-sessions (
        find_one-deleted env.sessions (session_of env uid sid) (by_key session_id sid) b.sessions
          λ r h. ground (arith, eq_iff r.id sid)))

-- A refresh that succeeds changes nothing.
refresh-unchanged :
    (env : Env) (now : ℕ) (uid sid : String) (b b' : Backend env) (answer : RefreshResult)
    → refresh env now uid sid b ≡ (b', ok answer)
    → b' ≡ b
unfolding refresh
refresh-unchanged env now uid sid b b' answer e =
    elim (Option-cases (env.sessions.find_one (session_of env uid sid) b.sessions)) [
      | inl n ↦ ground arith
      | inr (s, found) ↦ ground arith
    ]

-- But when a session is refreshed and then revoked, the token that the refresh answered, if its hash
-- is not the one that the session had before the refresh, is answered as before the revocation, at
-- any time: one that was accepted is accepted.
pub validate-refreshed :
    (env : Env) (issued now later : ℕ) (uuid uid sid admin : String) (p : JwtPayload)
    (b b' : Backend env) (s : Session) (answer : RefreshResult)
    → env.sessions.find_one (by_key session_id sid) b.sessions ≡ some s
    → refresh env issued uid sid b ≡ (b', ok answer)
    → (blacklist_key s.token_hash == blacklist_key (env.tokens.sha256 answer.access_token)) ≡ false
    → validate env later
        (some answer.access_token)
        p
        (revoke_session env now uuid sid admin b').0.redis
      ≡ validate env later (some answer.access_token) p b'.redis
validate-refreshed env issued now later uuid uid sid admin p b b' s answer stored refreshed ne =
    let same = refresh-unchanged env issued uid sid b b' answer refreshed in
    let kept =
      subst (λ (x : Backend env). env.sessions.find_one (by_key session_id sid) x.sessions ≡ some s)
        (sym same) stored in
    rw (revoke_session-redis env now uuid sid admin b' s kept)
      (blacklist_session-other env now later p answer.access_token s b'.redis ne)

blacklist_token-live :
    (env : Env) (now exp : ℕ) (raw : String) (b : Backend env)
    → env.tokens.decode_exp raw ≡ some (some exp)
    → now < 1000 * exp
    → (blacklist_token env now raw b).redis
      ≡ Redis.set env.redis now
          (blacklist_key (env.tokens.sha256 raw))
          "1"
          (exp - now / 1000)
          b.redis
unfolding blacklist_token
blacklist_token-live env now exp raw b e h = ground arith

-- After a logout the access token that was given is refused until it expires by itself, if Redis
-- serves.
validate-logout :
    (env : Env) (now later exp : ℕ) (p : JwtPayload) (uid sid raw : String) (b : Backend env)
    → (raw == "") ≡ false
    → env.tokens.decode_exp raw ≡ some (some exp)
    → now ≤ later
    → later < 1000 * exp
    → Serves env.redis now later
        (blacklist_key (env.tokens.sha256 raw))
        "1"
        (exp - now / 1000)
        b.redis
    → validate env later (some raw) p (logout env now uid sid raw b).redis ≡ err unauthorized
unfolding logout
validate-logout env now later exp p uid sid raw b some_text e h h' serves =
    validate-blacklisted env now later p raw _ some_text (
      rw (blacklist_token-live env now exp raw b e (omega arith)) (
        exists-set env.redis now later (exp - now / 1000) (blacklist_key (env.tokens.sha256 raw))
          "1" b.redis serves h (omega arith)))
