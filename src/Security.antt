-- ===== src/Security.antt =====
-- src/modules/security/security.service.ts: the revocation of sessions.
pub mod Revocation
pub mod Everywhere
pub mod Anomalies
pub mod Addresses
pub mod Sessions
use mediavault_backend.Prelude.{
  ℕ, ◌+◌, ◌-◌, ◌/◌, String, Bool, true, false, ◌&&◌, Option, none, some, List, [], ◌∷◌, ◌==◌,
  if◌then◌else◌, ltb, length, Action, ◌>>=◌, ◌>>◌, pure, state, modify, or_throw, not_found,
}
use mediavault_backend.Platform.Repository.{by_key}
use mediavault_backend.Redis as Redis
use mediavault_backend.Redis.{RedisService}
use mediavault_backend.Audit.{log_action, text, number}
use mediavault_backend.Gateway.Emissions.{AlertPayload, warning, auth, emit_alert}
use mediavault_backend.Backend.{Session, session_id, Env, Backend}
use mediavault_backend.Auth.{blacklist_key, of_user}

-- `Math.max(0, Math.ceil((expiresAt - now) / 1000))`.
abbrev pub ttl_seconds : ℕ → ℕ → ℕ
ttl_seconds now expires_at = (expires_at - now + 999) / 1000

module _ (env : Env) where
  -- The token's hash goes to the blacklist for the rest of the session.
  unfoldable pub blacklist_session : ℕ → Session → RedisService env.redis → RedisService env.redis
  blacklist_session now s r =
      let ttl = ttl_seconds now s.expires_at in
      if ltb 0 ttl then Redis.set env.redis now (blacklist_key s.token_hash) "1" ttl r else r

  unfoldable pub revoke_session : ℕ → String → String → String → Action (Backend env) (Unit {0})
  revoke_session now uuid sid admin = do
    b ← state
    s ← or_throw (env.sessions.find_one (by_key session_id sid) b.sessions) not_found
    modify (λ b. record b {
      redis = blacklist_session now s b.redis;
      sessions = env.sessions.delete (by_key session_id sid) b.sessions;
      audit =
          log_action "SESSION_REVOKED_BY_ADMIN" "Session" (some sid) (some admin) none
            (some (("revokedSessionId", text sid) ∷ ("targetUserId", text s.user.id) ∷ [])) b.audit;
      sent =
          emit_alert
            (record {
              id = uuid;
              level = warning;
              category = auth;
              title = "Sesión revocada";
              message = "Sesión revocada por administrador";
              stream_id = none;
              timestamp = now;
            })
            b.sent;
    })

  blacklist_all : ℕ → List Session → RedisService env.redis → RedisService env.redis
  blacklist_all now [] r = r
  blacklist_all now (s ∷ ss) r = blacklist_all now ss (blacklist_session now s r)

  -- `{ user: { id: userId }, expiresAt: MoreThan(now) }`.
  abbrev pub active_of : ℕ → String → Session → Bool
  active_of now uid s = s.user.id == uid && ltb now s.expires_at

  -- The number of sessions revoked, and the state. Expired rows go only along with active ones.
  unfoldable pub revoke_all_user_sessions : ℕ → String → String → Backend env → Backend env × ℕ
  unfolding blacklist_all
  revoke_all_user_sessions now target admin b =
      let found = env.sessions.find (active_of now target) b.sessions in
      (
        record b {
          redis = blacklist_all now found b.redis;
          sessions =
              if ltb 0 (length found)
              then env.sessions.delete (of_user env target) b.sessions
              else b.sessions;
          audit =
              log_action "ALL_SESSIONS_REVOKED" "User" (some target) (some admin) none
                (some (("targetUserId", text target) ∷ ("count", number (length found)) ∷ []))
                b.audit;
        },
        length found,
      )
