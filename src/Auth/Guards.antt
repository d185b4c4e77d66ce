-- ===== src/Auth/Guards.antt =====
-- What lets a request or a socket in: src/modules/auth/strategies, src/modules/auth/guards,
-- src/modules/gateway/gateway-auth.guard.ts and the gateway's own handshake check.
use text.Mathlib.Text.{starts_with, ◌==◌}
use mediavault_backend.Prelude.{
  ℕ, String, Bool, true, false, ◌&&◌, ◌||◌, not, Option, none, some, List, [], ◌∷◌, if◌then◌else◌,
  get_or, any, Result, ok, err, unauthorized, ws_exception, token_error,
}
use mediavault_backend.Platform.Tokens.{JwtPayload, RefreshPayload}
use mediavault_backend.Redis as Redis
use mediavault_backend.Redis.{RedisService}
use mediavault_backend.Backend.{Env}
use mediavault_backend.Auth.{blacklist_key}

-- `request.user` and `client.data.user`.
pub record AuthUser : Type 0 where
  pub user_id : String
  pub email : String
  pub role : String
  pub session_id : String

abbrev pub user_of : JwtPayload → AuthUser
user_of p = record { user_id = p.sub; email = p.email; role = p.role; session_id = p.session_id }

-- `JwtAuthGuard.canActivate`, given what the passport strategy answers.
abbrev pub jwt_can_activate : Bool → Bool → Bool
jwt_can_activate is_public super = if is_public then true else super

-- `RolesGuard.canActivate`: the required roles and the request's user, with its role.
unfoldable pub roles_can_activate : Option (List String) → Option (Option String) → Bool
roles_can_activate none user = true
roles_can_activate (some []) user = true
roles_can_activate (some (r ∷ rs)) none = false
roles_can_activate (some (r ∷ rs)) (some role) = any (λ q. q == get_or role "") (r ∷ rs)

-- `JwtRefreshStrategy.validate`.
unfoldable pub validate_refresh : RefreshPayload → Result RefreshPayload
validate_refresh p = if p.sub == "" || p.session_id == "" then err unauthorized else ok p

-- `token.startsWith('Bearer ') ? token.slice(7) : token`.
drop_bearer : String → String
drop_bearer
      (String.◌∷◌ b (
        String.◌∷◌ e
          (String.◌∷◌ a (String.◌∷◌ r (String.◌∷◌ e' (String.◌∷◌ r' (String.◌∷◌ sp t))))))) =
    t
drop_bearer s = ""

unfoldable pub strip_bearer : String → String
unfolding drop_bearer
strip_bearer s = if starts_with s "Bearer " then drop_bearer s else s

module _ (env : Env) (now : ℕ) where
  abbrev pub is_blacklisted : String → RedisService env.redis → Bool
  is_blacklisted token r = Redis.exists env.redis now (blacklist_key (env.tokens.sha256 token)) r

  -- `JwtStrategy.validate`, once passport has checked the token's signature and lifetime; an empty
  -- token counts as none.
  unfoldable pub validate : Option String → JwtPayload → RedisService env.redis → Result AuthUser
  validate none p r = ok (user_of p)
  validate (some token) p r =
      if not (token == "") && is_blacklisted token r then err unauthorized else ok (user_of p)

  abbrev secret : String
  secret = get_or env.jwt.secret "jwt_secret"

  -- The gateway's `validateHandshake`: an exception of `verify` is passed on.
  unfoldable pub validate_handshake : Option String → RedisService env.redis → Result AuthUser
  validate_handshake none r = err ws_exception
  validate_handshake (some auth) r =
      if auth == ""
      then err ws_exception
      else elim (env.tokens.verify now (strip_bearer auth) secret) [
        | none ↦ err token_error
        | some p ↦ if is_blacklisted (strip_bearer auth) r then err ws_exception else ok (user_of p)
      ]

  -- `GatewayAuthGuard.validateClient`: every exception becomes a `WsException`.
  unfoldable pub validate_client : Option String → RedisService env.redis → Result AuthUser
  validate_client none r = err ws_exception
  validate_client (some auth) r =
      if auth == ""
      then err ws_exception
      else elim (env.tokens.verify now (strip_bearer auth) secret) [
        | none ↦ err ws_exception
        | some p ↦ if is_blacklisted (strip_bearer auth) r then err ws_exception else ok (user_of p)
      ]
