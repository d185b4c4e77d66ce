-- ===== src/Platform/Tokens.antt =====
-- `bcrypt`, `crypto` and `@nestjs/jwt`, and the texts' `toLowerCase`, whose tables are the
-- runtime's. Signing has the time as an argument, since a token holds its time of issue.
use mediavault_backend.Prelude.{ℕ, String, Bool, Option}

pub record JwtPayload : Type 0 where
  pub sub : String
  pub email : String
  pub role : String
  pub session_id : String

pub record RefreshPayload : Type 0 where
  pub sub : String
  pub session_id : String

pub record Tokens : Type 0 where
  pub bcrypt_compare : String → String → Bool
  pub bcrypt_hash : String → ℕ → String
  pub sha256 : String → String
  pub sign : ℕ → JwtPayload → String
  -- The secret and the lifetime.
  pub sign_refresh : ℕ → String → String → RefreshPayload → String
  -- `decode(token)`: the outer `none` throws, the inner one is a token without `exp`.
  pub decode_exp : String → Option (Option ℕ)
  -- `verify(token, { secret })`: `none` throws.
  pub verify : ℕ → String → String → Option JwtPayload
  pub to_lower_case : String → String
