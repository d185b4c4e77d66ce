-- ===== src/Backend.antt =====
-- The entities of users, roles and sessions (src/modules/users/entities,
-- src/modules/auth/entities), the environment of the services and the state that they share.
use mediavault_backend.Prelude.{ℕ, String, Bool, Option, List}
use mediavault_backend.Platform.Repository.{Repository}
use mediavault_backend.Platform.RedisClient.{RedisClient}
use mediavault_backend.Platform.Tokens.{Tokens}
use mediavault_backend.Redis.{RedisService}
use mediavault_backend.Audit.{AuditLog}
use mediavault_backend.Gateway.Emissions.{Emission}

-- `RolePermissions`.
pub record RolePermissions : Type 0 where
  pub can_view_streams : Bool
  pub can_manage_devices : Bool
  pub can_view_evidences : Bool
  pub can_manage_users : Bool
  pub can_configure_wowza : Bool
  pub can_view_audit_log : Bool
  pub can_download_reports : Bool
  pub can_manage_permissions : Bool

pub record Role : Type 0 where
  pub id : String
  pub name : String
  pub description : Option String
  pub permissions : Option RolePermissions
  pub is_system : Bool

-- A user is loaded with its role; dates are milliseconds.
pub record User : Type 0 where
  pub id : String
  pub email : String
  pub password_hash : String
  pub first_name : String
  pub last_name : String
  pub id_type : Option String
  pub id_number : Option String
  pub cargo : Option String
  pub zone_id : Option String
  pub quadrant_id : Option String
  pub is_active : Bool
  pub role : Role
  pub created_at : ℕ
  pub updated_at : ℕ

-- A session is loaded with its user. Here it keeps the user as of the login: what the code joins is
-- the user as it is at the query.
pub record Session : Type 0 where
  pub id : String
  pub user : User
  pub token_hash : String
  pub refresh_token_hash : String
  pub ip_address : Option String
  pub user_agent : Option String
  pub expires_at : ℕ
  pub created_at : ℕ

abbrev pub user_id : User → String
user_id u = u.id

abbrev pub role_id : Role → String
role_id r = r.id

abbrev pub session_id : Session → String
session_id s = s.id

-- `jwt.secret`, `jwt.refreshSecret` and `jwt.refreshExpiresIn`.
pub record JwtSettings : Type 0 where
  pub secret : Option String
  pub refresh_secret : Option String
  pub refresh_expires_in : Option String

pub record Env : Type 1 where
  pub users : Repository User user_id
  pub roles : Repository Role role_id
  pub sessions : Repository Session session_id
  pub redis : RedisClient
  pub tokens : Tokens
  pub jwt : JwtSettings

pub record Backend (env : Env) : Type 0 where
  pub users : env.users.Table
  pub roles : env.roles.Table
  pub sessions : env.sessions.Table
  pub redis : RedisService env.redis
  pub audit : List AuditLog
  pub sent : List Emission
