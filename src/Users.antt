-- ===== src/Users.antt =====
-- src/modules/users/users.service.ts: the operations that change users, over the shared state. The
-- id of a new row, the alert's id and the time are arguments; `updatedAt` is left to the database.
pub mod Requests
pub mod Accounts
pub mod Admins
pub mod Lockout
pub mod Listing
pub mod History
use mediavault_backend.Prelude.{
  ℕ, String, Bool, true, false, ◌&&◌, ◌||◌, not, Option, none, some, List, [], ◌∷◌, map, ◌==◌,
  if◌then◌else◌, get_or, leb, ltb, length, filter, any, Action, ◌>>=◌, ◌>>◌, pure, state, modify,
  throw, throw_if, or_throw, not_found, conflict, bad_request, unauthorized, forbidden, ok, err,
}
use mediavault_backend.Platform.Repository.{by_key}
use mediavault_backend.Audit.{AuditLog, log, text, texts}
use mediavault_backend.Gateway.Emissions.{warning, auth, emit_alert}
use mediavault_backend.Backend.{User, Role, Session, user_id, session_id, Env, Backend}
use mediavault_backend.Auth.{is_text}
use mediavault_backend.Security.{active_of, revoke_all_user_sessions}
use Requests.{
  CreateUserDto, UpdateUserDto, ChangePasswordDto, UpdateProfileDto, UserResponse, to_dto,
}

abbrev pub bcrypt_rounds : ℕ
bcrypt_rounds = 12

-- `if (dto.x !== undefined) user.x = dto.x` for an optional column.
abbrev pub or_column : Option String → Option String → Option String
or_column none old = old
or_column (some s) old = some s

-- `role.name = 'admin' AND u.isActive = true`.
abbrev pub is_active_admin : User → Bool
is_active_admin u = u.role.name == "admin" && u.is_active

module _ (env : Env) where
  -- `auditService.log` with an entity of type `User`.
  abbrev pub audit_user : String → String → String → Backend env → Backend env
  audit_user action target actor b = record b {
    audit =
        log
          (record {
            action = action;
            entity_type = some "User";
            entity_id = some target;
            user_id = some actor;
            ip_address = none;
            metadata = none;
          })
          b.audit;
  }

  abbrev pub find_user : String → Backend env → Option User
  find_user id b = env.users.find_one (by_key user_id id) b.users

  abbrev pub save_user : User → Backend env → Backend env
  save_user u b = record b { users = env.users.save u b.users }

  -- Another user has the number.
  abbrev number_taken : Option String → Backend env → Option User
  number_taken none b = none
  number_taken (some n) b =
      if n == "" then none else env.users.find_one (λ u. is_text u.id_number n) b.users

  abbrev is_some_user : Option User → Bool
  is_some_user none = false
  is_some_user (some u) = true

  abbrev new_user : ℕ → String → CreateUserDto → Role → User
  new_user now id dto role = record {
    id = id;
    email = lowered dto.email;
    password_hash = env.tokens.bcrypt_hash dto.password bcrypt_rounds;
    first_name = dto.first_name;
    last_name = dto.last_name;
    id_type = dto.id_type;
    id_number = dto.id_number;
    cargo = dto.cargo;
    zone_id = none;
    quadrant_id = none;
    is_active = get_or dto.is_active true;
    role = role;
    created_at = now;
    updated_at = now;
  }
    where
      lowered : Option String → String
      lowered none = ""
      lowered (some e) = if e == "" then "" else env.tokens.to_lower_case e

  unfoldable pub create : ℕ → String → CreateUserDto → String → Action (Backend env) UserResponse
  create now id dto admin = do
    b ← state
    role ← or_throw (env.roles.find_one (λ r. r.name == dto.role) b.roles) not_found
    throw_if (is_some_user (number_taken dto.id_number b)) conflict
    modify (save_user (new_user now id dto role))
    modify (λ b. record b {
      audit =
          log
            (record {
              action = "USER_CREATED";
              entity_type = some "User";
              entity_id = some id;
              user_id = some admin;
              ip_address = none;
              metadata = some (
                  ("newUserId", text id)
                  ∷ ("role", text dto.role)
                  ∷ ("createdByAdmin", text admin)
                  ∷ []);
            })
            b.audit;
    })
    pure (to_dto (new_user now id dto role) 0 none)

  abbrev role_alert : ℕ → String → Bool → Backend env → Backend env
  role_alert now uuid active b =
      if active
      then record b {
        sent =
            emit_alert
              (record {
                id = uuid;
                level = warning;
                category = auth;
                title = "Rol modificado";
                message = "Rol de usuario modificado con sesiones activas";
                stream_id = none;
                timestamp = now;
              })
              b.sent;
      }
      else b

  abbrev assign_role : ℕ → String → String → User → Action (Backend env) User
  assign_role now uuid name u = do
    b ← state
    r ← or_throw (env.roles.find_one (λ r. r.name == name) b.roles) not_found
    modify (role_alert now uuid (ltb 0 (env.sessions.count (active_of env now u.id) b.sessions)))
    pure (record u { role = r })

  -- The part of `update` under `if (dto.role)`: the user with its role.
  unfoldable pub change_role : ℕ → String → Option String → User → Action (Backend env) User
  change_role now uuid none u = pure u
  change_role now uuid (some name) u = if name == "" then pure u else assign_role now uuid name u

  -- `existingId && existingId.id !== id`.
  abbrev taken_by_other : String → Option User → Bool
  taken_by_other id none = false
  taken_by_other id (some u) = not (u.id == id)

  abbrev pub with_fields : UpdateUserDto → User → User
  with_fields dto u = record u {
    first_name = get_or dto.first_name u.first_name;
    last_name = get_or dto.last_name u.last_name;
    is_active = get_or dto.is_active u.is_active;
    id_type = or_column dto.id_type u.id_type;
    id_number = or_column dto.id_number u.id_number;
    cargo = or_column dto.cargo u.cargo;
    zone_id = or_column dto.zone_id u.zone_id;
    quadrant_id = or_column dto.quadrant_id u.quadrant_id;
  }

  unfoldable pub update :
      ℕ → String → String → UpdateUserDto → String → Action (Backend env) UserResponse
  update now uuid id dto admin = do
    b ← state
    u ← or_throw (find_user id b) not_found
    u' ← change_role now uuid dto.role u
    b' ← state
    throw_if (taken_by_other id (number_taken dto.id_number b')) conflict
    modify (save_user (with_fields dto u'))
    modify (λ b. record b {
      audit =
          log
            (record {
              action = "USER_UPDATED";
              entity_type = some "User";
              entity_id = some id;
              user_id = some admin;
              ip_address = none;
              metadata = some (("changes", texts dto.keys) ∷ ("targetUserId", text id) ∷ []);
            })
            b.audit;
    })
    pure (to_dto (with_fields dto u') 0 none)
