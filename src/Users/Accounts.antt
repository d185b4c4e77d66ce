-- ===== src/Users/Accounts.antt =====
-- The account operations of src/modules/users/users.service.ts: deactivation, passwords, the own
-- profile and removal.
use mediavault_backend.Prelude.{
  ℕ, String, Bool, true, false, ◌&&◌, ◌||◌, not, none, some, List, [], ◌∷◌, map, ◌==◌,
  if◌then◌else◌, get_or, leb, ltb, length, filter, any, Action, ◌>>=◌, ◌>>◌, pure, state, modify,
  throw_if, or_throw, not_found, bad_request, unauthorized,
}
use mediavault_backend.Platform.Repository.{by_key}
use mediavault_backend.Audit.{log, text}
use mediavault_backend.Backend.{User, user_id, Env, Backend}
use mediavault_backend.Auth.{is_text}
use mediavault_backend.Security.{active_of, revoke_all_user_sessions}
use mediavault_backend.Users.Requests.{ChangePasswordDto, UpdateProfileDto, UserResponse, to_dto}
use mediavault_backend.Users.{bcrypt_rounds, is_active_admin, audit_user, find_user, save_user}

module _ (env : Env) where
  -- The test that `deactivate` and `remove` share.
  abbrev pub is_last_admin : User → Backend env → Bool
  is_last_admin u b = u.role.name == "admin" && leb (env.users.count is_active_admin b.users) 1

  unfoldable pub deactivate : ℕ → String → String → Action (Backend env) (Unit {0})
  deactivate now id admin = do
    b ← state
    u ← or_throw (find_user env id b) not_found
    throw_if (id == admin) bad_request
    throw_if (is_last_admin u b) bad_request
    modify (save_user env (record u { is_active = false }))
    modify (λ b. (revoke_all_user_sessions env now id admin b).0)
    modify (audit_user env "USER_DEACTIVATED" id admin)

  unfoldable pub activate : String → String → Action (Backend env) (Unit {0})
  activate id admin = do
    b ← state
    u ← or_throw (find_user env id b) not_found
    throw_if u.is_active bad_request
    modify (save_user env (record u { is_active = true }))
    modify (audit_user env "USER_ACTIVATED" id admin)

  unfoldable pub change_password_by_admin :
      ℕ → String → ChangePasswordDto → String → Action (Backend env) (Unit {0})
  change_password_by_admin now target dto admin = do
    b ← state
    u ← or_throw (find_user env target b) not_found
    modify (
        save_user env
          (record u { password_hash = env.tokens.bcrypt_hash dto.new_password bcrypt_rounds }))
    modify (λ b. (revoke_all_user_sessions env now target admin b).0)
    modify (λ b. record b {
      audit =
          log
            (record {
              action = "PASSWORD_CHANGED_BY_ADMIN";
              entity_type = some "User";
              entity_id = some target;
              user_id = some admin;
              ip_address = none;
              metadata = some (("targetUserId", text target) ∷ []);
            })
            b.audit;
    })

  -- The ids of the user's active sessions but for the current one.
  abbrev pub other_ids : ℕ → String → String → Backend env → List String
  other_ids now uid sid b =
      map (λ s. s.id)
        (filter (λ s. not (s.id == sid)) (env.sessions.find (active_of env now uid) b.sessions))

  abbrev pub delete_sessions : List String → Backend env → Backend env
  delete_sessions ids b =
      if ltb 0 (length ids)
      then record b { sessions = env.sessions.delete (λ s. any (λ i. i == s.id) ids) b.sessions }
      else b

  unfoldable pub change_own_password :
      ℕ → String → ChangePasswordDto → String → Action (Backend env) (Unit {0})
  change_own_password now uid dto sid = do
    b ← state
    throw_if (not (is_text dto.confirm_password dto.new_password)) bad_request
    u ← or_throw (find_user env uid b) not_found
    throw_if (not (env.tokens.bcrypt_compare (get_or dto.current_password "") u.password_hash))
        unauthorized
    modify (
        save_user env
          (record u { password_hash = env.tokens.bcrypt_hash dto.new_password bcrypt_rounds }))
    modify (λ b. delete_sessions (other_ids now uid sid b) b)
    modify (audit_user env "PASSWORD_CHANGED_BY_USER" uid uid)

  unfoldable pub update_profile : String → UpdateProfileDto → Action (Backend env) UserResponse
  update_profile uid dto = do
    b ← state
    u ← or_throw (find_user env uid b) not_found
    let u' = record u {
      first_name = get_or dto.first_name u.first_name;
      last_name = get_or dto.last_name u.last_name;
    }
    modify (save_user env u')
    modify (audit_user env "PROFILE_UPDATED" uid uid)
    pure (to_dto u' 0 none)

  unfoldable pub remove : ℕ → String → String → Action (Backend env) (Unit {0})
  remove now id admin = do
    b ← state
    u ← or_throw (find_user env id b) not_found
    throw_if (id == admin) bad_request
    throw_if (is_last_admin u b) bad_request
    modify (λ b. (revoke_all_user_sessions env now id admin b).0)
    modify (audit_user env "USER_DELETED" id admin)
    modify (λ b. record b { users = env.users.delete (by_key user_id id) b.users })

  -- `getUserAuditHistory` without the query: who may ask.
  unfoldable pub may_see_history : String → String → String → Bool
  may_see_history uid requester role = role == "admin" || requester == uid
