-- ===== src/Roles.antt =====
-- src/modules/users/roles.service.ts, over the table of roles. The id of a new row is an argument.
pub mod Permissions
use mediavault_backend.Prelude.{
  String, Bool, true, false, ◌&&◌, ◌||◌, not, Option, none, some, ◌==◌, if◌then◌else◌, get_or,
  Action, ◌>>=◌, ◌>>◌, pure, state, modify, throw_if, or_throw, not_found, conflict, forbidden,
  is_some,
}
use mathlib.Core.Bool.{xor}
use mediavault_backend.Platform.Repository.{by_key}
use mediavault_backend.Backend.{Role, RolePermissions, role_id, Env, Backend}

abbrev pub empty_permissions : RolePermissions
empty_permissions = record {
  can_view_streams = false;
  can_manage_devices = false;
  can_view_evidences = false;
  can_manage_users = false;
  can_configure_wowza = false;
  can_view_audit_log = false;
  can_download_reports = false;
  can_manage_permissions = false;
}

pub record CreateRoleDto : Type 0 where
  pub name : String
  pub description : Option String

pub record UpdateRoleDto : Type 0 where
  pub name : Option String
  pub description : Option String

-- `permissions.canManagePermissions !== current['canManagePermissions']`, where a role without
-- permissions has none to compare with.
abbrev pub changes_management : RolePermissions → Option RolePermissions → Bool
changes_management p none = true
changes_management p (some q) = xor p.can_manage_permissions q.can_manage_permissions

-- `dto.name && dto.name !== role.name`.
abbrev pub renames : Option String → Role → Bool
renames none r = false
renames (some n) r = not (n == "") && not (n == r.name)

abbrev pub or_description : Option String → Option String → Option String
or_description none old = old
or_description (some d) old = some d

module _ (env : Env) where
  abbrev pub find_role : String → Backend env → Option Role
  find_role id b = env.roles.find_one (by_key role_id id) b.roles

  abbrev named : String → Backend env → Option Role
  named n b = env.roles.find_one (λ r. r.name == n) b.roles

  abbrev save_role : Role → Backend env → Backend env
  save_role r b = record b { roles = env.roles.save r b.roles }

  unfoldable pub create : String → CreateRoleDto → Action (Backend env) Role
  create id dto = do
    b ← state
    throw_if (is_some (named dto.name b)) conflict
    let role : Role = record {
      id = id;
      name = dto.name;
      description = dto.description;
      permissions = some empty_permissions;
      is_system = false;
    }
    modify (save_role role)
    pure role

  unfoldable pub update : String → UpdateRoleDto → Action (Backend env) Role
  update id dto = do
    b ← state
    r ← or_throw (find_role id b) not_found
    throw_if r.is_system forbidden
    throw_if (renames dto.name r && is_some (named (get_or dto.name "") b)) conflict
    let r' = record r {
      name = if renames dto.name r then get_or dto.name "" else r.name;
      description = or_description dto.description r.description;
    }
    modify (save_role r')
    pure r'

  unfoldable pub update_permissions : String → RolePermissions → String → Action (Backend env) Role
  update_permissions id p actor = do
    b ← state
    r ← or_throw (find_role id b) not_found
    throw_if (r.name == "admin" || r.name == "superadmin") forbidden
    throw_if (changes_management p r.permissions && not (actor == "superadmin")) forbidden
    let r' = record r { permissions = some p }
    modify (save_role r')
    pure r'

  unfoldable pub remove : String → Action (Backend env) (Unit {0})
  remove id = do
    b ← state
    r ← or_throw (find_role id b) not_found
    throw_if r.is_system forbidden
    modify (λ b. record b { roles = env.roles.delete (by_key role_id id) b.roles })
