-- ===== src/Roles/Permissions.antt =====
-- What src/modules/users/roles.service.ts protects: the system roles, and the permission to manage
-- permissions.
use mediavault_backend.Prelude.{
  String, true, false, some, ◌==◌, ◌≡◌, ◌⊎◌, arith, ok, err, forbidden, eq_iff, if◌then◌else◌, ap,
}
use mediavault_backend.Platform.Repository.Laws.{find_one-key}
use mediavault_backend.Backend.{Role, RolePermissions, Env, Backend}
use mediavault_backend.Roles.{
  UpdateRoleDto, find_role, update, update_permissions, remove, changes_management,
}

module _ (env : Env) (id : String) (b : Backend env) (r : Role)
    (found : find_role env id b ≡ some r) where
  -- A system role is neither updated nor removed: both answer 403 and change nothing.
  system_role_protected :
      (dto : UpdateRoleDto)
      → r.is_system ≡ true
      → (update env id dto b ≡ (b, err forbidden)) × (remove env id b ≡ (b, err forbidden))
  unfolding update remove
  system_role_protected dto system = ground arith

  -- A change of permissions that succeeds is not one of `admin` or `superadmin`; it leaves the
  -- permission to manage permissions as it was, unless the actor is a superadmin; and it stores the
  -- permissions given, in that role alone.
  update_permissions_lem :
      (p : RolePermissions) (actor : String) (r' : Role)
      → (update_permissions env id p actor b).1 ≡ ok r'
      → ((r.name == "admin") ≡ false)
        × ((r.name == "superadmin") ≡ false)
        × ((changes_management p r.permissions ≡ false) ⊎ (actor ≡ "superadmin"))
        × ((k : String)
            → find_role env k (update_permissions env id p actor b).0
              ≡ (if id == k then some (record r { permissions = some p }) else find_role env k b))
  unfolding update_permissions
  update_permissions_lem p actor r' done = (
    ground arith,
    ground arith,
    ground (arith, eq_iff actor "superadmin"),
    λ k. ground (
      arith,
      found,
      env.roles.find_one-save k (record r { permissions = some p }) b.roles,
      find_one-key env.roles b.roles id r found,
      ap (λ (j : String). j == k) (find_one-key env.roles b.roles id r found),
    ),
  )
