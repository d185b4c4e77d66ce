-- ===== src/Seeds.antt =====
-- src/database/seeds: the roles, in src/database/seeds/roles.seed.ts, and the first administrator, in
-- src/database/seeds/admin.seed.ts. The ids of new rows and the time are arguments.
use mediavault_backend.Prelude.{
  ℕ, String, Bool, true, false, Option, none, some, List, [], ◌∷◌, ◌==◌, ◌≡◌, arith, Option-cases,
  inl, inr, eq_refl, if◌then◌else◌,
}
use mediavault_backend.Platform.Repository.{by_key}
use mediavault_backend.Backend.{User, Role, RolePermissions, user_id, Env, Backend}
use mediavault_backend.Users.{bcrypt_rounds}

abbrev pub permissions : Bool → Bool → Bool → Bool → RolePermissions
permissions devices evidences administration streams = record {
  can_view_streams = streams;
  can_manage_devices = devices;
  can_view_evidences = evidences;
  can_manage_users = administration;
  can_configure_wowza = administration;
  can_view_audit_log = administration;
  can_download_reports = administration;
  can_manage_permissions = administration;
}

-- `DEFAULT_PERMISSIONS`.
unfoldable pub default_permissions : String → Option RolePermissions
default_permissions name =
    if name == "admin"
    then some (permissions true true true true)
    else if name == "superadmin"
    then some (permissions true true true true)
    else if name == "supervisor"
    then some (permissions true true false true)
    else if name == "operator"
    then some (permissions true false false true)
    else if name == "viewer"
    then some (permissions false false false true)
    else none

abbrev pub has_name : String → Role → Bool
has_name name r = r.name == name

abbrev pub has_email : String → User → Bool
has_email email u = u.email == email

-- The id of a new row, the name and the description.
abbrev pub role_defs : (String → String) → List (String × String × String)
role_defs new_id =
    (new_id "admin", "admin", "Administrador del sistema")
    ∷ (new_id "supervisor", "supervisor", "Supervisor de operación")
    ∷ (new_id "operator", "operator", "Operador de evidencia")
    ∷ (new_id "viewer", "viewer", "Usuario de solo lectura")
    ∷ []

module _ (env : Env) where
  abbrev with_defaults : String → Role → Role
  with_defaults name r = record r { permissions = default_permissions name }

  -- An empty object counts as no permissions.
  abbrev pub seed_role : String → String → String → env.roles.Table → env.roles.Table
  seed_role id name description t = elim (env.roles.find_one (has_name name) t) [
    | none ↦
        env.roles.save
          (record {
            id = id;
            name = name;
            description = some description;
            permissions = default_permissions name;
            is_system = false;
          })
          t
    | some r ↦ elim r.permissions [
      | none ↦ env.roles.update (has_name name) (with_defaults name) t
      | some p ↦ t
    ]
  ]

  unfoldable pub seed_roles : List (String × String × String) → env.roles.Table → env.roles.Table
  seed_roles [] t = t
  seed_roles ((id, name, description) ∷ defs) t = seed_roles defs (seed_role id name description t)

  abbrev pub admin_email : String
  admin_email = "admin@mediavault.local"

  abbrev pub first_admin : ℕ → String → Role → User
  first_admin now id role = record {
    id = id;
    email = admin_email;
    password_hash = env.tokens.bcrypt_hash "Admin1234!" bcrypt_rounds;
    first_name = "Admin";
    last_name = "System";
    id_type = none;
    id_number = none;
    cargo = none;
    zone_id = none;
    quadrant_id = none;
    is_active = true;
    role = role;
    created_at = now;
    updated_at = now;
  }

  unfoldable pub seed_admin : ℕ → String → Backend env → Backend env
  seed_admin now id b = elim (env.roles.find_one (has_name "admin") b.roles) [
    | none ↦ b
    | some role ↦ elim (env.users.find_one (has_email admin_email) b.users) [
      | some u ↦ b
      | none ↦ record b { users = env.users.save (first_admin now id role) b.users }
    ]
  ]

  -- The saved administrator is found by its address.
  admin_found :
      (now : ℕ) (id : String) (role : Role) (t : env.users.Table)
      → (u : User) × (env.users.find_one
            (has_email admin_email)
            (env.users.save (first_admin now id role) t)
          ≡ some u)
  admin_found now id role t =
      let after = env.users.save (first_admin now id role) t in
      elim (Option-cases (env.users.find_one (has_email admin_email) after)) [
        | inr found ↦ found
        | inl missing ↦
            let stored : env.users.find_one (by_key user_id id) after
                ≡ some (first_admin now id role) =
              ground (arith, env.users.find_one-save id (first_admin now id role) t, eq_refl id) in
            absurd (
              ground (
                arith,
                env.users.find_one-complete (has_email admin_email) after id
                    (first_admin now id role) missing stored,
                eq_refl admin_email,
              ))
      ]

  -- A second run of the seed of the administrator, at any time and with any new id, changes nothing.
  seed_admin_again :
      (now later : ℕ) (id id' : String) (b : Backend env)
      → seed_admin later id' (seed_admin now id b) ≡ seed_admin now id b
  unfolding seed_admin
  seed_admin_again now later id id' b =
      elim (Option-cases (env.roles.find_one (has_name "admin") b.roles)) [
        | inl n ↦ ground arith
        | inr (role, r) ↦ elim (Option-cases (env.users.find_one (has_email admin_email) b.users)) [
          | inr (u, e) ↦ ground arith
          | inl n ↦ let (u, f) = admin_found now id role b.users in ground (arith, f)
        ]
      ]
