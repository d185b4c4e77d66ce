-- ===== src/Users/Admins.antt =====
-- The guard of src/modules/users/users.service.ts on the last administrator: which operations keep
-- an active administrator, and which one does not.
use mediavault_backend.Prelude.{
  ℕ, ◌+◌, ◌≤◌, String, true, false, none, some, ◌≡◌, refl, arith, ok, Option-cases, inl, inr,
  if◌then◌else◌, ap, ◌∙◌,
}
use mediavault_backend.Platform.Repository.{by_key, holds}
use mediavault_backend.Platform.Repository.Laws.{find_one-key}
use mediavault_backend.Backend.{User, user_id, Env, Backend}
use mediavault_backend.Security.{revoke_all_user_sessions}
use mediavault_backend.Users.Requests.{UpdateUserDto, to_dto}
use mediavault_backend.Users.{is_active_admin, find_user, change_role, with_fields, update}
use mediavault_backend.Users.Accounts.{deactivate, remove}

-- How many users are active administrators.
abbrev pub admin_count : (env : Env) → Backend env → ℕ
admin_count env b = env.users.count is_active_admin b.users

module _ (env : Env) (id : String) (b : Backend env) (u : User)
    (found : find_user env id b ≡ some u) where
  found_again : env.users.find_one (by_key user_id u.id) b.users ≡ some u
  found_again =
      ap (λ (k : String). env.users.find_one (by_key user_id k) b.users)
        (find_one-key env.users b.users id u found)
      ∙ found

  -- The number of active administrators once the user is saved anew.
  pub count_save :
      (v : User)
      → v.id ≡ u.id
      → env.users.count is_active_admin (env.users.save v b.users)
          + (if is_active_admin u then 1 else 0)
        ≡ admin_count env b + (if is_active_admin v then 1 else 0)
  count_save v same =
      rw
        (ap (holds is_active_admin)
          (ap (λ (k : String). env.users.find_one (by_key user_id k) b.users) same ∙ found_again))
        at (env.users.count-save is_active_admin v b.users)

  -- And once it is deleted.
  pub count_delete :
      env.users.count is_active_admin (env.users.delete (by_key user_id id) b.users)
        + (if is_active_admin u then 1 else 0)
      ≡ admin_count env b
  count_delete =
      rw (ap (holds is_active_admin) found) at (env.users.count-delete is_active_admin id b.users)

module _ (env : Env) (now : ℕ) (id admin : String) (b : Backend env) where
  deactivate-keeps_admin :
      1 ≤ admin_count env b → 1 ≤ admin_count env (deactivate env now id admin b).0
  unfolding deactivate revoke_all_user_sessions
  deactivate-keeps_admin h = elim (Option-cases (find_user env id b)) [
    | inl e ↦ ground arith
    | inr (u, e) ↦ ground (arith, count_save env id b u e (record u { is_active = false }) refl)
  ]

  remove-keeps_admin : 1 ≤ admin_count env b → 1 ≤ admin_count env (remove env now id admin b).0
  unfolding remove revoke_all_user_sessions
  remove-keeps_admin h = elim (Option-cases (find_user env id b)) [
    | inl e ↦ ground arith
    | inr (u, e) ↦ ground (arith, count_delete env id b u e)
  ]

  -- While there is an active administrator, neither a deactivation nor a removal takes the last
  -- one away, whether it succeeds or not.
  pub keeps_admin :
      1 ≤ admin_count env b
      → (1 ≤ admin_count env (deactivate env now id admin b).0)
        × (1 ≤ admin_count env (remove env now id admin b).0)
  keeps_admin h = (deactivate-keeps_admin h, remove-keeps_admin h)

-- An update of the only active administrator that sets `isActive` to false and
-- neither the role nor the number succeeds, and leaves none.
pub update_drops_last_admin :
    (env : Env) (now : ℕ) (uuid id admin : String) (dto : UpdateUserDto) (b : Backend env)
    (u : User)
    → find_user env id b ≡ some u
    → is_active_admin u ≡ true
    → admin_count env b ≡ 1
    → dto.role ≡ none
    → dto.id_number ≡ none
    → dto.is_active ≡ some false
    → ((update env now uuid id dto admin b).1 ≡ ok (to_dto (with_fields env dto u) 0 none))
      × (admin_count env (update env now uuid id dto admin b).0 ≡ 0)
unfolding update change_role
update_drops_last_admin env now uuid id admin dto b u found active one role number off =
    (ground arith, ground (arith, count_save env id b u found (with_fields env dto u) refl))
