-- ===== src/Examples/Accounts.antt =====
-- The theorems on users, roles and revocations at a backend with an operator and an administrator.
use mediavault_backend.Prelude.{◌≤◌, false, none, some, [], ◌≡◌, refl, arith, ok, err, unauthorized}
use mediavault_backend.Platform.Repository.{by_key}
use mediavault_backend.Backend.{session_id}
use mediavault_backend.Auth.{
  refresh, login, find_login_user, new_session, sign_access, sign_refresh,
}
use mediavault_backend.Security.{revoke_all_user_sessions}
use mediavault_backend.Users.{find_user, change_role, with_fields, update}
use mediavault_backend.Users.Requests.{UpdateUserDto, ChangePasswordDto, to_dto}
use mediavault_backend.Users.Accounts.{deactivate, remove, change_own_password}
use mediavault_backend.Users.Admins.{admin_count, keeps_admin, update_drops_last_admin}
use mediavault_backend.Users.Lockout.{deactivate_locks_out, change_own_password_lem}
use mediavault_backend.Roles as Roles
use mediavault_backend.Examples.Tables.{first, visible, without}
use mediavault_backend.Examples.Server.{env, ana, root}
use mediavault_backend.Examples.Revocations.{online, online_session, saved}

reading : Unit {0}
unfolding login first visible without find_login_user new_session sign_access sign_refresh update
    deactivate remove change_role Roles.update_permissions change_own_password
    revoke_all_user_sessions
reading = tt

one_admin : 1 ≤ admin_count env online
unfolding reading
one_admin = omega arith

keeps_admin_example :
    (1 ≤ admin_count env (deactivate env 20 "u0" "u1" online).0)
    × (1 ≤ admin_count env (remove env 20 "u0" "u1" online).0)
keeps_admin_example = keeps_admin env 20 "u0" "u1" online one_admin

abbrev off : UpdateUserDto
off = record {
  first_name = none;
  last_name = none;
  role = none;
  is_active = some false;
  id_type = none;
  id_number = none;
  cargo = none;
  zone_id = none;
  quadrant_id = none;
  keys = [];
}

update_drops_last_admin_example :
    ((update env 20 "x" "u0" off "u0" online).1 ≡ ok (to_dto (with_fields env off root) 0 none))
    × (admin_count env (update env 20 "x" "u0" off "u0" online).0 ≡ 0)
update_drops_last_admin_example =
    update_drops_last_admin env 20 "x" "u0" "u0" off online root (unfold reading in refl)
      (unfold reading in refl) (unfold reading in refl) refl refl refl

abbrev passwords : ChangePasswordDto
passwords = record {
  current_password = some "pw";
  new_password = "secret";
  confirm_password = some "secret";
}

deactivate_locks_out_example :
    let b' = (deactivate env 20 "u1" "u0" online).0 in
    (find_user env "u1" b' ≡ some (record ana { is_active = false }))
    × (refresh env 30 "u1" "k1" b' ≡ (b', err unauthorized))
deactivate_locks_out_example =
    deactivate_locks_out env 20 30 "u1" "u0" "k1" online ana (unfold reading in refl)
      (unfold reading in refl) (omega arith)

change_own_password_lem_example :
    env.sessions.find_one
      (by_key session_id "k1")
      (change_own_password env 20 "u1" passwords "k2" online).0.sessions
    ≡ none
change_own_password_lem_example =
    change_own_password_lem env 20 "u1" "k2" passwords online "k1" saved (unfold reading in refl)
      online_session (unfold reading in refl) (unfold reading in omega arith)
