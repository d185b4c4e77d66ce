-- ===== src/Users/Lockout.antt =====
-- What happens to the sessions of a user that src/modules/users/users.service.ts deactivates, or
-- whose password it changes.
use mediavault_backend.Prelude.{
  subst, ℕ, ◌<◌, String, Bool, true, false, not, none, some, List, [], ◌∷◌, ◌≡◌, refl, arith, ok,
  err, Option-cases, Bool-cases, inl, inr, ◌==◌, if◌then◌else◌, eq_iff, ap, sym, ◌∙◌, any, map,
  filter, unauthorized, length, ltb,
}
use mathlib.Core.List.{Memᴰ}
use mediavault_backend.Platform.Repository.{by_key}
use mediavault_backend.Platform.Repository.Laws.{find_one-key}
use mediavault_backend.Backend.{User, Session, session_id, Env, Backend}
use mediavault_backend.Auth.{refresh}
use mediavault_backend.Security.{revoke_all_user_sessions, active_of}
use mediavault_backend.Security.Everywhere.{refresh-revoke_all}
use mediavault_backend.Users.{find_user, save_user, bcrypt_rounds}
use mediavault_backend.Users.Requests.{ChangePasswordDto}
use mediavault_backend.Users.Accounts.{
  deactivate, change_password_by_admin, change_own_password, other_ids, delete_sessions,
}

module _ (env : Env) (now later : ℕ) (id admin sid : String) (b : Backend env) (u : User)
    (found : find_user env id b ≡ some u) where
  -- After a deactivation that succeeds the user is inactive, and none of its sessions can be
  -- refreshed at any later time.
  pub deactivate_locks_out :
      (deactivate env now id admin b).1 ≡ ok tt
      → now < later
      → let b' = (deactivate env now id admin b).0 in
        (find_user env id b' ≡ some (record u { is_active = false }))
        × (refresh env later id sid b' ≡ (b', err unauthorized))
  unfolding deactivate
  deactivate_locks_out done h =
      let off = record u { is_active = false } in
      let saved = save_user env off b in
      (
        unfold revoke_all_user_sessions in
            ground (
              arith,
              found,
              env.users.find_one-save id off b.users,
              find_one-key env.users b.users id u found,
              eq_iff u.id id,
            ),
        refresh-revoke_all env now later id admin sid saved _ (ground (arith, found)) h,
      )

  -- After an administrator changes a password, none of the user's sessions can be refreshed at any
  -- later time, and the stored hash is that of the new password.
  change_password_by_admin_locks_out :
      (dto : ChangePasswordDto)
      → now < later
      → let b' = (change_password_by_admin env now id dto admin b).0 in
        (find_user env id b'
          ≡ some
              (record u { password_hash = env.tokens.bcrypt_hash dto.new_password bcrypt_rounds }))
        × (refresh env later id sid b' ≡ (b', err unauthorized))
  unfolding change_password_by_admin
  change_password_by_admin_locks_out dto h =
      let changed = record u {
        password_hash = env.tokens.bcrypt_hash dto.new_password bcrypt_rounds;
      } in
      (
        unfold revoke_all_user_sessions in
            ground (
              arith,
              found,
              env.users.find_one-save id changed b.users,
              find_one-key env.users b.users id u found,
              eq_iff u.id id,
            ),
        refresh-revoke_all env now later id admin sid (save_user env changed b) _
            (ground (arith, found)) h,
      )

any_inhabited : {A : Type 0} (p : A → Bool) (l : List A) → any p l ≡ true → ltb 0 (length l) ≡ true
any_inhabited p [] h = cc
any_inhabited p (x ∷ l) h = ground arith

others_spare :
    (sid : String) (l : List Session)
    → any (λ i. i == sid) (map (λ s. s.id) (filter (λ s. not (s.id == sid)) l)) ≡ false
others_spare sid [] = refl
others_spare sid (s ∷ l) = ground (arith, others_spare sid l)

others_hold :
    (sid : String) (s : Session) (l : List Session)
    → Memᴰ s l
    → (s.id == sid) ≡ false
    → any (λ i. i == s.id) (map (λ r. r.id) (filter (λ r. not (r.id == sid)) l)) ≡ true
others_hold sid s [] m h = elim m [ ]
others_hold sid s (r ∷ l) (Memᴰ.head e) h = ground (arith, e, eq_iff r.id s.id, ap session_id e)
others_hold sid s (r ∷ l) (Memᴰ.tail m) h = ground (arith, others_hold sid s l m h)

module _ (env : Env) (now : ℕ) (uid sid : String) (b : Backend env) (k : String) (s : Session)
    (stored : env.sessions.find_one (by_key session_id k) b.sessions ≡ some s) where
  delete_sessions-keeps :
      k ≡ sid
      → env.sessions.find_one
          (by_key session_id k)
          (delete_sessions env (other_ids env now uid sid b) b).sessions
        ≡ some s
  delete_sessions-keeps same =
      let ids = other_ids env now uid sid b in
      let spared = others_spare sid (env.sessions.find (active_of env now uid) b.sessions) in
      let key = find_one-key env.sessions b.sessions k s stored in
      let spares = subst (λ j. any (λ i. i == j) ids ≡ false) (sym same ∙ sym key) spared in
      ground (
        arith,
        stored,
        spares,
        env.sessions.find_one-delete k (λ (r : Session). any (λ (i : String). i == r.id) ids)
            b.sessions,
      )

  delete_sessions-drops :
      s.user.id ≡ uid
      → now < s.expires_at
      → (s.id == sid) ≡ false
      → env.sessions.find_one
          (by_key session_id k)
          (delete_sessions env (other_ids env now uid sid b) b).sessions
        ≡ none
  delete_sessions-drops owner active other =
      let held =
        others_hold sid s (env.sessions.find (active_of env now uid) b.sessions)
          (env.sessions.find-complete (active_of env now uid) b.sessions k s stored
            (ground (arith, eq_iff s.user.id uid)))
          other in
      ground (
        arith,
        stored,
        held,
        any_inhabited (λ (i : String). i == s.id) (other_ids env now uid sid b),
        env.sessions.find_one-delete k
            (λ (r : Session). any (λ (i : String). i == r.id) (other_ids env now uid sid b))
            b.sessions,
      )

change_own_password-sessions :
    (env : Env) (now : ℕ) (uid sid : String) (dto : ChangePasswordDto) (b : Backend env)
    → (change_own_password env now uid dto sid b).1 ≡ ok tt
    → (change_own_password env now uid dto sid b).0.sessions
      ≡ (delete_sessions env (other_ids env now uid sid b) b).sessions
unfolding change_own_password
change_own_password-sessions env now uid sid dto b done =
    elim (Option-cases (find_user env uid b)) [
      | inl e ↦ absurd (ground arith)
      | inr (u, e) ↦ ground arith
    ]

-- When a user changes its own password, the session in which it does so stays as it is, and its
-- other active sessions are gone.
pub change_own_password_lem :
    (env : Env) (now : ℕ) (uid sid : String) (dto : ChangePasswordDto) (b : Backend env)
    (k : String) (s : Session)
    → (change_own_password env now uid dto sid b).1 ≡ ok tt
    → env.sessions.find_one (by_key session_id k) b.sessions ≡ some s
    → s.user.id ≡ uid
    → now < s.expires_at
    → env.sessions.find_one
        (by_key session_id k)
        (change_own_password env now uid dto sid b).0.sessions
      ≡ (if k == sid then some s else none)
change_own_password_lem env now uid sid dto b k s done stored owner active =
    let same = change_own_password-sessions env now uid sid dto b done in
    let key = find_one-key env.sessions b.sessions k s stored in
    elim (Bool-cases (k == sid)) [
      | inl e ↦
          rw (same, e) (delete_sessions-keeps env now uid sid b k s stored ((eq_iff k sid).0 e))
      | inr e ↦
          rw (same, e) (delete_sessions-drops env now uid sid b k s stored owner active (rw key e))
    ]
