-- ===== src/Security/Everywhere.antt =====
-- The revocation of all sessions of a user in src/modules/security/security.service.ts: no session
-- of the user can be refreshed after it.
use mathlib.Core.List.{Memᴰ}
use mediavault_backend.Prelude.{
  ℕ, ◌<◌, String, List, [], ◌∷◌, ◌≡◌, refl, arith, err, unauthorized, Option-cases, Bool-cases, inl,
  inr, ap, ◌∙◌, ◌⊎◌,
}
use mediavault_backend.Platform.Repository.Laws.{find_one-deleted}
use mediavault_backend.Backend.{Session, Env, Backend}
use mediavault_backend.Auth.{refresh, session_of, of_user}
use mediavault_backend.Auth.Sessions.{refresh-absent}
use mediavault_backend.Security.{active_of, revoke_all_user_sessions}

no_member : {A : Type 0} {a : A} (l : List A) → l ≡ [] → Memᴰ a l → ⊥
no_member [] e m = elim m [ ]
no_member (x ∷ l) e m = cc

module _ (env : Env) (now later : ℕ) (uid sid : String) (b : Backend env) where
  -- With no active session of the user, none can be refreshed later.
  refresh-expired :
      now < later
      → env.sessions.find (active_of env now uid) b.sessions ≡ []
      → refresh env later uid sid b ≡ (b, err unauthorized)
  unfolding refresh
  refresh-expired h quiet =
      elim (Option-cases (env.sessions.find_one (session_of env uid sid) b.sessions)) [
        | inl e ↦ rw e refl
        | inr (s, e) ↦
            let (passes, here) =
              env.sessions.find_one-sound (session_of env uid sid) b.sessions s e in
            elim (Bool-cases (active_of env now uid s)) [
              | inl active ↦ absurd (
                  no_member _ quiet (
                    env.sessions.find-complete (active_of env now uid) b.sessions s.id s here
                      active))
              | inr over ↦ rw e (ground arith)
            ]
      ]

module _ (env : Env) (now later : ℕ) (uid admin sid : String) (b : Backend env) where
  revoke_all-sessions_none :
      env.sessions.find (active_of env now uid) b.sessions ≡ []
      → (revoke_all_user_sessions env now uid admin b).0.sessions ≡ b.sessions
  unfolding revoke_all_user_sessions
  revoke_all-sessions_none e = rw e refl

  revoke_all-sessions_some :
      (s : Session) (ss : List Session)
      → env.sessions.find (active_of env now uid) b.sessions ≡ s ∷ ss
      → (revoke_all_user_sessions env now uid admin b).0.sessions
        ≡ env.sessions.delete (of_user env uid) b.sessions
  unfolding revoke_all_user_sessions
  revoke_all-sessions_some s ss e = rw e (ground arith)

  List-cases : {A : Type 0} (l : List A) → (l ≡ []) ⊎ ((x : A) × (r : List A) × (l ≡ x ∷ r))
  List-cases [] = inl refl
  List-cases (x ∷ r) = inr (x, r, refl)

  -- After all sessions of a user are revoked, none of them can be refreshed at any later time, also
  -- in a state that has only its sessions in common with the one that the revocation left.
  pub refresh-revoke_all :
      (b' : Backend env)
      → b'.sessions ≡ (revoke_all_user_sessions env now uid admin b).0.sessions
      → now < later
      → refresh env later uid sid b' ≡ (b', err unauthorized)
  refresh-revoke_all b' same h =
      elim (List-cases (env.sessions.find (active_of env now uid) b.sessions)) [
        | inl e ↦
            refresh-expired env now later uid sid b' h (
              ap (env.sessions.find (active_of env now uid)) (same ∙ revoke_all-sessions_none e)
              ∙ e)
        | inr (s, ss, e) ↦ refresh-absent env later uid sid b' (
            rw (same ∙ revoke_all-sessions_some s ss e) (
              find_one-deleted env.sessions (session_of env uid sid) (of_user env uid) b.sessions
                λ r p. ground arith))
      ]
