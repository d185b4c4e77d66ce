-- ===== src/Security/Sessions.antt =====
-- `getActiveSessions` and `getSessionDetail` of src/modules/security/security.service.ts. Dates of a
-- request are times.
use mathlib.Core.List.{Memᴰ}
use Prim.Native.String as String
use mediavault_backend.Prelude.{
  ℕ, ◌≤◌, String, Bool, true, false, Option, none, some, List, [], ◌∷◌, ◌&&◌, ◌==◌, ◌≡◌, map, ltb,
  leb, length, if◌then◌else◌, refl, ap, arith, not_found, Bool-cases, Option-cases, inl, inr,
  Result, ok, err,
}
use mediavault_backend.Platform.Repository.{Repository, by_key}
use mediavault_backend.Platform.Queries.{Queries, newest}
use mediavault_backend.Platform.Runtime.{Runtime}
use mediavault_backend.Paging.{take, when_given, when_defined, equals}
use mediavault_backend.Paging.Queried.{queried, queried-passes}
use mediavault_backend.Paging.Pages.{All-Memᴰ}
use mediavault_backend.Redis as Redis
use mediavault_backend.Audit.Listing.{AuditEntity, entity_key, AuditLogEntry, to_entry, oldest}
use mediavault_backend.Backend.{Session, session_id, Env, Backend}
use mediavault_backend.Auth.{blacklist_key, of_user}
use mediavault_backend.Security.{active_of, revoke_all_user_sessions}

pub record SessionFilters : Type 0 where
  pub user_id : Option String
  pub role : Option String
  pub from_date : Option ℕ

pub record SessionResponse : Type 0 where
  pub id : String
  pub user_id : String
  pub user_email : String
  pub user_name : String
  pub role : String
  pub ip_address : Option String
  pub user_agent : Option String
  pub expires_at : String
  pub created_at : String
  pub audit_entries : Option (List AuditLogEntry)
  pub is_blacklisted : Option Bool

-- The conditions of the query.
unfoldable pub is_listed : ℕ → SessionFilters → Session → Bool
is_listed now f s =
    ltb now s.expires_at
    && when_given f.user_id (λ id. s.user.id == id)
    && when_given f.role (λ r. s.user.role.name == r)
    && when_defined f.from_date (λ t. leb t s.created_at)

module _ (env : Env) (q : Queries) (rt : Runtime) (logs : Repository AuditEntity entity_key) where
  abbrev pub to_dto : Session → SessionResponse
  to_dto s = record {
    id = s.id;
    user_id = s.user.id;
    user_email = s.user.email;
    user_name = String.◌++◌ s.user.first_name (String.◌++◌ " " s.user.last_name);
    role = s.user.role.name;
    ip_address = s.ip_address;
    user_agent = s.user_agent;
    expires_at = rt.to_iso_string s.expires_at;
    created_at = rt.to_iso_string s.created_at;
    audit_entries = none;
    is_blacklisted = none;
  }

  unfoldable pub get_active_sessions : ℕ → SessionFilters → Backend env → List SessionResponse
  get_active_sessions now f b =
      map to_dto (
        queried env.sessions q (newest (λ (s : Session). s.created_at)) (is_listed now f)
          b.sessions)

  -- `entries` is the audit table.
  unfoldable pub get_session_detail : ℕ → String → logs.Table → Backend env → Result SessionResponse
  get_session_detail now id entries b =
      elim (env.sessions.find_one (by_key session_id id) b.sessions) [
        | none ↦ err not_found
        | some s ↦ ok (record (to_dto s) {
          audit_entries = some (
              map (to_entry logs q rt)
                (take 100 (queried logs q oldest (λ e. equals e.user_id s.user.id) entries)));
          is_blacklisted = some (Redis.exists env.redis now (blacklist_key s.token_hash) b.redis);
        })
      ]

  empty_of : {A : Type 0} (xs : List A) → ((x : A) → Memᴰ x xs → ⊥) → xs ≡ []
  empty_of [] h = refl
  empty_of (x ∷ xs) h = absurd (h x (Memᴰ.head refl))

  -- The table that a revocation of all sessions of a user leaves.
  abbrev left : ℕ → String → Backend env → env.sessions.Table
  left now target b =
      if ltb 0 (length (env.sessions.find (active_of env now target) b.sessions))
      then env.sessions.delete (of_user env target) b.sessions
      else b.sessions

  nonempty : {A : Type 0} (x : A) (xs : List A) → Memᴰ x xs → ltb 0 (length xs) ≡ true
  nonempty x [] m = elim m [ ]
  nonempty x (y ∷ ys) m = ground arith

  abbrev owned : String → Option Session → Bool
  owned target none = false
  owned target (some s) = s.user.id == target

  none_left :
      (now later : ℕ) (target : String) (b : Backend env) (x : Session)
      → now ≤ later
      → env.sessions.find_one (by_key session_id (session_id x)) (left now target b) ≡ some x
      → (x.user.id == target) ≡ true
      → ltb later x.expires_at ≡ true
      → ⊥
  none_left now later target b x le stored own live =
      let found = env.sessions.find (active_of env now target) b.sessions in
      elim (Bool-cases (ltb 0 (length found))) [
        | inl some_found ↦ gone x own (ground (arith, stored, some_found))
        | inr none_found ↦
            let here : env.sessions.find_one (by_key session_id (session_id x)) b.sessions
                ≡ some x =
              ground (arith, stored, none_found) in
            let m =
              env.sessions.find-complete (active_of env now target) b.sessions (session_id x) x here
                (ground arith) in
            absurd (ground (arith, nonempty x found m))
      ]
    where
      gone :
          (x : Session)
          → (x.user.id == target) ≡ true
          → env.sessions.find_one
              (by_key session_id (session_id x))
              (env.sessions.delete (of_user env target) b.sessions)
            ≡ some x
          → ⊥
      gone x own e =
          elim (Option-cases
            (env.sessions.find_one (by_key session_id (session_id x)) b.sessions)) [
              | inl n ↦ ground (
                arith,
                env.sessions.find_one-delete (session_id x) (of_user env target) b.sessions,
              )
              | inr (y, f) ↦ elim (Bool-cases (y.user.id == target)) [
                | inl t ↦ ground (
                  arith,
                  env.sessions.find_one-delete (session_id x) (of_user env target) b.sessions,
                )
                | inr n ↦
                    let same : some y ≡ some x = ground (
                      arith,
                      env.sessions.find_one-delete (session_id x) (of_user env target) b.sessions,
                    ) in
                    let moved = ap (λ (o : Option Session). owned target o) same in
                    ground (arith, moved)
              ]
            ]

  -- Right after a revocation of all sessions of a user, and at any time after it while the sessions
  -- are not touched, the list of the active sessions of that user is empty.
  pub get_active_sessions-revoke_all :
      (now later : ℕ) (target admin : String) (b : Backend env)
      → now ≤ later
      → (target == "") ≡ false
      → get_active_sessions later
          (record { user_id = some target; role = none; from_date = none })
          (revoke_all_user_sessions env now target admin b).0
        ≡ []
  unfolding get_active_sessions is_listed revoke_all_user_sessions
  get_active_sessions-revoke_all now later target admin b le given = ap (map to_dto) (
      empty_of _ λ x m.
        let table = left now target b in
        let test =
          is_listed later (record { user_id = some target; role = none; from_date = none }) in
        let passes =
          queried-passes env.sessions q (newest (λ (s : Session). s.created_at)) test table x m in
        let inside =
          q.order_by-sound (newest (λ (s : Session). s.created_at)) (env.sessions.find test table) x
            m in
        let stored =
          All-Memᴰ
            (λ (s : Session).
              env.sessions.find_one (by_key session_id (session_id s)) table ≡ some s)
            (env.sessions.find test table) x (env.sessions.find-stored test table) inside in
        none_left now later target b x le stored (ground (arith, passes)) (ground (arith, passes)))
