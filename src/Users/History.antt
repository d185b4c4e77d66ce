-- ===== src/Users/History.antt =====
-- `getUserAuditHistory`, `getUserSessions` and `getRoles` of src/modules/users/users.service.ts.
use mediavault_backend.Prelude.{
  ℕ, ◌≤◌, String, Bool, true, false, Option, none, some, List, ◌&&◌, ◌==◌, ◌≡◌, ◌⊎◌, not, length,
  if◌then◌else◌, arith, Result, ok, err, forbidden, not_found, All, Bool-cases, inl, inr, eq_iff,
  ap, subst,
}
use mediavault_backend.Platform.Repository.{Repository, by_key}
use mediavault_backend.Platform.Queries.{Queries, newest}
use mediavault_backend.Platform.Runtime.{Runtime}
use mediavault_backend.Paging.{take, equals}
use mediavault_backend.Paging.Pages.{All-map, take-sound, length-take, length-map}
use mediavault_backend.Paging.Queried.{queried, queried-passes}
use mediavault_backend.Audit.Listing.{
  AuditEntity, entity_key, AuditLogEntry, find_by_user, to_entry, by_time,
}
use mediavault_backend.Backend.{Role, user_id, Env, Backend}
use mediavault_backend.Security.Sessions.{SessionResponse, get_active_sessions}

module _ (env : Env) (q : Queries) (rt : Runtime) (logs : Repository AuditEntity entity_key) where
  unfoldable pub get_user_sessions : ℕ → String → Backend env → Result (List SessionResponse)
  get_user_sessions now id b = elim (env.users.find_one (by_key user_id id) b.users) [
    | none ↦ err not_found
    | some u ↦ ok (
        get_active_sessions env q rt logs now
          (record { user_id = some id; role = none; from_date = none }) b)
  ]

module _ (env : Env) (q : Queries) where
  -- By the order of the texts that the database has.
  unfoldable pub get_roles : (String → String → Bool) → Backend env → List Role
  get_roles ascending b = queried env.roles q (λ r s. ascending r.name s.name) (λ r. true) b.roles

module _ (q : Queries) (rt : Runtime) (logs : Repository AuditEntity entity_key) where
  unfoldable pub get_user_audit_history :
      String → String → String → logs.Table → Result (List AuditLogEntry)
  get_user_audit_history uid requester role t =
      if not (role == "admin") && not (requester == uid)
      then err forbidden
      else ok (find_by_user logs q rt uid (some 200) t)

  entries_of :
      (uid : String) (limit : ℕ) (t : logs.Table)
      → All
          (λ (e : AuditLogEntry). e.user_id ≡ some uid)
          (find_by_user logs q rt uid (some limit) t)
  unfolding find_by_user
  entries_of uid limit t =
      All-map (λ (e : AuditLogEntry). e.user_id ≡ some uid) (to_entry logs q rt)
        (take limit (by_time logs q rt (λ (e : AuditEntity). equals e.user_id uid) t))
        λ x m. is_own uid x.user_id (
          queried-passes logs q (newest (λ (e : AuditEntity). e.created_at))
            (λ (e : AuditEntity). equals e.user_id uid) t x
            (take-sound limit (by_time logs q rt (λ (e : AuditEntity). equals e.user_id uid) t) x
              m))
    where
      is_own : (uid : String) (o : Option String) → equals o uid ≡ true → o ≡ some uid
      is_own uid none h = absurd (cc)
      is_own uid (some s) h = ap some ((eq_iff s uid).0 h)

  few : (uid : String) (t : logs.Table) → length (find_by_user logs q rt uid (some 200) t) ≤ 200
  unfolding find_by_user
  few uid t =
      let rows = by_time logs q rt (λ (e : AuditEntity). equals e.user_id uid) t in
      omega (arith, length-map (to_entry logs q rt) (take 200 rows), length-take 200 rows)

  who :
      (role requester uid : String)
      → (not (role == "admin") && not (requester == uid)) ≡ false
      → (role ≡ "admin") ⊎ (requester ≡ uid)
  who role requester uid h = elim (Bool-cases (role == "admin")) [
    | inl e ↦ inl ((eq_iff role "admin").0 e)
    | inr e ↦ inr ((eq_iff requester uid).0 (ground arith))
  ]

  -- A history is shown to an administrator or to the user itself, and has the entries of that user
  -- only, 200 at most.
  get_user_audit_history_lem :
      (uid requester role : String) (t : logs.Table) (es : List AuditLogEntry)
      → get_user_audit_history uid requester role t ≡ ok es
      → ((role ≡ "admin") ⊎ (requester ≡ uid))
        × All (λ (e : AuditLogEntry). e.user_id ≡ some uid) es
        × (length es ≤ 200)
  unfolding get_user_audit_history
  get_user_audit_history_lem uid requester role t es h =
      let shown = find_by_user logs q rt uid (some 200) t in
      elim (Bool-cases (not (role == "admin") && not (requester == uid))) [
        | inl refused ↦ absurd (ground arith)
        | inr allowed ↦
            let same : shown ≡ es = ground arith in
            (
              who role requester uid allowed,
              subst
                  (λ (xs : List AuditLogEntry).
                    All (λ (e : AuditLogEntry). e.user_id ≡ some uid) xs)
                  same (entries_of uid 200 t),
              subst (λ (xs : List AuditLogEntry). length xs ≤ 200) same (few uid t),
            )
      ]
