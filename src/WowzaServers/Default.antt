-- ===== src/WowzaServers/Default.antt =====
-- The default server of src/wowza-servers/wowza-servers.service.ts as a pointer: the flags of the
-- rows stand for at most one id, and each operation moves it as the abstract one does.
use mediavault_backend.Prelude.{
  ℕ, String, Bool, true, false, Option, none, some, List, [], ◌∷◌, ◌≡◌, refl, arith, ◌==◌,
  if◌then◌else◌, get_or, is_some, Result, ok, err, Option-cases, inl, inr, eq_iff,
}
use mediavault_backend.Platform.Repository.{Repository, by_key, change_if}
use mediavault_backend.Platform.Repository.Laws.{find_one-key}
use mediavault_backend.WowzaServers.{
  WowzaServer, server_key, new_server, assign, result_of, CreateWowzaServerDto,
  UpdateWowzaServerDto, Probe, find_server, clear_default, create, update, set_default, remove,
  test_connection,
}

abbrev pub points_at : Option String → String → Bool
points_at none k = false
points_at (some j) k = j == k

-- Whether the row of `k` is there and says that it is the default.
abbrev pub flag : Option WowzaServer → Bool
flag none = false
flag (some s) = s.is_default

-- The flags of the table stand for the pointer: no row but the one it points at has the flag, and
-- that row is there.
abbrev pub Represents :
    (repo : Repository WowzaServer server_key) → repo.Table → Option String → Type 0
Represents repo t d = (k : String) → flag (find_server repo k t) ≡ points_at d k

-- The calls of the service that write, each with what it takes from outside.
pub data Op : Type 0 where
  creates : ℕ → String → CreateWowzaServerDto → Op
  updates : String → UpdateWowzaServerDto → Op
  sets_default : String → Op
  removes : String → Op
  tests : ℕ → ℕ → Probe → String → Op

abbrev succeeds {ℓ} : {A : Type ℓ} → Result A → Bool
succeeds (ok a) = true
succeeds (err e) = false

-- What a call that succeeds does to the pointer.
abbrev pub moved : Option Bool → String → Option String → Option String
moved none id d = d
moved (some true) id d = some id
moved (some false) id d = if points_at d id then none else d

abbrev pub point : Op → Option String → Option String
point (creates now id dto) d = if get_or dto.is_default false then some id else d
point (updates id dto) d = moved dto.is_default id d
point (sets_default id) d = some id
point (removes id) d = d
point (tests now ms probe id) d = d

points_at_unique :
    (d : Option String) (id k : String) → points_at d id ≡ true → points_at d k ≡ (id == k)
points_at_unique none id k h = cc
points_at_unique (some j) id k h = ground (arith, eq_iff j id, eq_iff j k, eq_iff id k)

module _ (repo : Repository WowzaServer server_key) where
  abbrev pub exec : Op → repo.Table → repo.Table × Bool
  exec (creates now id dto) t = let r = create repo now id dto t in (r.0, succeeds r.1)
  exec (updates id dto) t = let r = update repo id dto t in (r.0, succeeds r.1)
  exec (sets_default id) t = let r = set_default repo id t in (r.0, succeeds r.1)
  exec (removes id) t = let r = remove repo id t in (r.0, succeeds r.1)
  exec (tests now ms probe id) t =
      let r = test_connection repo now ms probe id t in (r.0, succeeds r.1)

  -- The database draws a new id for a new row.
  abbrev pub IsFresh : Op → repo.Table → Type 0
  IsFresh (creates now id dto) t = find_server repo id t ≡ none
  IsFresh _ t = Unit

  module _ (k id : String) (t : repo.Table) where
    flag-clear : flag (find_server repo k (clear_default repo t)) ≡ false
    unfolding clear_default
    flag-clear = ground (
      arith,
      repo.find_one-update k (λ (s : WowzaServer). s.is_default)
          (λ (s : WowzaServer). record s { is_default = false }) t (λ r. refl),
    )

    find-clear :
        is_some (find_server repo k (clear_default repo t)) ≡ is_some (find_server repo k t)
    unfolding clear_default
    find-clear = ground (
      arith,
      repo.find_one-update k (λ (s : WowzaServer). s.is_default)
          (λ (s : WowzaServer). record s { is_default = false }) t (λ r. refl),
    )

    flag-save :
        (s : WowzaServer)
        → s.id ≡ id
        → flag (find_server repo k (repo.save s t))
          ≡ (if id == k then s.is_default else flag (find_server repo k t))
    flag-save s e = ground (arith, repo.find_one-save k s t, eq_iff s.id k, eq_iff id k)

    -- A change of the row of `id` alone.
    flag-update :
        (f : WowzaServer → WowzaServer)
        → ((s : WowzaServer) → (f s).id ≡ s.id)
        → flag (find_server repo k (repo.update (by_key server_key id) f t)) ≡ (
            if id == k
            then flag (change_if (λ s. true) f (find_server repo k t))
            else flag (find_server repo k t))
    flag-update f same = elim (Option-cases (find_server repo k t)) [
      | inl e ↦ ground (arith, repo.find_one-update k (by_key server_key id) f t same)
      | inr (s, e) ↦ ground (
        arith,
        repo.find_one-update k (by_key server_key id) f t same,
        find_one-key repo t k s e,
        eq_iff s.id id,
        eq_iff id k,
      )
    ]

    find-update :
        (f : WowzaServer → WowzaServer)
        → ((s : WowzaServer) → (f s).id ≡ s.id)
        → is_some (find_server repo k (repo.update (by_key server_key id) f t))
          ≡ is_some (find_server repo k t)
    find-update f same = ground (arith, repo.find_one-update k (by_key server_key id) f t same)

    flag-delete :
        flag (find_server repo k (repo.delete (by_key server_key id) t))
        ≡ (if id == k then false else flag (find_server repo k t))
    flag-delete = elim (Option-cases (find_server repo k t)) [
      | inl e ↦ ground (arith, repo.find_one-delete k (by_key server_key id) t)
      | inr (s, e) ↦ ground (
        arith,
        repo.find_one-delete k (by_key server_key id) t,
        find_one-key repo t k s e,
        eq_iff s.id id,
        eq_iff id k,
      )
    ]

  create_refines :
      (now : ℕ) (id : String) (dto : CreateWowzaServerDto) (t : repo.Table) (d : Option String)
      → find_server repo id t ≡ none
      → Represents repo t d
      → Represents repo
          (exec (creates now id dto) t).0
          (if (exec (creates now id dto) t).1 then point (creates now id dto) d else d)
  unfolding create
  create_refines now id dto t d fresh v k = ground (
    arith,
    flag-save k id t (new_server now id dto) refl,
    flag-save k id (clear_default repo t) (new_server now id dto) refl,
    flag-clear k id t,
    v k,
    v id,
    eq_iff id k,
  )

  update_refines :
      (id : String) (dto : UpdateWowzaServerDto) (t : repo.Table) (d : Option String)
      → Represents repo t d
      → Represents repo
          (exec (updates id dto) t).0
          (if (exec (updates id dto) t).1 then point (updates id dto) d else d)
  unfolding update
  update_refines id dto t d v k = elim (Option-cases (find_server repo id t)) [
    | inl missing ↦ ground (arith, v k)
    | inr (u, found) ↦ ground (
      arith,
      find_one-key repo t id u found,
      v k,
      v id,
      eq_iff id k,
      points_at_unique d id k,
      flag-save k id t (assign dto u),
      flag-save k id (clear_default repo t) (assign dto u),
      flag-clear k id t,
    )
  ]

  set_default_refines :
      (id : String) (t : repo.Table) (d : Option String)
      → Represents repo t d
      → Represents repo
          (exec (sets_default id) t).0
          (if (exec (sets_default id) t).1 then point (sets_default id) d else d)
  unfolding set_default
  set_default_refines id t d v k = elim (Option-cases (find_server repo id t)) [
    | inl missing ↦ ground (arith, v k)
    | inr (u, found) ↦ ground (
      arith,
      find_one-key repo t id u found,
      v k,
      v id,
      eq_iff id k,
      flag-update k id (clear_default repo t) (λ (s : WowzaServer). record s { is_default = true })
          (λ s. refl),
      flag-update id id (clear_default repo t) (λ (s : WowzaServer). record s { is_default = true })
          (λ s. refl),
      flag-clear k id t,
      find-clear id id t,
      find-update id id (clear_default repo t) (λ (s : WowzaServer). record s { is_default = true })
          (λ s. refl),
    )
  ]

  remove_refines :
      (id : String) (t : repo.Table) (d : Option String)
      → Represents repo t d
      → Represents repo
          (exec (removes id) t).0
          (if (exec (removes id) t).1 then point (removes id) d else d)
  unfolding remove
  remove_refines id t d v k = elim (Option-cases (find_server repo id t)) [
    | inl missing ↦ ground (arith, v k)
    | inr (u, found) ↦
        ground (arith, find_one-key repo t id u found, v k, v id, eq_iff id k, flag-delete k u.id t)
  ]

  test_refines :
      (now ms : ℕ) (probe : Probe) (id : String) (t : repo.Table) (d : Option String)
      → Represents repo t d
      → Represents repo
          (exec (tests now ms probe id) t).0
          (if (exec (tests now ms probe id) t).1 then point (tests now ms probe id) d else d)
  unfolding test_connection
  test_refines now ms probe id t d v k = elim (Option-cases (find_server repo id t)) [
    | inl missing ↦ ground (arith, v k)
    | inr (u, found) ↦ ground (
      arith,
      find_one-key repo t id u found,
      v k,
      v id,
      eq_iff id k,
      flag-update k id t
          (λ (s : WowzaServer). record s {
            last_tested_at = some now;
            last_test_ok = some (result_of ms probe).ok;
          })
          (λ s. refl),
    )
  ]

  exec_refines :
      (op : Op) (t : repo.Table) (d : Option String)
      → IsFresh op t
      → Represents repo t d
      → Represents repo (exec op t).0 (if (exec op t).1 then point op d else d)
  exec_refines (creates now id dto) t d f v = create_refines now id dto t d f v
  exec_refines (updates id dto) t d f v = update_refines id dto t d v
  exec_refines (sets_default id) t d f v = set_default_refines id t d v
  exec_refines (removes id) t d f v = remove_refines id t d v
  exec_refines (tests now ms probe id) t d f v = test_refines now ms probe id t d v

  -- The table after a sequence of calls, and which of them succeeded.
  abbrev pub run : List Op → repo.Table → repo.Table
  run [] t = t
  run (op ∷ ops) t = run ops (exec op t).0

  abbrev pub run_pointer : List Op → repo.Table → Option String → Option String
  run_pointer [] t d = d
  run_pointer (op ∷ ops) t d =
      run_pointer ops (exec op t).0 (if (exec op t).1 then point op d else d)

  abbrev pub AllFresh : List Op → repo.Table → Type 0
  AllFresh [] t = Unit
  AllFresh (op ∷ ops) t = IsFresh op t × AllFresh ops (exec op t).0

  -- A table whose flags stand for a pointer to the default server, or for none, stands for the moved
  -- pointer after any sequence of calls: a creation or an update with the flag and `setDefault` move
  -- it to their server, an update that clears the flag of the default takes it away, and all else,
  -- removals, tests and calls that throw included, leaves it. So at most one row is the default, and
  -- it is never removed.
  pub run_refines :
      (ops : List Op) (t : repo.Table) (d : Option String)
      → AllFresh ops t
      → Represents repo t d
      → Represents repo (run ops t) (run_pointer ops t d)
  run_refines [] t d f v = v
  run_refines (op ∷ ops) t d (f, fs) v =
      run_refines ops (exec op t).0 (if (exec op t).1 then point op d else d) fs
        (exec_refines op t d f v)
