-- ===== src/Wowza/Active.antt =====
-- Which server src/modules/wowza/wowza.service.ts asks, over the table that
-- src/wowza-servers/wowza-servers.service.ts keeps.
use mathlib.Core.List.{Memᴰ}
use mediavault_backend.Prelude.{
  String, true, ◌&&◌, Option, none, some, List, [], ◌∷◌, ◌==◌, ◌≡◌, arith, if◌then◌else◌, leb, All,
  Option-cases, Bool-cases, inl, inr, eq_iff, ap, subst,
}
use mediavault_backend.Platform.Repository.{Repository, by_key}
use mediavault_backend.WowzaServers.{WowzaServer, server_key, find_server}
use mediavault_backend.WowzaServers.Default.{
  Represents, Op, AllFresh, run, run_pointer, run_refines,
}
use mediavault_backend.Wowza.{server_config, WowzaEnv, oldest, requested, get_active_server}

module _ (repo : Repository WowzaServer server_key) where
  -- The row that says that it is the default and is active is the one that the pointer is at.
  find_one-default :
      (t : repo.Table) (id : String) (s : WowzaServer)
      → Represents repo t (some id)
      → find_server repo id t ≡ some s
      → s.is_active ≡ true
      → repo.find_one (λ s. s.is_default && s.is_active) t ≡ some s
  find_one-default t id s v found on =
      elim (Option-cases (repo.find_one (λ s. s.is_default && s.is_active) t)) [
        | inl missing ↦ absurd (
            ground (
              arith,
              repo.find_one-complete (λ s. s.is_default && s.is_active) t id s missing found,
              v id,
              eq_iff id id,
            ))
        | inr (x, e) ↦
            let (passes, stored) = repo.find_one-sound (λ s. s.is_default && s.is_active) t x e in
            let same =
              ap (λ (j : String). find_server repo j t)
                ((eq_iff id x.id).0 (ground (arith, v x.id))) in
            ground (arith, e, stored, same, found)
      ]

  -- From a table whose flags stand for a pointer, after any calls of the administration that leave
  -- the pointer at a stored and active server, that server is the one that is asked when a request
  -- names none.
  pub get_active_server-run :
      (w : WowzaEnv) (ops : List Op) (t : repo.Table) (d : Option String) (id : String)
      (s : WowzaServer)
      → AllFresh repo ops t
      → Represents repo t d
      → run_pointer repo ops t d ≡ some id
      → find_server repo id (run repo ops t) ≡ some s
      → s.is_active ≡ true
      → get_active_server repo true w none (run repo ops t) ≡ server_config s
  unfolding get_active_server
  get_active_server-run w ops t d id s fresh v points found on =
      let v' = subst (Represents repo (run repo ops t)) points (run_refines repo ops t d fresh v) in
      ground (arith, find_one-default (run repo ops t) id s v' found on)

  -- The server is stored and active.
  abbrev pub Serves : repo.Table → WowzaServer → Type 0
  Serves t s = (find_server repo s.id t ≡ some s) × (s.is_active ≡ true)

  requested-Serves :
      (asked : Option String) (t : repo.Table) (s : WowzaServer)
      → requested repo asked t ≡ some s
      → Serves t s
  requested-Serves none t s e = absurd (ground arith)
  requested-Serves (some j) t s e =
      let p = λ (x : WowzaServer). x.id == j && x.is_active in
      elim (Bool-cases (j == "")) [
        | inl blank ↦ absurd (ground arith)
        | inr named ↦
            let (passes, stored) = repo.find_one-sound p t s (ground arith) in
            (stored, ground arith)
      ]

  default-Serves :
      (t : repo.Table) (s : WowzaServer)
      → repo.find_one (λ x. x.is_default && x.is_active) t ≡ some s
      → Serves t s
  default-Serves t s e =
      let (passes, stored) = repo.find_one-sound (λ x. x.is_default && x.is_active) t s e in
      (stored, ground arith)

  listed-Serves :
      (t : repo.Table) (ss : List WowzaServer)
      → All (λ x. x.is_active ≡ true) ss
      → All (λ x. repo.find_one (by_key server_key x.id) t ≡ some x) ss
      → (s : WowzaServer) → oldest ss ≡ some s
      → Serves t s
  unfolding oldest
  listed-Serves t [] h k s e = absurd (ground arith)
  listed-Serves t (x ∷ ss) (h, hs) (k, ks) s e = elim (Option-cases (oldest ss)) [
    | inl missing ↦ let same : x ≡ s = ground arith in subst (Serves t) same (k, h)
    | inr (y, f) ↦ elim (Bool-cases (leb x.created_at y.created_at)) [
      | inl first ↦ let same : x ≡ s = ground arith in subst (Serves t) same (k, h)
      | inr later ↦ listed-Serves t ss hs ks s (ground arith)
    ]
  ]

  oldest-some :
      (ss : List WowzaServer) (s : WowzaServer)
      → Memᴰ s ss
      → (x : WowzaServer) × (oldest ss ≡ some x)
  unfolding oldest
  oldest-some [] s m = elim m [ ]
  oldest-some (x ∷ ss) s m = elim (Option-cases (oldest ss)) [
    | inl missing ↦ (x, ground arith)
    | inr (y, f) ↦ (if leb x.created_at y.created_at then x else y, ground arith)
  ]

  -- While an active server is stored, the one that is asked is a stored and active one, whichever the
  -- request names, and the environment does not serve.
  get_active_server_lem :
      (w : WowzaEnv) (asked : Option String) (t : repo.Table) (id : String) (s : WowzaServer)
      → find_server repo id t ≡ some s
      → s.is_active ≡ true
      → (x : WowzaServer) × (get_active_server repo true w asked t ≡ server_config x) × Serves t x
  unfolding get_active_server
  get_active_server_lem w asked t id s found on =
      let active = λ (x : WowzaServer). x.is_active in
      elim (Option-cases (requested repo asked t)) [
        | inr (x, e) ↦ (x, ground arith, requested-Serves asked t x e)
        | inl none' ↦ elim (Option-cases (repo.find_one (λ x. x.is_default && x.is_active) t)) [
          | inr (x, e) ↦ (x, ground arith, default-Serves t x e)
          | inl none'' ↦
              let (x, e) =
                oldest-some (repo.find active t) s (repo.find-complete active t id s found on) in
              (
                x,
                ground arith,
                listed-Serves t (repo.find active t) (repo.find-sound active t)
                    (repo.find-stored active t) x e,
              )
        ]
      ]
