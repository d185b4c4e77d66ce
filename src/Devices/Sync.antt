-- ===== src/Devices/Sync.antt =====
-- src/modules/devices/device-sync.service.ts: the round that follows Wowza's streams, and what it
-- makes of each row.
use mathlib.Core.List.{Memᴰ}
use mediavault_backend.Prelude.{
  ℕ, String, Bool, true, false, not, Option, none, some, List, [], ◌∷◌, ◌==◌, ◌≡◌, ◌⊎◌, refl, arith,
  if◌then◌else◌, any, All, Result, ok, err, inl, inr, Bool-cases, eq_iff, ap, sym, ◌∙◌, subst,
}
use mediavault_backend.Platform.Repository.{Repository, by_key}
use mediavault_backend.Platform.Repository.Laws.{find_one-key}
use mediavault_backend.Devices.Records.{
  Device, device_key, DeviceStatus, registered, active, inactive, is_active_status,
}

-- The names of the incoming streams; a request that fails counts as none.
abbrev pub names_of : Result (List String) → List String
names_of (ok names) = names
names_of (err e) = []

abbrev pub is_live : List String → Device → Bool
is_live names d = any (λ n. n == d.wowza_stream_name) names

-- What the loop pushes to `toSave` for a device.
abbrev pub saved_for : ℕ → List String → Device → Option Device
saved_for now names d =
    if not d.is_active
    then none
    else if is_live names d
    then some (record d {
      last_seen = some now;
      status = if is_active_status d.status then d.status else active;
    })
    else if is_active_status d.status
    then some (record d { status = inactive })
    else none

abbrev pub pushed : Option Device → List Device → List Device
pushed none ds = ds
pushed (some d) ds = d ∷ ds

unfoldable pub to_save : ℕ → List String → List Device → List Device
to_save now names [] = []
to_save now names (d ∷ ds) = pushed (saved_for now names d) (to_save now names ds)

module _ (repo : Repository Device device_key) where
  unfoldable pub save_all : List Device → repo.Table → repo.Table
  save_all [] t = t
  save_all (d ∷ ds) t = save_all ds (repo.save d t)

  -- `syncWithWowza`, given what `getIncomingStreams` answers.
  unfoldable pub sync_with_wowza : ℕ → Result (List String) → repo.Table → repo.Table
  sync_with_wowza now answer t =
      save_all (to_save now (names_of answer) (repo.find (λ d. true) t)) t

-- What a round makes of a device, whatever the other devices are.
abbrev pub refreshed : ℕ → List String → Device → Device
refreshed now names d =
    if d.is_active
    then (if is_live names d
        then record d { status = active; last_seen = some now }
        else record d { status = if is_active_status d.status then inactive else d.status })
    else d

already_active : (st : DeviceStatus) → (if is_active_status st then st else active) ≡ active
already_active registered = refl
already_active active = refl
already_active inactive = refl

-- A device is saved as the round makes it, or is left out where that is as it was.
saved_or_same :
    (now : ℕ) (names : List String) (d : Device)
    → (saved_for now names d ≡ some (refreshed now names d))
      ⊎ ((saved_for now names d ≡ none) × (refreshed now names d ≡ d))
saved_or_same now names d = elim (Bool-cases d.is_active) [
  | inr off ↦ inr (ground arith, ground arith)
  | inl on ↦ elim (Bool-cases (is_live names d)) [
    | inl live ↦ inl (ground (arith, already_active d.status))
    | inr gone ↦ elim (Bool-cases (is_active_status d.status)) [
      | inl e ↦ inl (ground arith)
      | inr e ↦ inr (ground arith, ground arith)
    ]
  ]
]

module _ (repo : Repository Device device_key) (now : ℕ) (names : List String) (t : repo.Table)
    (k : String) (d : Device) (found : repo.find_one (by_key device_key k) t ≡ some d) where
  abbrev row : repo.Table → Option Device
  row t' = repo.find_one (by_key device_key k) t'

  abbrev put : Option Device → repo.Table → repo.Table
  put none t' = t'
  put (some x) t' = repo.save x t'

  abbrev listed : List Device → Bool
  listed ds = any (λ x. x.id == k) ds

  abbrev StoredIn : Device → Type 0
  StoredIn x = repo.find_one (by_key device_key x.id) t ≡ some x

  save_all-pushed :
      (o : Option Device) (ds : List Device) (t' : repo.Table)
      → save_all repo (pushed o ds) t' ≡ save_all repo ds (put o t')
  unfolding save_all
  save_all-pushed none ds t' = refl
  save_all-pushed (some x) ds t' = refl

  -- The row of `k` as it was, or after its turn.
  abbrev Between : repo.Table → Type 0
  Between t' = (row t' ≡ some d) ⊎ (row t' ≡ some (refreshed now names d))

  turn_self :
      (x : Device) (t' : repo.Table)
      → x ≡ d
      → Between t'
      → row (put (saved_for now names x) t') ≡ some (refreshed now names d)
  turn_self x t' e b = elim (saved_or_same now names d) [
    | inl s ↦ rw (ap (saved_for now names) e ∙ s) (
        ground (
          arith,
          repo.find_one-save k (refreshed now names d) t',
          find_one-key repo t k d found,
          eq_iff d.id k,
        ))
    | inr (s, same) ↦
        rw (ap (saved_for now names) e ∙ s) (elim b [ inl f ↦ f ∙ ap some (sym same) | inr f ↦ f ])
  ]

  turn_other :
      (x : Device) (t' : repo.Table)
      → (x.id == k) ≡ false
      → row (put (saved_for now names x) t') ≡ row t'
  turn_other x t' e = elim (saved_or_same now names x) [
    | inl s ↦ rw s (ground (arith, repo.find_one-save k (refreshed now names x) t'))
    | inr (s, same) ↦ rw s refl
  ]

  save_all-row :
      (ds : List Device) (t' : repo.Table)
      → All StoredIn ds
      → Between t'
      → (row t' ≡ some (refreshed now names d)) ⊎ (listed ds ≡ true)
      → row (save_all repo (to_save now names ds) t') ≡ some (refreshed now names d)
  unfolding save_all to_save
  save_all-row [] t' h b (inl e) = e
  save_all-row [] t' h b (inr e) = cc
  save_all-row (x ∷ ds) t' (s, h) b i = elim (Bool-cases (x.id == k)) [
    | inl e ↦
        let here =
          subst (λ j. repo.find_one (by_key device_key j) t ≡ some x) ((eq_iff x.id k).0 e) s in
        let same : x ≡ d = cc (here, found) in
        let done = turn_self x t' same b in
        ap row (save_all-pushed (saved_for now names x) (to_save now names ds) t')
        ∙ save_all-row ds _ h (inr done) (inl done)
    | inr e ↦
        let kept = turn_other x t' e in
        ap row (save_all-pushed (saved_for now names x) (to_save now names ds) t')
        ∙ save_all-row ds _ h (elim b [ inl f ↦ inl (kept ∙ f) | inr f ↦ inr (kept ∙ f) ])
            (elim i [ inl f ↦ inl (kept ∙ f) | inr f ↦ inr (ground arith) ])
  ]

  mem-listed : (ds : List Device) → Memᴰ d ds → listed ds ≡ true
  mem-listed [] m = elim m [ ]
  mem-listed (x ∷ ds) (Memᴰ.head e) =
      ground (arith, ap (λ (y : Device). y.id) e, find_one-key repo t k d found, eq_iff x.id k)
  mem-listed (x ∷ ds) (Memᴰ.tail m) = ground (arith, mem-listed ds m)

  -- After a round, each device that was stored is what the round makes of it alone: one that is in
  -- use and whose stream is live is active and was last seen now, one that is in use and active
  -- without its stream is inactive, and any other is as it was; a failed request counts as no
  -- stream.
  pub sync_with_wowza_lem :
      (answer : Result (List String))
      → names_of answer ≡ names
      → row (sync_with_wowza repo now answer t) ≡ some (refreshed now names d)
  unfolding sync_with_wowza
  sync_with_wowza_lem answer e =
      let ds = repo.find (λ x. true) t in
      rw e (
        save_all-row ds t (repo.find-stored (λ x. true) t) (inl found)
          (inr (mem-listed ds (repo.find-complete (λ x. true) t k d found refl))))
