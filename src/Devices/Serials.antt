-- ===== src/Devices/Serials.antt =====
-- The serials of src/modules/devices/devices.service.ts: no two devices share one, whatever calls are
-- made, deletions included, which keep the row and its serial.
use mediavault_backend.Prelude.{
  ℕ, String, true, false, Option, none, some, List, [], ◌∷◌, ◌≡◌, refl, arith, ◌==◌, if◌then◌else◌,
  get_or, is_some, Option-cases, Bool-cases, inl, inr, ok, err, Result, HttpError, ◌⊎◌, eq_iff, ap,
  sym, ◌∙◌,
}
use mediavault_backend.Platform.Repository.{by_key}
use mediavault_backend.Platform.Repository.Laws.{find_one-key}
use mediavault_backend.Devices.{
  find_device, of_serial, create, update, reassign, remove, assign_to_user, unassign_from_user,
  update_status, find_user,
}
use mediavault_backend.Devices.Records.{
  Device, device_key, DeviceTables, Devices, DeviceStatus, CreateDeviceDto, UpdateDeviceDto,
  has_serial, new_serial, new_device, with_fields, is_active_status, given,
}

Result-cases {ℓ} :
    {A : Type ℓ} (r : Result A) → ((a : A) × (r ≡ ok a)) ⊎ ((e : HttpError) × (r ≡ err e))
Result-cases (ok a) = inl (a, refl)
Result-cases (err e) = inr (e, refl)

abbrev pub serial_of : Option Device → Option String
serial_of none = none
serial_of (some d) = some d.serial

module _ (env : DeviceTables) where
  -- Two stored devices with one serial are one.
  abbrev pub IsUnique : Devices env → Type 0
  IsUnique s =
      (k j n : String)
      → serial_of (find_device env k s) ≡ some n
      → serial_of (find_device env j s) ≡ some n
      → (k == j) ≡ true

  -- The calls of the service that write.
  pub data Call : Type 0 where
    creates : ℕ → String → CreateDeviceDto → String → Call
    updates : ℕ → String → UpdateDeviceDto → String → Call
    removes : String → String → Call
    assigns : ℕ → String → String → String → Call
    unassigns : ℕ → String → String → Call
    sets_status : ℕ → String → DeviceStatus → String → Call

  abbrev pub exec : Call → Devices env → Devices env
  exec (creates now id dto actor) s = (create env now id dto actor s).0
  exec (updates now id dto actor) s = (update env now id dto actor s).0
  exec (removes id actor) s = (remove env id actor s).0
  exec (assigns now id uid actor) s = (assign_to_user env now id uid actor s).0
  exec (unassigns now id actor) s = (unassign_from_user env now id actor s).0
  exec (sets_status now id st actor) s = (update_status env now id st actor s).0

  serial-save :
      (k id : String) (d : Device) (s : Devices env)
      → d.id ≡ id
      → serial_of (env.devices.find_one (by_key device_key k) (env.devices.save d s.devices))
        ≡ (if id == k then some d.serial else serial_of (find_device env k s))
  serial-save k id d s e =
      ground (arith, env.devices.find_one-save k d s.devices, eq_iff d.id k, eq_iff id k)

  serial-absent_row :
      (k n : String) (d : Device) (s : Devices env)
      → is_some (of_serial env n s) ≡ false
      → find_device env k s ≡ some d
      → (d.serial == n) ≡ false
  serial-absent_row k n d s h found = elim (Option-cases (of_serial env n s)) [
    | inl e ↦ env.devices.find_one-complete (has_serial n) s.devices k d e found
    | inr (x, e) ↦ absurd (ground arith)
  ]

  -- A serial that a query does not find is that of no row.
  serial-absent :
      (k n : String) (s : Devices env)
      → is_some (of_serial env n s) ≡ false
      → (serial_of (find_device env k s) ≡ some n)
      → ⊥
  serial-absent k n s h e = elim (Option-cases (find_device env k s)) [
    | inl missing ↦ absurd (ground arith)
    | inr (d, found) ↦ ground (arith, eq_iff d.serial n, serial-absent_row k n d s h found)
  ]

  -- A call that leaves the serials, and one that gives a row a serial that no row had.
  IsUnique-same :
      (s s' : Devices env)
      → ((k : String) → serial_of (find_device env k s') ≡ serial_of (find_device env k s))
      → IsUnique s
      → IsUnique s'
  IsUnique-same s s' same v k j n e f = v k j n (sym (same k) ∙ e) (sym (same j) ∙ f)

  IsUnique-new :
      (s s' : Devices env) (id n : String)
      → is_some (of_serial env n s) ≡ false
      → ((k : String)
          → serial_of (find_device env k s')
            ≡ (if id == k then some n else serial_of (find_device env k s)))
      → IsUnique s
      → IsUnique s'
  IsUnique-new s s' id n absent same v k j m e f = elim (Bool-cases (id == k)) [
    | inl ik ↦ elim (Bool-cases (id == j)) [
      | inl ij ↦ ground (arith, eq_iff id k, eq_iff id j, eq_iff k j)
      | inr nj ↦ absurd (serial-absent j n s absent (ground (arith, same k, same j)))
    ]
    | inr nk ↦ elim (Bool-cases (id == j)) [
      | inl ij ↦ absurd (serial-absent k n s absent (ground (arith, same k, same j)))
      | inr nj ↦ v k j m (ground (arith, same k)) (ground (arith, same j))
    ]
  ]

  -- A row written over itself keeps the serials.
  rewritten :
      (id : String) (d d' : Device) (s : Devices env)
      → find_device env id s ≡ some d
      → d'.id ≡ d.id
      → d'.serial ≡ d.serial
      → (k : String)
      → serial_of (env.devices.find_one (by_key device_key k) (env.devices.save d' s.devices))
        ≡ serial_of (find_device env k s)
  rewritten id d d' s found same kept k =
      let i = same ∙ find_one-key env.devices s.devices id d found in
      ground (
        arith,
        serial-save k id d' s i,
        eq_iff id k,
        ap (λ (j : String). find_device env j s) {x = id} {y = k},
      )

  remove-IsUnique :
      (id actor : String) (s : Devices env) → IsUnique s → IsUnique (exec (removes id actor) s)
  unfolding remove
  remove-IsUnique id actor s v = elim (Option-cases (find_device env id s)) [
    | inl e ↦ IsUnique-same s (exec (removes id actor) s) (λ k. ground arith) v
    | inr (d, e) ↦
        IsUnique-same s (exec (removes id actor) s)
          (λ k. ground (arith, rewritten id d (record d { is_active = false }) s e refl refl k)) v
  ]

  unassign-IsUnique :
      (now : ℕ) (id actor : String) (s : Devices env)
      → IsUnique s
      → IsUnique (exec (unassigns now id actor) s)
  unfolding unassign_from_user
  unassign-IsUnique now id actor s v = elim (Option-cases (find_device env id s)) [
    | inl e ↦ IsUnique-same s (exec (unassigns now id actor) s) (λ k. ground arith) v
    | inr (d, e) ↦
        IsUnique-same s (exec (unassigns now id actor) s)
          (λ k. ground (
            arith,
            rewritten id d
                (record d { assigned_user = none; assigned_at = none; quadrant_id = none }) s e refl
                refl k,
          ))
          v
  ]

  update_status-IsUnique :
      (now : ℕ) (id : String) (st : DeviceStatus) (actor : String) (s : Devices env)
      → IsUnique s
      → IsUnique (exec (sets_status now id st actor) s)
  unfolding update_status
  update_status-IsUnique now id st actor s v = elim (Option-cases (find_device env id s)) [
    | inl e ↦ IsUnique-same s (exec (sets_status now id st actor) s) (λ k. ground arith) v
    | inr (d, e) ↦
        IsUnique-same s (exec (sets_status now id st actor) s)
          (λ k. ground (
            arith,
            rewritten id d
                (record d {
                  status = st;
                  last_seen = if is_active_status st then some now else d.last_seen;
                })
                s e refl refl k,
          ))
          v
  ]

  assign-IsUnique :
      (now : ℕ) (id uid actor : String) (s : Devices env)
      → IsUnique s
      → IsUnique (exec (assigns now id uid actor) s)
  unfolding assign_to_user
  assign-IsUnique now id uid actor s v = elim (Option-cases (find_device env id s)) [
    | inl e ↦ IsUnique-same s (exec (assigns now id uid actor) s) (λ k. ground arith) v
    | inr (d, e) ↦ elim (Option-cases (find_user env uid s)) [
      | inl e' ↦ IsUnique-same s (exec (assigns now id uid actor) s) (λ k. ground arith) v
      | inr (u, e') ↦
          IsUnique-same s (exec (assigns now id uid actor) s)
            (λ k. ground (
              arith,
              rewritten id d
                  (record d {
                    assigned_user = some u;
                    assigned_at = some now;
                    quadrant_id = u.quadrant_id;
                  })
                  s e refl refl k,
            ))
            v
    ]
  ]

  create-IsUnique :
      (now : ℕ) (id : String) (dto : CreateDeviceDto) (actor : String) (s : Devices env)
      → IsUnique s
      → IsUnique (exec (creates now id dto actor) s)
  unfolding create
  create-IsUnique now id dto actor s v = elim (Bool-cases (is_some (of_serial env dto.serial s))) [
    | inl taken ↦ IsUnique-same s (exec (creates now id dto actor) s) (λ k. ground arith) v
    | inr free ↦ elim (Option-cases (given dto.assigned_user_id)) [
      | inl e ↦
          IsUnique-new s (exec (creates now id dto actor) s) id dto.serial free
            (λ k. ground (arith, serial-save k id (new_device now id dto none) s refl)) v
      | inr (uid, e) ↦ elim (Option-cases (find_user env uid s)) [
        | inl e' ↦ IsUnique-same s (exec (creates now id dto actor) s) (λ k. ground arith) v
        | inr (u, e') ↦
            IsUnique-new s (exec (creates now id dto actor) s) id dto.serial free
              (λ k. ground (arith, serial-save k id (new_device now id dto (some u)) s refl)) v
      ]
    ]
  ]

  -- The row that `update` writes, if it gets so far.
  reassign_lem :
      (now : ℕ) (id actor : String) (uid : Option String) (d : Device) (s : Devices env)
      → ((reassign env now id actor uid d s).0.devices ≡ s.devices)
        × ((d' : Device)
            → (reassign env now id actor uid d s).1 ≡ ok d'
            → (d'.id ≡ d.id) × (d'.serial ≡ d.serial))
  unfolding reassign
  reassign_lem now id actor none d s = (refl, λ d' e. ground arith)
  reassign_lem now id actor (some uid) d s = (ground arith, λ d' e. ground arith)

  update-IsUnique :
      (now : ℕ) (id : String) (dto : UpdateDeviceDto) (actor : String) (s : Devices env)
      → IsUnique s
      → IsUnique (exec (updates now id dto actor) s)
  unfolding update
  update-IsUnique now id dto actor s v = elim (Option-cases (find_device env id s)) [
    | inl e ↦ IsUnique-same s (exec (updates now id dto actor) s) (λ k. ground arith) v
    | inr (d, e) ↦
        let (kept, wrote) = reassign_lem now id actor dto.assigned_user_id (with_fields dto d) s in
        elim (Result-cases
          (reassign env now id actor dto.assigned_user_id (with_fields dto d) s).1) [
            | inl (d', r) ↦
                let (same, serial) = wrote d' r in
                elim (Bool-cases (new_serial dto.serial d)) [
                  | inl new ↦ elim (Bool-cases (is_some (of_serial env (get_or dto.serial "") s))) [
                    | inl taken ↦
                        IsUnique-same s (exec (updates now id dto actor) s) (λ k. ground arith) v
                    | inr free ↦
                        IsUnique-new s (exec (updates now id dto actor) s) id (get_or dto.serial "")
                          free
                          (λ k. ground (
                            arith,
                            kept,
                            serial,
                            serial-save k id d' s
                                (same ∙ find_one-key env.devices s.devices id d e),
                          ))
                          v
                  ]
                  | inr old ↦
                      IsUnique-same s (exec (updates now id dto actor) s)
                        (λ k. ground (
                          arith,
                          kept,
                          serial,
                          rewritten id d d' s e same (ground (arith, serial)) k,
                        ))
                        v
                ]
            | inr (x, r) ↦
                IsUnique-same s (exec (updates now id dto actor) s) (λ k. ground (arith, kept)) v
          ]
  ]

  exec-IsUnique : (c : Call) (s : Devices env) → IsUnique s → IsUnique (exec c s)
  exec-IsUnique (creates now id dto actor) s v = create-IsUnique now id dto actor s v
  exec-IsUnique (updates now id dto actor) s v = update-IsUnique now id dto actor s v
  exec-IsUnique (removes id actor) s v = remove-IsUnique id actor s v
  exec-IsUnique (assigns now id uid actor) s v = assign-IsUnique now id uid actor s v
  exec-IsUnique (unassigns now id actor) s v = unassign-IsUnique now id actor s v
  exec-IsUnique (sets_status now id st actor) s v = update_status-IsUnique now id st actor s v

  abbrev pub run : List Call → Devices env → Devices env
  run [] s = s
  run (c ∷ cs) s = run cs (exec c s)

  -- If no two stored devices share a serial, none do after any sequence of calls; a device that
  -- was removed keeps its row, and so its serial.
  pub run-IsUnique : (cs : List Call) (s : Devices env) → IsUnique s → IsUnique (run cs s)
  run-IsUnique [] s v = v
  run-IsUnique (c ∷ cs) s v = run-IsUnique cs (exec c s) (exec-IsUnique c s v)
