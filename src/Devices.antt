-- ===== src/Devices.antt =====
-- src/modules/devices/devices.service.ts. The time and the id of a new row are arguments. A
-- coordinate is a text: the database keeps it as a decimal, and the service hands it on.
pub mod Records
pub mod Sync
pub mod Serials
pub mod Listing
use mediavault_backend.Prelude.{
  ℕ, String, Bool, true, false, not, ◌&&◌, Option, none, some, List, [], ◌∷◌, ◌==◌, if◌then◌else◌,
  get_or, is_some, Map, Action, ◌>>=◌, ◌>>◌, pure, throw, state, modify, throw_if, or_throw,
  not_found, conflict,
}
use mediavault_backend.Platform.Repository.{Repository, by_key}
use mediavault_backend.Audit.{AuditLog, Value, log, text, texts, number, null}
use mediavault_backend.Backend.{User, user_id}
use mediavault_backend.Devices.Records.{
  CreateDeviceDto, Device, DeviceStatus, DeviceTables, Devices, UpdateDeviceDto, device_key, given,
  has_serial, is_active_status, new_device, new_serial, previous_user, status_word, with_fields,
}

module _ (env : DeviceTables) where
  abbrev pub find_device : String → Devices env → Option Device
  find_device id s = env.devices.find_one (by_key device_key id) s.devices

  abbrev pub of_serial : String → Devices env → Option Device
  of_serial n s = env.devices.find_one (has_serial n) s.devices

  abbrev pub find_user : String → Devices env → Option User
  find_user id s = env.users.find_one (by_key user_id id) s.users

  abbrev pub save_device : Device → Devices env → Devices env
  save_device d s = record s { devices = env.devices.save d s.devices }

  abbrev pub log_device : String → String → String → Map Value → Devices env → Devices env
  log_device action id actor meta s = record s {
    audit =
        log
          (record {
            action = action;
            entity_type = some "Device";
            entity_id = some id;
            user_id = some actor;
            ip_address = none;
            metadata = some meta;
          })
          s.audit;
  }

  -- The user of the id, if one is given; an unknown one is refused.
  abbrev pub assignee : Option String → Action (Devices env) (Option User)
  assignee none = pure none
  assignee (some id) = do s ← state; u ← or_throw (find_user id s) not_found; pure (some u)

  unfoldable pub create : ℕ → String → CreateDeviceDto → String → Action (Devices env) Device
  create now id dto actor = do
    s ← state
    throw_if (is_some (of_serial dto.serial s)) conflict
    user ← assignee (given dto.assigned_user_id)
    modify (save_device (new_device now id dto user))
    modify (
        log_device "DEVICE_CREATED" id actor
          (("serial", text dto.serial) ∷ ("wowzaStreamName", text dto.wowza_stream_name) ∷ []))
    pure (new_device now id dto user)

  unfoldable pub find_one : String → Action (Devices env) Device
  find_one id = do s ← state; or_throw (find_device id s) not_found

  unfoldable pub find_by_serial : String → Action (Devices env) Device
  find_by_serial n = do s ← state; or_throw (of_serial n s) not_found

  abbrev assign_known : ℕ → String → String → String → Device → Action (Devices env) Device
  assign_known now id uid actor d = do
    s ← state
    u ← or_throw (find_user uid s) not_found
    modify (
        log_device "DEVICE_ASSIGNED" id actor (
          ("assignedTo", text uid)
          ∷ ("previousUser", previous_user d.assigned_user)
          ∷ ("assignedAt", number now)
          ∷ []))
    pure (record d { assigned_user = some u; assigned_at = some now })

  abbrev clear_user : ℕ → String → String → Device → Action (Devices env) Device
  clear_user now id actor d = do
    modify (
        log_device "DEVICE_UNASSIGNED" id actor
          (("previousUser", previous_user d.assigned_user) ∷ ("unassignedAt", number now) ∷ []))
    pure (record d { assigned_user = none; assigned_at = none })

  -- The part of `update` under `if (dto.assignedUserId !== undefined)`.
  unfoldable pub reassign :
      ℕ → String → String → Option String → Device → Action (Devices env) Device
  reassign now id actor none d = pure d
  reassign now id actor (some uid) d =
      if uid == "" then clear_user now id actor d else assign_known now id uid actor d

  unfoldable pub update : ℕ → String → UpdateDeviceDto → String → Action (Devices env) Device
  update now id dto actor = do
    s ← state
    d ← or_throw (find_device id s) not_found
    throw_if (new_serial dto.serial d && is_some (of_serial (get_or dto.serial "") s)) conflict
    d' ← reassign now id actor dto.assigned_user_id (with_fields dto d)
    modify (save_device d')
    modify (log_device "DEVICE_UPDATED" id actor (("changes", texts dto.keys) ∷ []))
    pure d'

  unfoldable pub remove : String → String → Action (Devices env) (Unit {0})
  remove id actor = do
    s ← state
    d ← or_throw (find_device id s) not_found
    modify (save_device (record d { is_active = false }))
    modify (log_device "DEVICE_DELETED" id actor (("serial", text d.serial) ∷ []))

  unfoldable pub assign_to_user : ℕ → String → String → String → Action (Devices env) Device
  assign_to_user now id uid actor = do
    s ← state
    d ← or_throw (find_device id s) not_found
    u ← or_throw (find_user uid s) not_found
    let d' = record d {
      assigned_user = some u;
      assigned_at = some now;
      quadrant_id = u.quadrant_id;
    }
    modify (save_device d')
    modify (
        log_device "DEVICE_ASSIGNED" id actor (
          ("assignedTo", text uid)
          ∷ ("previousUser", previous_user d.assigned_user)
          ∷ ("assignedAt", number now)
          ∷ []))
    pure d'

  unfoldable pub unassign_from_user : ℕ → String → String → Action (Devices env) Device
  unassign_from_user now id actor = do
    s ← state
    d ← or_throw (find_device id s) not_found
    let d' = record d { assigned_user = none; assigned_at = none; quadrant_id = none }
    modify (save_device d')
    modify (
        log_device "DEVICE_UNASSIGNED" id actor
          (("previousUser", previous_user d.assigned_user) ∷ ("unassignedAt", number now) ∷ []))
    pure d'

  unfoldable pub update_status : ℕ → String → DeviceStatus → String → Action (Devices env) Device
  update_status now id st actor = do
    s ← state
    d ← or_throw (find_device id s) not_found
    let d' = record d {
      status = st;
      last_seen = if is_active_status st then some now else d.last_seen;
    }
    modify (save_device d')
    modify (
        log_device "DEVICE_STATUS_CHANGED" id actor (
          ("previousStatus", text (status_word d.status))
          ∷ ("newStatus", text (status_word st))
          ∷ []))
    pure d'
