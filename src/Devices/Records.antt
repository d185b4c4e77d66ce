-- ===== src/Devices/Records.antt =====
-- The entity and the requests of src/modules/devices, and the state of its service.
use mediavault_backend.Prelude.{
  ℕ, String, Bool, true, false, not, ◌&&◌, Option, none, some, List, ◌==◌, if◌then◌else◌, get_or,
}
use mediavault_backend.Platform.Repository.{Repository}
use mediavault_backend.Audit.{AuditLog, Value, text, null}
use mediavault_backend.Backend.{User, user_id}

pub data DeviceStatus : Type 0 where
  registered active inactive : DeviceStatus

pub record Device : Type 0 where
  pub id : String
  pub name : String
  pub serial : String
  pub device_type : Option String
  pub wowza_stream_name : String
  pub assigned_user : Option User
  pub status : DeviceStatus
  pub latitude : Option String
  pub longitude : Option String
  pub assigned_at : Option ℕ
  pub last_seen : Option ℕ
  pub quadrant_id : Option String
  pub zone_id : Option String
  pub is_active : Bool
  pub created_at : ℕ
  pub updated_at : ℕ

abbrev pub device_key : Device → String
device_key d = d.id

pub record CreateDeviceDto : Type 0 where
  pub name : String
  pub serial : String
  pub device_type : Option String
  pub wowza_stream_name : String
  pub assigned_user_id : Option String
  pub status : Option DeviceStatus
  pub latitude : Option String
  pub longitude : Option String
  pub quadrant_id : Option String
  pub zone_id : Option String

-- `keys` is what `Object.keys` answers for the request.
pub record UpdateDeviceDto : Type 0 where
  pub name : Option String
  pub serial : Option String
  pub device_type : Option String
  pub wowza_stream_name : Option String
  pub status : Option DeviceStatus
  pub assigned_user_id : Option String
  pub is_active : Option Bool
  pub latitude : Option String
  pub longitude : Option String
  pub quadrant_id : Option String
  pub zone_id : Option String
  pub keys : List String

pub record DeviceTables : Type 1 where
  pub devices : Repository Device device_key
  pub users : Repository User user_id

pub record Devices (env : DeviceTables) : Type 0 where
  pub devices : env.devices.Table
  pub users : env.users.Table
  pub audit : List AuditLog

abbrev pub has_serial : String → Device → Bool
has_serial n d = d.serial == n

-- A property of the request, if it is there and not the empty text.
abbrev pub given : Option String → Option String
given none = none
given (some s) = if s == "" then none else some s

-- `dto.serial && dto.serial !== device.serial`.
abbrev pub new_serial : Option String → Device → Bool
new_serial none d = false
new_serial (some n) d = not (n == "") && not (n == d.serial)

abbrev pub or_stored {ℓ} : {A : Type ℓ} → Option A → Option A → Option A
or_stored none old = old
or_stored (some a) old = some a

abbrev pub with_fields : UpdateDeviceDto → Device → Device
with_fields dto d = record d {
  serial = if new_serial dto.serial d then get_or dto.serial "" else d.serial;
  name = get_or dto.name d.name;
  device_type = or_stored dto.device_type d.device_type;
  wowza_stream_name = get_or dto.wowza_stream_name d.wowza_stream_name;
  status = get_or dto.status d.status;
  is_active = get_or dto.is_active d.is_active;
  latitude = or_stored dto.latitude d.latitude;
  longitude = or_stored dto.longitude d.longitude;
  quadrant_id = or_stored dto.quadrant_id d.quadrant_id;
  zone_id = or_stored dto.zone_id d.zone_id;
}

-- `device.assignedUser?.id ?? null`.
abbrev pub previous_user : Option User → Value
previous_user none = null
previous_user (some u) = text u.id

abbrev pub status_word : DeviceStatus → String
status_word registered = "REGISTERED"
status_word active = "ACTIVE"
status_word inactive = "INACTIVE"

abbrev pub is_active_status : DeviceStatus → Bool
is_active_status active = true
is_active_status _ = false

abbrev pub new_device : ℕ → String → CreateDeviceDto → Option User → Device
new_device now id dto user = record {
  id = id;
  name = dto.name;
  serial = dto.serial;
  device_type = dto.device_type;
  wowza_stream_name = dto.wowza_stream_name;
  assigned_user = user;
  status = get_or dto.status registered;
  latitude = dto.latitude;
  longitude = dto.longitude;
  assigned_at = none;
  last_seen = none;
  quadrant_id = dto.quadrant_id;
  zone_id = dto.zone_id;
  is_active = true;
  created_at = now;
  updated_at = now;
}
