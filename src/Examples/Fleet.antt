-- ===== src/Examples/Fleet.antt =====
-- The theorems on servers and devices at tables with a row or two.
use mediavault_backend.Prelude.{
  true, none, some, List, [], ◌∷◌, ◌≡◌, refl, err, internal_error, ◌==◌,
}
use mediavault_backend.Platform.Repository.{Repository}
use mediavault_backend.Backend.{user_id}
use mediavault_backend.WowzaServers.{
  WowzaServer, server_key, CreateWowzaServerDto, clear_default, create, set_default, remove,
}
use mediavault_backend.WowzaServers.Default.{Op, Represents, run, run_pointer, run_refines}
use mediavault_backend.Devices.Records.{
  Device, device_key, DeviceTables, Devices, CreateDeviceDto, new_device, active,
}
use mediavault_backend.Devices.Sync.{sync_with_wowza, refreshed, sync_with_wowza_lem}
use mediavault_backend.Devices.Serials.{IsUnique, Call, exec, run-IsUnique}
use mediavault_backend.Devices.Serials as Serials
use mediavault_backend.Examples.Tables.{list_repository, first, visible, without}

abbrev pub servers : Repository WowzaServer server_key
servers = list_repository server_key

abbrev pub main_server : CreateWowzaServerDto
main_server = record {
  name = "main";
  ip = "10.0.0.1";
  port_stream = none;
  port_hls = none;
  port_api = none;
  app_name = "live";
  api_user = "admin";
  api_password = "pw";
  go2rtc_url = none;
  is_default = some true;
  is_active = none;
}

abbrev ops : List Op
ops =
    Op.creates 1 "w1" main_server
    ∷ Op.creates 2 "w2" (record main_server { name = "spare"; is_default = none })
    ∷ Op.sets_default "w2"
    ∷ Op.removes "w2"
    ∷ Op.removes "w1"
    ∷ []

pub none_default : Represents servers [] none
unfolding first visible
none_default k = refl

run_refines_example : Represents servers (run servers ops []) (run_pointer servers ops [] none)
run_refines_example =
    run_refines servers ops [] none
      (unfold create set_default remove clear_default first visible without in
        (refl, (refl, (tt, (tt, (tt, tt))))))
      none_default

abbrev request : CreateDeviceDto
request = record {
  name = "Drone";
  serial = "SN1";
  device_type = none;
  wowza_stream_name = "drone";
  assigned_user_id = none;
  status = some active;
  latitude = none;
  longitude = none;
  quadrant_id = none;
  zone_id = none;
}

abbrev drone : Device
drone = new_device 1 "d1" request none

abbrev devices : Repository Device device_key
devices = list_repository device_key

sync_with_wowza_lem_example :
    devices.find_one
      (λ d. d.id == "d1")
      (sync_with_wowza devices 30 (err internal_error) (drone ∷ []))
    ≡ some (refreshed 30 [] drone)
sync_with_wowza_lem_example =
    sync_with_wowza_lem devices 30 [] (drone ∷ []) "d1" drone (unfold first visible without in refl)
      (err internal_error) refl

abbrev tables : DeviceTables
tables = record { devices = devices; users = list_repository user_id }

abbrev shop : Devices tables
shop = record { devices = []; users = []; audit = [] }

none_stored : IsUnique tables shop
unfolding first visible
none_stored k j n e f = cc

abbrev calls : List (Call tables)
calls =
    Call.creates 1 "d1" request "u1"
    ∷ Call.removes "d1" "u1"
    ∷ Call.creates 2 "d2" request "u1"
    ∷ []

run-IsUnique_example : IsUnique tables (Serials.run tables calls shop)
run-IsUnique_example = run-IsUnique tables calls shop none_stored
