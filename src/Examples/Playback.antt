-- ===== src/Examples/Playback.antt =====
-- The theorem on the server of Wowza that is asked, at two servers.
use mediavault_backend.Prelude.{true, none, some, List, [], ◌∷◌, ◌≡◌, refl}
use mediavault_backend.WowzaServers.{
  WowzaServer, create, set_default, remove, clear_default, find_server,
}
use mediavault_backend.WowzaServers.Default.{Op, run}
use mediavault_backend.Wowza.{WowzaEnv, server_config, get_active_server}
use mediavault_backend.Wowza.Active.{get_active_server-run}
use mediavault_backend.Examples.Tables.{first, visible, without}
use mediavault_backend.Examples.Fleet.{servers, main_server, none_default}

abbrev no_env : WowzaEnv
no_env = record {
  host = none;
  port_api = none;
  port_stream = none;
  port_hls = none;
  api_user = none;
  api_password = none;
  app_name = none;
}

abbrev ops : List Op
ops =
    Op.creates 1 "w1" main_server
    ∷ Op.creates 2 "w2" (record main_server { name = "spare"; is_default = none })
    ∷ Op.sets_default "w2"
    ∷ []

computing : Unit {0}
unfolding create set_default remove clear_default first visible without
computing = tt

spare :
    (s : WowzaServer) × (find_server servers "w2" (run servers ops []) ≡ some s)
    × (s.is_active ≡ true)
unfolding computing
spare = (_, refl, refl)

get_active_server-run_example :
    get_active_server servers true no_env none (run servers ops []) ≡ server_config spare.0
unfolding computing
get_active_server-run_example =
    get_active_server-run servers no_env ops [] none "w2" spare.0 (refl, (refl, (tt, tt)))
      none_default refl spare.1 spare.2
