-- ===== src/Examples/Rounds.antt =====
-- The theorems on the polling at a stream that Wowza has just begun to receive.
use mediavault_backend.Prelude.{true, some, [], ◌∷◌, ◌≡◌, ok, err, service_unavailable}
use mediavault_backend.Gateway.Polling.{Gateway, poll_wowza_status}
use mediavault_backend.Gateway.Announcements.{heard, given_up_event, poll_wowza_status-heard}
use mediavault_backend.Streams.Requests.{Wowza}
use mediavault_backend.Examples.StreamRows.{repo, gate, idle}

abbrev receiving : Wowza
receiving = record {
  build_playback_urls = λ app name. ok [];
  get_incoming_stream = λ app name. ok (some true);
  get_connections = err service_unavailable;
}

abbrev watched : Gateway repo
watched = record {
  clients = "c1" ∷ [];
  last_known_status = ("s1", "inactive") ∷ [];
  last_known_ingestion_status = [];
  streams = idle;
}

poll_wowza_status-heard_example :
    heard given_up_event (poll_wowza_status repo receiving 50 (ok (gate ∷ [])) watched).streams.sent
    ≡ 0
poll_wowza_status-heard_example = poll_wowza_status-heard repo receiving 50 (ok (gate ∷ [])) watched
