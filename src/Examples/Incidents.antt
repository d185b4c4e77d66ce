-- ===== src/Examples/Incidents.antt =====
-- The theorems on events at one event and one stream.
use mediavault_backend.Prelude.{ℕ, String, none, some, [], ◌∷◌, ◌≡◌, refl}
use mediavault_backend.Backend.{user_id}
use mediavault_backend.Streams.Stream.{stream_key}
use mediavault_backend.Events.{find_event, add_stream, remove_stream}
use mediavault_backend.Events.Records.{Event, event_key, EventTables, Events, open_event}
use mediavault_backend.Events.Links.{remove_stream-add_stream}
use mediavault_backend.Examples.Tables.{list_repository, first, visible, without}
use mediavault_backend.Examples.Server.{ana}
use mediavault_backend.Examples.StreamRows.{gate}

abbrev tables : EventTables
tables = record {
  events = list_repository event_key;
  streams = list_repository stream_key;
  users = list_repository user_id;
}

abbrev theft : Event
theft = record {
  id = "e1";
  title = "Theft";
  description = none;
  status = open_event;
  location = none;
  metadata = none;
  created_by = ana;
  streams = [];
  created_at = 1;
  updated_at = 1;
}

abbrev state : Events tables
state = record { events = theft ∷ []; streams = gate ∷ []; users = ana ∷ []; audit = []; sent = [] }

abbrev evidences : String → ℕ
evidences id = 0

remove_stream-add_stream_example :
    let t = (add_stream tables evidences "e1" "s1" "u1" state).0 in
    find_event tables "e1" (remove_stream tables "e1" "s1" "u1" t).0 ≡ some theft
remove_stream-add_stream_example =
    remove_stream-add_stream tables evidences state "e1" "s1" "u1" theft gate
      (unfold first visible without in refl) (unfold first visible without in refl) refl
