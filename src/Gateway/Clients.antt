-- ===== src/Gateway/Clients.antt =====
-- The connections and subscriptions of src/modules/gateway/streaming.gateway.ts. The user that the
-- handshake finds, and what the other services answer, are arguments.
pub mod Membership
use mediavault_backend.Prelude.{
  ℕ, String, Bool, true, false, not, Option, none, some, List, [], ◌∷◌, ◌++◌, ◌==◌, if◌then◌else◌,
  any, filter, length, Map, get, set, delete, Result, ok, err, get_or,
}
use mediavault_backend.Platform.SocketRooms.{SocketRooms}
use mediavault_backend.Gateway.Emissions.{StreamStatusPayload, stream_room}
use mediavault_backend.Wowza.{ServerStatus}

pub record HandshakeUser : Type 0 where
  pub user_id : String
  pub email : String
  pub role : String

-- `ConnectedClient`; the set has its elements in the order of their insertion.
pub record ConnectedClient : Type 0 where
  pub user_id : String
  pub email : String
  pub role : String
  pub connected_at : ℕ
  pub subscribed_streams : List String

pub record ServerStatusPayload : Type 0 where
  pub wowza_online : Bool
  pub wowza_version : Option String
  pub total_streams : ℕ
  pub active_streams : ℕ
  pub total_connections : ℕ
  pub connected_clients : ℕ
  pub timestamp : ℕ

-- What is sent to one client.
pub data Message : Type 0 where
  server_status : ServerStatusPayload → Message
  stream_status_changed : StreamStatusPayload → Message

-- What `StreamsService.findOne` answers, as far as the gateway reads it.
pub record CurrentStream : Type 0 where
  pub wowza_stream_name : String
  pub status : String
  pub is_live_in_wowza : Bool

pub record Clients (rm : SocketRooms) : Type 0 where
  pub connected_clients : Map ConnectedClient
  pub rooms : rm.Rooms
  -- The newest first.
  pub messages : List (String × Message)

abbrev pub or_zero : Result ℕ → ℕ
or_zero (ok n) = n
or_zero (err e) = 0

abbrev pub online : Result ServerStatus → Bool
online (ok s) = s.is_online
online (err e) = false

abbrev pub version : Result ServerStatus → Option String
version (ok s) = some s.version
version (err e) = none

-- `buildServerStatusPayload`, given the answers on Wowza and the two totals.
unfoldable pub build_server_status_payload :
    ℕ → Result ServerStatus → Result ℕ → Result ℕ → ℕ → ServerStatusPayload
build_server_status_payload now w all active clients = record {
  wowza_online = online w;
  wowza_version = version w;
  total_streams = or_zero all;
  active_streams = or_zero active;
  total_connections = 0;
  connected_clients = clients;
  timestamp = now;
}

abbrev pub subscribes : String → ConnectedClient → Bool
subscribes sid c = any (λ i. i == sid) c.subscribed_streams

-- `subscribedStreams.add` and `delete`.
abbrev pub with_stream : String → ConnectedClient → ConnectedClient
with_stream sid c =
    if subscribes sid c
    then c
    else record c { subscribed_streams = c.subscribed_streams ++ sid ∷ [] }

abbrev pub without_stream : String → ConnectedClient → ConnectedClient
without_stream sid c = record c {
  subscribed_streams = filter (λ i. not (i == sid)) c.subscribed_streams;
}

-- A client of the map is changed in place.
abbrev pub change_client :
    String → (ConnectedClient → ConnectedClient) → Map ConnectedClient → Map ConnectedClient
change_client id f m = elim (get id m) [ none ↦ m | some c ↦ set id (f c) m ]

abbrev pub new_client : ℕ → HandshakeUser → ConnectedClient
new_client now u = record {
  user_id = u.user_id;
  email = u.email;
  role = u.role;
  connected_at = now;
  subscribed_streams = [];
}

abbrev pub current_status : ℕ → String → CurrentStream → StreamStatusPayload
current_status now sid v = record {
  stream_id = sid;
  stream_name = v.wowza_stream_name;
  previous_status = v.status;
  current_status = v.status;
  is_live_in_wowza = v.is_live_in_wowza;
  timestamp = now;
}

module _ (rm : SocketRooms) where
  abbrev pub tell_status : ℕ → String → String → Option CurrentStream → Clients rm → Clients rm
  tell_status now id sid none s = s
  tell_status now id sid (some v) s = record s {
    messages = (id, stream_status_changed (current_status now sid v)) ∷ s.messages;
  }

  -- `handleConnection`: a refused handshake disconnects the socket.
  unfoldable pub handle_connection :
      ℕ
      → String
      → Option HandshakeUser
      → Result ServerStatus
      → Result ℕ
      → Result ℕ
      → Clients rm
      → Clients rm
  handle_connection now id none w all active s = record s { rooms = rm.drop id s.rooms }
  handle_connection now id (some u) w all active s =
      let m = set id (new_client now u) s.connected_clients in
      record {
        connected_clients = m;
        rooms = rm.join id "all" s.rooms;
        messages =
            (id, server_status (build_server_status_payload now w all active (length m)))
            ∷ s.messages;
      }

  -- The library leaves the rooms and `handleDisconnect` forgets the client.
  unfoldable pub handle_disconnect : String → Clients rm → Clients rm
  handle_disconnect id s = record s {
    connected_clients = delete id s.connected_clients;
    rooms = rm.drop id s.rooms;
  }

  unfoldable pub handle_subscribe_stream :
      ℕ → String → String → Option CurrentStream → Clients rm → Clients rm
  handle_subscribe_stream now id sid current s = tell_status now id sid current (record s {
    connected_clients = change_client id (with_stream sid) s.connected_clients;
    rooms = rm.join id (stream_room sid) s.rooms;
  })

  unfoldable pub handle_unsubscribe_stream : String → String → Clients rm → Clients rm
  handle_unsubscribe_stream id sid s = record s {
    connected_clients = change_client id (without_stream sid) s.connected_clients;
    rooms = rm.leave id (stream_room sid) s.rooms;
  }

  unfoldable pub handle_subscribe_all : String → Clients rm → Clients rm
  handle_subscribe_all id s = record s { rooms = rm.join id "all_streams" s.rooms }
