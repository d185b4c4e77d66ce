-- ===== src/Events/Records.antt =====
-- The entities, requests and views of src/modules/events, and the state of its service.
use mediavault_backend.Prelude.{
  ℕ, String, Bool, true, false, ◌&&◌, Option, none, some, List, map, get_or, Map,
}
use mediavault_backend.Platform.Repository.{Repository}
use mediavault_backend.Audit.{AuditLog}
use mediavault_backend.Gateway.Emissions.{Emission}
use mediavault_backend.Backend.{User, user_id}
use mediavault_backend.Streams.Stream.{Stream, StreamStatus, stream_key}

pub data EventStatus : Type 0 where
  open_event closed archived : EventStatus

pub record Event : Type 0 where
  pub id : String
  pub title : String
  pub description : Option String
  pub status : EventStatus
  pub location : Option String
  pub metadata : Option (Map String)
  pub created_by : User
  pub streams : List Stream
  pub created_at : ℕ
  pub updated_at : ℕ

abbrev pub event_key : Event → String
event_key e = e.id

pub record CreateEventDto : Type 0 where
  pub title : String
  pub description : Option String
  pub status : Option EventStatus
  pub location : Option String
  pub stream_ids : Option (List String)
  pub metadata : Option (Map String)

pub record UpdateEventDto : Type 0 where
  pub title : Option String
  pub description : Option String
  pub status : Option EventStatus
  pub location : Option String
  pub stream_ids : Option (List String)
  pub metadata : Option (Map String)

pub record StreamSummary : Type 0 where
  pub id : String
  pub name : String
  pub status : StreamStatus
  pub wowza_app_name : String

pub record EventCreatedBy : Type 0 where
  pub id : String
  pub first_name : String
  pub last_name : String

pub record EventResponse : Type 0 where
  pub id : String
  pub title : String
  pub description : Option String
  pub status : EventStatus
  pub location : Option String
  pub metadata : Option (Map String)
  pub created_by : EventCreatedBy
  pub streams : List StreamSummary
  pub evidence_count : ℕ
  pub created_at : ℕ
  pub updated_at : ℕ

abbrev pub summary : Stream → StreamSummary
summary s = record {
  id = s.id;
  name = s.name;
  status = s.status;
  wowza_app_name = s.wowza_app_name;
}

abbrev pub to_dto : ℕ → Event → EventResponse
to_dto evidences e = record {
  id = e.id;
  title = e.title;
  description = e.description;
  status = e.status;
  location = e.location;
  metadata = e.metadata;
  created_by = record {
    id = e.created_by.id;
    first_name = e.created_by.first_name;
    last_name = e.created_by.last_name;
  };
  streams = map summary e.streams;
  evidence_count = evidences;
  created_at = e.created_at;
  updated_at = e.updated_at;
}

abbrev pub is_open : EventStatus → Bool
is_open open_event = true
is_open _ = false

abbrev pub is_closed : EventStatus → Bool
is_closed closed = true
is_closed _ = false

-- `wasOpen && dto.status === EventStatus.CLOSED`.
abbrev pub closes : Event → Option EventStatus → Bool
closes e none = false
closes e (some st) = is_open e.status && is_closed st

abbrev pub or_kept {ℓ} : {A : Type ℓ} → Option A → Option A → Option A
or_kept none old = old
or_kept (some a) old = some a

abbrev pub with_fields : UpdateEventDto → Event → Event
with_fields dto e = record e {
  title = get_or dto.title e.title;
  description = or_kept dto.description e.description;
  status = get_or dto.status e.status;
  location = or_kept dto.location e.location;
  metadata = or_kept dto.metadata e.metadata;
}

pub record EventTables : Type 1 where
  pub events : Repository Event event_key
  pub streams : Repository Stream stream_key
  pub users : Repository User user_id

pub record Events (env : EventTables) : Type 0 where
  pub events : env.events.Table
  pub streams : env.streams.Table
  pub users : env.users.Table
  pub audit : List AuditLog
  pub sent : List Emission
