-- ===== src/Streams/Requests.antt =====
-- What the service of src/modules/streams takes and returns: its DTOs, and the answers that Wowza
-- gives during a call.
use mediavault_backend.Prelude.{ℕ, String, Bool, false, Option, none, some, Map, Result, get_or}
use mediavault_backend.Ingestion.Config.{IngestionStatus}
use mediavault_backend.Streams.Stream.{Stream, StreamProtocol, StreamStatus}

-- `CreateStreamDto`, without the codec settings that the service never reads.
pub record CreateStreamDto : Type 0 where
  pub name : String
  pub description : Option String
  pub wowza_app_name : String
  pub wowza_stream_name : String
  pub source_url : Option String
  pub protocol : StreamProtocol
  pub location : Option String
  pub metadata : Option (Map String)

-- `UpdateStreamDto`, without them too: they are no columns of the entity.
pub record UpdateStreamDto : Type 0 where
  pub name : Option String
  pub description : Option String
  pub wowza_app_name : Option String
  pub source_url : Option String
  pub protocol : Option StreamProtocol
  pub location : Option String
  pub metadata : Option (Map String)

abbrev pub or_stored {ℓ} : {A : Type ℓ} → Option A → Option A → Option A
or_stored none old = old
or_stored (some a) old = some a

-- `Object.assign(stream, dto)`.
abbrev pub assign : UpdateStreamDto → Stream → Stream
assign dto s = record s {
  name = get_or dto.name s.name;
  description = or_stored dto.description s.description;
  wowza_app_name = get_or dto.wowza_app_name s.wowza_app_name;
  source_url = or_stored dto.source_url s.source_url;
  protocol = get_or dto.protocol s.protocol;
  location = or_stored dto.location s.location;
  metadata = or_stored dto.metadata s.metadata;
}

pub record StreamResponse : Type 0 where
  pub id : String
  pub name : String
  pub description : Option String
  pub wowza_app_name : String
  pub wowza_stream_name : String
  pub source_url : Option String
  pub protocol : StreamProtocol
  pub status : StreamStatus
  pub location : Option String
  pub metadata : Option (Map String)
  pub created_at : ℕ
  pub updated_at : ℕ
  pub is_live_in_wowza : Bool
  pub active_connections : Option ℕ
  pub ingestion_status : Option IngestionStatus
  pub playback_urls : Option (Map String)

-- `toResponseDto`.
abbrev pub to_response_dto : Stream → StreamResponse
to_response_dto s = record {
  id = s.id;
  name = s.name;
  description = s.description;
  wowza_app_name = s.wowza_app_name;
  wowza_stream_name = s.wowza_stream_name;
  source_url = s.source_url;
  protocol = s.protocol;
  status = s.status;
  location = s.location;
  metadata = s.metadata;
  created_at = s.created_at;
  updated_at = s.updated_at;
  is_live_in_wowza = false;
  active_connections = none;
  ingestion_status = none;
  playback_urls = none;
}

-- What the Wowza service answers during a call: each answer may be an exception.
pub record Wowza : Type 0 where
  pub build_playback_urls : String → String → Result (Map String)
  -- `isConnected` of the incoming stream, if there is one.
  pub get_incoming_stream : String → String → Result (Option Bool)
  -- `byApplication` of the connections.
  pub get_connections : Result (Map ℕ)
