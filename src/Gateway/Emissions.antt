-- ===== src/Gateway/Emissions.antt =====
-- What src/modules/gateway/streaming.gateway.ts sends: each `server.to(room).emit(event, payload)`,
-- the newest first.
use Prim.Native.String
use mediavault_backend.Prelude.{ℕ, String, Bool, Option, List, ◌∷◌}
use mediavault_backend.Ingestion.Config.{
  IngestionStatus, starting, running, reconnecting, max_retries,
}

pub data AlertLevel : Type 0 where
  info warning critical : AlertLevel

pub data AlertCategory : Type 0 where
  stream ingestion auth system : AlertCategory

pub record AlertPayload : Type 0 where
  pub id : String
  pub level : AlertLevel
  pub category : AlertCategory
  pub title : String
  pub message : String
  pub stream_id : Option String
  pub timestamp : ℕ

pub record IngestionStatusPayload : Type 0 where
  pub stream_id : String
  pub stream_name : String
  pub status : IngestionStatus
  pub reconnect_attempts : Option ℕ
  pub last_error : Option String
  pub timestamp : ℕ

-- The statuses are texts here: the gateway compares and sends them as such.
pub record StreamStatusPayload : Type 0 where
  pub stream_id : String
  pub stream_name : String
  pub previous_status : String
  pub current_status : String
  pub is_live_in_wowza : Bool
  pub timestamp : ℕ

pub data Payload : Type 0 where
  alert : AlertPayload → Payload
  ingestion_status : IngestionStatusPayload → Payload
  stream_status : StreamStatusPayload → Payload
  -- The evidence's fields without its storage path: its id and its hash are the ones named.
  evidence : String → String → Payload

pub record Emission : Type 0 where
  pub room : String
  pub event : String
  pub payload : Payload

abbrev pub stream_room : String → String
stream_room id = String.◌++◌ "stream:" id

abbrev pub send : String → String → Payload → List Emission → List Emission
send room event payload sent = record { room = room; event = event; payload = payload } ∷ sent

-- `emitStreamEvent`.
unfoldable pub emit_stream_event : String → String → Payload → List Emission → List Emission
emit_stream_event event id payload sent =
    send "all_streams" event payload (send (stream_room id) event payload sent)

-- `emitAlert`.
unfoldable pub emit_alert : AlertPayload → List Emission → List Emission
emit_alert p sent = send "all" "alert:new" (alert p) sent

abbrev pub ingestion_event : IngestionStatus → String
ingestion_event starting = "ingestion:started"
ingestion_event running = "ingestion:started"
ingestion_event reconnecting = "ingestion:reconnecting"
ingestion_event max_retries = "ingestion:maxRetriesReached"
ingestion_event _ = "ingestion:stopped"

-- `emitIngestionStatus`.
unfoldable pub emit_ingestion_status :
    String → IngestionStatusPayload → List Emission → List Emission
emit_ingestion_status id p sent =
    send (stream_room id) (ingestion_event p.status) (ingestion_status p) sent
