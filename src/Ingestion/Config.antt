-- ===== src/Ingestion/Config.antt =====
-- The data of the ingestion service: src/modules/ingestion/types.
use mediavault_backend.Prelude.{ℕ, String, List, Option}

pub data StreamTransportProtocol : Type 0 where
  tcp udp : StreamTransportProtocol

pub data VideoCodecStrategy : Type 0 where
  copy h264 h265 : VideoCodecStrategy

pub data AudioCodecStrategy : Type 0 where
  copy aac none : AudioCodecStrategy

pub record RtspCameraConfig : Type 0 where
  pub stream_id : String
  pub stream_name : String
  pub rtsp_url : String
  pub wowza_app_name : String
  pub transport : StreamTransportProtocol
  pub video_codec : VideoCodecStrategy
  pub audio_codec : AudioCodecStrategy
  pub reconnect_delay_ms : Option ℕ
  pub max_reconnect_attempts : Option ℕ
  pub ffmpeg_extra_args : Option (List String)

pub data IngestionStatus : Type 0 where
  starting running reconnecting stopped error max_retries : IngestionStatus

abbrev pub ingestion_text : IngestionStatus → String
ingestion_text starting = "starting"
ingestion_text running = "running"
ingestion_text reconnecting = "reconnecting"
ingestion_text stopped = "stopped"
ingestion_text error = "error"
ingestion_text max_retries = "max_retries_reached"

-- Dates are milliseconds. `bytesProcessed` is never written by the service.
pub record IngestionProcessState : Type 0 where
  pub stream_id : String
  pub stream_name : String
  pub status : IngestionStatus
  pub pid : Option ℕ
  pub started_at : Option ℕ
  pub reconnect_attempts : ℕ
  pub last_error : Option String
  pub last_error_at : Option ℕ
  pub bytes_processed : Option ℕ
  pub ffmpeg_command : Option String

pub record IngestionSummary : Type 0 where
  pub total : ℕ
  pub running : ℕ
  pub reconnecting : ℕ
  pub error : ℕ
  pub processes : List IngestionProcessState
