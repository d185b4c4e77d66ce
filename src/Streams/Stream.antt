-- ===== src/Streams/Stream.antt =====
-- The entity of src/modules/streams/entities/stream.entity.ts. Its relations
-- are not loaded, but for the creator's id.
use mediavault_backend.Prelude.{ℕ, String, Option, Map}

pub data StreamStatus : Type 0 where
  active inactive error connecting : StreamStatus

abbrev pub status_text : StreamStatus → String
status_text active = "active"
status_text inactive = "inactive"
status_text error = "error"
status_text connecting = "connecting"

pub data StreamProtocol : Type 0 where
  hls dash web_rtc rtmp rtsp srt : StreamProtocol

abbrev pub protocol_text : StreamProtocol → String
protocol_text hls = "HLS"
protocol_text dash = "DASH"
protocol_text web_rtc = "WebRTC"
protocol_text rtmp = "RTMP"
protocol_text rtsp = "RTSP"
protocol_text srt = "SRT"

pub record Stream : Type 0 where
  pub id : String
  pub name : String
  pub description : Option String
  pub wowza_app_name : String
  pub wowza_stream_name : String
  pub source_url : Option String
  pub protocol : StreamProtocol
  pub status : StreamStatus
  pub location : Option String
  pub metadata : Option (Map String)
  pub created_by : String
  pub created_at : ℕ
  pub updated_at : ℕ

abbrev pub stream_key : Stream → String
stream_key s = s.id
