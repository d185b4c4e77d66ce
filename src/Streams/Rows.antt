-- ===== src/Streams/Rows.antt =====
-- The parts of src/modules/streams/streams.service.ts that read a row or make one.
use mediavault_backend.Prelude.{
  ℕ, String, Bool, true, false, Option, none, some, ◌==◌, ◌&&◌, if◌then◌else◌,
}
use mediavault_backend.Ingestion.Config.{
  RtspCameraConfig, VideoCodecStrategy, AudioCodecStrategy, tcp,
}
use mediavault_backend.Streams.Stream.{
  Stream, StreamStatus, active, inactive, connecting, StreamProtocol, rtsp,
}
use mediavault_backend.Streams.Requests.{CreateStreamDto}

-- `where: { wowzaAppName, wowzaStreamName }`.
abbrev pub same_target : String → String → Stream → Bool
same_target app name s = s.wowza_app_name == app && s.wowza_stream_name == name

abbrev pub new_stream : ℕ → String → CreateStreamDto → String → Stream
new_stream now id dto uid = record {
  id = id;
  name = dto.name;
  description = dto.description;
  wowza_app_name = dto.wowza_app_name;
  wowza_stream_name = dto.wowza_stream_name;
  source_url = dto.source_url;
  protocol = dto.protocol;
  status = inactive;
  location = dto.location;
  metadata = dto.metadata;
  created_by = uid;
  created_at = now;
  updated_at = now;
}

-- `stream.status === ACTIVE || stream.status === CONNECTING`.
abbrev pub is_busy : StreamStatus → Bool
is_busy active = true
is_busy connecting = true
is_busy _ = false

abbrev pub is_rtsp : StreamProtocol → Bool
is_rtsp rtsp = true
is_rtsp _ = false

-- `stream.sourceUrl`, unless it is falsy.
abbrev pub non_empty : Option String → Option String
non_empty none = none
non_empty (some u) = if u == "" then none else some u

abbrev pub config_of : Stream → String → RtspCameraConfig
config_of s url = record {
  stream_id = s.id;
  stream_name = s.wowza_stream_name;
  rtsp_url = url;
  wowza_app_name = s.wowza_app_name;
  transport = tcp;
  video_codec = VideoCodecStrategy.copy;
  audio_codec = AudioCodecStrategy.aac;
  reconnect_delay_ms = none;
  max_reconnect_attempts = none;
  ffmpeg_extra_args = none;
}
