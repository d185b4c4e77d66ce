-- ===== src/Examples/StreamRows.antt =====
-- A table with one RTSP stream, on a service that has just started.
use mediavault_backend.Prelude.{none, some, [], ◌∷◌}
use mediavault_backend.Streams.Stream.{Stream, stream_key, rtsp}
use mediavault_backend.Streams.Requests.{CreateStreamDto}
use mediavault_backend.Streams.Rows.{new_stream}
use mediavault_backend.Streams.Service.{Streams}
use mediavault_backend.Platform.Repository.{Repository}
use mediavault_backend.Examples.Tables.{list_repository}
use mediavault_backend.Examples.Cameras.{booted}

abbrev pub repo : Repository Stream stream_key
repo = list_repository stream_key

abbrev dto : CreateStreamDto
dto = record {
  name = "Gate";
  description = none;
  wowza_app_name = "live";
  wowza_stream_name = "gate";
  source_url = some "rtsp://cam";
  protocol = rtsp;
  location = none;
  metadata = none;
}

abbrev pub gate : Stream
gate = new_stream 1 "s1" dto "u1"

abbrev pub idle : Streams repo
idle = record { streams = gate ∷ []; ingestion = booted; audit = []; sent = [] }
