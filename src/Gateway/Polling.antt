-- ===== src/Gateway/Polling.antt =====
-- The polling round of src/modules/gateway/streaming.gateway.ts. The streams that `findAll` lists and
-- Wowza's answers are arguments; the streams follow one another. The payload about the server that
-- every third round sends is not modelled.
use mediavault_backend.Prelude.{
  ℕ, String, Bool, true, false, Option, none, some, List, [], ◌∷◌, ◌==◌, if◌then◌else◌, not, get,
  set, delete, Map, Result, ok, err,
}
use mediavault_backend.Ingestion.Config.{IngestionProcessState, ingestion_text}
use mediavault_backend.Ingestion.Service.{is_running, get_status}
use mediavault_backend.Platform.Repository.{Repository}
use mediavault_backend.Gateway.Emissions.{
  Emission, stream_status, emit_stream_event, emit_ingestion_status,
}
use mediavault_backend.Streams.Stream.{Stream, stream_key, status_text}
use mediavault_backend.Streams.Requests.{StreamResponse, Wowza}
use mediavault_backend.Streams.Service.{Streams, sync_status_from_wowza}

-- `connectedClients`, of which the round reads the size, and the two maps of last known statuses.
pub record Gateway (repo : Repository Stream stream_key) : Type 0 where
  pub clients : List String
  pub last_known_status : Map String
  pub last_known_ingestion_status : Map String
  pub streams : Streams repo

-- `previous !== undefined && previous !== current`.
abbrev pub changed : Option String → String → Bool
changed none current = false
changed (some previous) current = not (previous == current)

-- `previous !== current`, where there may be none.
abbrev pub differs : Option String → String → Bool
differs none current = true
differs (some previous) current = not (previous == current)

abbrev pub or_empty : Option String → String
or_empty none = ""
or_empty (some s) = s

module _ (repo : Repository Stream stream_key) where
  abbrev pub sending : (List Emission → List Emission) → Gateway repo → Gateway repo
  sending f g = record g { streams = record (g.streams) { sent = f g.streams.sent } }

  -- The status of the row, if it is not the last known one, and the last known one.
  unfoldable pub announce_status : ℕ → Stream → StreamResponse → Gateway repo → Gateway repo
  announce_status now v u g =
      let previous = get v.id g.last_known_status in
      let g' =
        if changed previous (status_text u.status)
        then sending
            (emit_stream_event "stream:statusChanged" v.id (
              stream_status (record {
                stream_id = v.id;
                stream_name = v.wowza_stream_name;
                previous_status = or_empty previous;
                current_status = status_text u.status;
                is_live_in_wowza = u.is_live_in_wowza;
                timestamp = now;
              })))
            g
        else g in
      record g' { last_known_status = set v.id (status_text u.status) g'.last_known_status }

  -- A new status of a running ingestion.
  abbrev pub announce_state :
      ℕ → Stream → Result IngestionProcessState → Gateway repo → Gateway repo
  announce_state now v (err e) g = g
  announce_state now v (ok st) g =
      if differs (get v.id g.last_known_ingestion_status) (ingestion_text st.status)
      then record (sending
          (emit_ingestion_status v.id (record {
            stream_id = v.id;
            stream_name = v.wowza_stream_name;
            status = st.status;
            reconnect_attempts = some st.reconnect_attempts;
            last_error = st.last_error;
            timestamp = now;
          }))
          g) {
            last_known_ingestion_status =
                set v.id (ingestion_text st.status) g.last_known_ingestion_status;
          }
      else g

  unfoldable pub announce_ingestion : ℕ → Stream → Gateway repo → Gateway repo
  announce_ingestion now v g =
      if is_running v.id g.streams.ingestion
      then announce_state now v (get_status v.id g.streams.ingestion).1 g
      else record g { last_known_ingestion_status = delete v.id g.last_known_ingestion_status }

  abbrev pub announce : ℕ → Stream → Result StreamResponse → Gateway repo → Gateway repo
  announce now v (err e) g = g
  announce now v (ok u) g = announce_ingestion now v (announce_status now v u g)

  unfoldable pub poll_stream : Wowza → ℕ → Stream → Gateway repo → Gateway repo
  poll_stream w now v g =
      let (streams, answer) = sync_status_from_wowza repo w v.id g.streams in
      announce now v answer (record g { streams = streams })

  unfoldable pub poll_each : Wowza → ℕ → List Stream → Gateway repo → Gateway repo
  poll_each w now [] g = g
  poll_each w now (v ∷ vs) g = poll_each w now vs (poll_stream w now v g)

  abbrev no_clients : List String → Bool
  no_clients [] = true
  no_clients (c ∷ cs) = false

  -- `pollWowzaStatus`.
  unfoldable pub poll_wowza_status : Wowza → ℕ → Result (List Stream) → Gateway repo → Gateway repo
  unfolding poll_each
  poll_wowza_status w now (err e) g = g
  poll_wowza_status w now (ok listed) g =
      if no_clients g.clients then g else poll_each w now listed g
