-- ===== src/Streams/Service.antt =====
-- src/modules/streams/streams.service.ts. The ids, the time and Wowza's answers are arguments; the
-- gateway is there.
use mediavault_backend.Prelude.{
  ℕ, String, Bool, true, false, ◌||◌, Option, none, some, List, if◌then◌else◌, get, get_or, not,
  Result, ok, err, Action, ◌>>=◌, ◌>>◌, pure, throw_if, state, modify, or_throw, not_found,
  conflict, bad_request,
}
use mediavault_backend.Ingestion.Config.{IngestionStatus, IngestionProcessState}
use mediavault_backend.Ingestion.Args.{WowzaSettings}
use mediavault_backend.Ingestion.Service.{IngestionService, is_running, get_status}
use mediavault_backend.Ingestion.Service as Ingestion
use mediavault_backend.Platform.Repository.{Repository, by_key}
use mediavault_backend.Audit.{AuditLog, log_action}
use mediavault_backend.Gateway.Emissions.{Emission, emit_ingestion_status}
use mediavault_backend.Streams.Stream.{
  Stream, stream_key, StreamStatus, active, inactive, connecting,
}
use mediavault_backend.Streams.Rows.{
  same_target, new_stream, is_busy, is_rtsp, non_empty, config_of,
}
use mediavault_backend.Streams.Requests.{
  CreateStreamDto, UpdateStreamDto, assign, StreamResponse, to_response_dto, Wowza,
}

-- The table, the ingestion service, the audit log and what the gateway has sent.
pub record Streams (repo : Repository Stream stream_key) : Type 0 where
  pub streams : repo.Table
  pub ingestion : IngestionService
  pub audit : List AuditLog
  pub sent : List Emission

abbrev pub of_result {ℓ κ} : {S : Type ℓ} {A : Type κ} → Result A → Action S A
of_result (ok a) s = (s, ok a)
of_result (err e) s = (s, err e)

abbrev pub is_stream : Option Stream → Bool
is_stream none = false
is_stream (some s) = true

abbrev pub is_connected : Option Bool → Bool
is_connected (some true) = true
is_connected _ = false

abbrev pub status_now : Result IngestionProcessState → Option IngestionStatus
status_now (ok s) = some s.status
status_now (err e) = none

abbrev pub is_reconnecting : Option IngestionStatus → Bool
is_reconnecting (some IngestionStatus.reconnecting) = true
is_reconnecting _ = false

-- A promise of `Promise.allSettled`, if it is fulfilled.
abbrev pub fulfilled {ℓ} : {A : Type ℓ} → Result A → Option A
fulfilled (ok a) = some a
fulfilled (err e) = none

abbrev pub answered : Option (Option Bool) → Bool
answered none = false
answered (some o) = is_connected o

module _ (repo : Repository Stream stream_key) where
  abbrev pub find_stream : String → Streams repo → Option Stream
  find_stream id s = repo.find_one (by_key stream_key id) s.streams

  abbrev pub save_stream : Stream → Streams repo → Streams repo
  save_stream v s = record s { streams = repo.save v s.streams }

  abbrev pub log_stream : String → String → String → Streams repo → Streams repo
  log_stream action id uid s = record s {
    audit = log_action action "Stream" (some id) (some uid) none none s.audit;
  }

  -- A call of the ingestion service.
  abbrev pub on_ingestion {ℓ} : {A : Type ℓ} → Action IngestionService A → Action (Streams repo) A
  on_ingestion m s = (record s { ingestion = (m s.ingestion).0 }, (m s.ingestion).1)

  abbrev pub tell : ℕ → String → String → IngestionStatus → Streams repo → Streams repo
  tell now id name status s = record s {
    sent =
        emit_ingestion_status id
          (record {
            stream_id = id;
            stream_name = name;
            status = status;
            reconnect_attempts = some 0;
            last_error = none;
            timestamp = now;
          })
          s.sent;
  }

  abbrev pub respond : Wowza → Stream → Action (Streams repo) StreamResponse
  respond w v = do
    urls ← of_result (w.build_playback_urls v.wowza_app_name v.wowza_stream_name)
    pure (record (to_response_dto v) { playback_urls = some urls })

  unfoldable pub create :
      ℕ → String → Wowza → CreateStreamDto → String → Action (Streams repo) StreamResponse
  create now id w dto uid = do
    s ← state
    throw_if
        (is_stream (repo.find_one (same_target dto.wowza_app_name dto.wowza_stream_name) s.streams))
        conflict
    modify (save_stream (new_stream now id dto uid))
    modify (log_stream "STREAM_CREATED" id uid)
    respond w (new_stream now id dto uid)

  -- The state is only read.
  unfoldable pub find_one : Wowza → String → Action (Streams repo) StreamResponse
  find_one w id = do
    s ← state
    v ← or_throw (find_stream id s) not_found
    dto ← respond w v
    let live = fulfilled (w.get_incoming_stream v.wowza_app_name v.wowza_stream_name)
    let counted = fulfilled w.get_connections
    pure (record dto {
      is_live_in_wowza = is_running v.id s.ingestion || answered live;
      active_connections = connections_of v.wowza_app_name counted;
      ingestion_status = status_now (get_status v.id s.ingestion).1;
    })
    where
      connections_of : String → Option (List (String × ℕ)) → Option ℕ
      connections_of app none = none
      connections_of app (some m) = some (get_or (get app m) 0)

  unfoldable pub update :
      Wowza → String → UpdateStreamDto → String → Action (Streams repo) StreamResponse
  update w id dto uid = do
    s ← state
    v ← or_throw (find_stream id s) not_found
    throw_if (is_busy v.status || is_running id s.ingestion) conflict
    modify (save_stream (assign dto v))
    modify (log_stream "STREAM_UPDATED" id uid)
    respond w (assign dto v)

  -- `if (isRunning(id)) await stopIngestion(id)`.
  abbrev pub stop_if_running : String → Action (Streams repo) (Unit {0})
  stop_if_running id s =
      if is_running id s.ingestion then on_ingestion (Ingestion.stop_ingestion id) s else (s, ok tt)

  unfoldable pub remove : String → String → Action (Streams repo) (Unit {0})
  remove id uid = do
    s ← state
    v ← or_throw (find_stream id s) not_found
    stop_if_running id
    modify (λ s. record s { streams = repo.delete (by_key stream_key id) s.streams })
    modify (log_stream "STREAM_DELETED" id uid)

  unfoldable pub start_ingestion :
      WowzaSettings → ℕ → Option ℕ → String → String → Action (Streams repo) ℕ
  start_ingestion ws now pid id uid = do
    s ← state
    v ← or_throw (find_stream id s) not_found
    throw_if (not (is_rtsp v.protocol)) bad_request
    url ← or_throw (non_empty v.source_url) bad_request
    r ← on_ingestion (Ingestion.start_ingestion ws now pid (config_of v url))
    modify (save_stream (record v { status = connecting }))
    modify (log_stream "INGESTION_STARTED" id uid)
    modify (tell now id v.wowza_stream_name IngestionStatus.starting)
    pure r

  abbrev pub mark_inactive : ℕ → String → Option Stream → Streams repo → Streams repo
  mark_inactive now id none s = s
  mark_inactive now id (some v) s =
      tell now id v.wowza_stream_name IngestionStatus.stopped
        (save_stream (record v { status = inactive }) s)

  unfoldable pub stop_ingestion : ℕ → String → String → Action (Streams repo) (Unit {0})
  stop_ingestion now id uid = do
    on_ingestion (Ingestion.stop_ingestion id)
    modify (λ s. mark_inactive now id (find_stream id s) s)
    modify (log_stream "INGESTION_STOPPED" id uid)

  abbrev pub synced : Option Bool → Option IngestionStatus → StreamStatus
  synced live st =
      if is_connected live then active else if is_reconnecting st then connecting else inactive

  unfoldable pub sync_status_from_wowza : Wowza → String → Action (Streams repo) StreamResponse
  sync_status_from_wowza w id = do
    s ← state
    v ← or_throw (find_stream id s) not_found
    live ← of_result (w.get_incoming_stream v.wowza_app_name v.wowza_stream_name)
    let v' = record v { status = synced live (status_now (get_status v.id s.ingestion).1) }
    modify (save_stream v')
    pure (to_response_dto v')
