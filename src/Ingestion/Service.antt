-- ===== src/Ingestion/Service.antt =====
-- src/modules/ingestion/ingestion.service.ts: the maps of the service, the state objects that the
-- maps, the handlers and the timers share, and what the service asked of the operating system.
use Prim.Native.String
use mediavault_backend.Prelude.{
  ℕ, suc, String, Bool, true, false, ◌&&◌, not, Option, none, some, List, [], ◌∷◌, ◌++◌, map, ◌==◌,
  if◌then◌else◌, leb, length, Map, get, set, delete, keys, update, filter, values, not_found,
  conflict, bad_request, service_unavailable, internal_error, Action, ◌>>=◌, ◌>>◌, pure, state,
  modify, throw_if, or_throw,
}
use mediavault_backend.Ingestion.Config.{
  RtspCameraConfig, IngestionStatus, starting, running, reconnecting, stopped, error, max_retries,
  IngestionProcessState, IngestionSummary,
}
use mediavault_backend.Ingestion.Args.{WowzaSettings, build_ffmpeg_args, validate_extra_args}
use mediavault_backend.Ingestion.Args.Masking.{sanitize_rtsp_url}

-- A spawned FFmpeg process with what its handlers captured: the configuration and the state object.
pub record Child : Type 0 where
  pub config : RtspCameraConfig
  pub object : ℕ
  pub argv : List String
  pub pid : Option ℕ

-- A pending `setTimeout` of `scheduleReconnect`.
pub record ReconnectTimer : Type 0 where
  pub config : RtspCameraConfig
  pub object : ℕ
  pub delay_ms : ℕ

pub data Signal : Type 0 where
  sigterm sigkill : Signal

pub record IngestionService : Type 0 where
  pub processes : Map ℕ
  pub states : Map ℕ
  pub configs : Map RtspCameraConfig
  pub ffmpeg_available : Bool
  -- State objects, by reference.
  pub objects : ℕ → IngestionProcessState
  pub next_object : ℕ
  -- Spawned processes, by handle, and the timers of the event loop.
  pub children : ℕ → Child
  pub next_child : ℕ
  pub reconnects : List ReconnectTimer
  pub kills : List ℕ
  pub signals : List (ℕ × Signal)

abbrev pub write_object : ℕ → IngestionProcessState → IngestionService → IngestionService
write_object r o s = record s { objects = update s.objects r o }

-- `spawnFFmpeg`, at time `now`, where `spawn` gave the process the id `pid`.
unfoldable pub spawn_ffmpeg :
    WowzaSettings → ℕ → Option ℕ → RtspCameraConfig → ℕ → IngestionService → IngestionService
spawn_ffmpeg w now pid c r s = record s {
  children =
      update s.children s.next_child
        (record { config = c; object = r; argv = build_ffmpeg_args w c; pid = pid });
  next_child = suc s.next_child;
  processes = set c.stream_id s.next_child s.processes;
  objects =
      update s.objects r
        (record (s.objects r) { status = running; pid = pid; started_at = some now });
}

abbrev pub is_active : IngestionStatus → Bool
is_active running = true
is_active starting = true
is_active _ = false

-- `existing && (existing.status === RUNNING || existing.status === STARTING)`.
abbrev pub already_ingested : IngestionService → Option ℕ → Bool
already_ingested s none = false
already_ingested s (some r) = is_active (s.objects r).status

-- `config.ffmpegExtraArgs?.length` and then `validateExtraArgs`.
abbrev pub extra_args_refused : Option (List String) → Bool
extra_args_refused none = false
extra_args_refused (some args) = leb 1 (length args) && not (validate_extra_args args)

abbrev pub join_with : String → List String → String
join_with sep [] = ""
join_with sep (x ∷ []) = x
join_with sep (x ∷ y ∷ xs) = String.◌++◌ x (String.◌++◌ sep (join_with sep (y ∷ xs)))

-- The command line as it is shown: the camera's URL is masked.
unfoldable pub shown_command : WowzaSettings → RtspCameraConfig → String
shown_command w c = join_with " " (
    "ffmpeg"
    ∷ map (λ a. if a == c.rtsp_url then sanitize_rtsp_url c.rtsp_url else a)
        (build_ffmpeg_args w c))

abbrev pub new_state : WowzaSettings → RtspCameraConfig → IngestionProcessState
new_state w c = record {
  stream_id = c.stream_id;
  stream_name = c.stream_name;
  status = starting;
  pid = none;
  started_at = none;
  reconnect_attempts = 0;
  last_error = none;
  last_error_at = none;
  bytes_processed = none;
  ffmpeg_command = some (shown_command w c);
}

-- `states.set` and `configs.set` with a new state object.
unfoldable pub register : WowzaSettings → RtspCameraConfig → IngestionService → IngestionService
register w c s = record s {
  objects = update s.objects s.next_object (new_state w c);
  next_object = suc s.next_object;
  states = set c.stream_id s.next_object s.states;
  configs = set c.stream_id c s.configs;
}

-- The result is the state object, by reference.
unfoldable pub start_ingestion :
    WowzaSettings → ℕ → Option ℕ → RtspCameraConfig → Action IngestionService ℕ
start_ingestion w now pid c = do
  s ← state
  throw_if (not s.ffmpeg_available) service_unavailable
  throw_if (already_ingested s (get c.stream_id s.states)) conflict
  throw_if (extra_args_refused c.ffmpeg_extra_args) bad_request
  modify (register w c)
  modify (spawn_ffmpeg w now pid c s.next_object)
  pure s.next_object

-- The maps forget the stream, SIGTERM is sent, the SIGKILL timer is set, the state says stopped.
unfoldable pub terminate : String → ℕ → ℕ → IngestionService → IngestionService
terminate id proc r s = record s {
  processes = delete id s.processes;
  states = delete id s.states;
  configs = delete id s.configs;
  signals = (proc, sigterm) ∷ s.signals;
  kills = s.kills ++ proc ∷ [];
  objects = update s.objects r (record (s.objects r) { status = stopped });
}

-- `this.states.get(streamId)!` would be a `TypeError` on a missing state.
unfoldable pub stop_ingestion : String → Action IngestionService (Unit {0})
stop_ingestion id = do
  s ← state
  proc ← or_throw (get id s.processes) not_found
  r ← or_throw (get id s.states) internal_error
  modify (terminate id proc r)

-- `.catch(() => {})` on each stop.
unfoldable pub stop_each : List String → IngestionService → IngestionService
stop_each [] s = s
stop_each (id ∷ ids) s = stop_each ids (stop_ingestion id s).0

unfoldable pub stop_all : IngestionService → IngestionService
stop_all s = stop_each (keys s.processes) s

unfoldable pub restart_ingestion : WowzaSettings → ℕ → Option ℕ → String → Action IngestionService ℕ
restart_ingestion w now pid id = do
  s ← state
  c ← or_throw (get id s.configs) not_found
  stop_ingestion id
  start_ingestion w now pid c

unfoldable pub get_status : String → Action IngestionService IngestionProcessState
get_status id = do s ← state; r ← or_throw (get id s.states) not_found; pure (s.objects r)

abbrev pub is_running_status : IngestionStatus → Bool
is_running_status running = true
is_running_status reconnecting = true
is_running_status _ = false

unfoldable pub is_running : String → IngestionService → Bool
is_running id s = elim (get id s.states) [
  | none ↦ false
  | some r ↦ is_running_status (s.objects r).status
]

abbrev is_status_running : IngestionStatus → Bool
is_status_running running = true
is_status_running _ = false

abbrev is_status_reconnecting : IngestionStatus → Bool
is_status_reconnecting reconnecting = true
is_status_reconnecting _ = false

abbrev is_status_error : IngestionStatus → Bool
is_status_error error = true
is_status_error max_retries = true
is_status_error _ = false

unfoldable pub get_summary : IngestionService → IngestionSummary
get_summary s =
    let all = map (λ r. s.objects r) (values s.states) in
    record {
      total = length all;
      running = length (filter (λ o. is_status_running o.status) all);
      reconnecting = length (filter (λ o. is_status_reconnecting o.status) all);
      error = length (filter (λ o. is_status_error o.status) all);
      processes = all;
    }
