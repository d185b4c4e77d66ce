-- ===== src/Ingestion/Events.antt =====
-- The handlers and timers of src/modules/ingestion/ingestion.service.ts: what FFmpeg's output, its
-- failure to start, its exit and the reconnect timers do to the service.
use Prim.Native.Char.{code}
use text.Mathlib.Text.{starts_with}
use mediavault_backend.Prelude.{
  ℕ, zero, suc, ◌+◌, ◌-◌, ◌*◌, ◌^◌, min, String, Bool, true, false, ◌&&◌, ◌||◌, Option, none, some,
  [], ◌∷◌, ◌++◌, if◌then◌else◌, get_or, is_some, ltb, delete, has,
}
use mediavault_backend.Prelude.Trim.{trim_start, trim_end}
use mediavault_backend.Ingestion.Config.{
  RtspCameraConfig, reconnecting, error, max_retries, IngestionProcessState,
}
use mediavault_backend.Ingestion.Args.{WowzaSettings}
use mediavault_backend.Ingestion.Service.{
  ReconnectTimer, sigkill, IngestionService, write_object, spawn_ffmpeg,
}

-- `s.includes(word)`.
includes : String → String → Bool
includes word String.[] = starts_with String.[] word
includes word (String.◌∷◌ c s) = starts_with (String.◌∷◌ c s) word || includes word s

-- `s.slice(0, n)`, counted in characters.
slice_to : ℕ → String → String
slice_to zero s = String.[]
slice_to (suc n) String.[] = String.[]
slice_to (suc n) (String.◌∷◌ c s) = String.◌∷◌ c (slice_to n s)

unfoldable pub reports_error : String → Bool
unfolding includes
reports_error output =
    includes "Connection refused" output
    || includes "No route to host" output
    || includes "401 Unauthorized" output

-- `proc.stderr.on('data', …)` of the process `p`.
unfoldable pub on_stderr : ℕ → ℕ → String → IngestionService → IngestionService
unfolding reports_error trim_start trim_end slice_to
on_stderr now p output s =
    let r = (s.children p).object in
    if reports_error output
    then write_object r
        (record (s.objects r) {
          last_error = some (slice_to 256 (trim_end (trim_start output)));
          last_error_at = some now;
        })
        s
    else s

-- `proc.on('error', …)` of the process `p`.
unfoldable pub on_error : ℕ → ℕ → String → IngestionService → IngestionService
on_error now p message s =
    let r = (s.children p).object in
    let s' =
      write_object r
        (record (s.objects r) {
          status = error;
          last_error = some message;
          last_error_at = some now;
        })
        s in
    record s' { processes = delete (s.children p).config.stream_id s'.processes }

-- `Math.min(baseDelay * 2 ** (attempts - 1), 60_000)`.
unfoldable pub reconnect_delay : ℕ → ℕ → ℕ
reconnect_delay base attempts = min (base * 2 ^ (attempts - 1)) 60000

-- `maxAttempts > 0 && attempts > maxAttempts`.
abbrev pub exhausted : ℕ → ℕ → Bool
exhausted most attempts = ltb 0 most && ltb most attempts

-- The retries are used up: the status says so and the process leaves its map.
unfoldable pub give_up :
    RtspCameraConfig → ℕ → IngestionProcessState → IngestionService → IngestionService
give_up c r o s =
    let s' = write_object r (record o { status = max_retries }) s in
    record s' { processes = delete c.stream_id s'.processes }

-- The status says reconnecting and the timer is set.
unfoldable pub plan_reconnect :
    ℕ → RtspCameraConfig → ℕ → IngestionProcessState → IngestionService → IngestionService
plan_reconnect jitter c r o s =
    let s' = write_object r (record o { status = reconnecting }) s in
    record s' {
      reconnects =
          s'.reconnects
          ++ record {
            config = c;
            object = r;
            delay_ms =
                reconnect_delay (get_or c.reconnect_delay_ms 3000) o.reconnect_attempts + jitter;
          }
            ∷ [];
    }

-- `scheduleReconnect`; `jitter` is `Math.random() * 1000`, in whole milliseconds.
unfoldable pub schedule_reconnect : ℕ → RtspCameraConfig → ℕ → IngestionService → IngestionService
schedule_reconnect jitter c r s =
    let attempts = (s.objects r).reconnect_attempts + 1 in
    let o = record (s.objects r) { reconnect_attempts = attempts } in
    if exhausted (get_or c.max_reconnect_attempts 10) attempts
    then give_up c r o s
    else plan_reconnect jitter c r o s

-- `code !== 0 && code !== null`.
abbrev pub is_failure : Option ℕ → Bool
is_failure none = false
is_failure (some zero) = false
is_failure (some (suc n)) = true

-- `proc.on('close', …)` of the process `p`.
unfoldable pub on_close : ℕ → ℕ → Option ℕ → IngestionService → IngestionService
on_close jitter p code s =
    let child = s.children p in
    if has child.config.stream_id s.processes && is_failure code
    then schedule_reconnect jitter child.config child.object s
    else s

-- The body of the `setTimeout` of `scheduleReconnect`.
unfoldable pub reconnect :
    WowzaSettings → ℕ → Option ℕ → ReconnectTimer → IngestionService → IngestionService
reconnect w now pid t s =
    if has t.config.stream_id s.processes then spawn_ffmpeg w now pid t.config t.object s else s

-- The body of the `setTimeout` of `stopIngestion`; `process.kill(pid, 0)` throws for a dead process.
unfoldable pub force_kill : Bool → ℕ → IngestionService → IngestionService
force_kill alive p s =
    if is_some (s.children p).pid && alive
    then record s { signals = (p, sigkill) ∷ s.signals }
    else s
