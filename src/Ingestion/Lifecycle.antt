-- ===== src/Ingestion/Lifecycle.antt =====
-- What a caller of src/modules/ingestion/ingestion.service.ts sees of starting, stopping and
-- restarting a stream.
use mediavault_backend.Prelude.{
  inl, inr, ℕ, suc, String, ◌≡◌, true, false, Option, some, ◌∷◌, ◌==◌, get, has, arith, get-set,
  get-delete, eq_refl, ok, err, Option-cases, HttpError, not_found, conflict,
}
use mediavault_backend.Ingestion.Config.{RtspCameraConfig, running}
use mediavault_backend.Ingestion.Args.{WowzaSettings}
use mediavault_backend.Ingestion.Service.{
  IngestionService, spawn_ffmpeg, register, start_ingestion, stop_ingestion, terminate, sigterm,
  restart_ingestion, get_status, is_running, extra_args_refused,
}
use mediavault_backend.Ingestion.WellFormed.{WellFormed}

module _ (w : WowzaSettings) (now : ℕ) (pid : Option ℕ) (c : RtspCameraConfig)
    (s : IngestionService) where
  -- What a start leaves.
  pub record Started (r : ℕ) (t : IngestionService) : Type 0 where
    pub fresh : r ≡ s.next_object
    pub state : get c.stream_id t.states ≡ some r
    pub process : get c.stream_id t.processes ≡ some s.next_child
    pub config : get c.stream_id t.configs ≡ some c
    pub status : (t.objects r).status ≡ running
    pub attempts : (t.objects r).reconnect_attempts ≡ 0
    pub live : is_running c.stream_id t ≡ true
    pub spawned : t.next_child ≡ suc s.next_child
    pub silent : t.signals ≡ s.signals
    pub again : (now' : ℕ) (pid' : Option ℕ) → start_ingestion w now' pid' c t ≡ (t, err conflict)
    pub others :
        (j : String)
        → (c.stream_id == j) ≡ false
        → (get j t.processes ≡ get j s.processes) × (get j t.states ≡ get j s.states)

  -- After a start that succeeds the stream runs under a new state object with no reconnection
  -- counted, its process is the new one, its configuration is stored, nothing was signalled, the
  -- processes and states of the other streams are as before, and to start it once more, at any time,
  -- is a conflict that changes nothing.
  pub start_ingestion-Started :
      (r : ℕ)
      → (start_ingestion w now pid c s).1 ≡ ok r
      → Started r (start_ingestion w now pid c s).0
  unfolding start_ingestion register spawn_ffmpeg is_running
  start_ingestion-Started r e =
      let here = eq_refl c.stream_id in
      record {
        fresh = ground arith;
        state = ground (arith, get-set c.stream_id c.stream_id s.next_object s.states);
        process = ground (arith, get-set c.stream_id c.stream_id s.next_child s.processes);
        config = ground (arith, get-set c.stream_id c.stream_id c s.configs);
        status = ground arith;
        attempts = ground arith;
        live = ground (arith, get-set c.stream_id c.stream_id s.next_object s.states);
        spawned = ground arith;
        silent = ground arith;
        again = λ now' pid'. ground (arith, get-set c.stream_id c.stream_id s.next_object s.states);
        others = λ j h. ground (
          arith,
          get-set c.stream_id j s.next_child s.processes,
          get-set c.stream_id j s.next_object s.states,
        );
      }

  -- A start that throws changes nothing.
  start_ingestion-unchanged :
      (e : HttpError)
      → (start_ingestion w now pid c s).1 ≡ err e
      → (start_ingestion w now pid c s).0 ≡ s
  unfolding start_ingestion
  start_ingestion-unchanged e h = ground arith

-- What a stop leaves.
pub record Stopped (id : String) (s t : IngestionService) : Type 0 where
  pub process : (p : ℕ) × (get id s.processes ≡ some p) × (t.signals ≡ (p, sigterm) ∷ s.signals)
  pub unknown : (get_status id t).1 ≡ err not_found
  pub again : stop_ingestion id t ≡ (t, err not_found)
  pub idle : is_running id t ≡ false
  pub others :
      (j : String)
      → (id == j) ≡ false
      → (get j t.processes ≡ get j s.processes)
        × (get j t.states ≡ get j s.states)
        × (get j t.configs ≡ get j s.configs)

-- After a stop that succeeds the stream is unknown and not running, to stop it again finds nothing
-- and changes nothing, its process got SIGTERM as the only new signal, and the processes, states and
-- configurations of the other streams are as before.
pub stop_ingestion-Stopped :
    (id : String) (s : IngestionService)
    → (stop_ingestion id s).1 ≡ ok tt
    → Stopped id s (stop_ingestion id s).0
unfolding stop_ingestion terminate get_status is_running
stop_ingestion-Stopped id s e = record {
  process = elim (Option-cases (get id s.processes)) [
    | inl missing ↦ absurd (ground arith)
    | inr (p, found) ↦ (p, found, ground arith)
  ];
  unknown = ground (arith, get-delete id id s.states, eq_refl id);
  again = ground (arith, get-delete id id s.processes, eq_refl id);
  idle = ground (arith, get-delete id id s.states, eq_refl id);
  others = λ j h.
      ground
        (arith, get-delete id j s.states, get-delete id j s.processes, get-delete id j s.configs);
}

-- A restart of a stream that has a process, and whose stored configuration names it, succeeds when
-- FFmpeg is there and the stored arguments pass: the stop makes the start's conflict impossible.
restart_ingestion-ok :
    (w : WowzaSettings) (now : ℕ) (pid : Option ℕ) (id : String) (c : RtspCameraConfig)
    (s : IngestionService)
    → WellFormed s
    → has id s.processes ≡ true
    → get id s.configs ≡ some c
    → s.ffmpeg_available ≡ true
    → extra_args_refused c.ffmpeg_extra_args ≡ false
    → (restart_ingestion w now pid id s).1 ≡ ok s.next_object
unfolding restart_ingestion start_ingestion stop_ingestion terminate
restart_ingestion-ok w now pid id c s v present e available accepted =
    ground
      (arith, v.kept id c e, v.tracked id present, get-delete id c.stream_id s.states, eq_refl id)

-- A stream whose process has left the map, because its reconnections are used up or FFmpeg could
-- not be spawned, is never restarted, although its configuration is stored.
restart_ingestion-refused :
    (w : WowzaSettings) (now : ℕ) (pid : Option ℕ) (id : String) (s : IngestionService)
    → has id s.processes ≡ false
    → (restart_ingestion w now pid id s).1 ≡ err not_found
unfolding restart_ingestion start_ingestion stop_ingestion
restart_ingestion-refused w now pid id s absent = ground arith
