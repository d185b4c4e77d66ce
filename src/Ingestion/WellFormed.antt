-- ===== src/Ingestion/WellFormed.antt =====
-- What holds of the maps, the state objects and the processes of the ingestion service between two
-- turns of the event loop, and that each change of src/modules/ingestion/ingestion.service.ts
-- keeps it.
use mediavault_backend.Prelude.{
  ℕ, Bool, List, ◌<◌, String, ◌≡◌, true, Option, some, List, get, delete, has, get-set, get-delete,
  eq_iff, arith,
}
use mediavault_backend.Ingestion.Config.{
  RtspCameraConfig, IngestionProcessState, reconnecting, max_retries,
}
use mediavault_backend.Ingestion.Args.{WowzaSettings}
use mediavault_backend.Ingestion.Service.{
  IngestionService, ReconnectTimer, Signal, write_object, spawn_ffmpeg, register, terminate,
}
use mediavault_backend.Ingestion.Events.{give_up, plan_reconnect}

pub record WellFormed (s : IngestionService) : Type 0 where
  -- A process has a state and a configuration under the same stream.
  pub tracked :
      (id : String)
      → has id s.processes ≡ true
      → (has id s.states ≡ true) × (has id s.configs ≡ true)
  -- It was spawned for that stream.
  pub owned :
      (id : String) (p : ℕ)
      → get id s.processes ≡ some p
      → (p < s.next_child) × ((s.children p).config.stream_id ≡ id)
  -- A state object is allocated, and names the stream under which it stands.
  pub named :
      (id : String) (r : ℕ)
      → get id s.states ≡ some r
      → (r < s.next_object) × ((s.objects r).stream_id ≡ id)
  pub kept : (id : String) (c : RtspCameraConfig) → get id s.configs ≡ some c → c.stream_id ≡ id

pub write_object-WellFormed :
    (r : ℕ) (o : IngestionProcessState) (s : IngestionService)
    → o.stream_id ≡ (s.objects r).stream_id
    → WellFormed s
    → WellFormed (write_object r o s)
write_object-WellFormed r o s same v = record {
  tracked = v.tracked;
  owned = v.owned;
  named = λ id q e. ground (arith, v.named id q e);
  kept = v.kept;
}

pub spawn_ffmpeg-WellFormed :
    (w : WowzaSettings) (now : ℕ) (pid : Option ℕ) (c : RtspCameraConfig) (r : ℕ)
    (s : IngestionService)
    → has c.stream_id s.states ≡ true
    → has c.stream_id s.configs ≡ true
    → WellFormed s
    → WellFormed (spawn_ffmpeg w now pid c r s)
unfolding spawn_ffmpeg
spawn_ffmpeg-WellFormed w now pid c r s hs hc v = record {
  tracked = λ id e.
      ground (
        arith,
        get-set c.stream_id id s.next_child s.processes,
        eq_iff c.stream_id id,
        v.tracked id,
      );
  owned = λ id p e.
      ground (
        arith,
        get-set c.stream_id id s.next_child s.processes,
        eq_iff c.stream_id id,
        v.owned id p,
      );
  named = λ id q e. ground (arith, v.named id q e);
  kept = v.kept;
}

pub register-WellFormed :
    (w : WowzaSettings) (c : RtspCameraConfig) (s : IngestionService)
    → WellFormed s
    → WellFormed (register w c s)
unfolding register
register-WellFormed w c s v = record {
  tracked = λ id e. ground (
    arith,
    get-set c.stream_id id s.next_object s.states,
    get-set c.stream_id id c s.configs,
    eq_iff c.stream_id id,
    v.tracked id,
  );
  owned = v.owned;
  named = λ id q e.
      ground
        (arith, get-set c.stream_id id s.next_object s.states, eq_iff c.stream_id id, v.named id q);
  kept = λ id d e.
      ground (arith, get-set c.stream_id id c s.configs, eq_iff c.stream_id id, v.kept id d);
}

pub terminate-WellFormed :
    (id : String) (p r : ℕ) (s : IngestionService) → WellFormed s → WellFormed (terminate id p r s)
unfolding terminate
terminate-WellFormed id p r s v = record {
  tracked = λ j e. ground (
    arith,
    get-delete id j s.processes,
    get-delete id j s.states,
    get-delete id j s.configs,
    v.tracked j,
  );
  owned = λ j q e. ground (arith, get-delete id j s.processes, v.owned j q);
  named = λ j q e. ground (arith, get-delete id j s.states, v.named j q);
  kept = λ j d e. ground (arith, get-delete id j s.configs, v.kept j d);
}

-- A process that leaves its map takes nothing else with it.
pub forget-WellFormed :
    (id : String) (s : IngestionService)
    → WellFormed s
    → WellFormed (record s { processes = delete id s.processes })
forget-WellFormed id s v = record {
  tracked = λ j e. ground (arith, get-delete id j s.processes, v.tracked j);
  owned = λ j q e. ground (arith, get-delete id j s.processes, v.owned j q);
  named = v.named;
  kept = v.kept;
}

-- The timers, the signals sent and the availability of FFmpeg do not matter.
pub rest-WellFormed :
    (b : Bool) (ts : List ReconnectTimer) (ks : List ℕ) (sent : List (ℕ × Signal))
    (s : IngestionService)
    → WellFormed s
    → WellFormed (record s { ffmpeg_available = b; reconnects = ts; kills = ks; signals = sent })
rest-WellFormed b ts ks sent s v = record {
  tracked = v.tracked;
  owned = v.owned;
  named = v.named;
  kept = v.kept;
}

pub give_up-WellFormed :
    (c : RtspCameraConfig) (r : ℕ) (o : IngestionProcessState) (s : IngestionService)
    → o.stream_id ≡ (s.objects r).stream_id
    → WellFormed s
    → WellFormed (give_up c r o s)
unfolding give_up
give_up-WellFormed c r o s same v =
    forget-WellFormed c.stream_id (write_object r (record o { status = max_retries }) s)
      (write_object-WellFormed r (record o { status = max_retries }) s same v)

pub plan_reconnect-WellFormed :
    (jitter : ℕ) (c : RtspCameraConfig) (r : ℕ) (o : IngestionProcessState) (s : IngestionService)
    → o.stream_id ≡ (s.objects r).stream_id
    → WellFormed s
    → WellFormed (plan_reconnect jitter c r o s)
unfolding plan_reconnect
plan_reconnect-WellFormed jitter c r o s same v =
    rest-WellFormed s.ffmpeg_available _ s.kills s.signals
      (write_object r (record o { status = reconnecting }) s)
      (write_object-WellFormed r (record o { status = reconnecting }) s same v)
