-- ===== src/Ingestion/Runs.antt =====
-- Every call of src/modules/ingestion/ingestion.service.ts and every event of its processes and
-- timers as a step, and what holds after any run of them.
use mediavault_backend.Prelude.{
  ℕ, ◌<◌, String, ◌≡◌, ◌≢◌, Bool, Option, some, List, ◌∷◌, ◌++◌, get, arith, err, internal_error,
  keys,
}
use mediavault_backend.Ingestion.Config.{RtspCameraConfig}
use mediavault_backend.Ingestion.Args.{WowzaSettings}
use mediavault_backend.Ingestion.Service.{
  IngestionService, ReconnectTimer, start_ingestion, stop_ingestion, stop_all, restart_ingestion,
}
use mediavault_backend.Ingestion.Events.{on_stderr, on_error, on_close, reconnect, force_kill}
use mediavault_backend.Ingestion.WellFormed.{WellFormed, rest-WellFormed}
use mediavault_backend.Ingestion.Keeps.{
  stop_ingestion-WellFormed, stop_each-WellFormed, start_ingestion-WellFormed,
  restart_ingestion-WellFormed, reconnect-WellFormed, on_close-WellFormed, on_stderr-WellFormed,
  on_error-WellFormed, force_kill-WellFormed,
}

module _ (w : WowzaSettings) where
  -- One turn of the event loop. A timer that fires leaves the pending ones.
  pub data Step : IngestionService → IngestionService → Type 0 where
    available : (s : IngestionService) (b : Bool) → Step s (record s { ffmpeg_available = b })
    start :
        (s : IngestionService) (now : ℕ) (pid : Option ℕ) (c : RtspCameraConfig)
        → Step s (start_ingestion w now pid c s).0
    stop : (s : IngestionService) (id : String) → Step s (stop_ingestion id s).0
    shutdown : (s : IngestionService) → Step s (stop_all s)
    restart :
        (s : IngestionService) (now : ℕ) (pid : Option ℕ) (id : String)
        → Step s (restart_ingestion w now pid id s).0
    stderr :
        (s : IngestionService) (now p : ℕ) (output : String)
        → p < s.next_child
        → Step s (on_stderr now p output s)
    failed :
        (s : IngestionService) (now p : ℕ) (message : String)
        → p < s.next_child
        → Step s (on_error now p message s)
    closed :
        (s : IngestionService) (jitter p : ℕ) (code : Option ℕ)
        → jitter < 1000
        → p < s.next_child
        → Step s (on_close jitter p code s)
    fires :
        (s : IngestionService) (now : ℕ) (pid : Option ℕ) (t : ReconnectTimer)
        (before after : List ReconnectTimer)
        → s.reconnects ≡ before ++ t ∷ after
        → Step s (reconnect w now pid t (record s { reconnects = before ++ after }))
    kills :
        (s : IngestionService) (alive : Bool) (p : ℕ) (before after : List ℕ)
        → s.kills ≡ before ++ p ∷ after
        → Step s (force_kill alive p (record s { kills = before ++ after }))

  pub data Reach (s : IngestionService) : IngestionService → Type 0 where
    here : Reach s s
    next : {t u : IngestionService} → Reach s t → Step t u → Reach s u

Step-WellFormed :
    {w : WowzaSettings} {s t : IngestionService} → Step w s t → WellFormed s → WellFormed t
unfolding stop_all
Step-WellFormed (available s b) v = rest-WellFormed b s.reconnects s.kills s.signals s v
Step-WellFormed {w} (start s now pid c) v = start_ingestion-WellFormed w now pid c s v
Step-WellFormed (stop s id) v = stop_ingestion-WellFormed id s v
Step-WellFormed (shutdown s) v = stop_each-WellFormed (keys s.processes) s v
Step-WellFormed {w} (restart s now pid id) v = restart_ingestion-WellFormed w now pid id s v
Step-WellFormed (stderr s now p output h) v = on_stderr-WellFormed now p output s v
Step-WellFormed (failed s now p message h) v = on_error-WellFormed now p message s v
Step-WellFormed (closed s jitter p code j h) v = on_close-WellFormed jitter p code s v
Step-WellFormed {w} (fires s now pid t before after e) v =
    reconnect-WellFormed w now pid t _
      (rest-WellFormed s.ffmpeg_available (before ++ after) s.kills s.signals s v)
Step-WellFormed (kills s alive p before after e) v =
    force_kill-WellFormed alive p _
      (rest-WellFormed s.ffmpeg_available s.reconnects (before ++ after) s.signals s v)

-- Whatever calls, process events and timers happen, in whatever order, every process of the map has
-- a state and a configuration under its stream and was spawned for that stream, every state names
-- its stream, and every configuration is the one of its stream.
pub Reach-WellFormed :
    {w : WowzaSettings} {s t : IngestionService} → WellFormed s → Reach w s t → WellFormed t
Reach-WellFormed v here = v
Reach-WellFormed v (next r st) = Step-WellFormed st (Reach-WellFormed v r)

-- In every state that a run reaches, `stopIngestion` never meets the missing state that its
-- non-null assertion would turn into a `TypeError`.
stop_ingestion-ne-internal :
    {w : WowzaSettings} {s t : IngestionService} (id : String)
    → WellFormed s
    → Reach w s t
    → (stop_ingestion id t).1 ≢ err internal_error
unfolding stop_ingestion
stop_ingestion-ne-internal {t = t} id v r = ground (arith, (Reach-WellFormed v r).tracked id)

-- Two streams never share a state object.
states_distinct :
    {w : WowzaSettings} {s t : IngestionService} (id j : String) (r : ℕ)
    → WellFormed s
    → Reach w s t
    → get id t.states ≡ some r
    → get j t.states ≡ some r
    → id ≡ j
states_distinct id j r v reach e f =
    let v' = Reach-WellFormed v reach in ground (arith, v'.named id r e, v'.named j r f)
