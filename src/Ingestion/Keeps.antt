-- ===== src/Ingestion/Keeps.antt =====
-- Each call and each event of src/modules/ingestion/ingestion.service.ts keeps what holds between
-- two turns of the event loop.
use mediavault_backend.Prelude.{
  ℕ, ◌+◌, ◌&&◌, String, refl, Bool, Option, List, [], ◌∷◌, get, has, arith, inl, inr, Bool-cases,
  Option-cases, is_some, get-set, eq_iff, follow-keeps,
}
use mediavault_backend.Ingestion.Config.{RtspCameraConfig}
use mediavault_backend.Ingestion.Args.{WowzaSettings}
use mediavault_backend.Ingestion.Service.{
  IngestionService, ReconnectTimer, sigkill, spawn_ffmpeg, register, start_ingestion,
  stop_ingestion, stop_each, restart_ingestion,
}
use mediavault_backend.Ingestion.Events.{
  reports_error, on_stderr, on_error, on_close, reconnect, force_kill, schedule_reconnect,
}
use mediavault_backend.Ingestion.WellFormed.{
  WellFormed, write_object-WellFormed, spawn_ffmpeg-WellFormed, register-WellFormed,
  give_up-WellFormed, plan_reconnect-WellFormed, rest-WellFormed, terminate-WellFormed,
  forget-WellFormed,
}

pub stop_ingestion-WellFormed :
    (id : String) (s : IngestionService) → WellFormed s → WellFormed (stop_ingestion id s).0
unfolding stop_ingestion
stop_ingestion-WellFormed id s v = elim (Option-cases (get id s.processes)) [
  | inl e ↦ rw e v
  | inr (p, e) ↦ elim (Option-cases (get id s.states)) [
    | inl f ↦ rw (e, f) v
    | inr (r, f) ↦ rw (e, f) (terminate-WellFormed id p r s v)
  ]
]

pub stop_each-WellFormed :
    (ids : List String) (s : IngestionService) → WellFormed s → WellFormed (stop_each ids s)
unfolding stop_each
stop_each-WellFormed [] s v = v
stop_each-WellFormed (id ∷ ids) s v =
    stop_each-WellFormed ids (stop_ingestion id s).0 (stop_ingestion-WellFormed id s v)

module _ (w : WowzaSettings) (now : ℕ) (pid : Option ℕ) where
  register_spawn-WellFormed :
      (c : RtspCameraConfig) (r : ℕ) (s : IngestionService)
      → WellFormed s
      → WellFormed (spawn_ffmpeg w now pid c r (register w c s))
  register_spawn-WellFormed c r s v =
      spawn_ffmpeg-WellFormed w now pid c r (register w c s)
        (unfold register in
          ground (
            arith,
            get-set c.stream_id c.stream_id s.next_object s.states,
            eq_iff c.stream_id c.stream_id,
          ))
        (unfold register in
          ground
            (arith, get-set c.stream_id c.stream_id c s.configs, eq_iff c.stream_id c.stream_id))
        (register-WellFormed w c s v)

  pub start_ingestion-WellFormed :
      (c : RtspCameraConfig) (s : IngestionService)
      → WellFormed s
      → WellFormed (start_ingestion w now pid c s).0
  unfolding start_ingestion
  start_ingestion-WellFormed c s v = ground (arith, register_spawn-WellFormed c s.next_object s v)

  pub restart_ingestion-WellFormed :
      (id : String) (s : IngestionService)
      → WellFormed s
      → WellFormed (restart_ingestion w now pid id s).0
  unfolding restart_ingestion
  restart_ingestion-WellFormed id s v = elim (Option-cases (get id s.configs)) [
    | inl e ↦ rw e v
    | inr (c, e) ↦ rw e (
        follow-keeps WellFormed (stop_ingestion id s) (λ _. start_ingestion w now pid c)
          (stop_ingestion-WellFormed id s v) (λ _ s' v'. start_ingestion-WellFormed c s' v'))
  ]

  pub reconnect-WellFormed :
      (t : ReconnectTimer) (s : IngestionService)
      → WellFormed s
      → WellFormed (reconnect w now pid t s)
  unfolding reconnect
  reconnect-WellFormed t s v = elim (Bool-cases (has t.config.stream_id s.processes)) [
    | inl e ↦
        let tracked = v.tracked t.config.stream_id e in
        rw e (spawn_ffmpeg-WellFormed w now pid t.config t.object s tracked.0 tracked.1 v)
    | inr e ↦ rw e v
  ]

schedule_reconnect-WellFormed :
    (jitter : ℕ) (c : RtspCameraConfig) (r : ℕ) (s : IngestionService)
    → WellFormed s
    → WellFormed (schedule_reconnect jitter c r s)
unfolding schedule_reconnect
schedule_reconnect-WellFormed jitter c r s v =
    let o = record (s.objects r) { reconnect_attempts = (s.objects r).reconnect_attempts + 1 } in
    ground
      (arith, give_up-WellFormed c r o s refl v, plan_reconnect-WellFormed jitter c r o s refl v)

pub on_close-WellFormed :
    (jitter p : ℕ) (code : Option ℕ) (s : IngestionService)
    → WellFormed s
    → WellFormed (on_close jitter p code s)
unfolding on_close
on_close-WellFormed jitter p code s v =
    ground
      (arith, schedule_reconnect-WellFormed jitter (s.children p).config (s.children p).object s v)

pub on_stderr-WellFormed :
    (now p : ℕ) (output : String) (s : IngestionService)
    → WellFormed s
    → WellFormed (on_stderr now p output s)
unfolding on_stderr
on_stderr-WellFormed now p output s v = elim (Bool-cases (reports_error output)) [
  | inl e ↦ rw e (write_object-WellFormed (s.children p).object _ s refl v)
  | inr e ↦ rw e v
]

pub on_error-WellFormed :
    (now p : ℕ) (message : String) (s : IngestionService)
    → WellFormed s
    → WellFormed (on_error now p message s)
unfolding on_error
on_error-WellFormed now p message s v =
    forget-WellFormed (s.children p).config.stream_id _
      (write_object-WellFormed (s.children p).object _ s refl v)

pub force_kill-WellFormed :
    (alive : Bool) (p : ℕ) (s : IngestionService) → WellFormed s → WellFormed (force_kill alive p s)
unfolding force_kill
force_kill-WellFormed alive p s v = elim (Bool-cases (is_some (s.children p).pid && alive)) [
  | inl e ↦
      rw e (rest-WellFormed s.ffmpeg_available s.reconnects s.kills ((p, sigkill) ∷ s.signals) s v)
  | inr e ↦ rw e v
]
