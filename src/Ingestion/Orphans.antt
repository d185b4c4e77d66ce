-- ===== src/Ingestion/Orphans.antt =====
-- A reconnect timer that outlives a stop of its stream in
-- src/modules/ingestion/ingestion.service.ts: it tests only that the stream has a process.
use mediavault_backend.Prelude.{
  ℕ, suc, ◌+◌, String, ◌≡◌, false, Option, some, [], ◌∷◌, ◌++◌, refl, get_or, get, arith, get-set,
  eq_iff, ok, ap, ◌∙◌,
}
use mediavault_backend.Ingestion.Config.{RtspCameraConfig}
use mediavault_backend.Ingestion.Args.{WowzaSettings}
use mediavault_backend.Ingestion.Service.{
  IngestionService, ReconnectTimer, sigterm, spawn_ffmpeg, start_ingestion, stop_ingestion,
  terminate, register,
}
use mediavault_backend.Ingestion.Events.{
  reconnect, on_close, schedule_reconnect, plan_reconnect, exhausted,
}
use mediavault_backend.Ingestion.Retries.{
  Alive, fire_last, fire_last-append, planned, on_close-planned, start_ingestion-Alive,
}
use mediavault_backend.Ingestion.Lifecycle.{start_ingestion-Started, stop_ingestion-Stopped}

module _ (id : String) (s : IngestionService) where
  reconnect-takes_over :
      (w : WowzaSettings) (now : ℕ) (pid : Option ℕ) (t : ReconnectTimer) (p : ℕ)
      → t.config.stream_id ≡ id
      → get id s.processes ≡ some p
      → (get id (reconnect w now pid t s).processes ≡ some s.next_child)
        × ((reconnect w now pid t s).states ≡ s.states)
        × ((reconnect w now pid t s).signals ≡ s.signals)
  unfolding reconnect spawn_ffmpeg
  reconnect-takes_over w now pid t p same e = ground (
    arith,
    get-set t.config.stream_id id s.next_child s.processes,
    eq_iff t.config.stream_id id,
    same,
    ap (λ (k : String). get k s.processes) same,
  )

  stop_ingestion-signals :
      (p r : ℕ)
      → get id s.processes ≡ some p
      → get id s.states ≡ some r
      → (stop_ingestion id s).0.signals ≡ (p, sigterm) ∷ s.signals
  unfolding stop_ingestion terminate
  stop_ingestion-signals p r e f = ground arith

-- The first failure of a process is never the last one.
first_retried : (most : ℕ) → exhausted most (0 + 1) ≡ false
first_retried most = ground arith

-- What a failure that is retried leaves as it was.
on_close-keeps :
    (jitter code : ℕ) (c : RtspCameraConfig) (r a p : ℕ) (s : IngestionService)
    → exhausted (get_or c.max_reconnect_attempts 10) (a + 1) ≡ false
    → Alive c r a p s
    → let t = on_close jitter p (some (suc code)) s in
      (t.processes ≡ s.processes) × (t.signals ≡ s.signals) × (t.next_child ≡ s.next_child)
unfolding on_close schedule_reconnect plan_reconnect
on_close-keeps jitter code c r a p s h v = (ground arith, ground arith, ground arith)

stop_ingestion-keeps :
    (id : String) (s : IngestionService)
    → (stop_ingestion id s).1 ≡ ok tt
    → ((stop_ingestion id s).0.reconnects ≡ s.reconnects)
      × ((stop_ingestion id s).0.next_child ≡ s.next_child)
unfolding stop_ingestion terminate
stop_ingestion-keeps id s e = (ground arith, ground arith)

start_ingestion-keeps :
    (w : WowzaSettings) (now : ℕ) (pid : Option ℕ) (c : RtspCameraConfig) (r : ℕ)
    (s : IngestionService)
    → (start_ingestion w now pid c s).1 ≡ ok r
    → (start_ingestion w now pid c s).0.reconnects ≡ s.reconnects
unfolding start_ingestion register spawn_ffmpeg
start_ingestion-keeps w now pid c r s e = ground arith

-- A stream is started, its process fails, the stream is stopped and started again, and the timer that
-- was set last fires.
module _ (w : WowzaSettings) (now again fires : ℕ) (pid pid' pid'' : Option ℕ) (jitter code : ℕ)
    (c : RtspCameraConfig) (s : IngestionService) where
  abbrev pub failed : IngestionService
  failed = on_close jitter s.next_child (some (suc code)) (start_ingestion w now pid c s).0

  abbrev pub stopped : IngestionService
  stopped = (stop_ingestion c.stream_id failed).0

  abbrev pub restarted : IngestionService
  restarted = (start_ingestion w again pid' c stopped).0

  abbrev pub fired : IngestionService
  fired = fire_last w fires pid'' restarted

  -- When a stream is started, its process fails, the stream is stopped and started again, and then
  -- the timer that was set last fires, the process of the second start is no longer the stream's:
  -- the map holds a third process, only the first was sent a signal, and the next stop sends its
  -- signal to the third alone.
  pub reconnect_orphans :
      (r r' : ℕ)
      → (start_ingestion w now pid c s).1 ≡ ok r
      → (stop_ingestion c.stream_id failed).1 ≡ ok tt
      → (start_ingestion w again pid' c stopped).1 ≡ ok r'
      → (get c.stream_id restarted.processes ≡ some (suc s.next_child))
        × (get c.stream_id fired.processes ≡ some (suc (suc s.next_child)))
        × (fired.signals ≡ (s.next_child, sigterm) ∷ s.signals)
        × ((stop_ingestion c.stream_id fired).0.signals
            ≡ (suc (suc s.next_child), sigterm) ∷ (s.next_child, sigterm) ∷ s.signals)
  reconnect_orphans r r' begun halted begun' =
      let first = (start_ingestion w now pid c s).0 in
      let retried = first_retried (get_or c.max_reconnect_attempts 10) in
      let alive = start_ingestion-Alive w now pid jitter code c r s begun in
      let v = start_ingestion-Started w now pid c s r begun in
      let v' = start_ingestion-Started w again pid' c stopped r' begun' in
      let (same, silent, count) =
        on_close-keeps jitter code c r 0 s.next_child first retried alive in
      let (p, running, signalled) = (stop_ingestion-Stopped c.stream_id failed halted).process in
      let (pending, kept) = stop_ingestion-keeps c.stream_id failed halted in
      let timers : restarted.reconnects ≡ first.reconnects ++ planned jitter c r 0 ∷ [] =
        start_ingestion-keeps w again pid' c r' stopped begun'
        ∙ pending
        ∙ on_close-planned jitter code c r 0 s.next_child first retried alive in
      let numbered : stopped.next_child ≡ suc s.next_child = kept ∙ count ∙ v.spawned in
      let quiet = record restarted { reconnects = first.reconnects } in
      let (taken, states, hushed) =
        reconnect-takes_over c.stream_id quiet w fires pid'' (planned jitter c r 0)
          stopped.next_child refl v'.process in
      let same_fired =
        fire_last-append w fires pid'' first.reconnects (planned jitter c r 0) restarted timers in
      let was : p ≡ s.next_child = ground (arith, same, running, v.process) in
      let signals =
        ap (λ (x : IngestionService). x.signals) same_fired ∙ hushed ∙ v'.silent ∙ signalled in
      let third = v'.spawned ∙ ap suc numbered in
      let held =
        ap (λ (x : IngestionService). get c.stream_id x.processes) same_fired
        ∙ taken
        ∙ ap some third in
      let known =
        ap (λ (x : IngestionService). get c.stream_id x.states) same_fired
        ∙ ap (get c.stream_id) states
        ∙ v'.state in
      let sent =
        signals
        ∙ ap (λ q. (q, sigterm) ∷ failed.signals) was
        ∙ ap (λ l. (s.next_child, sigterm) ∷ l) (silent ∙ v.silent) in
      (
        v'.process ∙ ap some numbered,
        held,
        sent,
        stop_ingestion-signals c.stream_id fired (suc (suc s.next_child)) r' held known
            ∙ ap (λ l. (suc (suc s.next_child), sigterm) ∷ l) sent,
      )
