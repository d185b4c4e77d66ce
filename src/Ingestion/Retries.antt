-- ===== src/Ingestion/Retries.antt =====
-- The reconnection policy of src/modules/ingestion/ingestion.service.ts: the delays, and how many
-- times a process that fails is spawned again.
use native.Mathlib.Nat.{pow-suc, zero-add}
use mediavault_backend.Prelude.{
  inr, ◌⊎◌, ℕ, zero, suc, ◌+◌, ◌*◌, ◌^◌, ◌-◌, ◌≤◌, min, ◌≡◌, true, false, Option, some, has, get,
  arith, ok, ap, ◌∙◌, get_or, List, [], ◌∷◌, ◌++◌, none, refl, get-set, get-delete, eq_iff,
}
use mediavault_backend.Ingestion.Config.{RtspCameraConfig, max_retries}
use mediavault_backend.Ingestion.Args.{WowzaSettings}
use mediavault_backend.Ingestion.Service.{
  IngestionService, ReconnectTimer, spawn_ffmpeg, register, start_ingestion,
}
use mediavault_backend.Ingestion.Events.{
  reconnect_delay, exhausted, schedule_reconnect, give_up, plan_reconnect, on_close, reconnect,
}

pow_pos : (n : ℕ) → 1 ≤ 2 ^ n
pow_pos zero = omega arith
pow_pos (suc n) = simp pow-suc (omega (arith, pow_pos n))

add-zero : (a : ℕ) → a ≡ a + 0
add-zero a = omega arith

add-suc_left : (a k : ℕ) → a + suc k ≡ a + 1 + k
add-suc_left a k = omega arith

sub_one : (n : ℕ) → suc n - 1 ≡ n
sub_one n = omega arith

reconnect_delay_bounds :
    (base attempts : ℕ)
    → base ≤ 60000
    → (base ≤ reconnect_delay base attempts) × (reconnect_delay base attempts ≤ 60000)
unfolding reconnect_delay
reconnect_delay_bounds base attempts h =
    let grown : base * 1 ≤ base * 2 ^ (attempts - 1) = grind (arith, pow_pos (attempts - 1)) in
    omega arith

reconnect_delay-doubles :
    (base n : ℕ) → reconnect_delay base (suc (suc n)) ≡ min (2 * reconnect_delay base (suc n)) 60000
unfolding reconnect_delay
reconnect_delay-doubles base n = rw (sub_one (suc n), sub_one n, pow-suc 2 n) (omega arith)

reconnect_delay-first : (base : ℕ) → base ≤ 60000 → reconnect_delay base 1 ≡ base
unfolding reconnect_delay
reconnect_delay-first base h = omega arith

-- Before the jitter, the first delay is the base delay, of at most a minute, each later one is twice
-- the one before, up to a minute, and all lie between the base delay and a minute.
pub reconnect_delay_lem :
    (base n : ℕ)
    → base ≤ 60000
    → (reconnect_delay base 1 ≡ base)
      × (reconnect_delay base (suc (suc n)) ≡ min (2 * reconnect_delay base (suc n)) 60000)
      × (base ≤ reconnect_delay base n)
      × (reconnect_delay base n ≤ 60000)
reconnect_delay_lem base n h = (
  reconnect_delay-first base h,
  reconnect_delay-doubles base n,
  (reconnect_delay_bounds base n h).0,
  (reconnect_delay_bounds base n h).1,
)

-- The process `p` runs for the configuration `c` with the state object `r`, after `a` reconnections.
pub record Alive (c : RtspCameraConfig) (r a p : ℕ) (s : IngestionService) : Type 0 where
  pub present : has c.stream_id s.processes ≡ true
  pub running : get c.stream_id s.processes ≡ some p
  pub config : (s.children p).config ≡ c
  pub object : (s.children p).object ≡ r
  pub attempts : (s.objects r).reconnect_attempts ≡ a

-- The timer that was set last, and those before it.
abbrev last_timer : List ReconnectTimer → Option (List ReconnectTimer × ReconnectTimer)
last_timer [] = none
last_timer (t ∷ ts) = elim (last_timer ts) [
  | none ↦ some ([], t)
  | some (before, u) ↦ some (t ∷ before, u)
]

last_timer-append :
    (ts : List ReconnectTimer) (t : ReconnectTimer) → last_timer (ts ++ t ∷ []) ≡ some (ts, t)
last_timer-append [] t = refl
last_timer-append (u ∷ ts) t = rw (last_timer-append ts t) refl

abbrev pub fire_timer :
    WowzaSettings
    → ℕ
    → Option ℕ
    → IngestionService
    → Option (List ReconnectTimer × ReconnectTimer)
    → IngestionService
fire_timer w now pid s none = s
fire_timer w now pid s (some (before, t)) = reconnect w now pid t (record s { reconnects = before })

-- Of the timers that are pending, the one that was set last fires.
abbrev pub fire_last : WowzaSettings → ℕ → Option ℕ → IngestionService → IngestionService
fire_last w now pid s = fire_timer w now pid s (last_timer s.reconnects)

pub fire_last-append :
    (w : WowzaSettings) (now : ℕ) (pid : Option ℕ) (ts : List ReconnectTimer) (t : ReconnectTimer)
    (s : IngestionService)
    → s.reconnects ≡ ts ++ t ∷ []
    → fire_last w now pid s ≡ reconnect w now pid t (record s { reconnects = ts })
fire_last-append w now pid ts t s e =
    ap (fire_timer w now pid s) (ap last_timer e ∙ last_timer-append ts t)

-- The timer that a failure of a process with the configuration `c` and the state object `r` sets,
-- after `a` reconnections.
abbrev pub planned : ℕ → RtspCameraConfig → ℕ → ℕ → ReconnectTimer
planned jitter c r a = record {
  config = c;
  object = r;
  delay_ms = reconnect_delay (get_or c.reconnect_delay_ms 3000) (a + 1) + jitter;
}

pub on_close-planned :
    (jitter code : ℕ) (c : RtspCameraConfig) (r a p : ℕ) (s : IngestionService)
    → exhausted (get_or c.max_reconnect_attempts 10) (a + 1) ≡ false
    → Alive c r a p s
    → (on_close jitter p (some (suc code)) s).reconnects ≡ s.reconnects ++ planned jitter c r a ∷ []
unfolding on_close schedule_reconnect plan_reconnect
on_close-planned jitter code c r a p s h v = ground arith

module _ (w : WowzaSettings) (now : ℕ) (pid : Option ℕ) (jitter code : ℕ) where
  -- The process `p` fails with a code other than 0, and the timer that was set last fires.
  abbrev pub crash_and_retry : ℕ → IngestionService → IngestionService
  crash_and_retry p s = fire_last w now pid (on_close jitter p (some (suc code)) s)

  -- `k` rounds of that: the process that runs then, and the state.
  pub crashes : ℕ → ℕ → IngestionService → ℕ × IngestionService
  crashes zero p s = (p, s)
  crashes (suc k) p s = crashes k s.next_child (crash_and_retry p s)

  -- What fires is the timer of the failure.
  fired :
      (c : RtspCameraConfig) (r a p : ℕ) (s : IngestionService)
      → exhausted (get_or c.max_reconnect_attempts 10) (a + 1) ≡ false
      → Alive c r a p s
      → crash_and_retry p s
        ≡ reconnect w now pid
            (planned jitter c r a)
            (record (on_close jitter p (some (suc code)) s) { reconnects = s.reconnects })
  fired c r a p s h v =
      fire_last-append w now pid s.reconnects (planned jitter c r a) _
        (on_close-planned jitter code c r a p s h v)

  crash_and_retry-Alive :
      (c : RtspCameraConfig) (r a p : ℕ) (s : IngestionService)
      → exhausted (get_or c.max_reconnect_attempts 10) (a + 1) ≡ false
      → Alive c r a p s
      → Alive c r (a + 1) s.next_child (crash_and_retry p s)
  unfolding on_close reconnect schedule_reconnect plan_reconnect spawn_ffmpeg
  crash_and_retry-Alive c r a p s h v = rw (fired c r a p s h v) (record {
    present = ground (
      arith,
      get-set c.stream_id c.stream_id s.next_child s.processes,
      eq_iff c.stream_id c.stream_id,
    );
    running = ground (
      arith,
      get-set c.stream_id c.stream_id s.next_child s.processes,
      eq_iff c.stream_id c.stream_id,
    );
    config = ground arith;
    object = ground arith;
    attempts = ground arith;
  })

  crashes-Alive :
      (k : ℕ) (c : RtspCameraConfig) (r a p : ℕ) (s : IngestionService)
      → (get_or c.max_reconnect_attempts 10 ≡ 0) ⊎ (a + k ≤ get_or c.max_reconnect_attempts 10)
      → Alive c r a p s
      → Alive c r (a + k) (crashes k p s).0 (crashes k p s).1
  unfolding crashes
  crashes-Alive zero c r a p s h v = rw (← add-zero a) v
  crashes-Alive (suc k) c r a p s h v = rw (add-suc_left a k) (
      crashes-Alive k c r (a + 1) s.next_child (crash_and_retry p s) (ground arith)
        (crash_and_retry-Alive c r a p s (ground arith) v))

  -- A successful start leaves a live process with no reconnection counted.
  pub start_ingestion-Alive :
      (c : RtspCameraConfig) (r : ℕ) (s : IngestionService)
      → (start_ingestion w now pid c s).1 ≡ ok r
      → Alive c r 0 s.next_child (start_ingestion w now pid c s).0
  unfolding start_ingestion register spawn_ffmpeg
  start_ingestion-Alive c r s e = record {
    present = ground (
      arith,
      get-set c.stream_id c.stream_id s.next_child s.processes,
      eq_iff c.stream_id c.stream_id,
    );
    running = ground (
      arith,
      get-set c.stream_id c.stream_id s.next_child s.processes,
      eq_iff c.stream_id c.stream_id,
    );
    config = ground arith;
    object = ground arith;
    attempts = ground arith;
  }

  -- After a start, a process that keeps failing, with the timer that was set last firing after each
  -- failure, is spawned again as long as the limit allows, or for ever if the limit is 0: `k`
  -- failures later the stream has a process, the last one spawned, and the state counts `k`
  -- reconnections.
  pub start_crashes-Alive :
      (k : ℕ) (c : RtspCameraConfig) (r : ℕ) (s : IngestionService)
      → (start_ingestion w now pid c s).1 ≡ ok r
      → (get_or c.max_reconnect_attempts 10 ≡ 0) ⊎ (k ≤ get_or c.max_reconnect_attempts 10)
      → Alive c r k
          (crashes k s.next_child (start_ingestion w now pid c s).0).0
          (crashes k s.next_child (start_ingestion w now pid c s).0).1
  start_crashes-Alive k c r s e h = rw zero-add at (
      crashes-Alive k c r 0 s.next_child (start_ingestion w now pid c s).0 (rw zero-add h)
        (start_ingestion-Alive c r s e))

  -- The service has given up: no process, no new timer, and the status says so.
  pub record GivenUp (c : RtspCameraConfig) (r : ℕ) (before after : IngestionService) : Type 0 where
    pub status : (after.objects r).status ≡ max_retries
    pub absent : has c.stream_id after.processes ≡ false
    pub quiet : after.reconnects ≡ before.reconnects
    pub spawned : after.next_child ≡ before.next_child

  on_close-GivenUp :
      (c : RtspCameraConfig) (r a p : ℕ) (s : IngestionService)
      → exhausted (get_or c.max_reconnect_attempts 10) (a + 1) ≡ true
      → Alive c r a p s
      → GivenUp c r s (on_close jitter p (some (suc code)) s)
  unfolding on_close schedule_reconnect give_up
  on_close-GivenUp c r a p s h v = record {
    status = ground arith;
    absent =
        ground
          (arith, get-delete c.stream_id c.stream_id s.processes, eq_iff c.stream_id c.stream_id);
    quiet = ground arith;
    spawned = ground arith;
  }

  -- With a limit above 0, the failure that follows as many failures and firings of the last timer as
  -- the limit allows makes the service give up.
  pub start_crashes-GivenUp :
      (c : RtspCameraConfig) (r : ℕ) (s : IngestionService)
      → (start_ingestion w now pid c s).1 ≡ ok r
      → 1 ≤ get_or c.max_reconnect_attempts 10
      → let most = get_or c.max_reconnect_attempts 10 in
        let last = crashes most s.next_child (start_ingestion w now pid c s).0 in
        GivenUp c r last.1 (on_close jitter last.0 (some (suc code)) last.1)
  start_crashes-GivenUp c r s e h =
      on_close-GivenUp c r (get_or c.max_reconnect_attempts 10) _ _ (ground arith)
        (start_crashes-Alive (get_or c.max_reconnect_attempts 10) c r s e (inr (omega arith)))
