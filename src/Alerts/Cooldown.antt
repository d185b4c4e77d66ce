-- ===== src/Alerts/Cooldown.antt =====
-- How often src/modules/alerts raises an alert: the cooldown of a rule, and the quiet rounds of the
-- worker.
use mediavault_backend.Prelude.{
  ℕ, suc, length, ◌+◌, ◌*◌, ◌≤◌, String, Bool, true, false, Option, none, some, List, [], ◌∷◌, ◌≡◌,
  refl, arith, not, ◌||◌, ltb, Option-cases, Bool-cases, inl, inr, eq_refl,
}
use mediavault_backend.Platform.Repository.{by_key}
use mediavault_backend.Platform.Repository.Laws.{find_one-key}
use mediavault_backend.Gateway.Emissions.{emit_alert}
use mediavault_backend.Streams.Stream.{active}
use mediavault_backend.Alerts.{
  event_key, AlertRule, AlertEvent, AlertTables, Alerts, TriggerContext, find_rule, cooling, fire,
  new_event, trigger_alert,
}
use mediavault_backend.Alerts.Worker.{
  StreamView, evaluate, evaluate_stream, evaluate_rule, evaluate_rules,
}

-- A call of `triggerAlert`: its time, the id a new event would get, and the context.
pub record Trigger : Type 0 where
  pub at : ℕ
  pub event_id : String
  pub ctx : TriggerContext

abbrev pub with_event : Option AlertEvent → List AlertEvent → List AlertEvent
with_event none es = es
with_event (some e) es = e ∷ es

abbrev pub After : ℕ → Option ℕ → ℕ → Type 0
After gap none t = Unit
After gap (some last) t = last + gap ≤ t

-- Every event comes at least `gap` after the one before it, the first after `last`.
abbrev pub Spaced : ℕ → Option ℕ → List AlertEvent → Type 0
Spaced gap last [] = Unit
Spaced gap last (e ∷ es) = After gap last e.triggered_at × Spaced gap (some e.triggered_at) es

abbrev pub gap_of : AlertRule → ℕ
gap_of r = r.cooldown_seconds * 1000

module _ (env : AlertTables) (id : String) where
  -- The events of a sequence of calls for the rule `id`.
  abbrev pub triggers : List Trigger → Alerts env → List AlertEvent
  triggers [] s = []
  triggers (c ∷ cs) s =
      let r = trigger_alert env c.at c.event_id id c.ctx s in with_event r.1 (triggers cs r.0)

  fired_rule :
      (now : ℕ) (eid : String) (r : AlertRule) (ctx : TriggerContext) (s : Alerts env)
      → find_rule env id s ≡ some r
      → find_rule env id (fire env now eid id r ctx s)
        ≡ some (record r { last_triggered_at = some now })
  unfolding fire
  fired_rule now eid r ctx s found = ground (
    arith,
    env.rules.find_one-save id (record r { last_triggered_at = some now }) s.rules,
    find_one-key env.rules s.rules id r found,
    eq_refl id,
  )

  cooled :
      (now : ℕ) (r : AlertRule) (last : Option ℕ)
      → cooling now r last ≡ false
      → After (gap_of r) last now
  cooled now r none h = tt
  cooled now r (some t) h = ground arith

  not_held :
      (now : ℕ) (r : AlertRule) (last : Option ℕ)
      → r.enabled ≡ true
      → After (gap_of r) last now
      → (not r.enabled || cooling now r last) ≡ false
  not_held now r none on h = ground arith
  not_held now r (some t) on h = ground arith

  -- What stops a call for the rule `r`.
  abbrev pub held : ℕ → AlertRule → Bool
  held now r = not r.enabled || cooling now r r.last_triggered_at

  trigger_held :
      (now : ℕ) (eid : String) (r : AlertRule) (ctx : TriggerContext) (s : Alerts env)
      → find_rule env id s ≡ some r
      → held now r ≡ true
      → trigger_alert env now eid id ctx s ≡ (s, none)
  unfolding trigger_alert
  trigger_held now eid r ctx s found h = ground arith

  trigger_let_through :
      (now : ℕ) (eid : String) (r : AlertRule) (ctx : TriggerContext) (s : Alerts env)
      → find_rule env id s ≡ some r
      → held now r ≡ false
      → trigger_alert env now eid id ctx s
        ≡ (fire env now eid id r ctx s, some (new_event now eid id r ctx))
  unfolding trigger_alert
  trigger_let_through now eid r ctx s found h = ground arith

  -- Whatever calls are made for a rule, at whatever times and with whatever contexts, the events
  -- that are raised are at least its cooldown apart, and the first is at least the cooldown after
  -- the rule's last trigger.
  pub triggers-Spaced :
      (cs : List Trigger) (s : Alerts env) (r : AlertRule)
      → find_rule env id s ≡ some r
      → Spaced (gap_of r) r.last_triggered_at (triggers cs s)
  triggers-Spaced [] s r found = tt
  triggers-Spaced (c ∷ cs) s r found = elim (Bool-cases (held c.at r)) [
    | inl h ↦ rw (trigger_held c.at c.event_id r c.ctx s found h) (triggers-Spaced cs s r found)
    | inr h ↦ rw (trigger_let_through c.at c.event_id r c.ctx s found h) (
      cooled c.at r r.last_triggered_at (ground arith),
      triggers-Spaced cs _ _ (fired_rule c.at c.event_id r c.ctx s found),
    )
  ]

  -- A call for an enabled rule that has cooled down answers with the new event, which is stored
  -- under its id, and the clients get one alert; a call before the cooldown has passed again answers
  -- with none and changes nothing.
  trigger_alert_lem :
      (now later : ℕ) (eid eid' : String) (ctx ctx' : TriggerContext) (s : Alerts env)
      (r : AlertRule)
      → find_rule env id s ≡ some r
      → r.enabled ≡ true
      → After (gap_of r) r.last_triggered_at now
      → ltb later (now + gap_of r) ≡ true
      → let s' = (trigger_alert env now eid id ctx s).0 in
        let e = new_event now eid id r ctx in
        ((trigger_alert env now eid id ctx s).1 ≡ some e)
        × (env.events.find_one (by_key event_key eid) s'.events ≡ some e)
        × (length s'.sent ≡ suc (length s.sent))
        × (trigger_alert env later eid' id ctx' s' ≡ (s', none))
  trigger_alert_lem now later eid eid' ctx ctx' s r found on cool h =
      rw (trigger_let_through now eid r ctx s found (not_held now r r.last_triggered_at on cool)) (
        refl,
        unfold fire in
            ground (
              arith,
              env.events.find_one-save eid (new_event now eid id r ctx) s.events,
              eq_refl eid,
            ),
        unfold fire emit_alert in ground arith,
        trigger_held later eid' _ ctx' _ (fired_rule now eid r ctx s found) (ground arith),
      )

module _ (env : AlertTables) (find_stream : String → Option StreamView) where
  quiet :
      (now : ℕ) (eid : String) (r : AlertRule) (s : Alerts env)
      → ((sid : String) (v : StreamView) → find_stream sid ≡ some v → v.status ≡ active)
      → evaluate_rule env find_stream now eid r s ≡ s
  unfolding evaluate_rule evaluate_stream evaluate
  quiet now eid r s h = elim (Option-cases r.stream_id) [
    | inl e ↦ ground arith
    | inr (sid, e) ↦ elim (Option-cases (find_stream sid)) [
      | inl e' ↦ ground arith
      | inr (v, e') ↦ ground (arith, h sid v e')
    ]
  ]

  -- A round of the worker changes nothing while every stream is active, whatever the rules are.
  evaluate_rules-quiet :
      (now : ℕ) (rs : List (String × AlertRule)) (s : Alerts env)
      → ((sid : String) (v : StreamView) → find_stream sid ≡ some v → v.status ≡ active)
      → evaluate_rules env find_stream now rs s ≡ s
  unfolding evaluate_rules
  evaluate_rules-quiet now [] s h = refl
  evaluate_rules-quiet now ((eid, r) ∷ rs) s h =
      rw (quiet now eid r s h) (evaluate_rules-quiet now rs s h)
