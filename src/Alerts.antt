-- ===== src/Alerts.antt =====
-- src/modules/alerts/alerts.service.ts. The ids of new rows and the time are
-- arguments. `context` of an alert event holds the texts that the worker gives.
pub mod Worker
pub mod Cooldown
pub mod Listing
use Prim.Native.String
use mediavault_backend.Prelude.{
  ℕ, ◌+◌, ◌*◌, String, Bool, true, false, ◌||◌, Option, none, some, List, [], ◌∷◌, ◌==◌,
  if◌then◌else◌, get_or, ltb, not, Map, Action, ◌>>=◌, ◌>>◌, pure, state, modify, or_throw,
  not_found,
}
use mediavault_backend.Platform.Repository.{Repository, by_key}
use mediavault_backend.Gateway.Emissions.{Emission, AlertLevel, info, warning, stream, emit_alert}

pub data AlertCondition : Type 0 where
  stream_down reconnecting no_signal high_latency motion_detected custom : AlertCondition

pub data AlertAction : Type 0 where
  notification email webhook record_stream : AlertAction

pub data AlertSeverity : Type 0 where
  low medium high critical : AlertSeverity

pub record AlertRule : Type 0 where
  pub id : String
  pub name : String
  pub description : Option String
  pub stream_id : Option String
  pub device_id : Option String
  pub condition : AlertCondition
  pub params : Map String
  pub action : AlertAction
  pub action_target : Option String
  pub enabled : Bool
  pub severity : AlertSeverity
  pub cooldown_seconds : ℕ
  pub last_triggered_at : Option ℕ
  pub created_by : String

pub record AlertEvent : Type 0 where
  pub id : String
  pub rule_id : String
  pub stream_id : Option String
  pub device_id : Option String
  pub message : String
  pub context : Map String
  pub severity : AlertSeverity
  pub triggered_at : ℕ
  pub acknowledged : Bool
  pub acknowledged_at : Option ℕ
  pub acknowledged_by : Option String

abbrev pub rule_key : AlertRule → String
rule_key r = r.id

abbrev pub event_key : AlertEvent → String
event_key e = e.id

pub record AlertTables : Type 1 where
  pub rules : Repository AlertRule rule_key
  pub events : Repository AlertEvent event_key

pub record Alerts (env : AlertTables) : Type 0 where
  pub rules : env.rules.Table
  pub events : env.events.Table
  pub sent : List Emission

pub record TriggerContext : Type 0 where
  pub stream_id : Option String
  pub device_id : Option String
  pub message : String
  pub extra : Option (Map String)

-- `levelMap[rule.severity]`.
abbrev pub level_of : AlertSeverity → AlertLevel
level_of low = info
level_of medium = warning
level_of high = AlertLevel.critical
level_of critical = AlertLevel.critical

-- `new Date() < nextAllowed`.
abbrev pub cooling : ℕ → AlertRule → Option ℕ → Bool
cooling now r none = false
cooling now r (some last) = ltb now (last + r.cooldown_seconds * 1000)

-- The event that `triggerAlert` saves.
abbrev pub new_event : ℕ → String → String → AlertRule → TriggerContext → AlertEvent
new_event now eid id r ctx = record {
  id = eid;
  rule_id = id;
  stream_id = ctx.stream_id;
  device_id = ctx.device_id;
  message = ctx.message;
  context = get_or ctx.extra [];
  severity = r.severity;
  triggered_at = now;
  acknowledged = false;
  acknowledged_at = none;
  acknowledged_by = none;
}

pub record UpdateAlertRuleDto : Type 0 where
  pub name : Option String
  pub description : Option String
  pub stream_id : Option String
  pub device_id : Option String
  pub condition : Option AlertCondition
  pub params : Option (Map String)
  pub action : Option AlertAction
  pub action_target : Option String
  pub enabled : Option Bool
  pub severity : Option AlertSeverity
  pub cooldown_seconds : Option ℕ

pub record CreateAlertRuleDto : Type 0 where
  pub name : String
  pub description : Option String
  pub stream_id : Option String
  pub device_id : Option String
  pub condition : AlertCondition
  pub params : Option (Map String)
  pub action : AlertAction
  pub action_target : Option String
  pub enabled : Option Bool
  pub severity : AlertSeverity
  pub cooldown_seconds : Option ℕ

-- The rule that `createRule` saves.
abbrev pub new_rule : String → CreateAlertRuleDto → String → AlertRule
new_rule id dto uid = record {
  id = id;
  name = dto.name;
  description = dto.description;
  stream_id = dto.stream_id;
  device_id = dto.device_id;
  condition = dto.condition;
  params = get_or dto.params [];
  action = dto.action;
  action_target = dto.action_target;
  enabled = get_or dto.enabled true;
  severity = dto.severity;
  cooldown_seconds = get_or dto.cooldown_seconds 60;
  last_triggered_at = none;
  created_by = uid;
}

abbrev pub or_old {ℓ} : {A : Type ℓ} → Option A → Option A → Option A
or_old none old = old
or_old (some a) old = some a

module _ (env : AlertTables) where
  abbrev pub find_rule : String → Alerts env → Option AlertRule
  find_rule id s = env.rules.find_one (by_key rule_key id) s.rules

  unfoldable pub create_rule : String → CreateAlertRuleDto → String → Action (Alerts env) AlertRule
  create_rule id dto uid = do
    modify (λ s. record s { rules = env.rules.save (new_rule id dto uid) s.rules })
    pure (new_rule id dto uid)

  -- The writes of a trigger that is let through.
  unfoldable pub fire : ℕ → String → String → AlertRule → TriggerContext → Alerts env → Alerts env
  fire now eid id r ctx s = record s {
    events = env.events.save (new_event now eid id r ctx) s.events;
    rules = env.rules.save (record r { last_triggered_at = some now }) s.rules;
    sent =
        emit_alert
          (record {
            id = eid;
            level = level_of r.severity;
            category = stream;
            title = r.name;
            message = ctx.message;
            stream_id = none;
            timestamp = now;
          })
          s.sent;
  }

  unfoldable pub trigger_alert :
      ℕ → String → String → TriggerContext → Alerts env → Alerts env × Option AlertEvent
  trigger_alert now eid id ctx s = elim (find_rule id s) [
    | none ↦ (s, none)
    | some r ↦
        if not r.enabled || cooling now r r.last_triggered_at
        then (s, none)
        else (fire now eid id r ctx s, some (new_event now eid id r ctx))
  ]

  unfoldable pub acknowledge_event : ℕ → String → String → Action (Alerts env) AlertEvent
  acknowledge_event now eid uid = do
    s ← state
    e ← or_throw (env.events.find_one (by_key event_key eid) s.events) not_found
    let e' = record e {
      acknowledged = true;
      acknowledged_at = some now;
      acknowledged_by = some uid;
    }
    modify (λ s. record s { events = env.events.save e' s.events })
    pure e'

  unfoldable pub update_rule : String → UpdateAlertRuleDto → Action (Alerts env) AlertRule
  update_rule id dto = do
    s ← state
    r ← or_throw (find_rule id s) not_found
    let r' = record r {
      name = get_or dto.name r.name;
      description = or_old dto.description r.description;
      stream_id = or_old dto.stream_id r.stream_id;
      device_id = or_old dto.device_id r.device_id;
      condition = get_or dto.condition r.condition;
      params = get_or dto.params r.params;
      action = get_or dto.action r.action;
      action_target = or_old dto.action_target r.action_target;
      enabled = get_or dto.enabled r.enabled;
      severity = get_or dto.severity r.severity;
      cooldown_seconds = get_or dto.cooldown_seconds r.cooldown_seconds;
    }
    modify (λ s. record s { rules = env.rules.save r' s.rules })
    pure r'

  unfoldable pub delete_rule : String → Action (Alerts env) (Unit {0})
  delete_rule id = do
    s ← state
    r ← or_throw (find_rule id s) not_found
    modify (λ s. record s { rules = env.rules.delete (by_key rule_key r.id) s.rules })
