-- ===== src/Examples/AlertRules.antt =====
-- The theorems on alerts at one rule for a camera that is down.
use mediavault_backend.Prelude.{true, none, some, [], ◌∷◌, ◌≡◌, ◌==◌, refl}
use mediavault_backend.Alerts.{
  AlertRule, rule_key, event_key, AlertTables, Alerts, TriggerContext, stream_down, notification,
  high,
}
use mediavault_backend.Alerts.Cooldown.{Spaced, triggers, triggers-Spaced}
use mediavault_backend.Examples.Tables.{list_repository, first, visible, without}

abbrev tables : AlertTables
tables = record { rules = list_repository rule_key; events = list_repository event_key }

abbrev down : AlertRule
down = record {
  id = "a1";
  name = "gate down";
  description = none;
  stream_id = some "s1";
  device_id = none;
  condition = stream_down;
  params = [];
  action = notification;
  action_target = none;
  enabled = true;
  severity = high;
  cooldown_seconds = 60;
  last_triggered_at = none;
  created_by = "u0";
}

abbrev quiet : Alerts tables
quiet = record { rules = down ∷ []; events = []; sent = [] }

abbrev ctx : TriggerContext
ctx = record { stream_id = some "s1"; device_id = none; message = "down"; extra = none }

found : tables.rules.find_one (λ r. r.id == "a1") quiet.rules ≡ some down
unfolding first visible without
found = refl

triggers-Spaced_example : Spaced 60000 none (
    triggers tables "a1"
      (record { at = 5000; event_id = "e1"; ctx = ctx }
        ∷ record { at = 35000; event_id = "e2"; ctx = ctx }
        ∷ record { at = 65000; event_id = "e3"; ctx = ctx }
        ∷ [])
      quiet)
triggers-Spaced_example =
    triggers-Spaced tables "a1"
      (record { at = 5000; event_id = "e1"; ctx = ctx }
        ∷ record { at = 35000; event_id = "e2"; ctx = ctx }
        ∷ record { at = 65000; event_id = "e3"; ctx = ctx }
        ∷ [])
      quiet down found
