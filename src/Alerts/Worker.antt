-- ===== src/Alerts/Worker.antt =====
-- src/modules/alerts/alerts.worker.ts: the round over the enabled rules.
use Prim.Native.String
use mediavault_backend.Prelude.{
  ℕ, String, Bool, true, false, Option, none, some, List, [], ◌∷◌, if◌then◌else◌,
}
use mediavault_backend.Streams.Stream.{status_text, StreamStatus, inactive, error, connecting}
use mediavault_backend.Alerts.{
  AlertCondition, stream_down, no_signal, AlertRule, AlertTables, Alerts, trigger_alert,
}

-- What the worker reads of a stream.
pub record StreamView : Type 0 where
  pub name : String
  pub status : StreamStatus

abbrev pub is_down : StreamStatus → Bool
is_down error = true
is_down inactive = true
is_down _ = false

abbrev pub is_connecting : StreamStatus → Bool
is_connecting connecting = true
is_connecting _ = false

abbrev quoted : String → String → String
quoted name tail = String.◌++◌ "Stream '" (String.◌++◌ name (String.◌++◌ "' está " tail))

abbrev down_word : StreamStatus → String
down_word error = "en error"
down_word _ = "inactivo"

-- `shouldTrigger` with the message; the conditions that the worker does not know are skipped.
unfoldable pub evaluate : AlertCondition → StreamView → Option (Bool × String)
evaluate stream_down v = some (is_down v.status, quoted v.name (down_word v.status))
evaluate no_signal v = some (is_down v.status, quoted v.name (down_word v.status))
evaluate AlertCondition.reconnecting v = some (is_connecting v.status, quoted v.name "reconectando")
evaluate _ v = none

module _ (env : AlertTables) (find_stream : String → Option StreamView) where
  -- The round of the worker for a rule of the stream `sid`.
  unfoldable pub evaluate_stream :
      ℕ → String → AlertRule → String → StreamView → Alerts env → Alerts env
  unfolding evaluate
  evaluate_stream now eid r sid v s = elim (evaluate r.condition v) [
    | none ↦ s
    | some (due, message) ↦
        if due
        then (trigger_alert env now eid r.id
            (record {
              stream_id = some sid;
              device_id = none;
              message = message;
              extra = some (("streamStatus", status_text v.status) ∷ ("streamName", v.name) ∷ []);
            })
            s).0
        else s
  ]

  -- The round for any rule: those without a stream, or whose stream is not found, are skipped.
  unfoldable pub evaluate_rule : ℕ → String → AlertRule → Alerts env → Alerts env
  unfolding evaluate_stream
  evaluate_rule now eid r s = elim r.stream_id [
    | none ↦ s
    | some sid ↦ elim (find_stream sid) [ none ↦ s | some v ↦ evaluate_stream now eid r sid v s ]
  ]

  -- `evaluateRules`: the enabled rules, each with the id that a new event would get.
  unfoldable pub evaluate_rules : ℕ → List (String × AlertRule) → Alerts env → Alerts env
  unfolding evaluate_rule
  evaluate_rules now [] s = s
  evaluate_rules now ((eid, r) ∷ rs) s = evaluate_rules now rs (evaluate_rule now eid r s)
