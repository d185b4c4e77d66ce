-- ===== src/Alerts/Listing.antt =====
-- `findAllRules` and `findEvents` of src/modules/alerts/alerts.service.ts. The rows here have no
-- time of creation: it is an argument.
use mediavault_backend.Prelude.{
  ℕ, ◌≤◌, min, String, Bool, Option, List, ◌&&◌, ◌==◌, get_or, length, leb, arith,
}
use mediavault_backend.Platform.Queries.{Queries, newest}
use mediavault_backend.Paging.{take, when_given, when_defined, equals, same_flag}
use mediavault_backend.Paging.Pages.{length-take}
use mediavault_backend.Paging.Queried.{queried}
use mediavault_backend.Alerts.{
  AlertSeverity, low, medium, high, critical, AlertRule, AlertEvent, AlertTables, Alerts,
}

pub record RuleFilters : Type 0 where
  pub enabled : Option Bool
  pub severity : Option String

abbrev pub severity_text : AlertSeverity → String
severity_text low = "low"
severity_text medium = "medium"
severity_text high = "high"
severity_text critical = "critical"

pub record EventFilters : Type 0 where
  pub rule_id : Option String
  pub stream_id : Option String
  pub acknowledged : Option Bool
  pub from_time : Option ℕ
  pub to_time : Option ℕ
  pub limit : Option ℕ

module _ (env : AlertTables) (q : Queries) where
  unfoldable pub find_all_rules : (AlertRule → ℕ) → RuleFilters → Alerts env → List AlertRule
  find_all_rules created_at f s =
      queried env.rules q (newest created_at)
        (λ r.
          when_defined f.enabled (same_flag r.enabled)
          && when_given f.severity (λ t. severity_text r.severity == t))
        s.rules

  unfoldable pub is_listed : EventFilters → AlertEvent → Bool
  is_listed f e =
      when_given f.rule_id (λ id. e.rule_id == id)
      && when_given f.stream_id (equals e.stream_id)
      && when_defined f.acknowledged (same_flag e.acknowledged)
      && when_defined f.from_time (λ t. leb t e.triggered_at)
      && when_defined f.to_time (λ t. leb e.triggered_at t)

  abbrev pub event_limit : EventFilters → ℕ
  event_limit f = min (get_or f.limit 50) 200

  unfoldable pub find_events : EventFilters → Alerts env → List AlertEvent
  find_events f s =
      take (event_limit f)
        (queried env.events q (newest (λ (e : AlertEvent). e.triggered_at)) (is_listed f) s.events)

  find_events_bound : (f : EventFilters) (s : Alerts env) → length (find_events f s) ≤ 200
  unfolding find_events
  find_events_bound f s = omega (
    arith,
    length-take (event_limit f)
        (queried env.events q (newest (λ (e : AlertEvent). e.triggered_at)) (is_listed f) s.events),
  )
