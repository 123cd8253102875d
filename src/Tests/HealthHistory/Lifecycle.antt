-- ===== src/Tests/HealthHistory/Lifecycle.antt =====
-- Runs of aurora_core/health_history/lifecycle.py.
use project_aurora.Base.{◌≡◌, refl, true, none, some, arith}
use project_aurora.Base.Checked.{ok, require}
use project_aurora.HealthHistory.Models.{AlertScope, AlertKind, AlertLifecycle, LifecycleEvent}
use project_aurora.HealthHistory.Lifecycle.{
  AutomaticAlertState, AutomaticAlertInput, archive, check_input, evaluate_automatic_alert, applied,
  operate, archive_in, check_state,
}
use project_aurora.HealthHistory.Lifecycle.Outcomes.{IsValid, Accounted}
use project_aurora.HealthHistory.Lifecycle.Accounting.{evaluate_automatic_alert-Accounted}
use project_aurora.HealthHistory.Lifecycle.Progress.{Follows, evaluate_automatic_alert-Follows}

-- A recovered alert whose cooldown is over.
abbrev cooled : AutomaticAlertState
cooled = record {
  scope = AlertScope.wled;
  kind = AlertKind.degraded;
  lifecycle = AlertLifecycle.recovered;
  generation = 2;
  occurrence_count = 5;
  cooldown_until_utc_us = 900000100;
  recovered_at_utc_us = some 100;
}

abbrev archive_request : AutomaticAlertInput
archive_request = record {
  operation = archive;
  scope = AlertScope.wled;
  kind = AlertKind.degraded;
  now_utc_us = 900000200;
  persistence_succeeded = true;
  escalation_kind = none;
}

cooled-IsValid : IsValid cooled
cooled-IsValid = ground arith

archive_request-checked : check_input archive_request ≡ ok archive_request
unfolding check_input
archive_request-checked = refl

archived_after_cooldown :
    evaluate_automatic_alert (some cooled) archive_request
    ≡ ok (record {
      previous = some cooled;
      state = some (record cooled { lifecycle = AlertLifecycle.archived });
      created_alert = none;
      event = some LifecycleEvent.archived;
      outcome = applied;
    })
unfolding evaluate_automatic_alert operate archive_in check_state require
archived_after_cooldown = refl

evaluate_automatic_alert-Accounted_example :
    Accounted (some cooled) (evaluate_automatic_alert (some cooled) archive_request)
evaluate_automatic_alert-Accounted_example =
    evaluate_automatic_alert-Accounted (some cooled) archive_request cooled-IsValid
      archive_request-checked

evaluate_automatic_alert-Follows_example :
    Follows cooled (evaluate_automatic_alert (some cooled) archive_request)
evaluate_automatic_alert-Follows_example = evaluate_automatic_alert-Follows cooled archive_request
