-- ===== src/Tests/M18Validation/AlertLifecycle.antt =====
-- Runs of aurora_core/m18_validation/alert_lifecycle.py.
use project_aurora.Base.{◌≡◌, refl, true, false, none, some, arith}
use project_aurora.Base.Checked.{ok, require}
use project_aurora.M18Validation.AlertLifecycle.{
  AlertLifecycle, AlertEvent, AlertState, AlertInput, wled, degraded, acknowledge, applied,
  check_input, check_state, mutated, operate, acknowledge_in, evaluate_alert_lifecycle,
}
use project_aurora.M18Validation.AlertLifecycle.Outcomes.{IsValid, Sound}
use project_aurora.M18Validation.AlertLifecycle.Soundness.{evaluate_alert_lifecycle-Sound}
use project_aurora.M18Validation.AlertLifecycle.Saturation.{
  open_request, applied_alone, evaluate_alert_lifecycle-full,
}

-- An open alert whose counter is full.
abbrev saturated : AlertState
saturated = record {
  scope = wled;
  kind = degraded;
  lifecycle = AlertLifecycle.open_alert;
  generation = 1;
  occurrence_count = 65535;
  cooldown_until = 5000;
  recovered_at = none;
}

abbrev acknowledge_request : AlertInput
acknowledge_request = record {
  operation = acknowledge;
  scope = wled;
  kind = degraded;
  now = 4200;
  persistence_succeeded = true;
  escalation_kind = none;
}

saturated-IsValid : IsValid saturated
saturated-IsValid = ground arith

acknowledge_request-checked : check_input acknowledge_request ≡ ok acknowledge_request
unfolding check_input
acknowledge_request-checked = refl

acknowledged_once :
    evaluate_alert_lifecycle (some saturated) acknowledge_request
    ≡ ok (record {
      previous = some saturated;
      state = some (record saturated { lifecycle = AlertLifecycle.acknowledged });
      created_alert = none;
      event = some AlertEvent.acknowledged;
      outcome = applied;
    })
unfolding evaluate_alert_lifecycle operate acknowledge_in check_state require
acknowledged_once = refl

evaluate_alert_lifecycle-Sound_example :
    Sound (some saturated) (evaluate_alert_lifecycle (some saturated) acknowledge_request)
evaluate_alert_lifecycle-Sound_example =
    evaluate_alert_lifecycle-Sound (some saturated) acknowledge_request saturated-IsValid
      acknowledge_request-checked

evaluate_alert_lifecycle-full_example :
    (evaluate_alert_lifecycle (some saturated) (open_request saturated 4100)
      ≡ ok (applied_alone saturated))
    × (mutated (applied_alone saturated) ≡ false)
evaluate_alert_lifecycle-full_example =
    evaluate_alert_lifecycle-full saturated 4100 saturated-IsValid refl refl (omega arith)
