-- ===== src/HealthHistory/Evaluation.antt =====
-- aurora_core/health_history/evaluation.py: debouncing of observed health. Each construction of a
-- state goes through the checks of its `__post_init__`; the type checks among these are the types.
pub mod Validity
pub mod Debounce
use project_aurora.Base.{
  ℕ, ◌+◌, min, Bool, true, false, not, ◌&&◌, ◌||◌, Option, none, some, if◌then◌else◌, ltb, leb,
  ◌==◌, is_some,
}
use project_aurora.Base.Checked.{Checked, ok, value_error, ◌>>=◌, ◌>>◌, raise_if}
use project_aurora.HealthHistory.Models.{
  max_bounded_counter, HealthHistoryStatus, healthy, degraded, unavailable,
}

abbrev pub degraded_open_threshold : ℕ
degraded_open_threshold = 3

abbrev pub unavailable_open_threshold : ℕ
unavailable_open_threshold = 2

abbrev pub healthy_recovery_threshold : ℕ
healthy_recovery_threshold = 2

pub data HealthEvaluationEvent : Type 0 where
  no_event condition_confirmed recovery_confirmed : HealthEvaluationEvent

pub record HealthEvaluationState : Type 0 where
  pub current_status : Option HealthHistoryStatus
  pub candidate_status : Option HealthHistoryStatus
  pub consecutive_count : ℕ

pub record HealthEvaluationInput : Type 0 where
  pub status : HealthHistoryStatus
  pub intentional_disabled : Bool
  pub active_health_alert : Bool
  pub persistence_succeeded : Bool

pub record HealthEvaluationTransition : Type 0 where
  pub previous : HealthEvaluationState
  pub state : HealthEvaluationState
  pub event : HealthEvaluationEvent

-- `a is b` on enum members.
abbrev pub same_status : HealthHistoryStatus → HealthHistoryStatus → Bool
same_status healthy healthy = true
same_status degraded degraded = true
same_status unavailable unavailable = true
same_status _ _ = false

-- `a is b` where either may be `None`.
abbrev pub same_candidate : Option HealthHistoryStatus → Option HealthHistoryStatus → Bool
same_candidate none none = true
same_candidate (some a) (some b) = same_status a b
same_candidate _ _ = false

abbrev pub same_bool : Bool → Bool → Bool
same_bool true b = b
same_bool false b = not b

-- `HealthEvaluationInput.__post_init__`
unfoldable check_input : HealthEvaluationInput → Checked HealthEvaluationInput
check_input r = do
  raise_if (r.intentional_disabled && same_status r.status healthy) "inconsistent_disabled_status"
  ok r

-- `HealthEvaluationState(...)`, with its `__post_init__`.
unfoldable pub new_state :
    Option HealthHistoryStatus → Option HealthHistoryStatus → ℕ → Checked HealthEvaluationState
new_state current candidate count = do
  raise_if (not (leb count max_bounded_counter)) "invalid_consecutive_count"
  raise_if (not (same_bool (not (is_some candidate)) (count == 0))) "inconsistent_candidate_count"
  raise_if (is_some candidate && not (same_candidate candidate current))
      "inconsistent_candidate_status"
  raise_if (not (is_some current) && (is_some candidate || not (count == 0)))
      "inconsistent_current_status"
  ok (record { current_status = current; candidate_status = candidate; consecutive_count = count })

abbrev pub next_count : HealthEvaluationState → HealthHistoryStatus → ℕ
next_count s status =
    if same_candidate s.candidate_status (some status)
    then min (s.consecutive_count + 1) max_bounded_counter
    else 1

abbrev pub threshold : HealthHistoryStatus → ℕ
threshold degraded = degraded_open_threshold
threshold _ = unavailable_open_threshold

-- A transition to a newly constructed state.
unfoldable pub move_to :
    HealthEvaluationState
    → Option HealthHistoryStatus
    → Option HealthHistoryStatus
    → ℕ
    → HealthEvaluationEvent
    → Checked HealthEvaluationTransition
move_to s current candidate count event = do
  updated ← new_state current candidate count
  ok (record { previous = s; state = updated; event = event })

-- `_evaluate_healthy`
unfoldable pub evaluate_healthy : HealthEvaluationState → Bool → Checked HealthEvaluationTransition
evaluate_healthy s active_health_alert =
    let count = next_count s healthy in
    if not active_health_alert
    then move_to s (some healthy) none 0 no_event
    else if leb healthy_recovery_threshold count
    then move_to s (some healthy) none 0 recovery_confirmed
    else move_to s (some healthy) (some healthy) count no_event

abbrev pub is_healthy : HealthHistoryStatus → Bool
is_healthy healthy = true
is_healthy _ = false

unfoldable pub evaluate_health_state :
    HealthEvaluationState → HealthEvaluationInput → Checked HealthEvaluationTransition
evaluate_health_state s o =
    let count = next_count s o.status in
    if not o.persistence_succeeded
    then ok (record { previous = s; state = s; event = no_event })
    else if o.intentional_disabled
    then move_to s (some o.status) none 0 no_event
    else if is_healthy o.status
    then evaluate_healthy s o.active_health_alert
    else move_to s (some o.status) (some o.status) count
        (if leb (threshold o.status) count then condition_confirmed else no_event)
