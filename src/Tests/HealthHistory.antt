-- ===== src/Tests/HealthHistory.antt =====
-- Runs of aurora_core/health_history.
mod Lifecycle
mod Scheduler
use project_aurora.Base.{
  ◌≤◌, ◌≡◌, refl, ◌≢◌, Bool, true, false, Option, none, some, arith, min, leb, if◌then◌else◌,
}
use project_aurora.Base.Checked.{Checked, ok}
use project_aurora.HealthHistory.Models.{
  HealthHistoryStatus, healthy, degraded, unavailable, max_bounded_counter, SamplingGapPhase, clear,
  candidate_one, active, recovery_one,
}
use project_aurora.HealthHistory.Evaluation.{
  HealthEvaluationState, HealthEvaluationTransition, evaluate_health_state, evaluate_healthy,
  move_to, new_state, threshold, condition_confirmed, no_event, recovery_confirmed,
}
use project_aurora.HealthHistory.Evaluation.Validity.{
  IsValid, candidate_state, evaluate_health_state-IsValid,
}
use project_aurora.HealthHistory.Evaluation.Debounce.{
  seen, repeat_observation, repeat_observation-confirms,
}
use project_aurora.HealthHistory.SamplingGap as Gap
use project_aurora.HealthHistory.SamplingGap.Steps as Steps
use project_aurora.HealthHistory.SamplingGap.Steps.{
  Outcome, next_last, evaluate_sampling_gap-Outcome,
}
use project_aurora.HealthHistory.SamplingGap.Replay.{evaluate_sampling_gap-replay}

abbrev unseen : HealthEvaluationState
unseen = record { current_status = none; candidate_status = none; consecutive_count = 0 }

unseen-IsValid : IsValid unseen
unfolding new_state
unseen-IsValid = refl

-- Two healthy samples in a row end an active alert.
recovers_twice :
    evaluate_health_state (candidate_state healthy 1) (seen healthy true)
    ≡ ok (record {
      previous = candidate_state healthy 1;
      state = record {
        current_status = some healthy;
        candidate_status = none;
        consecutive_count = 0;
      };
      event = recovery_confirmed;
    })
unfolding evaluate_health_state evaluate_healthy move_to new_state
recovers_twice = refl

evaluate_health_state-IsValid_example :
    (t : HealthEvaluationTransition) × (evaluate_health_state unseen (seen degraded false) ≡ ok t)
    × (t.previous ≡ unseen)
    × IsValid t.state
evaluate_health_state-IsValid_example =
    evaluate_health_state-IsValid unseen (seen degraded false) unseen-IsValid

-- The third degraded sample confirms.
repeat_observation-confirms_example :
    (t : HealthEvaluationTransition) × (repeat_observation 2 (seen degraded false) unseen ≡ ok t)
    × (t.state ≡ candidate_state degraded 3)
    × (t.event ≡ condition_confirmed)
repeat_observation-confirms_example =
    repeat_observation-confirms 2 unseen degraded false (λ e. cc) refl

abbrev observation : Gap.SamplingGapObservation
observation = record {
  sequence = 7;
  missed_intervals = 2;
  persistence_succeeded = true;
  health_collection_succeeded = true;
  startup_gap_marker = false;
  clock_discontinuity_marker = false;
}

abbrev quiet : Gap.SamplingGapState
quiet = record {
  phase = clear;
  committed_observations = 0;
  largest_missed_interval_report = 0;
  last_committed_sequence = some 3;
}

abbrev gap_open : Gap.SamplingGapTransition
gap_open = record {
  previous = quiet;
  state = record {
    phase = active;
    committed_observations = 1;
    largest_missed_interval_report = 2;
    last_committed_sequence = some 7;
  };
  event = Gap.opened;
}

-- Two missed intervals open a gap at once.
opens_at_two : Gap.evaluate_sampling_gap quiet observation ≡ ok gap_open
unfolding Gap.evaluate_sampling_gap Gap.after_commit Gap.apply_misses Gap.miss_in Gap.enter
    Gap.transition Gap.check_state
opens_at_two = refl

quiet-IsValid : Steps.IsValid quiet
quiet-IsValid = record {
  committed_bounded = omega arith;
  largest_bounded = omega arith;
  last_bounded = refl;
}

observation-checked : Gap.check_observation observation ≡ ok observation
unfolding Gap.check_observation
observation-checked = refl

evaluate_sampling_gap-Outcome_example :
    Outcome quiet (some 7) (Gap.evaluate_sampling_gap quiet observation)
evaluate_sampling_gap-Outcome_example =
    evaluate_sampling_gap-Outcome quiet observation quiet-IsValid observation-checked

evaluate_sampling_gap-replay_example :
    Gap.evaluate_sampling_gap gap_open.state observation
    ≡ ok (record {
      previous = gap_open.state;
      state = gap_open.state;
      event = Gap.duplicate_ignored;
    })
evaluate_sampling_gap-replay_example =
    evaluate_sampling_gap-replay quiet observation observation gap_open quiet-IsValid
      observation-checked refl opens_at_two refl (omega arith)
