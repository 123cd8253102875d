-- ===== src/Tests/M18Validation.antt =====
-- Runs of aurora_core/m18_validation.
mod AlertLifecycle
use project_aurora.Base.{true, false, none}
use project_aurora.HealthHistory.Models.{candidate_one}
use project_aurora.HealthHistory.SamplingGap as Production
use project_aurora.M18Validation.SamplingGap as Reference
use project_aurora.M18Validation.SamplingGap.Agreement.{
  Agree, reference_state, reference_observation, reference_transition, evaluate_sampling_gap-Agree,
}

abbrev late : Production.SamplingGapObservation
late = record {
  sequence = 4;
  missed_intervals = 1;
  persistence_succeeded = true;
  health_collection_succeeded = false;
  startup_gap_marker = true;
  clock_discontinuity_marker = false;
}

abbrev waiting : Production.SamplingGapState
waiting = record {
  phase = candidate_one;
  committed_observations = 65535;
  largest_missed_interval_report = 1;
  last_committed_sequence = none;
}

evaluate_sampling_gap-Agree_example :
    Agree reference_transition
      (Production.evaluate_sampling_gap waiting late)
      (Reference.evaluate_sampling_gap (reference_state waiting) (reference_observation late))
evaluate_sampling_gap-Agree_example = evaluate_sampling_gap-Agree waiting late
