-- ===== src/HealthHistory/SamplingGap.antt =====
-- aurora_core/health_history/sampling_gap.py: missed scheduler intervals open a gap, and clean
-- samples close it. Each construction goes through the checks of `__post_init__`.
pub mod Steps
pub mod Replay
use project_aurora.Base.{
  ℕ, zero, ◌+◌, min, max, Bool, true, false, not, ◌&&◌, ◌||◌, Option, none, some, if◌then◌else◌,
  ltb, leb, ◌==◌,
}
use project_aurora.Base.Checked.{Checked, ok, value_error, ◌>>=◌, ◌>>◌, raise_if}
use project_aurora.HealthHistory.Models.{
  max_bounded_counter, max_timestamp_us, SamplingGapPhase, clear, candidate_one, active,
  recovery_one,
}

pub data SamplingGapEvent : Type 0 where
  no_event candidate_started candidate_cleared opened miss_recorded : SamplingGapEvent
  recovery_started recovery_reset recovered marker_recorded duplicate_ignored : SamplingGapEvent
  persistence_failed sample_unusable : SamplingGapEvent

pub record SamplingGapObservation : Type 0 where
  pub sequence : ℕ
  pub missed_intervals : ℕ
  pub persistence_succeeded : Bool
  pub health_collection_succeeded : Bool
  pub startup_gap_marker : Bool
  pub clock_discontinuity_marker : Bool

pub record SamplingGapState : Type 0 where
  pub phase : SamplingGapPhase
  pub committed_observations : ℕ
  pub largest_missed_interval_report : ℕ
  pub last_committed_sequence : Option ℕ

pub record SamplingGapTransition : Type 0 where
  pub previous : SamplingGapState
  pub state : SamplingGapState
  pub event : SamplingGapEvent

-- `SamplingGapObservation.__post_init__`
unfoldable pub check_observation : SamplingGapObservation → Checked SamplingGapObservation
check_observation o = do
  raise_if (not (leb o.sequence max_timestamp_us)) "invalid_gap_sequence"
  raise_if (o.startup_gap_marker && o.clock_discontinuity_marker) "conflicting_gap_markers"
  ok o

abbrev pub in_range : Option ℕ → Bool
in_range none = true
in_range (some n) = leb n max_timestamp_us

-- `SamplingGapState.__post_init__`, which `replace` runs too.
unfoldable pub check_state : SamplingGapState → Checked SamplingGapState
check_state s = do
  raise_if (not (leb s.committed_observations max_bounded_counter)) "invalid_committed_observations"
  raise_if (not (leb s.largest_missed_interval_report max_bounded_counter))
      "invalid_largest_missed_interval_report"
  raise_if (not (in_range s.last_committed_sequence)) "invalid_last_committed_sequence"
  ok s

unfoldable pub transition :
    SamplingGapState → SamplingGapState → SamplingGapEvent → Checked SamplingGapTransition
transition s t e = ok (record { previous = s; state = t; event = e })

-- `SamplingGapTransition(state, replace(committed, phase=phase), event)`
unfoldable pub enter :
    SamplingGapState
    → SamplingGapState
    → SamplingGapPhase
    → SamplingGapEvent
    → Checked SamplingGapTransition
enter s committed p e = check_state (record committed { phase = p }) >>= λ t. transition s t e

-- `observation.sequence <= state.last_committed_sequence`, where the latter is not None.
abbrev pub is_duplicate : Option ℕ → ℕ → Bool
is_duplicate none sequence = false
is_duplicate (some last) sequence = leb sequence last

-- The end of `_apply_misses`, by the phase before.
unfoldable pub miss_in :
    SamplingGapPhase → SamplingGapState → SamplingGapState → ℕ → Checked SamplingGapTransition
miss_in active s updated missed = enter s updated active miss_recorded
miss_in recovery_one s updated missed = enter s updated active recovery_reset
miss_in candidate_one s updated missed =
    if leb 2 missed then enter s updated active opened else transition s updated miss_recorded
miss_in clear s updated missed =
    if leb 2 missed
    then enter s updated active opened
    else enter s updated candidate_one candidate_started

-- `_apply_misses`
unfoldable pub apply_misses :
    SamplingGapState → SamplingGapState → ℕ → Checked SamplingGapTransition
apply_misses s committed missed =
    check_state (record committed {
      largest_missed_interval_report =
          max s.largest_missed_interval_report (min missed max_bounded_counter);
    })
    >>= λ updated. miss_in s.phase s updated missed

abbrev pub is_recovering : SamplingGapPhase → Bool
is_recovering recovery_one = true
is_recovering _ = false

-- The end of `evaluate_sampling_gap`: a clean sample, by the phase before.
unfoldable pub clean_in :
    SamplingGapPhase → SamplingGapState → SamplingGapState → Checked SamplingGapTransition
clean_in candidate_one s committed = enter s committed clear candidate_cleared
clean_in active s committed = enter s committed recovery_one recovery_started
clean_in recovery_one s committed = enter s committed clear recovered
clean_in clear s committed = transition s committed no_event

-- What follows the construction of `committed`.
unfoldable pub after_commit :
    SamplingGapState → SamplingGapObservation → SamplingGapState → Checked SamplingGapTransition
after_commit s o committed =
    if o.clock_discontinuity_marker
    then if is_recovering s.phase
      then enter s committed active recovery_reset
      else transition s committed marker_recorded
    else if o.startup_gap_marker && o.missed_intervals == 0
    then transition s committed marker_recorded
    else if ltb 0 o.missed_intervals
    then apply_misses s committed o.missed_intervals
    else if not o.health_collection_succeeded
    then transition s committed sample_unusable
    else clean_in s.phase s committed

unfoldable pub evaluate_sampling_gap :
    SamplingGapState → SamplingGapObservation → Checked SamplingGapTransition
evaluate_sampling_gap s o =
    if not o.persistence_succeeded
    then transition s s persistence_failed
    else if is_duplicate s.last_committed_sequence o.sequence
    then transition s s duplicate_ignored
    else check_state (record s {
      committed_observations = min (s.committed_observations + 1) max_bounded_counter;
      last_committed_sequence = some o.sequence;
    })
      >>= λ committed. after_commit s o committed
