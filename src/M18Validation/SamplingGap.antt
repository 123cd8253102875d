-- ===== src/M18Validation/SamplingGap.antt =====
-- aurora_core/m18_validation/sampling_gap.py: the reference model of the sampling-gap policy.
-- Each construction goes through the checks of `__post_init__`.
pub mod Agreement
use project_aurora.Base.{
  ℕ, zero, ◌+◌, min, max, Bool, true, false, not, ◌&&◌, ◌||◌, Option, none, some, if◌then◌else◌,
  ltb, leb, ◌==◌,
}
use project_aurora.Base.Checked.{Checked, ok, value_error, ◌>>=◌, ◌>>◌, raise_if}

abbrev pub max_gap_counter : ℕ
max_gap_counter = 65535

abbrev pub max_gap_sequence : ℕ
max_gap_sequence = 9223372036854775807  -- 2 ** 63 - 1

pub data GapPhase : Type 0 where
  clear candidate_one active recovery_one : GapPhase

pub data GapEvent : Type 0 where
  no_event candidate_started candidate_cleared opened miss_recorded : GapEvent
  recovery_started recovery_reset recovered marker_recorded duplicate_ignored : GapEvent
  persistence_failed sample_unusable : GapEvent

pub record GapObservation : Type 0 where
  pub sequence : ℕ
  pub missed_intervals : ℕ
  pub persistence_succeeded : Bool
  pub health_collection_succeeded : Bool
  pub restart_gap_marker : Bool
  pub clock_discontinuity_marker : Bool

pub record GapState : Type 0 where
  pub phase : GapPhase
  pub committed_observations : ℕ
  pub largest_missed_interval_report : ℕ
  pub last_committed_sequence : Option ℕ

pub record GapTransition : Type 0 where
  pub previous : GapState
  pub state : GapState
  pub event : GapEvent

-- `GapObservation.__post_init__`
unfoldable pub check_observation : GapObservation → Checked GapObservation
check_observation o = do
  raise_if (not (leb o.sequence max_gap_sequence)) "invalid_gap_sequence"
  raise_if (o.restart_gap_marker && o.clock_discontinuity_marker) "conflicting_gap_markers"
  ok o

abbrev pub in_range : Option ℕ → Bool
in_range none = true
in_range (some n) = leb n max_gap_sequence

-- `GapState.__post_init__`, which `replace` runs too.
unfoldable pub check_state : GapState → Checked GapState
check_state s = do
  raise_if (not (leb s.committed_observations max_gap_counter)) "invalid_committed_observations"
  raise_if (not (leb s.largest_missed_interval_report max_gap_counter))
      "invalid_largest_missed_report"
  raise_if (not (in_range s.last_committed_sequence)) "invalid_last_committed_sequence"
  ok s

unfoldable pub transition : GapState → GapState → GapEvent → Checked GapTransition
transition s t e = ok (record { previous = s; state = t; event = e })

-- `GapTransition(state, replace(committed, phase=phase), event)`
unfoldable pub enter : GapState → GapState → GapPhase → GapEvent → Checked GapTransition
enter s committed p e = check_state (record committed { phase = p }) >>= λ t. transition s t e

-- `observation.sequence <= state.last_committed_sequence`, where the latter is not None.
abbrev pub is_duplicate : Option ℕ → ℕ → Bool
is_duplicate none sequence = false
is_duplicate (some last) sequence = leb sequence last

-- The end of `_apply_missed_intervals`, by the phase before.
unfoldable pub miss_in : GapPhase → GapState → GapState → ℕ → Checked GapTransition
miss_in active s updated missed = enter s updated active miss_recorded
miss_in recovery_one s updated missed = enter s updated active recovery_reset
miss_in candidate_one s updated missed =
    if leb 2 missed then enter s updated active opened else transition s updated miss_recorded
miss_in clear s updated missed =
    if leb 2 missed
    then enter s updated active opened
    else enter s updated candidate_one candidate_started

-- `_apply_missed_intervals`
unfoldable pub apply_missed_intervals : GapState → GapState → ℕ → Checked GapTransition
apply_missed_intervals s committed missed =
    check_state (record committed {
      largest_missed_interval_report =
          max s.largest_missed_interval_report (min missed max_gap_counter);
    })
    >>= λ updated. miss_in s.phase s updated missed

abbrev pub is_recovering : GapPhase → Bool
is_recovering recovery_one = true
is_recovering _ = false

-- The end of `evaluate_sampling_gap`: a clean sample, by the phase before.
unfoldable pub clean_in : GapPhase → GapState → GapState → Checked GapTransition
clean_in candidate_one s committed = enter s committed clear candidate_cleared
clean_in active s committed = enter s committed recovery_one recovery_started
clean_in recovery_one s committed = enter s committed clear recovered
clean_in clear s committed = transition s committed no_event

-- What follows the construction of `committed`.
unfoldable pub after_commit : GapState → GapObservation → GapState → Checked GapTransition
after_commit s o committed =
    if o.clock_discontinuity_marker
    then if is_recovering s.phase
      then enter s committed active recovery_reset
      else transition s committed marker_recorded
    else if o.restart_gap_marker && o.missed_intervals == 0
    then transition s committed marker_recorded
    else if ltb 0 o.missed_intervals
    then apply_missed_intervals s committed o.missed_intervals
    else if not o.health_collection_succeeded
    then transition s committed sample_unusable
    else clean_in s.phase s committed

unfoldable pub evaluate_sampling_gap : GapState → GapObservation → Checked GapTransition
evaluate_sampling_gap s o =
    if not o.persistence_succeeded
    then transition s s persistence_failed
    else if is_duplicate s.last_committed_sequence o.sequence
    then transition s s duplicate_ignored
    else check_state (record s {
      committed_observations = min (s.committed_observations + 1) max_gap_counter;
      last_committed_sequence = some o.sequence;
    })
      >>= λ committed. after_commit s o committed
