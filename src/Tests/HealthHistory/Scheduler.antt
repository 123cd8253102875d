-- ===== src/Tests/HealthHistory/Scheduler.antt =====
-- Runs of aurora_core/health_history/scheduler.py.
use project_aurora.Base.{
  ℕ, ◌+◌, ◌-◌, ◌/◌, ◌≡◌, refl, true, false, not, [], ◌∷◌, inl, inr, arith, ltb, leb, ◌==◌,
}
use project_aurora.HealthHistory.Scheduler.{
  Floats, AreOrdered, SchedulerCadenceState, started_at, is_valid_monotonic, is_valid_interval,
  is_valid_state, due_decision, decision, decision_fits, after_check, take_opportunity,
  elapsed_intervals, next_due, cumulative_missed, invalid_clock,
}
use project_aurora.HealthHistory.Scheduler.Cadence.{IsAnswered, take_opportunity-IsAnswered}
use project_aurora.HealthHistory.Scheduler.Spacing.{IsSpaced, due_decisions, due_decisions-IsSpaced}

-- Stands for the floats: whole seconds, with a division that rounds down.
abbrev seconds : Floats
seconds = record {
  Float = ℕ;
  float_lt = ltb;
  float_le = leb;
  float_eq = λ a b. a == b;
  is_finite = λ a. true;
  of_int = λ n. n;
  add = λ a b. a + b;
  sub = λ a b. a - b;
  div = λ a b. a / b;
  floor = λ a. a;
}

seconds-AreOrdered : AreOrdered seconds
seconds-AreOrdered = record {
  compare = λ a b f g. compare_seconds a b;
  same = λ a f. same_seconds a;
}
  where
    compare_seconds : (a b : ℕ) → ltb a b ≡ not (leb b a)
    compare_seconds a b = ground arith

    same_seconds : (a : ℕ) → (a == a) ≡ true
    same_seconds a = ground arith

abbrev start : SchedulerCadenceState seconds
start = started_at seconds 100

-- A sample each 30 seconds; two intervals are missed.
late_run :
    take_opportunity seconds start 175 30
    ≡ inl (
      record {
        planned_due_monotonic = 190;
        last_seen_monotonic = 175;
        pending_missed_intervals = 2;
      },
      record {
        due = true;
        missed_intervals = 2;
        checked_monotonic = 175;
        next_due_monotonic = 190;
      },
    )
unfolding take_opportunity decision due_decision after_check decision_fits is_valid_monotonic
    is_valid_interval elapsed_intervals next_due cumulative_missed
late_run = refl

-- Stands for floats whose quotient falls short of the whole number of intervals.
abbrev short_seconds : Floats
short_seconds = record seconds { floor = λ a. a - 1 }

-- One interval after the planned time, the time that follows is not after the reading.
short_run : take_opportunity short_seconds (started_at short_seconds 100) 130 30 ≡ inr invalid_clock
unfolding take_opportunity decision due_decision after_check decision_fits is_valid_monotonic
    is_valid_interval elapsed_intervals next_due cumulative_missed
short_run = refl

start_valid : is_valid_state seconds start ≡ true
unfolding is_valid_state is_valid_monotonic
start_valid = refl

interval_valid : is_valid_interval 30 ≡ true
unfolding is_valid_interval
interval_valid = refl

take_opportunity-IsAnswered_example :
    IsAnswered seconds start 175 30 (take_opportunity seconds start 175 30)
take_opportunity-IsAnswered_example =
    take_opportunity-IsAnswered seconds start 175 30 seconds-AreOrdered start_valid interval_valid

due_decisions-IsSpaced_example :
    IsSpaced seconds 100 (
      due_decisions seconds 30 ((105, true) ∷ (120, false) ∷ (90, false) ∷ (200, false) ∷ []) start)
due_decisions-IsSpaced_example =
    due_decisions-IsSpaced seconds 30 ((105, true) ∷ (120, false) ∷ (90, false) ∷ (200, false) ∷ [])
      start seconds-AreOrdered interval_valid start_valid
