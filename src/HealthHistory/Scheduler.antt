-- ===== src/HealthHistory/Scheduler.antt =====
-- aurora_core/health_history/scheduler.py: the cadence of the scheduler. A reading of the monotonic
-- clock is a float of seconds. The floats of the language are a parameter, a type with the
-- operations that the source uses; what they round is left open. What raises a SchedulerError
-- returns its reason.
pub mod Cadence
pub mod Spacing
use project_aurora.Base.{
  ℕ, ◌+◌, ◌*◌, ◌⊎◌, inl, inr, Bool, true, false, not, ◌&&◌, ◌||◌, Option, none, some, min, ◌≡◌,
  if◌then◌else◌, leb,
}
use project_aurora.HealthHistory.Models.{max_timestamp_us, max_bounded_counter}

abbrev pub min_sample_interval_seconds : ℕ
min_sample_interval_seconds = 5

abbrev pub max_sample_interval_seconds : ℕ
max_sample_interval_seconds = 300

-- Python's floats: `<`, `<=` and `==`, `math.isfinite`, the conversion of an integer, `+`, `-`, `/`
-- and `math.floor`, of a float that is not negative.
pub record Floats : Type 1 where
  pub Float : Type 0
  pub float_lt : Float → Float → Bool
  pub float_le : Float → Float → Bool
  pub float_eq : Float → Float → Bool
  pub is_finite : Float → Bool
  pub of_int : ℕ → Float
  pub add : Float → Float → Float
  pub sub : Float → Float → Float
  pub div : Float → Float → Float
  pub floor : Float → ℕ

-- What IEEE 754 says of the comparison of finite floats.
pub record AreOrdered (F : Floats) : Type 0 where
  pub compare :
      (a b : F.Float)
      → F.is_finite a ≡ true
      → F.is_finite b ≡ true
      → F.float_lt a b ≡ not (F.float_le b a)
  pub same : (a : F.Float) → F.is_finite a ≡ true → F.float_eq a a ≡ true

pub data SchedulerRejection : Type 0 where
  invalid_configuration invalid_clock invalid_state storage_busy : SchedulerRejection
  persistence_failed trust_failed reentrant : SchedulerRejection

-- A value, or the reason of the SchedulerError that is raised.
abbrev pub Scheduled {ℓ} : Type ℓ → Type ℓ
Scheduled A = A ⊎ SchedulerRejection

abbrev pub scheduled_then {ℓ κ} :
    {A : Type ℓ} {B : Type κ} → Scheduled A → (A → Scheduled B) → Scheduled B
scheduled_then (inl a) f = f a
scheduled_then (inr e) f = inr e

abbrev pub pending_or : Option ℕ → ℕ → ℕ
pending_or none pending = pending
pending_or (some given) pending = given

-- `_validated_sample_interval`
unfoldable pub is_valid_interval : ℕ → Bool
is_valid_interval seconds =
    leb min_sample_interval_seconds seconds && leb seconds max_sample_interval_seconds

pub record SchedulerDueDecision (F : Floats) : Type 0 where
  pub due : Bool
  pub missed_intervals : ℕ
  pub checked_monotonic : F.Float
  pub next_due_monotonic : F.Float

pub record SchedulerCadenceState (F : Floats) : Type 0 where
  pub planned_due_monotonic : F.Float
  pub last_seen_monotonic : F.Float
  pub pending_missed_intervals : ℕ

module _ (F : Floats) where
  -- `_is_valid_monotonic`
  unfoldable pub is_valid_monotonic : F.Float → Bool
  is_valid_monotonic value =
      F.is_finite value
      && F.float_le (F.of_int 0) value
      && F.float_le value (F.of_int max_timestamp_us)

  -- `SchedulerCadenceState.__post_init__`
  unfoldable pub is_valid_state : SchedulerCadenceState F → Bool
  is_valid_state s =
      is_valid_monotonic s.planned_due_monotonic
      && is_valid_monotonic s.last_seen_monotonic
      && leb s.pending_missed_intervals max_bounded_counter

  -- `math.floor((now - self.planned_due_monotonic) / interval)`
  unfoldable pub elapsed_intervals : SchedulerCadenceState F → F.Float → ℕ → ℕ
  elapsed_intervals s now seconds =
      F.floor (F.div (F.sub now s.planned_due_monotonic) (F.of_int seconds))

  -- `self.planned_due_monotonic + (elapsed_intervals + 1) * interval`
  unfoldable pub next_due : SchedulerCadenceState F → ℕ → ℕ → F.Float
  next_due s elapsed seconds = F.add s.planned_due_monotonic (F.of_int ((elapsed + 1) * seconds))

  -- The decision once the deadline is reached, `elapsed` intervals ago.
  unfoldable pub due_decision :
      SchedulerCadenceState F → F.Float → ℕ → ℕ → Scheduled (SchedulerDueDecision F)
  due_decision s now seconds elapsed =
      if not (is_valid_monotonic (next_due s elapsed seconds))
        || F.float_le (next_due s elapsed seconds) now
      then inr invalid_clock
      else inl (record {
        due = true;
        missed_intervals = min elapsed max_bounded_counter;
        checked_monotonic = now;
        next_due_monotonic = next_due s elapsed seconds;
      })

  -- `decision`
  unfoldable pub decision :
      SchedulerCadenceState F → F.Float → ℕ → Scheduled (SchedulerDueDecision F)
  decision s now seconds =
      if not (is_valid_interval seconds)
      then inr invalid_configuration
      else if not (is_valid_monotonic now)
      then inr invalid_clock
      else if F.float_lt now s.last_seen_monotonic
      then inr invalid_clock
      else if F.float_lt now s.planned_due_monotonic
      then inl (record {
        due = false;
        missed_intervals = 0;
        checked_monotonic = now;
        next_due_monotonic = s.planned_due_monotonic;
      })
      else due_decision s now seconds (elapsed_intervals s now seconds)

  -- The checks of `after_check` on the decision.
  unfoldable pub decision_fits : SchedulerCadenceState F → SchedulerDueDecision F → Bool → Bool
  decision_fits s d consume_due = not (
      F.float_lt d.checked_monotonic s.last_seen_monotonic
      || (consume_due && not d.due)
      || (d.due
          && (F.float_lt d.checked_monotonic s.planned_due_monotonic
              || F.float_le d.next_due_monotonic d.checked_monotonic))
      || (not d.due
          && (F.float_le s.planned_due_monotonic d.checked_monotonic
              || not (F.float_eq d.next_due_monotonic s.planned_due_monotonic))))

  -- `after_check`
  unfoldable pub after_check :
      SchedulerCadenceState F
      → SchedulerDueDecision F
      → Bool
      → Option ℕ
      → Scheduled (SchedulerCadenceState F)
  after_check s d consume_due given =
      let pending = pending_or given s.pending_missed_intervals in
      if not (decision_fits s d consume_due)
      then inr invalid_state
      else if not (leb pending max_bounded_counter)
      then inr invalid_state
      else inl (record {
        planned_due_monotonic =
            if consume_due then d.next_due_monotonic else s.planned_due_monotonic;
        last_seen_monotonic = d.checked_monotonic;
        pending_missed_intervals = pending;
      })

  abbrev pub Checked : Type 0
  Checked = Scheduled (SchedulerCadenceState F × SchedulerDueDecision F)

  -- `is_due`, on the state of a scheduler that no other call holds.
  unfoldable pub is_due : SchedulerCadenceState F → F.Float → ℕ → Checked
  is_due s now seconds =
      scheduled_then (decision s now seconds)
        λ d. scheduled_then (after_check s d false none) λ s'. inl (s', d)

  -- `cumulative_missed`, where the decision is due.
  unfoldable pub cumulative_missed : SchedulerCadenceState F → SchedulerDueDecision F → Option ℕ
  cumulative_missed s d =
      if d.due
      then some (min (s.pending_missed_intervals + d.missed_intervals) max_bounded_counter)
      else none

  -- The beginning of `_run_due_opportunity`: the decision, and the state that consumes it when it
  -- is due, with the missed intervals added up. Whatever the decision raises is an INVALID_CLOCK there.
  unfoldable pub take_opportunity : SchedulerCadenceState F → F.Float → ℕ → Checked
  take_opportunity s now seconds =
      scheduled_then (decision s now seconds)
        λ d. scheduled_then (after_check s d d.due (cumulative_missed s d)) λ s'. inl (s', d)

  -- The state of a scheduler that starts at a reading of the clock.
  abbrev pub started_at : F.Float → SchedulerCadenceState F
  started_at now = record {
    planned_due_monotonic = now;
    last_seen_monotonic = now;
    pending_missed_intervals = 0;
  }

  -- `_record_failed_sampling`
  unfoldable pub record_failed_sampling : SchedulerCadenceState F → SchedulerCadenceState F
  record_failed_sampling s = record s {
    pending_missed_intervals = min (s.pending_missed_intervals + 1) max_bounded_counter;
  }
