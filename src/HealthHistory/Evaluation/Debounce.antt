-- ===== src/HealthHistory/Evaluation/Debounce.antt =====
-- aurora_core/health_history/evaluation.py: observations in a row.
use project_aurora.Base.{
  ap, ◌∙◌, ℕ, zero, suc, ◌≡◌, refl, ◌≢◌, Bool, true, false, some, arith, leb, if◌then◌else◌, min,
}
use project_aurora.Base.Checked.{Checked, ok, ◌>>=◌}
use project_aurora.HealthHistory.Models.{
  max_bounded_counter, HealthHistoryStatus, healthy, degraded, unavailable,
}
use project_aurora.HealthHistory.Evaluation.Validity.{
  next_count_bounds, new_state-candidate, same_status_refl, candidate_state,
}
use project_aurora.HealthHistory.Evaluation.{
  same_candidate, next_count, move_to, threshold, no_event, condition_confirmed,
  HealthEvaluationEvent, HealthEvaluationState, HealthEvaluationInput, HealthEvaluationTransition,
  evaluate_health_state,
}

-- A persisted observation of a status by a component that is not disabled.
abbrev pub seen : HealthHistoryStatus → Bool → HealthEvaluationInput
seen a active = record {
  status = a;
  intentional_disabled = false;
  active_health_alert = active;
  persistence_succeeded = true;
}

-- The transition of the last of `suc n` equal observations in a row.
pub repeat_observation :
    ℕ → HealthEvaluationInput → HealthEvaluationState → Checked HealthEvaluationTransition
repeat_observation zero o s = evaluate_health_state s o
repeat_observation (suc n) o s = repeat_observation n o s >>= λ t. evaluate_health_state t.state o

abbrev verdict : HealthHistoryStatus → ℕ → HealthEvaluationEvent
verdict a n = if leb (threshold a) n then condition_confirmed else no_event

evaluate-seen :
    (s : HealthEvaluationState) (a : HealthHistoryStatus) (active : Bool)
    → a ≢ healthy
    → evaluate_health_state s (seen a active)
      ≡ ok (record {
        previous = s;
        state = candidate_state a (next_count s a);
        event = verdict a (next_count s a);
      })
unfolding evaluate_health_state move_to
evaluate-seen s healthy active h = absurd (h refl)
evaluate-seen s degraded active h =
    let (low, high) = next_count_bounds s degraded in
    rw (new_state-candidate degraded (next_count s degraded) low high)
evaluate-seen s unavailable active h =
    let (low, high) = next_count_bounds s unavailable in
    rw (new_state-candidate unavailable (next_count s unavailable) low high)

next_count-again :
    (a : HealthHistoryStatus) (k : ℕ)
    → next_count (candidate_state a (min (suc k) max_bounded_counter)) a
      ≡ min (suc (suc k)) max_bounded_counter
next_count-again a k = rw (same_status_refl a) (omega arith)

verdict-min :
    (a : HealthHistoryStatus) (n : ℕ) → verdict a (min n max_bounded_counter) ≡ verdict a n
verdict-min a n = ground arith

-- After k + 1 persisted observations in a row of one status that is not HEALTHY, from a state that
-- was not counting it, the count is k + 1, up to the bound of the counter, and the last one
-- confirms the condition exactly when k + 1 reaches the threshold: 3 for DEGRADED, 2 else.
pub repeat_observation-confirms :
    (k : ℕ) (s : HealthEvaluationState) (a : HealthHistoryStatus) (active : Bool)
    → a ≢ healthy
    → same_candidate s.candidate_status (some a) ≡ false
    → (t : HealthEvaluationTransition) × (repeat_observation k (seen a active) s ≡ ok t)
      × (t.state ≡ candidate_state a (min (suc k) max_bounded_counter))
      × (t.event ≡ (if leb (threshold a) (suc k) then condition_confirmed else no_event))
unfolding repeat_observation
repeat_observation-confirms zero s a active h fresh = (
  record {
    previous = s;
    state = candidate_state a (next_count s a);
    event = verdict a (next_count s a);
  },
  evaluate-seen s a active h,
  rw fresh refl,
  rw fresh refl,
)
repeat_observation-confirms (suc k) s a active h fresh =
    let (t, e, st, ev) = repeat_observation-confirms k s a active h fresh in
    let n : ℕ = next_count t.state a in
    let e' : n ≡ min (suc (suc k)) max_bounded_counter =
      ap (λ u. next_count u a) st ∙ next_count-again a k in
    (
      record { previous = t.state; state = candidate_state a n; event = verdict a n },
      rw e (evaluate-seen t.state a active h),
      ap (candidate_state a) e',
      ap (verdict a) e' ∙ verdict-min a (suc (suc k)),
    )
