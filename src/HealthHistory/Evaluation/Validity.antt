-- ===== src/HealthHistory/Evaluation/Validity.antt =====
-- aurora_core/health_history/evaluation.py: valid states.
use project_aurora.Base.{
  ℕ, ◌≤◌, ◌≡◌, refl, Bool, true, false, none, some, arith, inl, inr, leb, Bool-cases,
}
use project_aurora.Base.Checked.{Checked, ok}
use project_aurora.HealthHistory.Models.{
  max_bounded_counter, HealthHistoryStatus, healthy, degraded, unavailable,
}
use project_aurora.HealthHistory.Evaluation.{
  no_event, recovery_confirmed, healthy_recovery_threshold, is_healthy, same_status, next_count,
  move_to, HealthEvaluationEvent, HealthEvaluationState, HealthEvaluationInput,
  HealthEvaluationTransition, new_state, evaluate_healthy, evaluate_health_state,
}

-- A state that `HealthEvaluationState(...)` constructs.
abbrev pub IsValid : HealthEvaluationState → Type 0
IsValid s = new_state s.current_status s.candidate_status s.consecutive_count ≡ ok s

abbrev Fits : HealthEvaluationState → Checked HealthEvaluationTransition → Type 0
Fits s r = (t : HealthEvaluationTransition) × (r ≡ ok t) × (t.previous ≡ s) × IsValid t.state

abbrev pub candidate_state : HealthHistoryStatus → ℕ → HealthEvaluationState
candidate_state a n = record {
  current_status = some a;
  candidate_status = some a;
  consecutive_count = n;
}

pub same_status_refl : (a : HealthHistoryStatus) → same_status a a ≡ true
same_status_refl healthy = refl
same_status_refl degraded = refl
same_status_refl unavailable = refl

pub new_state-candidate :
    (a : HealthHistoryStatus) (n : ℕ)
    → 1 ≤ n
    → n ≤ max_bounded_counter
    → new_state (some a) (some a) n ≡ ok (candidate_state a n)
unfolding new_state
new_state-candidate a n h k = ground (arith, same_status_refl a)

pub next_count_bounds :
    (s : HealthEvaluationState) (a : HealthHistoryStatus)
    → (1 ≤ next_count s a) × (next_count s a ≤ max_bounded_counter)
next_count_bounds s a = ground arith

move_to-reset :
    (s : HealthEvaluationState) (a : HealthHistoryStatus) (e : HealthEvaluationEvent)
    → Fits s (move_to s (some a) none 0 e)
unfolding move_to new_state
move_to-reset s a e = (
  record {
    previous = s;
    state = record { current_status = some a; candidate_status = none; consecutive_count = 0 };
    event = e;
  },
  refl,
  refl,
  refl,
)

move_to-candidate :
    (s : HealthEvaluationState) (a : HealthHistoryStatus) (e : HealthEvaluationEvent)
    → Fits s (move_to s (some a) (some a) (next_count s a) e)
unfolding move_to
move_to-candidate s a e =
    let (low, high) = next_count_bounds s a in
    let built = new_state-candidate a (next_count s a) low high in
    (
      record { previous = s; state = candidate_state a (next_count s a); event = e },
      rw built,
      refl,
      built,
    )

healthy-Fits : (s : HealthEvaluationState) (active : Bool) → Fits s (evaluate_healthy s active)
unfolding evaluate_healthy
healthy-Fits s false = move_to-reset s healthy no_event
healthy-Fits s true = elim (Bool-cases (leb healthy_recovery_threshold (next_count s healthy))) [
  | inl e ↦ rw e (move_to-reset s healthy recovery_confirmed)
  | inr e ↦ rw e (move_to-candidate s healthy no_event)
]

-- On a valid state the evaluation raises nothing, and its result is again a valid state, built
-- from the given one.
pub evaluate_health_state-IsValid :
    (s : HealthEvaluationState) (o : HealthEvaluationInput)
    → IsValid s
    → (t : HealthEvaluationTransition) × (evaluate_health_state s o ≡ ok t)
      × (t.previous ≡ s)
      × IsValid t.state
unfolding evaluate_health_state
evaluate_health_state-IsValid s o v = elim (Bool-cases o.persistence_succeeded) [
  | inr lost ↦ rw lost (record { previous = s; state = s; event = no_event }, refl, refl, v)
  | inl kept ↦ elim (Bool-cases o.intentional_disabled) [
    | inl off ↦ rw (kept, off) (move_to-reset s o.status no_event)
    | inr on ↦ elim (Bool-cases (is_healthy o.status)) [
      | inl well ↦ rw (kept, on, well) (healthy-Fits s o.active_health_alert)
      | inr ill ↦ rw (kept, on, ill) (move_to-candidate s o.status _)
    ]
  ]
]
