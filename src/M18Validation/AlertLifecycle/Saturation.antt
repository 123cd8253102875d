-- ===== src/M18Validation/AlertLifecycle/Saturation.antt =====
-- aurora_core/m18_validation/alert_lifecycle.py: an occurrence on an alert that is full.
use project_aurora.Base.{ℕ, ◌+◌, ◌≤◌, ◌≡◌, refl, min, max, true, false, ◌&&◌, none, some, arith}
use project_aurora.Base.Checked.{ok}
use project_aurora.M18Validation.AlertLifecycle.{
  AlertLifecycle, AlertEvent, AlertState, AlertInput, AlertTransition, open_operation, applied,
  max_alert_occurrences, is_terminal, same_scope, same_kind, mutated, bounded_deadline,
  update_occurrence, occur, open_in, operate, evaluate_alert_lifecycle,
}
use project_aurora.M18Validation.AlertLifecycle.Outcomes.{
  IsValid, check_state-IsValid, same_alert_refl,
}

-- The request that opens the alert `s` again.
abbrev pub open_request : AlertState → ℕ → AlertInput
open_request s now = record {
  operation = open_operation;
  scope = s.scope;
  kind = s.kind;
  now = now;
  persistence_succeeded = true;
  escalation_kind = none;
}

-- The transition to the same alert, reported as applied.
abbrev pub applied_alone : AlertState → AlertTransition
applied_alone s = record {
  previous = some s;
  state = some s;
  created_alert = none;
  event = some AlertEvent.occurrence_updated;
  outcome = applied;
}

update_occurrence-full :
    (s : AlertState) (now : ℕ)
    → IsValid s
    → s.occurrence_count ≡ max_alert_occurrences
    → bounded_deadline now ≤ s.cooldown_until
    → update_occurrence s now ≡ ok s
unfolding update_occurrence
update_occurrence-full s now v full late =
    let count : min (s.occurrence_count + 1) max_alert_occurrences ≡ s.occurrence_count =
      omega arith in
    let cooldown : max s.cooldown_until (bounded_deadline now) ≡ s.cooldown_until = omega arith in
    rw (count, cooldown) (check_state-IsValid s v)

occur-full :
    (s : AlertState) (now : ℕ)
    → IsValid s
    → s.occurrence_count ≡ max_alert_occurrences
    → bounded_deadline now ≤ s.cooldown_until
    → occur s now ≡ ok (applied_alone s)
unfolding occur
occur-full s now v full late = rw (update_occurrence-full s now v full late) refl

open_in-full :
    (l : AlertLifecycle) (s : AlertState) (now : ℕ)
    → is_terminal l ≡ false
    → occur s now ≡ ok (applied_alone s)
    → open_in l s (open_request s now) ≡ ok (applied_alone s)
unfolding open_in
open_in-full AlertLifecycle.open_alert s now live h = h
open_in-full AlertLifecycle.acknowledged s now live h = h
open_in-full AlertLifecycle.recovered s now live h = absurd (cc)
open_in-full AlertLifecycle.archived s now live h = absurd (cc)

-- Opening a valid open or acknowledged alert again, when its counter is at the limit and its
-- cooldown lasts at least to the new deadline, is reported as applied, with an event, and changes
-- nothing.
pub evaluate_alert_lifecycle-full :
    (s : AlertState) (now : ℕ)
    → IsValid s
    → is_terminal s.lifecycle ≡ false
    → s.occurrence_count ≡ max_alert_occurrences
    → bounded_deadline now ≤ s.cooldown_until
    → (evaluate_alert_lifecycle (some s) (open_request s now) ≡ ok (applied_alone s))
      × (mutated (applied_alone s) ≡ false)
unfolding evaluate_alert_lifecycle operate mutated
evaluate_alert_lifecycle-full s now v live full late =
    let same : same_scope s.scope s.scope && same_kind s.kind s.kind ≡ true = ground arith in
    (
      simp (same, open_in-full s.lifecycle s now live (occur-full s now v full late)) refl,
      rw (same_alert_refl s) refl,
    )
