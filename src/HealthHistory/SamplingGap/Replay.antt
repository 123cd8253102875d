-- ===== src/HealthHistory/SamplingGap/Replay.antt =====
-- aurora_core/health_history/sampling_gap.py: observations that come again.
use project_aurora.Base.{◌≤◌, ◌≡◌, subst, true, arith}
use project_aurora.Base.Checked.{ok}
use project_aurora.HealthHistory.SamplingGap.{
  SamplingGapState, SamplingGapObservation, SamplingGapTransition, duplicate_ignored,
  check_observation, transition, evaluate_sampling_gap, is_duplicate,
}
use project_aurora.HealthHistory.SamplingGap.Steps.{
  IsValid, next_last, evaluate_sampling_gap-Outcome,
}

duplicate_of :
    (s t : SamplingGapState) (o again : SamplingGapObservation)
    → o.persistence_succeeded ≡ true
    → again.sequence ≤ o.sequence
    → t.last_committed_sequence ≡ next_last s o
    → is_duplicate t.last_committed_sequence again.sequence ≡ true
duplicate_of s t o again kept h e = ground (arith, e)

duplicate_ignored_lem :
    (t : SamplingGapState) (o : SamplingGapObservation)
    → o.persistence_succeeded ≡ true
    → is_duplicate t.last_committed_sequence o.sequence ≡ true
    → evaluate_sampling_gap t o ≡ ok (record { previous = t; state = t; event = duplicate_ignored })
unfolding evaluate_sampling_gap transition
duplicate_ignored_lem t o kept d = simp (kept, d)

-- After a persisted observation, from a valid state, an evaluation of any persisted observation
-- with the same or an earlier sequence changes nothing and is reported as a duplicate.
pub evaluate_sampling_gap-replay :
    (s : SamplingGapState) (o again : SamplingGapObservation) (t : SamplingGapTransition)
    → IsValid s
    → check_observation o ≡ ok o
    → o.persistence_succeeded ≡ true
    → evaluate_sampling_gap s o ≡ ok t
    → again.persistence_succeeded ≡ true
    → again.sequence ≤ o.sequence
    → evaluate_sampling_gap t.state again
      ≡ ok (record { previous = t.state; state = t.state; event = duplicate_ignored })
evaluate_sampling_gap-replay s o again t v fine kept e kept' h =
    let out = evaluate_sampling_gap-Outcome s o v fine in
    let same : out.result ≡ t = cc (out.returns) in
    let last : t.state.last_committed_sequence ≡ next_last s o =
      subst (λ (u : SamplingGapTransition). u.state.last_committed_sequence ≡ next_last s o) same
        out.last_kept in
    duplicate_ignored_lem t.state again kept' (duplicate_of s t.state o again kept h last)
