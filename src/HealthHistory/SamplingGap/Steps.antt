-- ===== src/HealthHistory/SamplingGap/Steps.antt =====
-- aurora_core/health_history/sampling_gap.py: valid states and the phase diagram.
use project_aurora.Base.{
  ℕ, ◌≤◌, ◌≡◌, refl, sym, subst, if◌then◌else◌, ◌&&◌, ◌==◌, ◌+◌, not, true, Option, some, arith,
  min, max, inl, inr, Bool-cases, leb, ltb,
}
use project_aurora.Base.Checked.{Checked, ok}
use project_aurora.HealthHistory.Models.{
  max_bounded_counter, SamplingGapPhase, clear, candidate_one, active, recovery_one,
}
use project_aurora.HealthHistory.SamplingGap.{
  no_event, candidate_started, candidate_cleared, opened, miss_recorded, recovery_started,
  recovery_reset, recovered, marker_recorded, duplicate_ignored, persistence_failed,
  sample_unusable, in_range, is_recovering, SamplingGapState, SamplingGapEvent,
  SamplingGapObservation, SamplingGapTransition, check_state, check_observation, transition, enter,
  miss_in, apply_misses, clean_in, after_commit, evaluate_sampling_gap, is_duplicate,
}

-- What `SamplingGapState(...)` checks.
pub record IsValid (s : SamplingGapState) : Type 0 where
  pub committed_bounded : s.committed_observations ≤ max_bounded_counter
  pub largest_bounded : s.largest_missed_interval_report ≤ max_bounded_counter
  pub last_bounded : in_range s.last_committed_sequence ≡ true

-- The events under which the phase stays.
pub data IsQuiet : SamplingGapEvent → Type 0 where
  nothing : IsQuiet no_event
  missed : IsQuiet miss_recorded
  marked : IsQuiet marker_recorded
  repeated : IsQuiet duplicate_ignored
  not_persisted : IsQuiet persistence_failed
  unusable : IsQuiet sample_unusable

-- The phase diagram, labelled by events. Every event that names no change keeps the phase.
pub data Edge : SamplingGapPhase → SamplingGapEvent → SamplingGapPhase → Type 0 where
  keeps : {p : SamplingGapPhase} {e : SamplingGapEvent} → IsQuiet e → Edge p e p
  starts : Edge clear candidate_started candidate_one
  cancels : Edge candidate_one candidate_cleared clear
  opens : Edge clear opened active
  opens_candidate : Edge candidate_one opened active
  begins_recovery : Edge active recovery_started recovery_one
  resets : Edge recovery_one recovery_reset active
  recovers : Edge recovery_one recovered clear

-- What an evaluation from `s` returns: a transition from `s` to a valid state with the given last
-- sequence, along an edge of the diagram.
pub record Outcome (s : SamplingGapState) (last : Option ℕ) (r : Checked SamplingGapTransition)
    : Type 0 where
  pub result : SamplingGapTransition
  pub returns : r ≡ ok result
  pub from_state : result.previous ≡ s
  pub valid : IsValid result.state
  pub last_kept : result.state.last_committed_sequence ≡ last
  pub edge : Edge s.phase result.event result.state.phase

-- The state `committed` differs from `s` in its counters and its last sequence.
record IsCommit (s c : SamplingGapState) : Type 0 where
  valid : IsValid c
  same_phase : c.phase ≡ s.phase

check_state-IsValid : (s : SamplingGapState) → IsValid s → check_state s ≡ ok s
unfolding check_state
check_state-IsValid s v = ground arith

quiet-Outcome :
    (s c : SamplingGapState) (e : SamplingGapEvent)
    → IsCommit s c
    → IsQuiet e
    → Outcome s c.last_committed_sequence (transition s c e)
unfolding transition
quiet-Outcome s c e v q = record {
  result = record { previous = s; state = c; event = e };
  returns = refl;
  from_state = refl;
  valid = v.valid;
  last_kept = refl;
  edge = subst (λ p. Edge s.phase e p) (sym v.same_phase) (keeps q);
}

enter-Outcome :
    (s c : SamplingGapState) (p : SamplingGapPhase) (e : SamplingGapEvent)
    → IsCommit s c
    → Edge s.phase e p
    → Outcome s c.last_committed_sequence (enter s c p e)
unfolding enter transition
enter-Outcome s c p e v edge =
    let w : IsValid (record c { phase = p }) = record {
      committed_bounded = v.valid.committed_bounded;
      largest_bounded = v.valid.largest_bounded;
      last_bounded = v.valid.last_bounded;
    } in
    rw (check_state-IsValid (record c { phase = p }) w) (record {
      result = record { previous = s; state = record c { phase = p }; event = e };
      returns = refl;
      from_state = refl;
      valid = w;
      last_kept = refl;
      edge = edge;
    })

-- In the phase `p` of `s`.
miss_in-Outcome :
    (p : SamplingGapPhase) (s c : SamplingGapState) (n : ℕ)
    → s.phase ≡ p
    → IsCommit s c
    → Outcome s c.last_committed_sequence (miss_in p s c n)
unfolding miss_in
miss_in-Outcome active s c n h v = enter-Outcome s c active _ v (rw h (keeps missed))
miss_in-Outcome recovery_one s c n h v = enter-Outcome s c active _ v (rw h resets)
miss_in-Outcome candidate_one s c n h v = elim (Bool-cases (leb 2 n)) [
  | inl e ↦ rw e (enter-Outcome s c active _ v (rw h opens_candidate))
  | inr e ↦ rw e (quiet-Outcome s c _ v missed)
]
miss_in-Outcome clear s c n h v = elim (Bool-cases (leb 2 n)) [
  | inl e ↦ rw e (enter-Outcome s c active _ v (rw h opens))
  | inr e ↦ rw e (enter-Outcome s c candidate_one _ v (rw h starts))
]

apply_misses-Outcome :
    (s c : SamplingGapState) (n : ℕ)
    → IsValid s
    → IsCommit s c
    → Outcome s c.last_committed_sequence (apply_misses s c n)
unfolding apply_misses
apply_misses-Outcome s c n u v =
    let largest : ℕ = max s.largest_missed_interval_report (min n max_bounded_counter) in
    let w : IsValid (record c { largest_missed_interval_report = largest }) = record {
      committed_bounded = v.valid.committed_bounded;
      largest_bounded = omega (arith, u.largest_bounded);
      last_bounded = v.valid.last_bounded;
    } in
    rw (check_state-IsValid _ w)
      (miss_in-Outcome s.phase s _ n refl (record { valid = w; same_phase = v.same_phase }))

clean_in-Outcome :
    (p : SamplingGapPhase) (s c : SamplingGapState)
    → s.phase ≡ p
    → IsCommit s c
    → Outcome s c.last_committed_sequence (clean_in p s c)
unfolding clean_in
clean_in-Outcome candidate_one s c h v = enter-Outcome s c clear _ v (rw h cancels)
clean_in-Outcome active s c h v = enter-Outcome s c recovery_one _ v (rw h begins_recovery)
clean_in-Outcome recovery_one s c h v = enter-Outcome s c clear _ v (rw h recovers)
clean_in-Outcome clear s c h v = quiet-Outcome s c _ v nothing

marked-Outcome :
    (p : SamplingGapPhase) (s c : SamplingGapState)
    → s.phase ≡ p
    → IsCommit s c
    → Outcome s c.last_committed_sequence (
        if is_recovering p then enter s c active recovery_reset else transition s c marker_recorded)
marked-Outcome recovery_one s c h v = enter-Outcome s c active _ v (rw h resets)
marked-Outcome clear s c h v = quiet-Outcome s c _ v marked
marked-Outcome candidate_one s c h v = quiet-Outcome s c _ v marked
marked-Outcome active s c h v = quiet-Outcome s c _ v marked

after_commit-Outcome :
    (s : SamplingGapState) (o : SamplingGapObservation) (c : SamplingGapState)
    → IsValid s
    → IsCommit s c
    → Outcome s c.last_committed_sequence (after_commit s o c)
unfolding after_commit
after_commit-Outcome s o c u v = elim (Bool-cases o.clock_discontinuity_marker) [
  | inl jump ↦ rw jump (marked-Outcome s.phase s c refl v)
  | inr calm ↦ elim (Bool-cases (o.startup_gap_marker && o.missed_intervals == 0)) [
    | inl gap ↦ rw (calm, gap) (quiet-Outcome s c _ v marked)
    | inr none_marked ↦ elim (Bool-cases (ltb 0 o.missed_intervals)) [
      | inl some_missed ↦
          rw (calm, none_marked, some_missed) (apply_misses-Outcome s c o.missed_intervals u v)
      | inr on_time ↦ elim (Bool-cases o.health_collection_succeeded) [
        | inl usable ↦ rw (calm, none_marked, on_time, usable) (clean_in-Outcome s.phase s c refl v)
        | inr bad ↦ rw (calm, none_marked, on_time, bad) (quiet-Outcome s c _ v unusable)
      ]
    ]
  ]
]

-- The last sequence after an evaluation that the checks of persistence and of duplicates let pass.
abbrev pub next_last : SamplingGapState → SamplingGapObservation → Option ℕ
next_last s o =
    if not o.persistence_succeeded
    then s.last_committed_sequence
    else if is_duplicate s.last_committed_sequence o.sequence
    then s.last_committed_sequence
    else some o.sequence

-- On a valid state and an observation in range the evaluation raises nothing: it returns a
-- transition to a valid state, along an edge of the phase diagram, and the last sequence moves
-- only forward, to that of a persisted observation that is no duplicate.
pub evaluate_sampling_gap-Outcome :
    (s : SamplingGapState) (o : SamplingGapObservation)
    → IsValid s
    → check_observation o ≡ ok o
    → Outcome s (next_last s o) (evaluate_sampling_gap s o)
unfolding evaluate_sampling_gap check_observation
evaluate_sampling_gap-Outcome s o v fine = elim (Bool-cases o.persistence_succeeded) [
  | inr lost ↦ rw lost (quiet-Outcome s s _ (record { valid = v; same_phase = refl }) not_persisted)
  | inl kept ↦ elim (Bool-cases (is_duplicate s.last_committed_sequence o.sequence)) [
    | inl again ↦
        rw (kept, again) (quiet-Outcome s s _ (record { valid = v; same_phase = refl }) repeated)
    | inr fresh ↦
        let c = record s {
          committed_observations = min (s.committed_observations + 1) max_bounded_counter;
          last_committed_sequence = some o.sequence;
        } in
        let w : IsValid c = record {
          committed_bounded = omega arith;
          largest_bounded = v.largest_bounded;
          last_bounded = ground (arith, fine);
        } in
        simp (kept, fresh, check_state-IsValid c w)
          (after_commit-Outcome s o c v (record { valid = w; same_phase = refl }))
  ]
]
