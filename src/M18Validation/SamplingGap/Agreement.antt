-- ===== src/M18Validation/SamplingGap/Agreement.antt =====
-- The two sampling-gap evaluators, of health_history and m18_validation, side by side.
use project_aurora.Base.{
  ℕ, ◌≡◌, refl, arith, inl, inr, Bool-cases, leb, ltb, if◌then◌else◌, ◌==◌, ◌&&◌,
}
use project_aurora.Base.Checked.{Checked, ok, value_error, ◌>>=◌}
use project_aurora.HealthHistory.Models.{SamplingGapPhase}
use project_aurora.HealthHistory.SamplingGap as Production
use project_aurora.HealthHistory.SamplingGap.{
  SamplingGapEvent, SamplingGapObservation, SamplingGapState, SamplingGapTransition,
}
use project_aurora.M18Validation.SamplingGap as Reference
use project_aurora.M18Validation.SamplingGap.{
  GapPhase, GapEvent, GapObservation, GapState, GapTransition,
}

abbrev pub reference_phase : SamplingGapPhase → GapPhase
reference_phase SamplingGapPhase.clear = GapPhase.clear
reference_phase SamplingGapPhase.candidate_one = GapPhase.candidate_one
reference_phase SamplingGapPhase.active = GapPhase.active
reference_phase SamplingGapPhase.recovery_one = GapPhase.recovery_one

abbrev pub reference_event : SamplingGapEvent → GapEvent
reference_event SamplingGapEvent.no_event = GapEvent.no_event
reference_event SamplingGapEvent.candidate_started = GapEvent.candidate_started
reference_event SamplingGapEvent.candidate_cleared = GapEvent.candidate_cleared
reference_event SamplingGapEvent.opened = GapEvent.opened
reference_event SamplingGapEvent.miss_recorded = GapEvent.miss_recorded
reference_event SamplingGapEvent.recovery_started = GapEvent.recovery_started
reference_event SamplingGapEvent.recovery_reset = GapEvent.recovery_reset
reference_event SamplingGapEvent.recovered = GapEvent.recovered
reference_event SamplingGapEvent.marker_recorded = GapEvent.marker_recorded
reference_event SamplingGapEvent.duplicate_ignored = GapEvent.duplicate_ignored
reference_event SamplingGapEvent.persistence_failed = GapEvent.persistence_failed
reference_event SamplingGapEvent.sample_unusable = GapEvent.sample_unusable

abbrev pub reference_observation : SamplingGapObservation → GapObservation
reference_observation o = record {
  sequence = o.sequence;
  missed_intervals = o.missed_intervals;
  persistence_succeeded = o.persistence_succeeded;
  health_collection_succeeded = o.health_collection_succeeded;
  restart_gap_marker = o.startup_gap_marker;
  clock_discontinuity_marker = o.clock_discontinuity_marker;
}

abbrev pub reference_state : SamplingGapState → GapState
reference_state s = record {
  phase = reference_phase s.phase;
  committed_observations = s.committed_observations;
  largest_missed_interval_report = s.largest_missed_interval_report;
  last_committed_sequence = s.last_committed_sequence;
}

abbrev pub reference_transition : SamplingGapTransition → GapTransition
reference_transition t = record {
  previous = reference_state t.previous;
  state = reference_state t.state;
  event = reference_event t.event;
}

-- Both raise, or both return, and then the second the image of the first. The messages differ.
abbrev pub Agree : {A B : Type 0} → (A → B) → Checked A → Checked B → Type 0
Agree f (ok a) (ok b) = b ≡ f a
Agree f (value_error e) (value_error e') = Unit
Agree f _ _ = ⊥

bind-Agree :
    {A B C D : Type 0} (f : A → B) (g : C → D) (m : Checked A) (m' : Checked B) (k : A → Checked C)
    (k' : B → Checked D)
    → Agree f m m'
    → ((a : A) → Agree g (k a) (k' (f a)))
    → Agree g (m >>= k) (m' >>= k')
bind-Agree f g (ok a) (ok b) k k' h then_agree = rw h (then_agree a)
bind-Agree f g (value_error e) (value_error e') k k' h then_agree = tt
bind-Agree f g (ok a) (value_error e') k k' h then_agree = absurd h
bind-Agree f g (value_error e) (ok b) k k' h then_agree = absurd h

check_state-Agree :
    (s : SamplingGapState)
    → Agree reference_state (Production.check_state s) (Reference.check_state (reference_state s))
unfolding Production.check_state Reference.check_state
check_state-Agree s = ground arith

transition-Agree :
    (s t : SamplingGapState) (e : SamplingGapEvent)
    → Agree reference_transition
        (Production.transition s t e)
        (Reference.transition (reference_state s) (reference_state t) (reference_event e))
unfolding Production.transition Reference.transition
transition-Agree s t e = refl

enter-Agree :
    (s c : SamplingGapState) (p : SamplingGapPhase) (e : SamplingGapEvent)
    → Agree reference_transition (Production.enter s c p e) (
        Reference.enter
          (reference_state s)
          (reference_state c)
          (reference_phase p)
          (reference_event e))
unfolding Production.enter Reference.enter
enter-Agree s c p e =
    bind-Agree reference_state reference_transition _ _ _ _
      (check_state-Agree (record c { phase = p })) (λ t. transition-Agree s t e)

miss_in-Agree :
    (p : SamplingGapPhase) (s c : SamplingGapState) (n : ℕ)
    → Agree reference_transition
        (Production.miss_in p s c n)
        (Reference.miss_in (reference_phase p) (reference_state s) (reference_state c) n)
unfolding Production.miss_in Reference.miss_in
miss_in-Agree SamplingGapPhase.active s c n = enter-Agree s c _ _
miss_in-Agree SamplingGapPhase.recovery_one s c n = enter-Agree s c _ _
miss_in-Agree SamplingGapPhase.candidate_one s c n = elim (Bool-cases (leb 2 n)) [
  | inl e ↦ rw e (enter-Agree s c SamplingGapPhase.active SamplingGapEvent.opened)
  | inr e ↦ rw e (transition-Agree s c SamplingGapEvent.miss_recorded)
]
miss_in-Agree SamplingGapPhase.clear s c n = elim (Bool-cases (leb 2 n)) [
  | inl e ↦ rw e (enter-Agree s c SamplingGapPhase.active SamplingGapEvent.opened)
  | inr e ↦ rw e (enter-Agree s c SamplingGapPhase.candidate_one SamplingGapEvent.candidate_started)
]

apply_misses-Agree :
    (s c : SamplingGapState) (n : ℕ)
    → Agree reference_transition
        (Production.apply_misses s c n)
        (Reference.apply_missed_intervals (reference_state s) (reference_state c) n)
unfolding Production.apply_misses Reference.apply_missed_intervals
apply_misses-Agree s c n =
    bind-Agree reference_state reference_transition _ _ _ _ (check_state-Agree _)
      (λ u. miss_in-Agree s.phase s u n)

clean_in-Agree :
    (p : SamplingGapPhase) (s c : SamplingGapState)
    → Agree reference_transition
        (Production.clean_in p s c)
        (Reference.clean_in (reference_phase p) (reference_state s) (reference_state c))
unfolding Production.clean_in Reference.clean_in
clean_in-Agree SamplingGapPhase.clear s c = transition-Agree s c SamplingGapEvent.no_event
clean_in-Agree SamplingGapPhase.candidate_one s c =
    enter-Agree s c SamplingGapPhase.clear SamplingGapEvent.candidate_cleared
clean_in-Agree SamplingGapPhase.active s c =
    enter-Agree s c SamplingGapPhase.recovery_one SamplingGapEvent.recovery_started
clean_in-Agree SamplingGapPhase.recovery_one s c =
    enter-Agree s c SamplingGapPhase.clear SamplingGapEvent.recovered

marked-Agree :
    (p : SamplingGapPhase) (s c : SamplingGapState)
    → Agree reference_transition
        (if Production.is_recovering p
          then Production.enter s c SamplingGapPhase.active SamplingGapEvent.recovery_reset
          else Production.transition s c SamplingGapEvent.marker_recorded)
        (if Reference.is_recovering (reference_phase p)
          then Reference.enter
              (reference_state s)
              (reference_state c)
              GapPhase.active
              GapEvent.recovery_reset
          else Reference.transition
              (reference_state s)
              (reference_state c)
              GapEvent.marker_recorded)
marked-Agree SamplingGapPhase.recovery_one s c =
    enter-Agree s c SamplingGapPhase.active SamplingGapEvent.recovery_reset
marked-Agree SamplingGapPhase.clear s c = transition-Agree s c SamplingGapEvent.marker_recorded
marked-Agree SamplingGapPhase.candidate_one s c =
    transition-Agree s c SamplingGapEvent.marker_recorded
marked-Agree SamplingGapPhase.active s c = transition-Agree s c SamplingGapEvent.marker_recorded

after_commit-Agree :
    (s : SamplingGapState) (o : SamplingGapObservation) (c : SamplingGapState)
    → Agree reference_transition
        (Production.after_commit s o c)
        (Reference.after_commit (reference_state s) (reference_observation o) (reference_state c))
unfolding Production.after_commit Reference.after_commit
after_commit-Agree s o c = elim (Bool-cases o.clock_discontinuity_marker) [
  | inl jump ↦ rw jump (marked-Agree s.phase s c)
  | inr calm ↦ elim (Bool-cases (o.startup_gap_marker && o.missed_intervals == 0)) [
    | inl gap ↦ rw (calm, gap) (transition-Agree s c SamplingGapEvent.marker_recorded)
    | inr unmarked ↦ elim (Bool-cases (ltb 0 o.missed_intervals)) [
      | inl late ↦ rw (calm, unmarked, late) (apply_misses-Agree s c o.missed_intervals)
      | inr on_time ↦ elim (Bool-cases o.health_collection_succeeded) [
        | inl usable ↦ rw (calm, unmarked, on_time, usable) (clean_in-Agree s.phase s c)
        | inr bad ↦
            rw (calm, unmarked, on_time, bad)
              (transition-Agree s c SamplingGapEvent.sample_unusable)
      ]
    ]
  ]
]

-- On every state and observation the production evaluator raises exactly when the reference model
-- does, and else both return the same transition, up to the names of their types.
pub evaluate_sampling_gap-Agree :
    (s : SamplingGapState) (o : SamplingGapObservation)
    → Agree reference_transition
        (Production.evaluate_sampling_gap s o)
        (Reference.evaluate_sampling_gap (reference_state s) (reference_observation o))
unfolding Production.evaluate_sampling_gap Reference.evaluate_sampling_gap Reference.after_commit
evaluate_sampling_gap-Agree s o = elim (Bool-cases o.persistence_succeeded) [
  | inr lost ↦ simp lost (transition-Agree s s SamplingGapEvent.persistence_failed)
  | inl kept ↦ elim (Bool-cases (Production.is_duplicate s.last_committed_sequence o.sequence)) [
    | inl again ↦ simp (kept, again) (transition-Agree s s SamplingGapEvent.duplicate_ignored)
    | inr fresh ↦
        simp (kept, fresh)
          (bind-Agree reference_state reference_transition _ _ _ _ (check_state-Agree _)
            (λ c. after_commit-Agree s o c))
  ]
]
