-- ===== src/HealthHistory/Scheduler/Spacing.antt =====
-- aurora_core/health_history/scheduler.py: the opportunities of a scheduler, one after the other.
use project_aurora.Base.{
  ℕ, ◌≡◌, refl, ap, subst, ◌∙◌, Bool, true, false, List, [], ◌∷◌, inl, inr, if◌then◌else◌, arith,
}
use project_aurora.HealthHistory.Scheduler.{
  Floats, AreOrdered, SchedulerDueDecision, SchedulerCadenceState, is_valid_interval,
  is_valid_state, Checked, take_opportunity, record_failed_sampling,
}
use project_aurora.HealthHistory.Scheduler.Cadence.{following, take_opportunity-IsAnswered}

-- Each decision is due at a reading that is not before the time planned, and plans a time after its
-- reading, which is the time planned for the next one.
abbrev pub IsSpaced : (F : Floats) → F.Float → List (SchedulerDueDecision F) → Type 0
IsSpaced F planned [] = Unit
IsSpaced F planned (d ∷ ds) =
    (F.float_lt d.checked_monotonic planned ≡ false)
    × (F.float_lt d.checked_monotonic d.next_due_monotonic ≡ true)
    × IsSpaced F d.next_due_monotonic ds

module _ (F : Floats) (seconds : ℕ) where
  -- The state that the next opportunity finds, where the sampling of a due one may have failed.
  abbrev pub after_sampling : Bool → SchedulerCadenceState F → SchedulerCadenceState F
  after_sampling failed s = if failed then record_failed_sampling F s else s

  abbrev pub after_opportunity :
      Checked F
      → SchedulerCadenceState F
      → Bool
      → (SchedulerCadenceState F → List (SchedulerDueDecision F))
      → List (SchedulerDueDecision F)
  after_opportunity (inr e) s failed continue = continue s
  after_opportunity (inl (s', d)) s failed continue =
      if d.due then d ∷ continue (after_sampling failed s') else continue s'

  -- The due decisions of opportunities at readings of the clock, with whether the sampling failed.
  unfoldable pub due_decisions :
      List (F.Float × Bool) → SchedulerCadenceState F → List (SchedulerDueDecision F)
  due_decisions [] s = []
  due_decisions ((now, failed) ∷ rest) s =
      after_opportunity (take_opportunity F s now seconds) s failed λ s'. due_decisions rest s'

  after_sampling-valid :
      (failed : Bool) (s : SchedulerCadenceState F)
      → is_valid_state F s ≡ true
      → is_valid_state F (after_sampling failed s) ≡ true
  unfolding is_valid_state record_failed_sampling
  after_sampling-valid false s valid = valid
  after_sampling-valid true s valid = ground arith

  after_sampling-planned :
      (failed : Bool) (s : SchedulerCadenceState F)
      → (after_sampling failed s).planned_due_monotonic ≡ s.planned_due_monotonic
  unfolding record_failed_sampling
  after_sampling-planned false s = refl
  after_sampling-planned true s = refl

  -- From a valid state, with an interval of 5 to 300 seconds, over any readings of the clock, also
  -- ones that raise, and whichever samplings fail: a sample is never due before the time planned,
  -- and each due sample plans, for the next one, a time after its own reading.
  pub due_decisions-IsSpaced :
      (readings : List (F.Float × Bool)) (s : SchedulerCadenceState F)
      → AreOrdered F
      → is_valid_interval seconds ≡ true
      → is_valid_state F s ≡ true
      → IsSpaced F s.planned_due_monotonic (due_decisions readings s)
  unfolding due_decisions
  due_decisions-IsSpaced [] s ordered fits valid = tt
  due_decisions-IsSpaced ((now, failed) ∷ rest) s ordered fits valid =
      elim (take_opportunity-IsAnswered F s now seconds ordered valid fits) [
        | inl (bad, e) ↦ rw e (due_decisions-IsSpaced rest s ordered fits valid)
        | inr (s', d, e, (usable, valid', inl (before, kept, plan))) ↦
            let more = due_decisions-IsSpaced rest s' ordered fits valid' in
            rw (e, plan)
              (subst (λ t. IsSpaced F t.planned_due_monotonic (due_decisions rest s')) kept more)
        | inr (s', d, e, (usable, valid', inr (reached, after, kept, plan))) ↦
            let t = after_sampling failed s' in
            let same : t.planned_due_monotonic ≡ following F s now seconds =
              after_sampling-planned failed s' ∙ ap (λ q. q.planned_due_monotonic) kept in
            let more =
              due_decisions-IsSpaced rest t ordered fits (after_sampling-valid failed s' valid') in
            rw (e, plan)
              (reached, after, subst (λ p. IsSpaced F p (due_decisions rest t)) same more)
      ]
