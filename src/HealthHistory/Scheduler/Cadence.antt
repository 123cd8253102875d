-- ===== src/HealthHistory/Scheduler/Cadence.antt =====
-- aurora_core/health_history/scheduler.py: one sampling opportunity, with whatever rounding.
use project_aurora.Base.{
  ℕ, ◌+◌, ◌*◌, ◌≡◌, refl, ◌⊎◌, inl, inr, true, false, min, leb, arith, Bool-cases,
}
use project_aurora.HealthHistory.Models.{max_bounded_counter}
use project_aurora.HealthHistory.Scheduler.{
  Floats, AreOrdered, SchedulerDueDecision, SchedulerCadenceState, invalid_clock,
  is_valid_monotonic, is_valid_interval, is_valid_state, elapsed_intervals, next_due, due_decision,
  decision, decision_fits, after_check, Checked, cumulative_missed, take_opportunity,
}

valid-finite : (F : Floats) (a : F.Float) → is_valid_monotonic F a ≡ true → F.is_finite a ≡ true
unfolding is_valid_monotonic
valid-finite F a h = ground arith

module _ (F : Floats) (s : SchedulerCadenceState F) (now : F.Float) (seconds : ℕ) where
  -- The whole intervals since the planned time, and the time that follows them, as floats give them.
  abbrev pub late_by : ℕ
  late_by = F.floor (F.div (F.sub now s.planned_due_monotonic) (F.of_int seconds))

  abbrev pub following : F.Float
  following = F.add s.planned_due_monotonic (F.of_int ((late_by + 1) * seconds))

  -- Why a reading of the clock is refused: it is no valid reading, or earlier than the last one, or
  -- the planned time is reached and the time that follows is not valid or not after the reading.
  abbrev pub IsUnusable : Type 0
  IsUnusable =
      (is_valid_monotonic F now ≡ false)
      ⊎ (F.float_lt now s.last_seen_monotonic ≡ true)
      ⊎ ((F.float_lt now s.planned_due_monotonic ≡ false)
          × ((is_valid_monotonic F following ≡ false) ⊎ (F.float_le following now ≡ true)))

  abbrev pub IsUsable : Type 0
  IsUsable = (is_valid_monotonic F now ≡ true) × (F.float_lt now s.last_seen_monotonic ≡ false)

  -- The planned time is not reached: it stays, and nothing is missed.
  abbrev pub IsEarly : SchedulerCadenceState F → SchedulerDueDecision F → Type 0
  IsEarly s' d =
      (F.float_lt now s.planned_due_monotonic ≡ true)
      × (s' ≡ record s { last_seen_monotonic = now })
      × (d ≡ record {
        due = false;
        missed_intervals = 0;
        checked_monotonic = now;
        next_due_monotonic = s.planned_due_monotonic;
      })

  -- The planned time is reached: the time that follows is after the reading and is planned next,
  -- and the missed intervals are added up, within the bound of the counter.
  abbrev pub IsDue : SchedulerCadenceState F → SchedulerDueDecision F → Type 0
  IsDue s' d =
      (F.float_lt now s.planned_due_monotonic ≡ false)
      × (F.float_lt now following ≡ true)
      × (s' ≡ record {
        planned_due_monotonic = following;
        last_seen_monotonic = now;
        pending_missed_intervals =
            min (s.pending_missed_intervals + min late_by max_bounded_counter) max_bounded_counter;
      })
      × (d ≡ record {
        due = true;
        missed_intervals = min late_by max_bounded_counter;
        checked_monotonic = now;
        next_due_monotonic = following;
      })

  abbrev pub IsTaken : SchedulerCadenceState F → SchedulerDueDecision F → Type 0
  IsTaken s' d = IsUsable × (is_valid_state F s' ≡ true) × (IsEarly s' d ⊎ IsDue s' d)

  abbrev pub IsAnswered : Checked F → Type 0
  IsAnswered r =
      (IsUnusable × (r ≡ inr invalid_clock))
      ⊎ ((s' : SchedulerCadenceState F) × (d : SchedulerDueDecision F) × (r ≡ inl (s', d))
          × IsTaken s' d)

  early :
      AreOrdered F
      → is_valid_state F s ≡ true
      → IsUsable
      → F.float_lt now s.planned_due_monotonic ≡ true
      → is_valid_interval seconds ≡ true
      → IsAnswered (take_opportunity F s now seconds)
  unfolding take_opportunity decision after_check decision_fits cumulative_missed is_valid_state
  early ordered valid (good, onward) before fits =
      let planned : is_valid_monotonic F s.planned_due_monotonic ≡ true = ground arith in
      let few : leb s.pending_missed_intervals 65535 ≡ true = ground arith in
      let later : F.float_le s.planned_due_monotonic now ≡ false =
        let c =
          ordered.compare now s.planned_due_monotonic (valid-finite F now good)
            (valid-finite F _ planned) in
        ground (arith, c) in
      let alike = ordered.same s.planned_due_monotonic (valid-finite F _ planned) in
      inr (
        record s { last_seen_monotonic = now },
        record {
          due = false;
          missed_intervals = 0;
          checked_monotonic = now;
          next_due_monotonic = s.planned_due_monotonic;
        },
        simp (fits, good, onward, before, later, alike, few) refl,
        ((good, onward), simp (planned, good, few) refl, inl (before, refl, refl)),
      )

  late :
      AreOrdered F
      → IsUsable
      → F.float_lt now s.planned_due_monotonic ≡ false
      → is_valid_interval seconds ≡ true
      → IsAnswered (take_opportunity F s now seconds)
  unfolding take_opportunity decision due_decision after_check decision_fits cumulative_missed
      is_valid_state elapsed_intervals next_due
  late ordered (good, onward) reached fits = elim (Bool-cases (is_valid_monotonic F following)) [
    | inr wild ↦ inl (inr (inr (reached, inl wild)), simp (fits, good, onward, reached, wild) refl)
    | inl tame ↦ elim (Bool-cases (F.float_le following now)) [
      | inl behind ↦
          inl
            (inr (inr (reached, inr behind)), simp (fits, good, onward, reached, tame, behind) refl)
      | inr ahead ↦
          let after : F.float_lt now following ≡ true =
            let c =
              ordered.compare now following (valid-finite F now good) (valid-finite F _ tame) in
            ground (arith, c) in
          let total =
            min (s.pending_missed_intervals + min late_by max_bounded_counter)
              max_bounded_counter in
          let few : leb total 65535 ≡ true = ground arith in
          inr (
            record {
              planned_due_monotonic = following;
              last_seen_monotonic = now;
              pending_missed_intervals = total;
            },
            record {
              due = true;
              missed_intervals = min late_by max_bounded_counter;
              checked_monotonic = now;
              next_due_monotonic = following;
            },
            simp (fits, good, onward, reached, tame, ahead, few) refl,
            ((good, onward), simp (tame, good, few) refl, inr (reached, after, refl, refl)),
          )
    ]
  ]

  -- In a valid state, with an interval of 5 to 300 seconds: an opportunity raises, and then an
  -- INVALID_CLOCK, exactly if the reading is not valid, or earlier than the last one, or reaches the
  -- planned time where the time that follows is, as rounded, not valid or not after the reading.
  -- Else, if the planned time is not reached, it is not due and only the reading is noted; if it
  -- is reached, it is due, each whole interval since the planned time is missed, up to the bound
  -- of the counter, and the time that follows, which is after the reading, is planned. The new
  -- state is valid.
  pub take_opportunity-IsAnswered :
      AreOrdered F
      → is_valid_state F s ≡ true
      → is_valid_interval seconds ≡ true
      → IsAnswered (take_opportunity F s now seconds)
  unfolding take_opportunity decision
  take_opportunity-IsAnswered ordered valid fits = elim (Bool-cases (is_valid_monotonic F now)) [
    | inr wild ↦ inl (inl wild, simp (fits, wild) refl)
    | inl good ↦ elim (Bool-cases (F.float_lt now s.last_seen_monotonic)) [
      | inl back ↦ inl (inr (inl back), simp (fits, good, back) refl)
      | inr onward ↦ elim (Bool-cases (F.float_lt now s.planned_due_monotonic)) [
        | inl before ↦ early ordered valid (good, onward) before fits
        | inr reached ↦ late ordered (good, onward) reached fits
      ]
    ]
  ]
