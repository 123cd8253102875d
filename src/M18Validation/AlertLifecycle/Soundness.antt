-- ===== src/M18Validation/AlertLifecycle/Soundness.antt =====
-- aurora_core/m18_validation/alert_lifecycle.py: the operations of the reference lifecycle, one by one.
use project_aurora.Base.{
  ℕ, ◌+◌, ◌≤◌, ◌≡◌, refl, min, max, true, false, not, ◌&&◌, ◌||◌, Option, none, some, arith, inl,
  inr, Bool-cases, ltb, ◌==◌,
}
use project_aurora.Base.Checked.{ok}
use project_aurora.M18Validation.AlertLifecycle.{
  AlertScope, AlertKind, AlertLifecycle, AlertOperation, AlertState, AlertInput, open_operation,
  acknowledge, recover, archive, escalate, idempotent, rejected, not_persisted,
  max_alert_generation, max_alert_occurrences, max_alert_time, same_scope, same_kind, is_terminal,
  check_input, bounded_deadline, new_alert, update_occurrence, occur, open_again, open_in,
  open_first, acknowledge_in, recover_in, archive_in, is_unavailable, escalate_alert, operate,
  is_open_operation, evaluate_alert_lifecycle,
}
use project_aurora.M18Validation.AlertLifecycle.Outcomes.{
  IsValid, IsValidOption, Sound, Successor, Later, check_state-IsValid, stays, acknowledges,
  recovers, recovers_acknowledged, archives, Edge, unchanged-Sound, changed-Sound, creating-Sound,
}

-- The alert of `_new_alert`.
abbrev opened_alert : AlertScope → AlertKind → ℕ → ℕ → AlertState
opened_alert scope kind now g = record {
  scope = scope;
  kind = kind;
  lifecycle = AlertLifecycle.open_alert;
  generation = g;
  occurrence_count = 1;
  cooldown_until = bounded_deadline now;
  recovered_at = none;
}

-- `_new_alert` builds a valid alert.
new_alert-ok :
    (scope : AlertScope) (kind : AlertKind) (now g : ℕ)
    → 1 ≤ g
    → g ≤ max_alert_generation
    → (new_alert scope kind now g ≡ ok (opened_alert scope kind now g))
      × IsValid (opened_alert scope kind now g)
unfolding new_alert
new_alert-ok scope kind now g low high =
    let v : IsValid (opened_alert scope kind now g) = record {
      generation_positive = low;
      generation_bounded = high;
      occurrences_positive = omega arith;
      occurrences_bounded = omega arith;
      cooldown_bounded = omega arith;
      recovery_bounded = refl;
      recovery_known = refl;
    } in
    (check_state-IsValid _ v, v)

-- The alert of `_update_occurrence`.
abbrev seen_again : AlertState → ℕ → AlertState
seen_again s now = record s {
  occurrence_count = min (s.occurrence_count + 1) max_alert_occurrences;
  cooldown_until = max s.cooldown_until (bounded_deadline now);
}

seen_again-Later : (s : AlertState) (now : ℕ) → IsValid s → Later s (seen_again s now)
seen_again-Later s now v = record {
  valid = record {
    generation_positive = v.generation_positive;
    generation_bounded = v.generation_bounded;
    occurrences_positive = omega (arith, v.occurrences_positive);
    occurrences_bounded = omega arith;
    cooldown_bounded = omega (arith, v.cooldown_bounded);
    recovery_bounded = v.recovery_bounded;
    recovery_known = v.recovery_known;
  };
  scope_kept = refl;
  kind_kept = refl;
  generation_kept = refl;
  cooldown_grows = omega arith;
  edge = stays;
}

update_occurrence-ok :
    (s : AlertState) (now : ℕ) → IsValid s → update_occurrence s now ≡ ok (seen_again s now)
unfolding update_occurrence
update_occurrence-ok s now v =
    check_state-IsValid (seen_again s now) (seen_again-Later s now v).valid

occur-Sound : (s : AlertState) (now : ℕ) → IsValid s → Sound (some s) (occur s now)
unfolding occur
occur-Sound s now v =
    rw (update_occurrence-ok s now v) (changed-Sound (some s) _ _ (seen_again-Later s now v))

-- A successor, in the scope of the alert.
creates-Sound :
    (s : AlertState) (kind : AlertKind) (now : ℕ)
    → IsValid s
    → IsValid (opened_alert s.scope kind now (s.generation + 1))
    → Successor s (opened_alert s.scope kind now (s.generation + 1))
creates-Sound s kind now v w = record {
  valid = w;
  scope_kept = refl;
  next_generation = refl;
  is_open = refl;
}

open_again-Sound :
    (s : AlertState) (r : AlertInput)
    → IsValid s
    → r.scope ≡ s.scope
    → Sound (some s) (open_again s r)
unfolding open_again
open_again-Sound s r v h = elim (Bool-cases (s.generation == max_alert_generation)) [
  | inl full ↦ simp full (unchanged-Sound (some s) rejected v refl)
  | inr room ↦
      let (built, w) =
        new_alert-ok s.scope r.kind r.now (s.generation + 1) (omega arith)
          (ground (arith, v.generation_bounded)) in
      simp (room, h, built) (creating-Sound s _ v (creates-Sound s r.kind r.now v w))
]

open_in-Sound :
    (l : AlertLifecycle) (s : AlertState) (r : AlertInput)
    → IsValid s
    → r.scope ≡ s.scope
    → Sound (some s) (open_in l s r)
unfolding open_in
open_in-Sound AlertLifecycle.open_alert s r v h = occur-Sound s r.now v
open_in-Sound AlertLifecycle.acknowledged s r v h = occur-Sound s r.now v
open_in-Sound AlertLifecycle.recovered s r v h = elim (Bool-cases (ltb r.now s.cooldown_until)) [
  | inl cooling ↦ rw cooling (occur-Sound s r.now v)
  | inr cooled ↦ rw cooled (open_again-Sound s r v h)
]
open_in-Sound AlertLifecycle.archived s r v h = open_again-Sound s r v h

open_first-Sound : (r : AlertInput) → Sound none (open_first r)
unfolding open_first
open_first-Sound r =
    let (built, w) = new_alert-ok r.scope r.kind r.now 1 (omega arith) (omega arith) in
    simp built (changed-Sound none _ _ (w, refl, refl))

-- The alert with another lifecycle that leaves its recovery as it is.
moved-Later :
    (s : AlertState) (l : AlertLifecycle)
    → IsValid s
    → is_terminal s.lifecycle ≡ is_terminal l
    → Edge s.lifecycle l
    → Later s (record s { lifecycle = l })
moved-Later s l v same e = record {
  valid = record {
    generation_positive = v.generation_positive;
    generation_bounded = v.generation_bounded;
    occurrences_positive = v.occurrences_positive;
    occurrences_bounded = v.occurrences_bounded;
    cooldown_bounded = v.cooldown_bounded;
    recovery_bounded = v.recovery_bounded;
    recovery_known = ground (arith, v.recovery_known);
  };
  scope_kept = refl;
  kind_kept = refl;
  generation_kept = refl;
  cooldown_grows = omega arith;
  edge = e;
}

acknowledge_in-Sound :
    (l : AlertLifecycle) (s : AlertState)
    → s.lifecycle ≡ l
    → IsValid s
    → Sound (some s) (acknowledge_in l s)
unfolding acknowledge_in
acknowledge_in-Sound AlertLifecycle.open_alert s h v =
    let w = moved-Later s AlertLifecycle.acknowledged v (rw h refl) (rw h acknowledges) in
    rw (check_state-IsValid _ w.valid) (changed-Sound (some s) _ _ w)
acknowledge_in-Sound AlertLifecycle.acknowledged s h v = unchanged-Sound (some s) idempotent v refl
acknowledge_in-Sound AlertLifecycle.recovered s h v = unchanged-Sound (some s) rejected v refl
acknowledge_in-Sound AlertLifecycle.archived s h v = unchanged-Sound (some s) rejected v refl

recovers_live : (l : AlertLifecycle) → is_terminal l ≡ false → Edge l AlertLifecycle.recovered
recovers_live AlertLifecycle.open_alert h = recovers
recovers_live AlertLifecycle.acknowledged h = recovers_acknowledged
recovers_live AlertLifecycle.recovered h = absurd (cc)
recovers_live AlertLifecycle.archived h = absurd (cc)

-- The alert of `_recover`.
recovered-Later :
    (s : AlertState) (now : ℕ)
    → IsValid s
    → now ≤ max_alert_time
    → is_terminal s.lifecycle ≡ false
    → Later s (record s {
      lifecycle = AlertLifecycle.recovered;
      recovered_at = some now;
      cooldown_until = max s.cooldown_until (bounded_deadline now);
    })
recovered-Later s now v late live = record {
  valid = record {
    generation_positive = v.generation_positive;
    generation_bounded = v.generation_bounded;
    occurrences_positive = v.occurrences_positive;
    occurrences_bounded = v.occurrences_bounded;
    cooldown_bounded = omega (arith, v.cooldown_bounded);
    recovery_bounded = ground arith;
    recovery_known = refl;
  };
  scope_kept = refl;
  kind_kept = refl;
  generation_kept = refl;
  cooldown_grows = omega arith;
  edge = recovers_live s.lifecycle live;
}

recover_in-Sound :
    (s : AlertState) (now : ℕ)
    → IsValid s
    → now ≤ max_alert_time
    → Sound (some s) (recover_in s.lifecycle s now)
unfolding recover_in
recover_in-Sound s now v late = elim (Bool-cases (is_terminal s.lifecycle)) [
  | inl ended ↦ rw ended (unchanged-Sound (some s) idempotent v refl)
  | inr live ↦
      let w = recovered-Later s now v late live in
      rw (live, check_state-IsValid _ w.valid) (changed-Sound (some s) _ _ w)
]

archive_in-Sound :
    (l : AlertLifecycle) (s : AlertState) (now : ℕ)
    → s.lifecycle ≡ l
    → IsValid s
    → Sound (some s) (archive_in l s now)
unfolding archive_in
archive_in-Sound AlertLifecycle.archived s now h v = unchanged-Sound (some s) idempotent v refl
archive_in-Sound AlertLifecycle.open_alert s now h v = unchanged-Sound (some s) rejected v refl
archive_in-Sound AlertLifecycle.acknowledged s now h v = unchanged-Sound (some s) rejected v refl
archive_in-Sound AlertLifecycle.recovered s now h v = elim (Bool-cases (ltb now s.cooldown_until)) [
  | inl cooling ↦ rw cooling (unchanged-Sound (some s) rejected v refl)
  | inr cooled ↦
      let w = moved-Later s AlertLifecycle.archived v (rw h refl) (rw h archives) in
      rw (cooled, check_state-IsValid _ w.valid) (changed-Sound (some s) _ _ w)
]

escalate-Sound : (s : AlertState) (r : AlertInput) → IsValid s → Sound (some s) (escalate_alert s r)
unfolding escalate_alert
escalate-Sound s r v =
    elim (Bool-cases (
      is_terminal s.lifecycle
      || not (is_unavailable r.escalation_kind)
      || not (same_kind s.kind AlertKind.degraded)
      || s.generation == max_alert_generation)) [
        | inl barred ↦ rw barred (unchanged-Sound (some s) rejected v refl)
        | inr free ↦
            let (built, w) =
              new_alert-ok s.scope AlertKind.unavailable r.now (s.generation + 1) (omega arith)
                (ground (arith, v.generation_bounded)) in
            rw (free, built) (creating-Sound s _ v (creates-Sound s _ r.now v w))
      ]

operate-Sound :
    (o : AlertOperation) (s : AlertState) (r : AlertInput)
    → IsValid s
    → r.scope ≡ s.scope
    → r.now ≤ max_alert_time
    → Sound (some s) (operate o s r)
unfolding operate
operate-Sound open_operation s r v h late = open_in-Sound s.lifecycle s r v h
operate-Sound acknowledge s r v h late = acknowledge_in-Sound s.lifecycle s refl v
operate-Sound recover s r v h late = recover_in-Sound s r.now v late
operate-Sound archive s r v h late = archive_in-Sound s.lifecycle s r.now refl v
operate-Sound escalate s r v h late = escalate-Sound s r v

check_input-time : (r : AlertInput) → check_input r ≡ ok r → r.now ≤ max_alert_time
unfolding check_input
check_input-time r h = ground arith

same_scope-eq : (a b : AlertScope) → same_scope a b ≡ true → b ≡ a
same_scope-eq a b h = ground arith

-- On a valid alert, or none, and an input that passes its checks, the reference evaluation raises
-- nothing. The alert that it leaves is valid, has the scope, kind and generation of the given one,
-- a cooldown no shorter, and a lifecycle that follows the diagram, or is a first open alert; an
-- alert that it creates is valid, open, in the same scope and of the next generation. There is an
-- event exactly where the outcome is `applied`, and nothing changes where it is not.
pub evaluate_alert_lifecycle-Sound :
    (s : Option AlertState) (r : AlertInput)
    → IsValidOption s
    → check_input r ≡ ok r
    → Sound s (evaluate_alert_lifecycle s r)
unfolding evaluate_alert_lifecycle
evaluate_alert_lifecycle-Sound none r v h = elim (Bool-cases r.persistence_succeeded) [
  | inr lost ↦ simp lost (unchanged-Sound none not_persisted tt refl)
  | inl kept ↦ elim (Bool-cases (is_open_operation r.operation)) [
    | inl opens ↦ simp (kept, opens) (open_first-Sound r)
    | inr other ↦ simp (kept, other) (unchanged-Sound none rejected tt refl)
  ]
]
evaluate_alert_lifecycle-Sound (some s) r v h = elim (Bool-cases r.persistence_succeeded) [
  | inr lost ↦ simp lost (unchanged-Sound (some s) not_persisted v refl)
  | inl kept ↦ elim (Bool-cases (same_scope s.scope r.scope && same_kind s.kind r.kind)) [
    | inr other ↦ simp (kept, other) (unchanged-Sound (some s) rejected v refl)
    | inl same ↦
        simp (kept, same)
          (operate-Sound r.operation s r v (same_scope-eq s.scope r.scope (ground arith))
            (check_input-time r h))
  ]
]
