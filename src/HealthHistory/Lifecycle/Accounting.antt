-- ===== src/HealthHistory/Lifecycle/Accounting.antt =====
-- aurora_core/health_history/lifecycle.py: the operations, one by one.
use project_aurora.Base.{
  ℕ, ◌+◌, ◌≤◌, ◌≡◌, refl, min, max, true, false, not, ◌&&◌, ◌||◌, Option, none, some, arith, inl,
  inr, Bool-cases, ltb, ◌==◌,
}
use project_aurora.Base.Checked.{ok}
use project_aurora.HealthHistory.Models.{
  max_bounded_counter, max_timestamp_us, AlertScope, AlertKind, AlertLifecycle,
}
use project_aurora.HealthHistory.Lifecycle.{
  AutomaticAlertState, AutomaticAlertInput, AutomaticAlertOperation, open_operation, recover,
  archive, escalate, idempotent, rejected, not_persisted, same_alert, is_terminal, scope_fits_kind,
  check_input, deadline, same_scope, same_kind, new_alert, occurrence_transition, open_again,
  open_in, open_first, is_unavailable, recover_in, archive_in, escalate_alert, operate,
  is_open_operation, evaluate_automatic_alert,
}
use project_aurora.HealthHistory.Lifecycle.Outcomes.{
  IsValid, IsValidOption, Accounted, check_state-IsValid, unchanged-Accounted, changed-Accounted,
  creating-Accounted,
}

-- The alert of `_new_alert`.
abbrev pub opened_alert : AlertScope → AlertKind → ℕ → ℕ → AutomaticAlertState
opened_alert scope kind now g = record {
  scope = scope;
  kind = kind;
  lifecycle = AlertLifecycle.open_alert;
  generation = g;
  occurrence_count = 1;
  cooldown_until_utc_us = deadline now;
  recovered_at_utc_us = none;
}

-- `_new_alert` builds a valid alert.
new_alert-ok :
    (scope : AlertScope) (kind : AlertKind) (now g : ℕ)
    → scope_fits_kind scope kind ≡ true
    → 1 ≤ g
    → g ≤ max_bounded_counter
    → (new_alert scope kind now g ≡ ok (opened_alert scope kind now g))
      × IsValid (opened_alert scope kind now g)
unfolding new_alert
new_alert-ok scope kind now g fits low high =
    let v : IsValid (opened_alert scope kind now g) = record {
      generation_positive = low;
      generation_bounded = high;
      occurrences_positive = omega arith;
      occurrences_bounded = omega arith;
      cooldown_bounded = omega arith;
      recovery_bounded = refl;
      recovery_known = refl;
      kind_fits = fits;
    } in
    (check_state-IsValid _ v, v)

-- The alert of `_occurrence_transition`.
abbrev pub seen_again : AutomaticAlertState → ℕ → AutomaticAlertState
seen_again s now = record s {
  occurrence_count = min (s.occurrence_count + 1) max_bounded_counter;
  cooldown_until_utc_us = max s.cooldown_until_utc_us (deadline now);
}

seen_again-IsValid : (s : AutomaticAlertState) (now : ℕ) → IsValid s → IsValid (seen_again s now)
seen_again-IsValid s now v = record {
  generation_positive = v.generation_positive;
  generation_bounded = v.generation_bounded;
  occurrences_positive = omega (arith, v.occurrences_positive);
  occurrences_bounded = omega arith;
  cooldown_bounded = omega (arith, v.cooldown_bounded);
  recovery_bounded = v.recovery_bounded;
  recovery_known = v.recovery_known;
  kind_fits = v.kind_fits;
}

occurrence-Accounted :
    (s : AutomaticAlertState) (now : ℕ)
    → IsValid s
    → Accounted (some s) (occurrence_transition s now)
unfolding occurrence_transition
occurrence-Accounted s now v =
    let w = seen_again-IsValid s now v in
    rw (check_state-IsValid (seen_again s now) w)
      (elim (Bool-cases (same_alert (seen_again s now) s)) [
        | inl e ↦ rw e (unchanged-Accounted (some s) idempotent v refl)
        | inr e ↦ rw e (changed-Accounted (some s) (seen_again s now) _ w e)
      ])

open_again-Accounted :
    (s : AutomaticAlertState) (r : AutomaticAlertInput)
    → IsValid s
    → scope_fits_kind r.scope r.kind ≡ true
    → Accounted (some s) (open_again s r)
unfolding open_again
open_again-Accounted s r v fits = elim (Bool-cases (s.generation == max_bounded_counter)) [
  | inl full ↦ simp full (unchanged-Accounted (some s) rejected v refl)
  | inr room ↦
      let (built, w) =
        new_alert-ok r.scope r.kind r.now_utc_us (s.generation + 1) fits (omega arith)
          (ground (arith, v.generation_bounded)) in
      simp (room, built) (creating-Accounted s _ v w)
]

open_in-Accounted :
    (l : AlertLifecycle) (s : AutomaticAlertState) (r : AutomaticAlertInput)
    → IsValid s
    → scope_fits_kind r.scope r.kind ≡ true
    → Accounted (some s) (open_in l s r)
unfolding open_in
open_in-Accounted AlertLifecycle.open_alert s r v fits = occurrence-Accounted s r.now_utc_us v
open_in-Accounted AlertLifecycle.acknowledged s r v fits = occurrence-Accounted s r.now_utc_us v
open_in-Accounted AlertLifecycle.recovered s r v fits =
    elim (Bool-cases (ltb r.now_utc_us s.cooldown_until_utc_us)) [
      | inl cooling ↦ rw cooling (occurrence-Accounted s r.now_utc_us v)
      | inr cooled ↦ rw cooled (open_again-Accounted s r v fits)
    ]
open_in-Accounted AlertLifecycle.archived s r v fits = open_again-Accounted s r v fits

open_first-Accounted :
    (r : AutomaticAlertInput)
    → scope_fits_kind r.scope r.kind ≡ true
    → Accounted none (open_first r)
unfolding open_first
open_first-Accounted r fits =
    let (built, w) = new_alert-ok r.scope r.kind r.now_utc_us 1 fits (omega arith) (omega arith) in
    simp built (changed-Accounted none _ _ w refl)

-- The alert of `_recover`.
abbrev pub recovered_alert : AutomaticAlertState → ℕ → AutomaticAlertState
recovered_alert s now = record s {
  lifecycle = AlertLifecycle.recovered;
  recovered_at_utc_us = some now;
  cooldown_until_utc_us = max s.cooldown_until_utc_us (deadline now);
}

recovered_differs :
    (s : AutomaticAlertState) (now : ℕ)
    → is_terminal s.lifecycle ≡ false
    → same_alert (recovered_alert s now) s ≡ false
unfolding same_alert
recovered_differs s now live = ground arith

recover_in-Accounted :
    (l : AlertLifecycle) (s : AutomaticAlertState) (now : ℕ)
    → s.lifecycle ≡ l
    → now ≤ max_timestamp_us
    → IsValid s
    → Accounted (some s) (recover_in l s now)
unfolding recover_in
recover_in-Accounted l s now h late v = elim (Bool-cases (is_terminal l)) [
  | inl ended ↦ rw ended (unchanged-Accounted (some s) idempotent v refl)
  | inr live ↦
      let w : IsValid (recovered_alert s now) = record {
        generation_positive = v.generation_positive;
        generation_bounded = v.generation_bounded;
        occurrences_positive = v.occurrences_positive;
        occurrences_bounded = v.occurrences_bounded;
        cooldown_bounded = omega (arith, v.cooldown_bounded);
        recovery_bounded = ground arith;
        recovery_known = refl;
        kind_fits = v.kind_fits;
      } in
      rw (live, check_state-IsValid _ w)
        (changed-Accounted (some s) _ _ w (recovered_differs s now (rw h live)))
]

archived_differs :
    (s : AutomaticAlertState)
    → s.lifecycle ≡ AlertLifecycle.recovered
    → same_alert (record s { lifecycle = AlertLifecycle.archived }) s ≡ false
unfolding same_alert
archived_differs s h = ground arith

archive_in-Accounted :
    (l : AlertLifecycle) (s : AutomaticAlertState) (now : ℕ)
    → s.lifecycle ≡ l
    → IsValid s
    → Accounted (some s) (archive_in l s now)
unfolding archive_in
archive_in-Accounted AlertLifecycle.archived s now h v =
    unchanged-Accounted (some s) idempotent v refl
archive_in-Accounted AlertLifecycle.open_alert s now h v =
    unchanged-Accounted (some s) rejected v refl
archive_in-Accounted AlertLifecycle.acknowledged s now h v =
    unchanged-Accounted (some s) rejected v refl
archive_in-Accounted AlertLifecycle.recovered s now h v =
    elim (Bool-cases (ltb now s.cooldown_until_utc_us)) [
      | inl cooling ↦ rw cooling (unchanged-Accounted (some s) rejected v refl)
      | inr cooled ↦
          let w : IsValid (record s { lifecycle = AlertLifecycle.archived }) = record {
            generation_positive = v.generation_positive;
            generation_bounded = v.generation_bounded;
            occurrences_positive = v.occurrences_positive;
            occurrences_bounded = v.occurrences_bounded;
            cooldown_bounded = v.cooldown_bounded;
            recovery_bounded = v.recovery_bounded;
            recovery_known = ground (arith, v.recovery_known);
            kind_fits = v.kind_fits;
          } in
          rw (cooled, check_state-IsValid _ w)
            (changed-Accounted (some s) _ _ w (archived_differs s h))
    ]

escalate-Accounted :
    (s : AutomaticAlertState) (r : AutomaticAlertInput)
    → IsValid s
    → Accounted (some s) (escalate_alert s r)
unfolding escalate_alert
escalate-Accounted s r v =
    elim (Bool-cases (
      is_terminal s.lifecycle
      || not (same_kind s.kind AlertKind.degraded)
      || not (is_unavailable r.escalation_kind)
      || s.generation == max_bounded_counter)) [
        | inl barred ↦ rw barred (unchanged-Accounted (some s) rejected v refl)
        | inr free ↦
            let (built, w) =
              new_alert-ok s.scope AlertKind.unavailable r.now_utc_us (s.generation + 1)
                (ground (arith, v.kind_fits)) (omega arith)
                (ground (arith, v.generation_bounded)) in
            rw (free, built) (creating-Accounted s _ v w)
      ]

operate-Accounted :
    (o : AutomaticAlertOperation) (s : AutomaticAlertState) (r : AutomaticAlertInput)
    → IsValid s
    → scope_fits_kind r.scope r.kind ≡ true
    → r.now_utc_us ≤ max_timestamp_us
    → Accounted (some s) (operate o s r)
unfolding operate
operate-Accounted open_operation s r v fits late = open_in-Accounted s.lifecycle s r v fits
operate-Accounted recover s r v fits late =
    recover_in-Accounted s.lifecycle s r.now_utc_us refl late v
operate-Accounted archive s r v fits late = archive_in-Accounted s.lifecycle s r.now_utc_us refl v
operate-Accounted escalate s r v fits late = escalate-Accounted s r v

check_input-fits :
    (r : AutomaticAlertInput)
    → check_input r ≡ ok r
    → (scope_fits_kind r.scope r.kind ≡ true) × (r.now_utc_us ≤ max_timestamp_us)
unfolding check_input
check_input-fits r h = ground arith

-- On a valid alert, or none, and an input that passes its checks, the evaluation raises nothing.
-- What it leaves and what it creates are valid alerts; it reports `applied`, with an event,
-- exactly when it changes the alert or creates one.
pub evaluate_automatic_alert-Accounted :
    (s : Option AutomaticAlertState) (r : AutomaticAlertInput)
    → IsValidOption s
    → check_input r ≡ ok r
    → Accounted s (evaluate_automatic_alert s r)
unfolding evaluate_automatic_alert
evaluate_automatic_alert-Accounted none r v h = elim (Bool-cases r.persistence_succeeded) [
  | inr lost ↦ simp lost (unchanged-Accounted none not_persisted tt refl)
  | inl kept ↦ elim (Bool-cases (is_open_operation r.operation)) [
    | inl opens ↦ simp (kept, opens) (open_first-Accounted r (check_input-fits r h).0)
    | inr other ↦ simp (kept, other) (unchanged-Accounted none rejected tt refl)
  ]
]
evaluate_automatic_alert-Accounted (some s) r v h = elim (Bool-cases r.persistence_succeeded) [
  | inr lost ↦ simp lost (unchanged-Accounted (some s) not_persisted v refl)
  | inl kept ↦ elim (Bool-cases (same_scope s.scope r.scope && same_kind s.kind r.kind)) [
    | inr other ↦ simp (kept, other) (unchanged-Accounted (some s) rejected v refl)
    | inl same ↦
        let (fits, late) = check_input-fits r h in
        simp (kept, same) (operate-Accounted r.operation s r v fits late)
  ]
]
