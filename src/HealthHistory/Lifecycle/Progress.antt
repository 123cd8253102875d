-- ===== src/HealthHistory/Lifecycle/Progress.antt =====
-- aurora_core/health_history/lifecycle.py: the lifecycle diagram, and successors of an alert.
use project_aurora.Base.{
  ℕ, ◌+◌, ◌≤◌, ◌≡◌, refl, true, false, not, ◌&&◌, ◌||◌, Option, none, some, String, ◌≢◌, arith, inl,
  inr, ◌⊎◌, Bool-cases, ltb, ◌==◌,
}
use project_aurora.Base.Checked.{Checked, ok, value_error, ◌>>=◌, require-Passes}
use project_aurora.HealthHistory.Lifecycle.Accounting.{opened_alert, seen_again, recovered_alert}
use project_aurora.HealthHistory.Models.{max_bounded_counter, AlertScope, AlertKind, AlertLifecycle}
use project_aurora.HealthHistory.Lifecycle.{
  AutomaticAlertState, AutomaticAlertInput, AutomaticAlertTransition, AutomaticAlertOutcome,
  AutomaticAlertOperation, open_operation, recover, archive, escalate, idempotent, rejected,
  not_persisted, same_alert, is_terminal, check_state, same_scope, same_kind, unchanged, creating,
  new_alert, occurrence_transition, open_again, open_in, is_unavailable, recover_in, archive_in,
  escalate_alert, operate, evaluate_automatic_alert,
}

-- The diagram of the automatic operations. Nothing leaves `archived`.
pub data Edge : AlertLifecycle → AlertLifecycle → Type 0 where
  stays : {l : AlertLifecycle} → Edge l l
  recovers : Edge AlertLifecycle.open_alert AlertLifecycle.recovered
  recovers_acknowledged : Edge AlertLifecycle.acknowledged AlertLifecycle.recovered
  archives : Edge AlertLifecycle.recovered AlertLifecycle.archived

-- The same alert, later.
pub record Later (s s' : AutomaticAlertState) : Type 0 where
  pub scope_kept : s'.scope ≡ s.scope
  pub kind_kept : s'.kind ≡ s.kind
  pub generation_kept : s'.generation ≡ s.generation
  pub cooldown_grows : s.cooldown_until_utc_us ≤ s'.cooldown_until_utc_us
  pub edge : Edge s.lifecycle s'.lifecycle

-- A new alert of the next generation.
pub record Successor (s c : AutomaticAlertState) : Type 0 where
  pub scope_kept : c.scope ≡ s.scope
  pub next_generation : c.generation ≡ s.generation + 1
  pub below_limit : s.generation ≢ max_bounded_counter
  pub is_open : c.lifecycle ≡ AlertLifecycle.open_alert

abbrev pub IsLater : AutomaticAlertState → Option AutomaticAlertState → Type 0
IsLater s none = ⊥
IsLater s (some s') = Later s s'

abbrev pub IsSuccessor : AutomaticAlertState → Option AutomaticAlertState → Type 0
IsSuccessor s none = Unit
IsSuccessor s (some c) = Successor s c

abbrev pub Follows : AutomaticAlertState → Checked AutomaticAlertTransition → Type 0
Follows s (value_error e) = Unit
Follows s (ok t) = IsLater s t.state × IsSuccessor s t.created_alert

check_state_cases :
    (x : AutomaticAlertState)
    → (check_state x ≡ ok x) ⊎ ((m : String) × (check_state x ≡ value_error m))
unfolding check_state
check_state_cases x = require-Passes x _

check_state-Follows :
    (s x : AutomaticAlertState) (k : AutomaticAlertState → Checked AutomaticAlertTransition)
    → Follows s (k x)
    → Follows s (check_state x >>= k)
check_state-Follows s x k h = elim (check_state_cases x) [ inl e ↦ rw e h | inr (m, e) ↦ rw e tt ]

Later-refl : (s : AutomaticAlertState) → Later s s
Later-refl s = record {
  scope_kept = refl;
  kind_kept = refl;
  generation_kept = refl;
  cooldown_grows = omega arith;
  edge = stays;
}

unchanged-Follows :
    (s : AutomaticAlertState) (o : AutomaticAlertOutcome) → Follows s (unchanged (some s) o)
unchanged-Follows s o = (Later-refl s, tt)

occurrence-Follows : (s : AutomaticAlertState) (now : ℕ) → Follows s (occurrence_transition s now)
unfolding occurrence_transition
occurrence-Follows s now =
    check_state-Follows s (seen_again s now) _
      (elim (Bool-cases (same_alert (seen_again s now) s)) [
        | inl e ↦ rw e (unchanged-Follows s idempotent)
        | inr e ↦ rw e (
          record {
            scope_kept = refl;
            kind_kept = refl;
            generation_kept = refl;
            cooldown_grows = omega arith;
            edge = stays;
          },
          tt,
        )
      ])

new_alert-Follows :
    (s : AutomaticAlertState) (kind : AlertKind) (now : ℕ)
    → s.generation ≢ max_bounded_counter
    → Follows s (new_alert s.scope kind now (s.generation + 1) >>= creating s)
unfolding new_alert
new_alert-Follows s kind now room =
    check_state-Follows s (opened_alert s.scope kind now (s.generation + 1)) (creating s) (
      Later-refl s,
      record { scope_kept = refl; next_generation = refl; below_limit = room; is_open = refl },
    )

-- The scope of the request is the alert's.
open_again-Follows :
    (s : AutomaticAlertState) (r : AutomaticAlertInput)
    → r.scope ≡ s.scope
    → Follows s (open_again s r)
unfolding open_again
open_again-Follows s r h = elim (Bool-cases (s.generation == max_bounded_counter)) [
  | inl full ↦ simp full (unchanged-Follows s rejected)
  | inr room ↦ simp (room, h) (new_alert-Follows s r.kind r.now_utc_us (λ e. ground arith))
]

open_in-Follows :
    (l : AlertLifecycle) (s : AutomaticAlertState) (r : AutomaticAlertInput)
    → r.scope ≡ s.scope
    → Follows s (open_in l s r)
unfolding open_in
open_in-Follows AlertLifecycle.open_alert s r h = occurrence-Follows s r.now_utc_us
open_in-Follows AlertLifecycle.acknowledged s r h = occurrence-Follows s r.now_utc_us
open_in-Follows AlertLifecycle.archived s r h = open_again-Follows s r h
open_in-Follows AlertLifecycle.recovered s r h =
    elim (Bool-cases (ltb r.now_utc_us s.cooldown_until_utc_us)) [
      | inl cooling ↦ rw cooling (occurrence-Follows s r.now_utc_us)
      | inr cooled ↦ rw cooled (open_again-Follows s r h)
    ]

recovers_live : (l : AlertLifecycle) → is_terminal l ≡ false → Edge l AlertLifecycle.recovered
recovers_live AlertLifecycle.open_alert h = recovers
recovers_live AlertLifecycle.acknowledged h = recovers_acknowledged
recovers_live AlertLifecycle.recovered h = absurd (cc)
recovers_live AlertLifecycle.archived h = absurd (cc)

recover_in-Follows : (s : AutomaticAlertState) (now : ℕ) → Follows s (recover_in s.lifecycle s now)
unfolding recover_in
recover_in-Follows s now = elim (Bool-cases (is_terminal s.lifecycle)) [
  | inl ended ↦ rw ended (unchanged-Follows s idempotent)
  | inr live ↦ rw live (
      check_state-Follows s (recovered_alert s now) _ (
        record {
          scope_kept = refl;
          kind_kept = refl;
          generation_kept = refl;
          cooldown_grows = omega arith;
          edge = recovers_live s.lifecycle live;
        },
        tt,
      ))
]

archive_in-Follows :
    (l : AlertLifecycle) (s : AutomaticAlertState) (now : ℕ)
    → s.lifecycle ≡ l
    → Follows s (archive_in l s now)
unfolding archive_in
archive_in-Follows AlertLifecycle.archived s now h = unchanged-Follows s idempotent
archive_in-Follows AlertLifecycle.open_alert s now h = unchanged-Follows s rejected
archive_in-Follows AlertLifecycle.acknowledged s now h = unchanged-Follows s rejected
archive_in-Follows AlertLifecycle.recovered s now h =
    elim (Bool-cases (ltb now s.cooldown_until_utc_us)) [
      | inl cooling ↦ rw cooling (unchanged-Follows s rejected)
      | inr cooled ↦ rw cooled (
          check_state-Follows s (record s { lifecycle = AlertLifecycle.archived }) _
            (
              record {
                scope_kept = refl;
                kind_kept = refl;
                generation_kept = refl;
                cooldown_grows = omega arith;
                edge = rw h archives;
              },
              tt,
            ))
    ]

escalate-Follows :
    (s : AutomaticAlertState) (r : AutomaticAlertInput) → Follows s (escalate_alert s r)
unfolding escalate_alert
escalate-Follows s r =
    elim (Bool-cases (
      is_terminal s.lifecycle
      || not (same_kind s.kind AlertKind.degraded)
      || not (is_unavailable r.escalation_kind)
      || s.generation == max_bounded_counter)) [
        | inl barred ↦ rw barred (unchanged-Follows s rejected)
        | inr free ↦
            rw free (new_alert-Follows s AlertKind.unavailable r.now_utc_us (λ e. ground arith))
      ]

operate-Follows :
    (o : AutomaticAlertOperation) (s : AutomaticAlertState) (r : AutomaticAlertInput)
    → r.scope ≡ s.scope
    → Follows s (operate o s r)
unfolding operate
operate-Follows open_operation s r h = open_in-Follows s.lifecycle s r h
operate-Follows recover s r h = recover_in-Follows s r.now_utc_us
operate-Follows archive s r h = archive_in-Follows s.lifecycle s r.now_utc_us refl
operate-Follows escalate s r h = escalate-Follows s r

same_scope-eq : (a b : AlertScope) → same_scope a b ≡ true → b ≡ a
same_scope-eq a b h = ground arith

-- Whatever the request, where the evaluation of an alert returns, the alert that it leaves has the
-- same scope, kind and generation, its cooldown never shrinks, and its lifecycle follows the
-- diagram; an alert that it creates is open, in the same scope and of the next generation, and is
-- created only below the generation limit.
pub evaluate_automatic_alert-Follows :
    (s : AutomaticAlertState) (r : AutomaticAlertInput)
    → Follows s (evaluate_automatic_alert (some s) r)
unfolding evaluate_automatic_alert
evaluate_automatic_alert-Follows s r = elim (Bool-cases r.persistence_succeeded) [
  | inr lost ↦ simp lost (unchanged-Follows s not_persisted)
  | inl kept ↦ elim (Bool-cases (same_scope s.scope r.scope && same_kind s.kind r.kind)) [
    | inr other ↦ simp (kept, other) (unchanged-Follows s rejected)
    | inl same ↦
        simp (kept, same)
          (operate-Follows r.operation s r (same_scope-eq s.scope r.scope (ground arith)))
  ]
]
