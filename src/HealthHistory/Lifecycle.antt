-- ===== src/HealthHistory/Lifecycle.antt =====
-- aurora_core/health_history/lifecycle.py: the automatic alert lifecycle that ingestion drives.
-- Each construction goes through the checks of `__post_init__`.
pub mod Outcomes
pub mod Accounting
pub mod Progress
use project_aurora.Base.{
  ℕ, ◌+◌, min, max, Bool, true, false, not, ◌&&◌, ◌||◌, Option, none, some, if◌then◌else◌, ltb, leb,
  ◌==◌, is_some, [], ◌∷◌,
}
use project_aurora.Base.Checked.{Checked, ok, value_error, ◌>>=◌, ◌>>◌, raise_if, require}
use project_aurora.HealthHistory.Models.{
  max_bounded_counter, max_timestamp_us, AlertScope, AlertKind, AlertLifecycle, LifecycleEvent,
}

abbrev pub alert_cooldown_us : ℕ
alert_cooldown_us = 900000000  -- 15 * 60 * 1_000_000

pub data AutomaticAlertOperation : Type 0 where
  open_operation recover archive escalate : AutomaticAlertOperation

pub data AutomaticAlertOutcome : Type 0 where
  applied idempotent rejected not_persisted : AutomaticAlertOutcome

pub record AutomaticAlertState : Type 0 where
  pub scope : AlertScope
  pub kind : AlertKind
  pub lifecycle : AlertLifecycle
  pub generation : ℕ
  pub occurrence_count : ℕ
  pub cooldown_until_utc_us : ℕ
  pub recovered_at_utc_us : Option ℕ

pub record AutomaticAlertInput : Type 0 where
  pub operation : AutomaticAlertOperation
  pub scope : AlertScope
  pub kind : AlertKind
  pub now_utc_us : ℕ
  pub persistence_succeeded : Bool
  pub escalation_kind : Option AlertKind

pub record AutomaticAlertTransition : Type 0 where
  pub previous : Option AutomaticAlertState
  pub state : Option AutomaticAlertState
  pub created_alert : Option AutomaticAlertState
  pub event : Option LifecycleEvent
  pub outcome : AutomaticAlertOutcome

-- Equality of enum members, by position.
abbrev scope_number : AlertScope → ℕ
scope_number AlertScope.overall = 0
scope_number AlertScope.wled = 1
scope_number AlertScope.hyperhdr = 2
scope_number AlertScope.capture = 3
scope_number AlertScope.raspberry_pi = 4
scope_number AlertScope.sampling = 5

abbrev kind_number : AlertKind → ℕ
kind_number AlertKind.degraded = 0
kind_number AlertKind.unavailable = 1
kind_number AlertKind.sampling_gap = 2

abbrev lifecycle_number : AlertLifecycle → ℕ
lifecycle_number AlertLifecycle.open_alert = 0
lifecycle_number AlertLifecycle.acknowledged = 1
lifecycle_number AlertLifecycle.recovered = 2
lifecycle_number AlertLifecycle.archived = 3

abbrev pub same_scope : AlertScope → AlertScope → Bool
same_scope a b = scope_number a == scope_number b

abbrev pub same_kind : AlertKind → AlertKind → Bool
same_kind a b = kind_number a == kind_number b

abbrev pub same_lifecycle : AlertLifecycle → AlertLifecycle → Bool
same_lifecycle a b = lifecycle_number a == lifecycle_number b

abbrev pub same_time : Option ℕ → Option ℕ → Bool
same_time none none = true
same_time (some a) (some b) = a == b
same_time _ _ = false

abbrev pub same_bool : Bool → Bool → Bool
same_bool true b = b
same_bool false b = not b

-- The dataclass's `==`.
unfoldable pub same_alert : AutomaticAlertState → AutomaticAlertState → Bool
same_alert a b =
    same_scope a.scope b.scope
    && same_kind a.kind b.kind
    && same_lifecycle a.lifecycle b.lifecycle
    && a.generation == b.generation
    && a.occurrence_count == b.occurrence_count
    && a.cooldown_until_utc_us == b.cooldown_until_utc_us
    && same_time a.recovered_at_utc_us b.recovered_at_utc_us

abbrev pub same_optional_alert : Option AutomaticAlertState → Option AutomaticAlertState → Bool
same_optional_alert none none = true
same_optional_alert (some a) (some b) = same_alert a b
same_optional_alert _ _ = false

-- `AutomaticAlertTransition.mutated`
unfoldable pub mutated : AutomaticAlertTransition → Bool
mutated t = not (same_optional_alert t.state t.previous) || is_some t.created_alert

abbrev pub is_terminal : AlertLifecycle → Bool
is_terminal AlertLifecycle.recovered = true
is_terminal AlertLifecycle.archived = true
is_terminal _ = false

abbrev pub time_in_range : Option ℕ → Bool
time_in_range none = true
time_in_range (some n) = leb n max_timestamp_us

abbrev pub scope_fits_kind : AlertScope → AlertKind → Bool
scope_fits_kind s k =
    same_bool (same_scope s AlertScope.sampling) (same_kind k AlertKind.sampling_gap)

-- `AutomaticAlertState.__post_init__`
unfoldable pub check_state : AutomaticAlertState → Checked AutomaticAlertState
check_state s = require s (
    (not (leb 1 s.generation && leb s.generation max_bounded_counter), "invalid_alert_generation")
    ∷ (
      not (leb 1 s.occurrence_count && leb s.occurrence_count max_bounded_counter),
      "invalid_alert_occurrences",
    )
    ∷ (not (leb s.cooldown_until_utc_us max_timestamp_us), "invalid_alert_cooldown")
    ∷ (not (time_in_range s.recovered_at_utc_us), "invalid_alert_recovery_time")
    ∷ (
      not (same_bool (is_terminal s.lifecycle) (is_some s.recovered_at_utc_us)),
      "inconsistent_alert_recovery",
    )
    ∷ (not (scope_fits_kind s.scope s.kind), "inconsistent_alert_scope_kind")
    ∷ [])

abbrev pub is_unavailable : Option AlertKind → Bool
is_unavailable (some AlertKind.unavailable) = true
is_unavailable _ = false

abbrev pub escalation_fits : AutomaticAlertOperation → Option AlertKind → Checked (Unit {0})
escalation_fits escalate k = raise_if (not (is_unavailable k)) "invalid_escalation_kind"
escalation_fits _ k = raise_if (is_some k) "unexpected_escalation_kind"

-- `AutomaticAlertInput.__post_init__`
unfoldable pub check_input : AutomaticAlertInput → Checked AutomaticAlertInput
check_input r = do
  raise_if (not (scope_fits_kind r.scope r.kind)) "inconsistent_alert_scope_kind"
  raise_if (not (leb r.now_utc_us max_timestamp_us)) "invalid_alert_time"
  escalation_fits r.operation r.escalation_kind
  ok r

-- `_deadline`
abbrev pub deadline : ℕ → ℕ
deadline now_utc_us = min (now_utc_us + alert_cooldown_us) max_timestamp_us

abbrev unchanged :
    Option AutomaticAlertState → AutomaticAlertOutcome → Checked AutomaticAlertTransition
unchanged s outcome =
    ok (record { previous = s; state = s; created_alert = none; event = none; outcome = outcome })

abbrev pub changed :
    Option AutomaticAlertState
    → AutomaticAlertState
    → LifecycleEvent
    → Checked AutomaticAlertTransition
changed s next event = ok (record {
  previous = s;
  state = some next;
  created_alert = none;
  event = some event;
  outcome = applied;
})

abbrev pub creating : AutomaticAlertState → AutomaticAlertState → Checked AutomaticAlertTransition
creating s created = ok (record {
  previous = some s;
  state = some s;
  created_alert = some created;
  event = some LifecycleEvent.opened;
  outcome = applied;
})

-- `_new_alert`
unfoldable pub new_alert : AlertScope → AlertKind → ℕ → ℕ → Checked AutomaticAlertState
new_alert scope kind now_utc_us generation = check_state (record {
  scope = scope;
  kind = kind;
  lifecycle = AlertLifecycle.open_alert;
  generation = generation;
  occurrence_count = 1;
  cooldown_until_utc_us = deadline now_utc_us;
  recovered_at_utc_us = none;
})

-- `_occurrence_transition`
unfoldable pub occurrence_transition : AutomaticAlertState → ℕ → Checked AutomaticAlertTransition
occurrence_transition s now_utc_us =
    check_state (record s {
      occurrence_count = min (s.occurrence_count + 1) max_bounded_counter;
      cooldown_until_utc_us = max s.cooldown_until_utc_us (deadline now_utc_us);
    })
    >>= λ updated.
        if same_alert updated s
        then unchanged (some s) idempotent
        else changed (some s) updated LifecycleEvent.occurrence_updated

-- The end of `_open_or_update`, for a state that is not reopened.
unfoldable pub open_again :
    AutomaticAlertState → AutomaticAlertInput → Checked AutomaticAlertTransition
open_again s r =
    let created = new_alert r.scope r.kind r.now_utc_us (s.generation + 1) in
    if s.generation == max_bounded_counter
    then unchanged (some s) rejected
    else created >>= λ c. creating s c

-- `_open_or_update` on an alert, by its lifecycle.
unfoldable pub open_in :
    AlertLifecycle → AutomaticAlertState → AutomaticAlertInput → Checked AutomaticAlertTransition
open_in AlertLifecycle.open_alert s r = occurrence_transition s r.now_utc_us
open_in AlertLifecycle.acknowledged s r = occurrence_transition s r.now_utc_us
open_in AlertLifecycle.recovered s r =
    if ltb r.now_utc_us s.cooldown_until_utc_us
    then occurrence_transition s r.now_utc_us
    else open_again s r
open_in AlertLifecycle.archived s r = open_again s r

-- `_open_or_update` with no alert.
unfoldable pub open_first : AutomaticAlertInput → Checked AutomaticAlertTransition
open_first r =
    new_alert r.scope r.kind r.now_utc_us 1 >>= λ opened. changed none opened LifecycleEvent.opened

-- `_recover`, by the lifecycle.
unfoldable pub recover_in :
    AlertLifecycle → AutomaticAlertState → ℕ → Checked AutomaticAlertTransition
recover_in l s now_utc_us =
    if is_terminal l
    then unchanged (some s) idempotent
    else check_state (record s {
      lifecycle = AlertLifecycle.recovered;
      recovered_at_utc_us = some now_utc_us;
      cooldown_until_utc_us = max s.cooldown_until_utc_us (deadline now_utc_us);
    })
      >>= λ next. changed (some s) next LifecycleEvent.recovered

-- `_archive`, by the lifecycle.
unfoldable pub archive_in :
    AlertLifecycle → AutomaticAlertState → ℕ → Checked AutomaticAlertTransition
archive_in AlertLifecycle.archived s now_utc_us = unchanged (some s) idempotent
archive_in AlertLifecycle.recovered s now_utc_us =
    let archived = check_state (record s { lifecycle = AlertLifecycle.archived }) in
    if ltb now_utc_us s.cooldown_until_utc_us
    then unchanged (some s) rejected
    else archived >>= λ next. changed (some s) next LifecycleEvent.archived
archive_in _ s now_utc_us = unchanged (some s) rejected

-- `_escalate`
unfoldable pub escalate_alert :
    AutomaticAlertState → AutomaticAlertInput → Checked AutomaticAlertTransition
escalate_alert s r =
    if is_terminal s.lifecycle
      || not (same_kind s.kind AlertKind.degraded)
      || not (is_unavailable r.escalation_kind)
      || s.generation == max_bounded_counter
    then unchanged (some s) rejected
    else new_alert s.scope AlertKind.unavailable r.now_utc_us (s.generation + 1) >>= λ created.
        creating s created

-- The operations on an alert that is there.
unfoldable pub operate :
    AutomaticAlertOperation
    → AutomaticAlertState
    → AutomaticAlertInput
    → Checked AutomaticAlertTransition
operate open_operation s r = open_in s.lifecycle s r
operate recover s r = recover_in s.lifecycle s r.now_utc_us
operate archive s r = archive_in s.lifecycle s r.now_utc_us
operate escalate s r = escalate_alert s r

abbrev pub is_open_operation : AutomaticAlertOperation → Bool
is_open_operation open_operation = true
is_open_operation _ = false

unfoldable pub evaluate_automatic_alert :
    Option AutomaticAlertState → AutomaticAlertInput → Checked AutomaticAlertTransition
evaluate_automatic_alert none r =
    if not r.persistence_succeeded
    then unchanged none not_persisted
    else if is_open_operation r.operation
    then open_first r
    else unchanged none rejected
evaluate_automatic_alert (some s) r =
    if not r.persistence_succeeded
    then unchanged (some s) not_persisted
    else if not (same_scope s.scope r.scope && same_kind s.kind r.kind)
    then unchanged (some s) rejected
    else operate r.operation s r
