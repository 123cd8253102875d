-- ===== src/M18Validation/AlertLifecycle.antt =====
-- aurora_core/m18_validation/alert_lifecycle.py: the reference model of the alert lifecycle, with
-- acknowledgement. Each construction goes through the checks of `__post_init__`. Times are
-- seconds.
pub mod Outcomes
pub mod Soundness
pub mod Saturation
use project_aurora.Base.{
  ℕ, ◌+◌, min, max, Bool, true, false, not, ◌&&◌, ◌||◌, Option, none, some, if◌then◌else◌, ltb, leb,
  ◌==◌, is_some, [], ◌∷◌,
}
use project_aurora.Base.Checked.{Checked, ok, ◌>>=◌, ◌>>◌, raise_if, require}

abbrev pub alert_cooldown_seconds : ℕ
alert_cooldown_seconds = 900  -- 15 * 60

abbrev pub max_alert_occurrences : ℕ
max_alert_occurrences = 65535

abbrev pub max_alert_generation : ℕ
max_alert_generation = 9223372036854775807  -- 2 ** 63 - 1

abbrev pub max_alert_time : ℕ
max_alert_time = 9223372036854775807  -- 2 ** 63 - 1

pub data AlertScope : Type 0 where
  overall wled hyperhdr capture raspberry_pi sampling : AlertScope

pub data AlertKind : Type 0 where
  degraded unavailable sampling_gap : AlertKind

pub data AlertLifecycle : Type 0 where
  open_alert acknowledged recovered archived : AlertLifecycle

pub data AlertOperation : Type 0 where
  open_operation acknowledge recover archive escalate : AlertOperation

pub data AlertEvent : Type 0 where
  opened occurrence_updated acknowledged recovered archived : AlertEvent

pub data AlertOutcome : Type 0 where
  applied idempotent rejected not_persisted : AlertOutcome

pub record AlertState : Type 0 where
  pub scope : AlertScope
  pub kind : AlertKind
  pub lifecycle : AlertLifecycle
  pub generation : ℕ
  pub occurrence_count : ℕ
  pub cooldown_until : ℕ
  pub recovered_at : Option ℕ

pub record AlertInput : Type 0 where
  pub operation : AlertOperation
  pub scope : AlertScope
  pub kind : AlertKind
  pub now : ℕ
  pub persistence_succeeded : Bool
  pub escalation_kind : Option AlertKind

pub record AlertTransition : Type 0 where
  pub previous : Option AlertState
  pub state : Option AlertState
  pub created_alert : Option AlertState
  pub event : Option AlertEvent
  pub outcome : AlertOutcome

-- Equality of enum members, by position.
abbrev scope_number : AlertScope → ℕ
scope_number overall = 0
scope_number wled = 1
scope_number hyperhdr = 2
scope_number capture = 3
scope_number raspberry_pi = 4
scope_number sampling = 5

abbrev kind_number : AlertKind → ℕ
kind_number degraded = 0
kind_number unavailable = 1
kind_number sampling_gap = 2

abbrev lifecycle_number : AlertLifecycle → ℕ
lifecycle_number AlertLifecycle.open_alert = 0
lifecycle_number AlertLifecycle.acknowledged = 1
lifecycle_number AlertLifecycle.recovered = 2
lifecycle_number AlertLifecycle.archived = 3

abbrev pub same_scope : AlertScope → AlertScope → Bool
same_scope a b = scope_number a == scope_number b

abbrev pub same_kind : AlertKind → AlertKind → Bool
same_kind a b = kind_number a == kind_number b

abbrev pub same_time : Option ℕ → Option ℕ → Bool
same_time none none = true
same_time (some a) (some b) = a == b
same_time _ _ = false

-- The dataclass's `==`.
unfoldable pub same_alert : AlertState → AlertState → Bool
same_alert a b =
    same_scope a.scope b.scope
    && same_kind a.kind b.kind
    && lifecycle_number a.lifecycle == lifecycle_number b.lifecycle
    && a.generation == b.generation
    && a.occurrence_count == b.occurrence_count
    && a.cooldown_until == b.cooldown_until
    && same_time a.recovered_at b.recovered_at

abbrev pub same_optional_alert : Option AlertState → Option AlertState → Bool
same_optional_alert none none = true
same_optional_alert (some a) (some b) = same_alert a b
same_optional_alert _ _ = false

-- `AlertTransition.mutated`
unfoldable pub mutated : AlertTransition → Bool
mutated t = not (same_optional_alert t.state t.previous) || is_some t.created_alert

abbrev pub is_terminal : AlertLifecycle → Bool
is_terminal AlertLifecycle.recovered = true
is_terminal AlertLifecycle.archived = true
is_terminal _ = false

abbrev pub time_in_range : Option ℕ → Bool
time_in_range none = true
time_in_range (some n) = leb n max_alert_time

-- `AlertState.__post_init__`
unfoldable pub check_state : AlertState → Checked AlertState
check_state s = require s (
    (not (leb 1 s.generation && leb s.generation max_alert_generation), "invalid_alert_generation")
    ∷ (
      not (leb 1 s.occurrence_count && leb s.occurrence_count max_alert_occurrences),
      "invalid_alert_occurrence_count",
    )
    ∷ (not (leb s.cooldown_until max_alert_time), "invalid_alert_cooldown")
    ∷ (not (time_in_range s.recovered_at), "invalid_alert_recovery_time")
    ∷ (is_terminal s.lifecycle && not (is_some s.recovered_at), "missing_alert_recovery_time")
    ∷ (not (is_terminal s.lifecycle) && is_some s.recovered_at, "unexpected_alert_recovery_time")
    ∷ [])

abbrev pub escalation_fits : AlertOperation → Option AlertKind → Checked (Unit {0})
escalation_fits escalate k = raise_if (not (is_some k)) "missing_escalation_kind"
escalation_fits _ k = raise_if (is_some k) "unexpected_escalation_kind"

-- `AlertInput.__post_init__`
unfoldable pub check_input : AlertInput → Checked AlertInput
check_input r = do
  raise_if (not (leb r.now max_alert_time)) "invalid_alert_time"
  escalation_fits r.operation r.escalation_kind
  ok r

-- `_bounded_deadline`
abbrev pub bounded_deadline : ℕ → ℕ
bounded_deadline now = min (now + alert_cooldown_seconds) max_alert_time

-- `_idempotent`, `_rejected` and the transition that was not persisted.
abbrev pub unchanged : Option AlertState → AlertOutcome → Checked AlertTransition
unchanged s outcome =
    ok (record { previous = s; state = s; created_alert = none; event = none; outcome = outcome })

abbrev pub changed : Option AlertState → AlertEvent → AlertState → Checked AlertTransition
changed s event next = ok (record {
  previous = s;
  state = some next;
  created_alert = none;
  event = some event;
  outcome = applied;
})

abbrev pub creating : AlertState → AlertState → Checked AlertTransition
creating s created = ok (record {
  previous = some s;
  state = some s;
  created_alert = some created;
  event = some AlertEvent.opened;
  outcome = applied;
})

-- `_new_alert`
unfoldable pub new_alert : AlertScope → AlertKind → ℕ → ℕ → Checked AlertState
new_alert scope kind now generation = check_state (record {
  scope = scope;
  kind = kind;
  lifecycle = AlertLifecycle.open_alert;
  generation = generation;
  occurrence_count = 1;
  cooldown_until = bounded_deadline now;
  recovered_at = none;
})

-- `_update_occurrence`
unfoldable pub update_occurrence : AlertState → ℕ → Checked AlertState
update_occurrence s now = check_state (record s {
  occurrence_count = min (s.occurrence_count + 1) max_alert_occurrences;
  cooldown_until = max s.cooldown_until (bounded_deadline now);
})

-- An occurrence on an alert, as `_open_or_update` reports it.
unfoldable pub occur : AlertState → ℕ → Checked AlertTransition
occur s now = update_occurrence s now >>= changed (some s) AlertEvent.occurrence_updated

-- The end of `_open_or_update`, for a state that is not reopened.
unfoldable pub open_again : AlertState → AlertInput → Checked AlertTransition
open_again s r =
    let created = new_alert r.scope r.kind r.now (s.generation + 1) in
    if s.generation == max_alert_generation
    then unchanged (some s) rejected
    else created >>= creating s

-- `_open_or_update` on an alert, by its lifecycle.
unfoldable pub open_in : AlertLifecycle → AlertState → AlertInput → Checked AlertTransition
open_in AlertLifecycle.open_alert s r = occur s r.now
open_in AlertLifecycle.acknowledged s r = occur s r.now
open_in AlertLifecycle.recovered s r =
    if ltb r.now s.cooldown_until then occur s r.now else open_again s r
open_in AlertLifecycle.archived s r = open_again s r

-- `_open_or_update` with no alert.
unfoldable pub open_first : AlertInput → Checked AlertTransition
open_first r = new_alert r.scope r.kind r.now 1 >>= changed none AlertEvent.opened

-- `_acknowledge`, by the lifecycle.
unfoldable pub acknowledge_in : AlertLifecycle → AlertState → Checked AlertTransition
acknowledge_in AlertLifecycle.open_alert s =
    check_state (record s { lifecycle = AlertLifecycle.acknowledged })
    >>= changed (some s) AlertEvent.acknowledged
acknowledge_in AlertLifecycle.acknowledged s = unchanged (some s) idempotent
acknowledge_in _ s = unchanged (some s) rejected

-- `_recover`, by the lifecycle; its last `return` is never reached.
unfoldable pub recover_in : AlertLifecycle → AlertState → ℕ → Checked AlertTransition
recover_in l s now =
    if is_terminal l
    then unchanged (some s) idempotent
    else check_state (record s {
      lifecycle = AlertLifecycle.recovered;
      recovered_at = some now;
      cooldown_until = max s.cooldown_until (bounded_deadline now);
    })
      >>= changed (some s) AlertEvent.recovered

-- `_archive`, by the lifecycle.
unfoldable pub archive_in : AlertLifecycle → AlertState → ℕ → Checked AlertTransition
archive_in AlertLifecycle.archived s now = unchanged (some s) idempotent
archive_in AlertLifecycle.recovered s now =
    let next = check_state (record s { lifecycle = AlertLifecycle.archived }) in
    if ltb now s.cooldown_until
    then unchanged (some s) rejected
    else next >>= changed (some s) AlertEvent.archived
archive_in _ s now = unchanged (some s) rejected

abbrev pub is_unavailable : Option AlertKind → Bool
is_unavailable (some AlertKind.unavailable) = true
is_unavailable _ = false

-- `_escalate`
unfoldable pub escalate_alert : AlertState → AlertInput → Checked AlertTransition
escalate_alert s r =
    if is_terminal s.lifecycle
      || not (is_unavailable r.escalation_kind)
      || not (same_kind s.kind AlertKind.degraded)
      || s.generation == max_alert_generation
    then unchanged (some s) rejected
    else new_alert s.scope AlertKind.unavailable r.now (s.generation + 1) >>= creating s

-- The operations on an alert that is there.
unfoldable pub operate : AlertOperation → AlertState → AlertInput → Checked AlertTransition
operate open_operation s r = open_in s.lifecycle s r
operate acknowledge s r = acknowledge_in s.lifecycle s
operate recover s r = recover_in s.lifecycle s r.now
operate archive s r = archive_in s.lifecycle s r.now
operate escalate s r = escalate_alert s r

abbrev pub is_open_operation : AlertOperation → Bool
is_open_operation open_operation = true
is_open_operation _ = false

unfoldable pub evaluate_alert_lifecycle : Option AlertState → AlertInput → Checked AlertTransition
evaluate_alert_lifecycle none r =
    if not r.persistence_succeeded
    then unchanged none not_persisted
    else if is_open_operation r.operation
    then open_first r
    else unchanged none rejected
evaluate_alert_lifecycle (some s) r =
    if not r.persistence_succeeded
    then unchanged (some s) not_persisted
    else if not (same_scope s.scope r.scope && same_kind s.kind r.kind)
    then unchanged (some s) rejected
    else operate r.operation s r
