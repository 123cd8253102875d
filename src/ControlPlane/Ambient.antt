-- ===== src/ControlPlane/Ambient.antt =====
-- aurora_core/control_plane/ambient_service.py: AmbientControlService over the WLED service and the
-- HyperHDR service, with the settings of config/models.py. The three share one mutation gate: its
-- state is kept with the WLED service, lent to the HyperHDR service for a call of it, and taken back
-- after. The constructor is given the identities of the gates of the two services, and of the one
-- that it shares. A log keeps the calls of children with their answers, and the audit.
pub mod Gate
pub mod Off
pub mod Request
pub mod Requests
pub mod Runs
use text.Mathlib.Text.{◌==◌ as str_eq}
use project_aurora.Base.{
  ℕ, ◌+◌, ◌-◌, Bool, true, false, not, ◌&&◌, ◌||◌, Option, none, some, String, List, [], ◌∷◌, ◌++◌,
  if◌then◌else◌, ◌==◌, any,
}
use project_aurora.ControlPlane.Audit.{
  AuditEvent, AuditReason, aurora_operation_succeeded, aurora_operation_partially_completed,
  aurora_operation_denied, aurora_operation_rate_limited, aurora_operation_busy,
  aurora_operation_failed, aurora_operation_unverified, csrf_rejected, authentication_required,
  missing_csrf, invalid_csrf, operation_not_allowlisted, missing_confirmation, invalid_confirmation,
  operation_limit, operation_in_progress, partial_completion, connection_failure,
}
use project_aurora.Base.Checked.{Checked, ok, raise_if, ◌>>◌, ◌>>=◌}
use project_aurora.ControlPlane.Limiter.{
  LoginAttemptLimiter, begin_attempt, create_limiter, max_tracked_clients,
}
use project_aurora.ControlPlane.Sessions.{SessionContext, Token, csrf_is_valid}
use project_aurora.ControlPlane.HyperhdrService
use project_aurora.ControlPlane.HyperhdrService.{
  HyperhdrOperation, enable_grabber, disable_grabber, enable_output, disable_output, grabber_enable,
  grabber_disable, output_enable, output_disable, HyperhdrControlService, HyperhdrControlResult,
}
use project_aurora.ControlPlane.WledService.{
  WledControlService, WledControlResult, WledControlStatus, WledOperation, turn_on, turn_off,
  is_available, is_csrf_reason,
}

pub data AuroraOperation : Type 0 where
  ambient_on ambient_off : AuroraOperation

pub data AmbientControlAvailability : Type 0 where
  authentication_unavailable controls_disabled no_operations : AmbientControlAvailability
  required_children_unavailable available : AmbientControlAvailability

pub data AmbientControlStatus : Type 0 where
  completed partially_completed unverified failed denied busy rate_limited : AmbientControlStatus

pub data AmbientControlStep : Type 0 where
  video_grabber_enable wled_power_on led_output_enable : AmbientControlStep
  led_output_disable video_grabber_disable wled_power_off : AmbientControlStep

pub record AmbientControlResult : Type 0 where
  pub status : AmbientControlStatus
  pub attempted_steps : List AmbientControlStep
  pub verified_steps : List AmbientControlStep

pub record AmbientControlSettings : Type 0 where
  pub enabled : Bool
  pub allowed_operations : List AuroraOperation
  pub operation_limit : ℕ
  pub operation_window_seconds : ℕ

abbrev pub ChildResult : Type 0
ChildResult = WledControlResult

pub data Effect : Type 0 where
  called : AmbientControlStep → Option ChildResult → Effect
  audited : AuditEvent → AuditReason → Option AuroraOperation → Effect

pub record AmbientControlService : Type 0 where
  pub settings : AmbientControlSettings
  pub authentication_enabled : Bool
  pub wled : WledControlService
  pub hyperhdr : HyperhdrControlService
  pub limiter : LoginAttemptLimiter
  pub log : List Effect

-- `__init__`, where a number stands for the identity of a gate.
unfoldable pub create_ambient_service :
    AmbientControlSettings
    → Bool
    → WledControlService
    → HyperhdrControlService
    → ℕ
    → ℕ
    → ℕ
    → Checked AmbientControlService
create_ambient_service settings authentication_enabled wled hyperhdr wled_gate hyperhdr_gate gate =
    do
      raise_if (not (wled_gate == gate) || not (hyperhdr_gate == gate))
          "shared_mutation_gate_required"
      limiter ←
          create_limiter settings.operation_limit settings.operation_window_seconds
            max_tracked_clients
      ok (record {
        settings = settings;
        authentication_enabled = authentication_enabled;
        wled = wled;
        hyperhdr = hyperhdr;
        limiter = limiter;
        log = [];
      })

abbrev pub same_operation : AuroraOperation → AuroraOperation → Bool
same_operation ambient_on ambient_on = true
same_operation ambient_off ambient_off = true
same_operation _ _ = false

-- `_AMBIENT_CHILDREN`
unfoldable pub children_available : AmbientControlService → AuroraOperation → Bool
children_available s ambient_on =
    HyperhdrService.is_available s.hyperhdr grabber_enable
    && is_available s.wled WledOperation.power_on
    && HyperhdrService.is_available s.hyperhdr output_enable
children_available s ambient_off =
    HyperhdrService.is_available s.hyperhdr output_disable
    && HyperhdrService.is_available s.hyperhdr grabber_disable
    && is_available s.wled WledOperation.power_off

abbrev pub is_allowed : AmbientControlService → AuroraOperation → Bool
is_allowed s operation = any (same_operation operation) s.settings.allowed_operations

-- `operation in available_operations`
unfoldable pub offers_operation : AmbientControlService → AuroraOperation → Bool
offers_operation s operation =
    s.authentication_enabled
    && s.settings.enabled
    && is_allowed s operation
    && children_available s operation

-- `availability`
unfoldable availability : AmbientControlService → AmbientControlAvailability
availability s =
    if not s.authentication_enabled
    then authentication_unavailable
    else if not s.settings.enabled
    then AmbientControlAvailability.controls_disabled
    else if not (is_allowed s ambient_on || is_allowed s ambient_off)
    then no_operations
    else if not (offers_operation s ambient_on || offers_operation s ambient_off)
    then required_children_unavailable
    else available

-- `_PARENT_AUDIT_EVENTS`
abbrev pub event_of : AmbientControlStatus → AuditEvent
event_of completed = aurora_operation_succeeded
event_of partially_completed = aurora_operation_partially_completed
event_of unverified = aurora_operation_unverified
event_of failed = aurora_operation_failed
event_of denied = aurora_operation_denied
event_of busy = aurora_operation_busy
event_of rate_limited = aurora_operation_rate_limited

abbrev pub Run : Type 0
Run = AmbientControlService × AmbientControlResult

-- `_finish`
unfoldable pub finish :
    AmbientControlService
    → AuroraOperation
    → AmbientControlStatus
    → AuditReason
    → List AmbientControlStep
    → List AmbientControlStep
    → Run
finish s operation status reason attempted verified = (
  record s { log = s.log ++ audited (event_of status) reason (some operation) ∷ [] },
  record { status = status; attempted_steps = attempted; verified_steps = verified },
)

-- `_child_verified`
abbrev pub is_verified : WledControlStatus → Bool
is_verified WledControlStatus.verified = true
is_verified _ = false

abbrev pub child_verified : Option ChildResult → Bool
child_verified none = false
child_verified (some r) = is_verified r.status

abbrev pub status_of : WledControlStatus → AmbientControlStatus
status_of WledControlStatus.verified = failed
status_of WledControlStatus.denied = denied
status_of WledControlStatus.rate_limited = rate_limited
status_of WledControlStatus.busy = busy
status_of WledControlStatus.failed = failed
status_of WledControlStatus.unverified = unverified

-- `_aggregate_child_status`, of a child that is not verified.
unfoldable pub aggregate_child_status : Option ChildResult → Bool → AmbientControlStatus
aggregate_child_status result true = partially_completed
aggregate_child_status none false = failed
aggregate_child_status (some r) false = status_of r.status

-- `_aggregate_reason`
unfoldable pub aggregate_reason : Option ChildResult → AmbientControlStatus → AuditReason
aggregate_reason result partially_completed = partial_completion
aggregate_reason none status = connection_failure
aggregate_reason (some r) status = r.reason

abbrev pub has_steps : List AmbientControlStep → Bool
has_steps [] = false
has_steps (step ∷ steps) = true

abbrev pub note_call :
    AmbientControlService
    → AmbientControlStep
    → Option ChildResult
    → AmbientControlService × Option ChildResult
note_call s step result = (record s { log = s.log ++ called step result ∷ [] }, result)

-- The HyperHDR service with the shared gate as it stands.
abbrev pub lend_gate : AmbientControlService → HyperhdrControlService
lend_gate s = record s.hyperhdr { gate_taken = s.wled.gate_taken; gate_depth = s.wled.gate_depth }

-- The call leaves the shared gate as the HyperHDR service leaves it.
abbrev pub call_hyperhdr :
    AmbientControlService
    → AmbientControlStep
    → HyperhdrControlService × HyperhdrControlResult
    → AmbientControlService × Option ChildResult
call_hyperhdr s step (hyperhdr, result) =
    note_call
      (record s { hyperhdr = hyperhdr; wled = record s.wled { gate_depth = hyperhdr.gate_depth } })
      step (some result)

abbrev pub call_wled :
    AmbientControlService
    → AmbientControlStep
    → WledControlService × WledControlResult
    → AmbientControlService × Option ChildResult
call_wled s step (wled, result) = note_call (record s { wled = wled }) step (some result)

module _ (digest : String → ℕ) (session : SessionContext) (csrf : Token) (client : String)
    (now : ℕ) where
  -- `_safe_child_call` of the call that belongs to a step; disabling is confirmed.
  unfoldable pub call_child :
      AmbientControlService → AmbientControlStep → AmbientControlService × Option ChildResult
  call_child s video_grabber_enable =
      call_hyperhdr s video_grabber_enable
        (enable_grabber digest (lend_gate s) (some session) (some csrf) client now)
  call_child s wled_power_on =
      call_wled s wled_power_on (turn_on digest s.wled (some session) (some csrf) client now)
  call_child s led_output_enable =
      call_hyperhdr s led_output_enable
        (enable_output digest (lend_gate s) (some session) (some csrf) client now)
  call_child s led_output_disable = call_hyperhdr s led_output_disable (
      disable_output digest (lend_gate s) (some session) (some csrf)
        (some "confirm_led_output_disable") client now)
  call_child s video_grabber_disable = call_hyperhdr s video_grabber_disable (
      disable_grabber digest (lend_gate s) (some session) (some csrf)
        (some "confirm_video_grabber_disable") client now)
  call_child s wled_power_off =
      call_wled s wled_power_off
        (turn_off digest s.wled (some session) (some csrf) (some "confirm_power_off") client now)

  -- What the loop of `_run_ambient_on` does with the answer of a child.
  abbrev pub after_child :
      AmbientControlStep
      → AmbientControlService × Option ChildResult
      → List AmbientControlStep
      → (AmbientControlService → Run)
      → Run
  after_child step (s, result) verified continue =
      if child_verified result
      then continue s
      else finish s ambient_on (aggregate_child_status result (has_steps verified))
          (aggregate_reason result (aggregate_child_status result (has_steps verified)))
          (verified ++ step ∷ []) verified

  -- The loop of `_run_ambient_on`, in which every step before is verified.
  unfoldable pub run_steps :
      List AmbientControlStep → List AmbientControlStep → AmbientControlService → Run
  run_steps [] verified s = finish s ambient_on completed AuditReason.verified verified verified
  run_steps (step ∷ rest) verified s =
      after_child step (call_child s step) verified λ s'. run_steps rest (verified ++ step ∷ []) s'

  -- `_run_ambient_on`
  unfoldable pub run_ambient_on : AmbientControlService → Run
  run_ambient_on s = run_steps (video_grabber_enable ∷ wled_power_on ∷ led_output_enable ∷ []) [] s

  abbrev pub verified_step : AmbientControlStep → Option ChildResult → List AmbientControlStep
  verified_step step result = if child_verified result then step ∷ [] else []

  abbrev pub off_steps : List AmbientControlStep
  off_steps = led_output_disable ∷ video_grabber_disable ∷ wled_power_off ∷ []

  -- The end of `_run_ambient_off`.
  unfoldable pub conclude_off :
      AmbientControlService → Option ChildResult → Option ChildResult → Run
  conclude_off s grabber_result wled_result =
      let incomplete = not (child_verified grabber_result && child_verified wled_result) in
      finish s ambient_off (if incomplete then partially_completed else completed)
        (if incomplete then partial_completion else AuditReason.verified) off_steps
        (led_output_disable ∷ verified_step video_grabber_disable grabber_result
          ++ verified_step wled_power_off wled_result)

  -- `_run_ambient_off` after the LED output is disabled.
  unfoldable pub run_off_rest : AmbientControlService → Run
  run_off_rest s =
      let (s', grabber_result) = call_child s video_grabber_disable in
      let (s'', wled_result) = call_child s' wled_power_off in
      conclude_off s'' grabber_result wled_result

  -- `_run_ambient_off` with the answer to disabling the LED output.
  unfoldable pub after_output : AmbientControlService × Option ChildResult → Run
  after_output (s, led_result) =
      if not (child_verified led_result)
      then finish s ambient_off (aggregate_child_status led_result false)
          (aggregate_reason led_result (aggregate_child_status led_result false))
          (led_output_disable ∷ []) []
      else run_off_rest s

  -- `_run_ambient_off`
  unfoldable pub run_ambient_off : AmbientControlService → Run
  run_ambient_off s = after_output (call_child s led_output_disable)

  unfoldable pub run_operation : AuroraOperation → AmbientControlService → Run
  run_operation ambient_on s = run_ambient_on s
  run_operation ambient_off s = run_ambient_off s
