-- ===== src/ControlPlane/WledService.antt =====
-- aurora_core/control_plane/wled_service.py: WLEDControlService, with the operations of
-- config/models.py and the results of wled_adapter.py. What the service does outside itself is a
-- log of effects. The mutation gate is a reentrant lock: `gate_taken` says whether another thread
-- holds it, and `gate_depth` how often this one does. The adapter and the cache invalidator are
-- injected; the adapter is given the number of effects so far, and `none` is a call that raises.
pub mod Outcomes
pub mod Guards
use text.Mathlib.Text.{◌==◌ as str_eq}
use project_aurora.Base.{
  ℕ, ◌+◌, ◌-◌, ◌⊎◌, inl, inr, Bool, true, false, not, ◌&&◌, ◌||◌, Option, none, some, String, List,
  [], ◌∷◌, ◌++◌, if◌then◌else◌, ltb, leb, ◌==◌, is_some, any, length,
}
use project_aurora.Base.Checked.{Checked, ok, value_error, raise_if, ◌>>◌, ◌>>=◌}
use project_aurora.Config.{EndpointSettings}
use project_aurora.ControlPlane.Audit.{
  AuditEvent, AuditReason, wled_operation_succeeded, wled_operation_failed, wled_operation_denied,
  wled_operation_rate_limited, wled_operation_busy, wled_confirmation_rejected,
  wled_state_verification_failed, csrf_rejected, authentication_required, missing_csrf,
  invalid_csrf, operation_not_allowlisted, invalid_brightness, missing_confirmation,
  invalid_confirmation, operation_limit, operation_in_progress,
}
use project_aurora.ControlPlane.Limiter.{LoginAttemptLimiter, begin_attempt, tracked_client_count}
use project_aurora.ControlPlane.Sessions.{SessionContext, Token, csrf_is_valid}

pub data WledOperation : Type 0 where
  power_on power_off brightness_set : WledOperation

pub data WledControlAvailability : Type 0 where
  authentication_unavailable wled_unavailable controls_disabled : WledControlAvailability
  no_operations available : WledControlAvailability

pub data WledControlStatus : Type 0 where
  verified denied rate_limited busy failed unverified : WledControlStatus

pub record WledControlResult : Type 0 where
  pub status : WledControlStatus
  pub reason : AuditReason

pub data AdapterReason : Type 0 where
  verified connection_failure timeout http_rejection redirect_rejection : AdapterReason
  oversized_response malformed_json missing_expected_state : AdapterReason
  state_verification_mismatch : AdapterReason

pub record AdapterResult : Type 0 where
  pub verified : Bool
  pub reason : AdapterReason

pub data OperationInput : Type 0 where
  no_operation_input : OperationInput
  brightness_input : ℕ → OperationInput

pub record WledControlSettings : Type 0 where
  pub enabled : Bool
  pub allowed_operations : List WledOperation
  pub maximum_brightness : ℕ

-- What is seen outside the service; an audit entry may name the operation.
pub data Effect : Type 0 where
  audited : AuditEvent → AuditReason → Option WledOperation → Effect
  executed : WledOperation → OperationInput → Effect
  invalidated : Effect

abbrev pub Adapter : Type 0
Adapter = ℕ → WledOperation → OperationInput → Option AdapterResult

pub record WledControlService : Type 0 where
  pub settings : EndpointSettings
  pub controls : WledControlSettings
  pub authentication_enabled : Bool
  pub adapter : Option Adapter
  pub limiter : LoginAttemptLimiter
  pub operation_locked : Bool
  pub gate_taken : Bool
  pub gate_depth : ℕ
  pub effects : List Effect

abbrev operation_number : WledOperation → ℕ
operation_number power_on = 0
operation_number power_off = 1
operation_number brightness_set = 2

abbrev pub same_operation : WledOperation → WledOperation → Bool
same_operation a b = operation_number a == operation_number b

-- `available_operations`, of which every operation has a contract.
unfoldable pub is_available : WledControlService → WledOperation → Bool
is_available s operation =
    s.authentication_enabled
    && s.settings.enabled
    && is_some s.settings.host
    && s.controls.enabled
    && any (same_operation operation) s.controls.allowed_operations

-- `availability`
unfoldable pub availability : WledControlService → WledControlAvailability
availability s =
    if not s.authentication_enabled
    then authentication_unavailable
    else if not s.settings.enabled || not (is_some s.settings.host)
    then wled_unavailable
    else if not s.controls.enabled
    then WledControlAvailability.controls_disabled
    else if is_available s power_on || is_available s power_off || is_available s brightness_set
    then available
    else no_operations

abbrev pub is_blocked : WledControlAvailability → Bool
is_blocked available = false
is_blocked no_operations = false
is_blocked _ = true

abbrev pub append_effect : WledControlService → Effect → WledControlService
append_effect s e = record s { effects = s.effects ++ e ∷ [] }

-- `emit_operation`
abbrev pub emit_operation :
    WledControlService → AuditEvent → AuditReason → WledOperation → WledControlService
emit_operation s event reason operation = append_effect s (audited event reason (some operation))

-- `_deny`
abbrev pub deny :
    WledControlService → WledOperation → AuditReason → WledControlService × WledControlResult
deny s operation reason = (
  emit_operation s wled_operation_denied reason operation,
  record { status = denied; reason = reason },
)

-- `_authentication_failure`; the service with the reason of a failure, if there is one.
unfoldable pub authentication_failure :
    WledControlService → Option SessionContext → Option Token → Option AuditReason
authentication_failure s none csrf = some authentication_required
authentication_failure s (some session) none =
    if not s.authentication_enabled then some authentication_required else some missing_csrf
authentication_failure s (some session) (some csrf) =
    if not s.authentication_enabled
    then some authentication_required
    else if csrf_is_valid session csrf
    then none
    else some invalid_csrf

abbrev pub is_csrf_reason : AuditReason → Bool
is_csrf_reason missing_csrf = true
is_csrf_reason invalid_csrf = true
is_csrf_reason _ = false

-- The entry that `_authentication_failure` writes before it denies for a CSRF token.
abbrev pub csrf_entries : AuditReason → List Effect
csrf_entries reason = if is_csrf_reason reason then audited csrf_rejected reason none ∷ [] else []

abbrev pub refuse_request :
    WledControlService → WledOperation → AuditReason → WledControlService × WledControlResult
refuse_request s operation reason =
    deny (record s { effects = s.effects ++ csrf_entries reason }) operation reason

-- The confirmation that powering off needs.
unfoldable pub confirmation_failure : WledOperation → Option String → Option AuditReason
confirmation_failure power_off none = some missing_confirmation
confirmation_failure power_off (some text) =
    if str_eq text "confirm_power_off" then none else some invalid_confirmation
confirmation_failure _ confirmation = none

-- `_confirmation_denied`
abbrev pub confirmation_denied :
    WledControlService → WledOperation → AuditReason → WledControlService × WledControlResult
confirmation_denied s operation reason = (
  emit_operation s wled_confirmation_rejected reason operation,
  record { status = denied; reason = reason },
)

abbrev pub too_bright : ℕ → OperationInput → Bool
too_bright maximum no_operation_input = false
too_bright maximum (brightness_input n) = ltb maximum n

abbrev pub busy_result : WledControlService → WledOperation → WledControlService × WledControlResult
busy_result s operation = (
  emit_operation s wled_operation_busy operation_in_progress operation,
  record { status = busy; reason = operation_in_progress },
)

-- `_ADAPTER_AUDIT_REASONS`, with what `_execute` takes for a reason that it lacks.
abbrev pub audit_reason : AdapterReason → AuditReason
audit_reason verified = AuditReason.connection_failure
audit_reason connection_failure = AuditReason.connection_failure
audit_reason timeout = AuditReason.timeout
audit_reason http_rejection = AuditReason.http_rejection
audit_reason redirect_rejection = AuditReason.redirect_rejection
audit_reason oversized_response = AuditReason.oversized_response
audit_reason malformed_json = AuditReason.malformed_json
audit_reason missing_expected_state = AuditReason.missing_expected_state
audit_reason state_verification_mismatch = AuditReason.state_verification_mismatch

-- `_VERIFICATION_FAILURES`
abbrev pub is_verification_failure : AdapterReason → Bool
is_verification_failure malformed_json = true
is_verification_failure missing_expected_state = true
is_verification_failure state_verification_mismatch = true
is_verification_failure _ = false

-- The end of `_execute`, with the adapter's result.
unfoldable pub conclude :
    WledControlService → WledOperation → AdapterResult → WledControlService × WledControlResult
conclude s operation a =
    if a.verified
    then (
      append_effect (emit_operation s wled_operation_succeeded AuditReason.verified operation)
          invalidated,
      record { status = verified; reason = AuditReason.verified },
    )
    else if is_verification_failure a.reason
    then (
      emit_operation s wled_state_verification_failed (audit_reason a.reason) operation,
      record { status = unverified; reason = audit_reason a.reason },
    )
    else (
      emit_operation s wled_operation_failed (audit_reason a.reason) operation,
      record { status = failed; reason = audit_reason a.reason },
    )

abbrev pub answer : Option AdapterResult → AdapterResult
answer none = record { verified = false; reason = connection_failure }
answer (some a) = a

-- What runs under both locks: a result, or the answer of the adapter.
unfoldable pub call_adapter :
    WledControlService
    → WledOperation
    → OperationInput
    → Option Adapter
    → WledControlService × (WledControlResult ⊎ AdapterResult)
call_adapter s operation input none =
    let (s', r) = deny s operation AuditReason.controls_disabled in (s', inl r)
call_adapter s operation input (some f) = (
  append_effect s (executed operation input),
  inr (answer (f (length s.effects) operation input)),
)

-- The release of the operation lock.
abbrev pub release_lock {ℓ} : {A : Type ℓ} → WledControlService × A → WledControlService × A
release_lock (s, r) = (record s { operation_locked = false }, r)

abbrev pub busy_locked :
    WledControlService → WledOperation → WledControlService × (WledControlResult ⊎ AdapterResult)
busy_locked s operation = let (s', r) = busy_result s operation in (s', inl r)

-- What runs under the mutation gate.
unfoldable pub lock_operation :
    WledControlService
    → WledOperation
    → OperationInput
    → WledControlService × (WledControlResult ⊎ AdapterResult)
lock_operation s operation input =
    if s.operation_locked
    then busy_locked s operation
    else release_lock
        (call_adapter (record s { operation_locked = true }) operation input s.adapter)

-- The release of the mutation gate, and the conclusion where the adapter has answered.
abbrev pub release_gate :
    WledOperation
    → WledControlService × (WledControlResult ⊎ AdapterResult)
    → WledControlService × WledControlResult
release_gate operation (s, inl r) = (record s { gate_depth = s.gate_depth - 1 }, r)
release_gate operation (s, inr a) =
    conclude (record s { gate_depth = s.gate_depth - 1 }) operation a

-- From the mutation gate on.
unfoldable pub pass_gate :
    WledControlService → WledOperation → OperationInput → WledControlService × WledControlResult
pass_gate s operation input =
    if s.gate_taken
    then busy_result s operation
    else release_gate operation
        (lock_operation (record s { gate_depth = s.gate_depth + 1 }) operation input)

-- From the limiter on.
unfoldable pub pass_limiter :
    (String → ℕ)
    → WledControlService
    → WledOperation
    → OperationInput
    → String
    → ℕ
    → WledControlService × WledControlResult
pass_limiter digest s operation input client now =
    let (limiter, accepted) = begin_attempt digest s.limiter client now in
    let s' = record s { limiter = limiter } in
    if not accepted
    then (
      emit_operation s' wled_operation_rate_limited operation_limit operation,
      record { status = rate_limited; reason = operation_limit },
    )
    else pass_gate s' operation input

-- What `_execute` does with an authenticated request.
unfoldable pub pass_checks :
    (String → ℕ)
    → WledControlService
    → WledOperation
    → OperationInput
    → String
    → ℕ
    → Option String
    → WledControlService × WledControlResult
pass_checks digest s operation input client now confirmation =
    if is_blocked (availability s)
    then deny s operation AuditReason.controls_disabled
    else if not (is_available s operation)
    then deny s operation operation_not_allowlisted
    else elim (confirmation_failure operation confirmation) [
      | some reason ↦ confirmation_denied s operation reason
      | none ↦
          if too_bright s.controls.maximum_brightness input
          then deny s operation invalid_brightness
          else pass_limiter digest s operation input client now
    ]

-- `_execute`
unfoldable pub execute :
    (String → ℕ)
    → WledControlService
    → WledOperation
    → OperationInput
    → Option SessionContext
    → Option Token
    → String
    → ℕ
    → Option String
    → WledControlService × WledControlResult
execute digest s operation input session csrf client now confirmation =
    elim (authentication_failure s session csrf) [
      | some reason ↦ refuse_request s operation reason
      | none ↦ pass_checks digest s operation input client now confirmation
    ]

-- `power_on`
unfoldable pub turn_on :
    (String → ℕ)
    → WledControlService
    → Option SessionContext
    → Option Token
    → String
    → ℕ
    → WledControlService × WledControlResult
turn_on digest s session csrf client now =
    execute digest s power_on no_operation_input session csrf client now none

-- `power_off`
unfoldable pub turn_off :
    (String → ℕ)
    → WledControlService
    → Option SessionContext
    → Option Token
    → Option String
    → String
    → ℕ
    → WledControlService × WledControlResult
turn_off digest s session csrf confirmation client now =
    execute digest s power_off no_operation_input session csrf client now confirmation

-- `set_brightness`, with the check of `BrightnessInput`.
unfoldable pub set_brightness :
    (String → ℕ)
    → WledControlService
    → Option SessionContext
    → Option Token
    → ℕ
    → String
    → ℕ
    → WledControlService × WledControlResult
set_brightness digest s session csrf brightness client now =
    elim (authentication_failure s session csrf) [
      | some reason ↦ refuse_request s brightness_set reason
      | none ↦
          if not (leb 1 brightness && leb brightness 255)
          then deny s brightness_set invalid_brightness
          else execute digest s brightness_set (brightness_input brightness) session csrf client now
              none
    ]

-- `request_security_failure`
unfoldable request_security_failure :
    WledControlService
    → WledOperation
    → Option SessionContext
    → Option Token
    → WledControlService × Option WledControlResult
request_security_failure s operation session csrf = elim (authentication_failure s session csrf) [
  | some reason ↦ let (s', r) = refuse_request s operation reason in (s', some r)
  | none ↦ (s, none)
]

-- The property `tracked_client_count`, which cleans the limiter up.
unfoldable count_tracked_clients : WledControlService → ℕ → WledControlService × ℕ
count_tracked_clients s now =
    let (limiter, count) = tracked_client_count s.limiter now in
    (record s { limiter = limiter }, count)
