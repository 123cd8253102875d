-- ===== src/ControlPlane/HyperhdrService.antt =====
-- aurora_core/control_plane/hyperhdr_service.py: HyperHDRControlService, with the operations of
-- config/models.py and the results of hyperhdr_adapter.py. Its results have the statuses and the
-- fields of the WLED service's. As there, the effects are a log, `gate_taken` says whether another
-- thread holds the mutation gate, and `gate_depth` how often this one does. The adapter is
-- injected: it is given the number of effects so far, and `none` is a call that raises.
pub mod Gate
use text.Mathlib.Text.{◌==◌ as str_eq}
use project_aurora.Base.{
  ℕ, ◌+◌, ◌-◌, ◌⊎◌, inl, inr, Bool, true, false, not, ◌&&◌, ◌||◌, Option, none, some, String, List,
  [], ◌∷◌, ◌++◌, if◌then◌else◌, ◌==◌, is_some, any, length,
}
use project_aurora.Config.{EndpointSettings}
use project_aurora.ControlPlane.Audit.{
  AuditEvent, AuditReason, hyperhdr_operation_succeeded, hyperhdr_operation_failed,
  hyperhdr_operation_denied, hyperhdr_operation_rate_limited, hyperhdr_operation_busy,
  hyperhdr_confirmation_rejected, hyperhdr_state_verification_failed, csrf_rejected,
  authentication_required, missing_csrf, invalid_csrf, operation_not_allowlisted,
  missing_confirmation, invalid_confirmation, operation_limit, operation_in_progress,
}
use project_aurora.ControlPlane.Limiter.{LoginAttemptLimiter, begin_attempt, tracked_client_count}
use project_aurora.ControlPlane.Sessions.{SessionContext, Token, csrf_is_valid}
use project_aurora.ControlPlane.WledService.{
  WledControlResult, WledControlStatus, denied, rate_limited, busy, failed, unverified,
  is_csrf_reason,
}

pub data HyperhdrOperation : Type 0 where
  grabber_enable grabber_disable output_enable output_disable : HyperhdrOperation

pub data HyperhdrControlAvailability : Type 0 where
  authentication_unavailable hyperhdr_unavailable controls_disabled : HyperhdrControlAvailability
  no_operations available : HyperhdrControlAvailability

abbrev pub HyperhdrControlResult : Type 0
HyperhdrControlResult = WledControlResult

pub data HyperhdrAdapterReason : Type 0 where
  verified connection_failure timeout http_rejection : HyperhdrAdapterReason
  redirect_rejection unauthorized_response oversized_response : HyperhdrAdapterReason
  malformed_json non_object_json missing_success success_wrong_type : HyperhdrAdapterReason
  success_false mismatched_command verification_connection_failure : HyperhdrAdapterReason
  verification_timeout verification_http_rejection : HyperhdrAdapterReason
  verification_redirect_rejection verification_unauthorized_response : HyperhdrAdapterReason
  verification_oversized_response verification_malformed_response : HyperhdrAdapterReason
  missing_component_state ambiguous_component_state : HyperhdrAdapterReason
  state_verification_mismatch : HyperhdrAdapterReason

pub record HyperhdrAdapterResult : Type 0 where
  pub verified : Bool
  pub acknowledged : Bool
  pub reason : HyperhdrAdapterReason

pub record HyperhdrControlSettings : Type 0 where
  pub enabled : Bool
  pub allowed_operations : List HyperhdrOperation

pub data Effect : Type 0 where
  audited : AuditEvent → AuditReason → Option HyperhdrOperation → Effect
  executed : HyperhdrOperation → Effect
  invalidated : Effect

abbrev pub Adapter : Type 0
Adapter = ℕ → HyperhdrOperation → Option HyperhdrAdapterResult

pub record HyperhdrControlService : Type 0 where
  pub settings : EndpointSettings
  pub controls : HyperhdrControlSettings
  pub authentication_enabled : Bool
  pub adapter : Option Adapter
  pub limiter : LoginAttemptLimiter
  pub operation_locked : Bool
  pub gate_taken : Bool
  pub gate_depth : ℕ
  pub effects : List Effect

abbrev pub Answer : Type 0
Answer = HyperhdrControlService × HyperhdrControlResult

abbrev operation_number : HyperhdrOperation → ℕ
operation_number grabber_enable = 0
operation_number grabber_disable = 1
operation_number output_enable = 2
operation_number output_disable = 3

abbrev pub same_operation : HyperhdrOperation → HyperhdrOperation → Bool
same_operation a b = operation_number a == operation_number b

-- `available_operations`, of which every operation has a contract.
unfoldable pub is_available : HyperhdrControlService → HyperhdrOperation → Bool
is_available s operation =
    s.authentication_enabled
    && s.settings.enabled
    && is_some s.settings.host
    && is_some s.settings.port
    && s.controls.enabled
    && any (same_operation operation) s.controls.allowed_operations

-- `availability`
unfoldable pub availability : HyperhdrControlService → HyperhdrControlAvailability
availability s =
    if not s.authentication_enabled
    then authentication_unavailable
    else if not s.settings.enabled || not (is_some s.settings.host) || not (is_some s.settings.port)
    then hyperhdr_unavailable
    else if not s.controls.enabled
    then HyperhdrControlAvailability.controls_disabled
    else if is_available s grabber_enable
        || is_available s grabber_disable
        || is_available s output_enable
        || is_available s output_disable
    then available
    else no_operations

abbrev pub is_blocked : HyperhdrControlAvailability → Bool
is_blocked available = false
is_blocked no_operations = false
is_blocked _ = true

abbrev pub append_effect : HyperhdrControlService → Effect → HyperhdrControlService
append_effect s e = record s { effects = s.effects ++ e ∷ [] }

-- `emit_operation`
abbrev pub emit_operation :
    HyperhdrControlService → AuditEvent → AuditReason → HyperhdrOperation → HyperhdrControlService
emit_operation s event reason operation = append_effect s (audited event reason (some operation))

-- `_deny`
abbrev pub deny : HyperhdrControlService → HyperhdrOperation → AuditReason → Answer
deny s operation reason = (
  emit_operation s hyperhdr_operation_denied reason operation,
  record { status = denied; reason = reason },
)

-- `_authentication_failure`; the service with the reason of a failure, if there is one.
unfoldable pub authentication_failure :
    HyperhdrControlService → Option SessionContext → Option Token → Option AuditReason
authentication_failure s none csrf = some authentication_required
authentication_failure s (some session) none =
    if not s.authentication_enabled then some authentication_required else some missing_csrf
authentication_failure s (some session) (some csrf) =
    if not s.authentication_enabled
    then some authentication_required
    else if csrf_is_valid session csrf
    then none
    else some invalid_csrf

-- The entry that `_authentication_failure` writes before it denies for a CSRF token.
abbrev pub csrf_entries : AuditReason → List Effect
csrf_entries reason = if is_csrf_reason reason then audited csrf_rejected reason none ∷ [] else []

abbrev pub refuse_request : HyperhdrControlService → HyperhdrOperation → AuditReason → Answer
refuse_request s operation reason =
    deny (record s { effects = s.effects ++ csrf_entries reason }) operation reason

abbrev pub expect_text : String → Option String → Option AuditReason
expect_text expected none = some missing_confirmation
expect_text expected (some text) = if str_eq text expected then none else some invalid_confirmation

-- The confirmation that disabling needs.
unfoldable pub confirmation_failure : HyperhdrOperation → Option String → Option AuditReason
confirmation_failure grabber_disable confirmation =
    expect_text "confirm_video_grabber_disable" confirmation
confirmation_failure output_disable confirmation =
    expect_text "confirm_led_output_disable" confirmation
confirmation_failure _ confirmation = none

-- `_confirmation_denied`
abbrev pub confirmation_denied : HyperhdrControlService → HyperhdrOperation → AuditReason → Answer
confirmation_denied s operation reason = (
  emit_operation s hyperhdr_confirmation_rejected reason operation,
  record { status = denied; reason = reason },
)

abbrev pub busy_result : HyperhdrControlService → HyperhdrOperation → Answer
busy_result s operation = (
  emit_operation s hyperhdr_operation_busy operation_in_progress operation,
  record { status = busy; reason = operation_in_progress },
)

-- `_ADAPTER_AUDIT_REASONS`, with what `_execute` takes for a reason that it lacks.
abbrev pub audit_reason : HyperhdrAdapterReason → AuditReason
audit_reason verified = AuditReason.connection_failure
audit_reason connection_failure = AuditReason.connection_failure
audit_reason timeout = AuditReason.timeout
audit_reason http_rejection = AuditReason.http_rejection
audit_reason redirect_rejection = AuditReason.redirect_rejection
audit_reason unauthorized_response = AuditReason.unauthorized_response
audit_reason oversized_response = AuditReason.oversized_response
audit_reason malformed_json = AuditReason.malformed_json
audit_reason non_object_json = AuditReason.malformed_json
audit_reason missing_success = AuditReason.missing_success
audit_reason success_wrong_type = AuditReason.invalid_success
audit_reason success_false = AuditReason.invalid_success
audit_reason mismatched_command = AuditReason.command_mismatch
audit_reason verification_connection_failure = AuditReason.connection_failure
audit_reason verification_timeout = AuditReason.timeout
audit_reason verification_http_rejection = AuditReason.http_rejection
audit_reason verification_redirect_rejection = AuditReason.redirect_rejection
audit_reason verification_unauthorized_response = AuditReason.unauthorized_response
audit_reason verification_oversized_response = AuditReason.oversized_response
audit_reason verification_malformed_response = AuditReason.malformed_json
audit_reason missing_component_state = AuditReason.missing_component_state
audit_reason ambiguous_component_state = AuditReason.ambiguous_component_state
audit_reason state_verification_mismatch = AuditReason.state_verification_mismatch

-- The end of `_execute`, with the adapter's result.
unfoldable pub conclude :
    HyperhdrControlService → HyperhdrOperation → HyperhdrAdapterResult → Answer
conclude s operation a =
    if a.verified
    then (
      append_effect (emit_operation s hyperhdr_operation_succeeded AuditReason.verified operation)
          invalidated,
      record { status = WledControlStatus.verified; reason = AuditReason.verified },
    )
    else if a.acknowledged
    then (
      emit_operation s hyperhdr_state_verification_failed (audit_reason a.reason) operation,
      record { status = unverified; reason = audit_reason a.reason },
    )
    else (
      emit_operation s hyperhdr_operation_failed (audit_reason a.reason) operation,
      record { status = failed; reason = audit_reason a.reason },
    )

abbrev pub answer : Option HyperhdrAdapterResult → HyperhdrAdapterResult
answer none = record { verified = false; acknowledged = false; reason = connection_failure }
answer (some a) = a

-- What the locked part of `_execute` ends with: a result, or the answer of the adapter.
abbrev pub Locked : Type 0
Locked = HyperhdrControlService × (HyperhdrControlResult ⊎ HyperhdrAdapterResult)

abbrev pub returning : Answer → Locked
returning (s, r) = (s, inl r)

-- What runs under both locks.
unfoldable pub call_adapter : HyperhdrControlService → HyperhdrOperation → Option Adapter → Locked
call_adapter s operation none = returning (deny s operation AuditReason.controls_disabled)
call_adapter s operation (some f) =
    (append_effect s (executed operation), inr (answer (f (length s.effects) operation)))

-- The release of the operation lock.
abbrev pub release_lock : Locked → Locked
release_lock (s, r) = (record s { operation_locked = false }, r)

-- What runs under the mutation gate.
unfoldable pub lock_operation : HyperhdrControlService → HyperhdrOperation → Locked
lock_operation s operation =
    if s.operation_locked
    then returning (busy_result s operation)
    else release_lock (call_adapter (record s { operation_locked = true }) operation s.adapter)

-- The release of the mutation gate, and the conclusion where the adapter has answered.
unfoldable pub release_gate : HyperhdrOperation → Locked → Answer
release_gate operation (s, inl r) = (record s { gate_depth = s.gate_depth - 1 }, r)
release_gate operation (s, inr a) =
    conclude (record s { gate_depth = s.gate_depth - 1 }) operation a

-- From the mutation gate on.
unfoldable pub pass_gate : HyperhdrControlService → HyperhdrOperation → Answer
pass_gate s operation =
    if s.gate_taken
    then busy_result s operation
    else release_gate operation
        (lock_operation (record s { gate_depth = s.gate_depth + 1 }) operation)

module _ (digest : String → ℕ) (operation : HyperhdrOperation) (client : String) (now : ℕ) where
  -- From the limiter on.
  unfoldable pub pass_limiter : HyperhdrControlService → Answer
  pass_limiter s =
      let (limiter, accepted) = begin_attempt digest s.limiter client now in
      let s' = record s { limiter = limiter } in
      if not accepted
      then (
        emit_operation s' hyperhdr_operation_rate_limited operation_limit operation,
        record { status = rate_limited; reason = operation_limit },
      )
      else pass_gate s' operation

  -- What `_execute` does with an authenticated request.
  unfoldable pub pass_checks : HyperhdrControlService → Option String → Answer
  pass_checks s confirmation =
      if is_blocked (availability s)
      then deny s operation AuditReason.controls_disabled
      else if not (is_available s operation)
      then deny s operation operation_not_allowlisted
      else elim (confirmation_failure operation confirmation) [
        | some reason ↦ confirmation_denied s operation reason
        | none ↦ pass_limiter s
      ]

  -- `_execute`
  unfoldable pub execute :
      HyperhdrControlService → Option SessionContext → Option Token → Option String → Answer
  execute s session csrf confirmation = elim (authentication_failure s session csrf) [
    | some reason ↦ refuse_request s operation reason
    | none ↦ pass_checks s confirmation
  ]

-- `video_grabber_enable`
unfoldable pub enable_grabber :
    (String → ℕ)
    → HyperhdrControlService
    → Option SessionContext
    → Option Token
    → String
    → ℕ
    → Answer
enable_grabber digest s session csrf client now =
    execute digest grabber_enable client now s session csrf none

-- `led_output_enable`
unfoldable pub enable_output :
    (String → ℕ)
    → HyperhdrControlService
    → Option SessionContext
    → Option Token
    → String
    → ℕ
    → Answer
enable_output digest s session csrf client now =
    execute digest output_enable client now s session csrf none

-- `video_grabber_disable`
unfoldable pub disable_grabber :
    (String → ℕ)
    → HyperhdrControlService
    → Option SessionContext
    → Option Token
    → Option String
    → String
    → ℕ
    → Answer
disable_grabber digest s session csrf confirmation client now =
    execute digest grabber_disable client now s session csrf confirmation

-- `led_output_disable`
unfoldable pub disable_output :
    (String → ℕ)
    → HyperhdrControlService
    → Option SessionContext
    → Option Token
    → Option String
    → String
    → ℕ
    → Answer
disable_output digest s session csrf confirmation client now =
    execute digest output_disable client now s session csrf confirmation

-- `audit_denied`
unfoldable audit_denied :
    HyperhdrControlService → HyperhdrOperation → AuditReason → HyperhdrControlService
audit_denied s operation reason = emit_operation s hyperhdr_operation_denied reason operation

-- The property `tracked_client_count`, which cleans the limiter up.
unfoldable count_tracked_clients : HyperhdrControlService → ℕ → HyperhdrControlService × ℕ
count_tracked_clients s now =
    let (limiter, count) = tracked_client_count s.limiter now in
    (record s { limiter = limiter }, count)
