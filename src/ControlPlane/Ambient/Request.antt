-- ===== src/ControlPlane/Ambient/Request.antt =====
-- aurora_core/control_plane/ambient_service.py: `_execute`, from the request to the run of the
-- children under the shared gate.
use text.Mathlib.Text.{◌==◌ as str_eq}
use project_aurora.Base.{
  ℕ, ◌+◌, ◌-◌, not, Option, none, some, String, List, [], ◌∷◌, ◌++◌, ◌⊎◌, inl, inr, if◌then◌else◌,
}
use project_aurora.ControlPlane.Audit.{
  AuditReason, aurora_operation_denied, csrf_rejected, authentication_required, missing_csrf,
  invalid_csrf, operation_not_allowlisted, missing_confirmation, invalid_confirmation,
  operation_limit, operation_in_progress, controls_disabled,
}
use project_aurora.ControlPlane.Limiter.{begin_attempt, tracked_client_count}
use project_aurora.ControlPlane.Sessions.{SessionContext, Token, csrf_is_valid}
use project_aurora.ControlPlane.WledService.{is_csrf_reason}
use project_aurora.ControlPlane.Ambient.{
  AmbientControlService, AmbientControlStatus, AuroraOperation, ambient_on, ambient_off, Run,
  Effect, audited, finish, denied, rate_limited, busy, is_allowed, offers_operation, run_operation,
}

-- `_authentication_failure`: the reason of a failure, or the session with the CSRF token.
unfoldable pub authenticated_request :
    AmbientControlService
    → Option SessionContext
    → Option Token
    → AuditReason ⊎ (SessionContext × Token)
authenticated_request s none csrf = inl authentication_required
authenticated_request s (some session) none =
    if not s.authentication_enabled then inl authentication_required else inl missing_csrf
authenticated_request s (some session) (some csrf) =
    if not s.authentication_enabled
    then inl authentication_required
    else if csrf_is_valid session csrf
    then inr (session, csrf)
    else inl invalid_csrf

-- The entry that `_authentication_failure` writes before it denies for a CSRF token.
abbrev pub csrf_entries : AuditReason → List Effect
csrf_entries reason = if is_csrf_reason reason then audited csrf_rejected reason none ∷ [] else []

-- `_finish` without a step.
abbrev pub turn_away :
    AmbientControlService → AuroraOperation → AmbientControlStatus → AuditReason → Run
turn_away s operation status reason = finish s operation status reason [] []

-- The confirmation that switching off needs.
unfoldable pub confirmation_failure : AuroraOperation → Option String → Option AuditReason
confirmation_failure ambient_on confirmation = none
confirmation_failure ambient_off none = some missing_confirmation
confirmation_failure ambient_off (some text) =
    if str_eq text "confirm_ambient_off" then none else some invalid_confirmation

-- Taking and releasing the shared gate.
abbrev pub take_gate : AmbientControlService → AmbientControlService
take_gate s = record s { wled = record s.wled { gate_depth = s.wled.gate_depth + 1 } }

abbrev pub release_gate : Run → Run
release_gate (s, r) = (record s { wled = record s.wled { gate_depth = s.wled.gate_depth - 1 } }, r)

-- The limiter reads the clock at `now`, and the one of the WLED service at `child_now`.
module _ (digest : String → ℕ) (operation : AuroraOperation) (client : String)
    (now child_now : ℕ) where
  -- From the shared gate on.
  unfoldable pub pass_gate : AmbientControlService → SessionContext → Token → Run
  pass_gate s session csrf =
      if s.wled.gate_taken
      then turn_away s operation busy operation_in_progress
      else release_gate (run_operation digest session csrf client child_now operation (take_gate s))

  -- From the limiter on.
  unfoldable pub pass_limiter : AmbientControlService → SessionContext → Token → Run
  pass_limiter s session csrf =
      let (limiter, accepted) = begin_attempt digest s.limiter client now in
      let s' = record s { limiter = limiter } in
      if not accepted
      then turn_away s' operation rate_limited operation_limit
      else pass_gate s' session csrf

  -- What `_execute` does with an authenticated request, given the failure of its confirmation.
  unfoldable pub pass_checks :
      AmbientControlService → SessionContext → Token → Option AuditReason → Run
  pass_checks s session csrf failure =
      if not s.settings.enabled
      then turn_away s operation denied controls_disabled
      else if not (is_allowed s operation)
      then turn_away s operation denied operation_not_allowlisted
      else if not (offers_operation s operation)
      then turn_away s operation denied controls_disabled
      else elim failure [
        | some reason ↦ turn_away s operation denied reason
        | none ↦ pass_limiter s session csrf
      ]

  -- `_execute`
  unfoldable pub execute :
      AmbientControlService → Option SessionContext → Option Token → Option String → Run
  execute s session csrf confirmation = elim (authenticated_request s session csrf) [
    | inl reason ↦
        turn_away (record s { log = s.log ++ csrf_entries reason }) operation denied reason
    | inr (session', csrf') ↦
        pass_checks s session' csrf' (confirmation_failure operation confirmation)
  ]

-- `ambient_on`
unfoldable pub switch_on :
    (String → ℕ)
    → AmbientControlService
    → Option SessionContext
    → Option Token
    → String
    → ℕ
    → ℕ
    → Run
switch_on digest s session csrf client now child_now =
    execute digest ambient_on client now child_now s session csrf none

-- `ambient_off`
unfoldable pub switch_off :
    (String → ℕ)
    → AmbientControlService
    → Option SessionContext
    → Option Token
    → Option String
    → String
    → ℕ
    → ℕ
    → Run
switch_off digest s session csrf confirmation client now child_now =
    execute digest ambient_off client now child_now s session csrf confirmation

-- `audit_denied`
unfoldable audit_denied :
    AmbientControlService → AuroraOperation → AuditReason → AmbientControlService
audit_denied s operation reason = record s {
  log = s.log ++ audited aurora_operation_denied reason (some operation) ∷ [];
}

-- The property `tracked_client_count`, which cleans the limiter up.
unfoldable count_tracked_clients : AmbientControlService → ℕ → AmbientControlService × ℕ
count_tracked_clients s now =
    let (limiter, count) = tracked_client_count s.limiter now in
    (record s { limiter = limiter }, count)
