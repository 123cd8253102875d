-- ===== src/ControlPlane/WledService/Guards.antt =====
-- aurora_core/control_plane/wled_service.py: the gates in front of the adapter.
use project_aurora.Base.{
  ℕ, ◌≤◌, ◌≡◌, refl, Bool, true, false, not, inl, Option, none, some, String, [], ◌∷◌, ◌++◌, arith,
  if◌then◌else◌, leb, ◌&&◌,
}
use project_aurora.ControlPlane.Audit.{
  AuditReason, wled_operation_rate_limited, operation_limit, csrf_rejected, wled_operation_denied,
}
use project_aurora.ControlPlane.Limiter.{LoginAttemptLimiter, begin_attempt}
use project_aurora.ControlPlane.Sessions.{SessionContext, Token}
use project_aurora.ControlPlane.WledService.{
  WledOperation, brightness_set, WledControlStatus, OperationInput, brightness_input,
  no_operation_input, audited, WledControlService, emit_operation, is_available, availability,
  is_blocked, authentication_failure, confirmation_failure, too_bright, deny, confirmation_denied,
  refuse_request, is_csrf_reason, pass_gate, pass_limiter, pass_checks, execute, set_brightness,
}
use project_aurora.ControlPlane.WledService.Outcomes.{
  Outcome, emit_operation-Outcome, grow, pass_gate-Outcome, limited-Outcome, weaken-Outcome,
}

module _ (digest : String → ℕ) (s : WledControlService) (operation : WledOperation)
    (input : OperationInput) (client : String) (now : ℕ) where
  pass_limiter-Outcome :
      (P : Type 0)
      → ((begin_attempt digest s.limiter client now).1 ≡ true
          → s.gate_taken ≡ false
          → s.operation_locked ≡ false
          → P)
      → Outcome P s (pass_limiter digest s operation input client now)
  unfolding pass_limiter
  pass_limiter-Outcome P p = go (begin_attempt digest s.limiter client now) p
    where
      go :
          (b : LoginAttemptLimiter × Bool)
          → (b.1 ≡ true → s.gate_taken ≡ false → s.operation_locked ≡ false → P)
          → Outcome P s (
              if not b.1
              then (
                emit_operation
                    (record s { limiter = b.0 })
                    wled_operation_rate_limited
                    operation_limit
                    operation,
                record { status = WledControlStatus.rate_limited; reason = operation_limit },
              )
              else pass_gate (record s { limiter = b.0 }) operation input)
      go (l, false) q =
          limited-Outcome P s l _
            (emit_operation-Outcome P (record s { limiter = l }) _ _ operation _ refl)
      go (l, true) q =
          limited-Outcome P s l _
            (pass_gate-Outcome P (record s { limiter = l }) operation input (q refl))

  -- Every gate in front of the adapter.
  pub record IsPermitted (session : Option SessionContext) (csrf : Option Token)
      (confirmation : Option String) : Type 0 where
    pub authenticated : authentication_failure s session csrf ≡ none
    pub operation_available : is_available s operation ≡ true
    pub confirmed : confirmation_failure operation confirmation ≡ none
    pub brightness_allowed : too_bright s.controls.maximum_brightness input ≡ false
    pub within_limit : (begin_attempt digest s.limiter client now).1 ≡ true
    pub gate_free : s.gate_taken ≡ false
    pub operation_free : s.operation_locked ≡ false

  pass_checks-Outcome :
      (session : Option SessionContext) (csrf : Option Token) (confirmation : Option String)
      → authentication_failure s session csrf ≡ none
      → Outcome
          (IsPermitted session csrf confirmation)
          s
          (pass_checks digest s operation input client now confirmation)
  unfolding pass_checks
  pass_checks-Outcome session csrf confirmation known =
      go (is_blocked (availability s)) (is_available s operation)
        (confirmation_failure operation confirmation)
        (too_bright s.controls.maximum_brightness input) refl refl refl
    where
      go :
          (blocked listed : Bool) (failure : Option AuditReason) (bright : Bool)
          → is_available s operation ≡ listed
          → confirmation_failure operation confirmation ≡ failure
          → too_bright s.controls.maximum_brightness input ≡ bright
          → Outcome (IsPermitted session csrf confirmation) s (
              if blocked
              then deny s operation AuditReason.controls_disabled
              else if not listed
              then deny s operation AuditReason.operation_not_allowlisted
              else elim failure [
                | some reason ↦ confirmation_denied s operation reason
                | none ↦
                    if bright
                    then deny s operation AuditReason.invalid_brightness
                    else pass_limiter digest s operation input client now
              ])
      go true listed failure bright a c t = emit_operation-Outcome _ s _ _ operation _ refl
      go false false failure bright a c t = emit_operation-Outcome _ s _ _ operation _ refl
      go false true (some reason) bright a c t = emit_operation-Outcome _ s _ _ operation _ refl
      go false true none true a c t = emit_operation-Outcome _ s _ _ operation _ refl
      go false true none false a c t = pass_limiter-Outcome _ λ l g o. record {
        authenticated = known;
        operation_available = a;
        confirmed = c;
        brightness_allowed = t;
        within_limit = l;
        gate_free = g;
        operation_free = o;
      }

  -- A refusal writes at most two entries.
  refuse_request-Outcome :
      (P : Type 0) (reason : AuditReason) → Outcome P s (refuse_request s operation reason)
  refuse_request-Outcome P reason = go (is_csrf_reason reason)
    where
      go :
          (b : Bool)
          → Outcome P s (
              deny
                (record s {
                  effects = s.effects ++ (if b then audited csrf_rejected reason none ∷ [] else []);
                })
                operation
                reason)
      go true = record {
        news =
            audited csrf_rejected reason none
            ∷ audited wled_operation_denied reason (some operation)
            ∷ [];
        log_grows = grow _ s.effects _ _ refl;
        gate_released = refl;
        lock_released = refl;
        called_once = omega arith;
        called_permitted = inl refl;
        invalidated_verified = refl;
      }
      go false = record {
        news = audited wled_operation_denied reason (some operation) ∷ [];
        log_grows = grow _ s.effects [] _ refl;
        gate_released = refl;
        lock_released = refl;
        called_once = omega arith;
        called_permitted = inl refl;
        invalidated_verified = refl;
      }

  -- Whatever a request carries: it adds effects to the log and releases both locks; the adapter is
  -- called once at most, and only when the session is authenticated with its CSRF token, the
  -- operation is enabled and allowed, powering off is confirmed, the brightness is within the
  -- maximum, the limiter accepts, and nobody else is at it; the cache is invalidated, once,
  -- exactly if the result is VERIFIED.
  pub execute-Outcome :
      (session : Option SessionContext) (csrf : Option Token) (confirmation : Option String)
      → Outcome
          (IsPermitted session csrf confirmation)
          s
          (execute digest s operation input session csrf client now confirmation)
  unfolding execute
  execute-Outcome session csrf confirmation = go (authentication_failure s session csrf) refl
    where
      go :
          (failure : Option AuditReason)
          → authentication_failure s session csrf ≡ failure
          → Outcome (IsPermitted session csrf confirmation) s (elim failure [
            | some reason ↦ refuse_request s operation reason
            | none ↦ pass_checks digest s operation input client now confirmation
          ])
      go (some reason) e = refuse_request-Outcome _ reason
      go none e = pass_checks-Outcome session csrf confirmation e

-- Setting the brightness adds effects to the log and releases both locks, calls the adapter once at
-- most, and only for a value from 1 to 255 that is no more than the configured maximum, and
-- invalidates the cache, once, exactly if the result is VERIFIED.
pub set_brightness-Outcome :
    (digest : String → ℕ) (s : WledControlService) (session : Option SessionContext)
    (csrf : Option Token) (brightness : ℕ) (client : String) (now : ℕ)
    → Outcome
        ((1 ≤ brightness) × (brightness ≤ 255) × (brightness ≤ s.controls.maximum_brightness))
        s
        (set_brightness digest s session csrf brightness client now)
unfolding set_brightness
set_brightness-Outcome digest s session csrf brightness client now =
    go (authentication_failure s session csrf) (leb 1 brightness && leb brightness 255) refl
  where
    go :
        (failure : Option AuditReason) (b : Bool)
        → (leb 1 brightness && leb brightness 255) ≡ b
        → Outcome
            ((1 ≤ brightness) × (brightness ≤ 255) × (brightness ≤ s.controls.maximum_brightness))
            s
            (elim failure [
              | some reason ↦ refuse_request s brightness_set reason
              | none ↦
                  if not b
                  then deny s brightness_set AuditReason.invalid_brightness
                  else execute digest s brightness_set
                      (brightness_input brightness)
                      session
                      csrf
                      client
                      now
                      none
            ])
    go (some reason) b e =
        refuse_request-Outcome digest s brightness_set no_operation_input client now _ reason
    go none false e = emit_operation-Outcome _ s _ _ brightness_set _ refl
    go none true e =
        weaken-Outcome _ _ s _
          (λ p. (ground arith, ground arith, ground (arith, p.brightness_allowed)))
          (execute-Outcome digest s brightness_set (brightness_input brightness) client now session
            csrf none)
