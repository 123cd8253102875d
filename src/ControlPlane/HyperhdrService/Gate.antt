-- ===== src/ControlPlane/HyperhdrService/Gate.antt =====
-- aurora_core/control_plane/hyperhdr_service.py: the mutation gate that a request takes and releases.
use project_aurora.Base.{
  ℕ, ◌+◌, ◌-◌, inl, inr, Bool, true, false, not, Option, none, some, String, arith, ◌≡◌, refl,
  Bool-cases, if◌then◌else◌,
}
use project_aurora.ControlPlane.Audit.{AuditReason}
use project_aurora.ControlPlane.Limiter.{begin_attempt}
use project_aurora.ControlPlane.Sessions.{SessionContext, Token}
use project_aurora.ControlPlane.HyperhdrService.{
  HyperhdrOperation, HyperhdrControlService, HyperhdrAdapterResult, Answer, Adapter, Locked,
  is_available, availability, is_blocked, deny, authentication_failure, refuse_request,
  confirmation_failure, confirmation_denied, busy_result, conclude, call_adapter, lock_operation,
  release_gate, pass_gate, pass_limiter, pass_checks, execute,
}

conclude-gate_depth :
    (s : HyperhdrControlService) (operation : HyperhdrOperation) (a : HyperhdrAdapterResult)
    → (conclude s operation a).0.gate_depth ≡ s.gate_depth
unfolding conclude
conclude-gate_depth s operation a = elim (Bool-cases a.verified) [
  | inl done ↦ simp done refl
  | inr unsure ↦ elim (Bool-cases a.acknowledged) [
    | inl heard ↦ simp (unsure, heard) refl
    | inr unheard ↦ simp (unsure, unheard) refl
  ]
]

call_adapter-gate_depth :
    (s : HyperhdrControlService) (operation : HyperhdrOperation) (f : Option Adapter)
    → (call_adapter s operation f).0.gate_depth ≡ s.gate_depth
unfolding call_adapter
call_adapter-gate_depth s operation none = refl
call_adapter-gate_depth s operation (some f) = refl

lock_operation-gate_depth :
    (s : HyperhdrControlService) (operation : HyperhdrOperation)
    → (lock_operation s operation).0.gate_depth ≡ s.gate_depth
unfolding lock_operation
lock_operation-gate_depth s operation = elim (Bool-cases s.operation_locked) [
  | inl held ↦ simp held refl
  | inr idle ↦
      simp idle (call_adapter-gate_depth (record s { operation_locked = true }) operation s.adapter)
]

release_gate-gate_depth :
    (operation : HyperhdrOperation) (l : Locked)
    → (release_gate operation l).0.gate_depth ≡ l.0.gate_depth - 1
unfolding release_gate
release_gate-gate_depth operation (s, inl r) = refl
release_gate-gate_depth operation (s, inr a) = conclude-gate_depth _ operation a

pass_gate-gate_depth :
    (s : HyperhdrControlService) (operation : HyperhdrOperation)
    → (pass_gate s operation).0.gate_depth ≡ s.gate_depth
unfolding pass_gate
pass_gate-gate_depth s operation = go s.gate_taken
  where
    go :
        (taken : Bool)
        → let run : Answer =
            if taken
            then busy_result s operation
            else release_gate operation
                (lock_operation (record s { gate_depth = s.gate_depth + 1 }) operation) in
          run.0.gate_depth ≡ s.gate_depth
    go true = refl
    go false =
        let t = record s { gate_depth = s.gate_depth + 1 } in
        let locked = lock_operation-gate_depth t operation in
        let released = release_gate-gate_depth operation (lock_operation t operation) in
        omega (arith, locked, released)

module _ (digest : String → ℕ) (operation : HyperhdrOperation) (client : String) (now : ℕ) where
  pass_limiter-gate_depth :
      (s : HyperhdrControlService)
      → (pass_limiter digest operation client now s).0.gate_depth ≡ s.gate_depth
  unfolding pass_limiter
  pass_limiter-gate_depth s = elim (Bool-cases (begin_attempt digest s.limiter client now).1) [
    | inl free ↦ simp free (pass_gate-gate_depth _ operation)
    | inr full ↦ simp full refl
  ]

  pass_checks-gate_depth :
      (s : HyperhdrControlService) (confirmation : Option String)
      → (pass_checks digest operation client now s confirmation).0.gate_depth ≡ s.gate_depth
  unfolding pass_checks
  pass_checks-gate_depth s confirmation =
      go (is_blocked (availability s)) (is_available s operation)
        (confirmation_failure operation confirmation)
    where
      go :
          (blocked listed : Bool) (failure : Option AuditReason)
          → let run : Answer =
              if blocked
              then deny s operation AuditReason.controls_disabled
              else if not listed
              then deny s operation AuditReason.operation_not_allowlisted
              else elim failure [
                | some reason ↦ confirmation_denied s operation reason
                | none ↦ pass_limiter digest operation client now s
              ] in
            run.0.gate_depth ≡ s.gate_depth
      go true listed failure = refl
      go false false failure = refl
      go false true (some reason) = refl
      go false true none = pass_limiter-gate_depth s

  pub execute-gate_depth_kept :
      (s : HyperhdrControlService) (session : Option SessionContext) (csrf : Option Token)
      (confirmation : Option String)
      → (execute digest operation client now s session csrf confirmation).0.gate_depth
        ≡ s.gate_depth
  unfolding execute
  execute-gate_depth_kept s session csrf confirmation = go (authentication_failure s session csrf)
    where
      go :
          (failure : Option AuditReason)
          → let run : Answer = elim failure [
            | some reason ↦ refuse_request s operation reason
            | none ↦ pass_checks digest operation client now s confirmation
          ] in
            run.0.gate_depth ≡ s.gate_depth
      go (some reason) = refl
      go none = pass_checks-gate_depth s confirmation
