-- ===== src/ControlPlane/WledService/Outcomes.antt =====
-- aurora_core/control_plane/wled_service.py: what a request does under the locks.
use project_aurora.Base.{
  ℕ, suc, ◌+◌, ◌≤◌, ◌≡◌, refl, sym, ◌∙◌, ap, Bool, true, false, ◌⊎◌, inl, inr, Option, none, some,
  List, [], ◌∷◌, ◌++◌, arith, if◌then◌else◌, Bool-cases,
}
use mathlib.Core.List.{append_assoc}
use project_aurora.ControlPlane.Audit.{
  AuditEvent, AuditReason, wled_operation_succeeded, wled_operation_failed,
  wled_state_verification_failed,
}
use project_aurora.ControlPlane.Limiter.{LoginAttemptLimiter}
use project_aurora.ControlPlane.WledService.{
  WledOperation, WledControlStatus, WledControlResult, AdapterResult, OperationInput, Effect,
  audited, executed, invalidated, WledControlService, emit_operation, is_verification_failure,
  audit_reason, conclude, Adapter, busy_result, busy_locked, release_lock, release_gate,
  call_adapter, lock_operation, pass_gate,
}

abbrev pub calls : List Effect → ℕ
calls [] = 0
calls (executed o i ∷ es) = suc (calls es)
calls (_ ∷ es) = calls es

abbrev pub invalidations : List Effect → ℕ
invalidations [] = 0
invalidations (invalidated ∷ es) = suc (invalidations es)
invalidations (_ ∷ es) = invalidations es

abbrev pub is_verified : WledControlStatus → Bool
is_verified WledControlStatus.verified = true
is_verified _ = false

-- What a request does: its effects follow the earlier ones, both locks are as before, the adapter
-- is called once at most, and only where `P`, and the cache is invalidated once exactly if the
-- result is VERIFIED.
pub record Outcome (P : Type 0) (s : WledControlService)
    (r : WledControlService × WledControlResult) : Type 0 where
  pub news : List Effect
  pub log_grows : r.0.effects ≡ s.effects ++ news
  pub gate_released : r.0.gate_depth ≡ s.gate_depth
  pub lock_released : r.0.operation_locked ≡ s.operation_locked
  pub called_once : calls news ≤ 1
  pub called_permitted : (calls news ≡ 0) ⊎ P
  pub invalidated_verified : invalidations news ≡ (if is_verified r.1.status then 1 else 0)

-- One audit entry, and a result that is not VERIFIED.
pub emit_operation-Outcome :
    (P : Type 0) (s : WledControlService) (e : AuditEvent) (reason : AuditReason)
    (operation : WledOperation) (r : WledControlResult)
    → is_verified r.status ≡ false
    → Outcome P s (emit_operation s e reason operation, r)
emit_operation-Outcome P s e reason operation r h = record {
  news = audited e reason (some operation) ∷ [];
  log_grows = refl;
  gate_released = refl;
  lock_released = refl;
  called_once = omega arith;
  called_permitted = inl refl;
  invalidated_verified = rw h refl;
}

pub grow : (l m es : List Effect) (x : Effect) → l ≡ m ++ es → l ++ x ∷ [] ≡ m ++ (es ++ x ∷ [])
grow l m es x h = ap (λ k. k ++ x ∷ []) h ∙ append_assoc m es (x ∷ [])

-- The adapter was called, and its answer is concluded from.
conclude-Outcome :
    (P : Type 0) (s t : WledControlService) (operation : WledOperation) (input : OperationInput)
    (a : AdapterResult)
    → t.effects ≡ s.effects ++ executed operation input ∷ []
    → t.gate_depth ≡ s.gate_depth
    → t.operation_locked ≡ s.operation_locked
    → P
    → Outcome P s (conclude t operation a)
unfolding conclude
conclude-Outcome P s t operation input a log gate lock p = elim (Bool-cases a.verified) [
  | inl good ↦ simp good (record {
    news =
        executed operation input
        ∷ audited wled_operation_succeeded AuditReason.verified (some operation)
        ∷ invalidated
        ∷ [];
    log_grows = grow _ s.effects _ invalidated (grow _ s.effects _ _ log);
    gate_released = gate;
    lock_released = lock;
    called_once = omega arith;
    called_permitted = inr p;
    invalidated_verified = refl;
  })
  | inr bad ↦ elim (Bool-cases (is_verification_failure a.reason)) [
    | inl v ↦
        simp (bad, v)
          (record {
            news =
                executed operation input
                ∷ audited wled_state_verification_failed (audit_reason a.reason) (some operation)
                ∷ [];
            log_grows = grow _ s.effects _ _ log;
            gate_released = gate;
            lock_released = lock;
            called_once = omega arith;
            called_permitted = inr p;
            invalidated_verified = refl;
          })
    | inr f ↦
        simp (bad, f)
          (record {
            news =
                executed operation input
                ∷ audited wled_operation_failed (audit_reason a.reason) (some operation)
                ∷ [];
            log_grows = grow _ s.effects _ _ log;
            gate_released = gate;
            lock_released = lock;
            called_once = omega arith;
            called_permitted = inr p;
            invalidated_verified = refl;
          })
  ]
]

-- The state in which the gate was taken, seen from outside.
abbrev within : WledControlService → WledControlService
within s = record s { gate_depth = s.gate_depth + 1 }

-- One audit entry under the gate.
within-Outcome :
    (P : Type 0) (s : WledControlService) (e : AuditEvent) (reason : AuditReason)
    (operation : WledOperation) (r : WledControlResult) (b : Bool)
    → is_verified r.status ≡ false
    → b ≡ s.operation_locked
    → Outcome P s (
        release_gate operation
          (record (emit_operation (within s) e reason operation) { operation_locked = b }, inl r))
within-Outcome P s e reason operation r b h lock = record {
  news = audited e reason (some operation) ∷ [];
  log_grows = refl;
  gate_released = omega arith;
  lock_released = lock;
  called_once = omega arith;
  called_permitted = inl refl;
  invalidated_verified = rw h refl;
}

call_adapter-Outcome :
    (P : Type 0) (s : WledControlService) (operation : WledOperation) (input : OperationInput)
    (o : Option Adapter)
    → s.operation_locked ≡ false
    → P
    → Outcome P s (
        release_gate operation (
          release_lock
            (call_adapter (record (within s) { operation_locked = true }) operation input o)))
unfolding call_adapter
call_adapter-Outcome P s operation input none lock p =
    within-Outcome P s _ _ operation _ false refl (sym lock)
call_adapter-Outcome P s operation input (some f) lock p =
    conclude-Outcome P s _ operation input _ refl (omega arith) (sym lock) p

lock_operation-Outcome :
    (P : Type 0) (s : WledControlService) (operation : WledOperation) (input : OperationInput)
    → (s.operation_locked ≡ false → P)
    → Outcome P s (release_gate operation (lock_operation (within s) operation input))
unfolding lock_operation
lock_operation-Outcome P s operation input p = go s.operation_locked refl
  where
    go :
        (b : Bool)
        → s.operation_locked ≡ b
        → Outcome P s (
            release_gate operation (
              if b
              then busy_locked (within s) operation
              else release_lock (
                  call_adapter
                    (record (within s) { operation_locked = true })
                    operation
                    input
                    s.adapter)))
    go true e = within-Outcome P s _ _ operation _ s.operation_locked refl refl
    go false e = call_adapter-Outcome P s operation input s.adapter e (p e)

pub pass_gate-Outcome :
    (P : Type 0) (s : WledControlService) (operation : WledOperation) (input : OperationInput)
    → (s.gate_taken ≡ false → s.operation_locked ≡ false → P)
    → Outcome P s (pass_gate s operation input)
unfolding pass_gate
pass_gate-Outcome P s operation input p = go s.gate_taken refl
  where
    go :
        (b : Bool)
        → s.gate_taken ≡ b
        → Outcome P s (
            if b
            then busy_result s operation
            else release_gate operation (lock_operation (within s) operation input))
    go true e = emit_operation-Outcome P s _ _ operation _ refl
    go false e = lock_operation-Outcome P s operation input (p e)

-- The limiter is no part of an outcome.
pub limited-Outcome :
    (P : Type 0) (s : WledControlService) (l : LoginAttemptLimiter)
    (r : WledControlService × WledControlResult)
    → Outcome P (record s { limiter = l }) r
    → Outcome P s r
limited-Outcome P s l r o = record {
  news = o.news;
  log_grows = o.log_grows;
  gate_released = o.gate_released;
  lock_released = o.lock_released;
  called_once = o.called_once;
  called_permitted = o.called_permitted;
  invalidated_verified = o.invalidated_verified;
}

pub weaken-Outcome :
    (P Q : Type 0) (s : WledControlService) (r : WledControlService × WledControlResult)
    → (P → Q)
    → Outcome P s r
    → Outcome Q s r
weaken-Outcome P Q s r f o = record {
  news = o.news;
  log_grows = o.log_grows;
  gate_released = o.gate_released;
  lock_released = o.lock_released;
  called_once = o.called_once;
  called_permitted = elim o.called_permitted [ inl n ↦ inl n | inr p ↦ inr (f p) ];
  invalidated_verified = o.invalidated_verified;
}
