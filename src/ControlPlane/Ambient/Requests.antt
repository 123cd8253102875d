-- ===== src/ControlPlane/Ambient/Requests.antt =====
-- aurora_core/control_plane/ambient_service.py: which requests reach the children.
use project_aurora.Base.{
  ℕ, ◌≡◌, refl, ap, ◌∙◌, arith, Bool, true, false, Option, none, some, String, [], ◌++◌, ◌⊎◌, inl,
  inr, Bool-cases,
}
use project_aurora.ControlPlane.Audit.{AuditReason}
use project_aurora.ControlPlane.Limiter.{begin_attempt}
use project_aurora.ControlPlane.Sessions.{SessionContext, Token, csrf_is_valid}
use project_aurora.ControlPlane.Ambient.{
  AmbientControlService, AmbientControlStatus, AuroraOperation, denied, busy, rate_limited, Run,
  finish, is_allowed, offers_operation, run_operation,
}
use project_aurora.ControlPlane.Ambient.Gate.{run_operation-gate_depth}
use project_aurora.ControlPlane.Ambient.Request.{
  authenticated_request, confirmation_failure, csrf_entries, turn_away, take_gate, release_gate,
  pass_gate, pass_limiter, pass_checks, execute,
}

abbrev pub is_refusal : AmbientControlStatus → Bool
is_refusal denied = true
is_refusal busy = true
is_refusal rate_limited = true
is_refusal _ = false

module _ (digest : String → ℕ) (operation : AuroraOperation) (client : String)
    (now child_now : ℕ) where
  -- A request that called no child.
  abbrev pub IsTurnedAway : AmbientControlService → Run → Type 0
  IsTurnedAway s (s', r) =
      (is_refusal r.status ≡ true)
      × (r.attempted_steps ≡ [])
      × (r.verified_steps ≡ [])
      × (s'.wled ≡ s.wled)
      × (s'.hyperhdr ≡ s.hyperhdr)

  -- The state in which the children are called: the attempt is counted and the gate is held.
  abbrev pub under_gate : AmbientControlService → AmbientControlService
  under_gate s = take_gate (record s { limiter = (begin_attempt digest s.limiter client now).0 })

  -- A request that passed every check.
  abbrev pub IsAdmitted :
      AmbientControlService → SessionContext → Token → Option AuditReason → Run → Type 0
  IsAdmitted s session csrf failure run =
      (s.settings.enabled ≡ true)
      × (is_allowed s operation ≡ true)
      × (offers_operation s operation ≡ true)
      × (failure ≡ none)
      × ((begin_attempt digest s.limiter client now).1 ≡ true)
      × (s.wled.gate_taken ≡ false)
      × (run
          ≡ release_gate
              (run_operation digest session csrf client child_now operation (under_gate s)))

  pass_checks-IsAdmitted :
      (s : AmbientControlService) (session : SessionContext) (csrf : Token)
      (failure : Option AuditReason)
      → IsTurnedAway s (pass_checks digest operation client now child_now s session csrf failure)
        ⊎ IsAdmitted s session csrf failure
            (pass_checks digest operation client now child_now s session csrf failure)
  unfolding pass_checks pass_limiter pass_gate finish
  pass_checks-IsAdmitted s session csrf (some reason) = elim (Bool-cases s.settings.enabled) [
    | inr off ↦ inl (simp off (refl, refl, refl, refl, refl))
    | inl on ↦ elim (Bool-cases (is_allowed s operation)) [
      | inr other ↦ inl (simp (on, other) (refl, refl, refl, refl, refl))
      | inl allowed ↦ elim (Bool-cases (offers_operation s operation)) [
        | inr missing ↦ inl (simp (on, allowed, missing) (refl, refl, refl, refl, refl))
        | inl offered ↦ inl (simp (on, allowed, offered) (refl, refl, refl, refl, refl))
      ]
    ]
  ]
  pass_checks-IsAdmitted s session csrf none = elim (Bool-cases s.settings.enabled) [
    | inr off ↦ inl (simp off (refl, refl, refl, refl, refl))
    | inl on ↦ elim (Bool-cases (is_allowed s operation)) [
      | inr other ↦ inl (simp (on, other) (refl, refl, refl, refl, refl))
      | inl allowed ↦ elim (Bool-cases (offers_operation s operation)) [
        | inr missing ↦ inl (simp (on, allowed, missing) (refl, refl, refl, refl, refl))
        | inl offered ↦ elim (Bool-cases (begin_attempt digest s.limiter client now).1) [
          | inr full ↦ inl (simp (on, allowed, offered, full) (refl, refl, refl, refl, refl))
          | inl free ↦ elim (Bool-cases s.wled.gate_taken) [
            | inl taken ↦
                inl (simp (on, allowed, offered, free, taken) (refl, refl, refl, refl, refl))
            | inr idle ↦ inr (
              on,
              allowed,
              offered,
              refl,
              free,
              idle,
              simp (on, allowed, offered, free, idle) refl,
            )
          ]
        ]
      ]
    ]
  ]

  -- The session and the CSRF token of a request that is authenticated.
  abbrev pub IsAuthenticated :
      AmbientControlService → Option SessionContext → Option Token → SessionContext → Token → Type 0
  IsAuthenticated s session csrf session' csrf' =
      (s.authentication_enabled ≡ true)
      × (session ≡ some session')
      × (csrf ≡ some csrf')
      × (csrf_is_valid session' csrf' ≡ true)

  abbrev Known :
      AmbientControlService
      → Option SessionContext
      → Option Token
      → AuditReason ⊎ (SessionContext × Token)
      → Type 0
  Known s session csrf (inl reason) = Unit
  Known s session csrf (inr (session', csrf')) = IsAuthenticated s session csrf session' csrf'

  authenticated_request-Known :
      (s : AmbientControlService) (session : Option SessionContext) (csrf : Option Token)
      → Known s session csrf (authenticated_request s session csrf)
  unfolding authenticated_request
  authenticated_request-Known s none csrf = tt
  authenticated_request-Known s (some session) none = elim (Bool-cases s.authentication_enabled) [
    | inl on ↦ simp on tt
    | inr off ↦ simp off tt
  ]
  authenticated_request-Known s (some session) (some csrf) =
      elim (Bool-cases s.authentication_enabled) [
        | inr off ↦ simp off tt
        | inl on ↦ elim (Bool-cases (csrf_is_valid session csrf)) [
          | inr wrong ↦ simp (on, wrong) tt
          | inl right ↦ simp (on, right) (refl, refl, refl, refl)
        ]
      ]

  -- A request either is turned away, or is authenticated and passes every check.
  abbrev pub IsGuarded :
      AmbientControlService → Option SessionContext → Option Token → Option String → Run → Type 0
  IsGuarded s session csrf confirmation run =
      IsTurnedAway s run
      ⊎ ((session' : SessionContext) × (csrf' : Token) × IsAuthenticated s session csrf session'
            csrf'
          × IsAdmitted s session' csrf' (confirmation_failure operation confirmation) run)

  -- Any request: either it is denied, busy or over the limit of attempts, calls no child and leaves
  -- both services as they were; or it carries a session with its CSRF token, authentication and
  -- the controls are enabled, the operation is allowed and all its children are available,
  -- switching off is confirmed, the limiter accepts and the gate is free, and then its children
  -- are run under the gate.
  pub execute-IsGuarded :
      (s : AmbientControlService) (session : Option SessionContext) (csrf : Option Token)
      (confirmation : Option String)
      → IsGuarded s session csrf confirmation
          (execute digest operation client now child_now s session csrf confirmation)
  unfolding execute finish
  execute-IsGuarded s session csrf confirmation =
      go (authenticated_request s session csrf) (authenticated_request-Known s session csrf)
    where
      go :
          (q : AuditReason ⊎ (SessionContext × Token))
          → Known s session csrf q
          → IsGuarded s session csrf confirmation (elim q [
            | inl reason ↦
                turn_away (record s { log = s.log ++ csrf_entries reason }) operation denied reason
            | inr (session', csrf') ↦
                pass_checks digest operation client now child_now s session' csrf'
                  (confirmation_failure operation confirmation)
          ])
      go (inl reason) known = inl (refl, refl, refl, refl, refl)
      go (inr (session', csrf')) known =
          elim (pass_checks-IsAdmitted s session' csrf'
            (confirmation_failure operation confirmation)) [
              | inl away ↦ inl away
              | inr admitted ↦ inr (session', csrf', known, admitted)
            ]

  -- Every request leaves the shared gate as deeply held as it found it.
  pub execute-gate_depth :
      (s : AmbientControlService) (session : Option SessionContext) (csrf : Option Token)
      (confirmation : Option String)
      → (execute digest operation client now child_now s session csrf
          confirmation).0.wled.gate_depth
        ≡ s.wled.gate_depth
  execute-gate_depth s session csrf confirmation =
      elim (execute-IsGuarded s session csrf confirmation) [
        | inl (refused, none_tried, none_verified, same_wled, same_calls) ↦
            ap (λ w. w.gate_depth) same_wled
        | inr (session', csrf', known, (on, allowed, offered, sure, free, idle, runs)) ↦
            let kept =
              run_operation-gate_depth digest session' csrf' client child_now operation
                (under_gate s) in
            ap (λ run. run.0.wled.gate_depth) runs ∙ omega (arith, kept)
      ]
