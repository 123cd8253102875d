-- ===== src/ControlPlane/Ambient/Runs.antt =====
-- aurora_core/control_plane/ambient_service.py: the children that a run calls, and what it reports.
use mathlib.Core.List.{append-nil, append_assoc}
use project_aurora.Base.{
  ℕ, ◌≡◌, refl, sym, ap, ◌∙◌, Bool, true, false, Option, none, some, String, List, [], ◌∷◌, ◌++◌,
  ◌⊎◌, inl, inr, if◌then◌else◌, Bool-cases,
}
use project_aurora.ControlPlane.Audit.{AuditReason}
use project_aurora.ControlPlane.Sessions.{SessionContext, Token}
use project_aurora.ControlPlane.HyperhdrService
use project_aurora.ControlPlane.HyperhdrService.{
  HyperhdrOperation, enable_grabber, disable_grabber, enable_output, disable_output, grabber_enable,
  grabber_disable, output_enable, output_disable,
}
use project_aurora.ControlPlane.WledService
use project_aurora.ControlPlane.WledService.{
  WledControlStatus, WledOperation, no_operation_input, turn_on, turn_off,
}
use project_aurora.ControlPlane.Ambient.{
  AmbientControlService, AmbientControlResult, AmbientControlStatus, AmbientControlStep,
  AuroraOperation, ambient_on, ambient_off, completed, partially_completed, video_grabber_enable,
  wled_power_on, led_output_enable, led_output_disable, video_grabber_disable, wled_power_off,
  ChildResult, Effect, called, audited, Run, finish, event_of, is_verified, child_verified,
  status_of, aggregate_child_status, has_steps, call_child, run_steps, run_ambient_on,
}

-- The calls of children, with their answers.
abbrev pub Call : Type 0
Call = AmbientControlStep × Option ChildResult

abbrev pub steps_of : List Call → List AmbientControlStep
steps_of [] = []
steps_of ((step, result) ∷ calls) = step ∷ steps_of calls

abbrev pub verified_of : List Call → List AmbientControlStep
verified_of [] = []
verified_of ((step, result) ∷ calls) =
    let rest = verified_of calls in if child_verified result then step ∷ rest else rest

abbrev pub entries_of : List Call → List Effect
entries_of [] = []
entries_of ((step, result) ∷ calls) = called step result ∷ entries_of calls

abbrev pub steps : AuroraOperation → List AmbientControlStep
steps ambient_on = video_grabber_enable ∷ wled_power_on ∷ led_output_enable ∷ []
steps ambient_off = led_output_disable ∷ video_grabber_disable ∷ wled_power_off ∷ []

abbrev pub is_failure : AmbientControlStatus → Bool
is_failure completed = false
is_failure partially_completed = false
is_failure _ = true

abbrev pub is_partial : AmbientControlStatus → Bool
is_partial partially_completed = true
is_partial _ = false

-- The status of a run in which some step is not verified.
abbrev pub IsIncomplete : AmbientControlResult → Type 0
IsIncomplete r =
    (if has_steps r.verified_steps then is_partial r.status else is_failure r.status) ≡ true

module _ (digest : String → ℕ) (session : SessionContext) (csrf : Token) (client : String)
    (now : ℕ) where
  -- A request to the HyperHDR service, under the shared gate.
  abbrev pub AsksHyperhdr :
      HyperhdrOperation
      → Option String
      → AmbientControlService
      → AmbientControlService
      → Option ChildResult
      → Type 0
  AsksHyperhdr operation confirmation s t result =
      let run =
        HyperhdrService.execute digest operation client now
          (record s.hyperhdr { gate_taken = s.wled.gate_taken; gate_depth = s.wled.gate_depth })
          (some session) (some csrf) confirmation in
      (result ≡ some run.1)
      × (t.hyperhdr ≡ run.0)
      × (t.wled ≡ record s.wled { gate_depth = run.0.gate_depth })

  -- A request to the WLED service.
  abbrev pub AsksWled :
      WledOperation
      → Option String
      → AmbientControlService
      → AmbientControlService
      → Option ChildResult
      → Type 0
  AsksWled operation confirmation s t result =
      let run =
        WledService.execute digest s.wled operation no_operation_input (some session) (some csrf)
          client now confirmation in
      (result ≡ some run.1) × (t.wled ≡ run.0) × (t.hyperhdr ≡ s.hyperhdr)

  -- What a step asks of which service, with the state before and after and the answer.
  abbrev pub Performs :
      AmbientControlStep
      → AmbientControlService
      → AmbientControlService
      → Option ChildResult
      → Type 0
  Performs video_grabber_enable s t result = AsksHyperhdr grabber_enable none s t result
  Performs wled_power_on s t result = AsksWled WledOperation.power_on none s t result
  Performs led_output_enable s t result = AsksHyperhdr output_enable none s t result
  Performs led_output_disable s t result =
      AsksHyperhdr output_disable (some "confirm_led_output_disable") s t result
  Performs video_grabber_disable s t result =
      AsksHyperhdr grabber_disable (some "confirm_video_grabber_disable") s t result
  Performs wled_power_off s t result =
      AsksWled WledOperation.power_off (some "confirm_power_off") s t result

abbrev pub Performing : Type 1
Performing =
    AmbientControlStep → AmbientControlService → AmbientControlService → Option ChildResult → Type 0

-- The calls, one after the other, lead from the two services of one state to those of another.
abbrev pub PerformsAll :
    Performing → List Call → AmbientControlService → AmbientControlService → Type 0
PerformsAll P [] s t = (t.wled ≡ s.wled) × (t.hyperhdr ≡ s.hyperhdr)
PerformsAll P ((step, result) ∷ calls) s t =
    (u : AmbientControlService) × P step s u result × PerformsAll P calls u t

-- The log of a run: the calls of the children, and then one entry of the parent, of the status.
abbrev pub IsLogged : AuroraOperation → AmbientControlService → List Call → Run → Type 0
IsLogged operation s calls (s', r) =
    (reason : AuditReason) × (s'.log
      ≡ s.log ++ (entries_of calls ++ audited (event_of r.status) reason (some operation) ∷ []))

pub aggregate_fails :
    (result : Option ChildResult)
    → child_verified result ≡ false
    → is_failure (aggregate_child_status result false) ≡ true
unfolding aggregate_child_status
aggregate_fails none e = refl
aggregate_fails (some r) e = go r.status e
  where
    go :
        (status : WledControlStatus)
        → is_verified status ≡ false
        → is_failure (status_of status) ≡ true
    go WledControlStatus.verified e = absurd (cc)
    go WledControlStatus.denied e = refl
    go WledControlStatus.rate_limited e = refl
    go WledControlStatus.busy e = refl
    go WledControlStatus.failed e = refl
    go WledControlStatus.unverified e = refl

aggregate_incomplete :
    (result : Option ChildResult) (before : List AmbientControlStep)
    → child_verified result ≡ false
    → (let status = aggregate_child_status result (has_steps before) in
        if has_steps before then is_partial status else is_failure status)
      ≡ true
unfolding aggregate_child_status
aggregate_incomplete result [] e = aggregate_fails result e
aggregate_incomplete result (step ∷ before) e = refl

pub verified_more :
    (step : AmbientControlStep) (result : Option ChildResult) (calls : List Call)
    → child_verified result ≡ true
    → verified_of ((step, result) ∷ calls) ≡ step ∷ verified_of calls
verified_more step result calls e = rw e refl

pub verified_same :
    (step : AmbientControlStep) (result : Option ChildResult) (calls : List Call)
    → child_verified result ≡ false
    → verified_of ((step, result) ∷ calls) ≡ verified_of calls
verified_same step result calls e = rw e refl

-- One effect, and then others.
pub log_more :
    (l m n xs : List Effect) (x : Effect) → n ≡ m ++ xs → m ≡ l ++ x ∷ [] → n ≡ l ++ x ∷ xs
log_more l m n xs x e f = e ∙ ap (λ k. k ++ xs) f ∙ append_assoc l (x ∷ []) xs

-- The loop of `_run_ambient_on`, from a list of verified steps on.
abbrev pub IsRunOn :
    Performing
    → List AmbientControlStep
    → List AmbientControlStep
    → AmbientControlService
    → Run
    → Type 0
IsRunOn P rest before s (s', r) =
    (calls : List Call) × IsLogged ambient_on s calls (s', r)
    × PerformsAll P calls s s'
    × (r.attempted_steps ≡ before ++ steps_of calls)
    × (r.verified_steps ≡ before ++ verified_of calls)
    × (((r.status ≡ completed) × (verified_of calls ≡ rest) × (steps_of calls ≡ rest))
        ⊎ ((step : AmbientControlStep) × (after : List AmbientControlStep) × (verified_of calls
                ++ step ∷ after
              ≡ rest)
            × (steps_of calls ≡ verified_of calls ++ step ∷ [])
            × IsIncomplete r))

module _ (digest : String → ℕ) (session : SessionContext) (csrf : Token) (client : String)
    (now : ℕ) where
  pub call_child-log :
      (s : AmbientControlService) (step : AmbientControlStep)
      → let (s', result) = call_child digest session csrf client now s step in
        s'.log ≡ s.log ++ called step result ∷ []
  unfolding call_child
  call_child-log s video_grabber_enable = refl
  call_child-log s wled_power_on = refl
  call_child-log s led_output_enable = refl
  call_child-log s led_output_disable = refl
  call_child-log s video_grabber_disable = refl
  call_child-log s wled_power_off = refl

  pub call_child-Performs :
      (s : AmbientControlService) (step : AmbientControlStep)
      → let (t, result) = call_child digest session csrf client now s step in
        Performs digest session csrf client now step s t result
  unfolding call_child turn_on turn_off enable_grabber disable_grabber enable_output disable_output
  call_child-Performs s video_grabber_enable = (refl, refl, refl)
  call_child-Performs s wled_power_on = (refl, refl, refl)
  call_child-Performs s led_output_enable = (refl, refl, refl)
  call_child-Performs s led_output_disable = (refl, refl, refl)
  call_child-Performs s video_grabber_disable = (refl, refl, refl)
  call_child-Performs s wled_power_off = (refl, refl, refl)

  run_steps-IsRunOn :
      (rest before : List AmbientControlStep) (s : AmbientControlService)
      → IsRunOn
          (Performs digest session csrf client now)
          rest
          before
          s
          (run_steps digest session csrf client now rest before s)
  unfolding run_steps finish
  run_steps-IsRunOn [] before s = (
    [],
    (_, refl),
    (refl, refl),
    sym (append-nil before),
    sym (append-nil before),
    inl (refl, refl, refl),
  )
  run_steps-IsRunOn (step ∷ rest) before s =
      let (s', result) = call_child digest session csrf client now s step in
      let logged = call_child-log s step in
      let performed = call_child-Performs s step in
      elim (Bool-cases (child_verified result)) [
        | inl good ↦
            let (calls, (reason, log), more, a, v, shape) =
              run_steps-IsRunOn rest (before ++ step ∷ []) s' in
            let kept = verified_more step result calls good in
            rw good (
              (step, result) ∷ calls,
              (reason, log_more s.log s'.log _ _ (called step result) log logged),
              (s', performed, more),
              a ∙ append_assoc before (step ∷ []) (steps_of calls),
              v
                  ∙ append_assoc before (step ∷ []) (verified_of calls)
                  ∙ ap (λ w. before ++ w) (sym kept),
              elim shape [
                | inl (done, all, tried) ↦
                    inl (done, kept ∙ ap (λ w. step ∷ w) all, ap (λ w. step ∷ w) tried)
                | inr (next, after, all, tried, status) ↦ inr (
                  next,
                  after,
                  ap (λ w. w ++ next ∷ after) kept ∙ ap (λ w. step ∷ w) all,
                  ap (λ w. step ∷ w) tried ∙ ap (λ w. w ++ next ∷ []) (sym kept),
                  status,
                )
              ],
            )
        | inr bad ↦
            let kept = verified_same step result [] bad in
            rw bad (
              (step, result) ∷ [],
              (_, log_more s.log s'.log _ _ (called step result) refl logged),
              (s', performed, (refl, refl)),
              refl,
              sym (append-nil before) ∙ ap (λ w. before ++ w) (sym kept),
              inr (
                step,
                rest,
                ap (λ w. w ++ step ∷ rest) kept,
                ap (λ w. w ++ step ∷ []) (sym kept),
                aggregate_incomplete result before bad,
              ),
            )
      ]

  -- Switching on asks the HyperHDR service to enable the grabber, then the WLED service to power on,
  -- then the HyperHDR service to enable its output, each with the session, the CSRF token and the
  -- shared gate, and stops at the first that is not verified. The result lists the steps that the
  -- log shows as called and those that were verified; it is COMPLETED with all three verified, else
  -- PARTIALLY_COMPLETED if some step was verified and a failure status if none was. The last entry
  -- of the log is its audit event.
  pub run_ambient_on-IsRunOn :
      (s : AmbientControlService)
      → IsRunOn
          (Performs digest session csrf client now)
          (steps ambient_on)
          []
          s
          (run_ambient_on digest session csrf client now s)
  unfolding run_ambient_on
  run_ambient_on-IsRunOn s = run_steps-IsRunOn (steps ambient_on) [] s
