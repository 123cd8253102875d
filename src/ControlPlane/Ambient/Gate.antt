-- ===== src/ControlPlane/Ambient/Gate.antt =====
-- aurora_core/control_plane/ambient_service.py: the shared gate across the calls of the children.
use project_aurora.Base.{
  ℕ, ◌≡◌, refl, ◌∙◌, Option, none, some, String, List, [], ◌∷◌, ◌++◌, inl, inr, Bool-cases,
}
use project_aurora.ControlPlane.Sessions.{SessionContext, Token}
use project_aurora.ControlPlane.WledService.{WledOperation, no_operation_input, turn_on, turn_off}
use project_aurora.ControlPlane.WledService.Guards.{execute-Outcome}
use project_aurora.ControlPlane.HyperhdrService
use project_aurora.ControlPlane.HyperhdrService.{
  HyperhdrOperation, enable_grabber, disable_grabber, enable_output, disable_output, grabber_enable,
  grabber_disable, output_enable, output_disable,
}
use project_aurora.ControlPlane.HyperhdrService.Gate.{execute-gate_depth_kept}
use project_aurora.ControlPlane.Ambient.{
  lend_gate, AmbientControlService, AmbientControlStep, AuroraOperation, ambient_on, ambient_off,
  finish, video_grabber_enable, wled_power_on, led_output_enable, led_output_disable,
  video_grabber_disable, wled_power_off, child_verified, call_child, run_steps, run_ambient_on,
  conclude_off, run_off_rest, after_output, run_ambient_off, run_operation,
}

module _ (digest : String → ℕ) (session : SessionContext) (csrf : Token) (client : String)
    (now : ℕ) where
  hyperhdr_kept :
      (s : AmbientControlService) (operation : HyperhdrOperation) (confirmation : Option String)
      → (HyperhdrService.execute digest operation client now
          (lend_gate s)
          (some session)
          (some csrf)
          confirmation).0.gate_depth
        ≡ s.wled.gate_depth
  hyperhdr_kept s operation confirmation =
      execute-gate_depth_kept digest operation client now (lend_gate s) (some session) (some csrf)
        confirmation

  call_child-gate_depth :
      (s : AmbientControlService) (step : AmbientControlStep)
      → (call_child digest session csrf client now s step).0.wled.gate_depth ≡ s.wled.gate_depth
  unfolding call_child turn_on turn_off enable_grabber disable_grabber enable_output disable_output
  call_child-gate_depth s wled_power_on =
      (execute-Outcome digest s.wled WledOperation.power_on no_operation_input client now
        (some session) (some csrf) none).gate_released
  call_child-gate_depth s wled_power_off =
      (execute-Outcome digest s.wled WledOperation.power_off no_operation_input client now
        (some session) (some csrf) (some "confirm_power_off")).gate_released
  call_child-gate_depth s video_grabber_enable = hyperhdr_kept s grabber_enable none
  call_child-gate_depth s led_output_enable = hyperhdr_kept s output_enable none
  call_child-gate_depth s led_output_disable =
      hyperhdr_kept s output_disable (some "confirm_led_output_disable")
  call_child-gate_depth s video_grabber_disable =
      hyperhdr_kept s grabber_disable (some "confirm_video_grabber_disable")

  run_steps-gate_depth :
      (rest before : List AmbientControlStep) (s : AmbientControlService)
      → (run_steps digest session csrf client now rest before s).0.wled.gate_depth
        ≡ s.wled.gate_depth
  unfolding run_steps finish
  run_steps-gate_depth [] before s = refl
  run_steps-gate_depth (step ∷ rest) before s =
      let (s', result) = call_child digest session csrf client now s step in
      let kept = call_child-gate_depth s step in
      elim (Bool-cases (child_verified result)) [
        | inl good ↦ rw good (run_steps-gate_depth rest (before ++ step ∷ []) s' ∙ kept)
        | inr bad ↦ rw bad kept
      ]

  pub run_operation-gate_depth :
      (operation : AuroraOperation) (s : AmbientControlService)
      → (run_operation digest session csrf client now operation s).0.wled.gate_depth
        ≡ s.wled.gate_depth
  unfolding run_operation run_ambient_on run_ambient_off after_output run_off_rest conclude_off
      finish
  run_operation-gate_depth ambient_on s = run_steps-gate_depth _ [] s
  run_operation-gate_depth ambient_off s =
      let (t, led) = call_child digest session csrf client now s led_output_disable in
      let (u, grabber) = call_child digest session csrf client now t video_grabber_disable in
      let first = call_child-gate_depth s led_output_disable in
      elim (Bool-cases (child_verified led)) [
        | inl good ↦ rw good (
            call_child-gate_depth u wled_power_off
            ∙ call_child-gate_depth t video_grabber_disable
            ∙ first)
        | inr bad ↦ rw bad first
      ]
