-- ===== src/ControlPlane/Ambient/Off.antt =====
-- aurora_core/control_plane/ambient_service.py: the run that switches off.
use mathlib.Core.List.{append_assoc}
use project_aurora.Base.{
  ℕ, ◌≡◌, refl, sym, ap, ◌∙◌, Bool, true, false, ◌&&◌, Option, String, List, [], ◌∷◌, ◌++◌, ◌⊎◌,
  inl, inr, if◌then◌else◌, Bool-cases,
}
use project_aurora.ControlPlane.Ambient.Runs.{
  Call, steps_of, verified_of, entries_of, steps, is_failure, IsLogged, Performs, Performing,
  PerformsAll, call_child-Performs, aggregate_fails, verified_same, log_more, call_child-log,
}
use project_aurora.ControlPlane.Sessions.{SessionContext, Token}
use project_aurora.ControlPlane.Ambient.{
  AmbientControlService, AmbientControlStep, ambient_off, completed, partially_completed,
  led_output_disable, video_grabber_disable, wled_power_off, ChildResult, Effect, called, Run,
  finish, child_verified, call_child, conclude_off, run_off_rest, after_output, run_ambient_off,
}

abbrev pub all_verified : List Call → Bool
all_verified [] = true
all_verified ((step, result) ∷ calls) = child_verified result && all_verified calls

-- The run stopped at the LED output, or it went on to the grabber and to WLED.
abbrev pub IsRunOff : Performing → AmbientControlService → Run → Type 0
IsRunOff P s (s', r) =
    (calls : List Call) × IsLogged ambient_off s calls (s', r)
    × PerformsAll P calls s s'
    × (r.attempted_steps ≡ steps_of calls)
    × (r.verified_steps ≡ verified_of calls)
    × (((steps_of calls ≡ led_output_disable ∷ [])
          × (verified_of calls ≡ [])
          × (is_failure r.status ≡ true))
        ⊎ ((steps_of calls ≡ steps ambient_off)
            × ((rest : List AmbientControlStep) × (verified_of calls ≡ led_output_disable ∷ rest))
            × (r.status ≡ (if all_verified calls then completed else partially_completed))))

module _ (digest : String → ℕ) (session : SessionContext) (csrf : Token) (client : String)
    (now : ℕ) where
  conclude_off-IsRunOff :
      (s v : AmbientControlService) (led grabber wled : Option ChildResult)
      → child_verified led ≡ true
      → v.log
        ≡ s.log
          ++ (called led_output_disable led
              ∷ called video_grabber_disable grabber
              ∷ called wled_power_off wled
              ∷ [])
      → PerformsAll
          (Performs digest session csrf client now)
          ((led_output_disable, led)
            ∷ (video_grabber_disable, grabber)
            ∷ (wled_power_off, wled)
            ∷ [])
          s
          v
      → IsRunOff
          (Performs digest session csrf client now)
          s
          (conclude_off digest session csrf client now v grabber wled)
  unfolding conclude_off finish
  conclude_off-IsRunOff s v led grabber wled first logged done =
      elim (Bool-cases (child_verified grabber)) [
        | inl g ↦ elim (Bool-cases (child_verified wled)) [
          | inl w ↦
              let found : verified_of calls ≡ steps ambient_off = rw (first, g, w) refl in
              let alike : all_verified calls ≡ true = rw (first, g, w) refl in
              rw (g, w)
                (calls, (_, entry _), done, refl, sym found, inr (refl, (_, found), rw alike refl))
          | inr w ↦
              let found : verified_of calls ≡ led_output_disable ∷ video_grabber_disable ∷ [] =
                rw (first, g, w) refl in
              let alike : all_verified calls ≡ false = rw (first, g, w) refl in
              rw (g, w)
                (calls, (_, entry _), done, refl, sym found, inr (refl, (_, found), rw alike refl))
        ]
        | inr g ↦ elim (Bool-cases (child_verified wled)) [
          | inl w ↦
              let found : verified_of calls ≡ led_output_disable ∷ wled_power_off ∷ [] =
                rw (first, g, w) refl in
              let alike : all_verified calls ≡ false = rw (first, g) refl in
              rw (g, w)
                (calls, (_, entry _), done, refl, sym found, inr (refl, (_, found), rw alike refl))
          | inr w ↦
              let found : verified_of calls ≡ led_output_disable ∷ [] = rw (first, g, w) refl in
              let alike : all_verified calls ≡ false = rw (first, g) refl in
              rw (g, w)
                (calls, (_, entry _), done, refl, sym found, inr (refl, (_, found), rw alike refl))
        ]
      ]
    where
      calls : List Call
      calls =
          (led_output_disable, led) ∷ (video_grabber_disable, grabber) ∷ (wled_power_off, wled) ∷ []

      entry : (x : Effect) → v.log ++ x ∷ [] ≡ s.log ++ (entries_of calls ++ x ∷ [])
      entry x = ap (λ k. k ++ x ∷ []) logged ∙ append_assoc s.log (entries_of calls) (x ∷ [])

  -- Switching off asks the HyperHDR service to disable its output first, with its confirmation. If
  -- that is not verified nothing else is called, and the status is a failure. Else the HyperHDR
  -- service is asked to disable the grabber and the WLED service to power off, each with its
  -- confirmation and whatever the first answers; the status is COMPLETED if both are verified,
  -- else PARTIALLY_COMPLETED. The result lists the steps that the log shows as called and those
  -- that were verified. The last entry of the log is its audit event.
  pub run_ambient_off-IsRunOff :
      (s : AmbientControlService)
      → IsRunOff
          (Performs digest session csrf client now)
          s
          (run_ambient_off digest session csrf client now s)
  unfolding run_ambient_off after_output run_off_rest finish
  run_ambient_off-IsRunOff s =
      let (t, led) = call_child digest session csrf client now s led_output_disable in
      let (u, grabber) = call_child digest session csrf client now t video_grabber_disable in
      let (v, wled) = call_child digest session csrf client now u wled_power_off in
      let performs = call_child-Performs digest session csrf client now in
      let logged = call_child-log digest session csrf client now s led_output_disable in
      let log_u = call_child-log digest session csrf client now t video_grabber_disable in
      let log_v = call_child-log digest session csrf client now u wled_power_off in
      elim (Bool-cases (child_verified led)) [
        | inl first ↦
            let log =
              log_more s.log t.log _ _ (called led_output_disable led)
                (log_more t.log u.log _ _ (called video_grabber_disable grabber) log_v log_u)
                logged in
            rw first (
              conclude_off-IsRunOff s v led grabber wled first log (
                t,
                performs s led_output_disable,
                (u, performs t video_grabber_disable, (v, performs u wled_power_off, (refl, refl))),
              ))
        | inr bad ↦
            let kept = verified_same led_output_disable led [] bad in
            rw bad (
              (led_output_disable, led) ∷ [],
              (_, log_more s.log t.log _ _ (called led_output_disable led) refl logged),
              (t, performs s led_output_disable, (refl, refl)),
              refl,
              sym kept,
              inl (refl, kept, aggregate_fails led bad),
            )
      ]
