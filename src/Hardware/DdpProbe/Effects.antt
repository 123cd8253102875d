-- ===== src/Hardware/DdpProbe/Effects.antt =====
-- aurora_core/hardware/ddp_output_probe.py: what one call of `_control_point` or `_send_once`
-- changes in the state.
use project_aurora.Base.{
  ℕ, ◌+◌, ◌<◌, ◌≡◌, refl, Bool, true, false, Option, none, some, String, [], ◌∷◌, ◌++◌, leb, ◌⊎◌,
  inl, inr, arith, Bool-cases,
}
use project_aurora.Hardware.DdpPackets.{Bytes}
use project_aurora.Hardware.DdpDestination.{SocketAddress}
use project_aurora.Hardware.DdpProbe.{
  Outcome, returned, interrupted, os_error, other_error, Done, Network, SendStatus, sent, deadline,
  budget, SocketUseState, called, control_point, transmit, armed, timed, send_once,
}

-- Only calls were made, none of them of `sendto`.
abbrev pub at_call : ℕ → SocketUseState → SocketUseState
at_call c s = record s { calls = c }

abbrev pub after_send : ℕ → Bytes → SocketUseState → SocketUseState
after_send c packet s = record s {
  calls = c;
  attempts = s.attempts + 1;
  sends = s.sends ++ packet ∷ [];
}

abbrev pub is_sent : SendStatus → Bool
is_sent sent = true
is_sent _ = false

abbrev pub PointEffect : SocketUseState → SocketUseState × Done → Type 0
PointEffect s r = (c : ℕ) × (o : Done) × (r ≡ (at_call c s, o))

pub control_point-PointEffect :
    (net : Network) (name : String) (s : SocketUseState) → PointEffect s (control_point net name s)
unfolding control_point
control_point-PointEffect net name s = go net.control_hook
  where
    go :
        (hook : Option (ℕ → String → Done))
        → PointEffect s
            (elim hook [ none ↦ (s, returned tt) | some f ↦ (called s, f s.calls name) ])
    go none = (s.calls, returned tt, refl)
    go (some f) = (s.calls + 1, f s.calls name, refl)

-- Without a hook a control point does nothing.
pub control_point_quiet :
    (net : Network)
    → net.control_hook ≡ none
    → (name : String) (s : SocketUseState) → control_point net name s ≡ (s, returned tt)
unfolding control_point
control_point_quiet net unhooked name s = go net.control_hook unhooked
  where
    go :
        (hook : Option (ℕ → String → Done))
        → hook ≡ none
        → let quiet : SocketUseState × Done = (s, returned tt) in
          elim hook [ none ↦ quiet | some f ↦ (called s, f s.calls name) ] ≡ quiet
    go none e = refl
    go (some f) e = absurd (cc)

abbrev pub SendEffect : Bytes → SocketUseState → SocketUseState × SendStatus → Type 0
SendEffect packet s r =
    ((c : ℕ) × (o : SendStatus) × (is_sent o ≡ false) × (r ≡ (at_call c s, o)))
    ⊎ ((c : ℕ) × (o : SendStatus) × (s.attempts < 4) × (r ≡ (after_send c packet s, o)))

module _ (net : Network) (address : SocketAddress) (limit : ℕ) (packet : Bytes) where
  armed-SendEffect :
      (s : SocketUseState) (c : ℕ) (o : Done)
      → s.attempts < 4
      → SendEffect packet s (armed net address packet (at_call c s, o))
  unfolding armed transmit
  armed-SendEffect s c (returned x) low = inr (c + 1, _, low, refl)
  armed-SendEffect s c interrupted low = inl (c, _, refl, refl)
  armed-SendEffect s c os_error low = inl (c, _, refl, refl)
  armed-SendEffect s c other_error low = inl (c, _, refl, refl)

  timed-SendEffect :
      (s : SocketUseState) (c : ℕ) (o : Outcome ℕ)
      → SendEffect packet s (timed net address limit packet (at_call c s, o))
  unfolding timed
  timed-SendEffect s c (returned now) = elim (Bool-cases (leb limit now)) [
    | inl late ↦ rw late (inl (c, deadline, refl, refl))
    | inr early ↦ elim (Bool-cases (leb 4 s.attempts)) [
      | inl spent ↦ rw (early, spent) (inl (c, budget, refl, refl))
      | inr left ↦
          let low : s.attempts < 4 = ground arith in
          rw (early, left) (armed-SendEffect s (c + 1) _ low)
    ]
  ]
  timed-SendEffect s c interrupted = inl (c, _, refl, refl)
  timed-SendEffect s c os_error = inl (c, _, refl, refl)
  timed-SendEffect s c other_error = inl (c, _, refl, refl)

  pub send_once-SendEffect :
      (s : SocketUseState) → SendEffect packet s (send_once net address limit packet s)
  unfolding send_once
  send_once-SendEffect s = timed-SendEffect s (s.calls + 1) (net.monotonic s.calls)
