-- ===== src/Hardware/DdpProbe/Traffic.antt =====
-- aurora_core/hardware/ddp_output_probe.py: the datagrams that the phases hand to the socket.
use mathlib.Core.List.{append-nil, append_assoc}
use project_aurora.Base.{
  ℕ, ◌+◌, ◌≤◌, ◌<◌, ◌≡◌, refl, sym, ap, ◌∙◌, false, List, [], ◌∷◌, ◌++◌, length, length-append, inl,
  inr, arith,
}
use project_aurora.Hardware.DdpPackets.{Bytes}
use project_aurora.Hardware.DdpDestination.{SocketAddress}
use project_aurora.Hardware.DdpProbe.{
  returned, interrupted, os_error, other_error, Done, Network, SendStatus, sent, deadline, budget,
  failed, partial, unexpected_status, SocketUseState,
}
use project_aurora.Hardware.DdpProbe.Effects.{
  at_call, after_send, is_sent, PointEffect, control_point-PointEffect, send_once-SendEffect,
}
use project_aurora.Hardware.DdpProbe.Session.{after_test_point, after_test_send, test_phase}

abbrev pub IsPrefix : List Bytes → List Bytes → Type 0
IsPrefix xs ys = (rest : List Bytes) × (xs ++ rest ≡ ys)

-- From one state to another, `xs` were sent, each within the budget; at most `a` of them are
-- counted for the test frame, and at most `b` for the blackout.
abbrev pub Traffic : SocketUseState → SocketUseState → ℕ → ℕ → List Bytes → Type 0
Traffic s t a b xs =
    (t.sends ≡ s.sends ++ xs)
    × (t.attempts ≡ s.attempts + length xs)
    × (t.attempts ≤ 4)
    × (t.test_sent ≤ s.test_sent + a)
    × (t.blackout_sent ≤ s.blackout_sent + b)

pub nothing-Traffic : (s : SocketUseState) → s.attempts ≤ 4 → Traffic s s 0 0 []
nothing-Traffic s low = (sym (append-nil s.sends), omega arith, low, omega arith, omega arith)

pub and_then-Traffic :
    (s t u : SocketUseState) (a b a' b' k l : ℕ) (xs ys : List Bytes)
    → Traffic s t a b xs
    → Traffic t u a' b' ys
    → a + a' ≤ k
    → b + b' ≤ l
    → Traffic s u k l (xs ++ ys)
and_then-Traffic s t u a b a' b' k l xs ys (e, n, low, p, q) (e', n', low', p', q') h h' = (
  e' ∙ ap (λ zs. zs ++ ys) e ∙ append_assoc s.sends xs ys,
  omega (arith, length-append xs ys, n, n'),
  low',
  omega (arith, p, p'),
  omega (arith, q, q'),
)

pub then_quiet :
    (s t u : SocketUseState) (a b : ℕ) (xs : List Bytes)
    → Traffic s t a b xs
    → Traffic t u 0 0 []
    → Traffic s u a b xs
then_quiet s t u a b xs (e, n, low, p, q) (e', n', low', p', q') = (
  e' ∙ append-nil t.sends ∙ e,
  omega (arith, n, n'),
  low',
  omega (arith, p, p'),
  omega (arith, q, q'),
)

module _ (net : Network) (address : SocketAddress) (limit : ℕ) where
  abbrev pub TestTraffic : List Bytes → SocketUseState → SocketUseState → Type 0
  TestTraffic packets s t = (xs : List Bytes) × IsPrefix xs packets × Traffic s t (length xs) 0 xs

  -- The state's first packet was sent; what follows is either nothing or the rest of the phase.
  continue_test :
      (packet : Bytes) (rest : List Bytes) (s : SocketUseState) (c : ℕ) (r : SocketUseState × Done)
      → s.attempts < 4
      → PointEffect (after_send c packet s) r
      → ((t : SocketUseState)
          → t.attempts ≤ 4
          → TestTraffic rest t (test_phase net address limit rest t))
      → TestTraffic (packet ∷ rest) s (after_test_point r λ t. test_phase net address limit rest t)
  continue_test packet rest s c r low (d, o, e) rest_traffic = rw e (go o)
    where
      stopped : Traffic s (after_send d packet s) 1 0 (packet ∷ [])
      stopped = (refl, omega arith, omega arith, omega arith, omega arith)

      go :
          (o : Done)
          → TestTraffic (packet ∷ rest) s (
              after_test_point
                (at_call d (after_send c packet s), o)
                λ t. test_phase net address limit rest t)
      go (returned x) =
          let t = record (after_send d packet s) { test_sent = s.test_sent + 1 } in
          let (xs, (more, e), moved) = rest_traffic t (omega arith) in
          let first : Traffic s t 1 0 (packet ∷ []) =
            (refl, omega arith, omega arith, omega arith, omega arith) in
          (
            packet ∷ xs,
            (more, ap (λ ys. packet ∷ ys) e),
            and_then-Traffic s t (test_phase net address limit rest t) 1 0 (length xs) 0
                (length (packet ∷ xs)) 0 (packet ∷ []) xs first moved (omega arith) (omega arith),
          )
      go interrupted = (packet ∷ [], (rest, refl), stopped)
      go os_error = (packet ∷ [], (rest, refl), stopped)
      go other_error = (packet ∷ [], (rest, refl), stopped)

  pub test_phase-TestTraffic :
      (packets : List Bytes) (s : SocketUseState)
      → s.attempts ≤ 4
      → TestTraffic packets s (test_phase net address limit packets s)
  unfolding test_phase
  test_phase-TestTraffic [] s low = ([], ([], refl), nothing-Traffic s low)
  test_phase-TestTraffic (packet ∷ rest) s low =
      elim (send_once-SendEffect net address limit packet s) [
        | inl (c, o, quiet, e) ↦ rw e (unsent c o quiet)
        | inr (c, o, left, e) ↦ rw e (tried (λ t low'. test_phase-TestTraffic rest t low') c o left)
      ]
    where
      nothing : (c : ℕ) → Traffic s (at_call c s) 0 0 []
      nothing c = nothing-Traffic s low

      after : SocketUseState × SendStatus → SocketUseState
      after r = after_test_send net address limit r λ t. test_phase net address limit rest t

      unsent :
          (c : ℕ) (o : SendStatus)
          → is_sent o ≡ false
          → TestTraffic (packet ∷ rest) s (after (at_call c s, o))
      unsent c sent quiet = absurd (cc)
      unsent c deadline quiet = ([], (packet ∷ rest, refl), nothing c)
      unsent c budget quiet = ([], (packet ∷ rest, refl), nothing c)
      unsent c failed quiet = ([], (packet ∷ rest, refl), nothing c)
      unsent c partial quiet = ([], (packet ∷ rest, refl), nothing c)
      unsent c unexpected_status quiet = ([], (packet ∷ rest, refl), nothing c)
      unsent c SendStatus.interrupted quiet = ([], (packet ∷ rest, refl), nothing c)

      one : (c : ℕ) → s.attempts < 4 → Traffic s (after_send c packet s) 1 0 (packet ∷ [])
      one c left = (refl, omega arith, omega arith, omega arith, omega arith)

      tried :
          ((t : SocketUseState)
            → t.attempts ≤ 4
            → TestTraffic rest t (test_phase net address limit rest t))
          → (c : ℕ) (o : SendStatus) → s.attempts < 4
          → TestTraffic (packet ∷ rest) s (after (after_send c packet s, o))
      tried rest_traffic c sent left =
          continue_test packet rest s c _ left (control_point-PointEffect net "after_test_send" _)
            rest_traffic
      tried rest_traffic c deadline left = (packet ∷ [], (rest, refl), one c left)
      tried rest_traffic c budget left = (packet ∷ [], (rest, refl), one c left)
      tried rest_traffic c failed left = (packet ∷ [], (rest, refl), one c left)
      tried rest_traffic c partial left = (packet ∷ [], (rest, refl), one c left)
      tried rest_traffic c unexpected_status left = (packet ∷ [], (rest, refl), one c left)
      tried rest_traffic c SendStatus.interrupted left = (packet ∷ [], (rest, refl), one c left)
