-- ===== src/Hardware/DdpProbe/Blackout.antt =====
-- aurora_core/hardware/ddp_output_probe.py: the datagrams of the blackout.
use mathlib.Core.List.{append-nil}
use mathlib.Core.List.{Sublistᴰ}
use mathlib.Core.List.Sublistᴰ.{slnil, cons, cons-cons}
use project_aurora.Base.{
  ℕ, ◌≤◌, ◌<◌, ◌≡◌, refl, subst, Bool, true, false, String, List, [], ◌∷◌, ◌<◌, Bool-cases, ◌++◌,
  length, length-append, inl, inr, arith,
}
use project_aurora.Hardware.DdpPackets.{Bytes, is_last}
use project_aurora.Hardware.DdpDestination.{SocketAddress}
use project_aurora.Hardware.DdpProbe.{
  returned, interrupted, os_error, other_error, Done, Network, SendStatus, sent, deadline, budget,
  failed, partial, unexpected_status, SocketUseState, control_point,
}
use project_aurora.Hardware.DdpProbe.Effects.{
  at_call, after_send, is_sent, control_point-PointEffect, send_once-SendEffect,
}
use project_aurora.Hardware.DdpProbe.Session.{
  after_before_blackout, after_blackout_point, count_blackout, stops_blackout, between_blackout,
  after_blackout_send, blackout_loop, blackout_phase, prepare_close,
}
use project_aurora.Hardware.DdpProbe.Traffic.{
  Traffic, nothing-Traffic, and_then-Traffic, then_quiet,
}

abbrev pub IsSublist : List Bytes → List Bytes → Type 0
IsSublist = Sublistᴰ

pub Sublist_nil : (xs : List Bytes) → IsSublist [] xs
Sublist_nil [] = slnil
Sublist_nil (x ∷ xs) = cons (Sublist_nil xs)

module _ (net : Network) (address : SocketAddress) (limit : ℕ) where
  abbrev pub BlackoutTraffic : List Bytes → SocketUseState → SocketUseState → Type 0
  BlackoutTraffic packets s t =
      (xs : List Bytes) × IsSublist xs packets × Traffic s t 0 (length xs) xs

  -- A control point sends nothing.
  after_blackout_point-Traffic :
      (name : String) (s : SocketUseState)
      → s.attempts ≤ 4
      → Traffic s (after_blackout_point (control_point net name s)) 0 0 []
  after_blackout_point-Traffic name s low =
      let (c, o, e) = control_point-PointEffect net name s in rw e (go c o)
    where
      go : (c : ℕ) (o : Done) → Traffic s (after_blackout_point (at_call c s, o)) 0 0 []
      go c (returned x) = nothing-Traffic s low
      go c interrupted = nothing-Traffic s low
      go c os_error = nothing-Traffic s low
      go c other_error = nothing-Traffic s low

  between_blackout-Traffic :
      (last : Bool) (s : SocketUseState)
      → s.attempts ≤ 4
      → Traffic s (between_blackout net address limit last s) 0 0 []
  unfolding between_blackout
  between_blackout-Traffic true s low = nothing-Traffic s low
  between_blackout-Traffic false s low =
      after_blackout_point-Traffic "between_blackout_packets" s low

  -- An outcome that the loop has counted, with what was sent for it.
  counted_quiet :
      (s : SocketUseState) (c : ℕ) (o : SendStatus)
      → s.attempts ≤ 4
      → is_sent o ≡ false
      → Traffic s (count_blackout (at_call c s, o)) 0 0 []
  counted_quiet s c sent low quiet = absurd (cc)
  counted_quiet s c deadline low quiet = nothing-Traffic s low
  counted_quiet s c budget low quiet = nothing-Traffic s low
  counted_quiet s c failed low quiet = nothing-Traffic s low
  counted_quiet s c partial low quiet = nothing-Traffic s low
  counted_quiet s c unexpected_status low quiet = nothing-Traffic s low
  counted_quiet s c SendStatus.interrupted low quiet = nothing-Traffic s low

  counted_send :
      (s : SocketUseState) (c : ℕ) (packet : Bytes) (o : SendStatus)
      → s.attempts < 4
      → Traffic s (count_blackout (after_send c packet s, o)) 0 1 (packet ∷ [])
  counted_send s c packet sent low = (refl, omega arith, omega arith, omega arith, omega arith)
  counted_send s c packet deadline low = (refl, omega arith, omega arith, omega arith, omega arith)
  counted_send s c packet budget low = (refl, omega arith, omega arith, omega arith, omega arith)
  counted_send s c packet failed low = (refl, omega arith, omega arith, omega arith, omega arith)
  counted_send s c packet partial low = (refl, omega arith, omega arith, omega arith, omega arith)
  counted_send s c packet unexpected_status low =
      (refl, omega arith, omega arith, omega arith, omega arith)
  counted_send s c packet SendStatus.interrupted low =
      (refl, omega arith, omega arith, omega arith, omega arith)

  -- What the loop does with one outcome: it stops, or goes on with the rest.
  continue_blackout :
      (packet : Bytes) (rest : List Bytes) (s t : SocketUseState) (o : SendStatus) (ys : List Bytes)
      → ((xs : List Bytes) → IsSublist xs rest → IsSublist (ys ++ xs) (packet ∷ rest))
      → Traffic s (count_blackout (t, o)) 0 (length ys) ys
      → ((u : SocketUseState)
          → u.attempts ≤ 4
          → BlackoutTraffic rest u (blackout_loop net address limit rest u))
      → BlackoutTraffic (packet ∷ rest) s (
          after_blackout_send net address limit
            (is_last rest)
            (t, o)
            λ u. blackout_loop net address limit rest u)
  continue_blackout packet rest s t o ys extend moved rest_traffic =
      elim (Bool-cases (stops_blackout o)) [
        | inl stop ↦ rw stop (
          ys,
          subst (λ zs. IsSublist zs (packet ∷ rest)) (append-nil ys) (extend [] (Sublist_nil rest)),
          moved,
        )
        | inr go_on ↦
            let u = count_blackout (t, o) in
            let v = between_blackout net address limit (is_last rest) u in
            let between = between_blackout-Traffic (is_last rest) u moved.2 in
            let to_v : Traffic s v 0 (length ys) ys =
              then_quiet s u v 0 (length ys) ys moved between in
            let (xs, part, moved') = rest_traffic v between.2 in
            rw go_on (
              ys ++ xs,
              extend xs part,
              and_then-Traffic s v (blackout_loop net address limit rest v) 0 (length ys) 0
                  (length xs) 0 (length (ys ++ xs)) ys xs to_v moved' (omega arith)
                  (omega (arith, length-append ys xs)),
            )
      ]

  pub blackout_loop-BlackoutTraffic :
      (packets : List Bytes) (s : SocketUseState)
      → s.attempts ≤ 4
      → BlackoutTraffic packets s (blackout_loop net address limit packets s)
  unfolding blackout_loop
  blackout_loop-BlackoutTraffic [] s low = ([], slnil, nothing-Traffic s low)
  blackout_loop-BlackoutTraffic (packet ∷ rest) s low =
      elim (send_once-SendEffect net address limit packet s) [
        | inl (c, o, quiet, e) ↦ rw e (
            continue_blackout packet rest s (at_call c s) o [] (λ xs part. cons part)
              (counted_quiet s c o low quiet) λ u low'. blackout_loop-BlackoutTraffic rest u low')
        | inr (c, o, left, e) ↦ rw e (
            continue_blackout packet rest s (after_send c packet s) o (packet ∷ [])
              (λ xs part. cons-cons refl part) (counted_send s c packet o left)
              λ u low'. blackout_loop-BlackoutTraffic rest u low')
      ]

  -- "before_blackout"
  after_before_blackout-Traffic :
      (s : SocketUseState)
      → s.attempts ≤ 4
      → Traffic s (after_before_blackout (control_point net "before_blackout" s)) 0 0 []
  after_before_blackout-Traffic s low =
      let (c, o, e) = control_point-PointEffect net "before_blackout" s in rw e (go c o)
    where
      go : (c : ℕ) (o : Done) → Traffic s (after_before_blackout (at_call c s, o)) 0 0 []
      go c (returned x) = nothing-Traffic s low
      go c interrupted = nothing-Traffic s low
      go c os_error = nothing-Traffic s low
      go c other_error = nothing-Traffic s low

  pub blackout_phase-BlackoutTraffic :
      (packets : List Bytes) (s : SocketUseState)
      → s.attempts ≤ 4
      → BlackoutTraffic packets s (blackout_phase net address limit packets s)
  unfolding blackout_phase
  blackout_phase-BlackoutTraffic packets s low =
      let t = record s { blackout_attempted = true } in
      let u = after_before_blackout (control_point net "before_blackout" t) in
      let before : Traffic s u 0 0 [] = after_before_blackout-Traffic t low in
      let (xs, part, moved) = blackout_loop-BlackoutTraffic packets u before.2 in
      (
        xs,
        part,
        and_then-Traffic s u (blackout_loop net address limit packets u) 0 0 0 (length xs) 0
            (length xs) [] xs before moved (omega arith) (omega arith),
      )

  pub prepare_close-quiet :
      (s : SocketUseState) → s.attempts ≤ 4 → Traffic s (prepare_close net address limit s) 0 0 []
  unfolding prepare_close
  prepare_close-quiet s low = after_blackout_point-Traffic "before_close" s low
