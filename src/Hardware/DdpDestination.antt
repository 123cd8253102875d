-- ===== src/Hardware/DdpDestination.antt =====
-- aurora_core/hardware/ddp_output_probe.py: the one destination of a probe, from what the resolver
-- returns. The library ipaddress is the parameter `parse`, which is `none` where it raises; the
-- tests of a value's type are in the cases of `RawAddress`.
use text.Mathlib.Text.{◌==◌ as str_eq}
use project_aurora.Base.{
  ℕ, Bool, true, false, not, ◌&&◌, ◌||◌, Option, none, some, String, List, [], ◌∷◌, if◌then◌else◌,
  ◌==◌, any, ◌⊎◌, inl, inr,
}

-- The address part of a result of getaddrinfo, by its length.
pub data RawAddress : Type 0 where
  pair : String → ℕ → RawAddress
  quadruple : String → ℕ → ℕ → ℕ → RawAddress
  other_tuple : RawAddress

pub record AddressInfo : Type 0 where
  pub family : ℕ
  pub socket_type : ℕ
  pub protocol : ℕ
  pub raw_address : RawAddress

abbrev pub af_inet : ℕ
af_inet = 2

abbrev pub af_inet6 : ℕ
af_inet6 = 10

abbrev pub sock_dgram : ℕ
sock_dgram = 2

abbrev pub ipproto_udp : ℕ
ipproto_udp = 17

-- What the source asks of a parsed address.
pub record IpFacts : Type 0 where
  pub is_multicast : Bool
  pub is_unspecified : Bool
  pub is_limited_broadcast : Bool

pub record IpAddress : Type 0 where
  pub text : String
  pub facts : IpFacts
  pub ipv4_mapped : Option IpFacts

pub record AddressParser : Type 0 where
  pub ipv4 : String → Option IpAddress
  pub ipv6 : String → Option IpAddress

pub data SocketAddress : Type 0 where
  inet_address : String → ℕ → SocketAddress
  inet6_address : String → ℕ → ℕ → ℕ → SocketAddress

pub record ResolvedDestination : Type 0 where
  pub family : ℕ
  pub address : SocketAddress

abbrev pub is_unsafe : IpFacts → Bool
is_unsafe f = f.is_multicast || f.is_unspecified || f.is_limited_broadcast

abbrev pub is_unsafe_ipv6 : IpAddress → Bool
is_unsafe_ipv6 a =
    a.facts.is_multicast
    || a.facts.is_unspecified
    || elim a.ipv4_mapped [ none ↦ false | some mapped ↦ is_unsafe mapped ]

-- The end of `_normalize_destination`.
abbrev pub accept : ℕ → SocketAddress → Bool → Bool → Option ResolvedDestination × Bool
accept family address port_fits unsafe =
    if not port_fits
    then (none, false)
    else if unsafe
    then (none, true)
    else (some (record { family = family; address = address }), false)

abbrev pub normalize_inet : AddressParser → RawAddress → ℕ → Option ResolvedDestination × Bool
normalize_inet parser (pair host port) expected_port = elim (parser.ipv4 host) [
  | none ↦ (none, false)
  | some a ↦ accept af_inet (inet_address a.text port) (port == expected_port) (is_unsafe a.facts)
]
normalize_inet parser _ expected_port = (none, false)

abbrev pub normalize_inet6 : AddressParser → RawAddress → ℕ → Option ResolvedDestination × Bool
normalize_inet6 parser (quadruple host port flowinfo scope_id) expected_port =
    elim (parser.ipv6 host) [
      | none ↦ (none, false)
      | some a ↦
          accept af_inet6 (inet6_address a.text port flowinfo scope_id) (port == expected_port)
            (is_unsafe_ipv6 a)
    ]
normalize_inet6 parser _ expected_port = (none, false)

-- `_normalize_destination`
unfoldable pub normalize_destination :
    AddressParser → AddressInfo → ℕ → Option ResolvedDestination × Bool
normalize_destination parser info expected_port =
    if not (info.family == af_inet || info.family == af_inet6)
      || not (info.socket_type == sock_dgram)
      || not (info.protocol == 0 || info.protocol == ipproto_udp)
    then (none, false)
    else if info.family == af_inet
    then normalize_inet parser info.raw_address expected_port
    else normalize_inet6 parser info.raw_address expected_port

abbrev pub same_address : SocketAddress → SocketAddress → Bool
same_address (inet_address a p) (inet_address b q) = str_eq a b && p == q
same_address (inet6_address a p f s) (inet6_address b q g t) =
    str_eq a b && p == q && f == g && s == t
same_address _ _ = false

abbrev pub same_destination : ResolvedDestination → ResolvedDestination → Bool
same_destination a b = a.family == b.family && same_address a.address b.address

-- The dict `unique`, of which only the keys count.
unfoldable pub add_unique :
    Option ResolvedDestination → List ResolvedDestination → List ResolvedDestination
add_unique none unique = unique
add_unique (some d) unique = if any (same_destination d) unique then unique else d ∷ unique

-- The loop of `_resolve`.
unfoldable pub collect_destinations :
    AddressParser
    → ℕ
    → List AddressInfo
    → List ResolvedDestination × Bool
    → List ResolvedDestination × Bool
collect_destinations parser port [] found = found
collect_destinations parser port (info ∷ rest) (unique, unsafe_destination) =
    let (normalized, unsafe) = normalize_destination parser info port in
    collect_destinations parser port rest
      (add_unique normalized unique, unsafe_destination || unsafe)

-- The end of `_resolve`: a destination, or a reason.
unfoldable pub choose_destination : List ResolvedDestination × Bool → ResolvedDestination ⊎ String
choose_destination (unique, true) = inr "destination_not_unicast"
choose_destination ([], false) = inr "destination_resolution_failed"
choose_destination (d ∷ [], false) = inl d
choose_destination (d ∷ e ∷ rest, false) = inr "destination_resolution_ambiguous"
