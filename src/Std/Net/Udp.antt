-- ===== src/Std/Net/Udp.antt =====
-- The calls that set up a UDP socket. The socket2 and tokio crates hand them to the system, which
-- can refuse each.
use hivebus.Prelude.{Option, none, some, Bool, List, [], ◌∷◌, ◌++◌}
use hivebus.Result.{Result, ok, err}
use hivebus.Std.Net.{Ipv4Addr, SocketAddr}
use hivebus.Std.Text.{Str}

pub data UdpCall : Type 0 where
  create : UdpCall
  set_reuse_address : Bool → UdpCall
  set_reuse_port : Bool → UdpCall
  set_broadcast : Bool → UdpCall
  bind : SocketAddr → UdpCall
  join_multicast_v4 : Ipv4Addr → Ipv4Addr → UdpCall
  set_multicast_loop_v4 : Bool → UdpCall
  set_nonblocking : Bool → UdpCall
  from_std : UdpCall

-- Which calls the system refuses, with the error.
abbrev pub Refusals : Type 0
Refusals = UdpCall → Option Str

-- A socket is the calls that took effect on it.
abbrev pub UdpSocket : Type 0
UdpSocket = List UdpCall

-- A call whose error ends the set-up.
unfoldable pub attempt : Refusals → UdpCall → UdpSocket → Result UdpSocket
attempt refusals call sock = elim (refusals call) [ none ↦ ok (sock ++ call ∷ []) | some e ↦ err e ]

-- A call whose error is ignored.
unfoldable pub ignoring : Refusals → UdpCall → UdpSocket → UdpSocket
ignoring refusals call sock = elim (refusals call) [ none ↦ sock ++ call ∷ [] | some e ↦ sock ]

-- The error of the first of these calls that is refused.
unfoldable pub first_refusal : Refusals → List UdpCall → Option Str
first_refusal refusals [] = none
first_refusal refusals (call ∷ calls) = elim (refusals call) [
  | none ↦ first_refusal refusals calls
  | some e ↦ some e
]
