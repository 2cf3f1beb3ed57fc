-- ===== src/Hivebus/Discovery.antt =====
-- The discovery socket of crates/hivebus/src/main.rs: `build_udp_socket`, and what `main` does to
-- the socket.
use hivebus.Prelude.{◌≡◌, none, some, true, false, List, [], ◌∷◌, ◌++◌, arith}
use hivebus.Result.{Result, ok, err, ◌>>=◌}
use hivebus.Std.Net.{Ipv4Addr, v4}
use hivebus.Std.Net.Udp.{
  UdpCall, create, set_reuse_address, set_reuse_port, set_broadcast, bind, join_multicast_v4,
  set_multicast_loop_v4, set_nonblocking, from_std, Refusals, UdpSocket, attempt, first_refusal,
}
use hivebus.Proto.{discovery_port}

abbrev unspecified : Ipv4Addr
unspecified = record { a = 0; b = 0; c = 0; d = 0 }

-- `MULTICAST_ADDR.parse()`
abbrev multicast_group : Ipv4Addr
multicast_group = record { a = 224; b = 0; c = 133; d = 7 }

-- The first address is not used.
unfoldable pub build_udp_socket : Refusals → Ipv4Addr → Ipv4Addr → Result UdpSocket
unfolding attempt
build_udp_socket refusals bind_addr iface_addr = do
  sock1 ← attempt refusals create []
  sock2 ← attempt refusals (set_reuse_address true) sock1
  sock3 ← attempt refusals (set_reuse_port true) sock2
  sock4 ← attempt refusals (set_broadcast true) sock3
  sock5 ← attempt refusals (bind (v4 unspecified discovery_port)) sock4
  sock6 ← attempt refusals (join_multicast_v4 multicast_group iface_addr) sock5
  attempt refusals (set_multicast_loop_v4 false) sock6

-- The configured address is both arguments.
unfoldable pub open_udp : Refusals → Ipv4Addr → Result UdpSocket
unfolding build_udp_socket attempt
open_udp refusals cluster_addr = do
  std_sock ← build_udp_socket refusals cluster_addr cluster_addr
  async_sock ← attempt refusals (set_nonblocking true) std_sock
  attempt refusals from_std async_sock

-- What the discovery socket is after the set-up.
abbrev pub discovery_calls : Ipv4Addr → List UdpCall
discovery_calls iface_addr =
    create
    ∷ set_reuse_address true
    ∷ set_reuse_port true
    ∷ set_broadcast true
    ∷ bind (v4 unspecified discovery_port)
    ∷ join_multicast_v4 multicast_group iface_addr
    ∷ set_multicast_loop_v4 false
    ∷ []

-- The socket that is built hears every interface on the discovery port and is in the multicast
-- group on the configured one; the first call that is refused ends the daemon with its error.
pub build_udp_socket_lem :
    (refusals : Refusals) (bind_addr iface_addr : Ipv4Addr)
    → build_udp_socket refusals bind_addr iface_addr
      ≡ (elim (first_refusal refusals (discovery_calls iface_addr)) [
        | none ↦ ok (discovery_calls iface_addr)
        | some e ↦ err e
      ])
unfolding build_udp_socket attempt first_refusal
build_udp_socket_lem refusals bind_addr iface_addr = ground arith

-- If nothing is refused, the socket is opened.
pub open_udp_lem :
    (refusals : Refusals) (cluster_addr : Ipv4Addr)
    → ((call : UdpCall) → refusals call ≡ none)
    → open_udp refusals cluster_addr
      ≡ ok (discovery_calls cluster_addr ++ set_nonblocking true ∷ from_std ∷ [])
unfolding open_udp build_udp_socket attempt
open_udp_lem refusals cluster_addr allowed = ground (
  arith,
  allowed create,
  allowed (set_reuse_address true),
  allowed (set_reuse_port true),
  allowed (set_broadcast true),
  allowed (bind (v4 unspecified discovery_port)),
  allowed (join_multicast_v4 multicast_group cluster_addr),
  allowed (set_multicast_loop_v4 false),
  allowed (set_nonblocking true),
  allowed from_std,
)
