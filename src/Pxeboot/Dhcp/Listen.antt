-- ===== src/Pxeboot/Dhcp/Listen.antt =====
-- The socket of `dhcp_server` in crates/pxeboot/src/main.rs.
use hivebus.Prelude.{ℕ, ◌≡◌, ◌↔◌, none, true, List, [], ◌∷◌, ◌++◌, arith}
use hivebus.Result.{ok, err}
use hivebus.Std.Net.{Ipv4Addr, v4}
use hivebus.Std.Net.Udp.{
  UdpCall, create, set_reuse_address, set_reuse_port, set_broadcast, bind, set_nonblocking,
  from_std, Refusals, UdpSocket, attempt, ignoring, first_refusal,
}
use hivebus.Std.Text.{Str}

abbrev dhcp_server_port : ℕ
dhcp_server_port = 67

abbrev unspecified : Ipv4Addr
unspecified = record { a = 0; b = 0; c = 0; d = 0 }

-- The server listens, or its task ends or panics.
pub data Listening : Type 0 where
  listening : UdpSocket → Listening
  ended : Str → Listening
  panicked : Listening

abbrev adopted : Refusals → UdpSocket → Listening
adopted refusals sock = elim (attempt refusals from_std sock) [
  | ok sock' ↦ listening sock'
  | err e ↦ ended e
]

abbrev bound : Refusals → UdpSocket → Listening
bound refusals sock = elim (attempt refusals (set_nonblocking true) sock) [
  | ok sock' ↦ adopted refusals sock'
  | err e ↦ panicked
]

abbrev with_options : Refusals → UdpSocket → UdpSocket
with_options refusals sock =
    let sock1 = ignoring refusals (set_reuse_address true) sock in
    let sock2 = ignoring refusals (set_reuse_port true) sock1 in
    ignoring refusals (set_broadcast true) sock2

unfoldable pub open_dhcp : Refusals → Listening
unfolding attempt ignoring
open_dhcp refusals = elim (attempt refusals create []) [
  | err e ↦ ended e
  | ok sock ↦
      elim (attempt refusals (bind (v4 unspecified dhcp_server_port))
        (with_options refusals sock)) [ err e ↦ ended e | ok sock' ↦ bound refusals sock' ]
]

-- The calls without which there is no server.
abbrev pub needed : List UdpCall
needed = create ∷ bind (v4 unspecified dhcp_server_port) ∷ set_nonblocking true ∷ from_std ∷ []

-- The server listens exactly if the system lets it create the socket, bind it, make it
-- non-blocking and hand it to the runtime. That an option is refused does not matter.
pub open_dhcp_iff :
    (refusals : Refusals)
    → ((sock : UdpSocket) × (open_dhcp refusals ≡ listening sock))
      ↔ (first_refusal refusals needed ≡ none)
unfolding open_dhcp attempt first_refusal
open_dhcp_iff refusals = (
  λ h. let e = h.1 in ground arith,
  λ h. (
    ((with_options refusals (create ∷ []) ++ bind (v4 unspecified dhcp_server_port) ∷ [])
          ++ set_nonblocking true ∷ [])
        ++ from_std ∷ [],
    ground arith,
  ),
)
