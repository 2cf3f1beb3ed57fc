-- ===== src/Std/Net.antt =====
-- `std::net`: IPv4 addresses and socket addresses.
pub mod Display
pub mod Udp
use mathlib.Core.Path.{ap}
use mathlib.Core.Bool.{true}
use hivebus.Prelude.{
  ℕ, ◌+◌, ◌*◌, ◌/◌, ◌%◌, ◌<◌, ◌^◌, ◌≡◌, ◌↔◌, Bool, List, [], ◌∷◌, arith, Eq, bytes_beq,
  bytes_beq_iff,
}

pub record Ipv4Addr : Type 0 where
  pub a : ℕ
  pub b : ℕ
  pub c : ℕ
  pub d : ℕ

abbrev pub octets : Ipv4Addr → List ℕ
octets ip = ip.a ∷ ip.b ∷ ip.c ∷ ip.d ∷ []

-- Every octet is a byte.
pub record IsIpv4 (ip : Ipv4Addr) : Type 0 where
  pub a : ip.a < 256
  pub b : ip.b < 256
  pub c : ip.c < 256
  pub d : ip.d < 256

-- `u32::from(ip)`
unfoldable pub to_u32 : Ipv4Addr → ℕ
to_u32 ip = ip.a * 2 ^ 24 + ip.b * 2 ^ 16 + ip.c * 2 ^ 8 + ip.d

-- `Ipv4Addr::from(n)`
unfoldable pub from_u32 : ℕ → Ipv4Addr
from_u32 n = record { a = n / 2 ^ 24 % 256; b = n / 2 ^ 16 % 256; c = n / 2 ^ 8 % 256; d = n % 256 }

abbrev pub broadcast : Ipv4Addr
broadcast = record { a = 255; b = 255; c = 255; d = 255 }

pub to_u32-from_u32 : (n : ℕ) → n < 2 ^ 32 → to_u32 (from_u32 n) ≡ n
unfolding to_u32 from_u32
to_u32-from_u32 n h = omega arith

pub from_u32-to_u32 : (ip : Ipv4Addr) → IsIpv4 ip → from_u32 (to_u32 ip) ≡ ip
unfolding to_u32 from_u32
from_u32-to_u32 ip h = ground arith

pub to_u32-lt : (ip : Ipv4Addr) → IsIpv4 ip → to_u32 ip < 2 ^ 32
unfolding to_u32
to_u32-lt ip h = omega arith

pub from_u32-IsIpv4 : (n : ℕ) → IsIpv4 (from_u32 n)
unfolding from_u32
from_u32-IsIpv4 n = omega arith

pub data SocketAddr : Type 0 where
  v4 : Ipv4Addr → ℕ → SocketAddr
  -- the 16 octets, the port, the flow label and the scope
  v6 : List ℕ → ℕ → ℕ → ℕ → SocketAddr

-- The fields by which two addresses are compared.
abbrev fields : SocketAddr → List ℕ
fields (v4 ip port) = 4 ∷ ip.a ∷ ip.b ∷ ip.c ∷ ip.d ∷ port ∷ []
fields (v6 ip port flowinfo scope_id) = 6 ∷ port ∷ flowinfo ∷ scope_id ∷ ip

fields_inj : (p q : SocketAddr) → fields p ≡ fields q → p ≡ q
fields_inj (v4 ip port) (v4 ip' port') h = ground arith
fields_inj (v4 ip port) (v6 ip' port' f s) h = ground arith
fields_inj (v6 ip port f s) (v4 ip' port') h = ground arith
fields_inj (v6 ip port f s) (v6 ip' port' f' s') h = ground arith

unfoldable pub addr_beq : SocketAddr → SocketAddr → Bool
unfolding bytes_beq
addr_beq p q = bytes_beq (fields p) (fields q)

pub addr_beq_iff : (p q : SocketAddr) → (addr_beq p q ≡ true) ↔ (p ≡ q)
unfolding addr_beq
addr_beq_iff p q = (
  λ h. fields_inj p q ((bytes_beq_iff (fields p) (fields q)).0 h),
  λ h. (bytes_beq_iff (fields p) (fields q)).1 (ap fields h),
)

instance abbrev pub addr_eq : Eq SocketAddr
addr_eq = record { test_eq = addr_beq; decides = addr_beq_iff }

-- What `send_to` is given.
pub record Datagram : Type 0 where
  pub to : SocketAddr
  pub bytes : List ℕ
