-- ===== src/Pxeboot/Lease.antt =====
-- The DHCP leases of crates/pxeboot/src/main.rs. An `Instant` is its nanoseconds since some fixed
-- instant.
pub mod Pool
pub mod Unique
use hivebus.Prelude.{
  ℕ, zero, suc, ◌+◌, ◌-◌, ◌||◌, Option, none, some, Bool, true, false, List, [], ◌∷◌, map, ◌==◌,
  nat_eq, if◌then◌else◌,
}
use hivebus.Std.HashMap
use hivebus.Std.HashMap.{HashMap}
use hivebus.Std.Net.{Ipv4Addr, to_u32, from_u32}
use hivebus.Std.Time.{from_secs}
use hivebus.Proto.Mac.{Mac}
use hivebus.Pxeboot.Boot.{BootTable, BootEntry, mac_eq}

pub record Lease : Type 0 where
  pub ip : Ipv4Addr
  pub expires : ℕ

abbrev pub Leases : Type 0
Leases = HashMap Mac Lease

unfoldable pub contains : List ℕ → ℕ → Bool
contains [] ip = false
contains (x ∷ xs) ip = x == ip || contains xs ip

-- The first of `count` numbers from `ip` on that is not in use.
unfoldable pub first_free : List ℕ → ℕ → ℕ → Option ℕ
unfolding contains
first_free in_use zero ip = none
first_free in_use (suc count) ip = elim (contains in_use ip) [
  | false ↦ some ip
  | true ↦ first_free in_use count (suc ip)
]

abbrev pub in_use : Leases → List ℕ
in_use leases = map (λ l. to_u32 l.ip) (HashMap.values leases)

abbrev pub from_u32? : Option ℕ → Option Ipv4Addr
from_u32? none = none
from_u32? (some n) = some (from_u32 n)

-- `(start..=end).find(|ip| !in_use.contains(ip)).map(Ipv4Addr::from)`
unfoldable pub find_in_pool : Ipv4Addr → Ipv4Addr → Leases → Option Ipv4Addr
unfolding first_free to_u32 from_u32
find_in_pool pool_start pool_end leases =
    from_u32?
      (first_free (in_use leases) (to_u32 pool_end + 1 - to_u32 pool_start) (to_u32 pool_start))

-- The static address of a MAC, if it has one.
abbrev pub static_of : Option BootEntry → Option Ipv4Addr
static_of none = none
static_of (some entry) = entry.ip

-- `allocate_ip`: the address, and the leases with the lease of the MAC renewed.
unfoldable pub allocate_ip :
    Mac → BootTable → Ipv4Addr → Ipv4Addr → ℕ → ℕ → Leases → Option Ipv4Addr × Leases
unfolding find_in_pool
allocate_ip mac boot_table pool_start pool_end lease_secs now leases =
    elim (static_of (HashMap.get boot_table mac)) [
      | some ip ↦ (some ip, leases)
      | none ↦ elim (HashMap.get leases mac) [
        | some lease ↦ (
          some lease.ip,
          HashMap.insert leases mac (record lease { expires = now + from_secs lease_secs }),
        )
        | none ↦ (find_in_pool pool_start pool_end leases, leases)
      ]
    ]
