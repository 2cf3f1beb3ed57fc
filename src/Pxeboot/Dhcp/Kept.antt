-- ===== src/Pxeboot/Dhcp/Kept.antt =====
-- The types of what the DHCP server of crates/pxeboot/src/main.rs keeps and is configured with.
use hivebus.Prelude.{
  ℕ, zero, suc, ◌+◌, ◌-◌, ◌<◌, ◌≡◌, inl, inr, Option, none, some, List, [], ◌∷◌, arith, All, get_or,
  Option-cases, nat_eq,
}
use hivebus.Std.Bytes.{IsBytes}
use hivebus.Std.HashMap
use hivebus.Std.Net.{Ipv4Addr, IsIpv4, from_u32-IsIpv4, to_u32}
use hivebus.Std.Text.{Str}
use hivebus.Proto.Mac.{Mac, IsMac}
use hivebus.Pxeboot.Boot.{Config, BootEntry, BootTable, mac_eq, default_script_path}
use hivebus.Pxeboot.Lease.{Leases, static_of, first_free, find_in_pool, in_use, from_u32?}
use hivebus.Pxeboot.Dhcp.Typed.{listed}
use hivebus.Pxeboot.Dhcp.Handle.{Tables, mac_of, discovered, script_of}
use hivebus.Pxeboot.Netboot.Name.{default_script_path-IsVisible}

-- The values of the configuration that are sent.
pub record IsTypedConfig (cfg : Config) : Type 0 where
  pub server : IsIpv4 cfg.server_ip
  pub subnet : IsIpv4 cfg.subnet_mask
  pub gateway : All IsIpv4 (listed cfg.gateway)
  pub boot_file : IsBytes cfg.boot_file

abbrev paths : Option Str → List Str
paths none = []
paths (some path) = path ∷ []

-- The static address and the script of an entry.
pub record IsTypedEntry (entry : BootEntry) : Type 0 where
  pub ip : All IsIpv4 (listed entry.ip)
  pub script : All IsBytes (paths entry.ipxe_script)

pub record IsTyped (tables : Tables) : Type 0 where
  pub boot_table : HashMap.AllEntries (λ mac entry. IsTypedEntry entry) tables.boot_table
  pub leases : HashMap.AllEntries (λ mac l. IsIpv4 l.ip) tables.leases

get_or-lt : (bytes : List ℕ) (i : ℕ) → IsBytes bytes → get_or bytes i 0 < 256
get_or-lt [] i h = omega arith
get_or-lt (b ∷ bytes) zero h = h.0
get_or-lt (b ∷ bytes) (suc i) h = get_or-lt bytes i h.1

pub mac_of-IsMac : (chaddr : List ℕ) → IsBytes chaddr → IsMac (mac_of chaddr)
mac_of-IsMac chaddr h = record {
  m0 = get_or-lt chaddr 0 h;
  m1 = get_or-lt chaddr 1 h;
  m2 = get_or-lt chaddr 2 h;
  m3 = get_or-lt chaddr 3 h;
  m4 = get_or-lt chaddr 4 h;
  m5 = get_or-lt chaddr 5 h;
}

visible-IsBytes : (s : Str) → All (λ c. (32 < c) × (c < 127)) s → IsBytes s
visible-IsBytes [] h = tt
visible-IsBytes (c ∷ s) h = (omega arith, visible-IsBytes s h.1)

pub discovered-IsTypedEntry : (mac : Mac) → IsMac mac → IsTypedEntry (discovered mac)
unfolding discovered
discovered-IsTypedEntry mac h = record {
  ip = tt;
  script = (visible-IsBytes (default_script_path mac) (default_script_path-IsVisible mac h), tt);
}

pub find_in_pool-IsIpv4 :
    (pool_start pool_end : Ipv4Addr) (leases : Leases)
    → All IsIpv4 (listed (find_in_pool pool_start pool_end leases))
unfolding find_in_pool
find_in_pool-IsIpv4 pool_start pool_end leases =
    of_number
      (first_free (in_use leases) (to_u32 pool_end + 1 - to_u32 pool_start) (to_u32 pool_start))
  where
    of_number : (o : Option ℕ) → All IsIpv4 (listed (from_u32? o))
    of_number none = tt
    of_number (some n) = (from_u32-IsIpv4 n, tt)

entry_at :
    (boot_table : BootTable) (mac : Mac) {entry : BootEntry}
    → HashMap.AllEntries (λ mac entry. IsTypedEntry entry) boot_table
    → HashMap.get boot_table mac ≡ some entry
    → IsTypedEntry entry
entry_at boot_table mac typed found =
    HashMap.AllEntries-get (λ mac entry. IsTypedEntry entry) boot_table mac typed found

pub static_of-IsIpv4 :
    (boot_table : BootTable) (mac : Mac)
    → HashMap.AllEntries (λ mac entry. IsTypedEntry entry) boot_table
    → All IsIpv4 (listed (static_of (HashMap.get boot_table mac)))
static_of-IsIpv4 boot_table mac typed = elim (Option-cases (HashMap.get boot_table mac)) [
  | inl e ↦ rw e tt
  | inr (entry, e) ↦ rw e ((entry_at boot_table mac typed e).ip)
]

pub script_of-IsBytes :
    (boot_table : BootTable) (mac : Mac) (default : Str)
    → HashMap.AllEntries (λ mac entry. IsTypedEntry entry) boot_table
    → IsBytes default
    → IsBytes (script_of (HashMap.get boot_table mac) default)
script_of-IsBytes boot_table mac default typed h =
    elim (Option-cases (HashMap.get boot_table mac)) [
      | inl e ↦ rw e h
      | inr (entry, e) ↦ rw e (of_path entry.ipxe_script (entry_at boot_table mac typed e).script)
    ]
  where
    of_path :
        (o : Option Str)
        → All IsBytes (paths o)
        → IsBytes (elim o [ none ↦ default | some path ↦ path ])
    of_path none all = h
    of_path (some path) all = all.0
