-- ===== src/Pxeboot/Boot.antt =====
-- The boot table and the iPXE scripts of crates/pxeboot/src/main.rs.
pub mod Script
use hivebus.Prelude.{
  ℕ, ◌≡◌, ◌↔◌, ap, Option, none, some, Bool, List, [], ◌∷◌, ◌++◌, map, Eq, ◌==◌, bytes_eq,
  bytes_beq, bytes_beq_iff, arith, ltb, if◌then◌else◌, true,
}
use hivebus.Result.{Result, ok, err}
use hivebus.Std.HashMap
use hivebus.Std.HashMap.{HashMap}
use hivebus.Std.Net.{Ipv4Addr, to_u32}
use hivebus.Std.Net.Display.{show_ipv4}
use hivebus.Std.Text.{Str, str, join}
use hivebus.Std.Text.Hex.{hex_byte}
use hivebus.Std.Path.{Component, root_dir, cur_dir, parent_dir, normal, components, push}
use hivebus.Proto.Mac.{Mac, octets}

unfoldable pub mac_beq : Mac → Mac → Bool
unfolding bytes_beq
mac_beq p q = bytes_beq (octets p) (octets q)

pub mac_beq_iff : (p q : Mac) → (mac_beq p q ≡ true) ↔ (p ≡ q)
unfolding mac_beq
mac_beq_iff p q = (
  λ h. ground (arith, (bytes_beq_iff (octets p) (octets q)).0 h),
  λ h. (bytes_beq_iff (octets p) (octets q)).1 (ap octets h),
)

instance abbrev pub mac_eq : Eq Mac
mac_eq = record { test_eq = mac_beq; decides = mac_beq_iff }

pub record Config : Type 0 where
  pub server_ip : Ipv4Addr
  pub iface : Str
  pub pool_start : Ipv4Addr
  pub pool_end : Ipv4Addr
  pub subnet_mask : Ipv4Addr
  pub gateway : Option Ipv4Addr
  pub tftp_root : Str
  pub boot_file : Str
  pub seed_url : Option Str
  pub lease_secs : ℕ

-- The check of `Config::load` on a configuration that was parsed.
unfoldable pub check_config : Config → Result Config
unfolding to_u32 show_ipv4
check_config cfg =
    if ltb (to_u32 cfg.pool_end) (to_u32 cfg.pool_start)
    then err (
        str "invalid DHCP pool: pool_start "
        ++ show_ipv4 cfg.pool_start
        ++ str " is after pool_end "
        ++ show_ipv4 cfg.pool_end)
    else ok cfg

unfoldable pub fmt_mac : Mac → Str
unfolding join hex_byte
fmt_mac mac = join (str ":") (map hex_byte (octets mac))

unfoldable pub default_script_path : Mac → Str
unfolding fmt_mac
default_script_path mac = str "scripts/" ++ fmt_mac mac ++ str ".ipxe"

-- The loop of `sanitize_tftp_path` over the components.
unfoldable pub push_components : Str → List Component → Option Str
push_components path [] = some path
push_components path (normal segment ∷ cs) = push_components (push path segment) cs
push_components path (cur_dir ∷ cs) = push_components path cs
push_components path (parent_dir ∷ cs) = none
push_components path (root_dir ∷ cs) = none

unfoldable pub sanitize_tftp_path : Str → Str → Option Str
unfolding push_components components
sanitize_tftp_path root requested = push_components root (components requested)

pub record BootEntry : Type 0 where
  pub hostname : Str
  pub ip : Option Ipv4Addr
  pub ipxe_script : Option Str
  pub tags : HashMap Str Str

abbrev pub BootTable : Type 0
BootTable = HashMap Mac BootEntry

-- `a.or_else(|| b)`
abbrev or_else : Option Str → Option Str → Option Str
or_else none b = b
or_else (some a) b = some a

abbrev unwrap_or : Option Str → Str → Str
unwrap_or none d = d
unwrap_or (some a) d = a

unfoldable pub script_seed_url : Config → BootEntry → Str
unfolding show_ipv4
script_seed_url cfg entry =
    unwrap_or (or_else (HashMap.get entry.tags (str "seed_url")) cfg.seed_url)
      (str "http://" ++ show_ipv4 cfg.server_ip ++ str ":7780/seed.tar.gz")

unfoldable pub render_ipxe_script : Config → Mac → BootEntry → Str
unfolding script_seed_url fmt_mac
render_ipxe_script cfg mac entry =
    str "#!ipxe\necho hivebus bootstrap for "
    ++ entry.hostname
    ++ str " ("
    ++ fmt_mac mac
    ++ str ")\nset seed-url "
    ++ script_seed_url cfg entry
    ++ str "\nchain "
    ++ script_seed_url cfg entry
    ++ str "\n"

-- What is to be written to a file.
pub record FileWrite : Type 0 where
  pub path : Str
  pub contents : Str

-- `write_ipxe_script` up to the file system: nothing, one file, or the error.
unfoldable pub write_ipxe_script : Config → Mac → BootEntry → Result (List FileWrite)
unfolding render_ipxe_script sanitize_tftp_path
write_ipxe_script cfg mac entry = elim entry.ipxe_script [
  | none ↦ ok []
  | some rel_path ↦ elim (sanitize_tftp_path cfg.tftp_root rel_path) [
    | none ↦ err (str "invalid iPXE script path")
    | some path ↦ ok (record { path = path; contents = render_ipxe_script cfg mac entry } ∷ [])
  ]
]
