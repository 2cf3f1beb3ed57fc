-- ===== src/Pxeboot/Start.antt =====
-- `Config` and the start in `main` of crates/pxeboot/src/main.rs.
pub mod First
use hivebus.Prelude.{
  ℕ, ◌≡◌, refl, Option, none, some, Bool, true, false, List, [], ◌∷◌, ◌++◌, arith, ltb, Bool-cases,
}
use hivebus.Result.{Result, ok, err, ◌>>=◌}
use hivebus.Std.HashMap
use hivebus.Std.Net.{Ipv4Addr, IsIpv4, to_u32, from_u32, from_u32-to_u32, SocketAddr, v4}
use hivebus.Std.Path.{push}
use hivebus.Std.Text.{Str, str}
use hivebus.Proto.Mac.{Mac}
use hivebus.Std.Fs.{Process, FileSystem}
use hivebus.Socket.Setup.{open_control}
use hivebus.Configuration.{ConfigFiles, with_context, or_default}
use hivebus.Pxeboot.Boot.{Config, check_config, FileWrite, mac_eq}
use hivebus.Pxeboot.Lease.{first_free, find_in_pool, allocate_ip, contains}
use hivebus.Pxeboot.Dhcp.{dhcp_discover}
use hivebus.Pxeboot.Dhcp.Handle.{
  Tables, Outcome, served, request_of, mac_of, discovered, reply_to, offer, answer_dhcp, on_dhcp,
}
use hivebus.Pxeboot.Dhcp.Run.{received, Asks, on_dhcp-Asks}

pub record Fields : Type 0 where
  pub server_ip : Ipv4Addr
  pub iface : Str
  pub pool_start : Ipv4Addr
  pub pool_end : Ipv4Addr
  pub subnet_mask : Option Ipv4Addr
  pub gateway : Option Ipv4Addr
  pub tftp_root : Option Str
  pub boot_file : Option Str
  pub seed_url : Option Str
  pub lease_secs : Option ℕ

abbrev default_mask : Ipv4Addr
default_mask = record { a = 255; b = 255; c = 255; d = 0 }

abbrev default_tftp_root : Str
default_tftp_root = str "/var/lib/hivebus/tftp"

abbrev default_boot_file : Str
default_boot_file = str "ipxe.efi"

abbrev default_lease_secs : ℕ
default_lease_secs = 3600

-- The reader that serde derives.
unfoldable pub of_fields : Fields → Config
of_fields f = record {
  server_ip = f.server_ip;
  iface = f.iface;
  pool_start = f.pool_start;
  pool_end = f.pool_end;
  subnet_mask = or_default f.subnet_mask default_mask;
  gateway = f.gateway;
  tftp_root = or_default f.tftp_root default_tftp_root;
  boot_file = or_default f.boot_file default_boot_file;
  seed_url = f.seed_url;
  lease_secs = or_default f.lease_secs default_lease_secs;
}

-- What the tasks are started with.
pub record Running : Type 0 where
  pub cfg : Config
  pub tables : Tables
  pub tftp_bind : SocketAddr

-- `create_dir_all` is an operation of the system.
module _ (files : ConfigFiles Fields) (create_dir_all : Str → Result (Unit {0})) where
  -- `Config::load`
  unfoldable pub load : Str → Result Config
  unfolding of_fields check_config
  load path = do
    raw ← with_context (str "pxeboot requires config at " ++ path) (files.read_to_string path)
    f ← with_context (str "parsing pxeboot config") (files.parse raw)
    check_config (of_fields f)

  -- `main`, up to the tasks.
  unfoldable pub start : Option Str → Result Running
  unfolding load push
  start argument = do
    cfg ← load (or_default argument (str "/etc/hivebus/pxeboot.toml"))
    _ ← create_dir_all cfg.tftp_root
    _ ← create_dir_all (push cfg.tftp_root (str "scripts"))
    ok (record {
      cfg = cfg;
      tables = record { boot_table = []; leases = [] };
      tftp_bind = v4 cfg.server_ip 69;
    })

-- `control_plane`, up to the first connection.
unfoldable pub open_socket : Process → FileSystem → Result FileSystem
unfolding open_control
open_socket process fs = open_control process (str "pxeboot.sock") fs
