-- ===== src/Tests/Pxeboot/Starting.antt =====
-- Concrete inputs for the start of crates/pxeboot/src/main.rs.
use hivebus.Prelude.{some, true, []}
use hivebus.Result.{Result, ok}
use hivebus.Std.Net.{v4}
use hivebus.Std.Text.{Str}
use hivebus.Configuration.{ConfigFiles}
use hivebus.Pxeboot.Start.{Fields, Running}
use hivebus.Tests.Pxeboot.{cfg}

-- The configuration of the DHCP tests, as a file.
abbrev pxeboot_files : ConfigFiles Fields
pxeboot_files = record {
  exists = λ path. true;
  read_to_string = λ path. ok [];
  parse = λ raw. ok (record {
    server_ip = cfg.server_ip;
    iface = cfg.iface;
    pool_start = cfg.pool_start;
    pool_end = cfg.pool_end;
    subnet_mask = some cfg.subnet_mask;
    gateway = cfg.gateway;
    tftp_root = some cfg.tftp_root;
    boot_file = some cfg.boot_file;
    seed_url = cfg.seed_url;
    lease_secs = some cfg.lease_secs;
  });
}

abbrev made : Str → Result (Unit {0})
made path = ok tt

abbrev running : Running
running = record {
  cfg = cfg;
  tables = record { boot_table = []; leases = [] };
  tftp_bind = v4 cfg.server_ip 69;
}
