-- ===== src/Pxeboot/Start/First.antt =====
-- The first client of crates/pxeboot/src/main.rs after its start.
use hivebus.Prelude.{ℕ, ◌≡◌, some, []}
use hivebus.Result.{Result}
use hivebus.Std.HashMap
use hivebus.Std.Net.{Ipv4Addr}
use hivebus.Proto.Mac.{Mac}
use hivebus.Pxeboot.Boot.{Config, mac_eq}
use hivebus.Pxeboot.Lease.{find_in_pool}
use hivebus.Pxeboot.Dhcp.Handle.{Tables, Request, mac_of}

abbrev nothing : Tables
nothing = record { boot_table = []; leases = [] }

-- The answer to a client while the tables are empty.
module _ (cfg : Config) (now msg_type : ℕ) (req : Request) (ip : Ipv4Addr)
    (found : find_in_pool cfg.pool_start cfg.pool_end [] ≡ some ip) where
  abbrev mac : Mac
  mac = mac_of req.chaddr
