-- ===== src/Tests/Pxeboot/Leasing.antt =====
-- A client of crates/pxeboot/src/main.rs that is offered an address and requests it.
use hivebus.Prelude.{
  ℕ, ◌≡◌, refl, none, some, List, [], ◌∷◌, ◌++◌, arith, drop, replicate, bytes_beq,
}
use hivebus.Std.HashMap
use hivebus.Std.Net.{Datagram, v4}
use hivebus.Std.Text.{str}
use hivebus.Proto.Mac.{Mac}
use hivebus.Pxeboot.Boot.{BootEntry, FileWrite, mac_eq, mac_beq}
use hivebus.Pxeboot.Dhcp.{
  dhcp_magic, scan_options, dhcp_discover, dhcp_offer, dhcp_request, dhcp_ack,
}
use hivebus.Pxeboot.Dhcp.Fields.{slice}
use hivebus.Pxeboot.Dhcp.Handle.{Tables, Outcome, panicked, served, on_dhcp}
use hivebus.Pxeboot.Dhcp.Run.{Asks, NoStatic, here, registered}
use hivebus.Pxeboot.Dhcp.Handshake.{handshake}
use hivebus.Tests.Pxeboot.{cfg, discover, empty}

abbrev pub client : Mac
client = record { m0 = 0; m1 = 0; m2 = 0; m3 = 0; m4 = 0; m5 = 0 }

abbrev another : Mac
another = record client { m5 = 9 }

abbrev request : List ℕ
request = replicate 236 0 ++ dhcp_magic ++ 53 ∷ 1 ∷ 3 ∷ 255 ∷ []

abbrev pub tables_of : Outcome → Tables
tables_of panicked = empty
tables_of (served tables files replies) = tables

abbrev pub files_of : Outcome → List FileWrite
files_of panicked = []
files_of (served tables files replies) = files

abbrev pub reply_of : Outcome → Datagram
reply_of (served tables files (reply ∷ replies)) = reply
reply_of _ = record { to = v4 cfg.server_ip 0; bytes = [] }

abbrev pub first : Outcome
first = on_dhcp cfg 5 discover empty

pub first_served :
    on_dhcp cfg 5 discover empty ≡ served (tables_of first) (files_of first) (reply_of first ∷ [])
unfolding on_dhcp bytes_beq HashMap.get HashMap.insert mac_beq
first_served = refl

pub discover-Asks : Asks discover dhcp_discover client
unfolding scan_options
discover-Asks = record { long = omega arith; magic = refl; typed = refl; sender = refl }

request-Asks : Asks request dhcp_request client
unfolding scan_options
request-Asks = record { long = omega arith; magic = refl; typed = refl; sender = refl }

abbrev entry : BootEntry
entry = record { hostname = str "nine"; ip = none; ipxe_script = none; tags = [] }

-- Another node is registered in between.
abbrev between : Tables
between = record (tables_of first) {
  boot_table = HashMap.insert (tables_of first).boot_table another entry;
}

between-NoStatic : NoStatic between client
unfolding on_dhcp HashMap.get HashMap.insert mac_beq
between-NoStatic = refl

handshake_example :
    (t2 : Tables) × (files' : List FileWrite) × (ack : Datagram) × (on_dhcp cfg 9 request between
      ≡ served t2 files' (ack ∷ []))
    × (scan_options 0 0 (drop 240 (reply_of first).bytes) ≡ some dhcp_offer)
    × (scan_options 0 0 (drop 240 ack.bytes) ≡ some dhcp_ack)
    × (slice 16 4 ack.bytes ≡ slice 16 4 (reply_of first).bytes)
handshake_example =
    handshake cfg client 5 9 discover request empty (tables_of first) between (files_of first)
      (reply_of first) (registered another entry here) discover-Asks request-Asks first_served
      (tt, between-NoStatic) between-NoStatic
