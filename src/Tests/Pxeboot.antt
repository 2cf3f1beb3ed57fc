-- ===== src/Tests/Pxeboot.antt =====
-- Concrete inputs for the theorems about crates/pxeboot/src/main.rs.
mod Leasing
mod Netbooting
mod Starting
mod Booting
mod Transfer
use hivebus.Prelude.{
  ℕ, ◌+◌, ◌≤◌, ◌<◌, ◌≡◌, ◌↔◌, ◌⊎◌, inl, inr, refl, Option, none, some, List, [], ◌∷◌, ◌++◌, arith,
  All, length, replicate, take, drop, bytes_beq,
}
use hivebus.Std.HashMap
use hivebus.Std.Net.{Ipv4Addr, to_u32, octets, IsIpv4}
use hivebus.Std.Bytes.{u32_to_be}
use hivebus.Std.Text.{Str, str, split, split_from, to_ascii_lowercase}
use hivebus.Std.Text.Utf8.{is_utf8}
use hivebus.Std.Path.{components, push, relative_components, pieces_components, piece_components}
use hivebus.Std.Path.Laws.{IsName}
use hivebus.Proto.Mac.{Mac}
use hivebus.Pxeboot.Boot.{
  Config, BootEntry, BootTable, mac_eq, sanitize_tftp_path, push_components, default_script_path,
}
use hivebus.Pxeboot.Boot.Script.{
  below, Escapes, script_name, sanitize_tftp_path-below, sanitize_tftp_path_refuses,
  sanitize_tftp_path-default_script_path,
}
use hivebus.Pxeboot.Lease.{Leases, allocate_ip, static_of}
use hivebus.Pxeboot.Lease.Pool.{Allocation, allocate_ip-Allocation}
use hivebus.Pxeboot.Lease.Unique.{IsUnique}
use hivebus.Pxeboot.Dhcp.{build_dhcp_reply, scan_options, dhcp_magic, opt_end, opt_message_type}
use hivebus.Pxeboot.Dhcp.Options.{
  DhcpOption, write_options, last_type, scan_options-write_options, scan_options_panics,
}
use hivebus.Pxeboot.Dhcp.Fields.{slice}
use hivebus.Pxeboot.Dhcp.Reply.{reply_options, build_dhcp_reply_lem}
use hivebus.Pxeboot.Dhcp.Handle.{Tables, on_dhcp}
use hivebus.Pxeboot.Dhcp.Sound.{IsSound, EndsSound, on_dhcp-EndsSound}
use hivebus.Pxeboot.Tftp.{parse_tftp_rrq, on_tftp, transfer}
use hivebus.Pxeboot.Tftp.Laws.{read_request, parse_tftp_rrq-read_request, on_tftp-read_request}

sanitize_tftp_path-below_example :
    (segments : List Str) × (str "/srv/scripts/x" ≡ below (str "/srv") segments)
    × All IsName segments
unfolding sanitize_tftp_path push_components components relative_components pieces_components
    piece_components split split_from push bytes_beq
sanitize_tftp_path-below_example =
    sanitize_tftp_path-below (str "/srv") (str "./scripts//x") (str "/srv/scripts/x") refl

abbrev mac : Mac
mac = record { m0 = 2; m1 = 0; m2 = 90; m3 = 16; m4 = 7; m5 = 6 }

abbrev ip : ℕ → Ipv4Addr
ip d = record { a = 10; b = 0; c = 0; d = d }

abbrev other : Mac
other = record mac { m5 = 7 }

-- Another node holds the first address of the pool.
abbrev leases : Leases
leases = (other, record { ip = ip 100; expires = 9 }) ∷ []

allocate_ip-Allocation_example :
    (o : Option Ipv4Addr) × (allocate_ip mac [] (ip 100) (ip 120) 3600 5 leases ≡ (o, leases))
    × Allocation (to_u32 (ip 100)) (to_u32 (ip 120)) leases o
unfolding HashMap.get
allocate_ip-Allocation_example =
    allocate_ip-Allocation mac [] (ip 100) (ip 120) 3600 5 leases (omega arith) refl
      (unfold bytes_beq hivebus.Pxeboot.Boot.mac_beq in refl)

abbrev discover_options : List DhcpOption
discover_options =
    record { code = 12; value = 104 ∷ 105 ∷ [] } ∷ record { code = 53; value = 1 ∷ [] } ∷ []

scan_options-write_options_example :
    scan_options 0 0 (write_options discover_options ++ opt_end ∷ 0 ∷ [])
    ≡ some (last_type 0 discover_options)
scan_options-write_options_example =
    scan_options-write_options 0 discover_options (0 ∷ []) (omega arith)

scan_options_panics_example :
    scan_options 0 0 (write_options discover_options ++ opt_message_type ∷ 1 ∷ []) ≡ none
scan_options_panics_example = scan_options_panics 0 0 discover_options (omega arith)

abbrev client : List ℕ
client = 2 ∷ 0 ∷ 90 ∷ 16 ∷ 7 ∷ 6 ∷ replicate 10 0

abbrev offer_packet : List ℕ
offer_packet =
    build_dhcp_reply 2 77 client (ip 101) (ip 1) (ip 0) (some (ip 1)) 3600 (str "ipxe.efi")

build_dhcp_reply_lem_example :
    (slice 236 4 offer_packet ≡ dhcp_magic)
    × (drop 240 offer_packet
        ≡ write_options
            (reply_options 2 77 client (ip 101) (ip 1) (ip 0) 3600 (str "ipxe.efi") (some (ip 1)))
          ++ opt_end ∷ [])
    × (scan_options 0 0 (drop 240 offer_packet) ≡ some 2)
    × (slice 4 4 offer_packet ≡ u32_to_be 77)
    × (slice 16 4 offer_packet ≡ octets (ip 101))
    × (slice 20 4 offer_packet ≡ octets (ip 1))
    × (slice 28 16 offer_packet ≡ client)
    × (slice 108 8 offer_packet ≡ str "ipxe.efi")
build_dhcp_reply_lem_example =
    build_dhcp_reply_lem 2 77 client (ip 101) (ip 1) (ip 0) 3600 (str "ipxe.efi") (some (ip 1)) refl

abbrev pub cfg : Config
cfg = record {
  server_ip = ip 1;
  iface = str "eth0";
  pool_start = ip 100;
  pool_end = ip 120;
  subnet_mask = record { a = 255; b = 255; c = 255; d = 0 };
  gateway = none;
  tftp_root = str "/srv";
  boot_file = str "ipxe.efi";
  seed_url = none;
  lease_secs = 3600;
}

abbrev pub discover : List ℕ
discover = replicate 236 0 ++ dhcp_magic ++ 53 ∷ 1 ∷ 1 ∷ 255 ∷ []

abbrev pub empty : Tables
empty = record { boot_table = []; leases = [] }

empty-IsSound : IsSound empty
unfolding HashMap.get
empty-IsSound = record {
  plain = tt;
  leases = record { unique = λ p q a b fa fb e. absurd (ground arith) };
}

on_dhcp-EndsSound_example : EndsSound (on_dhcp cfg 5 discover empty)
on_dhcp-EndsSound_example = on_dhcp-EndsSound cfg 5 (omega arith) discover empty empty-IsSound
