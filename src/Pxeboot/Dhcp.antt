-- ===== src/Pxeboot/Dhcp.antt =====
-- The DHCP server of crates/pxeboot/src/main.rs: the reply, and what one datagram does.
pub mod Listen
pub mod Fields
pub mod Reply
pub mod Options
pub mod Handle
pub mod Sound
pub mod Typed
pub mod Kept
pub mod Sends
pub mod Effect
pub mod Run
pub mod Handshake
use hivebus.Prelude.{
  ℕ, zero, suc, ◌+◌, ◌%◌, min, Option, none, some, Bool, true, false, ◌&&◌, List, [], ◌∷◌, ◌++◌,
  ◌==◌, nat_eq, leb, if◌then◌else◌, length, take, replicate,
}
use hivebus.Std.Bytes.{u32_to_be}
use hivebus.Std.Net.{Ipv4Addr, octets}
use hivebus.Std.Text.{Str}

abbrev pub dhcp_magic : List ℕ
dhcp_magic = 99 ∷ 130 ∷ 83 ∷ 99 ∷ []

abbrev pub opt_subnet_mask : ℕ
opt_subnet_mask = 1

abbrev pub opt_router : ℕ
opt_router = 3

abbrev pub opt_lease_time : ℕ
opt_lease_time = 51

abbrev pub opt_message_type : ℕ
opt_message_type = 53

abbrev pub opt_server_id : ℕ
opt_server_id = 54

abbrev pub opt_tftp_server : ℕ
opt_tftp_server = 66

abbrev pub opt_boot_file : ℕ
opt_boot_file = 67

abbrev pub opt_end : ℕ
opt_end = 255

abbrev pub dhcp_discover : ℕ
dhcp_discover = 1

abbrev pub dhcp_offer : ℕ
dhcp_offer = 2

abbrev pub dhcp_request : ℕ
dhcp_request = 3

abbrev pub dhcp_ack : ℕ
dhcp_ack = 5

-- `pkt[i..i + bytes.len()].copy_from_slice(bytes)` within the packet.
unfoldable pub write_at : ℕ → List ℕ → List ℕ → List ℕ
write_at i bytes [] = []
write_at (suc i) bytes (x ∷ pkt) = x ∷ write_at i bytes pkt
write_at zero [] (x ∷ pkt) = x ∷ pkt
write_at zero (b ∷ bytes) (x ∷ pkt) = b ∷ write_at zero bytes pkt

abbrev pub router_option : Option Ipv4Addr → List ℕ
router_option none = []
router_option (some gw) = opt_router ∷ 4 ∷ octets gw

-- The 236 bytes in front of the cookie, up to the server's address.
unfoldable pub address_fields : ℕ → Ipv4Addr → Ipv4Addr → List ℕ
unfolding write_at
address_fields xid yiaddr siaddr =
    let pkt = replicate 236 0 in
    let pkt = write_at 0 (2 ∷ 1 ∷ 6 ∷ 0 ∷ []) pkt in
    let pkt = write_at 4 (u32_to_be xid) pkt in
    let pkt = write_at 16 (octets yiaddr) pkt in write_at 20 (octets siaddr) pkt

module _ (op xid : ℕ) (chaddr : List ℕ) (yiaddr siaddr subnet : Ipv4Addr)
    (gateway : Option Ipv4Addr) (lease_secs : ℕ) (boot_file : Str) where
  unfoldable pub fixed_fields : List ℕ
  unfolding address_fields
  fixed_fields =
      let pkt = write_at 28 (take 16 chaddr) (address_fields xid yiaddr siaddr) in
      write_at 108 (take 127 boot_file) pkt

  unfoldable pub options : List ℕ
  options =
      (opt_message_type ∷ 1 ∷ op ∷ [])
      ++ (opt_server_id ∷ 4 ∷ octets siaddr)
      ++ (opt_subnet_mask ∷ 4 ∷ octets subnet)
      ++ router_option gateway
      ++ (opt_lease_time ∷ 4 ∷ u32_to_be lease_secs)
      ++ (opt_tftp_server ∷ 4 ∷ octets siaddr)
      ++ (opt_boot_file ∷ min (length boot_file) 127 % 256 ∷ take 127 boot_file)
      ++ (opt_end ∷ [])

  unfoldable pub build_dhcp_reply : List ℕ
  unfolding fixed_fields options
  build_dhcp_reply = fixed_fields ++ dhcp_magic ++ options

-- The scan of the options for the message type. `skip` bytes belong to an option that was read;
-- `none` is the panic of the index out of bounds.
unfoldable pub scan_options : ℕ → ℕ → List ℕ → Option ℕ
scan_options msg_type skip [] = some msg_type
scan_options msg_type (suc skip) (x ∷ opts) = scan_options msg_type skip opts
scan_options msg_type zero (opt ∷ []) = some msg_type
scan_options msg_type zero (opt ∷ len ∷ []) =
    if opt == opt_end
    then some msg_type
    else if opt == 0
    then some msg_type
    else if opt == opt_message_type && leb 1 len
    then none
    else some msg_type
scan_options msg_type zero (opt ∷ len ∷ value ∷ opts) = elim (opt == opt_end) [
  | true ↦ some msg_type
  | false ↦ elim (opt == 0) [
    | true ↦ scan_options msg_type zero (len ∷ value ∷ opts)
    | false ↦ elim (opt == opt_message_type && leb 1 len) [
      | true ↦ scan_options value len (value ∷ opts)
      | false ↦ scan_options msg_type len (value ∷ opts)
    ]
  ]
]
