-- ===== src/Pxeboot/Dhcp/Handle.antt =====
-- The loop of `dhcp_server` of crates/pxeboot/src/main.rs: what one datagram does. The clock is
-- read once. A file that is to be written is a value, whether or not the file system takes it: the
-- result of the write is only logged.
use hivebus.Prelude.{
  ℕ, ◌+◌, Option, none, some, ◌||◌, not, List, [], ◌∷◌, ◌++◌, ◌==◌, nat_eq, bytes_eq, bit_and, ltb,
  if◌then◌else◌, length, take, drop, get_or,
}
use hivebus.Result.{Result, ok, err}
use hivebus.Std.Bytes.{u16_from_be, u32_from_be}
use hivebus.Std.HashMap
use hivebus.Std.Net.{Ipv4Addr, broadcast, v4, Datagram}
use hivebus.Std.Text.{Str, str}
use hivebus.Std.Time.{from_secs}
use hivebus.Proto.Mac.{Mac}
use hivebus.Pxeboot.Boot.{
  Config, BootEntry, BootTable, FileWrite, mac_eq, fmt_mac, default_script_path, write_ipxe_script,
}
use hivebus.Pxeboot.Lease.{Leases, allocate_ip}
use hivebus.Pxeboot.Dhcp.{
  dhcp_magic, dhcp_discover, dhcp_offer, dhcp_request, dhcp_ack, build_dhcp_reply, scan_options,
}

pub record Tables : Type 0 where
  pub boot_table : BootTable
  pub leases : Leases

-- What a datagram leads to: the tables after it, the files and the reply; or the task panics.
pub data Outcome : Type 0 where
  panicked : Outcome
  served : Tables → List FileWrite → List Datagram → Outcome

-- What the server reads of a request.
pub record Request : Type 0 where
  pub xid : ℕ
  pub flags : ℕ
  pub chaddr : List ℕ

abbrev pub byte : List ℕ → ℕ → ℕ
byte received i = get_or received i 0

abbrev pub request_of : List ℕ → Request
request_of received = record {
  xid = u32_from_be (byte received 4) (byte received 5) (byte received 6) (byte received 7);
  flags = u16_from_be (byte received 10) (byte received 11);
  chaddr = take 16 (drop 28 received);
}

-- `chaddr[..6]`
abbrev pub mac_of : List ℕ → Mac
mac_of chaddr = record {
  m0 = byte chaddr 0;
  m1 = byte chaddr 1;
  m2 = byte chaddr 2;
  m3 = byte chaddr 3;
  m4 = byte chaddr 4;
  m5 = byte chaddr 5;
}

-- The entry of a node that was not registered.
unfoldable pub discovered : Mac → BootEntry
unfolding fmt_mac default_script_path
discovered mac = record {
  hostname = str "node-" ++ fmt_mac mac;
  ip = none;
  ipxe_script = some (default_script_path mac);
  tags = [];
}

abbrev pub script_of : Option BootEntry → Str → Str
script_of none default = default
script_of (some entry) default = elim entry.ipxe_script [ none ↦ default | some path ↦ path ]

abbrev pub files_of : Result (List FileWrite) → List FileWrite
files_of (ok files) = files
files_of (err e) = []

unfoldable pub reply_to : Config → ℕ → Request → BootTable → Ipv4Addr → Datagram
reply_to cfg msg_type req boot_table offered_ip =
    let boot_file = script_of (HashMap.get boot_table (mac_of req.chaddr)) cfg.boot_file in
    let reply_op = if msg_type == dhcp_discover then dhcp_offer else dhcp_ack in
    record {
      to = if not (bit_and req.flags 0x8000 == 0) then v4 broadcast 68 else v4 offered_ip 68;
      bytes =
          build_dhcp_reply reply_op req.xid req.chaddr offered_ip cfg.server_ip cfg.subnet_mask
            cfg.gateway cfg.lease_secs boot_file;
    }

module _ (cfg : Config) (now : ℕ) where
  -- The allocation and what follows it.
  unfoldable pub offer :
      ℕ → Request → BootTable → List FileWrite → Option Ipv4Addr × Leases → Outcome
  unfolding reply_to
  offer msg_type req boot_table files (none, leases) =
      served (record { boot_table = boot_table; leases = leases }) files []
  offer msg_type req boot_table files (some offered_ip, leases) =
      served
        (record {
          boot_table = boot_table;
          leases =
              HashMap.insert leases (mac_of req.chaddr)
                (record { ip = offered_ip; expires = now + from_secs cfg.lease_secs });
        })
        files (reply_to cfg msg_type req boot_table offered_ip ∷ [])

  -- A discover or a request.
  unfoldable pub answer_dhcp : ℕ → Request → Tables → Outcome
  unfolding discovered write_ipxe_script allocate_ip offer HashMap.or_insert
  answer_dhcp msg_type req tables =
      let mac = mac_of req.chaddr in
      let (entry, boot_table) = HashMap.or_insert tables.boot_table mac (discovered mac) in
      offer msg_type req boot_table (files_of (write_ipxe_script cfg mac entry))
        (allocate_ip mac boot_table cfg.pool_start cfg.pool_end cfg.lease_secs now tables.leases)

  -- The receive buffer holds 576 bytes.
  unfoldable pub on_dhcp : List ℕ → Tables → Outcome
  unfolding answer_dhcp scan_options
  on_dhcp datagram tables =
      let received = take 576 datagram in
      if ltb (length received) 240 || not (take 4 (drop 236 received) == dhcp_magic)
      then served tables [] []
      else elim (scan_options 0 0 (drop 240 received)) [
        | none ↦ panicked
        | some msg_type ↦
            (if msg_type == dhcp_discover || msg_type == dhcp_request
              then answer_dhcp msg_type (request_of received) tables
              else served tables [] [])
      ]
