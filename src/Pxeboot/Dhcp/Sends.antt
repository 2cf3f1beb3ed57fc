-- ===== src/Pxeboot/Dhcp/Sends.antt =====
-- What the DHCP server of crates/pxeboot/src/main.rs sends, over its whole run.
use hivebus.Prelude.{
  ℕ, ◌≤◌, ◌<◌, inl, inr, Option, none, some, List, arith, All, All-take, All-drop, length, drop,
  Option-cases, if◌then◌else◌, ◌==◌, nat_eq,
}
use hivebus.Std.Bytes.{IsBytes}
use hivebus.Std.HashMap
use hivebus.Std.Net.{Ipv4Addr, IsIpv4, Datagram}
use hivebus.Proto.Mac.{Mac}
use hivebus.Pxeboot.Boot.{Config, BootTable, FileWrite, mac_eq}
use hivebus.Pxeboot.Lease.{Leases, static_of, allocate_ip}
use hivebus.Pxeboot.Dhcp.{dhcp_discover, dhcp_offer, dhcp_ack}
use hivebus.Pxeboot.Dhcp.Typed.{listed, build_dhcp_reply-IsBytes}
use hivebus.Pxeboot.Dhcp.Handle.{
  Tables, Outcome, panicked, served, Request, request_of, mac_of, discovered, script_of, reply_to,
  offer, answer_dhcp, on_dhcp,
}
use hivebus.Pxeboot.Dhcp.Run.{received, on_dhcp-cases}
use hivebus.Pxeboot.Dhcp.Kept.{
  IsTypedConfig, IsTypedEntry, IsTyped, mac_of-IsMac, discovered-IsTypedEntry, find_in_pool-IsIpv4,
  static_of-IsIpv4, script_of-IsBytes,
}

-- A datagram of bytes that fits into the smallest buffer that a client of DHCP has.
pub record IsSendable (g : Datagram) : Type 0 where
  pub bytes : IsBytes g.bytes
  pub size : length g.bytes ≤ 403

abbrev pub EndsTyped : Outcome → Type 0
EndsTyped panicked = Unit
EndsTyped (served tables files replies) = IsTyped tables × All IsSendable replies

-- What an allocation gives.
abbrev GivesTyped : Option Ipv4Addr × Leases → Type 0
GivesTyped (got, leases) =
    All IsIpv4 (listed got) × HashMap.AllEntries (λ mac l. IsIpv4 l.ip) leases

module _ (cfg : Config) (now : ℕ) (typed : IsTypedConfig cfg) where
  allocate_ip-GivesTyped :
      (mac : Mac) (tables : Tables)
      → IsTyped tables
      → GivesTyped (
          allocate_ip mac tables.boot_table cfg.pool_start cfg.pool_end cfg.lease_secs now
            tables.leases)
  unfolding allocate_ip
  allocate_ip-GivesTyped mac tables t =
      elim (Option-cases (static_of (HashMap.get tables.boot_table mac))) [
        | inr (ip, s) ↦
            rw (allocate_ip, s)
              (rw s at (static_of-IsIpv4 tables.boot_table mac t.boot_table), t.leases)
        | inl s ↦ elim (Option-cases (HashMap.get tables.leases mac)) [
          | inl e ↦
              rw (allocate_ip, s, e)
                (find_in_pool-IsIpv4 cfg.pool_start cfg.pool_end tables.leases, t.leases)
          | inr (l, e) ↦
              let valid =
                HashMap.AllEntries-get (λ mac l. IsIpv4 l.ip) tables.leases mac t.leases e in
              rw (allocate_ip, s, e)
                (
                  (valid, tt),
                  HashMap.AllEntries-insert (λ mac l. IsIpv4 l.ip) tables.leases mac _ valid
                      t.leases,
                )
        ]
      ]

  reply_to-IsSendable :
      (msg_type : ℕ) (req : Request) (boot_table : BootTable) (ip : Ipv4Addr)
      → IsBytes req.chaddr
      → HashMap.AllEntries (λ mac entry. IsTypedEntry entry) boot_table
      → IsIpv4 ip
      → IsSendable (reply_to cfg msg_type req boot_table ip)
  unfolding reply_to
  reply_to-IsSendable msg_type req boot_table ip h table valid =
      let op = if msg_type == dhcp_discover then dhcp_offer else dhcp_ack in
      let op_byte : op < 256 = ground arith in
      let boot_file = script_of (HashMap.get boot_table (mac_of req.chaddr)) cfg.boot_file in
      let file_bytes =
        script_of-IsBytes boot_table (mac_of req.chaddr) cfg.boot_file table typed.boot_file in
      let (bytes, size) =
        build_dhcp_reply-IsBytes op req.xid req.chaddr ip cfg.server_ip cfg.subnet_mask
          cfg.lease_secs boot_file op_byte h valid typed.server typed.subnet file_bytes cfg.gateway
          typed.gateway in
      record { bytes = bytes; size = size }

  offer-EndsTyped :
      (msg_type : ℕ) (req : Request) (boot_table : BootTable) (files : List FileWrite)
      (got : Option Ipv4Addr × Leases)
      → IsBytes req.chaddr
      → HashMap.AllEntries (λ mac entry. IsTypedEntry entry) boot_table
      → GivesTyped got
      → EndsTyped (offer cfg now msg_type req boot_table files got)
  unfolding offer
  offer-EndsTyped msg_type req boot_table files (none, leases) h table (gives, valid) =
      (record { boot_table = table; leases = valid }, tt)
  offer-EndsTyped msg_type req boot_table files (some ip, leases) h table (gives, valid) = (
    record {
      boot_table = table;
      leases =
          HashMap.AllEntries-insert (λ mac l. IsIpv4 l.ip) leases (mac_of req.chaddr) _ gives.0
            valid;
    },
    (reply_to-IsSendable msg_type req boot_table ip h table gives.0, tt),
  )

  answer_dhcp-EndsTyped :
      (msg_type : ℕ) (req : Request) (tables : Tables)
      → IsBytes req.chaddr
      → IsTyped tables
      → EndsTyped (answer_dhcp cfg now msg_type req tables)
  unfolding answer_dhcp HashMap.or_insert
  answer_dhcp-EndsTyped msg_type req tables h t =
      let mac = mac_of req.chaddr in
      elim (Option-cases (HashMap.get tables.boot_table mac)) [
        | inl e ↦
            let added = HashMap.insert tables.boot_table mac (discovered mac) in
            let table =
              HashMap.AllEntries-insert (λ mac entry. IsTypedEntry entry) tables.boot_table mac
                (discovered mac) (discovered-IsTypedEntry mac (mac_of-IsMac req.chaddr h))
                t.boot_table in
            rw (e, answer_dhcp, HashMap.or_insert)
              (offer-EndsTyped msg_type req added _ _ h table (
                allocate_ip-GivesTyped mac (record tables { boot_table = added })
                  (record { boot_table = table; leases = t.leases })))
        | inr (entry, e) ↦
            rw (e, answer_dhcp, HashMap.or_insert)
              (offer-EndsTyped msg_type req tables.boot_table _ _ h t.boot_table
                (allocate_ip-GivesTyped mac tables t))
      ]

  -- Whatever bytes the DHCP server receives, each datagram that it sends is made of bytes and has
  -- at most 403 of them, and the addresses of its leases and its boot entries stay addresses and
  -- the scripts stay bytes. The addresses and the boot file of the configuration and the entries
  -- and leases before are of these types too.
  pub on_dhcp-EndsTyped :
      (datagram : List ℕ) (tables : Tables)
      → IsBytes datagram
      → IsTyped tables
      → EndsTyped (on_dhcp cfg now datagram tables)
  on_dhcp-EndsTyped datagram tables h t = elim (on_dhcp-cases cfg now datagram tables) [
    | inl e ↦ rw e tt
    | inr (inl e) ↦ rw e (t, tt)
    | inr (inr (msg_type, e)) ↦
        let whole = All-take (λ b. b < 256) 576 datagram h in
        let chaddr =
          All-take (λ b. b < 256) 16 (drop 28 (received datagram))
            (All-drop (λ b. b < 256) 28 (received datagram) whole) in
        rw e (answer_dhcp-EndsTyped msg_type (request_of (received datagram)) tables chaddr t)
  ]
