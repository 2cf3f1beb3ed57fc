-- ===== src/Pxeboot/Dhcp/Sound.antt =====
-- The leases of crates/pxeboot/src/main.rs over a run of its DHCP server.
use hivebus.Prelude.{
  ℕ, ◌+◌, ◌≡◌, refl, inl, inr, Option, none, some, ◌||◌, List, [], ◌==◌, nat_eq, Option-cases,
  if_branches, take, drop, if◌then◌else◌, length, ltb, not, bytes_eq,
}
use hivebus.Std.HashMap
use hivebus.Std.HashMap.{get-insert}
use hivebus.Std.Net.{Ipv4Addr, IsIpv4, to_u32}
use hivebus.Std.Time.{from_secs}
use hivebus.Proto.Mac.{Mac}
use hivebus.Pxeboot.Boot.{Config, BootTable, FileWrite, mac_eq}
use hivebus.Pxeboot.Lease.{Lease, Leases, static_of, allocate_ip}
use hivebus.Pxeboot.Lease.Pool.{Allocation, lowest_free, none_free, allocate_ip-Allocation}
use hivebus.Pxeboot.Lease.Unique.{IsUnique, renew-IsUnique, grant-IsUnique}
use hivebus.Pxeboot.Dhcp.{dhcp_magic, scan_options, dhcp_discover, dhcp_request}
use hivebus.Pxeboot.Dhcp.Handle.{
  Tables, Outcome, panicked, served, Request, request_of, mac_of, discovered, offer, answer_dhcp,
  on_dhcp,
}

-- No entry has a static address, and no address is leased twice.
pub record IsSound (tables : Tables) : Type 0 where
  pub plain : HashMap.AllEntries (λ mac entry. entry.ip ≡ none) tables.boot_table
  pub leases : IsUnique tables.leases

-- What is required of the tables after a datagram, if there are any.
abbrev pub EndsSound : Outcome → Type 0
EndsSound panicked = Unit
EndsSound (served tables files replies) = IsSound tables

static_of-plain :
    (boot_table : BootTable) (mac : Mac)
    → HashMap.AllEntries (λ mac entry. entry.ip ≡ none) boot_table
    → static_of (HashMap.get boot_table mac) ≡ none
static_of-plain boot_table mac plain = elim (Option-cases (HashMap.get boot_table mac)) [
  | inl e ↦ rw e refl
  | inr (entry, e) ↦ rw e (HashMap.AllEntries-get _ boot_table mac plain e)
]

module _ (cfg : Config) (now : ℕ) (valid : IsIpv4 cfg.pool_end) where
  offer-EndsSound :
      (msg_type : ℕ) (req : Request) (boot_table : BootTable) (files : List FileWrite)
      (leases : Leases)
      → HashMap.AllEntries (λ mac entry. entry.ip ≡ none) boot_table
      → IsUnique leases
      → EndsSound (
          offer cfg now msg_type req boot_table files (
            allocate_ip
              (mac_of req.chaddr)
              boot_table
              cfg.pool_start
              cfg.pool_end
              cfg.lease_secs
              now
              leases))
  unfolding offer allocate_ip
  offer-EndsSound msg_type req boot_table files leases plain u =
      let mac = mac_of req.chaddr in
      let no_static = static_of-plain boot_table mac plain in
      elim (Option-cases (HashMap.get leases mac)) [
        | inl e ↦
            let (o, given, alloc) =
              allocate_ip-Allocation mac boot_table cfg.pool_start cfg.pool_end cfg.lease_secs now
                leases valid no_static e in
            rw given (granted o alloc)
        | inr (lease, e) ↦
            rw (allocate_ip, no_static, e) (record { plain = plain; leases = renew_twice lease e })
      ]
    where
      granted :
          (o : Option Ipv4Addr)
          → Allocation (to_u32 cfg.pool_start) (to_u32 cfg.pool_end) leases o
          → EndsSound (offer cfg now msg_type req boot_table files (o, leases))
      granted (some ip) (lowest_free _ lo hi free below) = record {
        plain = plain;
        leases = grant-IsUnique leases _ _ free u;
      }
      granted none (none_free all) = record { plain = plain; leases = u }

      renew_twice :
          (lease : Lease)
          → HashMap.get leases (mac_of req.chaddr) ≡ some lease
          → IsUnique (
              HashMap.insert
                (HashMap.insert leases
                  (mac_of req.chaddr)
                  (record lease { expires = now + from_secs cfg.lease_secs }))
                (mac_of req.chaddr)
                (record { ip = lease.ip; expires = now + from_secs cfg.lease_secs }))
      renew_twice lease e =
          let renewed : Lease = record lease { expires = now + from_secs cfg.lease_secs } in
          renew-IsUnique _ (mac_of req.chaddr) renewed _
            (HashMap.get-insert_self leases (mac_of req.chaddr) renewed) refl
            (renew-IsUnique leases (mac_of req.chaddr) lease renewed e refl u)

  answer_dhcp-EndsSound :
      (msg_type : ℕ) (req : Request) (tables : Tables)
      → IsSound tables
      → EndsSound (answer_dhcp cfg now msg_type req tables)
  unfolding answer_dhcp HashMap.or_insert
  answer_dhcp-EndsSound msg_type req tables sound =
      let mac = mac_of req.chaddr in
      elim (Option-cases (HashMap.get tables.boot_table mac)) [
        | inl e ↦
            rw (e, answer_dhcp, HashMap.or_insert)
              (offer-EndsSound msg_type req (HashMap.insert tables.boot_table mac (discovered mac))
                _ tables.leases
                (HashMap.AllEntries-insert _ tables.boot_table mac (discovered mac)
                  (unfold discovered in refl) sound.plain)
                sound.leases)
        | inr (entry, e) ↦
            rw (e, answer_dhcp, HashMap.or_insert)
              (offer-EndsSound msg_type req tables.boot_table _ tables.leases sound.plain
                sound.leases)
      ]

  -- If no boot entry has a static address and no network address is leased to two hardware
  -- addresses, then the same holds after every datagram on which the task does not panic. The end
  -- of the pool is an IPv4 address.
  pub on_dhcp-EndsSound :
      (datagram : List ℕ) (tables : Tables)
      → IsSound tables
      → EndsSound (on_dhcp cfg now datagram tables)
  unfolding on_dhcp
  on_dhcp-EndsSound datagram tables sound =
      let received = take 576 datagram in
      if_branches EndsSound
        (ltb (length received) 240 || not (take 4 (drop 236 received) == dhcp_magic)) (λ p. sound)
        (λ p. scanned (scan_options 0 0 (drop 240 received)))
    where
      scanned :
          (o : Option ℕ)
          → EndsSound (elim o [
            | none ↦ panicked
            | some msg_type ↦
                (if msg_type == dhcp_discover || msg_type == dhcp_request
                  then answer_dhcp cfg now msg_type (request_of (take 576 datagram)) tables
                  else served tables [] [])
          ])
      scanned none = tt
      scanned (some msg_type) =
          if_branches EndsSound (msg_type == dhcp_discover || msg_type == dhcp_request)
            (λ p. answer_dhcp-EndsSound msg_type (request_of (take 576 datagram)) tables sound)
            (λ p. sound)
