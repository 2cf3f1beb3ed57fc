-- ===== src/Pxeboot/Dhcp/Effect.antt =====
-- What a discover or a request does to the leases of crates/pxeboot/src/main.rs, on every branch.
use hivebus.Prelude.{
  ℕ, ◌+◌, ◌≡◌, refl, ap, ◌∙◌, inl, inr, none, some, List, [], ◌∷◌, ◌==◌, nat_eq, bytes_eq, arith,
  if◌then◌else◌, Option-cases,
}
use hivebus.Std.HashMap
use hivebus.Std.HashMap.{get-insert}
use hivebus.Std.Net.{Ipv4Addr}
use hivebus.Std.Time.{from_secs}
use hivebus.Proto.Mac.{Mac}
use hivebus.Pxeboot.Boot.{Config, BootEntry, BootTable, FileWrite, mac_eq}
use hivebus.Pxeboot.Lease.{Lease, Leases, static_of, find_in_pool, allocate_ip}
use hivebus.Pxeboot.Dhcp.Handle.{
  Tables, Outcome, served, Request, mac_of, discovered, reply_to, offer, answer_dhcp,
}

-- The boot table with the client in it.
abbrev pub with_entry : BootTable → Mac → BootTable
with_entry boot_table mac = (HashMap.or_insert boot_table mac (discovered mac)).1

-- A client without a static address has none after it is entered.
pub with_entry-NoStatic :
    (boot_table : BootTable) (mac : Mac)
    → static_of (HashMap.get boot_table mac) ≡ none
    → static_of (HashMap.get (with_entry boot_table mac) mac) ≡ none
unfolding discovered
with_entry-NoStatic boot_table mac plain = elim (Option-cases (HashMap.get boot_table mac)) [
  | inl e ↦
      let added : with_entry boot_table mac ≡ HashMap.insert boot_table mac (discovered mac) =
        ap (λ (p : BootEntry × BootTable). p.1) of_entry ∙ (rw e refl) in
      ap (λ (b : BootTable). static_of (HashMap.get b mac)) added
      ∙ ap static_of (HashMap.get-insert_self boot_table mac (discovered mac))
  | inr (entry, e) ↦
      let unchanged : with_entry boot_table mac ≡ boot_table =
        ap (λ (p : BootEntry × BootTable). p.1) of_entry ∙ (rw e refl) in
      ap (λ (b : BootTable). static_of (HashMap.get b mac)) unchanged ∙ plain
]
  where
    of_entry :
        HashMap.or_insert boot_table mac (discovered mac) ≡ (elim (HashMap.get boot_table mac) [
          | none ↦ (discovered mac, HashMap.insert boot_table mac (discovered mac))
          | some entry ↦ (entry, boot_table)
        ])
    of_entry = HashMap.or_insert_lem boot_table mac (discovered mac)

module _ (cfg : Config) (now msg_type : ℕ) (req : Request) where
  abbrev mac : Mac
  mac = mac_of req.chaddr

  abbrev granted : Ipv4Addr → Lease
  granted ip = record { ip = ip; expires = now + from_secs cfg.lease_secs }

  -- Either nothing is free, or the client is given an address: of the leases only the client's
  -- changes, and one that it has is kept if it has no static address.
  pub data Effect (boot_table : BootTable) (leases : Leases) : Outcome → Type 0 where
    exhausted :
        (files : List FileWrite)
        → static_of (HashMap.get boot_table mac) ≡ none
        → HashMap.get leases mac ≡ none
        → Effect boot_table leases
            (served (record { boot_table = boot_table; leases = leases }) files [])
    given :
        (ip : Ipv4Addr) (leases' : Leases) (files : List FileWrite)
        → ((k : Mac)
            → HashMap.get leases' k
              ≡ (if mac == k then some (granted ip) else HashMap.get leases k))
        → ((l : Lease)
            → static_of (HashMap.get boot_table mac) ≡ none
            → HashMap.get leases mac ≡ some l
            → ip ≡ l.ip)
        → Effect boot_table leases (
            served
              (record { boot_table = boot_table; leases = leases' })
              files
              (reply_to cfg msg_type req boot_table ip ∷ []))

  offer-Effect :
      (boot_table : BootTable) (leases : Leases) (files : List FileWrite)
      → Effect boot_table leases (
          offer cfg now msg_type req boot_table files
            (allocate_ip mac boot_table cfg.pool_start cfg.pool_end cfg.lease_secs now leases))
  unfolding offer allocate_ip
  offer-Effect boot_table leases files =
      elim (Option-cases (static_of (HashMap.get boot_table mac))) [
        | inr (ip, s) ↦
            rw (s, allocate_ip)
              (given ip _ files (λ k. get-insert leases mac k (granted ip))
                (λ l no_static _. absurd (ground arith)))
        | inl s ↦ elim (Option-cases (HashMap.get leases mac)) [
          | inr (l, e) ↦
              rw (s, e, allocate_ip)
                (given l.ip _ files
                  (λ k. ground (
                    arith,
                    get-insert
                        (HashMap.insert leases mac
                          (record l { expires = now + from_secs cfg.lease_secs }))
                        mac k (granted l.ip),
                    get-insert leases mac k (record l { expires = now + from_secs cfg.lease_secs }),
                  ))
                  (λ l' _ e'. ground arith))
          | inl e ↦ elim (Option-cases (find_in_pool cfg.pool_start cfg.pool_end leases)) [
            | inl f ↦ rw (s, e, f, allocate_ip) (exhausted files s e)
            | inr (ip, f) ↦
                rw (s, e, f, allocate_ip)
                  (given ip _ files (λ k. get-insert leases mac k (granted ip))
                    (λ l _ e'. absurd (ground arith)))
          ]
        ]
      ]

  pub answer_dhcp-Effect :
      (tables : Tables)
      → Effect
          (with_entry tables.boot_table mac)
          tables.leases
          (answer_dhcp cfg now msg_type req tables)
  unfolding answer_dhcp
  answer_dhcp-Effect tables = offer-Effect (with_entry tables.boot_table mac) tables.leases _
