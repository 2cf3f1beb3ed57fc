-- ===== src/Pxeboot/Dhcp/Typed.antt =====
-- The bytes that the DHCP server of crates/pxeboot/src/main.rs sends. The numbers of the model have
-- no bound; the values of the source have one, by their types.
use hivebus.Prelude.{
  ℕ, zero, suc, ◌%◌, min, ◌≤◌, ◌<◌, ◌≡◌, refl, none, some, Option, List, [], ◌∷◌, ◌++◌, arith, All,
  All-append, All-take, length, take, replicate, length-append, length-take,
}
use hivebus.Std.Bytes.{IsBytes, u32_to_be}
use hivebus.Std.Net.{Ipv4Addr, IsIpv4, octets}
use hivebus.Std.Text.{Str}
use hivebus.Pxeboot.Dhcp.{
  dhcp_magic, write_at, address_fields, router_option, fixed_fields, options, build_dhcp_reply,
  opt_message_type, opt_server_id, opt_subnet_mask, opt_lease_time, opt_tftp_server, opt_boot_file,
  opt_end,
}
use hivebus.Pxeboot.Dhcp.Reply.{length-fixed_fields}

write_at-IsBytes :
    (i : ℕ) (bytes pkt : List ℕ) → IsBytes bytes → IsBytes pkt → IsBytes (write_at i bytes pkt)
unfolding write_at
write_at-IsBytes i bytes [] hb hp = tt
write_at-IsBytes zero [] (x ∷ pkt) hb hp = hp
write_at-IsBytes zero (b ∷ bytes) (x ∷ pkt) hb hp =
    (hb.0, write_at-IsBytes zero bytes pkt hb.1 hp.1)
write_at-IsBytes (suc i) bytes (x ∷ pkt) hb hp = (hp.0, write_at-IsBytes i bytes pkt hb hp.1)

replicate-IsBytes : (n : ℕ) → IsBytes (replicate n 0)
replicate-IsBytes zero = tt
replicate-IsBytes (suc n) = (omega arith, replicate-IsBytes n)

u32_to_be-IsBytes : (n : ℕ) → IsBytes (u32_to_be n)
u32_to_be-IsBytes n = omega arith

octets-IsBytes : (ip : Ipv4Addr) → IsIpv4 ip → IsBytes (octets ip)
octets-IsBytes ip h = omega arith

IsBytes-append : (p q : List ℕ) → IsBytes p → IsBytes q → IsBytes (p ++ q)
IsBytes-append p q hp hq = All-append (λ b. b < 256) p q hp hq

abbrev pub listed : Option Ipv4Addr → List Ipv4Addr
listed none = []
listed (some ip) = ip ∷ []

module _ (op xid : ℕ) (chaddr : List ℕ) (yiaddr siaddr subnet : Ipv4Addr) (lease_secs : ℕ)
    (boot_file : Str) (op_byte : op < 256) (chaddr_bytes : IsBytes chaddr)
    (yiaddr_valid : IsIpv4 yiaddr) (siaddr_valid : IsIpv4 siaddr) (subnet_valid : IsIpv4 subnet)
    (file_bytes : IsBytes boot_file) where
  address_fields-IsBytes : IsBytes (address_fields xid yiaddr siaddr)
  unfolding address_fields
  address_fields-IsBytes =
      let p0 = write_at 0 (2 ∷ 1 ∷ 6 ∷ 0 ∷ []) (replicate 236 0) in
      let p1 = write_at 4 (u32_to_be xid) p0 in
      let p2 = write_at 16 (octets yiaddr) p1 in
      write_at-IsBytes 20 (octets siaddr) p2 (octets-IsBytes siaddr siaddr_valid) (
        write_at-IsBytes 16 (octets yiaddr) p1 (octets-IsBytes yiaddr yiaddr_valid) (
          write_at-IsBytes 4 (u32_to_be xid) p0 (u32_to_be-IsBytes xid) (
            write_at-IsBytes 0 (2 ∷ 1 ∷ 6 ∷ 0 ∷ []) (replicate 236 0) (omega arith)
              (replicate-IsBytes 236))))

  router-IsBytes : (gw : Option Ipv4Addr) → All IsIpv4 (listed gw) → IsBytes (router_option gw)
  router-IsBytes none h = tt
  router-IsBytes (some ip) h = (omega arith, (omega arith, octets-IsBytes ip h.0))

  length-router_option : (gw : Option Ipv4Addr) → length (router_option gw) ≤ 6
  length-router_option none = omega arith
  length-router_option (some ip) = omega arith

  -- From the lease time on.
  abbrev last_options : List ℕ
  last_options =
      (opt_lease_time ∷ 4 ∷ u32_to_be lease_secs)
      ++ (opt_tftp_server ∷ 4 ∷ octets siaddr)
      ++ (opt_boot_file ∷ min (length boot_file) 127 % 256 ∷ take 127 boot_file)
      ++ (opt_end ∷ [])

  last_options-IsBytes : IsBytes last_options
  last_options-IsBytes =
      let file = All-take (λ b. b < 256) 127 boot_file file_bytes in
      let boot = opt_boot_file ∷ min (length boot_file) 127 % 256 ∷ take 127 boot_file in
      let server = opt_tftp_server ∷ 4 ∷ octets siaddr in
      IsBytes-append (opt_lease_time ∷ 4 ∷ u32_to_be lease_secs) (server ++ boot ++ opt_end ∷ [])
        (omega arith)
        (IsBytes-append server (boot ++ opt_end ∷ []) (omega arith)
          (IsBytes-append boot (opt_end ∷ []) (omega arith, (omega arith, file)) (omega arith)))

  length-last_options : length last_options ≤ 142
  length-last_options =
      omega (arith, length-append (take 127 boot_file) (opt_end ∷ []), length-take 127 boot_file)

  abbrev first_options : List ℕ
  first_options =
      opt_message_type ∷ 1 ∷ op ∷ opt_server_id ∷ 4 ∷ octets siaddr
      ++ opt_subnet_mask ∷ 4 ∷ octets subnet

  options_lem :
      (gw : Option Ipv4Addr)
      → options op xid chaddr yiaddr siaddr subnet gw lease_secs boot_file
        ≡ first_options ++ (router_option gw ++ last_options)
  unfolding options
  options_lem none = refl
  options_lem (some ip) = refl

  module _ (gateway : Option Ipv4Addr) (gateway_valid : All IsIpv4 (listed gateway)) where
    fixed_fields-IsBytes :
        IsBytes (fixed_fields op xid chaddr yiaddr siaddr subnet gateway lease_secs boot_file)
    unfolding fixed_fields
    fixed_fields-IsBytes =
        let p = write_at 28 (take 16 chaddr) (address_fields xid yiaddr siaddr) in
        write_at-IsBytes 108 (take 127 boot_file) p
          (All-take (λ b. b < 256) 127 boot_file file_bytes)
          (write_at-IsBytes 28 (take 16 chaddr) (address_fields xid yiaddr siaddr)
            (All-take (λ b. b < 256) 16 chaddr chaddr_bytes) address_fields-IsBytes)

    options-IsBytes :
        IsBytes (options op xid chaddr yiaddr siaddr subnet gateway lease_secs boot_file)
    options-IsBytes =
        let rest = router_option gateway ++ last_options in
        rw (options_lem gateway) (
          IsBytes-append first_options rest (omega arith) (
            IsBytes-append (router_option gateway) last_options
              (router-IsBytes gateway gateway_valid) last_options-IsBytes))

    length-options :
        length (options op xid chaddr yiaddr siaddr subnet gateway lease_secs boot_file) ≤ 163
    length-options = rw (options_lem gateway) (
        omega (
          arith,
          length-append (router_option gateway) last_options,
          length-router_option gateway,
          length-last_options,
        ))

    -- A reply is made of bytes and takes at most 403 of them.
    pub build_dhcp_reply-IsBytes :
        IsBytes (build_dhcp_reply op xid chaddr yiaddr siaddr subnet gateway lease_secs boot_file)
        × (length (build_dhcp_reply op xid chaddr yiaddr siaddr subnet gateway lease_secs boot_file)
            ≤ 403)
    unfolding build_dhcp_reply
    build_dhcp_reply-IsBytes =
        let fixed = fixed_fields op xid chaddr yiaddr siaddr subnet gateway lease_secs boot_file in
        let os = options op xid chaddr yiaddr siaddr subnet gateway lease_secs boot_file in
        (
          IsBytes-append (fixed ++ dhcp_magic) os
              (IsBytes-append fixed dhcp_magic fixed_fields-IsBytes (omega arith)) options-IsBytes,
          omega (
            arith,
            length-append (fixed ++ dhcp_magic) os,
            length-append fixed dhcp_magic,
            length-fixed_fields op xid chaddr yiaddr siaddr subnet lease_secs boot_file gateway,
            length-options,
          ),
        )
