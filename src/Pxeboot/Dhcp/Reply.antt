-- ===== src/Pxeboot/Dhcp/Reply.antt =====
-- The fields of the DHCP replies of crates/pxeboot/src/main.rs, by their offsets in the packet.
use hivebus.Prelude.{
  ℕ, ◌+◌, ◌%◌, min, ◌≤◌, ◌≡◌, ◌≢◌, refl, ◌∙◌, Option, none, some, List, [], ◌∷◌, ◌++◌, arith,
  length, take, drop, drop-append, drop-drop, drop-replicate, replicate, sym, ap, suc, ◌-◌,
  length-take, All, append_assoc, append-nil, length-append, take_of_length-le, nat_eq,
}
use hivebus.Std.Bytes.{u32_to_be}
use hivebus.Std.Net.{Ipv4Addr, octets}
use hivebus.Std.Text.{Str}
use hivebus.Pxeboot.Dhcp.{
  dhcp_magic, write_at, address_fields, fixed_fields, options, build_dhcp_reply, scan_options,
  opt_end, opt_message_type, opt_server_id, opt_subnet_mask, opt_router, opt_lease_time,
  opt_tftp_server, opt_boot_file,
}
use hivebus.Pxeboot.Dhcp.Fields.{
  slice, length-write_at, slice-write_at, slice-write_at_size, slice-write_at_before, slice-append,
  drop-write_at, drop-write_at_behind, drop-append_short,
}
use hivebus.Pxeboot.Dhcp.Options.{
  DhcpOption, IsOption, write_options, last_type, scan_options-write_options,
}

length-address_fields :
    (xid : ℕ) (yiaddr siaddr : Ipv4Addr) → length (address_fields xid yiaddr siaddr) ≡ 236
unfolding address_fields
length-address_fields xid yiaddr siaddr =
    rw (length-write_at, length-write_at, length-write_at, length-write_at)

-- The field of the boot file is empty before it is written.
zeros_behind :
    (xid : ℕ) (yiaddr siaddr : Ipv4Addr) (n : ℕ)
    → n ≤ 100
    → drop (108 + n) (address_fields xid yiaddr siaddr) ≡ 0 ∷ replicate (127 - n) 0
unfolding address_fields write_at
zeros_behind xid yiaddr siaddr n h =
    let e : 128 ≡ n + (128 - n) = omega arith in
    let e' : 128 - n ≡ suc (127 - n) = omega arith in
    sym (drop-drop 108 n (address_fields xid yiaddr siaddr))
    ∙ (ap (λ (k : ℕ). drop n (replicate k 0)) e
        ∙ (drop-replicate n (128 - n) 0 ∙ ap (λ (k : ℕ). replicate k 0) e'))

abbrev option_of : ℕ → List ℕ → DhcpOption
option_of code value = record { code = code; value = value }

abbrev router_options : Option Ipv4Addr → List DhcpOption
router_options none = []
router_options (some gw) = option_of opt_router (octets gw) ∷ []

module _ (op xid : ℕ) (chaddr : List ℕ) (yiaddr siaddr subnet : Ipv4Addr) (lease_secs : ℕ)
    (boot_file : Str) where
  last_options : List DhcpOption
  last_options =
      option_of opt_lease_time (u32_to_be lease_secs)
      ∷ option_of opt_tftp_server (octets siaddr)
      ∷ option_of opt_boot_file (take 127 boot_file)
      ∷ []

  -- The options of a reply.
  pub reply_options : Option Ipv4Addr → List DhcpOption
  reply_options gateway =
      option_of opt_message_type (op ∷ [])
      ∷ option_of opt_server_id (octets siaddr)
      ∷ option_of opt_subnet_mask (octets subnet)
      ∷ (router_options gateway ++ last_options)

  boot_size : min (length boot_file) 127 % 256 ≡ length (take 127 boot_file)
  boot_size = omega (arith, length-take 127 boot_file)

  options-write_options :
      (gw : Option Ipv4Addr)
      → options op xid chaddr yiaddr siaddr subnet gw lease_secs boot_file
        ≡ write_options (reply_options gw) ++ opt_end ∷ []
  unfolding options write_options reply_options last_options
  options-write_options none = rw (boot_size, append-nil)
  options-write_options (some gw) = rw (boot_size, append-nil)

  is_option :
      (code : ℕ) (value : List ℕ) → code ≢ 0 → code ≢ opt_end → IsOption (option_of code value)
  is_option code value pad end = record { not_pad = pad; not_end = end }

  last_options-IsOption : All IsOption last_options
  unfolding last_options
  last_options-IsOption = (
    is_option opt_lease_time _ (omega arith) (omega arith),
    (
      is_option opt_tftp_server _ (omega arith) (omega arith),
      (is_option opt_boot_file _ (omega arith) (omega arith), tt),
    ),
  )

  first_options-IsOption :
      (os : List DhcpOption)
      → All IsOption os
      → All IsOption (
          option_of opt_message_type (op ∷ [])
          ∷ option_of opt_server_id (octets siaddr)
          ∷ option_of opt_subnet_mask (octets subnet)
          ∷ os)
  first_options-IsOption os h = (
    is_option opt_message_type _ (omega arith) (omega arith),
    (
      is_option opt_server_id _ (omega arith) (omega arith),
      (is_option opt_subnet_mask _ (omega arith) (omega arith), h),
    ),
  )

  reply_options-IsOption : (gw : Option Ipv4Addr) → All IsOption (reply_options gw)
  unfolding reply_options
  reply_options-IsOption none = first_options-IsOption last_options last_options-IsOption
  reply_options-IsOption (some gw) =
      first_options-IsOption (option_of opt_router (octets gw) ∷ last_options)
        (is_option opt_router (octets gw) (omega arith) (omega arith), last_options-IsOption)

  last_type-reply_options : (gw : Option Ipv4Addr) → last_type 0 (reply_options gw) ≡ op
  unfolding last_type reply_options last_options
  last_type-reply_options none = refl
  last_type-reply_options (some gw) = refl

  module _ (gateway : Option Ipv4Addr) where
    abbrev fixed : List ℕ
    fixed = fixed_fields op xid chaddr yiaddr siaddr subnet gateway lease_secs boot_file

    abbrev pkt : List ℕ
    pkt = build_dhcp_reply op xid chaddr yiaddr siaddr subnet gateway lease_secs boot_file

    pub length-fixed_fields : length fixed ≡ 236
    unfolding fixed_fields
    length-fixed_fields =
        rw (length-write_at, length-write_at) (length-address_fields xid yiaddr siaddr)

    pkt-eq :
        pkt
        ≡ fixed
          ++ (dhcp_magic ++ options op xid chaddr yiaddr siaddr subnet gateway lease_secs boot_file)
    unfolding build_dhcp_reply
    pkt-eq = rw append_assoc

    slice-fixed : (i n : ℕ) → i + n ≤ 236 → slice i n pkt ≡ slice i n fixed
    slice-fixed i n h = rw pkt-eq (slice-append i n fixed _ (omega (arith, length-fixed_fields)))

    reply_magic : slice 236 4 pkt ≡ dhcp_magic
    unfolding slice
    reply_magic = rw (pkt-eq, drop-append 236 fixed _ length-fixed_fields)

    reply_behind : drop 240 pkt ≡ write_options (reply_options gateway) ++ opt_end ∷ []
    unfolding build_dhcp_reply
    reply_behind = rw (
      drop-append 240 (fixed ++ dhcp_magic) _
          (omega (arith, length-append fixed dhcp_magic, length-fixed_fields)),
      options-write_options gateway,
    )

    reply_scan : scan_options 0 0 (drop 240 pkt) ≡ some op
    reply_scan = rw (
      reply_behind,
      scan_options-write_options 0 (reply_options gateway) [] (reply_options-IsOption gateway),
      last_type-reply_options gateway,
    )

    reply_chaddr : length chaddr ≡ 16 → slice 28 16 fixed ≡ chaddr
    unfolding fixed_fields
    reply_chaddr size =
        let whole : take 16 chaddr ≡ chaddr = take_of_length-le 16 chaddr (omega arith) in
        let pkt = address_fields xid yiaddr siaddr in
        slice-write_at_before 28 16 108 (take 127 boot_file) (write_at 28 (take 16 chaddr) pkt)
          (omega arith)
        ∙ (slice-write_at_size 28 16 (take 16 chaddr) pkt (omega (arith, length-take 16 chaddr))
              (omega (arith, length-address_fields xid yiaddr siaddr))
            ∙ whole)

    reply_boot : slice 108 (length (take 127 boot_file)) fixed ≡ take 127 boot_file
    unfolding fixed_fields
    reply_boot =
        slice-write_at 108 (take 127 boot_file)
          (write_at 28 (take 16 chaddr) (address_fields xid yiaddr siaddr))
          (omega (
            arith,
            length-take 127 boot_file,
            length-write_at 28 (take 16 chaddr) (address_fields xid yiaddr siaddr),
            length-address_fields xid yiaddr siaddr,
          ))

    -- A reply has the magic cookie in its place, and behind it, in the format of RFC 2132 and
    -- closed by the end code, exactly these options: the message type, the server's address, the
    -- subnet mask, the gateway if there is one, the time of the lease, the TFTP server and the
    -- boot file. A scan finds the message type in them. The transaction, the offered address, the
    -- server's address and the client's hardware address stand at the offsets of RFC 2131, and the
    -- boot file, cut to 127 bytes, stands in its field and in its option. The hardware address is
    -- given in 16 bytes.
    pub build_dhcp_reply_lem :
        length chaddr ≡ 16
        → (slice 236 4 pkt ≡ dhcp_magic)
          × (drop 240 pkt ≡ write_options (reply_options gateway) ++ opt_end ∷ [])
          × (scan_options 0 0 (drop 240 pkt) ≡ some op)
          × (slice 4 4 pkt ≡ u32_to_be xid)
          × (slice 16 4 pkt ≡ octets yiaddr)
          × (slice 20 4 pkt ≡ octets siaddr)
          × (slice 28 16 pkt ≡ chaddr)
          × (slice 108 (length (take 127 boot_file)) pkt ≡ take 127 boot_file)
    unfolding fixed_fields address_fields slice write_at
    build_dhcp_reply_lem size = (
      reply_magic,
      reply_behind,
      reply_scan,
      slice-fixed 4 4 (omega arith),
      slice-fixed 16 4 (omega arith),
      slice-fixed 20 4 (omega arith),
      slice-fixed 28 16 (omega arith) ∙ reply_chaddr size,
      slice-fixed 108 (length (take 127 boot_file)) (omega (arith, length-take 127 boot_file))
          ∙ reply_boot,
    )

    -- Behind a boot file of at most 100 bytes there is a zero in its field.
    pub reply_boot_ends :
        length chaddr ≡ 16
        → length boot_file ≤ 100
        → (rest : List ℕ) × (drop 108 pkt ≡ boot_file ++ 0 ∷ rest)
    unfolding fixed_fields
    reply_boot_ends size short =
        let p = write_at 28 (take 16 chaddr) (address_fields xid yiaddr siaddr) in
        let whole : take 127 boot_file ≡ boot_file =
          take_of_length-le 127 boot_file (omega arith) in
        let room : length p ≡ 236 =
          length-write_at 28 (take 16 chaddr) (address_fields xid yiaddr siaddr)
          ∙ length-address_fields xid yiaddr siaddr in
        let n = 127 - length boot_file in
        let field : drop (108 + length boot_file) p ≡ 0 ∷ replicate n 0 =
          drop-write_at_behind (108 + length boot_file) 28 (take 16 chaddr)
            (address_fields xid yiaddr siaddr) (omega (arith, length-take 16 chaddr))
          ∙ zeros_behind xid yiaddr siaddr (length boot_file) (omega arith) in
        (
          replicate n 0
              ++ (dhcp_magic
                  ++ options op xid chaddr yiaddr siaddr subnet gateway lease_secs boot_file),
          rw (
            pkt-eq,
            drop-append_short 108 fixed _ (omega (arith, length-fixed_fields)),
            whole,
            drop-write_at 108 boot_file p (omega arith),
            field,
            append_assoc,
          ),
        )
