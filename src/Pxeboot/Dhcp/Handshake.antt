-- ===== src/Pxeboot/Dhcp/Handshake.antt =====
-- A client of crates/pxeboot/src/main.rs from its discover to its request, among other datagrams
-- and registrations.
use hivebus.Prelude.{
  ℕ, ◌+◌, ◌≤◌, ◌≡◌, refl, sym, ap, ◌∙◌, none, some, true, ◌||◌, List, [], ◌∷◌, ◌==◌, nat_eq,
  bytes_eq, arith, if◌then◌else◌, length, drop, length-take, length-drop,
}
use hivebus.Std.HashMap
use hivebus.Std.Net.{Ipv4Addr, octets, Datagram}
use hivebus.Std.Time.{from_secs}
use hivebus.Proto.Mac.{Mac}
use hivebus.Pxeboot.Boot.{Config, BootTable, FileWrite, mac_eq}
use hivebus.Pxeboot.Lease.{Lease, static_of}
use hivebus.Pxeboot.Dhcp.{scan_options, dhcp_discover, dhcp_request, dhcp_offer, dhcp_ack}
use hivebus.Pxeboot.Dhcp.Fields.{slice}
use hivebus.Pxeboot.Dhcp.Reply.{build_dhcp_reply_lem}
use hivebus.Pxeboot.Dhcp.Handle.{
  Tables, Outcome, served, Request, request_of, mac_of, reply_to, answer_dhcp, on_dhcp,
}
use hivebus.Pxeboot.Dhcp.Effect.{
  with_entry, with_entry-NoStatic, Effect, exhausted, given, answer_dhcp-Effect,
}
use hivebus.Pxeboot.Dhcp.Run.{
  received, Asks, NoStatic, Holds, Run, NeverStatic, on_dhcp-Asks, Run-Holds,
}

module _ (cfg : Config) (now : ℕ) (d : List ℕ) (msg_type : ℕ) (mac : Mac)
    (asks : Asks d msg_type mac)
    (kind : (msg_type == dhcp_discover || msg_type == dhcp_request) ≡ true) where
  abbrev req : Request
  req = request_of (received d)

  -- A reply offers the address that the client then holds.
  replied-Holds :
      (t t' : Tables) (files : List FileWrite) (reply : Datagram)
      → on_dhcp cfg now d t ≡ served t' files (reply ∷ [])
      → (ip : Ipv4Addr) × (reply ≡ reply_to cfg msg_type req t'.boot_table ip) × Holds t' mac ip
  replied-Holds t t' files reply ends =
      given_one (served t' files (reply ∷ []))
        (rw (sym (on_dhcp-Asks cfg now d msg_type mac t asks kind) ∙ ends) at
          (answer_dhcp-Effect cfg now msg_type req t))
        refl
    where
      given_one :
          (o : Outcome)
          → Effect cfg now msg_type req (with_entry t.boot_table (mac_of req.chaddr)) t.leases o
          → o ≡ served t' files (reply ∷ [])
          → (ip : Ipv4Addr) × (reply ≡ reply_to cfg msg_type req t'.boot_table ip) × Holds t' mac ip
      given_one _ (exhausted _ _ _) same = absurd (ground arith)
      given_one _ (given ip leases' _ after _) same =
          let lease : Lease = record { ip = ip; expires = now + from_secs cfg.lease_secs } in
          let at : HashMap.get leases' mac ≡ some lease =
            after mac ∙ (rw ((mac_eq.decides (mac_of req.chaddr) mac).1 asks.sender) refl) in
          (ip, ground arith, (lease, ground arith, refl))

  -- A client that holds an address is answered with it.
  holder_answered :
      (t : Tables) (ip : Ipv4Addr)
      → NoStatic t mac
      → Holds t mac ip
      → (t' : Tables) × (files : List FileWrite) × (on_dhcp cfg now d t
          ≡ served t' files (reply_to cfg msg_type req t'.boot_table ip ∷ []))
  holder_answered t ip plain (l, known, at) =
      let ends = on_dhcp-Asks cfg now d msg_type mac t asks kind in
      answered (answer_dhcp cfg now msg_type req t) (answer_dhcp-Effect cfg now msg_type req t) ends
    where
      no_static :
          static_of (HashMap.get (with_entry t.boot_table (mac_of req.chaddr)) (mac_of req.chaddr))
          ≡ none
      no_static = rw asks.sender (with_entry-NoStatic t.boot_table mac plain)

      holds : HashMap.get t.leases (mac_of req.chaddr) ≡ some l
      holds = rw asks.sender known

      answered :
          (o : Outcome)
          → Effect cfg now msg_type req (with_entry t.boot_table (mac_of req.chaddr)) t.leases o
          → on_dhcp cfg now d t ≡ o
          → (t' : Tables) × (files : List FileWrite) × (on_dhcp cfg now d t
              ≡ served t' files (reply_to cfg msg_type req t'.boot_table ip ∷ []))
      answered _ (exhausted _ _ fresh) ends = absurd (ground (arith, holds))
      answered _ (given ip' leases' files _ keeps) ends =
          let same : ip' ≡ ip = keeps l no_static holds ∙ at in
          let t' : Tables = record {
            boot_table = with_entry t.boot_table (mac_of req.chaddr);
            leases = leases';
          } in
          (
            t',
            files,
            ends
                ∙ ap
                    (λ (a : Ipv4Addr).
                      served t' files (reply_to cfg msg_type req t'.boot_table a ∷ []))
                    same,
          )

-- Where a reply has its address, and what message it is.
reply_to-slices :
    (cfg : Config) (msg_type : ℕ) (d : List ℕ) (boot_table : BootTable) (ip : Ipv4Addr)
    → 240 ≤ length (received d)
    → (slice 16 4 (reply_to cfg msg_type (request_of (received d)) boot_table ip).bytes ≡ octets ip)
      × (scan_options 0 0
            (drop 240 (reply_to cfg msg_type (request_of (received d)) boot_table ip).bytes)
          ≡ some (if msg_type == dhcp_discover then dhcp_offer else dhcp_ack))
unfolding reply_to
reply_to-slices cfg msg_type d boot_table ip long =
    let req = request_of (received d) in
    let size : length req.chaddr ≡ 16 =
      omega (arith, length-take 16 (drop 28 (received d)), length-drop 28 (received d)) in
    let (_, _, scanned, _, address, _, _, _) =
      build_dhcp_reply_lem _ req.xid req.chaddr ip cfg.server_ip cfg.subnet_mask cfg.lease_secs _
        cfg.gateway size in
    (address, scanned)

-- A client that was offered an address and requests it is acknowledged the same address, whatever
-- datagrams and registrations came in between: the reply to its request is an acknowledgement,
-- and has the same four bytes in the field of the client's address as the offer. The client has no
-- static address at any time, and the server's task does not panic in between.
pub handshake :
    (cfg : Config) (mac : Mac) (now now' : ℕ) (d d' : List ℕ) (t t1 u : Tables)
    (files : List FileWrite) (offered : Datagram) (r : Run cfg t1 u)
    → Asks d dhcp_discover mac
    → Asks d' dhcp_request mac
    → on_dhcp cfg now d t ≡ served t1 files (offered ∷ [])
    → NeverStatic r mac
    → NoStatic u mac
    → (t2 : Tables) × (files' : List FileWrite) × (ack : Datagram) × (on_dhcp cfg now' d' u
        ≡ served t2 files' (ack ∷ []))
      × (scan_options 0 0 (drop 240 offered.bytes) ≡ some dhcp_offer)
      × (scan_options 0 0 (drop 240 ack.bytes) ≡ some dhcp_ack)
      × (slice 16 4 ack.bytes ≡ slice 16 4 offered.bytes)
handshake cfg mac now now' d d' t t1 u files offered r asks asks' ends never plain =
    let (ip, is_reply, holds) =
      replied-Holds cfg now d dhcp_discover mac asks refl t t1 files offered ends in
    let (t2, files', ends') =
      holder_answered cfg now' d' dhcp_request mac asks' refl u ip plain
        (Run-Holds mac ip r never holds) in
    let (address, scanned) = reply_to-slices cfg dhcp_discover d t1.boot_table ip asks.long in
    let (address', scanned') = reply_to-slices cfg dhcp_request d' t2.boot_table ip asks'.long in
    let bytes_of = ap (λ (g : Datagram). g.bytes) is_reply in
    (
      t2,
      files',
      _,
      ends',
      ap (λ (b : List ℕ). scan_options 0 0 (drop 240 b)) bytes_of ∙ scanned,
      scanned',
      address' ∙ sym (ap (slice 16 4) bytes_of ∙ address),
    )
