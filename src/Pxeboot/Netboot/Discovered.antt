-- ===== src/Pxeboot/Netboot/Discovered.antt =====
-- What a discover of a node that crates/pxeboot/src/main.rs does not know leads to.
use mathlib.Core.Path.{subst}
use hivebus.Prelude.{
  ℕ, ◌≡◌, refl, sym, ap, ◌∙◌, none, some, List, [], ◌∷◌, ◌++◌, arith, length, drop, if◌then◌else◌,
  ◌==◌, nat_eq, length-take, length-drop, Option,
}
use hivebus.Result.{ok}
use hivebus.Std.HashMap
use hivebus.Std.Net.{Ipv4Addr, Datagram}
use hivebus.Std.Text.{str}
use hivebus.Std.Path.{push}
use hivebus.Std.Path.Laws.{Lacks}
use hivebus.Proto.Mac.{Mac, IsMac}
use hivebus.Pxeboot.Boot.{
  Config, BootTable, FileWrite, mac_eq, default_script_path, write_ipxe_script, render_ipxe_script,
}
use hivebus.Pxeboot.Boot.Script.{script_name, sanitize_tftp_path-default_script_path}
use hivebus.Pxeboot.Lease.{Leases}
use hivebus.Pxeboot.Dhcp.{dhcp_discover, dhcp_offer, dhcp_ack}
use hivebus.Pxeboot.Dhcp.Reply.{reply_boot_ends}
use hivebus.Pxeboot.Dhcp.Handle.{
  Tables, served, Request, request_of, mac_of, discovered, reply_to, offer, answer_dhcp, on_dhcp,
  files_of,
}
use hivebus.Pxeboot.Dhcp.Run.{received, Asks, on_dhcp-Asks}
use hivebus.Pxeboot.Tftp.Laws.{cut_at_zero-append}
use hivebus.Pxeboot.Netboot.{boot_name}
use hivebus.Pxeboot.Netboot.Name.{default_script_path-Lacks, length-default_script_path}

-- The script of the node.
abbrev pub script : Config → Mac → FileWrite
script cfg mac = record {
  path = push (push cfg.tftp_root (str "scripts")) (script_name mac);
  contents = render_ipxe_script cfg mac (discovered mac);
}

-- A reply has the address from the allocation, and the files are as they were.
offer_replies :
    (cfg : Config) (now msg_type : ℕ) (req : Request) (boot_table : BootTable)
    (files files' : List FileWrite) (got : Option Ipv4Addr × Leases) (t' : Tables)
    (reply : Datagram)
    → offer cfg now msg_type req boot_table files got ≡ served t' files' (reply ∷ [])
    → (ip : Ipv4Addr) × (reply ≡ reply_to cfg msg_type req boot_table ip) × (files' ≡ files)
unfolding offer
offer_replies cfg now msg_type req boot_table files files' (none, leases) t' reply same =
    absurd (ground arith)
offer_replies cfg now msg_type req boot_table files files' (some ip, leases) t' reply same =
    (ip, ground arith, ground arith)

write_ipxe_script-discovered :
    (cfg : Config) (mac : Mac)
    → write_ipxe_script cfg mac (discovered mac) ≡ ok (script cfg mac ∷ [])
unfolding write_ipxe_script discovered
write_ipxe_script-discovered cfg mac =
    rw (write_ipxe_script, sanitize_tftp_path-default_script_path cfg.tftp_root mac)

boot_name_of :
    (reply name rest : List ℕ)
    → drop 108 reply ≡ name ++ 0 ∷ rest
    → Lacks 0 name
    → boot_name reply ≡ some name
unfolding boot_name
boot_name_of reply name rest e lacks = rw (boot_name, e, cut_at_zero-append name rest lacks) refl

boot_name-reply_to :
    (cfg : Config) (msg_type : ℕ) (req : Request) (boot_table : BootTable) (ip : Ipv4Addr)
    → length req.chaddr ≡ 16
    → IsMac (mac_of req.chaddr)
    → HashMap.get boot_table (mac_of req.chaddr) ≡ some (discovered (mac_of req.chaddr))
    → boot_name (reply_to cfg msg_type req boot_table ip).bytes
      ≡ some (default_script_path (mac_of req.chaddr))
unfolding reply_to discovered
boot_name-reply_to cfg msg_type req boot_table ip size is_mac known =
    let name = default_script_path (mac_of req.chaddr) in
    let (rest, e) =
      reply_boot_ends (if msg_type == dhcp_discover then dhcp_offer else dhcp_ack) req.xid
        req.chaddr ip cfg.server_ip cfg.subnet_mask cfg.lease_secs name cfg.gateway size
        (omega (arith, length-default_script_path (mac_of req.chaddr))) in
    rw known (boot_name_of _ name rest e (default_script_path-Lacks (mac_of req.chaddr) is_mac))

answered_discovered :
    (cfg : Config) (now msg_type : ℕ) (req : Request) (t t' : Tables) (files : List FileWrite)
    (reply : Datagram)
    → length req.chaddr ≡ 16
    → IsMac (mac_of req.chaddr)
    → HashMap.get t.boot_table (mac_of req.chaddr) ≡ none
    → answer_dhcp cfg now msg_type req t ≡ served t' files (reply ∷ [])
    → (boot_name reply.bytes ≡ some (default_script_path (mac_of req.chaddr)))
      × (files ≡ script cfg (mac_of req.chaddr) ∷ [])
unfolding answer_dhcp
answered_discovered cfg now msg_type req t t' files reply size is_mac fresh ends =
    let mac = mac_of req.chaddr in
    let table = HashMap.insert t.boot_table mac (discovered mac) in
    let added : HashMap.or_insert t.boot_table mac (discovered mac) ≡ (discovered mac, table) =
      HashMap.or_insert_lem t.boot_table mac (discovered mac) ∙ (rw fresh refl) in
    let (ip, is_reply, same_files) =
      offer_replies cfg now msg_type req _ _ files _ t' reply (rw (answer_dhcp, added) at ends) in
    (
      ap (λ (g : Datagram). boot_name g.bytes) is_reply
          ∙ boot_name-reply_to cfg msg_type req table ip size is_mac
              (HashMap.get-insert_self t.boot_table mac (discovered mac)),
      same_files ∙ ap files_of (write_ipxe_script-discovered cfg mac),
    )

-- A reply to the discover of a node that is not in the boot table names the script of the node, and
-- that script is what is written.
pub replied_discovered :
    (cfg : Config) (mac : Mac) (now : ℕ) (d : List ℕ) (t t' : Tables) (files : List FileWrite)
    (reply : Datagram)
    → Asks d dhcp_discover mac
    → IsMac mac
    → HashMap.get t.boot_table mac ≡ none
    → on_dhcp cfg now d t ≡ served t' files (reply ∷ [])
    → (boot_name reply.bytes ≡ some (default_script_path mac)) × (files ≡ script cfg mac ∷ [])
replied_discovered cfg mac now d t t' files reply asks is_mac fresh ends =
    let req = request_of (received d) in
    let size : length req.chaddr ≡ 16 =
      omega
        (arith, asks.long, length-take 16 (drop 28 (received d)), length-drop 28 (received d)) in
    rw asks.sender at (
      answered_discovered cfg now dhcp_discover req t t' files reply size
        (subst IsMac (sym asks.sender) is_mac) (rw asks.sender fresh)
        (sym (on_dhcp-Asks cfg now d dhcp_discover mac t asks refl) ∙ ends))
