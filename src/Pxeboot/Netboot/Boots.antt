-- ===== src/Pxeboot/Netboot/Boots.antt =====
-- The boot of a node that crates/pxeboot/src/main.rs does not know, from its discover to the script
-- that it receives.
use hivebus.Prelude.{ℕ, ◌<◌, ◌≡◌, refl, ap, ◌∙◌, Bool, none, some, List, [], ◌∷◌, map, arith, All}
use hivebus.Result.{Result}
use hivebus.Std.HashMap
use hivebus.Std.Net.{SocketAddr, Datagram}
use hivebus.Std.Text.{Str, str}
use hivebus.Proto.Mac.{Mac, IsMac}
use hivebus.Pxeboot.Boot.{
  Config, FileWrite, mac_eq, default_script_path, sanitize_tftp_path, render_ipxe_script,
}
use hivebus.Pxeboot.Boot.Script.{sanitize_tftp_path-default_script_path}
use hivebus.Pxeboot.Dhcp.{dhcp_discover}
use hivebus.Pxeboot.Dhcp.Handle.{Tables, served, discovered, on_dhcp}
use hivebus.Pxeboot.Dhcp.Run.{Asks}
use hivebus.Pxeboot.Tftp.{on_tftp, transfer}
use hivebus.Pxeboot.Tftp.Laws.{read_request}
use hivebus.Pxeboot.Tftp.Transfer.{
  Opening, opened, Attempt, transfer_blocks, serve_tftp_read, tftp_max_retries,
}
use hivebus.Pxeboot.Tftp.Transfer.Delivery.{receive}
use hivebus.Pxeboot.Tftp.Transfer.Lossy.{arrived}
use hivebus.Pxeboot.Tftp.Transfer.Losses.{exchanges, lossy_delivery}
use hivebus.Pxeboot.Netboot.{boot_name, HasFile}
use hivebus.Pxeboot.Netboot.Name.{default_script_path_requested}
use hivebus.Pxeboot.Netboot.Discovered.{script, replied_discovered}

serve_tftp_read-opened :
    (file_at : Str → Opening) (root requested path : Str) (client : SocketAddr)
    (reads : List (Result (List ℕ))) (attempts : List Attempt)
    → sanitize_tftp_path root requested ≡ some path
    → file_at path ≡ opened reads
    → serve_tftp_read file_at root requested client attempts
      ≡ (transfer_blocks client 1 reads attempts).0
unfolding serve_tftp_read
serve_tftp_read-opened file_at root requested path client reads attempts accepted found =
    rw (serve_tftp_read, accepted, found) refl

-- A file that is there and whose path is accepted arrives whole.
served_file :
    (file_at : Str → Opening) (reads : FileWrite → List (Result (List ℕ))) (root requested : Str)
    (client : SocketAddr) (through : ℕ → ℕ → Bool) (lost : ℕ → ℕ) (f : FileWrite)
    → sanitize_tftp_path root requested ≡ some f.path
    → HasFile file_at reads f
    → ((j : ℕ) → lost j < tftp_max_retries)
    → receive 1 (
        arrived
          (serve_tftp_read file_at root requested client
            (map (λ e. e.outcome) (exchanges client 1 0 through lost (reads f))))
          (exchanges client 1 0 through lost (reads f)))
      ≡ f.contents
served_file file_at reads root requested client through lost f accepted has few =
    let es = exchanges client 1 0 through lost (reads f) in
    ap (λ packets. receive 1 (arrived packets es))
      (serve_tftp_read-opened file_at root requested f.path client (reads f)
        (map (λ e. e.outcome) es) accepted has.found)
    ∙ (lossy_delivery client 1 0 through lost (reads f) (omega arith) few has.readable ∙ has.whole)

-- A node that is not in the boot table and whose discover is answered is sent its own script. The
-- boot file that the reply names is this script itself, and not the configured one of the
-- bootloader: a read request for the name starts a transfer; exactly one file is written, and if
-- the file system then has it, the node puts the script that is made for its address together from
-- the packets that get through to it. Before each block is acknowledged, at most four of its packets
-- or their acknowledgements are lost; which of the two does not matter.
pub boots :
    (cfg : Config) (mac : Mac) (now : ℕ) (d : List ℕ) (t t' : Tables) (files : List FileWrite)
    (reply : Datagram) (file_at : Str → Opening) (reads : FileWrite → List (Result (List ℕ)))
    (client : SocketAddr) (through : ℕ → ℕ → Bool) (lost : ℕ → ℕ)
    → Asks d dhcp_discover mac
    → IsMac mac
    → HashMap.get t.boot_table mac ≡ none
    → on_dhcp cfg now d t ≡ served t' files (reply ∷ [])
    → All (HasFile file_at reads) files
    → ((j : ℕ) → lost j < tftp_max_retries)
    → (name : Str) × (f : FileWrite) × (boot_name reply.bytes ≡ some name)
      × (on_tftp (read_request name (str "octet")) ≡ transfer name)
      × (files ≡ f ∷ [])
      × (receive 1 (
            arrived
              (serve_tftp_read file_at cfg.tftp_root name client
                (map (λ e. e.outcome) (exchanges client 1 0 through lost (reads f))))
              (exchanges client 1 0 through lost (reads f)))
          ≡ render_ipxe_script cfg mac (discovered mac))
boots cfg mac now d t t' files reply file_at reads client through lost asks is_mac fresh ends has
      few =
    let (named, written) =
      replied_discovered cfg mac now d t t' files reply asks is_mac fresh ends in
    (
      default_script_path mac,
      script cfg mac,
      named,
      default_script_path_requested mac is_mac,
      written,
      served_file file_at reads cfg.tftp_root (default_script_path mac) client through lost
          (script cfg mac) (sanitize_tftp_path-default_script_path cfg.tftp_root mac)
          (rw written at has).0 few,
    )
