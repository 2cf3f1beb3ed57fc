-- ===== src/Tests/Pxeboot/Netbooting.antt =====
-- A node of crates/pxeboot/src/main.rs that discovers the server and boots its script.
use mathlib.Core.Path.{subst}
use hivebus.Prelude.{
  ℕ, ◌≡◌, refl, sym, inl, inr, Bool, none, some, List, [], ◌∷◌, map, arith, ltb, ◌==◌, nat_eq,
  length, Bool-cases, append-nil, All,
}
use hivebus.Result.{Result, ok}
use hivebus.Std.HashMap
use hivebus.Std.Text.{Str, str}
use hivebus.Proto.Mac.{IsMac}
use hivebus.Pxeboot.Boot.{FileWrite, mac_eq, render_ipxe_script}
use hivebus.Std.Bytes.{IsBytes}
use hivebus.Pxeboot.Dhcp.Handle.{discovered, on_dhcp}
use hivebus.Pxeboot.Dhcp.Kept.{IsTyped, IsTypedConfig}
use hivebus.Pxeboot.Dhcp.Sends.{EndsTyped, on_dhcp-EndsTyped}
use hivebus.Pxeboot.Tftp.{on_tftp, transfer}
use hivebus.Pxeboot.Tftp.Laws.{read_request}
use hivebus.Pxeboot.Tftp.Transfer.{tftp_block_size, Opening, opened, serve_tftp_read}
use hivebus.Pxeboot.Tftp.Transfer.Delivery.{receive, contents}
use hivebus.Pxeboot.Tftp.Transfer.Lossy.{arrived}
use hivebus.Pxeboot.Tftp.Transfer.Losses.{exchanges}
use hivebus.Pxeboot.Netboot.{boot_name, HasFile}
use hivebus.Pxeboot.Netboot.Discovered.{script, replied_discovered}
use hivebus.Pxeboot.Netboot.Boots.{boots}
use hivebus.Tests.Data.{addr}
use hivebus.Tests.Pxeboot.{cfg, discover, empty}
use hivebus.Tests.Pxeboot.Leasing.{
  client, discover-Asks, first, first_served, tables_of, files_of, reply_of,
}

abbrev reads : FileWrite → List (Result (List ℕ))
reads f = ok f.contents ∷ []

abbrev file_at : Str → Opening
file_at path = opened (reads (script cfg client))

client-IsMac : IsMac client
client-IsMac = omega arith

read_whole : (bytes : List ℕ) → contents (ok bytes ∷ []) ≡ bytes
unfolding contents
read_whole bytes = elim (Bool-cases (ltb (length bytes) tftp_block_size)) [
  | inl p ↦ rw p refl
  | inr p ↦ rw p (append-nil bytes)
]

script-HasFile : HasFile file_at reads (script cfg client)
script-HasFile = record {
  found = refl;
  readable = ((_, refl), tt);
  whole = read_whole (script cfg client).contents;
}

fresh : HashMap.get empty.boot_table client ≡ none
unfolding HashMap.get
fresh = refl

files-HasFile : All (HasFile file_at reads) (files_of first)
files-HasFile =
    let (_, written) =
      replied_discovered cfg client 5 discover empty (tables_of first) (files_of first)
        (reply_of first) discover-Asks client-IsMac fresh first_served in
    subst (All (HasFile file_at reads)) (sym written) (script-HasFile, tt)

-- Of the packets that stay without an answer only one gets through.
abbrev first_only : ℕ → ℕ → Bool
first_only block n = n == 1

boots_example :
    (name : Str) × (f : FileWrite) × (boot_name (reply_of first).bytes ≡ some name)
    × (on_tftp (read_request name (str "octet")) ≡ transfer name)
    × (files_of first ≡ f ∷ [])
    × (receive 1 (
          arrived
            (serve_tftp_read file_at cfg.tftp_root name
              (addr 44)
              (map (λ e. e.outcome) (exchanges (addr 44) 1 0 first_only (λ j. 2) (reads f))))
            (exchanges (addr 44) 1 0 first_only (λ j. 2) (reads f)))
        ≡ render_ipxe_script cfg client (discovered client))
boots_example =
    boots cfg client 5 discover empty (tables_of first) (files_of first) (reply_of first) file_at
      reads (addr 44) first_only (λ j. 2) discover-Asks client-IsMac fresh first_served
      files-HasFile (λ j. omega arith)

empty-IsTyped : IsTyped empty
empty-IsTyped = record { boot_table = tt; leases = tt }

cfg-IsTypedConfig : IsTypedConfig cfg
cfg-IsTypedConfig = record {
  server = omega arith;
  subnet = omega arith;
  gateway = tt;
  boot_file = omega arith;
}

discover-IsBytes : IsBytes discover
discover-IsBytes = omega arith

on_dhcp-EndsTyped_example : EndsTyped (on_dhcp cfg 5 discover empty)
on_dhcp-EndsTyped_example =
    on_dhcp-EndsTyped cfg 5 cfg-IsTypedConfig discover empty discover-IsBytes empty-IsTyped
