-- ===== src/Pxeboot/Control.antt =====
-- `control_plane` of crates/pxeboot/src/main.rs: the requests that the boot manager answers. A file
-- that is to be written is a value, since the result of the write is only logged.
pub mod Laws
use hivebus.Prelude.{ℕ, Bool, true, false, List, [], ◌∷◌, ◌++◌, map, ◌==◌, bytes_eq, if◌then◌else◌}
use hivebus.Result.{Result, ok, err}
use hivebus.Bincode.{Codec}
use hivebus.Std.HashMap
use hivebus.Std.Text.{Str, str}
use hivebus.Proto.Mac.{Mac}
use hivebus.Proto.Message
use hivebus.Proto.Message.{
  ControlOp, ping, get_nodes, get_master, step_down, shutdown, custom, error, reply_data,
}
use hivebus.Socket.{ControlCodecs, Answer, reply, exit, Connection, serve}
use hivebus.Pxeboot.Boot.{
  Config, BootEntry, BootTable, FileWrite, mac_eq, fmt_mac, write_ipxe_script,
}

-- How the payloads of the requests and replies are written and read.
pub record BootCodecs : Type 0 where
  pub registration : Codec (Mac × BootEntry)
  pub listing : Codec (List (Str × BootEntry))

-- The boot table and the files written so far.
pub record BootState : Type 0 where
  pub boot_table : BootTable
  pub files : List FileWrite

abbrev pub files_of : Result (List FileWrite) → List FileWrite
files_of (ok files) = files
files_of (err e) = []

abbrev listed : BootTable → List (Str × BootEntry)
listed = map (λ e. (fmt_mac e.0, e.1))

module _ (codecs : BootCodecs) (cfg : Config) where
  unfoldable pub boot_register : List ℕ → BootState → Answer × BootState
  boot_register inner s = elim (codecs.registration.decode inner) [
    | err e ↦ (reply (error e), s)
    | ok ((mac, entry), _) ↦ (
      reply Message.ok,
      record {
        boot_table = HashMap.insert s.boot_table mac entry;
        files = s.files ++ files_of (write_ipxe_script cfg mac entry);
      },
    )
  ]

  unfoldable pub boot_list : BootState → Answer
  boot_list s = elim (codecs.listing.encode (listed s.boot_table)) [
    | ok bytes ↦ reply (reply_data (str "boot.list") bytes)
    | err e ↦ reply (error e)
  ]

  unfoldable pub answer_boot : Result ControlOp → BootState → Answer × BootState
  unfolding boot_register boot_list
  answer_boot (ok ping) s = (reply Message.ok, s)
  answer_boot (ok (custom tag inner)) s =
      if tag == str "boot.register"
      then boot_register inner s
      else if tag == str "boot.list"
      then (boot_list s, s)
      else (reply (error (str "unknown tag: " ++ tag)), s)
  answer_boot (ok shutdown) s = (exit, s)
  answer_boot (err e) s = (reply (error e), s)
  answer_boot (ok get_nodes) s = (reply (error (str "unsupported op")), s)
  answer_boot (ok get_master) s = (reply (error (str "unsupported op")), s)
  answer_boot (ok step_down) s = (reply (error (str "unsupported op")), s)

-- One connection.
unfoldable pub serve_pxeboot :
    ControlCodecs → BootCodecs → Config → List ℕ → BootState → Connection × BootState
serve_pxeboot control codecs cfg = serve control (answer_boot codecs cfg)
