-- ===== src/Imager/Start.antt =====
-- `Config` and the start in `main` of crates/imager/src/main.rs.
use hivebus.Prelude.{ℕ, ◌≡◌, refl, Option, none, some, true, false, []}
use hivebus.Result.{Result, ok, ◌>>=◌}
use hivebus.Std.Text.{Str, str}
use hivebus.Std.Fs.{Process, FileSystem}
use hivebus.Socket.Setup.{open_control}
use hivebus.Configuration.{ConfigFiles, read_or, or_default}
use hivebus.Imager.{Catalog}

pub record Fields : Type 0 where
  pub store_dir : Option Str
  pub chunk_port : Option ℕ

pub record Config : Type 0 where
  pub store_dir : Str
  pub chunk_port : ℕ

abbrev default_store_dir : Str
default_store_dir = str "/var/lib/hivebus/images"

abbrev default_chunk_port : ℕ
default_chunk_port = 7779

-- The reader that serde derives.
unfoldable pub of_fields : Fields → Config
of_fields f = record {
  store_dir = or_default f.store_dir default_store_dir;
  chunk_port = or_default f.chunk_port default_chunk_port;
}

-- `Config::default`
unfoldable pub default : Config
default = record { store_dir = default_store_dir; chunk_port = default_chunk_port }

-- `main`, up to the control plane. `create_dir_all` is an operation of the system.
unfoldable pub start :
    ConfigFiles Fields → (Str → Result (Unit {0})) → Option Str → Result (Catalog × Config)
unfolding read_or of_fields default
start files create_dir_all argument = do
  cfg ← read_or files of_fields default (or_default argument (str "/etc/hivebus/imager.toml"))
  _ ← create_dir_all cfg.store_dir
  ok ([], cfg)

-- A missing file is as good as one that sets nothing.
pub start_without_file :
    (files bare : ConfigFiles Fields) (create_dir_all : Str → Result (Unit {0})) (path raw : Str)
    → files.exists path ≡ false
    → bare.exists path ≡ true
    → bare.read_to_string path ≡ ok raw
    → bare.parse raw ≡ ok (record { store_dir = none; chunk_port = none })
    → start files create_dir_all (some path) ≡ start bare create_dir_all (some path)
unfolding start read_or of_fields default
start_without_file files bare create_dir_all path raw absent there read parsed =
    rw (start, absent, there, read, parsed) refl

-- `control_plane`, up to the first connection.
unfoldable pub open_socket : Process → FileSystem → Result FileSystem
unfolding open_control
open_socket process fs = open_control process (str "imager.sock") fs
