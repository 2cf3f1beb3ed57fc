-- ===== src/Orchestrator/Start.antt =====
-- `Config` and the start in `main` of crates/orchestrator/src/main.rs.
use hivebus.Prelude.{◌≡◌, refl, Option, none, some, true, false, ◌++◌, if◌then◌else◌}
use hivebus.Result.{Result, ok, ◌>>=◌}
use hivebus.Std.Text.{Str, str}
use hivebus.Std.Fs.{Process, FileSystem}
use hivebus.Socket.Setup.{open_control}
use hivebus.Configuration.{ConfigFiles, with_context, or_default}

pub record Fields : Type 0 where
  pub containerd_socket : Option Str
  pub cgroup_parent : Option Str
  pub image_dir : Option Str

pub record Config : Type 0 where
  pub containerd_socket : Str
  pub cgroup_parent : Str
  pub image_dir : Str

abbrev default_containerd_sock : Str
default_containerd_sock = str "/run/containerd/containerd.sock"

abbrev default_cgroup_parent : Str
default_cgroup_parent = str "/hivebus"

abbrev default_image_dir : Str
default_image_dir = str "/var/lib/hivebus/images"

-- The reader that serde derives.
unfoldable pub of_fields : Fields → Config
of_fields f = record {
  containerd_socket = or_default f.containerd_socket default_containerd_sock;
  cgroup_parent = or_default f.cgroup_parent default_cgroup_parent;
  image_dir = or_default f.image_dir default_image_dir;
}

-- `Config::default`
unfoldable pub default : Config
default = record {
  containerd_socket = default_containerd_sock;
  cgroup_parent = default_cgroup_parent;
  image_dir = default_image_dir;
}

module _ (files : ConfigFiles Fields) where
  -- `Config::load`
  unfoldable pub load : Str → Result Config
  unfolding of_fields default
  load path =
      let read = (do
        raw ← with_context (str "reading config " ++ path) (files.read_to_string path)
        f ← with_context (str "parsing config") (files.parse raw)
        ok (of_fields f)) in
      if files.exists path then read else ok default

  -- `main`, up to the control plane: the configuration that it runs with.
  unfoldable pub start : Option Str → Result Config
  unfolding load
  start argument = load (or_default argument (str "/etc/hivebus/orchestrator.toml"))

-- A missing file is as good as one that sets nothing.
pub start_without_file :
    (files bare : ConfigFiles Fields) (path raw : Str)
    → files.exists path ≡ false
    → bare.exists path ≡ true
    → bare.read_to_string path ≡ ok raw
    → bare.parse raw
      ≡ ok (record { containerd_socket = none; cgroup_parent = none; image_dir = none })
    → start files (some path) ≡ start bare (some path)
unfolding start load of_fields default
start_without_file files bare path raw absent there read parsed =
    rw (start, load, absent, there, read, parsed) refl

-- `control_plane`, up to the first connection.
unfoldable pub open_socket : Process → FileSystem → Result FileSystem
unfolding open_control
open_socket process fs = open_control process (str "orchestrator.sock") fs
