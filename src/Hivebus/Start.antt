-- ===== src/Hivebus/Start.antt =====
-- `Config` and the start of the daemon in `main` of crates/hivebus/src/main.rs, up to the point
-- where the tasks run.
pub mod Laws
use hivebus.Prelude.{ℕ, ◌+◌, ◌*◌, ◌%◌, ◌^◌, Option, none, some, List, ◌++◌, nat_eq}
use hivebus.Result.{Result, ok, err, ◌>>=◌}
use hivebus.Configuration.{or_default}
use hivebus.Bincode.{Codec}
use hivebus.Std.Net.{Ipv4Addr, SocketAddr, v4, Datagram}
use hivebus.Std.Text.{Str, str}
use hivebus.Std.Time.{SystemTime, Duration, from_millis, from_secs}
use hivebus.Proto.{discovery_port, socket_dir}
use hivebus.Proto.Payload.{AnnouncePayload}
use hivebus.Hivebus.Wire.{epoch_ms, announce_start}
use hivebus.Std.Net.Udp.{Refusals}
use hivebus.Hivebus.Discovery.{open_udp}
use hivebus.Hivebus.Identity.{derive_node_id}

-- The fields of a configuration file, as the toml crate gives them.
pub record Fields : Type 0 where
  pub cluster_iface : Str
  pub cluster_addr : Ipv4Addr
  pub node_id : Option ℕ
  pub hostname : Option Str
  pub heartbeat_interval_ms : Option ℕ
  pub suspect_misses : Option ℕ
  pub dead_secs : Option ℕ

pub record Config : Type 0 where
  pub cluster_iface : Str
  pub cluster_addr : Ipv4Addr
  pub node_id : Option ℕ
  pub hostname : Option Str
  pub heartbeat_interval_ms : ℕ
  pub suspect_misses : ℕ
  pub dead_secs : ℕ

abbrev pub default_hb_interval : ℕ
default_hb_interval = 150

abbrev pub default_suspect_misses : ℕ
default_suspect_misses = 3

abbrev pub default_dead_secs : ℕ
default_dead_secs = 30

unfoldable pub of_fields : Fields → Config
of_fields f = record {
  cluster_iface = f.cluster_iface;
  cluster_addr = f.cluster_addr;
  node_id = f.node_id;
  hostname = f.hostname;
  heartbeat_interval_ms = or_default f.heartbeat_interval_ms default_hb_interval;
  suspect_misses = or_default f.suspect_misses default_suspect_misses;
  dead_secs = or_default f.dead_secs default_dead_secs;
}

-- What `main` asks of the system and of the toml crate.
pub record System : Type 0 where
  pub read_to_string : Str → Result Str
  pub parse : Str → Result Fields
  pub gethostname : Result Str
  pub refusals : Refusals
  pub now : SystemTime
  pub version : Str

abbrev parsed : Result Fields → Result Config
parsed (err e) = err (str "parsing config")
parsed (ok f) = ok (of_fields f)

-- `Config::load`
unfoldable pub load : System → Str → Result Config
unfolding of_fields
load system path = elim (system.read_to_string path) [
  | err e ↦ err (str "reading config " ++ path)
  | ok raw ↦ parsed (system.parse raw)
]

-- The name of the configuration, or the system's.
abbrev pub host_name : Option Str → Result Str → Str
host_name (some h) _ = h
host_name none (ok h) = h
host_name none (err e) = str "unknown"

-- The identifier of the configuration, or that of the interface.
unfoldable pub choose_id : System → Config → Option ℕ → Result ℕ
choose_id system cfg (some id) = ok id
choose_id system cfg none = derive_node_id system.read_to_string cfg.cluster_iface

-- The product is of `u64`.
abbrev pub suspect_after : ℕ → ℕ → Duration
suspect_after interval_ms misses = from_millis (interval_ms * misses % 2 ^ 64)

-- What the tasks are started with, and the datagrams that were sent before.
pub record Running : Type 0 where
  pub node_id : ℕ
  pub hostname : Str
  pub incarnation : ℕ
  pub heartbeat_interval_ms : ℕ
  pub suspect_threshold : Duration
  pub dead_threshold : Duration
  pub socket_path : Str
  pub control_addr : SocketAddr
  pub sent : List Datagram

abbrev pub config_path : Option Str → Str
config_path none = str "/etc/hivebus/hivebus.toml"
config_path (some path) = path

unfoldable pub run_as : Codec AnnouncePayload → System → Config → ℕ → Running
unfolding announce_start epoch_ms
run_as codec system cfg node_id =
    let hostname = host_name cfg.hostname system.gethostname in
    let incarnation = epoch_ms system.now % 2 ^ 32 in
    let control_addr = v4 cfg.cluster_addr (discovery_port + 1) in
    record {
      node_id = node_id;
      hostname = hostname;
      incarnation = incarnation;
      heartbeat_interval_ms = cfg.heartbeat_interval_ms;
      suspect_threshold = suspect_after cfg.heartbeat_interval_ms cfg.suspect_misses;
      dead_threshold = from_secs cfg.dead_secs;
      socket_path = socket_dir ++ str "/hivebus.sock";
      control_addr = control_addr;
      sent = announce_start codec node_id (record {
        incarnation = incarnation;
        hostname = hostname;
        control_addr = control_addr;
        version = system.version;
      });
    }

-- `argument` is the first argument of the command.
unfoldable pub start : Codec AnnouncePayload → System → Option Str → Result Running
unfolding load choose_id open_udp run_as
start codec system argument = do
  cfg ← load system (config_path argument)
  node_id ← choose_id system cfg cfg.node_id
  _ ← open_udp system.refusals cfg.cluster_addr
  ok (run_as codec system cfg node_id)
