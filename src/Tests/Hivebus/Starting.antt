-- ===== src/Tests/Hivebus/Starting.antt =====
-- Concrete inputs for the start of crates/hivebus/src/main.rs and for a peer that is heard.
use hivebus.Prelude.{ℕ, ◌≡◌, refl, none, some, List, [], ◌∷◌, ◌++◌, arith, nat_eq}
use hivebus.Result.{ok, err}
use hivebus.Std.HashMap
use hivebus.Std.Net.{Ipv4Addr}
use hivebus.Std.Text.{str}
use hivebus.Std.Time.{SystemTime, from_millis}
use hivebus.Proto.Frame.{new, heartbeat, to_bytes}
use hivebus.Proto.Mac.{Mac, IsMac}
use hivebus.Proto.Payload.{HeartbeatPayload}
use hivebus.Pxeboot.Boot.{fmt_mac}
use hivebus.Hivebus.Members.{Members}
use hivebus.Hivebus.Listener.{on_datagram}
use hivebus.Hivebus.History.Heard.{Heard}
use hivebus.Hivebus.Start.{Fields, Config, System, of_fields, load, Running, run_as}
use hivebus.Hivebus.Start
use hivebus.Tests.Data.{no_codec, codecs, addr, seen}

abbrev mac : Mac
mac = record { m0 = 82; m1 = 84; m2 = 0; m3 = 18; m4 = 52; m5 = 86 }

mac-IsMac : IsMac mac
mac-IsMac = omega arith

abbrev ip : Ipv4Addr
ip = record { a = 10; b = 0; c = 0; d = 9 }

-- A file that leaves out all that has a default.
abbrev fields : Fields
fields = record {
  cluster_iface = str "eth1";
  cluster_addr = ip;
  node_id = none;
  hostname = none;
  heartbeat_interval_ms = none;
  suspect_misses = none;
  dead_secs = none;
}

abbrev cfg : Config
cfg = record {
  cluster_iface = str "eth1";
  cluster_addr = ip;
  node_id = none;
  hostname = none;
  heartbeat_interval_ms = 150;
  suspect_misses = 3;
  dead_secs = 30;
}

abbrev system : System
system = record {
  read_to_string = λ path. ok (fmt_mac mac ++ 10 ∷ []);
  parse = λ raw. ok fields;
  gethostname = err (str "no");
  refusals = λ call. none;
  now = seen;
  version = str "0.1.0";
}

loaded : load system (str "/etc/hivebus/hivebus.toml") ≡ ok cfg
unfolding load of_fields
loaded = refl

abbrev fixed : System
fixed = record system { parse = λ raw. ok (record fields { node_id = some 5 }) }

abbrev fixed_cfg : Config
fixed_cfg = record cfg { node_id = some 5 }

abbrev running : Running
running = run_as no_codec fixed fixed_cfg 5

abbrev beat_of : HeartbeatPayload
beat_of = record { incarnation = 4; epoch_ms = 7 }

abbrev frame : List ℕ
frame = to_bytes (new heartbeat 0 3) ++ 4 ∷ 7 ∷ []

abbrev heard_table : Members
heard_table = (on_datagram codecs running.node_id seen (addr 3) frame []).0

abbrev turn_at : SystemTime
turn_at = from_millis 1_000_400
