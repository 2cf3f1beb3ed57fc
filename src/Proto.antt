-- ===== src/Proto.antt =====
-- crates/proto/src/lib.rs: the constants of both protocols.
pub mod Frame
pub mod Node
pub mod Payload
pub mod Message
pub mod Control
pub mod Mac
use hivebus.Prelude.{ℕ, ◌*◌}
use hivebus.Std.Text.{Str, str}

abbrev pub discovery_port : ℕ
discovery_port = 7777

abbrev pub multicast_addr : Str
multicast_addr = str "224.0.133.7"

abbrev pub socket_dir : Str
socket_dir = str "/var/run/hivebus"
