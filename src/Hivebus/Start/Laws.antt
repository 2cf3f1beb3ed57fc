-- ===== src/Hivebus/Start/Laws.antt =====
-- What `main` of crates/hivebus/src/main.rs starts the tasks with.
use hivebus.Prelude.{
  ℕ, ◌+◌, ◌*◌, ◌^◌, ◌<◌, ◌≡◌, refl, Option, none, some, [], ◌∷◌, ◌++◌, arith, nat_eq,
}
use hivebus.Result.{ok}
use hivebus.Configuration.{or_default}
use hivebus.Bincode.{Codec}
use hivebus.Std.HashMap
use hivebus.Std.Net.{v4}
use hivebus.Std.Text.{Str}
use hivebus.Std.Time.{from_millis, from_secs}
use hivebus.Proto.{discovery_port}
use hivebus.Proto.Payload.{AnnouncePayload}
use hivebus.Proto.Mac.{Mac, IsMac, node_id_from_mac}
use hivebus.Pxeboot.Boot.{fmt_mac}
use hivebus.Hivebus.Identity.{address_path}
use hivebus.Hivebus.Identity.Laws.{derive_node_id-fmt_mac}
use hivebus.Hivebus.Listener.{Codecs}
use hivebus.Hivebus.Members.{Members}
use hivebus.Hivebus.History.{Node}
use hivebus.Hivebus.History.Heard.{Heard}
use hivebus.Std.Net.Udp.{UdpCall}
use hivebus.Hivebus.Discovery.{open_udp_lem}
use hivebus.Hivebus.Start.{
  Config, System, load, choose_id, suspect_after, Running, config_path, run_as, start,
}

suspect_after-small :
    (interval_ms misses : ℕ)
    → interval_ms * misses < 2 ^ 64
    → suspect_after interval_ms misses ≡ from_millis (interval_ms * misses)
suspect_after-small interval_ms misses small = omega arith

choose_id-fmt_mac :
    (system : System) (cfg : Config) (mac : Mac) (o : Option ℕ)
    → IsMac mac
    → system.read_to_string (address_path cfg.cluster_iface) ≡ ok (fmt_mac mac ++ 10 ∷ [])
    → choose_id system cfg o ≡ ok (or_default o (node_id_from_mac mac))
unfolding choose_id
choose_id-fmt_mac system cfg mac (some id) valid shown = refl
choose_id-fmt_mac system cfg mac none valid shown =
    derive_node_id-fmt_mac system.read_to_string cfg.cluster_iface mac valid shown

-- A daemon whose configuration can be read and which is refused nothing for its socket is started. It has the
-- identifier of the configuration, or else that of the hardware address of the cluster's
-- interface. It suspects a peer after as many heartbeat intervals as the configuration says, takes
-- it for dead after the seconds of the configuration, and is controlled at the port after that of
-- the discovery. The interface shows its hardware address, and the first of the two times, in
-- milliseconds, is below 2 ^ 64.
pub start_lem :
    (codec : Codec AnnouncePayload) (system : System) (argument : Option Str) (cfg : Config)
    (mac : Mac)
    → load system (config_path argument) ≡ ok cfg
    → IsMac mac
    → system.read_to_string (address_path cfg.cluster_iface) ≡ ok (fmt_mac mac ++ 10 ∷ [])
    → ((call : UdpCall) → system.refusals call ≡ none)
    → cfg.heartbeat_interval_ms * cfg.suspect_misses < 2 ^ 64
    → (r : Running) × (start codec system argument ≡ ok r)
      × (r.node_id ≡ or_default cfg.node_id (node_id_from_mac mac))
      × (r.suspect_threshold ≡ from_millis (cfg.heartbeat_interval_ms * cfg.suspect_misses))
      × (r.dead_threshold ≡ from_secs cfg.dead_secs)
      × (r.control_addr ≡ v4 cfg.cluster_addr (discovery_port + 1))
unfolding start run_as
start_lem codec system argument cfg mac loaded valid shown opened small =
    let id = or_default cfg.node_id (node_id_from_mac mac) in
    (
      run_as codec system cfg id,
      rw
          (
            start,
            loaded,
            choose_id-fmt_mac system cfg mac cfg.node_id valid shown,
            open_udp_lem system.refusals cfg.cluster_addr opened,
          )
          refl,
      refl,
      suspect_after-small cfg.heartbeat_interval_ms cfg.suspect_misses small,
      refl,
      refl,
    )

-- What the tasks of a started daemon go by.
abbrev pub node_of : Codecs → Running → Node
node_of codecs r = record {
  codecs = codecs;
  self_id = r.node_id;
  suspect_threshold = r.suspect_threshold;
  dead_threshold = r.dead_threshold;
}
