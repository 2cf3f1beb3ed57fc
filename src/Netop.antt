-- ===== src/Netop.antt =====
-- crates/netop/src/main.rs, the network operator: the desired state and the request that replaces
-- it. Reconciliation is a stub in the source.
pub mod Laws
pub mod Start
use hivebus.Prelude.{ℕ, Bool, true, false, List, [], ◌∷◌, ◌++◌, ◌==◌, bytes_eq, if◌then◌else◌}
use hivebus.Result.{Result, ok, err}
use hivebus.Bincode.{Codec}
use hivebus.Std.Net.{Ipv4Addr}
use hivebus.Std.Text.{Str, str}
use hivebus.Proto.Message
use hivebus.Proto.Message.{
  ControlOp, ping, get_nodes, get_master, step_down, shutdown, custom, error,
}
use hivebus.Netgate.{IpAddr}
use hivebus.Socket.{ControlCodecs, Answer, reply, exit, Connection, serve}

pub data IfaceKind : Type 0 where
  veth : Str → IfaceKind
  bridge : IfaceKind
  tun : Bool → IfaceKind
  vxlan : ℕ → Ipv4Addr → IfaceKind

pub record IfaceSpec : Type 0 where
  pub name : Str
  pub kind : IfaceKind
  pub addresses : List IpAddr
  pub up : Bool

pub record NftRule : Type 0 where
  pub json : Str

pub record DesiredState : Type 0 where
  pub interfaces : List IfaceSpec
  pub nft_rules : List NftRule

module _ (codec : Codec DesiredState) where
  unfoldable pub state_set : List ℕ → DesiredState → Answer × DesiredState
  state_set inner s = elim (codec.decode inner) [
    | ok (new_state, _) ↦ (reply Message.ok, new_state)
    | err e ↦ (reply (error e), s)
  ]

  unfoldable pub answer_netop : Result ControlOp → DesiredState → Answer × DesiredState
  unfolding state_set
  answer_netop (ok ping) s = (reply Message.ok, s)
  answer_netop (ok (custom tag inner)) s =
      if tag == str "state.set"
      then state_set inner s
      else (reply (error (str "unknown tag: " ++ tag)), s)
  answer_netop (ok shutdown) s = (exit, s)
  answer_netop (err e) s = (reply (error e), s)
  answer_netop (ok get_nodes) s = (reply (error (str "unsupported op")), s)
  answer_netop (ok get_master) s = (reply (error (str "unsupported op")), s)
  answer_netop (ok step_down) s = (reply (error (str "unsupported op")), s)

-- One connection.
unfoldable pub serve_netop :
    ControlCodecs → Codec DesiredState → List ℕ → DesiredState → Connection × DesiredState
serve_netop control codec = serve control (answer_netop codec)
