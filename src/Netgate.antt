-- ===== src/Netgate.antt =====
-- crates/netgate/src/main.rs, the gateway: its table of names, its proxy rules and the requests that
-- change them. The DNS server of the source is a stub, and the copying of a proxy's bytes is I/O.
pub mod Laws
pub mod Start
use hivebus.Prelude.{
  ℕ, Option, none, some, Bool, true, false, List, [], ◌∷◌, ◌++◌, ◌==◌, bytes_eq, if◌then◌else◌,
}
use hivebus.Result.{Result, ok, err}
use hivebus.Bincode.{Codec}
use hivebus.Std.HashMap
use hivebus.Std.HashMap.{HashMap}
use hivebus.Std.Net.{Ipv4Addr, SocketAddr}
use hivebus.Std.Text.{Str, str}
use hivebus.Std.Text.Utf8.{from_utf8}
use hivebus.Proto.Message
use hivebus.Proto.Message.{
  ControlOp, ping, get_nodes, get_master, step_down, shutdown, custom, error,
}
use hivebus.Socket.{ControlCodecs, Answer, reply, exit, Connection, serve}

-- `IpAddr`; an IPv6 address is its octets.
pub data IpAddr : Type 0 where
  ipv4 : Ipv4Addr → IpAddr
  ipv6 : List ℕ → IpAddr

pub record DnsRecord : Type 0 where
  pub name : Str
  pub ttl : ℕ
  pub addr : IpAddr

pub record ProxyRule : Type 0 where
  pub id : Str
  pub listen : SocketAddr
  pub target : SocketAddr

-- The two shared tables, and the rules for which a task was spawned.
pub record GateState : Type 0 where
  pub dns_table : HashMap Str DnsRecord
  pub proxy_rules : List ProxyRule
  pub running : List ProxyRule

pub record GateCodecs : Type 0 where
  pub dns_record : Codec DnsRecord
  pub proxy_rule : Codec ProxyRule

module _ (codecs : GateCodecs) where
  unfoldable pub dns_upsert : List ℕ → GateState → Answer × GateState
  dns_upsert inner s = elim (codecs.dns_record.decode inner) [
    | err e ↦ (reply (error e), s)
    | ok (rec, _) ↦
        (reply Message.ok, record s { dns_table = HashMap.insert s.dns_table rec.name rec })
  ]

  -- A name that is no UTF-8 is ignored, and the reply is the same.
  unfoldable pub dns_delete : List ℕ → GateState → Answer × GateState
  unfolding from_utf8
  dns_delete inner s = elim (from_utf8 inner) [
    | none ↦ (reply Message.ok, s)
    | some name ↦ (reply Message.ok, record s { dns_table = HashMap.remove s.dns_table name })
  ]

  unfoldable pub proxy_add : List ℕ → GateState → Answer × GateState
  proxy_add inner s = elim (codecs.proxy_rule.decode inner) [
    | err e ↦ (reply (error e), s)
    | ok (rule, _) ↦ (
      reply Message.ok,
      record s { proxy_rules = s.proxy_rules ++ rule ∷ []; running = s.running ++ rule ∷ [] },
    )
  ]

  unfoldable pub answer_gate : Result ControlOp → GateState → Answer × GateState
  unfolding dns_upsert dns_delete proxy_add
  answer_gate (ok ping) s = (reply Message.ok, s)
  answer_gate (ok (custom tag inner)) s =
      if tag == str "dns.upsert"
      then dns_upsert inner s
      else if tag == str "dns.delete"
      then dns_delete inner s
      else if tag == str "proxy.add"
      then proxy_add inner s
      else (reply (error (str "unknown tag: " ++ tag)), s)
  answer_gate (ok shutdown) s = (exit, s)
  answer_gate (err e) s = (reply (error e), s)
  answer_gate (ok get_nodes) s = (reply (error (str "unsupported op")), s)
  answer_gate (ok get_master) s = (reply (error (str "unsupported op")), s)
  answer_gate (ok step_down) s = (reply (error (str "unsupported op")), s)

-- One connection.
unfoldable pub serve_netgate :
    ControlCodecs → GateCodecs → List ℕ → GateState → Connection × GateState
serve_netgate control codecs = serve control (answer_gate codecs)
