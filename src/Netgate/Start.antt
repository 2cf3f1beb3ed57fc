-- ===== src/Netgate/Start.antt =====
-- `Config` and the start in `main` of crates/netgate/src/main.rs, and the task of a proxy rule. The
-- connections of a proxy are the system's: what `bind`, `accept` and `connect` give are arguments.
use hivebus.Prelude.{◌≡◌, refl, Option, none, some, true, false, List, [], ◌∷◌}
use hivebus.Result.{Result, ok, err, ◌>>=◌}
use hivebus.Std.Net.{SocketAddr, v4}
use hivebus.Std.Text.{Str, str}
use hivebus.Std.Fs.{Process, FileSystem}
use hivebus.Socket.Setup.{open_control}
use hivebus.Configuration.{ConfigFiles, read_or, or_default}
use hivebus.Netgate.{ProxyRule, GateState}

pub record Fields : Type 0 where
  pub dns_addr : Option SocketAddr
  pub domain : Option Str
  pub tun_iface : Option Str

pub record Config : Type 0 where
  pub dns_addr : SocketAddr
  pub domain : Str
  pub tun_iface : Option Str

abbrev default_dns_addr : SocketAddr
default_dns_addr = v4 (record { a = 0; b = 0; c = 0; d = 0 }) 5353

abbrev default_domain : Str
default_domain = str "cluster.internal"

-- The reader that serde derives.
unfoldable pub of_fields : Fields → Config
of_fields f = record {
  dns_addr = or_default f.dns_addr default_dns_addr;
  domain = or_default f.domain default_domain;
  tun_iface = f.tun_iface;
}

-- What `main` reads from its own text when there is no file.
abbrev builtin : Config
builtin = of_fields (record {
  dns_addr = some (v4 (record { a = 0; b = 0; c = 0; d = 0 }) 5353);
  domain = some (str "cluster.internal");
  tun_iface = none;
})

-- `main`, up to the tasks: the tables they share, and the address of the DNS server.
unfoldable pub start : ConfigFiles Fields → Option Str → Result (GateState × SocketAddr)
unfolding read_or of_fields
start files argument = do
  cfg ← read_or files of_fields builtin (or_default argument (str "/etc/hivebus/netgate.toml"))
  ok (record { dns_table = []; proxy_rules = []; running = [] }, cfg.dns_addr)

-- What a proxy's task does: it carries the bytes of a connection to and from the target, or it
-- reports.
pub data ProxyEvent : Type 0 where
  forwarded : SocketAddr → SocketAddr → ProxyEvent
  connect_failed : SocketAddr → SocketAddr → Str → ProxyEvent
  accept_failed : Str → ProxyEvent

-- The task of a connection from `from`.
unfoldable pub proxy_connection : SocketAddr → SocketAddr → Result (Unit {0}) → ProxyEvent
proxy_connection from target (ok _) = forwarded from target
proxy_connection from target (err e) = connect_failed from target e

-- The loop of a bound listener: what `accept` gives, each with what `connect` gives after it.
unfoldable pub proxy_loop :
    ProxyRule → List (Result SocketAddr × Result (Unit {0})) → List ProxyEvent
unfolding proxy_connection
proxy_loop rule [] = []
proxy_loop rule ((ok from, connected) ∷ rest) =
    proxy_connection from rule.target connected ∷ proxy_loop rule rest
proxy_loop rule ((err e, connected) ∷ rest) = accept_failed e ∷ proxy_loop rule rest

-- The task ends at once if the address cannot be bound.
unfoldable pub run_proxy_rule :
    ProxyRule → Result (Unit {0}) → List (Result SocketAddr × Result (Unit {0})) → List ProxyEvent
unfolding proxy_loop
run_proxy_rule rule (err e) accepts = []
run_proxy_rule rule (ok _) accepts = proxy_loop rule accepts

-- A missing file is as good as one that sets nothing.
pub start_without_file :
    (files bare : ConfigFiles Fields) (path raw : Str)
    → files.exists path ≡ false
    → bare.exists path ≡ true
    → bare.read_to_string path ≡ ok raw
    → bare.parse raw ≡ ok (record { dns_addr = none; domain = none; tun_iface = none })
    → start files (some path) ≡ start bare (some path)
unfolding start read_or of_fields
start_without_file files bare path raw absent there read parsed =
    rw (start, absent, there, read, parsed) refl

-- `control_plane`, up to the first connection.
unfoldable pub open_socket : Process → FileSystem → Result FileSystem
unfolding open_control
open_socket process fs = open_control process (str "netgate.sock") fs
