-- ===== src/Tests/Hivectl.antt =====
-- Concrete inputs for crates/hivectl/src/main.rs, in front of a hivebus with the sample table.
mod Watching
mod Ending
use mathlib.Core.List.{Perm}
use hivebus.Prelude.{
  ℕ, ◌≤◌, ◌≡◌, refl, some, none, Option, List, [], ◌∷◌, ◌++◌, arith, nat_eq, length, replicate,
}
use hivebus.Result.{ok}
use hivebus.Bincode.{ReadsBack}
use hivebus.Std.HashMap
use hivebus.Std.Text.{Str, str, decimal}
use hivebus.Std.Time.{SystemTime}
use hivebus.Proto.Node.{NodeInfo, alive}
use hivebus.Proto.Message.{get_nodes, get_master, ControlReply, nodes, master}
use hivebus.Proto.Control.{max_control_payload, read_frame}
use hivebus.Socket.{ControlCodecs}
use hivebus.Hivebus.Members.{Members, master_from}
use hivebus.Hivebus.Control.{Local, list_nodes, find_master, serve_hivebus}
use hivebus.Hivectl.Anyhow.{returned, raised}
use hivebus.Hivectl.Query.{Link, receive, query_hivebus}
use hivebus.Hivectl.Query.Laws.{Serves, Fits, sent, receive-Received, query_hivebus-serve_hivebus}
use hivebus.Tests.Data.{op_codec, op_codec-ReadsBack, addr, later, table, table-IsValid}
use hivebus.Tests.Replies.{reply_codec, reply_codec-ReadsBack}

abbrev pub codecs : ControlCodecs
codecs = record { op = op_codec; reply = reply_codec }

abbrev pub self : Local
self = record {
  self_id = 5;
  self_hostname = str "five";
  self_control_addr = addr 5;
  incarnation = 1;
}

-- A link to the daemon of node 5, without a fault.
abbrev pub link : Link
link = record {
  connect = none;
  set_read_timeout = none;
  set_write_timeout = none;
  write_all = λ bytes. none;
  arriving = λ bytes. sent (serve_hivebus codecs self later bytes table).0;
  read_error = str "failed to fill whole buffer";
}

pub link-Serves : Serves codecs self later table link
link-Serves = record {
  connects = refl;
  reads_in_time = refl;
  writes_in_time = refl;
  writes = λ bytes. refl;
  arrives = λ bytes. refl;
}

pub nodes-Fits : Fits reply_codec (nodes (list_nodes self later table))
unfolding list_nodes master_from
nodes-Fits = (_, refl, omega arith)

pub master-Fits : Fits reply_codec (master (find_master self later table))
unfolding find_master master_from HashMap.get
master-Fits = (_, refl, omega arith)

pub get_nodes-Fits : Fits op_codec get_nodes
get_nodes-Fits = (1 ∷ [], refl, omega arith)

pub get_master-Fits : Fits op_codec get_master
get_master-Fits = (2 ∷ [], refl, omega arith)

query_hivebus-serve_hivebus_example :
    query_hivebus codecs (λ r. []) link link (str "/run/h.sock")
    ≡ returned (list_nodes self later table, master_from table 5)
query_hivebus-serve_hivebus_example =
    query_hivebus-serve_hivebus codecs op_codec-ReadsBack reply_codec-ReadsBack self
      (str "/run/h.sock") (λ r. []) later later table table link link link-Serves link-Serves
      table-IsValid get_nodes-Fits get_master-Fits nodes-Fits master-Fits

-- A reply with a wrong marker.
receive-Received_example :
    receive codecs link (7 ∷ 0 ∷ 1 ∷ 0 ∷ []) ≡ raised (str "invalid control frame marker: 7")
unfolding read_frame decimal
receive-Received_example = receive-Received codecs link (7 ∷ 0 ∷ 1 ∷ 0 ∷ [])
