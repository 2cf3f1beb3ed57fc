-- ===== src/Hivectl/Query.antt =====
-- `send_op` and `query_hivebus` of crates/hivectl/src/main.rs: two requests, each over a connection
-- of its own.
pub mod Laws
use hivebus.Prelude.{
  ℕ, List, ◌++◌, Option, none, some, not, ltb, ◌==◌, nat_eq, if◌then◌else◌, get_or,
}
use hivebus.Std.Io.{read_exact}
use hivebus.Std.Bytes.{u16_from_be}
use hivebus.Std.Text.{Str, str, decimal}
use hivebus.Proto.Node.{NodeInfo}
use hivebus.Proto.Message.{ControlOp, get_nodes, get_master, ControlReply, error, nodes, master}
use hivebus.Proto.Control.{
  control_frame_marker, max_control_payload, encode_control, decode_control,
}
use hivebus.Socket.{ControlCodecs}
use hivebus.Hivectl.Anyhow.{
  Call, returned, raised, aborted, ◌>>=◌, with_context, checked, of_encoding, of_result,
}

-- What the system does for one connection to the socket. `some` is the text of an error. The bytes
-- that arrive for a request are those before the peer closes or the timeout passes, and
-- `read_error` is what a read then gives.
pub record Link : Type 0 where
  pub connect : Option Str
  pub set_read_timeout : Option Str
  pub set_write_timeout : Option Str
  pub write_all : List ℕ → Option Str
  pub arriving : List ℕ → List ℕ
  pub read_error : Str

module _ (codecs : ControlCodecs) (link : Link) where
  abbrev pub take_exact : ℕ → List ℕ → Call (List ℕ × List ℕ)
  take_exact n stream = elim (read_exact n stream) [
    | none ↦ raised link.read_error
    | some parts ↦ returned parts
  ]

  -- The reply behind the three bytes of its header.
  unfoldable pub read_reply : List ℕ → List ℕ → Call ControlReply
  unfolding read_exact decimal decode_control
  read_reply hdr rest =
      let marker = get_or hdr 0 0 in
      let payload_len = u16_from_be (get_or hdr 1 0) (get_or hdr 2 0) in
      if not (marker == control_frame_marker)
      then raised (str "invalid control frame marker: " ++ decimal marker)
      else if ltb max_control_payload payload_len
      then raised (str "control reply too large: " ++ decimal payload_len ++ str " bytes")
      else do
        (payload, _) ←
            with_context (str "read response payload from hivebus") (take_exact payload_len rest)
        with_context (str "decode ControlReply") (of_result (decode_control codecs.reply payload))

  unfoldable pub receive : List ℕ → Call ControlReply
  unfolding read_exact read_reply
  receive stream = do
    (hdr, rest) ← with_context (str "read response header from hivebus") (take_exact 3 stream)
    read_reply hdr rest

  unfoldable pub send_op : ControlOp → Call ControlReply
  unfolding encode_control receive
  send_op op = do
    bytes ← with_context (str "encode ControlOp") (of_encoding (encode_control codecs.op op))
    _ ← with_context (str "write to hivebus socket") (checked (link.write_all bytes))
    receive (link.arriving bytes)

  -- A new connection with its timeouts, and one request over it.
  unfoldable pub request : Str → ControlOp → Call ControlReply
  unfolding send_op
  request socket_path op = do
    _ ← with_context (str "connect to " ++ socket_path) (checked link.connect)
    _ ← checked link.set_read_timeout
    _ ← checked link.set_write_timeout
    send_op op

-- The `match` on the reply to `GetNodes`; `{:?}` of a reply is a parameter.
unfoldable pub nodes_of : (ControlReply → Str) → ControlReply → Call (List NodeInfo)
nodes_of debug (nodes n) = returned n
nodes_of debug (error message) = raised (str "hivebus GetNodes error: " ++ message)
nodes_of debug other = raised (str "unexpected GetNodes reply: " ++ debug other)

-- The `match` on the reply to `GetMaster`.
unfoldable pub master_id_of : ControlReply → Option ℕ
master_id_of (master (some n)) = some n.node_id
master_id_of (master none) = none
master_id_of _ = none

unfoldable pub query_hivebus :
    ControlCodecs → (ControlReply → Str) → Link → Link → Str → Call (List NodeInfo × Option ℕ)
unfolding request nodes_of master_id_of
query_hivebus codecs debug s1 s2 socket_path = do
  reply ← request codecs s1 socket_path get_nodes
  members ← nodes_of debug reply
  reply' ← request codecs s2 socket_path get_master
  returned (members, master_id_of reply')
