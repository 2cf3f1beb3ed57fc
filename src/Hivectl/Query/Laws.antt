-- ===== src/Hivectl/Query/Laws.antt =====
-- A query of crates/hivectl/src/main.rs that is answered by crates/hivebus/src/main.rs.
use hivebus.Prelude.{
  ℕ, ◌≤◌, ◌≡◌, refl, ◌∙◌, ◌⊎◌, inl, none, some, List, [], ◌∷◌, ◌++◌, arith, length, append-nil,
}
use hivebus.Result.{ok}
use hivebus.Bincode.{Codec, ReadsBack}
use hivebus.Std.Io.{read_exact}
use hivebus.Std.Text.{Str, str, decimal}
use hivebus.Std.Time.{SystemTime}
use hivebus.Proto.Message.{ControlOp, get_nodes, get_master, ControlReply, nodes, master}
use hivebus.Proto.Control.{
  decode_control, Reading, payload, bad_marker, too_large, truncated, read_payload, read_frame,
  max_control_payload,
}
use hivebus.Proto.Control.Laws.{read_frame-encode_control}
use hivebus.Socket.{ControlCodecs, reply, Connection, replied, finish}
use hivebus.Socket.Laws.{serve-encode_control}
use hivebus.Hivebus.Members.{Members, master_from, IsValid}
use hivebus.Hivebus.Control.{Local, list_nodes, find_master, answer, serve_hivebus}
use hivebus.Hivebus.Control.Replies.{get_master_lem}
use hivebus.Hivectl.Anyhow.{Call, returned, raised, with_context, of_result}
use hivebus.Hivectl.Query.{
  Link, read_reply, receive, send_op, request, nodes_of, master_id_of, query_hivebus,
}

-- What is made of a stream in which the daemons' reader sees the given reading.
abbrev Received : ControlCodecs → Link → Reading → Call ControlReply → Type 0
Received codecs link (payload bytes) c =
    c ≡ with_context (str "decode ControlReply") (of_result (decode_control codecs.reply bytes))
Received codecs link (bad_marker n) c =
    c ≡ raised (str "invalid control frame marker: " ++ decimal n)
Received codecs link (too_large n) c =
    c ≡ raised (str "control reply too large: " ++ decimal n ++ str " bytes")
Received codecs link truncated c =
    (c ≡ raised (str "read response header from hivebus: " ++ link.read_error))
    ⊎ (c ≡ raised (str "read response payload from hivebus: " ++ link.read_error))

-- hivectl reads a reply as the daemons read a request: it decodes the payload that their reader
-- takes from the stream. Where their reader finds a wrong marker, a length that is too large or an
-- early end, it raises an error that says which of these it is, with the marker, the length or the
-- error of the read in it.
pub receive-Received :
    (codecs : ControlCodecs) (link : Link) (stream : List ℕ)
    → Received codecs link (read_frame stream) (receive codecs link stream)
unfolding receive read_reply read_frame read_payload read_exact
receive-Received codecs link [] = inl refl
receive-Received codecs link (a ∷ []) = inl refl
receive-Received codecs link (a ∷ b ∷ []) = inl refl
receive-Received codecs link (a ∷ b ∷ c ∷ rest) = ground arith

receive_lem :
    (codecs : ControlCodecs) (link : Link) (stream bytes : List ℕ)
    → read_frame stream ≡ payload bytes
    → receive codecs link stream
      ≡ with_context (str "decode ControlReply") (of_result (decode_control codecs.reply bytes))
receive_lem codecs link stream bytes h = rw h at (receive-Received codecs link stream)

-- The bytes that a client gets of a connection.
abbrev pub sent : Connection → List ℕ
sent (replied bytes) = bytes
sent _ = []

-- The link leads to a hivebus with this table, and the system refuses nothing.
pub record Serves (codecs : ControlCodecs) (self : Local) (now : SystemTime) (m : Members)
    (link : Link) : Type 0 where
  pub connects : link.connect ≡ none
  pub reads_in_time : link.set_read_timeout ≡ none
  pub writes_in_time : link.set_write_timeout ≡ none
  pub writes : (bytes : List ℕ) → link.write_all bytes ≡ none
  pub arrives :
      (bytes : List ℕ) → link.arriving bytes ≡ sent (serve_hivebus codecs self now bytes m).0

-- The message has an encoding of at most `MAX_CONTROL_PAYLOAD` bytes.
abbrev pub Fits {ℓ} : {A : Type ℓ} → Codec A → A → Type 0
Fits codec a = (bytes : List ℕ) × (codec.encode a ≡ ok bytes) × (length bytes ≤ max_control_payload)

module _ (codecs : ControlCodecs) (reads_op : ReadsBack codecs.op)
    (reads_reply : ReadsBack codecs.reply) (self : Local) (socket_path : Str) where
  module _ (now : SystemTime) (m : Members) (link : Link)
      (served : Serves codecs self now m link) where
    -- A request over the socket gives the reply that the daemon makes to it.
    pub request_lem :
        (op : ControlOp) (r : ControlReply)
        → Fits codecs.op op
        → Fits codecs.reply r
        → answer self now m (ok op) ≡ reply r
        → request codecs link socket_path op ≡ returned r
    unfolding request send_op serve_hivebus finish
    request_lem op r (ob, written, short) (rb, written', short') answered =
        let (f, op_sent, served_as) =
          serve-encode_control codecs (λ o ms. (answer self now ms o, ms)) op ob [] m reads_op
            written short in
        let (g, reply_sent, read, decoded) =
          read_frame-encode_control codecs.reply r rb reads_reply written' short' [] in
        let served_as' = rw append-nil at served_as in
        let read' = rw append-nil at read in
        let arrived : link.arriving f ≡ g =
          served.arrives f ∙ (rw (serve_hivebus, served_as', answered, finish, reply_sent)) in
        rw (
          request,
          send_op,
          served.connects,
          served.reads_in_time,
          served.writes_in_time,
          op_sent,
          served.writes f,
          arrived,
          receive_lem codecs link g rb read',
          decoded,
        )

  -- A query of a hivebus returns the members and the node itself, as the first connection finds
  -- them, and the identifier that the election gives over the table that the second one finds.
  -- The conditions: the codecs read back what they wrote, the system refuses nothing, the tables
  -- are well formed, and each of the four messages has an encoding of at most
  -- `MAX_CONTROL_PAYLOAD` bytes.
  pub query_hivebus-serve_hivebus :
      (debug : ControlReply → Str) (now now' : SystemTime) (m m' : Members) (s1 s2 : Link)
      → Serves codecs self now m s1
      → Serves codecs self now' m' s2
      → IsValid self.self_id m'
      → Fits codecs.op get_nodes
      → Fits codecs.op get_master
      → Fits codecs.reply (nodes (list_nodes self now m))
      → Fits codecs.reply (master (find_master self now' m'))
      → query_hivebus codecs debug s1 s2 socket_path
        ≡ returned (list_nodes self now m, master_from m' self.self_id)
  unfolding query_hivebus nodes_of master_id_of answer
  query_hivebus-serve_hivebus debug now now' m m' s1 s2 served served' v op1 op2 fits fits' =
      let (n, replies, _, elected, _, _) = get_master_lem self now' m' v in
      let found : find_master self now' m' ≡ some n = cc in
      rw
        (
          query_hivebus,
          request_lem now m s1 served get_nodes (nodes (list_nodes self now m)) op1 fits refl,
          nodes_of,
          request_lem now' m' s2 served' get_master _ op2 fits' refl,
          found,
          elected,
        )
        refl
