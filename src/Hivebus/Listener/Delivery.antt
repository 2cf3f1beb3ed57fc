-- ===== src/Hivebus/Listener/Delivery.antt =====
-- From the sender's task to the receiver's table, both of crates/hivebus/src/main.rs.
use hivebus.Hivebus.Listener.Peers.{heard, get-on_heartbeat}
use hivebus.Prelude.{
  ◌∙◌, ℕ, ◌≤◌, ◌<◌, ◌^◌, ◌≡◌, ◌≢◌, inl, inr, refl, ap, some, List, ◌++◌, arith, nat_eq, ◌==◌,
  if◌then◌else◌, beq_ne, take, drop, length, take_of_length-le,
}
use hivebus.Result.{ok, Result-cases}
use hivebus.Bincode.{Codec, ReadsBack, decode-encode}
use hivebus.Std.HashMap
use hivebus.Std.Net.{SocketAddr}
use hivebus.Std.Time.{SystemTime}
use hivebus.Proto.Frame.{MsgType, heartbeat, FrameHeader, new, to_bytes, from_bytes}
use hivebus.Proto.Frame.Laws.{from_bytes-new, msg_type-new, node_id-new}
use hivebus.Proto.Payload.{HeartbeatPayload}
use hivebus.Hivebus.Members.{Members}
use hivebus.Hivebus.Wire.{encode_frame, max_frame}
use hivebus.Hivebus.Listener.{Codecs, on_message, on_frame, on_datagram}

-- A frame that was encoded is its header and the payload, in at most 508 bytes.
pub encode_frame-eq-ok {ℓ} :
    {A : Type ℓ} (codec : Codec A) (header : FrameHeader) (payload : A) (buf : List ℕ)
    → encode_frame codec header payload ≡ ok buf
    → (bytes : List ℕ) × (codec.encode payload ≡ ok bytes)
      × (buf ≡ to_bytes header ++ bytes)
      × (length buf ≤ max_frame)
unfolding encode_frame to_bytes
encode_frame-eq-ok codec header payload buf sent = elim (Result-cases (codec.encode payload)) [
  | inl (e, p) ↦ absurd (ground arith)
  | inr (bytes, p) ↦ (bytes, p, ground arith, ground arith)
]

module _ (codecs : Codecs) (self_id : ℕ) (now : SystemTime) (from : SocketAddr) (t : MsgType)
    (seq id : ℕ) (seq_fits : seq < 256) (id_fits : id < 2 ^ 16) (other : id ≢ self_id) where
  on_frame-new :
      (bytes : List ℕ) (m : Members)
      → on_frame codecs self_id now from (new t seq id) bytes m
        ≡ on_message codecs self_id now from t id bytes m
  unfolding on_frame
  on_frame-new bytes m =
      rw
        (
          on_frame,
          node_id-new t seq id seq_fits id_fits,
          beq_ne id self_id other,
          msg_type-new t seq id seq_fits id_fits,
        )
        (ap (λ (n : ℕ). on_message codecs self_id now from t n bytes m)
          (node_id-new t seq id seq_fits id_fits))

  on_datagram_read :
      (datagram : List ℕ) (m : Members) (header : FrameHeader)
      → from_bytes (take 576 datagram) ≡ some header
      → on_datagram codecs self_id now from datagram m
        ≡ on_frame codecs self_id now from header (drop 4 (take 576 datagram)) m
  unfolding on_datagram
  on_datagram_read datagram m header read = rw (on_datagram, read)

  -- A frame that a peer encoded reaches the handler of its type with the sender's identifier, and
  -- the handler reads the payload from the bytes behind the header.
  pub on_datagram-encode_frame {ℓ} :
      {A : Type ℓ} (codec : Codec A) (payload : A) (buf : List ℕ) (m : Members)
      → encode_frame codec (new t seq id) payload ≡ ok buf
      → (bytes : List ℕ) × (codec.encode payload ≡ ok bytes)
        × (on_datagram codecs self_id now from buf m
            ≡ on_message codecs self_id now from t id bytes m)
  on_datagram-encode_frame codec payload buf m sent =
      let (bytes, written, is_buf, fits) =
        encode_frame-eq-ok codec (new t seq id) payload buf sent in
      let whole : take 576 buf ≡ buf = take_of_length-le 576 buf (omega arith) in
      let read : from_bytes (take 576 buf) ≡ some (new t seq id) =
        rw (whole, is_buf) (from_bytes-new t seq id seq_fits id_fits bytes) in
      let rest : drop 4 (take 576 buf) ≡ bytes = rw (whole, is_buf) (unfold to_bytes in refl) in
      (
        bytes,
        written,
        on_datagram_read buf m (new t seq id) read
            ∙ ap (λ (b : List ℕ). on_frame codecs self_id now from (new t seq id) b m) rest
            ∙ on_frame-new bytes m,
      )

-- A heartbeat that another node encodes, when it is received, makes the receiver see that node
-- Alive: with the heartbeat's incarnation, seen at the time of reception. A node that was known
-- keeps its name, address and master flag, an unknown one is added. All other entries of the
-- receiver's table stay as they are. The payload codec reads back what it wrote.
pub heartbeat_delivered :
    (codecs : Codecs) (self_id : ℕ) (now : SystemTime) (from : SocketAddr) (seq id : ℕ)
    (pl : HeartbeatPayload) (buf : List ℕ) (m : Members)
    → seq < 256
    → id < 2 ^ 16
    → id ≢ self_id
    → ReadsBack codecs.heartbeat
    → encode_frame codecs.heartbeat (new heartbeat seq id) pl ≡ ok buf
    → (k : ℕ)
    → HashMap.get (on_datagram codecs self_id now from buf m).0 k
      ≡ (if id == k then some (heard now from id pl (HashMap.get m id)) else HashMap.get m k)
unfolding on_message
heartbeat_delivered codecs self_id now from seq id pl buf m seq_fits id_fits other reads sent k =
    let (bytes, written, arrives) =
      on_datagram-encode_frame codecs self_id now from heartbeat seq id seq_fits id_fits other
        codecs.heartbeat pl buf m sent in
    let decoded : codecs.heartbeat.decode bytes ≡ ok (pl, length bytes) =
      decode-encode codecs.heartbeat pl bytes reads written in
    rw (arrives, on_message, decoded) (get-on_heartbeat now from id pl m k)
