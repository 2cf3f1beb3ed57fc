-- ===== src/Socket/Laws.antt =====
-- Requests over a Unix socket, from the client's bytes to the daemon's handler.
use hivebus.Prelude.{ℕ, ◌≤◌, ◌≡◌, ◌≢◌, refl, List, ◌++◌, length}
use hivebus.Result.{Result, ok}
use hivebus.Bincode.{ReadsBack}
use hivebus.Proto.Message.{ControlOp}
use hivebus.Proto.Control.{
  frame, encode_control, Reading, payload, bad_marker, too_large, truncated, read_frame,
  max_control_payload,
}
use hivebus.Proto.Control.Laws.{read_frame-encode_control}
use hivebus.Socket.{ControlCodecs, Answer, closed, finish, serve}

module _ {S : Type 0} (codecs : ControlCodecs) (handle : Result ControlOp → S → Answer × S) where
  -- A request whose payload is at most `MAX_CONTROL_PAYLOAD` bytes is framed, and the daemon hands
  -- exactly that request to its handler, whatever bytes follow it on the connection, if the codec
  -- reads back what it wrote.
  pub serve-encode_control :
      (op : ControlOp) (bytes rest : List ℕ) (s : S)
      → ReadsBack codecs.op
      → codecs.op.encode op ≡ ok bytes
      → length bytes ≤ max_control_payload
      → (f : List ℕ) × (encode_control codecs.op op ≡ frame f)
        × (serve codecs handle (f ++ rest) s
            ≡ (finish codecs (handle (ok op) s).0, (handle (ok op) s).1))
  unfolding serve
  serve-encode_control op bytes rest s reads written fits =
      let (f, sent, read, decoded) =
        read_frame-encode_control codecs.op op bytes reads written fits rest in
      (f, sent, rw (serve, read, decoded))

  -- A stream from which no payload can be read, because its marker is wrong, it announces too much
  -- or it ends too early, is closed with no reply and leaves the daemon's state as it was.
  pub serve_malformed :
      (stream : List ℕ) (s : S)
      → ((bytes : List ℕ) → read_frame stream ≢ payload bytes)
      → serve codecs handle stream s ≡ (closed, s)
  unfolding serve
  serve_malformed stream s bad = go (read_frame stream) refl
    where
      go : (r : Reading) → read_frame stream ≡ r → serve codecs handle stream s ≡ (closed, s)
      go (payload bytes) e = absurd (bad bytes e)
      go (bad_marker n) e = rw (serve, e)
      go (too_large n) e = rw (serve, e)
      go truncated e = rw (serve, e)
