-- ===== src/Hivebus/Wire/Laws.antt =====
-- What a round of the sending tasks of crates/hivebus/src/main.rs puts on the network.
use hivebus.Prelude.{ℕ, ◌+◌, ◌%◌, ◌≤◌, ◌<◌, ◌≡◌, List, [], ◌∷◌, ◌++◌, arith, length, bit_and_nibble}
use hivebus.Result.{ok}
use hivebus.Bincode.{Codec}
use hivebus.Std.Time.{SystemTime}
use hivebus.Proto.Frame.{new, to_bytes, heartbeat, FrameHeader}
use hivebus.Proto.Payload.{HeartbeatPayload}
use hivebus.Hivebus.Wire.{
  epoch_ms, max_frame, encode_frame, mcast_addr, broadcast_addr, next_seq, heartbeat_round,
}

encode_frame_small {ℓ} :
    {A : Type ℓ} (codec : Codec A) (header : FrameHeader) (payload : A) (bytes : List ℕ)
    → codec.encode payload ≡ ok bytes
    → length bytes + 4 ≤ max_frame
    → encode_frame codec header payload ≡ ok (to_bytes header ++ bytes)
unfolding encode_frame to_bytes
encode_frame_small codec header payload bytes written small = ground arith

next_seq_lem : (seq : ℕ) → seq < 16 → next_seq seq ≡ (seq + 1) % 16
next_seq_lem seq h = omega (arith, bit_and_nibble ((seq + 1) % 256) (omega arith))

-- A heartbeat whose payload is at most 504 bytes is sent twice in one round, to the broadcast
-- address and then to the group, as the same frame, and the sequence number moves on modulo 16.
pub heartbeat_round_lem :
    (codec : Codec HeartbeatPayload) (id incarnation : ℕ) (now : SystemTime) (seq : ℕ)
    (bytes : List ℕ)
    → seq < 16
    → codec.encode (record { incarnation = incarnation; epoch_ms = epoch_ms now }) ≡ ok bytes
    → length bytes + 4 ≤ max_frame
    → let frame = to_bytes (new heartbeat seq id) ++ bytes in
      heartbeat_round codec id incarnation now seq ≡ (
        record { to = broadcast_addr; bytes = frame }
            ∷ record { to = mcast_addr; bytes = frame }
            ∷ [],
        (seq + 1) % 16,
      )
unfolding heartbeat_round
heartbeat_round_lem codec id incarnation now seq bytes h written small = rw (
  heartbeat_round,
  encode_frame_small codec (new heartbeat seq id) _ bytes written small,
  next_seq_lem seq h,
)
