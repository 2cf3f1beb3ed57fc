-- ===== src/Proto/Control/Laws.antt =====
-- A control frame of crates/proto/src/lib.rs on its way from the writer to the reader.
use hivebus.Prelude.{
  ℕ, ◌+◌, ◌*◌, ◌/◌, ◌%◌, ◌^◌, ◌≤◌, ◌<◌, ◌≡◌, refl, arith, List, [], ◌∷◌, ◌++◌, ltb, length,
  append-nil, if◌then◌else◌,
}
use hivebus.Result.{ok}
use hivebus.Bincode.{Codec, ReadsBack}
use hivebus.Std.Io.{read_exact-append}
use hivebus.Std.Bytes.{u16_to_be}
use hivebus.Proto.Control.{
  control_frame_marker, max_control_payload, frame, encode_control, decode_control, payload,
  too_large, read_payload, read_frame,
}

-- The three bytes that a writer puts in front of `n` payload bytes.
abbrev header : ℕ → List ℕ
header n = control_frame_marker ∷ u16_to_be n

read_payload-header :
    (bytes rest : List ℕ)
    → length bytes < 65536
    → read_payload (header (length bytes)) (bytes ++ rest)
      ≡ (if ltb max_control_payload (length bytes) then too_large (length bytes) else payload bytes)
unfolding read_payload
read_payload-header bytes rest fits =
    let e : length bytes / 2 ^ 8 % 256 * 2 ^ 8 + length bytes % 256 ≡ length bytes = omega arith in
    rw (e, read_exact-append (length bytes) bytes rest refl)

read_frame-header :
    (bytes rest : List ℕ)
    → length bytes < 65536
    → read_frame (header (length bytes) ++ (bytes ++ rest))
      ≡ (if ltb max_control_payload (length bytes) then too_large (length bytes) else payload bytes)
unfolding read_frame
read_frame-header bytes rest fits =
    rw (read_frame, read_exact-append 3 (header (length bytes)) (bytes ++ rest) refl)
      (read_payload-header bytes rest fits)

module _ {ℓ} {A : Type ℓ} (codec : Codec A) (msg : A) (bytes : List ℕ) where
  -- A message whose payload is at most `MAX_CONTROL_PAYLOAD` bytes is sent in a frame from which a
  -- reader takes the same payload, whatever follows in the stream, and decodes the message, if the
  -- codec reads back what it wrote.
  pub read_frame-encode_control :
      ReadsBack codec
      → codec.encode msg ≡ ok bytes
      → length bytes ≤ max_control_payload
      → (rest : List ℕ)
      → (f : List ℕ) × (encode_control codec msg ≡ frame f)
        × (read_frame (f ++ rest) ≡ payload bytes)
        × (decode_control codec bytes ≡ ok msg)
  unfolding encode_control decode_control
  read_frame-encode_control reads written fits rest = (
    header (length bytes) ++ bytes,
    ground arith,
    ground (arith, read_frame-header bytes rest),
    rw (← append-nil bytes, reads msg bytes [] written),
  )

  -- A message whose payload is above `MAX_CONTROL_PAYLOAD` bytes and that is sent at all is
  -- refused by the reader as too large.
  pub read_frame-oversized :
      (f : List ℕ)
      → codec.encode msg ≡ ok bytes
      → encode_control codec msg ≡ frame f
      → max_control_payload < length bytes
      → (rest : List ℕ) → read_frame (f ++ rest) ≡ too_large (length bytes)
  unfolding encode_control
  read_frame-oversized f written sent large rest = ground (arith, read_frame-header bytes rest)
