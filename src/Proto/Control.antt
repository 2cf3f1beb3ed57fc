-- ===== src/Proto/Control.antt =====
-- The control envelope of crates/proto/src/lib.rs: what is sent over a Unix socket, and how the
-- daemons and the inspector read a frame.
pub mod Laws
use hivebus.Prelude.{
  ℕ, ◌+◌, ◌*◌, Option, none, some, List, [], ◌∷◌, ◌++◌, ltb, not, ◌==◌, nat_eq, if◌then◌else◌,
  length,
}
use hivebus.Result.{Result, ok, err, ◌>>=◌}
use hivebus.Bincode.{Codec}
use hivebus.Std.Bytes.{u16_to_be, u16_from_be}
use hivebus.Std.Io.{read_exact}
use hivebus.Std.Text.{Str}

abbrev pub control_frame_marker : ℕ
control_frame_marker = 0x01

abbrev pub max_control_payload : ℕ
max_control_payload = 60 * 1024

-- What `encode_control` comes to: a frame, the encoder's error, or the panic of `expect`.
pub data Encoding : Type 0 where
  frame : List ℕ → Encoding
  failed : Str → Encoding
  panic : Encoding

unfoldable pub encode_control {ℓ} : {A : Type ℓ} → Codec A → A → Encoding
encode_control codec msg = elim (codec.encode msg) [
  | err e ↦ failed e
  | ok payload ↦
      (if ltb 65535 (length payload)
        then panic
        else frame (control_frame_marker ∷ u16_to_be (length payload) ++ payload))
]

unfoldable pub decode_control {ℓ} : {A : Type ℓ} → Codec A → List ℕ → Result A
decode_control codec bytes = do (val, _) ← codec.decode bytes; ok val

-- Reading one frame from a stream, as every daemon and the inspector do.
pub data Reading : Type 0 where
  payload : List ℕ → Reading
  bad_marker : ℕ → Reading
  too_large : ℕ → Reading
  truncated : Reading

-- The three header bytes are read; the rest of the stream follows.
unfoldable pub read_payload : List ℕ → List ℕ → Reading
unfolding read_exact
read_payload (marker ∷ hi ∷ lo ∷ _) rest =
    let payload_len = u16_from_be hi lo in
    if not (marker == control_frame_marker)
    then bad_marker marker
    else if ltb max_control_payload payload_len
    then too_large payload_len
    else elim (read_exact payload_len rest) [ none ↦ truncated | some (bytes, _) ↦ payload bytes ]
read_payload _ rest = truncated

unfoldable pub read_frame : List ℕ → Reading
unfolding read_exact read_payload
read_frame stream = elim (read_exact 3 stream) [
  | none ↦ truncated
  | some (header, rest) ↦ read_payload header rest
]
