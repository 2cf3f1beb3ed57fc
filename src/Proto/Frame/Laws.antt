-- ===== src/Proto/Frame/Laws.antt =====
-- The header of crates/proto/src/lib.rs against its wire layout.
use hivebus.Prelude.{
  ℕ, ◌+◌, ◌*◌, ◌/◌, ◌%◌, ◌≤◌, ◌<◌, ◌^◌, ◌≡◌, ◌↔◌, refl, ap, some, List, ◌∷◌, ◌++◌, arith, bit_or,
  bit_and_nibble, bit_or_nibbles, length, take,
}
use hivebus.Proto.Frame.{
  MsgType, heartbeat, as_u8, from_u8, frame_magic, FrameHeader, new, msg_type, seq, node_id,
  to_bytes, from_bytes,
}

pub from_u8-as_u8 : (t : MsgType) → from_u8 (as_u8 t) ≡ some t
unfolding from_u8
from_u8-as_u8 heartbeat = refl
from_u8-as_u8 _ = refl

-- `from_u8` gives a message type exactly for the number of that type.
pub from_u8_iff : (v : ℕ) (t : MsgType) → (from_u8 v ≡ some t) ↔ (as_u8 t ≡ v)
unfolding from_u8
from_u8_iff v heartbeat = ground arith
from_u8_iff v _ = ground arith

pub as_u8-lt : (t : MsgType) → as_u8 t < 16
as_u8-lt heartbeat = omega arith
as_u8-lt _ = omega arith

-- The packed byte is the type in the upper and the sequence number in the lower four bits.
pub type_seq-new :
    (t : MsgType) (s id : ℕ) → s < 256 → (new t s id).type_seq ≡ as_u8 t * 16 + s % 16
unfolding new
type_seq-new t s id h = omega (
  arith,
  as_u8-lt t,
  bit_and_nibble s h,
  ap (bit_or (as_u8 t * 16 % 256)) (bit_and_nibble s h),
  ap (λ (q : ℕ). bit_or q (s % 16)) {x = as_u8 t * 16 % 256} {y = as_u8 t * 16}
      (omega (arith, as_u8-lt t)),
  bit_or_nibbles (as_u8 t) (s % 16) (as_u8-lt t) (omega arith),
)

module _ (t : MsgType) (s id : ℕ) (s_fits : s < 256) (id_fits : id < 2 ^ 16) where
  pub msg_type-new : msg_type (new t s id) ≡ some t
  unfolding msg_type
  msg_type-new =
      let e : (new t s id).type_seq / 16 ≡ as_u8 t = omega (arith, type_seq-new t s id s_fits) in
      rw e (from_u8-as_u8 t)

  pub seq-new : seq (new t s id) ≡ s % 16
  unfolding seq
  seq-new = omega (
    arith,
    as_u8-lt t,
    type_seq-new t s id s_fits,
    bit_and_nibble (new t s id).type_seq (omega (arith, as_u8-lt t, type_seq-new t s id s_fits)),
  )

  pub node_id-new : node_id (new t s id) ≡ id
  unfolding node_id new
  node_id-new = omega arith

  pub from_bytes-new :
      (rest : List ℕ) → from_bytes (to_bytes (new t s id) ++ rest) ≡ some (new t s id)
  unfolding from_bytes to_bytes new
  from_bytes-new rest = refl

  -- A header written in front of any payload is read back: the reader finds the message type, the
  -- sequence number modulo 16 and the node identifier that the writer gave, for every message
  -- type, every `u8` sequence number and every `u16` identifier.
  pub from_bytes-to_bytes :
      (rest : List ℕ)
      → (h : FrameHeader) × (from_bytes (to_bytes (new t s id) ++ rest) ≡ some h)
        × (msg_type h ≡ some t)
        × (seq h ≡ s % 16)
        × (node_id h ≡ id)
  from_bytes-to_bytes rest = (new t s id, from_bytes-new rest, msg_type-new, seq-new, node_id-new)

-- A packet is accepted exactly when it has four bytes or more and the first is the magic byte,
-- and then the header that is read, written again, is the packet's first four bytes.
pub from_bytes_iff :
    (b : List ℕ) (h : FrameHeader)
    → (from_bytes b ≡ some h) ↔ ((take 4 b ≡ to_bytes h) × (4 ≤ length b) × (h.magic ≡ frame_magic))
unfolding from_bytes to_bytes
from_bytes_iff (b0 ∷ b1 ∷ b2 ∷ b3 ∷ rest) h = ground arith
from_bytes_iff _ h = ground arith
