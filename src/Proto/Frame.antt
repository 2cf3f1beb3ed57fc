-- ===== src/Proto/Frame.antt =====
-- The discovery frame of crates/proto/src/lib.rs: its message types and its 4-byte header.
pub mod Laws
use hivebus.Prelude.{
  ℕ, ◌+◌, ◌*◌, ◌/◌, ◌%◌, bit_and, bit_or, Option, none, some, List, [], ◌∷◌, ◌==◌, nat_eq,
  if◌then◌else◌,
}
use hivebus.Std.Bytes.{u16_to_be, u16_from_be}

abbrev pub frame_magic : ℕ
frame_magic = 0xca

pub data MsgType : Type 0 where
  heartbeat announce leave ack gossip vote_request vote_grant : MsgType

-- `self as u8`
abbrev pub as_u8 : MsgType → ℕ
as_u8 heartbeat = 0
as_u8 announce = 1
as_u8 leave = 2
as_u8 ack = 3
as_u8 gossip = 4
as_u8 vote_request = 5
as_u8 vote_grant = 6

unfoldable pub from_u8 : ℕ → Option MsgType
from_u8 v =
    if v == 0
    then some heartbeat
    else if v == 1
    then some announce
    else if v == 2
    then some leave
    else if v == 3
    then some ack
    else if v == 4
    then some gossip
    else if v == 5
    then some vote_request
    else if v == 6
    then some vote_grant
    else none

-- The node identifier is kept as its two bytes, the high one first.
pub record FrameHeader : Type 0 where
  pub magic : ℕ
  pub type_seq : ℕ
  pub node_id_hi : ℕ
  pub node_id_lo : ℕ

-- `FrameHeader::new`: the type is shifted within a `u8`.
unfoldable pub new : MsgType → ℕ → ℕ → FrameHeader
new msg_type seq node_id = record {
  magic = frame_magic;
  type_seq = bit_or (as_u8 msg_type * 16 % 256) (bit_and seq 0x0f);
  node_id_hi = node_id / 256 % 256;
  node_id_lo = node_id % 256;
}

unfoldable pub msg_type : FrameHeader → Option MsgType
unfolding from_u8
msg_type h = from_u8 (h.type_seq / 16)

unfoldable pub seq : FrameHeader → ℕ
seq h = bit_and h.type_seq 0x0f

unfoldable pub node_id : FrameHeader → ℕ
node_id h = u16_from_be h.node_id_hi h.node_id_lo

unfoldable pub to_bytes : FrameHeader → List ℕ
to_bytes h = h.magic ∷ h.type_seq ∷ h.node_id_hi ∷ h.node_id_lo ∷ []

-- The length test is the pattern.
unfoldable pub from_bytes : List ℕ → Option FrameHeader
from_bytes (b0 ∷ b1 ∷ b2 ∷ b3 ∷ rest) =
    if b0 == frame_magic
    then some (record { magic = b0; type_seq = b1; node_id_hi = b2; node_id_lo = b3 })
    else none
from_bytes _ = none
