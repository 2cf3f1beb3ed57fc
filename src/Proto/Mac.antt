-- ===== src/Proto/Mac.antt =====
-- `node_id_from_mac` of crates/proto/src/lib.rs. A MAC address is its six octets.
pub mod Laws
use hivebus.Prelude.{ℕ, ◌<◌, List, [], ◌∷◌, bit_xor}
use hivebus.Std.Bytes.{u16_from_be}

pub record Mac : Type 0 where
  pub m0 : ℕ
  pub m1 : ℕ
  pub m2 : ℕ
  pub m3 : ℕ
  pub m4 : ℕ
  pub m5 : ℕ

abbrev pub octets : Mac → List ℕ
octets mac = mac.m0 ∷ mac.m1 ∷ mac.m2 ∷ mac.m3 ∷ mac.m4 ∷ mac.m5 ∷ []

pub record IsMac (mac : Mac) : Type 0 where
  pub m0 : mac.m0 < 256
  pub m1 : mac.m1 < 256
  pub m2 : mac.m2 < 256
  pub m3 : mac.m3 < 256
  pub m4 : mac.m4 < 256
  pub m5 : mac.m5 < 256

unfoldable pub node_id_from_mac : Mac → ℕ
node_id_from_mac mac =
    let hi = bit_xor (bit_xor mac.m0 mac.m2) mac.m4 in
    let lo = bit_xor (bit_xor mac.m1 mac.m3) mac.m5 in u16_from_be hi lo
