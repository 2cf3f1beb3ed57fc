-- ===== src/Proto/Mac/Laws.antt =====
-- What the derived node identifier of crates/proto/src/lib.rs tells of the MAC address.
use hivebus.Prelude.{ℕ, ◌<◌, ◌^◌, ◌≡◌, arith, bit_xor, bit_xor_comm, bit_xor-lt, bit_xor_cancel}
use hivebus.Proto.Mac.{Mac, IsMac, node_id_from_mac}

xor_byte : (a b c : ℕ) → a < 256 → b < 256 → c < 256 → bit_xor (bit_xor a b) c < 256
xor_byte a b c ha hb hc = bit_xor-lt 8 (bit_xor a b) c (bit_xor-lt 8 a b ha hb) hc

hi_lt : (mac : Mac) → IsMac mac → bit_xor (bit_xor mac.m0 mac.m2) mac.m4 < 256
hi_lt mac h = xor_byte mac.m0 mac.m2 mac.m4 h.m0 h.m2 h.m4

lo_lt : (mac : Mac) → IsMac mac → bit_xor (bit_xor mac.m1 mac.m3) mac.m5 < 256
lo_lt mac h = xor_byte mac.m1 mac.m3 mac.m5 h.m1 h.m3 h.m5

-- The identifier of a MAC address fits a `u16`.
pub node_id_from_mac-lt : (mac : Mac) → IsMac mac → node_id_from_mac mac < 2 ^ 16
unfolding node_id_from_mac
node_id_from_mac-lt mac h = omega (arith, hi_lt mac h, lo_lt mac h)

-- Two addresses that share their first four octets have the same identifier only if they are the
-- same address.
pub node_id_from_mac_inj :
    (p q : Mac)
    → IsMac p
    → IsMac q
    → p.m0 ≡ q.m0
    → p.m1 ≡ q.m1
    → p.m2 ≡ q.m2
    → p.m3 ≡ q.m3
    → node_id_from_mac p ≡ node_id_from_mac q
    → p ≡ q
unfolding node_id_from_mac
node_id_from_mac_inj p q hp hq e0 e1 e2 e3 e = ground (
  arith,
  bit_xor_cancel (bit_xor p.m0 p.m2) p.m4 q.m4,
  bit_xor_cancel (bit_xor p.m1 p.m3) p.m5 q.m5,
  hi_lt p hp,
  lo_lt p hp,
  hi_lt q hq,
  lo_lt q hq,
)

-- Exchanging the first and the third octet of an address does not change its identifier.
pub node_id_from_mac_swap :
    (mac : Mac) → node_id_from_mac (record mac { m0 = mac.m2; m2 = mac.m0 }) ≡ node_id_from_mac mac
unfolding node_id_from_mac
node_id_from_mac_swap mac = ground (arith, bit_xor_comm mac.m0 mac.m2)
