-- ===== src/Hivebus/Identity/Laws.antt =====
-- The identifier of a node of crates/hivebus/src/main.rs is that of its hardware address.
use hivebus.Prelude.{
  ℕ, ◌/◌, ◌%◌, ◌<◌, ◌≡◌, ◌≢◌, refl, ap, ◌∙◌, some, List, [], ◌∷◌, ◌++◌, map, arith, All, All-append,
  append_assoc,
}
use hivebus.Result.{Result, ok}
use hivebus.Std.Text.{Str, str, join, split}
use hivebus.Std.Text.Hex.{hex_byte, hex_digit, u8_from_hex-hex_byte}
use hivebus.Std.Text.Trim.{trim, IsVisible, trim_line}
use hivebus.Std.Path.Laws.{Lacks, split_from-append, split_from_whole}
use hivebus.Proto.Mac.{Mac, IsMac, octets, node_id_from_mac}
use hivebus.Pxeboot.Boot.{fmt_mac}
use hivebus.Hivebus.Identity.{address_path, parse_octets, node_id_of_octets, derive_node_id}

-- Pieces without the separator are found again in the text that joins them.
split-join :
    (separator : ℕ) (p : Str) (ps : List Str)
    → All (Lacks separator) (p ∷ ps)
    → split separator (join (separator ∷ []) (p ∷ ps)) ≡ p ∷ ps
unfolding split join
split-join separator p [] h = split_from_whole separator [] p h.0
split-join separator p (q ∷ ps) h = rw append_assoc (
    split_from-append separator [] p (join (separator ∷ []) (q ∷ ps)) h.0
    ∙ ap (◌∷◌ p) (split-join separator q ps h.1))

parse_octets-hex_byte :
    (bytes : List ℕ) → All (λ b. b < 256) bytes → parse_octets (map hex_byte bytes) ≡ some bytes
unfolding parse_octets
parse_octets-hex_byte [] h = refl
parse_octets-hex_byte (b ∷ bytes) h =
    rw (u8_from_hex-hex_byte b h.0, parse_octets-hex_byte bytes h.1)

-- A byte of the text: it can be seen, and is a colon only between the octets.
hex_digit-bounds : (n : ℕ) → n < 16 → (32 < hex_digit n) × (hex_digit n < 127)
hex_digit-bounds n h = ground arith

hex_digit-ne_colon : (n : ℕ) → n < 16 → hex_digit n ≢ b':'
hex_digit-ne_colon n h = ground arith

hex_byte-IsVisible : (b : ℕ) → b < 256 → IsVisible (hex_byte b)
unfolding hex_byte
hex_byte-IsVisible b h =
    (hex_digit-bounds (b / 16) (omega arith), (hex_digit-bounds (b % 16) (omega arith), tt))

hex_byte-Lacks_colon : (b : ℕ) → b < 256 → Lacks b':' (hex_byte b)
unfolding hex_byte
hex_byte-Lacks_colon b h =
    (hex_digit-ne_colon (b / 16) (omega arith), (hex_digit-ne_colon (b % 16) (omega arith), tt))

hex_bytes-Lacks_colon :
    (bytes : List ℕ) → All (λ b. b < 256) bytes → All (Lacks b':') (map hex_byte bytes)
hex_bytes-Lacks_colon [] h = tt
hex_bytes-Lacks_colon (b ∷ bytes) h = (hex_byte-Lacks_colon b h.0, hex_bytes-Lacks_colon bytes h.1)

pub join-IsVisible :
    (bytes : List ℕ) → All (λ b. b < 256) bytes → IsVisible (join (str ":") (map hex_byte bytes))
unfolding join
join-IsVisible [] h = tt
join-IsVisible (b ∷ []) h = hex_byte-IsVisible b h.0
join-IsVisible (b ∷ c ∷ bytes) h =
    All-append _ (hex_byte b ++ str ":") (join (str ":") (map hex_byte (c ∷ bytes)))
      (All-append _ (hex_byte b) (str ":") (hex_byte-IsVisible b h.0) (omega arith))
      (join-IsVisible (c ∷ bytes) h.1)

pub octets-bytes : (mac : Mac) → IsMac mac → All (λ b. b < 256) (octets mac)
octets-bytes mac h = omega arith

trim-fmt_mac : (mac : Mac) → IsMac mac → trim (fmt_mac mac ++ 10 ∷ []) ≡ fmt_mac mac
unfolding fmt_mac join hex_byte
trim-fmt_mac mac h = trim_line _ _ (join-IsVisible (octets mac) (octets-bytes mac h))

-- The node whose network interface has a hardware address, in the form in which the system shows it
-- and followed by the end of the line, has the identifier of that address.
pub derive_node_id-fmt_mac :
    (read_to_string : Str → Result Str) (iface : Str) (mac : Mac)
    → IsMac mac
    → read_to_string (address_path iface) ≡ ok (fmt_mac mac ++ 10 ∷ [])
    → derive_node_id read_to_string iface ≡ ok (node_id_from_mac mac)
unfolding derive_node_id
derive_node_id-fmt_mac read_to_string iface mac h shown =
    rw
      (
        derive_node_id,
        shown,
        trim-fmt_mac mac h,
        pieces,
        parse_octets-hex_byte (octets mac) (octets-bytes mac h),
      )
      (unfold node_id_of_octets in refl)
  where
    pieces : split b':' (fmt_mac mac) ≡ map hex_byte (octets mac)
    pieces =
        unfold fmt_mac in
        split-join b':' (hex_byte mac.m0) _
          (hex_bytes-Lacks_colon (octets mac) (octets-bytes mac h))
