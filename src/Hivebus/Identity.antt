-- ===== src/Hivebus/Identity.antt =====
-- `derive_node_id` of crates/hivebus/src/main.rs: the identifier of a node from the text that the
-- system gives for a network interface.
pub mod Laws
use hivebus.Prelude.{ℕ, Option, none, some, List, [], ◌∷◌, ◌++◌, ◌>>=◌}
use hivebus.Result.{Result, ok, err}
use hivebus.Std.Text.{Str, str, split}
use hivebus.Std.Text.Hex.{u8_from_hex}
use hivebus.Std.Text.Trim.{trim}
use hivebus.Proto.Mac.{Mac, node_id_from_mac}

abbrev pub address_path : Str → Str
address_path iface = str "/sys/class/net/" ++ iface ++ str "/address"

-- `split(':').map(|s| u8::from_str_radix(s, 16)).collect()`
unfoldable pub parse_octets : List Str → Option (List ℕ)
unfolding u8_from_hex
parse_octets [] = some []
parse_octets (s ∷ pieces) = do
  octet ← u8_from_hex s
  octets ← parse_octets pieces
  some (octet ∷ octets)

unfoldable pub node_id_of_octets : Str → Option (List ℕ) → Result ℕ
unfolding node_id_from_mac
node_id_of_octets mac_str none = err (str "parsing MAC " ++ mac_str)
node_id_of_octets mac_str (some (a ∷ b ∷ c ∷ d ∷ e ∷ f ∷ [])) =
    ok (node_id_from_mac (record { m0 = a; m1 = b; m2 = c; m3 = d; m4 = e; m5 = f }))
node_id_of_octets mac_str (some _) = err (str "unexpected MAC length: " ++ mac_str)

-- `read_to_string` is the file system.
unfoldable pub derive_node_id : (Str → Result Str) → Str → Result ℕ
unfolding node_id_of_octets parse_octets split trim
derive_node_id read_to_string iface = elim (read_to_string (address_path iface)) [
  | err e ↦ err (str "reading MAC from " ++ address_path iface)
  | ok text ↦
      let mac_str = trim text in node_id_of_octets mac_str (parse_octets (split b':' mac_str))
]
