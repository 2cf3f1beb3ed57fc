-- ===== src/Std/Net/Display.antt =====
-- `{}` of the addresses of `std::net`.
use hivebus.Prelude.{
  ℕ, ◌+◌, ◌*◌, ◌/◌, ◌%◌, List, [], ◌∷◌, ◌++◌, map, ltb, ◌==◌, nat_eq, bytes_eq, bytes_beq, ◌≡◌,
  refl, if◌then◌else◌, take, drop,
}
use hivebus.Std.Net.{Ipv4Addr, SocketAddr, v4, v6}
use hivebus.Std.Text.{Str, str, join, decimal}
use hivebus.Std.Text.Hex.{hex_digit}

unfoldable pub show_ipv4 : Ipv4Addr → Str
unfolding decimal join
show_ipv4 ip = join (str ".") (decimal ip.a ∷ decimal ip.b ∷ decimal ip.c ∷ decimal ip.d ∷ [])

segments : List ℕ → List ℕ
segments (hi ∷ lo ∷ rest) = (hi * 256 + lo) ∷ segments rest
segments _ = []

-- `{:x}` of a `u16`
show_segment : ℕ → Str
show_segment n =
    if ltb n 0x10
    then hex_digit n ∷ []
    else if ltb n 0x100
    then hex_digit (n / 0x10) ∷ hex_digit (n % 0x10) ∷ []
    else if ltb n 0x1000
    then hex_digit (n / 0x100) ∷ hex_digit (n / 0x10 % 0x10) ∷ hex_digit (n % 0x10) ∷ []
    else hex_digit (n / 0x1000 % 0x10)
      ∷ hex_digit (n / 0x100 % 0x10)
      ∷ hex_digit (n / 0x10 % 0x10)
      ∷ hex_digit (n % 0x10)
      ∷ []

-- A run of zero segments: where it starts and how long it is.
pub record Run : Type 0 where
  pub start : ℕ
  pub len : ℕ

abbrev no_run : Run
no_run = record { start = 0; len = 0 }

-- The first one of the longest runs.
longest_run : ℕ → List ℕ → Run → Run → Run
longest_run i [] current longest = longest
longest_run i (s ∷ rest) current longest =
    let start = if current.len == 0 then i else current.start in
    let grown : Run = record { start = start; len = current.len + 1 } in
    let here = if s == 0 then grown else no_run in
    longest_run (i + 1) rest here (if ltb longest.len here.len then here else longest)

show_segments : List ℕ → Str
unfolding show_segment join
show_segments s = join (str ":") (map show_segment s)

show_compressed : List ℕ → Str
unfolding longest_run show_segments
show_compressed s =
    let zeroes = longest_run 0 s no_run no_run in
    if ltb 1 zeroes.len
    then show_segments (take zeroes.start s)
      ++ (str "::" ++ show_segments (drop (zeroes.start + zeroes.len) s))
    else show_segments s

mapped_prefix : List ℕ
mapped_prefix = 0 ∷ 0 ∷ 0 ∷ 0 ∷ 0 ∷ 0 ∷ 0 ∷ 0 ∷ 0 ∷ 0 ∷ 255 ∷ 255 ∷ []

show_mapped : List ℕ → Str
unfolding show_ipv4
show_mapped (a ∷ b ∷ c ∷ d ∷ _) = str "::ffff:" ++ show_ipv4 (record { a = a; b = b; c = c; d = d })
show_mapped _ = []

-- The sixteen octets of the address.
unfoldable pub show_ipv6 : List ℕ → Str
unfolding bytes_beq mapped_prefix show_mapped show_compressed segments
show_ipv6 ip =
    if take 12 ip == mapped_prefix then show_mapped (drop 12 ip) else show_compressed (segments ip)

unfoldable pub show_addr : SocketAddr → Str
unfolding show_ipv4 show_ipv6 decimal
show_addr (v4 ip port) = show_ipv4 ip ++ (str ":" ++ decimal port)
show_addr (v6 ip port flowinfo scope_id) =
    let scope = if scope_id == 0 then [] else str "%" ++ decimal scope_id in
    str "[" ++ (show_ipv6 ip ++ (scope ++ (str "]:" ++ decimal port)))

loopback :
    show_addr (v6 (0 ∷ 0 ∷ 0 ∷ 0 ∷ 0 ∷ 0 ∷ 0 ∷ 0 ∷ 0 ∷ 0 ∷ 0 ∷ 0 ∷ 0 ∷ 0 ∷ 0 ∷ 1 ∷ []) 80 0 0)
    ≡ str "[::1]:80"
unfolding show_addr
loopback = refl

documentation :
    show_addr
      (v6 (32 ∷ 1 ∷ 13 ∷ 184 ∷ 0 ∷ 0 ∷ 0 ∷ 1 ∷ 0 ∷ 0 ∷ 0 ∷ 0 ∷ 0 ∷ 0 ∷ 0 ∷ 0xa5 ∷ []) 7778 0 3)
    ≡ str "[2001:db8:0:1::a5%3]:7778"
unfolding show_addr
documentation = refl
