-- ===== src/Pxeboot/Dhcp/Run.antt =====
-- The runs of the DHCP server and the control plane of crates/pxeboot/src/main.rs: a client keeps
-- its address.
use hivebus.Prelude.{
  ℕ, ◌+◌, ◌≤◌, ◌≡◌, ◌⊎◌, refl, sym, ap, ◌∙◌, inl, inr, none, some, true, false, ◌||◌, not, List, [],
  ◌==◌, nat_eq, bytes_eq, bytes_beq, arith, ltb, length, take, drop, Option-cases, Bool-cases,
}
use hivebus.Std.HashMap
use hivebus.Std.Net.{Ipv4Addr, Datagram}
use hivebus.Std.Time.{from_secs}
use hivebus.Proto.Mac.{Mac}
use hivebus.Pxeboot.Boot.{Config, BootEntry, FileWrite, mac_eq}
use hivebus.Pxeboot.Lease.{Lease, static_of}
use hivebus.Pxeboot.Dhcp.{dhcp_magic, scan_options, dhcp_discover, dhcp_request}
use hivebus.Pxeboot.Dhcp.Handle.{
  Tables, panicked, served, Request, request_of, mac_of, answer_dhcp, on_dhcp,
}
use hivebus.Pxeboot.Dhcp.Effect.{with_entry, Effect, exhausted, given, answer_dhcp-Effect}

abbrev pub received : List ℕ → List ℕ
received datagram = take 576 datagram

-- The datagram is a request with this message type from this hardware address.
pub record Asks (datagram : List ℕ) (msg_type : ℕ) (mac : Mac) : Type 0 where
  pub long : 240 ≤ length (received datagram)
  pub magic : take 4 (drop 236 (received datagram)) ≡ dhcp_magic
  pub typed : scan_options 0 0 (drop 240 (received datagram)) ≡ some msg_type
  pub sender : mac_of (request_of (received datagram)).chaddr ≡ mac

-- The client has no static address.
abbrev pub NoStatic : Tables → Mac → Type 0
NoStatic tables mac = static_of (HashMap.get tables.boot_table mac) ≡ none

-- The client holds this address.
abbrev pub Holds : Tables → Mac → Ipv4Addr → Type 0
Holds tables mac ip = (l : Lease) × (HashMap.get tables.leases mac ≡ some l) × (l.ip ≡ ip)

-- The tables that a run of the server and of the control plane leads to.
pub data Run (cfg : Config) (start : Tables) : Tables → Type 0 where
  here : Run cfg start start
  datagram :
      {t t' : Tables} (now : ℕ) (d : List ℕ) (files : List FileWrite) (replies : List Datagram)
      → Run cfg start t
      → on_dhcp cfg now d t ≡ served t' files replies
      → Run cfg start t'
  registered :
      {t : Tables} (m : Mac) (entry : BootEntry)
      → Run cfg start t
      → Run cfg start (record t { boot_table = HashMap.insert t.boot_table m entry })

-- The client gets no static address in a run.
abbrev pub NeverStatic : {cfg : Config} {start t : Tables} → Run cfg start t → Mac → Type 0
NeverStatic here mac = Unit
NeverStatic (datagram {t'} now d files replies r ends) mac = NeverStatic r mac × NoStatic t' mac
NeverStatic (registered {t} m entry r) mac =
    NeverStatic r mac × NoStatic (record t { boot_table = HashMap.insert t.boot_table m entry }) mac

ltb_of_le : (a b : ℕ) → b ≤ a → ltb a b ≡ false
ltb_of_le a b h = ground arith

module _ (cfg : Config) (now : ℕ) where
  -- What a datagram can come to.
  pub on_dhcp-cases :
      (d : List ℕ) (t : Tables)
      → (on_dhcp cfg now d t ≡ panicked)
        ⊎ (on_dhcp cfg now d t ≡ served t [] [])
        ⊎ ((msg_type : ℕ) × (on_dhcp cfg now d t
              ≡ answer_dhcp cfg now msg_type (request_of (received d)) t))
  unfolding on_dhcp
  on_dhcp-cases d t =
      elim (Bool-cases
        (ltb (length (received d)) 240 || not (take 4 (drop 236 (received d)) == dhcp_magic))) [
          | inl p ↦ inr (inl (rw (p, on_dhcp) refl))
          | inr p ↦ elim (Option-cases (scan_options 0 0 (drop 240 (received d)))) [
            | inl e ↦ inl (rw (p, e, on_dhcp) refl)
            | inr (msg_type, e) ↦
                elim (Bool-cases (msg_type == dhcp_discover || msg_type == dhcp_request)) [
                  | inl q ↦ inr (inr (msg_type, rw (p, e, q, on_dhcp) refl))
                  | inr q ↦ inr (inl (rw (p, e, q, on_dhcp) refl))
                ]
          ]
        ]

  pub on_dhcp-Asks :
      (d : List ℕ) (msg_type : ℕ) (mac : Mac) (t : Tables)
      → Asks d msg_type mac
      → (msg_type == dhcp_discover || msg_type == dhcp_request) ≡ true
      → on_dhcp cfg now d t ≡ answer_dhcp cfg now msg_type (request_of (received d)) t
  unfolding on_dhcp bytes_beq
  on_dhcp-Asks d msg_type mac t asks kind =
      rw (on_dhcp, ltb_of_le (length (received d)) 240 asks.long, asks.magic, asks.typed, kind) refl

  -- A client without a static address keeps the address that it holds through a datagram.
  Effect-Holds :
      (msg_type : ℕ) (req : Request) (mac : Mac) (ip : Ipv4Addr) (t t' : Tables)
      (files : List FileWrite) (replies : List Datagram)
      → Effect cfg now msg_type req
          (with_entry t.boot_table (mac_of req.chaddr))
          t.leases
          (served t' files replies)
      → NoStatic t' mac
      → Holds t mac ip
      → Holds t' mac ip
  Effect-Holds msg_type req mac ip t t' files replies (exhausted _ _ _) plain h = h
  Effect-Holds msg_type req mac ip t t' files replies (given ip' leases' _ after keeps) plain
        (l, known, at) =
      elim (Bool-cases (mac_of req.chaddr == mac)) [
        | inl p ↦
            let same : mac_of req.chaddr ≡ mac = (mac_eq.decides (mac_of req.chaddr) mac).0 p in
            let bt = with_entry t.boot_table (mac_of req.chaddr) in
            let kept : ip' ≡ l.ip =
              keeps l (ap (λ (k : Mac). static_of (HashMap.get bt k)) same ∙ plain)
                (ap (HashMap.get t.leases) same ∙ known) in
            let lease : Lease = record { ip = ip'; expires = now + from_secs cfg.lease_secs } in
            (lease, after mac ∙ (rw p refl), kept ∙ at)
        | inr p ↦ (l, after mac ∙ (rw p known), at)
      ]

on_dhcp-Holds :
    (cfg : Config) (now : ℕ) (d : List ℕ) (mac : Mac) (ip : Ipv4Addr) (t t' : Tables)
    (files : List FileWrite) (replies : List Datagram)
    → on_dhcp cfg now d t ≡ served t' files replies
    → NoStatic t' mac
    → Holds t mac ip
    → Holds t' mac ip
on_dhcp-Holds cfg now d mac ip t t' files replies ends plain h = elim (on_dhcp-cases cfg now d t) [
  | inl p ↦ absurd (ground arith)
  | inr (inl p) ↦ let same : t' ≡ t = ground arith in rw same h
  | inr (inr (msg_type, p)) ↦
      let req = request_of (received d) in
      Effect-Holds cfg now msg_type req mac ip t t' files replies
        (rw (sym p ∙ ends) at (answer_dhcp-Effect cfg now msg_type req t)) plain h
]

-- The address that a client without a static address holds stays its own for the whole run.
pub Run-Holds :
    {cfg : Config} (mac : Mac) {t u : Tables} (ip : Ipv4Addr) (r : Run cfg t u)
    → NeverStatic r mac
    → Holds t mac ip
    → Holds u mac ip
Run-Holds mac ip here plain h = h
Run-Holds {cfg} mac ip (datagram {t} {t'} now d files replies r ends) plain h =
    on_dhcp-Holds cfg now d mac ip t t' files replies ends plain.1 (Run-Holds mac ip r plain.0 h)
Run-Holds mac ip (registered m entry r) plain h = Run-Holds mac ip r plain.0 h
