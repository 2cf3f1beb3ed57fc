-- ===== src/Pxeboot/Lease/Unique.antt =====
-- No address of crates/pxeboot/src/main.rs is leased twice, as long as no static address is set.
use hivebus.Prelude.{
  ◌≡◌, inl, inr, refl, ap, sym, ◌∙◌, some, true, false, arith, Bool-cases, ◌==◌, nat_eq,
}
use hivebus.Std.HashMap
use hivebus.Std.HashMap.{get-insert}
use hivebus.Std.Net.{to_u32}
use hivebus.Proto.Mac.{Mac}
use hivebus.Pxeboot.Boot.{mac_eq}
use hivebus.Pxeboot.Lease.{Lease, Leases, contains, in_use}
use hivebus.Pxeboot.Lease.Pool.{contains-in_use}

-- Two hardware addresses never hold the same network address.
pub record IsUnique (leases : Leases) : Type 0 where
  pub unique :
      (p q : Mac) (a b : Lease)
      → HashMap.get leases p ≡ some a
      → HashMap.get leases q ≡ some b
      → a.ip ≡ b.ip
      → p ≡ q

-- Renewing a lease keeps its address.
pub renew-IsUnique :
    (leases : Leases) (mac : Mac) (old new : Lease)
    → HashMap.get leases mac ≡ some old
    → new.ip ≡ old.ip
    → IsUnique leases
    → IsUnique (HashMap.insert leases mac new)
renew-IsUnique leases mac old new known same u = record {
  unique = λ p q a b fa fb e.
      let (a0, fa0, ea) = before p a fa in
      let (b0, fb0, eb) = before q b fb in u.unique p q a0 b0 fa0 fb0 (sym ea ∙ (e ∙ eb));
}
  where
    before :
        (p : Mac) (a : Lease)
        → HashMap.get (HashMap.insert leases mac new) p ≡ some a
        → (a0 : Lease) × (HashMap.get leases p ≡ some a0) × (a.ip ≡ a0.ip)
    before p a fa = elim (Bool-cases (mac == p)) [
      | inl e ↦
          let at : mac ≡ p = (mac_eq.decides mac p).0 e in
          (old, rw (← at) known, ground (arith, get-insert leases mac p new))
      | inr e ↦ (a, ground (arith, get-insert leases mac p new), refl)
    ]

-- A new lease of an address that is not in use.
pub grant-IsUnique :
    (leases : Leases) (mac : Mac) (new : Lease)
    → contains (in_use leases) (to_u32 new.ip) ≡ false
    → IsUnique leases
    → IsUnique (HashMap.insert leases mac new)
grant-IsUnique leases mac new free u = record {
  unique = λ p q a b fa fb e. elim (Bool-cases (mac == p)) [
    | inl ep ↦ elim (Bool-cases (mac == q)) [
      | inl eq ↦ sym ((mac_eq.decides mac p).0 ep) ∙ (mac_eq.decides mac q).0 eq
      | inr eq ↦ absurd (clash q a b (new_at p a ep fa) (old_at q b eq fb) e)
    ]
    | inr ep ↦ elim (Bool-cases (mac == q)) [
      | inl eq ↦ absurd (clash p b a (new_at q b eq fb) (old_at p a ep fa) (sym e))
      | inr eq ↦ u.unique p q a b (old_at p a ep fa) (old_at q b eq fb) e
    ]
  ];
}
  where
    new_at :
        (p : Mac) (a : Lease)
        → (mac == p) ≡ true
        → HashMap.get (HashMap.insert leases mac new) p ≡ some a
        → a ≡ new
    new_at p a e fa = ground (arith, get-insert leases mac p new)

    old_at :
        (p : Mac) (a : Lease)
        → (mac == p) ≡ false
        → HashMap.get (HashMap.insert leases mac new) p ≡ some a
        → HashMap.get leases p ≡ some a
    old_at p a e fa = ground (arith, get-insert leases mac p new)

    clash : (q : Mac) (a b : Lease) → a ≡ new → HashMap.get leases q ≡ some b → a.ip ≡ b.ip → ⊥
    clash q a b is_new fb e = ground (
      arith,
      contains-in_use leases q b fb,
      ap (λ (l : Lease). to_u32 l.ip) is_new,
      ap to_u32 e,
      free,
    )
