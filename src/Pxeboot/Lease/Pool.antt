-- ===== src/Pxeboot/Lease/Pool.antt =====
-- Which address `allocate_ip` of crates/pxeboot/src/main.rs gives out.
use hivebus.Prelude.{
  ℕ, zero, suc, ◌+◌, ◌-◌, ◌≤◌, ◌<◌, ◌≡◌, ◌⊎◌, inl, inr, Option, none, some, true, false, List, [],
  ◌∷◌, arith, Bool-cases, ◌==◌, nat_eq, beq_refl,
}
use hivebus.Std.HashMap
use hivebus.Std.Net.{Ipv4Addr, IsIpv4, to_u32, from_u32, to_u32-from_u32, to_u32-lt}
use hivebus.Proto.Mac.{Mac}
use hivebus.Pxeboot.Boot.{BootTable, mac_eq}
use hivebus.Pxeboot.Lease.{
  Lease, Leases, contains, first_free, in_use, find_in_pool, static_of, allocate_ip, from_u32?,
}

-- What the search over `count` numbers from `ip` on comes to.
pub data Search (used : List ℕ) (count ip : ℕ) : Option ℕ → Type 0 where
  found :
      (n : ℕ)
      → ip ≤ n
      → n < ip + count
      → contains used n ≡ false
      → ((k : ℕ) → ip ≤ k → k < n → contains used k ≡ true)
      → Search used count ip (some n)
  exhausted :
      ((k : ℕ) → ip ≤ k → k < ip + count → contains used k ≡ true) → Search used count ip none

at_or_after : (ip k : ℕ) → ip ≤ k → (k ≡ ip) ⊎ (suc ip ≤ k)
at_or_after ip k h = omega arith

later :
    {used : List ℕ} {count ip : ℕ} {o : Option ℕ}
    → contains used ip ≡ true
    → Search used count (suc ip) o
    → Search used (suc count) ip o
later {used} {count} {ip} taken (found n lo hi free below) =
    found n (omega arith) (omega arith) free
      (λ k lo' hi'. elim (at_or_after ip k lo') [ inl e ↦ rw e taken | inr lt ↦ below k lt hi' ])
later {used} {count} {ip} taken (exhausted all) = exhausted (λ k lo' hi'.
    elim (at_or_after ip k lo') [ inl e ↦ rw e taken | inr lt ↦ all k lt (omega arith) ])

pub first_free-Search :
    (used : List ℕ) (count ip : ℕ) → Search used count ip (first_free used count ip)
unfolding first_free
first_free-Search used zero ip = exhausted (λ k lo hi. absurd (omega arith))
first_free-Search used (suc count) ip = elim (Bool-cases (contains used ip)) [
  | inl p ↦ rw (p, first_free) (later p (first_free-Search used count (suc ip)))
  | inr p ↦
      rw (p, first_free) (found ip (omega arith) (omega arith) p (λ k lo hi. absurd (omega arith)))
]

-- What `allocate_ip` gives to a MAC without a static address and without a lease.
pub data Allocation (pool_start pool_end : ℕ) (leases : Leases) : Option Ipv4Addr → Type 0 where
  lowest_free :
      (ip : Ipv4Addr)
      → pool_start ≤ to_u32 ip
      → to_u32 ip ≤ pool_end
      → contains (in_use leases) (to_u32 ip) ≡ false
      → ((k : ℕ) → pool_start ≤ k → k < to_u32 ip → contains (in_use leases) k ≡ true)
      → Allocation pool_start pool_end leases (some ip)
  none_free :
      ((k : ℕ) → pool_start ≤ k → k ≤ pool_end → contains (in_use leases) k ≡ true)
      → Allocation pool_start pool_end leases none

find_in_pool-Allocation :
    (pool_start pool_end : Ipv4Addr) (leases : Leases)
    → IsIpv4 pool_end
    → Allocation
        (to_u32 pool_start)
        (to_u32 pool_end)
        leases
        (find_in_pool pool_start pool_end leases)
unfolding find_in_pool
find_in_pool-Allocation pool_start pool_end leases valid = go _ (
    first_free-Search (in_use leases) (to_u32 pool_end + 1 - to_u32 pool_start) (to_u32 pool_start))
  where
    go :
        (o : Option ℕ)
        → Search (in_use leases) (to_u32 pool_end + 1 - to_u32 pool_start) (to_u32 pool_start) o
        → Allocation (to_u32 pool_start) (to_u32 pool_end) leases (from_u32? o)
    go (some _) (found n lo hi free below) =
        let e : to_u32 (from_u32 n) ≡ n =
          to_u32-from_u32 n (omega (arith, to_u32-lt pool_end valid)) in
        lowest_free (from_u32 n) (rw e lo) (rw e (omega arith)) (rw e free) (rw e below)
    go none (exhausted all) = none_free (λ k lo hi. all k lo (omega arith))

-- A MAC without a static address and without a lease is given the lowest address of the pool that
-- no lease holds, and nothing exactly if every address of the pool is held. The leases stay as they
-- are.
pub allocate_ip-Allocation :
    (mac : Mac) (boot_table : BootTable) (pool_start pool_end : Ipv4Addr) (lease_secs now : ℕ)
    (leases : Leases)
    → IsIpv4 pool_end
    → static_of (HashMap.get boot_table mac) ≡ none
    → HashMap.get leases mac ≡ none
    → (o : Option Ipv4Addr) × (allocate_ip mac boot_table pool_start pool_end lease_secs now leases
        ≡ (o, leases))
      × Allocation (to_u32 pool_start) (to_u32 pool_end) leases o
unfolding allocate_ip
allocate_ip-Allocation mac boot_table pool_start pool_end lease_secs now leases valid plain fresh =
    (
      find_in_pool pool_start pool_end leases,
      rw (allocate_ip, plain, fresh),
      find_in_pool-Allocation pool_start pool_end leases valid,
    )

-- The address of a lease is in use.
pub contains-in_use :
    (leases : Leases) (mac : Mac) (lease : Lease)
    → HashMap.get leases mac ≡ some lease
    → contains (in_use leases) (to_u32 lease.ip) ≡ true
unfolding contains HashMap.get
contains-in_use [] mac lease h = absurd (ground arith)
contains-in_use ((m, l) ∷ leases) mac lease h = elim (Bool-cases (m == mac)) [
  | inl p ↦
      let same : l ≡ lease = ground arith in rw same (ground (arith, beq_refl (to_u32 lease.ip)))
  | inr p ↦ ground (arith, contains-in_use leases mac lease)
]
