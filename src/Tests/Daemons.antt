-- ===== src/Tests/Daemons.antt =====
-- Concrete inputs for the theorems about crates/netgate/src/main.rs, crates/netop/src/main.rs,
-- crates/imager/src/main.rs and crates/orchestrator/src/main.rs.
use hivebus.Prelude.{
  ℕ, ◌+◌, ◌≡◌, append_assoc, append-nil, refl, List, [], ◌∷◌, ◌++◌, arith, length, take,
  take-append, bytes_eq,
}
use hivebus.Result.{Result, ok, err}
use hivebus.Bincode.{Codec, ReadsBack}
use hivebus.Std.Text.{Str, str}
use hivebus.Proto.Message
use hivebus.Proto.Message.{ControlOp, custom}
use hivebus.Netgate.{IpAddr, ipv4, ipv6, DnsRecord, GateState, GateCodecs, answer_gate}
use hivebus.Netgate.Laws.{IsConsistent, answer_gate-IsConsistent}
use hivebus.Netop.{DesiredState}
use hivebus.Imager.{Hasher, blake3_hash_file}
use hivebus.Imager.Laws.{reads_of, bytes_of, blake3_hash_file-reads_of}
use hivebus.Orchestrator.{WorkloadSpec, Kvm, lxc}
use hivebus.Tests.Data.{no_codec}

-- Only IPv4 records are written.
abbrev write_record : Str → ℕ → IpAddr → Result (List ℕ)
write_record name ttl (ipv4 ip) = ok (ttl ∷ ip.a ∷ ip.b ∷ ip.c ∷ ip.d ∷ length name ∷ name)
write_record name ttl (ipv6 octets) = err (str "no")

abbrev read_record : List ℕ → Result (DnsRecord × ℕ)
read_record (ttl ∷ a ∷ b ∷ c ∷ d ∷ n ∷ rest) = ok (
  record { name = take n rest; ttl = ttl; addr = ipv4 (record { a = a; b = b; c = c; d = d }) },
  6 + n,
)
read_record _ = err (str "end")

abbrev record_codec : Codec DnsRecord
record_codec = record { encode = λ r. write_record r.name r.ttl r.addr; decode = read_record }

read-write :
    (name : Str) (ttl : ℕ) (addr : IpAddr) (bytes rest : List ℕ)
    → write_record name ttl addr ≡ ok bytes
    → read_record (bytes ++ rest)
      ≡ ok (record { name = name; ttl = ttl; addr = addr }, length bytes)
read-write name ttl (ipv4 ip) bytes rest h =
    ground (arith, take-append (length name) name rest refl)
read-write name ttl (ipv6 octets) bytes rest h = absurd (ground arith)

record_codec-ReadsBack : ReadsBack record_codec
record_codec-ReadsBack r bytes rest written = read-write r.name r.ttl r.addr bytes rest written

abbrev gate_codecs : GateCodecs
gate_codecs = record { dns_record = record_codec; proxy_rule = no_codec }

abbrev empty : GateState
empty = record { dns_table = []; proxy_rules = []; running = [] }

abbrev web : DnsRecord
web = record { name = str "web"; ttl = 60; addr = ipv4 (record { a = 10; b = 0; c = 0; d = 9 }) }

abbrev inner : List ℕ
inner = 60 ∷ 10 ∷ 0 ∷ 0 ∷ 9 ∷ 3 ∷ str "web"

answer_gate-IsConsistent_example :
    IsConsistent (answer_gate gate_codecs (ok (custom (str "dns.upsert") inner)) empty).1
answer_gate-IsConsistent_example =
    answer_gate-IsConsistent gate_codecs (ok (custom (str "dns.upsert") inner)) empty
      (record { named = tt; served = refl })

-- Every payload reads as the state in which nothing is desired.
abbrev nothing : DesiredState
nothing = record { interfaces = []; nft_rules = [] }

abbrev state_codec : Codec DesiredState
state_codec = record { encode = λ s. ok []; decode = λ bytes. ok (nothing, 0) }

abbrev wanted : DesiredState
wanted = record { interfaces = []; nft_rules = record { json = str "{}" } ∷ [] }

abbrev request : Result ControlOp
request = ok (custom (str "state.set") [])

-- A hash that keeps all its bytes.
abbrev whole : Hasher (List ℕ)
whole = record { new = []; update = λ h bytes. h ++ bytes; finalize = λ h. h }

blake3_hash_file-reads_of_example :
    blake3_hash_file whole (ok (reads_of ((1, 2 ∷ []) ∷ (3, []) ∷ [])))
    ≡ ok (bytes_of ((1, 2 ∷ []) ∷ (3, []) ∷ []))
unfolding bytes_of
blake3_hash_file-reads_of_example =
    blake3_hash_file-reads_of whole (λ h a b. append_assoc h a b) (λ h. append-nil h)
      ((1, 2 ∷ []) ∷ (3, []) ∷ [])

abbrev spec : WorkloadSpec
spec = record { id = []; kind = lxc; image = []; cpus = 1; memory_mb = 64; extra = [] }

abbrev spec_codec : Codec WorkloadSpec
spec_codec = record { encode = λ s. ok []; decode = λ bytes. ok (spec, 0) }

abbrev device : Kvm
device = record { new = ok tt; vm_created = err (str "no memory") }
