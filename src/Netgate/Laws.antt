-- ===== src/Netgate/Laws.antt =====
-- The tables of crates/netgate/src/main.rs under its requests.
use hivebus.Prelude.{
  ℕ, ◌≡◌, inl, inr, refl, ap, none, some, true, List, [], ◌∷◌, ◌++◌, arith, ◌==◌, bytes_eq,
  bytes_beq, if_branches, if◌then◌else◌, Option-cases,
}
use hivebus.Result.{Result, ok, err, Result-cases}
use hivebus.Bincode.{ReadsBack, decode-encode}
use hivebus.Std.HashMap
use hivebus.Std.HashMap.{get-insert, get-remove}
use hivebus.Std.Text.{Str, str}
use hivebus.Std.Text.Utf8.{from_utf8, is_utf8}
use hivebus.Proto.Message.{ControlOp, ping, get_nodes, get_master, step_down, shutdown, custom}
use hivebus.Proto.Message
use hivebus.Socket.{Answer, reply}
use hivebus.Netgate.{
  DnsRecord, GateState, GateCodecs, dns_upsert, dns_delete, proxy_add, answer_gate,
}

-- Every record stands under its own name, and every rule has its task.
pub record IsConsistent (s : GateState) : Type 0 where
  pub named : HashMap.AllEntries (λ k rec. rec.name ≡ k) s.dns_table
  pub served : s.running ≡ s.proxy_rules

module _ (codecs : GateCodecs) where
  upsert-IsConsistent :
      (inner : List ℕ) (s : GateState) → IsConsistent s → IsConsistent (dns_upsert codecs inner s).1
  unfolding dns_upsert
  upsert-IsConsistent inner s c = elim (Result-cases (codecs.dns_record.decode inner)) [
    | inl (e, d) ↦ rw (dns_upsert, d) c
    | inr ((rec, used), d) ↦
        rw (dns_upsert, d)
          (record {
            named = HashMap.AllEntries-insert _ s.dns_table rec.name rec refl c.named;
            served = c.served;
          })
  ]

  delete-IsConsistent :
      (inner : List ℕ) (s : GateState) → IsConsistent s → IsConsistent (dns_delete codecs inner s).1
  unfolding dns_delete
  delete-IsConsistent inner s c = elim (Option-cases (from_utf8 inner)) [
    | inl d ↦ rw (dns_delete, d) c
    | inr (name, d) ↦
        rw (dns_delete, d)
          (record {
            named = HashMap.AllEntries-remove _ s.dns_table name c.named;
            served = c.served;
          })
  ]

  add-IsConsistent :
      (inner : List ℕ) (s : GateState) → IsConsistent s → IsConsistent (proxy_add codecs inner s).1
  unfolding proxy_add
  add-IsConsistent inner s c = elim (Result-cases (codecs.proxy_rule.decode inner)) [
    | inl (e, d) ↦ rw (proxy_add, d) c
    | inr ((rule, used), d) ↦
        rw (proxy_add, d) (record { named = c.named; served = ap (λ l. l ++ rule ∷ []) c.served })
  ]

  -- Whatever is requested, every record of the table stands under its own name, and the rules that
  -- are listed are exactly those for which a task was started.
  pub answer_gate-IsConsistent :
      (op : Result ControlOp) (s : GateState)
      → IsConsistent s
      → IsConsistent (answer_gate codecs op s).1
  unfolding answer_gate
  answer_gate-IsConsistent (ok (custom tag inner)) s c =
      if_branches (λ (r : Answer × GateState). IsConsistent r.1) (tag == str "dns.upsert")
        (λ p. upsert-IsConsistent inner s c)
        (λ p.
          if_branches (λ (r : Answer × GateState). IsConsistent r.1) (tag == str "dns.delete")
            (λ q. delete-IsConsistent inner s c)
            (λ q.
              if_branches (λ (r : Answer × GateState). IsConsistent r.1) (tag == str "proxy.add")
                (λ r. add-IsConsistent inner s c) (λ r. c)))
  answer_gate-IsConsistent (ok ping) s c = c
  answer_gate-IsConsistent (ok _) s c = c
  answer_gate-IsConsistent (err e) s c = c

  -- A record that is set is found under its name. When the name is deleted again, all names but
  -- this one are found as they were before, and this one is not found. Both requests are answered
  -- with `Ok`. The codec reads back what it wrote, and the name is UTF-8.
  pub dns_upsert-dns_delete :
      (rec : DnsRecord) (inner : List ℕ) (s : GateState)
      → ReadsBack codecs.dns_record
      → codecs.dns_record.encode rec ≡ ok inner
      → is_utf8 rec.name ≡ true
      → (s1 : GateState) × (answer_gate codecs (ok (custom (str "dns.upsert") inner)) s
          ≡ (reply Message.ok, s1))
        × (HashMap.get s1.dns_table rec.name ≡ some rec)
        × (s2 : GateState) × (answer_gate codecs (ok (custom (str "dns.delete") rec.name)) s1
            ≡ (reply Message.ok, s2))
        × ((k : Str)
            → HashMap.get s2.dns_table k
              ≡ (if rec.name == k then none else HashMap.get s.dns_table k))
  unfolding answer_gate bytes_beq dns_upsert dns_delete from_utf8
  dns_upsert-dns_delete rec inner s reads written text =
      let table = HashMap.insert s.dns_table rec.name rec in
      (
        record s { dns_table = table },
        rw (dns_upsert, decode-encode codecs.dns_record rec inner reads written),
        HashMap.get-insert_self s.dns_table rec.name rec,
        record s { dns_table = HashMap.remove table rec.name },
        rw (dns_delete, from_utf8, text),
        (λ k. ground (arith, get-remove table rec.name k, get-insert s.dns_table rec.name k rec)),
      )
