-- ===== src/Tests/Hivebus/Electing.antt =====
-- A node with codecs that read back what they wrote.
use hivebus.Prelude.{ℕ, zero, suc, ◌+◌, ◌≡◌, refl, ap, List, [], ◌∷◌, ◌++◌, length, arith, nat_eq}
use hivebus.Result.{Result, ok, err, ◌>>=◌}
use hivebus.Bincode.{Codec, ReadsBack}
use hivebus.Std.Text.{str}
use hivebus.Std.Time.{from_millis, from_secs}
use hivebus.Proto.Node.{NodeState, alive, suspect, dead}
use hivebus.Proto.Payload.{AnnouncePayload, GossipPayload, GossipEntry}
use hivebus.Hivebus.History.{Node}
use hivebus.Tests.Data.{no_codec, heartbeat_codec}

abbrev write_state : NodeState → ℕ
write_state alive = 0
write_state suspect = 1
write_state dead = 2

abbrev read_state : ℕ → NodeState
read_state zero = alive
read_state (suc zero) = suspect
read_state (suc (suc n)) = dead

abbrev write_entries : List GossipEntry → List ℕ
write_entries [] = []
write_entries (x ∷ xs) =
    x.node_id ∷ x.incarnation ∷ write_state x.state ∷ x.epoch_ms ∷ write_entries xs

abbrev read_entries : ℕ → List ℕ → Result (List GossipEntry × ℕ)
read_entries zero bytes = ok ([], 1)
read_entries (suc n) (a ∷ b ∷ c ∷ d ∷ rest) = do
  (xs, k) ← read_entries n rest
  ok (record { node_id = a; incarnation = b; state = read_state c; epoch_ms = d } ∷ xs, 4 + k)
read_entries (suc n) _ = err (str "end")

abbrev read_gossip : List ℕ → Result (GossipPayload × ℕ)
read_gossip [] = err (str "end")
read_gossip (n ∷ rest) = do (xs, k) ← read_entries n rest; ok (record { entries = xs }, k)

abbrev gossip_codec : Codec GossipPayload
gossip_codec = record {
  encode = λ pl. ok (length pl.entries ∷ write_entries pl.entries);
  decode = read_gossip;
}

read_state-write_state : (s : NodeState) → read_state (write_state s) ≡ s
read_state-write_state alive = refl
read_state-write_state suspect = refl
read_state-write_state dead = refl

read_entries-write_entries :
    (xs : List GossipEntry) (rest : List ℕ)
    → read_entries (length xs) (write_entries xs ++ rest) ≡ ok (xs, 1 + length (write_entries xs))
read_entries-write_entries [] rest = refl
read_entries-write_entries (x ∷ xs) rest =
    rw (read_entries-write_entries xs rest, read_state-write_state x.state)
      (ap (λ (n : ℕ). ok (x ∷ xs, n)) (omega arith))

pub gossip_codec-ReadsBack : ReadsBack gossip_codec
gossip_codec-ReadsBack pl bytes rest written =
    ground (arith, read_entries-write_entries pl.entries rest)

pub no_announce-ReadsBack : ReadsBack (no_codec {A = AnnouncePayload})
no_announce-ReadsBack pl bytes rest written = absurd (ground arith)

abbrev pub node : Node
node = record {
  codecs = record {
    heartbeat = heartbeat_codec;
    announce = no_codec;
    leave = no_codec;
    gossip = gossip_codec;
  };
  self_id = 9;
  suspect_threshold = from_millis 450;
  dead_threshold = from_secs 30;
}
