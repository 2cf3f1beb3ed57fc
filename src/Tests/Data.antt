-- ===== src/Tests/Data.antt =====
-- Codecs and tables on which the theorems are tried. The codecs stand in for bincode: simple
-- encodings that read back what they wrote.
use hivebus.Prelude.{
  ℕ, ◌+◌, ◌≡◌, refl, ap, false, List, [], ◌∷◌, ◌++◌, arith, length, take, drop, take-append,
  drop-append, append_assoc, length-append, ◌==◌, nat_eq, if◌then◌else◌,
}
use hivebus.Result.{Result, ok, err}
use hivebus.Bincode.{Codec, ReadsBack}
use hivebus.Std.HashMap
use hivebus.Std.Net.{SocketAddr, v4}
use hivebus.Std.Text.{str}
use hivebus.Std.Time.{SystemTime, from_secs}
use hivebus.Proto.Node.{NodeInfo, NodeState, alive, suspect}
use hivebus.Proto.Message.{ControlOp, ping, get_nodes, get_master, step_down, shutdown, custom}
use hivebus.Proto.Payload.{HeartbeatPayload}
use hivebus.Hivebus.Members.{Members, IsValid}
use hivebus.Hivebus.Listener.{Codecs}
use hivebus.Socket.{ControlCodecs}

-- A codec that refuses everything.
abbrev pub no_codec {ℓ} : {A : Type ℓ} → Codec A
no_codec = record { encode = λ a. err (str "no"); decode = λ bytes. err (str "no") }

abbrev read_two : List ℕ → Result (HeartbeatPayload × ℕ)
read_two (a ∷ b ∷ rest) = ok (record { incarnation = a; epoch_ms = b }, 2)
read_two _ = err (str "end")

abbrev pub heartbeat_codec : Codec HeartbeatPayload
heartbeat_codec = record {
  encode = λ pl. ok (pl.incarnation ∷ pl.epoch_ms ∷ []);
  decode = read_two;
}

pub heartbeat_codec-ReadsBack : ReadsBack heartbeat_codec
heartbeat_codec-ReadsBack pl bytes rest written = ground arith

abbrev write_op : ControlOp → List ℕ
write_op ping = 0 ∷ []
write_op get_nodes = 1 ∷ []
write_op get_master = 2 ∷ []
write_op step_down = 3 ∷ []
write_op shutdown = 4 ∷ []
write_op (custom tag payload) = 5 ∷ length tag ∷ length payload ∷ (tag ++ payload)

abbrev read_custom : List ℕ → Result (ControlOp × ℕ)
read_custom (n ∷ k ∷ rest) = ok (custom (take n rest) (take k (drop n rest)), 3 + (n + k))
read_custom _ = err (str "end")

abbrev read_op : List ℕ → Result (ControlOp × ℕ)
read_op [] = err (str "end")
read_op (tag ∷ rest) =
    if tag == 0
    then ok (ping, 1)
    else if tag == 1
    then ok (get_nodes, 1)
    else if tag == 2
    then ok (get_master, 1)
    else if tag == 3
    then ok (step_down, 1)
    else if tag == 4
    then ok (shutdown, 1)
    else if tag == 5
    then read_custom rest
    else err (str "unknown variant")

abbrev pub op_codec : Codec ControlOp
op_codec = record { encode = λ op. ok (write_op op); decode = read_op }

read_op-write_op :
    (op : ControlOp) (rest : List ℕ) → read_op (write_op op ++ rest) ≡ ok (op, length (write_op op))
read_op-write_op ping rest = refl
read_op-write_op get_nodes rest = refl
read_op-write_op get_master rest = refl
read_op-write_op step_down rest = refl
read_op-write_op shutdown rest = refl
read_op-write_op (custom tag payload) rest =
    rw
      (
        append_assoc tag payload rest,
        take-append (length tag) tag (payload ++ rest) refl,
        drop-append (length tag) tag (payload ++ rest) refl,
        take-append (length payload) payload rest refl,
        length-append tag payload,
      )
      (ap (λ (n : ℕ). ok (custom tag payload, n)) (omega arith))

pub op_codec-ReadsBack : ReadsBack op_codec
op_codec-ReadsBack op bytes rest written = ground (arith, read_op-write_op op rest)

abbrev pub control_codecs : ControlCodecs
control_codecs = record { op = op_codec; reply = no_codec }

abbrev pub codecs : Codecs
codecs = record {
  heartbeat = heartbeat_codec;
  announce = no_codec;
  leave = no_codec;
  gossip = no_codec;
}

abbrev pub addr : ℕ → SocketAddr
addr d = v4 (record { a = 10; b = 0; c = 0; d = d }) 7777

abbrev pub node : ℕ → NodeState → SystemTime → NodeInfo
node id state seen = record {
  node_id = id;
  hostname = str "host";
  control_addr = addr 7;
  state = state;
  incarnation = 4;
  last_seen = seen;
  is_master = false;
}

-- A thousand seconds and ten seconds more.
abbrev pub seen : SystemTime
seen = from_secs 1000

abbrev pub later : SystemTime
later = from_secs 1010

-- The table of node 5: node 3 is Alive and node 2 is Suspect.
abbrev pub table : Members
table = (3, node 3 alive seen) ∷ (2, node 2 suspect seen) ∷ []

pub table-IsValid : IsValid 5 table
unfolding HashMap.get
table-IsValid = record { entries = omega arith; distinct = (refl, (refl, tt)) }
