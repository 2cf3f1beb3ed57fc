-- ===== src/Tests/Replies.antt =====
-- A codec for the replies of the control plane that hivectl asks for. It stands in for bincode: it
-- reads back what it wrote, and refuses to write what it does not know.
use hivebus.Prelude.{
  ℕ, zero, suc, ◌-◌, ◌≡◌, refl, ap, inl, inr, Bool, true, false, Option, none, some, List, [], ◌∷◌,
  ◌++◌, arith, length, take, drop, take-append, drop-append, append_assoc, length-append, ◌==◌,
  nat_eq, if◌then◌else◌,
}
use hivebus.Result.{Result, ok, err, ◌>>=◌, Result-cases}
use hivebus.Bincode.{Codec, ReadsBack}
use hivebus.Std.Net.{SocketAddr, v4, v6}
use hivebus.Std.Text.{str}
use hivebus.Proto.Node.{NodeInfo, NodeState, alive, suspect, dead}
use hivebus.Proto.Message.{ControlReply, nodes, master}

abbrev state_code : NodeState → ℕ
state_code alive = 0
state_code suspect = 1
state_code dead = 2

abbrev state_of : ℕ → NodeState
state_of n = if n == 0 then alive else if n == 1 then suspect else dead

abbrev flag_code : Bool → ℕ
flag_code true = 1
flag_code false = 0

abbrev write_at : SocketAddr → NodeInfo → Result (List ℕ)
write_at (v6 ip port flowinfo scope_id) n = err (str "no")
write_at (v4 ip port) n = ok (
    n.node_id
    ∷ ip.a
    ∷ ip.b
    ∷ ip.c
    ∷ ip.d
    ∷ port
    ∷ state_code n.state
    ∷ n.incarnation
    ∷ n.last_seen
    ∷ flag_code n.is_master
    ∷ length n.hostname
    ∷ n.hostname)

abbrev write_node : NodeInfo → Result (List ℕ)
write_node n = write_at n.control_addr n

abbrev read_node : List ℕ → Option (NodeInfo × List ℕ)
read_node (id ∷ a ∷ b ∷ c ∷ d ∷ port ∷ st ∷ inc ∷ seen ∷ m ∷ len ∷ rest) = some (
  record {
    node_id = id;
    hostname = take len rest;
    control_addr = v4 (record { a = a; b = b; c = c; d = d }) port;
    state = state_of st;
    incarnation = inc;
    last_seen = seen;
    is_master = m == 1;
  },
  drop len rest,
)
read_node _ = none

state_of-state_code : (s : NodeState) → state_of (state_code s) ≡ s
state_of-state_code alive = refl
state_of-state_code suspect = refl
state_of-state_code dead = refl

flag_back : (b : Bool) → (flag_code b == 1) ≡ b
flag_back true = refl
flag_back false = refl

read_node-write_at :
    (addr : SocketAddr) (n : NodeInfo) (bytes rest : List ℕ)
    → n.control_addr ≡ addr
    → write_at addr n ≡ ok bytes
    → read_node (bytes ++ rest) ≡ some (n, rest)
read_node-write_at (v6 ip port f s) n bytes rest is_at written = absurd (ground arith)
read_node-write_at (v4 ip port) n bytes rest is_at written = ground (
  arith,
  take-append (length n.hostname) n.hostname rest refl,
  drop-append (length n.hostname) n.hostname rest refl,
  state_of-state_code n.state,
  flag_back n.is_master,
)

abbrev write_nodes : List NodeInfo → Result (List ℕ)
write_nodes [] = ok []
write_nodes (n ∷ ns) = do b ← write_node n; bs ← write_nodes ns; ok (b ++ bs)

abbrev after_one : NodeInfo → Option (List NodeInfo × List ℕ) → Option (List NodeInfo × List ℕ)
after_one n none = none
after_one n (some (ns, rest)) = some (n ∷ ns, rest)

abbrev read_nodes : ℕ → List ℕ → Option (List NodeInfo × List ℕ)
read_nodes zero s = some ([], s)
read_nodes (suc k) s = elim (read_node s) [
  | none ↦ none
  | some (n, rest) ↦ after_one n (read_nodes k rest)
]

read_nodes-write_nodes :
    (ns : List NodeInfo) (bytes rest : List ℕ)
    → write_nodes ns ≡ ok bytes
    → read_nodes (length ns) (bytes ++ rest) ≡ some (ns, rest)
read_nodes-write_nodes [] bytes rest written = ground arith
read_nodes-write_nodes (n ∷ ns) bytes rest written = elim (Result-cases (write_node n)) [
  | inl (e, p) ↦ absurd (ground arith)
  | inr (b, p) ↦ elim (Result-cases (write_nodes ns)) [
    | inl (e, q) ↦ absurd (ground arith)
    | inr (bs, q) ↦
        let whole : bytes ≡ b ++ bs = ground arith in
        let first = read_node-write_at n.control_addr n b (bs ++ rest) refl p in
        let others = read_nodes-write_nodes ns bs rest q in
        rw (whole, append_assoc b bs rest, read_nodes, first, others) refl
  ]
]

abbrev write_reply : ControlReply → Result (List ℕ)
write_reply (nodes ns) = do bs ← write_nodes ns; ok (0 ∷ length ns ∷ bs)
write_reply (master (some n)) = do b ← write_node n; ok (1 ∷ b)
write_reply (master none) = ok (2 ∷ [])
write_reply _ = err (str "no")

abbrev nodes_read : Option (List NodeInfo × List ℕ) → Option (ControlReply × List ℕ)
nodes_read none = none
nodes_read (some (ns, rest)) = some (nodes ns, rest)

abbrev master_read : Option (NodeInfo × List ℕ) → Option (ControlReply × List ℕ)
master_read none = none
master_read (some (n, rest)) = some (master (some n), rest)

abbrev read_reply : List ℕ → Option (ControlReply × List ℕ)
read_reply [] = none
read_reply (tag ∷ []) = if tag == 2 then some (master none, []) else none
read_reply (tag ∷ k ∷ s) =
    if tag == 0
    then nodes_read (read_nodes k s)
    else if tag == 1
    then master_read (read_node (k ∷ s))
    else if tag == 2
    then some (master none, k ∷ s)
    else none

-- What was read and how many bytes that took.
abbrev used : List ℕ → Option (ControlReply × List ℕ) → Result (ControlReply × ℕ)
used bytes none = err (str "end")
used bytes (some (r, rest)) = ok (r, length bytes - length rest)

abbrev pub reply_codec : Codec ControlReply
reply_codec = record { encode = write_reply; decode = λ bytes. used bytes (read_reply bytes) }

read_reply-write_reply :
    (r : ControlReply) (bytes rest : List ℕ)
    → write_reply r ≡ ok bytes
    → read_reply (bytes ++ rest) ≡ some (r, rest)
read_reply-write_reply (nodes ns) bytes rest written = elim (Result-cases (write_nodes ns)) [
  | inl (e, p) ↦ absurd (ground arith)
  | inr (bs, p) ↦
      let whole : bytes ≡ 0 ∷ length ns ∷ bs = ground arith in
      rw (whole, read_nodes-write_nodes ns bs rest p) refl
]
read_reply-write_reply (master none) bytes [] written = ground arith
read_reply-write_reply (master none) bytes (x ∷ rest) written = ground arith
read_reply-write_reply (master (some n)) bytes rest written = elim (Result-cases (write_node n)) [
  | inl (e, p) ↦ absurd (ground arith)
  | inr (b, p) ↦
      let whole : bytes ≡ 1 ∷ b = ground arith in
      rw whole (master_back b (read_node-write_at n.control_addr n b rest refl p))
]
  where
    master_back :
        (b : List ℕ)
        → read_node (b ++ rest) ≡ some (n, rest)
        → read_reply (1 ∷ b ++ rest) ≡ some (master (some n), rest)
    master_back [] back = nothing rest back
      where
        nothing :
            (s : List ℕ)
            → read_node s ≡ some (n, rest)
            → read_reply (1 ∷ s) ≡ some (master (some n), rest)
        nothing [] h = absurd (ground arith)
        nothing (k ∷ s) h = rw h refl
    master_back (k ∷ b) back = rw back refl
read_reply-write_reply _ bytes rest written = absurd (ground arith)

pub reply_codec-ReadsBack : ReadsBack reply_codec
reply_codec-ReadsBack r bytes rest written =
    rw (read_reply-write_reply r bytes rest written, length-append bytes rest)
      (ap (λ (n : ℕ). ok (r, n)) (omega arith))
