-- ===== src/Imager.antt =====
-- crates/imager/src/main.rs: the catalog of images, its requests, the chunk request and the hash of a
-- file. The blake3 crate and the `qemu-img` program are parameters.
pub mod Laws
pub mod Start
use hivebus.Prelude.{
  ℕ, Option, Bool, true, false, List, [], ◌∷◌, ◌++◌, ◌==◌, bytes_eq, if◌then◌else◌,
}
use hivebus.Result.{Result, ok, err}
use hivebus.Bincode.{Codec}
use hivebus.Std.Bytes.{u32_to_be}
use hivebus.Std.HashMap
use hivebus.Std.HashMap.{HashMap}
use hivebus.Std.Path.{push}
use hivebus.Std.Text.{Str, str, decimal}
use hivebus.Proto.Message
use hivebus.Proto.Message.{
  ControlOp, ControlReply, ping, get_nodes, get_master, step_down, shutdown, custom, error,
  reply_data,
}
use hivebus.Socket.{ControlCodecs, Answer, reply, exit, Connection, serve}

pub data ImageKind : Type 0 where
  kvm lxc container : ImageKind

pub record ImageEntry : Type 0 where
  pub id : Str
  pub kind : ImageKind
  pub blake3 : Str
  pub sha256 : Option Str
  pub size_bytes : ℕ
  pub path : Str

abbrev pub Catalog : Type 0
Catalog = HashMap Str ImageEntry

pub data ChunkCmd : Type 0 where
  request send list nack : ChunkCmd

-- `self as u8`
abbrev pub cmd_byte : ChunkCmd → ℕ
cmd_byte request = 1
cmd_byte send = 2
cmd_byte list = 3
cmd_byte nack = 4

-- The digest is an array of 32 bytes.
unfoldable pub build_request : ℕ → List ℕ → List ℕ
build_request chunk_idx digest = cmd_byte request ∷ u32_to_be chunk_idx ++ digest

-- `create_qcow2`. `run` starts the program with its arguments; its error is a failed start or a
-- failed status.
unfoldable pub create_qcow2 : (Str → List Str → Result (Unit {0})) → Str → Str → ℕ → Result Str
unfolding push decimal
create_qcow2 run store_dir id size_gb =
    let path = push store_dir (id ++ str ".qcow2") in
    let args = str "create" ∷ str "-f" ∷ str "qcow2" ∷ path ∷ (decimal size_gb ++ str "G") ∷ [] in
    elim (run (str "qemu-img") args) [ err e ↦ err e | ok _ ↦ ok path ]

-- A hash function that is fed piece by piece.
pub record Hasher (H : Type 0) : Type 0 where
  pub new : H
  pub update : H → List ℕ → H
  pub finalize : H → Str

-- The loop of `blake3_hash_file` over the reads of the file, which end with an empty one. Behind
-- the listed reads the file is at its end.
unfoldable pub hash_reads : {H : Type 0} → Hasher H → H → List (Result (List ℕ)) → Result Str
hash_reads hasher h [] = ok (hasher.finalize h)
hash_reads hasher h (err e ∷ reads) = err e
hash_reads hasher h (ok [] ∷ reads) = ok (hasher.finalize h)
hash_reads hasher h (ok (b ∷ bytes) ∷ reads) = hash_reads hasher (hasher.update h (b ∷ bytes)) reads

unfoldable pub blake3_hash_file :
    {H : Type 0} → Hasher H → Result (List (Result (List ℕ))) → Result Str
unfolding hash_reads
blake3_hash_file hasher (err e) = err e
blake3_hash_file hasher (ok reads) = hash_reads hasher hasher.new reads

module _ (codec : Codec (List ImageEntry)) where
  unfoldable pub image_list : Catalog → ControlReply
  image_list catalog = elim (codec.encode (HashMap.values catalog)) [
    | ok bytes ↦ reply_data (str "image.list") bytes
    | err e ↦ error e
  ]

  unfoldable pub handle_image_cmd : Str → Catalog → ControlReply
  unfolding image_list
  handle_image_cmd tag catalog =
      if tag == str "image.list"
      then image_list catalog
      else if tag == str "image.create_kvm"
      then Message.ok
      else if tag == str "image.push"
      then Message.ok
      else error (str "unknown tag: " ++ tag)

  unfoldable pub answer_image : Result ControlOp → Catalog → Answer × Catalog
  unfolding handle_image_cmd
  answer_image (ok ping) s = (reply Message.ok, s)
  answer_image (ok (custom tag inner)) s = (reply (handle_image_cmd tag s), s)
  answer_image (ok shutdown) s = (exit, s)
  answer_image (err e) s = (reply (error e), s)
  answer_image (ok get_nodes) s = (reply (error (str "unsupported op")), s)
  answer_image (ok get_master) s = (reply (error (str "unsupported op")), s)
  answer_image (ok step_down) s = (reply (error (str "unsupported op")), s)

-- One connection.
unfoldable pub serve_imager :
    ControlCodecs → Codec (List ImageEntry) → List ℕ → Catalog → Connection × Catalog
serve_imager control codec = serve control (answer_image codec)
