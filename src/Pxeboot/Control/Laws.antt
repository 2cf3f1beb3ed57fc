-- ===== src/Pxeboot/Control/Laws.antt =====
-- Registering a node with crates/pxeboot/src/main.rs.
use hivebus.Prelude.{
  ℕ, ◌≤◌, ◌≡◌, some, List, [], ◌++◌, append-nil, length, ◌==◌, bytes_eq, bytes_beq, if◌then◌else◌,
}
use hivebus.Result.{ok}
use hivebus.Bincode.{ReadsBack, decode-encode}
use hivebus.Std.HashMap
use hivebus.Std.HashMap.{get-insert}
use hivebus.Std.Text.{str}
use hivebus.Proto.Mac.{Mac}
use hivebus.Proto.Message
use hivebus.Proto.Message.{ControlOp, custom}
use hivebus.Proto.Control.{
  encode_control, decode_control, frame, payload, read_frame, max_control_payload,
}
use hivebus.Proto.Control.Laws.{read_frame-encode_control}
use hivebus.Socket.{ControlCodecs, reply, replied, finish}
use hivebus.Socket.Laws.{serve-encode_control}
use hivebus.Pxeboot.Boot.{Config, BootEntry, mac_eq, write_ipxe_script}
use hivebus.Pxeboot.Control.{
  BootCodecs, BootState, files_of, boot_register, answer_boot, serve_pxeboot,
}

-- The handler alone.
answer_boot-boot_register :
    (codecs : BootCodecs) (cfg : Config) (mac : Mac) (entry : BootEntry) (inner : List ℕ)
    (s : BootState)
    → ReadsBack codecs.registration
    → codecs.registration.encode (mac, entry) ≡ ok inner
    → (s' : BootState) × (answer_boot codecs cfg (ok (custom (str "boot.register") inner)) s
        ≡ (reply Message.ok, s'))
      × ((k : Mac)
          → HashMap.get s'.boot_table k
            ≡ (if mac == k then some entry else HashMap.get s.boot_table k))
unfolding answer_boot boot_register bytes_beq
answer_boot-boot_register codecs cfg mac entry inner s reads written = (
  record {
    boot_table = HashMap.insert s.boot_table mac entry;
    files = s.files ++ files_of (write_ipxe_script cfg mac entry);
  },
  rw (boot_register, decode-encode codecs.registration (mac, entry) inner reads written),
  (λ k. get-insert s.boot_table mac k entry),
)

-- A registration that a client sends is in the table afterwards: the node's hardware address has
-- the entry that was sent, every other address has what it had, and the client is told so: from the
-- bytes that come back it reads `Ok`. The request and `Ok` have encodings that fit the payload
-- limit, and the codecs read back what they wrote.
pub serve_pxeboot-boot_register :
    (control : ControlCodecs) (codecs : BootCodecs) (cfg : Config) (mac : Mac) (entry : BootEntry)
    (inner bytes said rest : List ℕ) (s : BootState)
    → ReadsBack control.op
    → ReadsBack control.reply
    → ReadsBack codecs.registration
    → codecs.registration.encode (mac, entry) ≡ ok inner
    → control.op.encode (custom (str "boot.register") inner) ≡ ok bytes
    → length bytes ≤ max_control_payload
    → control.reply.encode Message.ok ≡ ok said
    → length said ≤ max_control_payload
    → (f : List ℕ) × (encode_control control.op (custom (str "boot.register") inner) ≡ frame f)
      × (s' : BootState) × (g : List ℕ) × (serve_pxeboot control codecs cfg (f ++ rest) s
          ≡ (replied g, s'))
      × (read_frame g ≡ payload said)
      × (decode_control control.reply said ≡ ok Message.ok)
      × ((k : Mac)
          → HashMap.get s'.boot_table k
            ≡ (if mac == k then some entry else HashMap.get s.boot_table k))
unfolding serve_pxeboot finish
serve_pxeboot-boot_register control codecs cfg mac entry inner bytes said rest s reads reads_reply
      reads_inner written sent fits written_reply fits_reply =
    let (f, framed, served) =
      serve-encode_control control (answer_boot codecs cfg) (custom (str "boot.register") inner)
        bytes rest s reads sent fits in
    let (s', answered, after) =
      answer_boot-boot_register codecs cfg mac entry inner s reads_inner written in
    let (g, framed_reply, read, decoded) =
      read_frame-encode_control control.reply Message.ok said reads_reply written_reply fits_reply
        [] in
    (
      f,
      framed,
      s',
      g,
      rw (served, answered, finish, framed_reply),
      (rw append-nil at read),
      decoded,
      after,
    )
