-- ===== src/Tests/Pxeboot/Booting.antt =====
-- A concrete registration with crates/pxeboot/src/main.rs.
use hivebus.Prelude.{
  ℕ, ◌+◌, ◌≡◌, refl, Option, none, some, List, [], ◌∷◌, ◌++◌, arith, length, take, take-append,
  if◌then◌else◌, ◌==◌,
}
use hivebus.Result.{Result, ok, err}
use hivebus.Bincode.{Codec, ReadsBack}
use hivebus.Std.HashMap
use hivebus.Std.HashMap.{HashMap}
use hivebus.Std.Net.{Ipv4Addr}
use hivebus.Std.Text.{Str, str}
use hivebus.Proto.Mac.{Mac, octets}
use hivebus.Proto.Message
use hivebus.Proto.Message.{ControlReply, custom}
use hivebus.Proto.Control.{encode_control, decode_control, frame, payload, read_frame}
use hivebus.Socket.{ControlCodecs, replied}
use hivebus.Pxeboot.Boot.{BootEntry, mac_eq}
use hivebus.Pxeboot.Control.{BootCodecs, BootState, serve_pxeboot}
use hivebus.Pxeboot.Control.Laws.{serve_pxeboot-boot_register}
use hivebus.Tests.Data.{op_codec-ReadsBack, control_codecs, no_codec}
use hivebus.Tests.Pxeboot.{mac, cfg}

abbrev entry_named : Str → BootEntry
entry_named name = record { hostname = name; ip = none; ipxe_script = none; tags = [] }

-- Only entries with a name and nothing else are written.
abbrev write_entry : Mac → Str → Option Ipv4Addr → Option Str → HashMap Str Str → Result (List ℕ)
write_entry hw name none none [] = ok (octets hw ++ length name ∷ name)
write_entry hw name _ _ _ = err (str "no")

abbrev read_entry : List ℕ → Result ((Mac × BootEntry) × ℕ)
read_entry (a ∷ b ∷ c ∷ d ∷ e ∷ f ∷ n ∷ rest) =
    ok (
      (record { m0 = a; m1 = b; m2 = c; m3 = d; m4 = e; m5 = f }, entry_named (take n rest)),
      7 + n,
    )
read_entry _ = err (str "end")

abbrev registration_codec : Codec (Mac × BootEntry)
registration_codec = record {
  encode = λ r. write_entry r.0 r.1.hostname r.1.ip r.1.ipxe_script r.1.tags;
  decode = read_entry;
}

read-write :
    (hw : Mac) (name : Str) (ip : Option Ipv4Addr) (script : Option Str) (tags : HashMap Str Str)
    (bytes rest : List ℕ)
    → write_entry hw name ip script tags ≡ ok bytes
    → read_entry (bytes ++ rest)
      ≡ ok (
        (hw, record { hostname = name; ip = ip; ipxe_script = script; tags = tags }),
        length bytes,
      )
read-write hw name none none [] bytes rest h =
    ground (arith, take-append (length name) name rest refl)
read-write hw name none none (t ∷ tags) bytes rest h = absurd (ground arith)
read-write hw name none (some s) tags bytes rest h = absurd (ground arith)
read-write hw name (some ip) script tags bytes rest h = absurd (ground arith)

registration_codec-ReadsBack : ReadsBack registration_codec
registration_codec-ReadsBack r bytes rest written =
    read-write r.0 r.1.hostname r.1.ip r.1.ipxe_script r.1.tags bytes rest written

abbrev boot_codecs : BootCodecs
boot_codecs = record { registration = registration_codec; listing = no_codec }

abbrev inner : List ℕ
inner = 2 ∷ 0 ∷ 90 ∷ 16 ∷ 7 ∷ 6 ∷ 2 ∷ 110 ∷ 49 ∷ []

abbrev bytes : List ℕ
bytes = 5 ∷ 13 ∷ 9 ∷ (str "boot.register" ++ inner)

abbrev empty : BootState
empty = record { boot_table = []; files = [] }

-- Only `Ok` is written.
abbrev write_ok : ControlReply → Result (List ℕ)
write_ok Message.ok = ok (4 ∷ [])
write_ok _ = err (str "no")

abbrev read_ok : List ℕ → Result (ControlReply × ℕ)
read_ok [] = err (str "end")
read_ok (tag ∷ rest) = ok (Message.ok, 1)

abbrev codecs : ControlCodecs
codecs = record { op = control_codecs.op; reply = record { encode = write_ok; decode = read_ok } }

ok-ReadsBack : ReadsBack codecs.reply
ok-ReadsBack Message.ok [] rest written = absurd (ground arith)
ok-ReadsBack Message.ok (b ∷ bytes) rest written = ground arith
ok-ReadsBack _ bytes rest written = absurd (ground arith)

serve_pxeboot-boot_register_example :
    (f : List ℕ) × (encode_control codecs.op (custom (str "boot.register") inner) ≡ frame f)
    × (s' : BootState) × (g : List ℕ) × (serve_pxeboot codecs boot_codecs cfg (f ++ []) empty
        ≡ (replied g, s'))
    × (read_frame g ≡ payload (4 ∷ []))
    × (decode_control codecs.reply (4 ∷ []) ≡ ok Message.ok)
    × ((k : Mac)
        → HashMap.get s'.boot_table k
          ≡ (if mac == k then some (entry_named (str "n1")) else HashMap.get empty.boot_table k))
serve_pxeboot-boot_register_example =
    serve_pxeboot-boot_register codecs boot_codecs cfg mac (entry_named (str "n1")) inner bytes
      (4 ∷ []) [] empty op_codec-ReadsBack ok-ReadsBack registration_codec-ReadsBack refl refl
      (omega arith) refl (omega arith)
