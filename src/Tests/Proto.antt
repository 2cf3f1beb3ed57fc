-- ===== src/Tests/Proto.antt =====
-- Concrete inputs for the theorems about crates/proto/src/lib.rs.
use hivebus.Prelude.{ℕ, ◌≡◌, refl, List, [], ◌∷◌, ◌++◌, arith}
use hivebus.Result.{ok}
use hivebus.Proto.Control.{encode_control, decode_control, frame, read_frame, payload}
use hivebus.Proto.Control.Laws.{read_frame-encode_control}
use hivebus.Proto.Mac.{Mac}
use hivebus.Proto.Message.{ping}
use hivebus.Tests.Data.{op_codec, op_codec-ReadsBack}

abbrev packet : List ℕ
packet = 0xca ∷ 0x42 ∷ 2 ∷ 1 ∷ 7 ∷ []

read_frame-encode_control_example :
    (f : List ℕ) × (encode_control op_codec ping ≡ frame f)
    × (read_frame (f ++ 8 ∷ []) ≡ payload (0 ∷ []))
    × (decode_control op_codec (0 ∷ []) ≡ ok ping)
read_frame-encode_control_example =
    read_frame-encode_control op_codec ping (0 ∷ []) op_codec-ReadsBack refl (omega arith) (8 ∷ [])

abbrev mac : ℕ → Mac
mac last = record { m0 = 2; m1 = 0; m2 = 90; m3 = 16; m4 = 7; m5 = last }
