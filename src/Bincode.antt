-- ===== src/Bincode.antt =====
-- The interface of the `bincode` crate, with serde's derived implementations: a way to write and
-- to read the values of one type. It is a parameter of everything that sends or receives.
use mathlib.Core.Path.{subst}
use hivebus.Prelude.{ℕ, ◌≡◌, List, [], ◌++◌, length, append-nil}
use hivebus.Result.{Result, ok}

pub record Codec {ℓ} (A : Type ℓ) : Type ℓ where
  -- `bincode::serde::encode_to_vec(value, config::standard())`
  pub encode : A → Result (List ℕ)
  -- `bincode::serde::decode_from_slice(bytes, config::standard())`: the value and the bytes used
  pub decode : List ℕ → Result (A × ℕ)

-- What the crate documents: a value that was written is read back, whatever bytes follow it.
abbrev pub ReadsBack {ℓ} : {A : Type ℓ} → Codec A → Type ℓ
ReadsBack {A} c =
    (a : A) (bytes rest : List ℕ)
    → c.encode a ≡ ok bytes
    → c.decode (bytes ++ rest) ≡ ok (a, length bytes)

-- The case with nothing behind the value.
pub decode-encode {ℓ} :
    {A : Type ℓ} (c : Codec A) (a : A) (bytes : List ℕ)
    → ReadsBack c
    → c.encode a ≡ ok bytes
    → c.decode bytes ≡ ok (a, length bytes)
decode-encode c a bytes reads written =
    subst (λ (b : List ℕ). c.decode b ≡ ok (a, length bytes)) (append-nil bytes)
      (reads a bytes [] written)
