-- ===== src/Pxeboot/Dhcp/Options.antt =====
-- The scan of the DHCP options of crates/pxeboot/src/main.rs against the format of RFC 2132: a
-- code, a length and that many bytes for each option.
use hivebus.Prelude.{
  ℕ, zero, suc, ◌≡◌, ◌≢◌, inl, inr, refl, ◌∙◌, none, some, false, ◌&&◌, List, [], ◌∷◌, ◌++◌, arith,
  ◌==◌, nat_eq, leb, length, All, append_assoc, if◌then◌else◌, Bool-cases,
}
use hivebus.Pxeboot.Dhcp.{opt_end, opt_message_type, scan_options}

pub record DhcpOption : Type 0 where
  pub code : ℕ
  pub value : List ℕ

-- The codes of the pad and the end stand for no option.
pub record IsOption (o : DhcpOption) : Type 0 where
  pub not_pad : o.code ≢ 0
  pub not_end : o.code ≢ opt_end

unfoldable pub write_options : List DhcpOption → List ℕ
write_options [] = []
write_options (o ∷ os) = o.code ∷ length o.value ∷ (o.value ++ write_options os)

abbrev first_or : ℕ → List ℕ → ℕ
first_or t [] = t
first_or t (v ∷ vs) = v

-- The message type that the last of the message type options names, if there is one with a value.
unfoldable pub last_type : ℕ → List DhcpOption → ℕ
last_type t [] = t
last_type t (o ∷ os) = last_type (if o.code == opt_message_type then first_or t o.value else t) os

scan_skip :
    (t : ℕ) (xs rest : List ℕ) → scan_options t (length xs) (xs ++ rest) ≡ scan_options t zero rest
unfolding scan_options
scan_skip t [] [] = refl
scan_skip t [] (r ∷ rest) = refl
scan_skip t (x ∷ xs) rest = scan_skip t xs rest

-- An option of another kind, or without a value, is skipped.
scan_other :
    (t code len : ℕ) (rest : List ℕ)
    → code ≢ 0
    → code ≢ opt_end
    → (code == opt_message_type && leb 1 len) ≡ false
    → scan_options t zero (code ∷ len ∷ rest) ≡ scan_options t len rest
unfolding scan_options
scan_other t code len [] pad end h = ground arith
scan_other t code len (r ∷ rest) pad end h = ground arith

scan_type :
    (t len value : ℕ) (rest : List ℕ)
    → scan_options t zero (opt_message_type ∷ suc len ∷ value ∷ rest)
      ≡ scan_options value (suc len) (value ∷ rest)
unfolding scan_options
scan_type t len value rest = ground arith

scan_option :
    (t : ℕ) (o : DhcpOption) (rest : List ℕ)
    → IsOption o
    → scan_options t zero (o.code ∷ length o.value ∷ (o.value ++ rest))
      ≡ scan_options (if o.code == opt_message_type then first_or t o.value else t) zero rest
scan_option t o rest h = go o.value
  where
    go :
        (v : List ℕ)
        → scan_options t zero (o.code ∷ length v ∷ (v ++ rest))
          ≡ scan_options (if o.code == opt_message_type then first_or t v else t) zero rest
    go [] = elim (Bool-cases (o.code == opt_message_type)) [
      | inl e ↦
          rw e (scan_other t o.code 0 rest h.not_pad h.not_end (rw e refl) ∙ scan_skip t [] rest)
      | inr e ↦
          rw e (scan_other t o.code 0 rest h.not_pad h.not_end (rw e refl) ∙ scan_skip t [] rest)
    ]
    go (x ∷ xs) = elim (Bool-cases (o.code == opt_message_type)) [
      | inl e ↦
          let is_type : o.code ≡ opt_message_type = (nat_eq.decides o.code opt_message_type).0 e in
          rw is_type
            (scan_type t (length xs) x (xs ++ rest) ∙ (unfold scan_options in scan_skip x xs rest))
      | inr e ↦ rw e (
          scan_other t o.code (suc (length xs)) (x ∷ (xs ++ rest)) h.not_pad h.not_end (rw e refl)
          ∙ scan_skip t (x ∷ xs) rest)
    ]

scan_end : (t : ℕ) (rest : List ℕ) → scan_options t zero (opt_end ∷ rest) ≡ some t
unfolding scan_options
scan_end t [] = refl
scan_end t (r ∷ []) = refl
scan_end t (r ∷ s ∷ rest) = refl

-- Options that are written with their lengths and closed by the end code are scanned without a
-- panic, and the message type is the first byte of the last message type option that has one.
pub scan_options-write_options :
    (t : ℕ) (os : List DhcpOption) (rest : List ℕ)
    → All IsOption os
    → scan_options t zero (write_options os ++ opt_end ∷ rest) ≡ some (last_type t os)
unfolding write_options last_type
scan_options-write_options t [] rest h = scan_end t rest
scan_options-write_options t (o ∷ os) rest h = rw append_assoc (
    scan_option t o (write_options os ++ opt_end ∷ rest) h.0
    ∙ scan_options-write_options (if o.code == opt_message_type then first_or t o.value else t) os
        rest h.1)

-- A datagram whose options end in a message type option that announces a value but has none makes
-- the scan read out of bounds: the task panics.
pub scan_options_panics :
    (t len : ℕ) (os : List DhcpOption)
    → All IsOption os
    → scan_options t zero (write_options os ++ opt_message_type ∷ suc len ∷ []) ≡ none
unfolding write_options
scan_options_panics t len [] h = unfold scan_options in ground arith
scan_options_panics t len (o ∷ os) h = rw append_assoc (
    scan_option t o (write_options os ++ opt_message_type ∷ suc len ∷ []) h.0
    ∙ scan_options_panics (if o.code == opt_message_type then first_or t o.value else t) len os h.1)
