-- ===== src/Pxeboot/Tftp/Laws.antt =====
-- Read requests on their way to the server of crates/pxeboot/src/main.rs.
use hivebus.Prelude.{
  ℕ, ◌≤◌, ◌≡◌, ◌⊎◌, inl, inr, refl, some, true, false, List, [], ◌∷◌, ◌++◌, arith, nat_eq, bytes_eq,
  bytes_beq, beq_ne, length, take_of_length-le, length-append, ltb,
}
use hivebus.Std.Text.{Str, str, to_ascii_lowercase}
use hivebus.Std.Text.Utf8.{is_utf8, from_utf8}
use hivebus.Std.Path.Laws.{Lacks}
use hivebus.Pxeboot.Tftp.{
  tftp_rrq, cut_at_zero, parse_strings, parse_tftp_rrq, transfer, dispatch, on_tftp,
}

pub cut_at_zero-append : (a b : List ℕ) → Lacks 0 a → cut_at_zero (a ++ 0 ∷ b) ≡ some (a, b)
unfolding cut_at_zero
cut_at_zero-append [] b h = refl
cut_at_zero-append (x ∷ a) b h = rw (cut_at_zero, beq_ne x 0 h.0, cut_at_zero-append a b h.1)

-- A read request as a client writes it.
unfoldable pub read_request : Str → Str → List ℕ
read_request name mode = 0 ∷ tftp_rrq ∷ (name ++ 0 ∷ (mode ++ 0 ∷ []))

module _ (name mode : Str) (name_lacks : Lacks 0 name) (mode_lacks : Lacks 0 mode)
    (name_text : is_utf8 name ≡ true) (mode_text : is_utf8 mode ≡ true) where
  -- A read request for a name and in a mode, both texts without a zero byte, is parsed to that name
  -- and that mode in small letters.
  pub parse_tftp_rrq-read_request :
      parse_tftp_rrq (read_request name mode) ≡ some (name, to_ascii_lowercase mode)
  unfolding parse_tftp_rrq read_request parse_strings from_utf8
  parse_tftp_rrq-read_request =
      let long : ltb (length (read_request name mode)) 4 ≡ false =
        ground (arith, length-append name (0 ∷ (mode ++ 0 ∷ [])), length-append mode (0 ∷ [])) in
      rw (
        long,
        parse_strings,
        cut_at_zero-append name (mode ++ 0 ∷ []) name_lacks,
        cut_at_zero-append mode [] mode_lacks,
        name_text,
        mode_text,
      )

  -- The server starts a transfer of exactly the requested file, if the request fits its buffer and
  -- the mode is `octet` or `netascii` in letters of any case.
  pub on_tftp-read_request :
      length (read_request name mode) ≤ 1500
      → (to_ascii_lowercase mode ≡ str "octet") ⊎ (to_ascii_lowercase mode ≡ str "netascii")
      → on_tftp (read_request name mode) ≡ transfer name
  unfolding on_tftp dispatch
  on_tftp-read_request fits known =
      rw (whole (read_request name mode) fits, parse_tftp_rrq-read_request) (known_mode known)
    where
      whole : (d : List ℕ) → length d ≤ 1500 → on_tftp d ≡ dispatch (parse_tftp_rrq d)
      whole d h = rw (on_tftp, take_of_length-le 1500 d h)

      known_mode :
          (to_ascii_lowercase mode ≡ str "octet") ⊎ (to_ascii_lowercase mode ≡ str "netascii")
          → dispatch (some (name, to_ascii_lowercase mode)) ≡ transfer name
      known_mode (inl e) = rw e (unfold bytes_beq in refl)
      known_mode (inr e) = rw e (unfold bytes_beq in refl)
