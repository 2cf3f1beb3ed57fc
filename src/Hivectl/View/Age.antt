-- ===== src/Hivectl/View/Age.antt =====
-- The ages that crates/hivectl/src/main.rs shows are exact.
use hivebus.Prelude.{
  ℕ, zero, suc, ◌+◌, ◌-◌, ◌*◌, ◌/◌, ◌%◌, ◌<◌, ◌≡◌, ◌∙◌, ap, inl, inr, [], ◌∷◌, ◌++◌, arith,
  append_assoc, ltb, ◌==◌, nat_eq, if◌then◌else◌, Bool-cases,
}
use hivebus.Std.Text.{Str, str, decimal, decimal_rounds}
use hivebus.Hivectl.View.{show_age}

-- A reader of such a text: `total` are the seconds so far, `n` is the number that is being read.
read_from : ℕ → ℕ → Str → ℕ
read_from total n [] = total
read_from total n (c ∷ s) =
    let minutes = read_from (total + n * 60) 0 s in
    let seconds = read_from (total + n) 0 s in
    let digit = read_from total (n * 10 + (c - b'0')) s in
    if c == b'm' then minutes else if c == b's' then seconds else digit

pub read_age : Str → ℕ
unfolding read_from
read_age s = read_from 0 0 s

read_from-digit :
    (total n d : ℕ) (rest : Str)
    → d < 10
    → read_from total n ((b'0' + d) ∷ rest) ≡ read_from total (n * 10 + d) rest
unfolding read_from
read_from-digit total n d rest small = ground arith

read_from-decimal_rounds :
    (total fuel n : ℕ) (rest : Str)
    → n < fuel
    → read_from total 0 (decimal_rounds fuel n ++ rest) ≡ read_from total n rest
unfolding decimal_rounds
read_from-decimal_rounds total zero n rest enough = absurd (omega arith)
read_from-decimal_rounds total (suc fuel) n rest enough = elim (Bool-cases (ltb n 10)) [
  | inl p ↦ rw p (
      read_from-digit total 0 n rest (ground arith)
      ∙ ap (λ (k : ℕ). read_from total k rest) (omega arith))
  | inr p ↦
      let large : 9 < n = ground arith in
      rw p (
        rw append_assoc (
          read_from-decimal_rounds total fuel (n / 10) ((b'0' + n % 10) ∷ rest) (omega arith)
          ∙ read_from-digit total (n / 10) (n % 10) rest (omega arith)
          ∙ ap (λ (k : ℕ). read_from total k rest) (omega arith)))
]

read_from-decimal :
    (total n : ℕ) (rest : Str) → read_from total 0 (decimal n ++ rest) ≡ read_from total n rest
unfolding decimal
read_from-decimal total n rest = read_from-decimal_rounds total (suc n) n rest (omega arith)

-- The age that is shown, in seconds or in minutes and seconds, is read back as the same number of
-- seconds, so two ages that differ are shown differently.
pub read_age-show_age : (secs : ℕ) → read_age (show_age secs) ≡ secs
unfolding read_age show_age read_from
read_age-show_age secs = elim (Bool-cases (ltb secs 60)) [
  | inl p ↦ rw p (read_from-decimal 0 secs (str "s") ∙ omega arith)
  | inr p ↦ rw p (
      read_from-decimal 0 (secs / 60) (str "m" ++ (decimal (secs % 60) ++ str "s"))
      ∙ read_from-decimal (0 + secs / 60 * 60) (secs % 60) (str "s")
      ∙ omega arith)
]

-- A number is read back as that many seconds.
pub read_age-decimal : (n : ℕ) → read_age (decimal n ++ str "s") ≡ n
unfolding read_age read_from
read_age-decimal n = read_from-decimal 0 n (str "s") ∙ omega arith
