-- ===== src/Std/Io.antt =====
-- Readers of a byte stream.
use hivebus.Prelude.{
  ℕ, ◌≡◌, ◌++◌, Option, none, some, List, arith, leb, if◌then◌else◌, length, take, drop,
  take-append, drop-append, length-append,
}

-- `read_exact` into a buffer of `n` bytes: what was read and the rest of the stream, or the error
-- at the end of the stream.
unfoldable pub read_exact : ℕ → List ℕ → Option (List ℕ × List ℕ)
read_exact n stream = if leb n (length stream) then some (take n stream, drop n stream) else none

-- A stream that begins with `n` bytes hands out those.
pub read_exact-append :
    (n : ℕ) (bytes rest : List ℕ)
    → length bytes ≡ n
    → read_exact n (bytes ++ rest) ≡ some (bytes, rest)
unfolding read_exact
read_exact-append n bytes rest h =
    ground (arith, take-append n bytes rest h, drop-append n bytes rest h, length-append bytes rest)
