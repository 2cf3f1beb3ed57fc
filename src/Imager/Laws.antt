-- ===== src/Imager/Laws.antt =====
-- The hash of a file of crates/imager/src/main.rs does not depend on how the file is read.
use hivebus.Prelude.{ℕ, ◌≡◌, ap, ◌∙◌, sym, List, [], ◌∷◌, ◌++◌}
use hivebus.Result.{Result, ok}
use hivebus.Imager.{Hasher, hash_reads, blake3_hash_file}

-- The reads of a file that is cut into pieces with at least one byte each, and its end.
pub reads_of : List (ℕ × List ℕ) → List (Result (List ℕ))
reads_of [] = ok [] ∷ []
reads_of ((b, c) ∷ chunks) = ok (b ∷ c) ∷ reads_of chunks

-- All the bytes.
unfoldable pub bytes_of : List (ℕ × List ℕ) → List ℕ
bytes_of [] = []
bytes_of ((b, c) ∷ chunks) = b ∷ c ++ bytes_of chunks

module _ {H : Type 0} (hasher : Hasher H)
    (streams : (h : H) (a b : List ℕ)
      → hasher.update (hasher.update h a) b ≡ hasher.update h (a ++ b))
    (idle : (h : H) → hasher.update h [] ≡ h) where
  hash_reads-bytes_of :
      (h : H) (chunks : List (ℕ × List ℕ))
      → hash_reads hasher h (reads_of chunks)
        ≡ ok (hasher.finalize (hasher.update h (bytes_of chunks)))
  unfolding hash_reads reads_of bytes_of
  hash_reads-bytes_of h [] = ap (λ (x : H). ok (hasher.finalize x)) (sym (idle h))
  hash_reads-bytes_of h ((b, c) ∷ chunks) =
      hash_reads-bytes_of (hasher.update h (b ∷ c)) chunks
      ∙ ap (λ (x : H). ok (hasher.finalize x)) (streams h (b ∷ c) (bytes_of chunks))

  -- The hash of a file is that of all its bytes at once, into whatever pieces its reads cut it. The
  -- hash function takes pieces as it takes their bytes in one piece, and no bytes leave it as it is.
  pub blake3_hash_file-reads_of :
      (chunks : List (ℕ × List ℕ))
      → blake3_hash_file hasher (ok (reads_of chunks))
        ≡ ok (hasher.finalize (hasher.update hasher.new (bytes_of chunks)))
  unfolding blake3_hash_file
  blake3_hash_file-reads_of chunks = hash_reads-bytes_of hasher.new chunks
