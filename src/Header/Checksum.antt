-- ===== src/Header/Checksum.antt =====
-- The checksum of a frame: who computes it, and when the receiver accepts it.
use esp_hosted.Prelude.{ℕ, ◌+◌, ◌%◌, ◌<◌, ◌≡◌, List, [], ◌∷◌, arith}
use esp_hosted.Header.{sum_bytes, compute_checksum}

-- The plain sum of the bytes.
abbrev pub total : List ℕ → ℕ
total [] = 0
total (b ∷ bs) = b + total bs

sum_bytes-total :
    (acc : ℕ) (bs : List ℕ) → acc < 65536 → sum_bytes acc bs ≡ (acc + total bs) % 65536
unfolding sum_bytes
sum_bytes-total acc [] h = omega arith
sum_bytes-total acc (b ∷ bs) h = omega (arith, sum_bytes-total ((acc + b) % 65536) bs (omega arith))

-- The wrapping 16-bit loop computes the sum of all bytes modulo 2^16, for a buffer of any length.
pub compute_checksum-total : (bs : List ℕ) → compute_checksum bs ≡ total bs % 65536
unfolding compute_checksum
compute_checksum-total bs = omega (arith, sum_bytes-total 0 bs (omega arith))
