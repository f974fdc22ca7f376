-- ===== src/Tlv/Memory.antt =====
-- A buffer in memory, and what is read from it.
use esp_hosted.Prelude.{ℕ, zero, suc, ◌+◌, ◌≡◌, refl, ap, ◌∙◌, List, [], ◌∷◌, ◌++◌, length, arith}
use esp_hosted.Tlv.{read_mem}

-- The memory that holds a buffer, with anything at all behind it.
abbrev pub mem : List ℕ → (ℕ → ℕ) → ℕ → ℕ
mem [] junk i = junk i
mem (b ∷ bs) junk zero = b
mem (b ∷ bs) junk (suc i) = mem bs (λ j. junk (suc j)) i

read_mem-suc : (m : ℕ → ℕ) (p n : ℕ) → read_mem m (suc p) n ≡ read_mem (λ j. m (suc j)) p n
read_mem-suc m p zero = refl
read_mem-suc m p (suc n) =
    ap (λ t. m (suc p) ∷ t) (ap (λ k. read_mem m k n) step ∙ read_mem-suc m (p + 1) n)
  where
    step : suc p + 1 ≡ suc (p + 1)
    step = omega arith

read_mem_start : (v ys : List ℕ) (junk : ℕ → ℕ) → read_mem (mem (v ++ ys) junk) 0 (length v) ≡ v
read_mem_start [] ys junk = refl
read_mem_start (x ∷ v) ys junk =
    ap (λ t. x ∷ t)
      (read_mem-suc (mem (x ∷ (v ++ ys)) junk) 0 (length v)
        ∙ read_mem_start v ys (λ j. junk (suc j)))

-- The bytes of a part of the buffer are read back, wherever the part stands.
pub read_mem_part :
    (xs v ys : List ℕ) (junk : ℕ → ℕ)
    → read_mem (mem (xs ++ (v ++ ys)) junk) (length xs) (length v) ≡ v
read_mem_part [] v ys junk = read_mem_start v ys junk
read_mem_part (x ∷ xs) v ys junk =
    read_mem-suc (mem (x ∷ (xs ++ (v ++ ys))) junk) (length xs) (length v)
    ∙ read_mem_part xs v ys (λ j. junk (suc j))
