-- ===== src/Prelude/Memory.antt =====
-- C buffers as lists: `memcpy` into a buffer, and the segment between two offsets.
use Prim.Native.Nat.{ℕ, zero, suc, ◌+◌, ◌-◌, ◌≤◌}
use mathlib.Core.Path.{◌≡◌, refl, sym, ap, ◌∙◌}
use mathlib.Core.List.{List, [], ◌∷◌, ◌++◌}
use native.Mathlib.Decide.{dec_le}
use native.Mathlib.Omega.{arith}
use esp_hosted.Prelude.Lists.{length, take, drop, take-add, drop-add, length-take, length-drop}

module _ {ℓ} {A : Type ℓ} where
  -- `memcpy(b + i, s, n)`: what would fall outside the buffer is not written.
  abbrev pub put : List A → ℕ → List A → List A
  put [] i s = []
  put (x ∷ b) zero [] = x ∷ b
  put (x ∷ b) zero (y ∷ s) = y ∷ put b zero s
  put (x ∷ b) (suc i) s = x ∷ put b i s

  -- The bytes from offset `a` up to offset `n`.
  abbrev pub seg : List A → ℕ → ℕ → List A
  seg b a n = take (n - a) (drop a b)

  pub length-put : (b : List A) (i : ℕ) (s : List A) → length (put b i s) ≡ length b
  length-put [] i s = refl
  length-put (x ∷ b) zero [] = refl
  length-put (x ∷ b) zero (y ∷ s) = ap suc (length-put b zero s)
  length-put (x ∷ b) (suc i) s = ap suc (length-put b i s)

  put-nil : (b : List A) (i : ℕ) → put b i [] ≡ b
  put-nil [] i = refl
  put-nil (x ∷ b) zero = refl
  put-nil (x ∷ b) (suc i) = ap (λ t. x ∷ t) (put-nil b i)

  drop-put : (b : List A) (i a : ℕ) (s : List A) → i + length s ≤ a → drop a (put b i s) ≡ drop a b
  drop-put [] i a s h = refl
  drop-put (x ∷ b) zero a [] h = refl
  drop-put (x ∷ b) zero zero (y ∷ s) h = absurd (omega arith)
  drop-put (x ∷ b) zero (suc a) (y ∷ s) h = drop-put b zero a s (omega arith)
  drop-put (x ∷ b) (suc i) zero s h = absurd (omega arith)
  drop-put (x ∷ b) (suc i) (suc a) s h = drop-put b i a s (omega arith)

  take-put : (b : List A) (i n : ℕ) (s : List A) → n ≤ i → take n (put b i s) ≡ take n b
  take-put [] i n s h = refl
  take-put (x ∷ b) i zero s h = refl
  take-put (x ∷ b) zero (suc n) s h = absurd (omega arith)
  take-put (x ∷ b) (suc i) (suc n) s h = ap (λ t. x ∷ t) (take-put b i n s (omega arith))

  take-drop-put :
      (b : List A) (i a n : ℕ) (s : List A)
      → a + n ≤ i
      → take n (drop a (put b i s)) ≡ take n (drop a b)
  take-drop-put b i zero n s h = take-put b i n s (omega arith)
  take-drop-put [] i (suc a) n s h = refl
  take-drop-put (x ∷ b) zero (suc a) n s h = absurd (omega arith)
  take-drop-put (x ∷ b) (suc i) (suc a) n s h = take-drop-put b i a n s (omega arith)

  take-drop-put_self :
      (b : List A) (i : ℕ) (s : List A)
      → i + length s ≤ length b
      → take (length s) (drop i (put b i s)) ≡ s
  take-drop-put_self [] i [] h = drop-nil-take i
    where
      drop-nil-take : (k : ℕ) → take 0 (drop {A = A} k []) ≡ []
      drop-nil-take k = refl
  take-drop-put_self [] i (y ∷ s) h = absurd (omega arith)
  take-drop-put_self (x ∷ b) zero [] h = refl
  take-drop-put_self (x ∷ b) zero (y ∷ s) h =
      ap (λ t. y ∷ t) (take-drop-put_self b zero s (omega arith))
  take-drop-put_self (x ∷ b) (suc i) s h = take-drop-put_self b i s (omega arith)

module _ {ℓ} {A : Type ℓ} where
  pub seg_empty : (b : List A) (a n : ℕ) → n ≤ a → seg b a n ≡ []
  seg_empty b a n h = ap (λ k. take k (drop a b)) zero_len
    where
      zero_len : n - a ≡ 0
      zero_len = omega arith

  pub seg_split : (b : List A) (a m n : ℕ) → a ≤ m → m ≤ n → seg b a n ≡ seg b a m ++ seg b m n
  seg_split b a m n p q =
      ap (λ k. take k (drop a b)) sum_len
      ∙ take-add (m - a) (n - m) (drop a b)
      ∙ ap (λ t. seg b a m ++ take (n - m) t) tail_eq
    where
      sum_len : n - a ≡ m - a + (n - m)
      sum_len = omega arith

      start : a + (m - a) ≡ m
      start = omega arith

      tail_eq : drop (m - a) (drop a b) ≡ drop m b
      tail_eq = rw (← drop-add a (m - a) b, start)

  pub length-seg : (b : List A) (a n : ℕ) → n ≤ length b → length (seg b a n) ≡ n - a
  length-seg b a n h = omega (arith, length-take (n - a) (drop a b), length-drop a b)

  -- `seg` reads back what `put` wrote, and all else is as it was.
  pub seg-put_self :
      (b : List A) (i n : ℕ) (s : List A)
      → i + length s ≤ length b
      → n ≡ i + length s
      → seg (put b i s) i n ≡ s
  seg-put_self b i n s h e = ap (λ k. take k (drop i (put b i s))) len ∙ take-drop-put_self b i s h
    where
      len : n - i ≡ length s
      len = omega arith

  pub seg-put_before :
      (b : List A) (i a n : ℕ) (s : List A) → n ≤ i → seg (put b i s) a n ≡ seg b a n
  seg-put_before b i a n s h = elim (dec_le a n) [
    | yes p ↦ take-drop-put b i a (n - a) s (omega arith)
    | no p ↦ seg_empty (put b i s) a n (omega arith) ∙ sym (seg_empty b a n (omega arith))
  ]

  pub seg-put_after :
      (b : List A) (i a n : ℕ) (s : List A) → i + length s ≤ a → seg (put b i s) a n ≡ seg b a n
  seg-put_after b i a n s h = ap (λ t. take (n - a) t) (drop-put b i a s h)
