-- ===== src/Ring/Segments.antt =====
-- The bytes that a ring holds, oldest first, and when a ring is well formed.
use esp_hosted.Prelude.{
  ℕ, ◌+◌, ◌-◌, ◌^◌, ◌<◌, ◌≡◌, List, ◌++◌, length, length-append, seg, length-seg, leb,
  if◌then◌else◌, Bool-cases, inl, inr, arith,
}
use native.Mathlib.Nat.{mod-eq_of_lt, mod-eq-sub-mod}
use esp_hosted.Ring.{Rb, get_free_space}

pub record IsValid (rb : Rb) : Type 0 where
  pub storage : length rb.buf ≡ rb.size
  pub small : rb.size < 2 ^ 31
  pub rp_in : rb.rp < rb.size
  pub wp_in : rb.wp < rb.size

abbrev pub contents : Rb → List ℕ
contents rb =
    if leb rb.rp rb.wp
    then seg rb.buf rb.rp rb.wp
    else seg rb.buf rb.rp rb.size ++ seg rb.buf 0 rb.wp

-- The number of free bytes, without `%`.
pub free_cases :
    (rb : Rb)
    → IsValid rb
    → get_free_space rb
      ≡ (if leb rb.rp rb.wp then rb.size - 1 - (rb.wp - rb.rp) else rb.rp - rb.wp - 1)
unfolding get_free_space
free_cases rb v = ground (
  arith,
  mod-eq_of_lt {n = rb.rp + rb.size - rb.wp} {m = rb.size},
  mod-eq-sub-mod {n = rb.rp + rb.size - rb.wp} {m = rb.size},
  mod-eq_of_lt {n = rb.rp + rb.size - rb.wp - rb.size} {m = rb.size},
)

pub length-contents :
    (rb : Rb)
    → IsValid rb
    → length (contents rb) ≡ (if leb rb.rp rb.wp then rb.wp - rb.rp else rb.size - rb.rp + rb.wp)
length-contents rb v = elim (Bool-cases (leb rb.rp rb.wp)) [
  | inl e ↦ rw e (length-seg rb.buf rb.rp rb.wp (omega arith))
  | inr e ↦ rw e (
      omega (
        arith,
        length-append (seg rb.buf rb.rp rb.size) (seg rb.buf 0 rb.wp),
        length-seg rb.buf rb.rp rb.size (omega arith),
        length-seg rb.buf 0 rb.wp (omega arith),
      ))
]

-- What is free and what is stored make up the size less one byte.
pub free-add-length :
    (rb : Rb) → IsValid rb → get_free_space rb + length (contents rb) + 1 ≡ rb.size
free-add-length rb v = ground (arith, free_cases rb v, length-contents rb v)
