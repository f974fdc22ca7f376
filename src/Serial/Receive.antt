-- ===== src/Serial/Receive.antt =====
-- How `esp_serial_data_received` stores what the slave sent.
use esp_hosted.Prelude.{
  ℕ, zero, suc, ◌+◌, ◌-◌, ◌≤◌, ◌<◌, ◌≡◌, ap, ◌∙◌, Bool, false, List, ◌++◌, append-nil, min, length,
  length-append, length-take, length-drop, take, drop, ◌==◌, leb, if◌then◌else◌, arith,
}
use native.Mathlib.Decide.{dec_le, ℕ_discrete}
use esp_hosted.Errno.{Ret, done}
use esp_hosted.Ring.{Rb, write_by_kernel}
use esp_hosted.Ring.Segments.{IsValid, contents}
use esp_hosted.Ring.Refine.{write_refines}
use esp_hosted.Serial.{receive_loop, received_ret, data_received}

-- The bytes that a ring can still take.
abbrev pub room : Rb → ℕ
room rb = rb.size - 1 - length (contents rb)

-- What one write does, as the loop sees it.
record Wrote (rb : Rb) (bytes : List ℕ) (out : Rb × Ret) : Type 0 where
  valid : IsValid out.0
  same_size : out.0.size ≡ rb.size
  bytes_kept : contents out.0 ≡ contents rb ++ take (room rb) bytes
  ret : out.1 ≡ done (min (length bytes) (room rb))

wrote : (rb : Rb) (bytes : List ℕ) → IsValid rb → Wrote rb bytes (write_by_kernel false rb bytes)
wrote rb bytes v =
    let (v', size, kept, ret) = write_refines rb bytes v in
    record { valid = v'; same_size = size; bytes_kept = kept; ret = ret }

abbrev pub quiet : ℕ → Bool
quiet i = false

-- A round that stores all that is left is the last but for the test of the loop.
round_fits :
    (fuel i : ℕ) (rb : Rb) (left : List ℕ) (got : ℕ) (ret : Ret)
    → IsValid rb
    → 0 < length left
    → length left ≤ room rb
    → receive_loop (suc (suc fuel)) quiet i rb left got ret
      ≡ ((write_by_kernel false rb left).0, got + length left, done (length left))
unfolding receive_loop
round_fits fuel i rb left got ret v pos fits =
    ground (arith, (wrote rb left v).ret, length-drop (length left) left)

-- A round that finds the ring full ends the loop.
round_full :
    (fuel i : ℕ) (rb : Rb) (left : List ℕ) (got : ℕ) (ret : Ret)
    → IsValid rb
    → 0 < length left
    → room rb ≡ 0
    → receive_loop (suc fuel) quiet i rb left got ret
      ≡ ((write_by_kernel false rb left).0, got, done 0)
unfolding receive_loop
round_full fuel i rb left got ret v pos full = ground (arith, (wrote rb left v).ret)

-- A round that stores some of it goes on with the rest.
round_part :
    (fuel i : ℕ) (rb : Rb) (left : List ℕ) (got : ℕ) (ret : Ret)
    → IsValid rb
    → 0 < room rb
    → room rb < length left
    → receive_loop (suc fuel) quiet i rb left got ret
      ≡ receive_loop fuel quiet
          (i + 1)
          (write_by_kernel false rb left).0
          (drop (room rb) left)
          (got + room rb)
          (done (room rb))
unfolding receive_loop
round_part fuel i rb left got ret v pos more = ground (arith, (wrote rb left v).ret)

-- A write into a full ring leaves its bytes as they are.
full_keeps :
    (rb : Rb) (left : List ℕ)
    → IsValid rb
    → room rb ≡ 0
    → contents (write_by_kernel false rb left).0 ≡ contents rb
full_keeps rb left v full =
    (wrote rb left v).bytes_kept
    ∙ ap (λ k. contents rb ++ take k left) full
    ∙ append-nil (contents rb)

-- What `esp_serial_data_received` has done when it returns.
pub record Received (rb : Rb) (bytes : List ℕ) (out : Rb × Ret) : Type 0 where
  pub valid : IsValid out.0
  pub same_size : out.0.size ≡ rb.size
  pub bytes_kept : contents out.0 ≡ contents rb ++ take (room rb) bytes
  pub ret : out.1 ≡ done (if leb (length bytes) (room rb) then length bytes else 0)

-- While a user has the device open and no signal comes, a non-empty packet that fits is stored
-- whole and its length returned; of one that does not fit, the prefix that fits is stored all the
-- same, and 0 is returned.
pub data_received-Received :
    (refs : ℕ) (rb : Rb) (bytes : List ℕ)
    → IsValid rb
    → 0 < refs
    → 0 < length bytes
    → Received rb bytes (data_received quiet refs 0 rb bytes)
unfolding data_received
data_received-Received refs rb bytes v listens pos = elim (dec_le (length bytes) (room rb)) [
  | yes fits ↦
      received (by_fuel (length bytes) pos (λ f. round_fits f 0 rb bytes 0 (done 0) v pos fits))
        (wrote rb bytes v).valid (wrote rb bytes v).same_size (wrote rb bytes v).bytes_kept
        (ground arith)
  | no more ↦ elim (ℕ_discrete (room rb) 0) [
    | yes full ↦
        received (round_full (length bytes) 0 rb bytes 0 (done 0) v pos full)
          (wrote rb bytes v).valid (wrote rb bytes v).same_size (wrote rb bytes v).bytes_kept
          (ground arith)
    | no some_room ↦
        received
          (by_fuel (length bytes) pos (λ f.
            round_part (suc f) 0 rb bytes 0 (done 0) v (omega arith) (omega arith)
            ∙ round_full f (0 + 1) rb' rest (0 + room rb) (done (room rb)) (wrote rb bytes v).valid
                (omega (arith, length-drop (room rb) bytes)) (filled (omega arith))))
          (wrote rb' rest (wrote rb bytes v).valid).valid
          ((wrote rb' rest (wrote rb bytes v).valid).same_size ∙ (wrote rb bytes v).same_size)
          (full_keeps rb' rest (wrote rb bytes v).valid (filled (omega arith))
            ∙ (wrote rb bytes v).bytes_kept)
          (ground arith)
  ]
]
  where
    rb' : Rb
    rb' = (write_by_kernel false rb bytes).0

    rest : List ℕ
    rest = drop (room rb) bytes

    filled : room rb < length bytes → room rb' ≡ 0
    filled h = omega (
      arith,
      ap (λ (t : List ℕ). length t) (wrote rb bytes v).bytes_kept,
      length-append (contents rb) (take (room rb) bytes),
      length-take (room rb) bytes,
      (wrote rb bytes v).same_size,
    )

    by_fuel :
        {out : Rb × ℕ × Ret} (n : ℕ)
        → 0 < n
        → ((f : ℕ) → receive_loop (suc (suc f)) quiet 0 rb bytes 0 (done 0) ≡ out)
        → receive_loop (suc n) quiet 0 rb bytes 0 (done 0) ≡ out
    by_fuel zero h eq = absurd (omega arith)
    by_fuel (suc f) h eq = eq f

    refs_nonzero : (refs == 0) ≡ false
    refs_nonzero = ground arith

    received :
        {out : Rb × ℕ × Ret}
        → receive_loop (suc (length bytes)) quiet 0 rb bytes 0 (done 0) ≡ out
        → IsValid out.0
        → out.0.size ≡ rb.size
        → contents out.0 ≡ contents rb ++ take (room rb) bytes
        → received_ret out.1 out.2 ≡ done (if leb (length bytes) (room rb) then length bytes else 0)
        → Received rb bytes (data_received quiet refs 0 rb bytes)
    received e v' size kept ret =
        rw (e, refs_nonzero) (record { valid = v'; same_size = size; bytes_kept = kept; ret = ret })
