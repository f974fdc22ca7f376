-- ===== src/Serial/Deliver.antt =====
-- The receiver's loop around `esp_serial_data_received`, when the ring has no room for a packet.
use esp_hosted.Prelude.{
  ℕ, zero, suc, ◌+◌, ◌≤◌, ◌<◌, ◌≡◌, refl, ap, ◌∙◌, true, false, List, [], ◌++◌, none, some, length,
  length-append, length-take, take, take_all, leb, if◌then◌else◌, arith,
}
use esp_hosted.Errno.{done}
use esp_hosted.Ring.{Rb}
use esp_hosted.Ring.Segments.{IsValid, contents}
use esp_hosted.Serial.{data_received, pass_loop}
use esp_hosted.Serial.Receive.{room, quiet, Received, data_received-Received}

module _ (refs : ℕ) (rb : Rb) (bytes : List ℕ) (v : IsValid rb) (listens : 0 < refs)
    (pos : 0 < length bytes) where
  full_ret : room rb < length bytes → (data_received quiet refs 0 rb bytes).1 ≡ done 0
  full_ret h =
      (data_received-Received refs rb bytes v listens pos).ret
      ∙ ap (λ b. done (if b then length bytes else 0)) small
    where
      small : leb (length bytes) (room rb) ≡ false
      small = ground arith

  fits_ret : length bytes ≤ room rb → (data_received quiet refs 0 rb bytes).1 ≡ done (length bytes)
  fits_ret h =
      (data_received-Received refs rb bytes v listens pos).ret
      ∙ ap (λ b. done (if b then length bytes else 0)) big
    where
      big : leb (length bytes) (room rb) ≡ true
      big = ground arith

  -- A round that finds too little room starts over with the whole packet.
  round_again :
      (fuel i : ℕ) (others : ℕ → Rb → Rb)
      → room rb < length bytes
      → pass_loop (suc fuel) quiet others i refs 0 rb bytes 0
        ≡ pass_loop fuel quiet others
            (i + 1)
            refs
            0
            (others i (data_received quiet refs 0 rb bytes).0)
            bytes
            (0 + 0)
  unfolding pass_loop
  round_again fuel i others h = ground (arith, full_ret h)

  round_fits :
      (fuel i : ℕ) (others : ℕ → Rb → Rb)
      → length bytes ≤ room rb
      → pass_loop (suc fuel) quiet others i refs 0 rb bytes 0
        ≡ some ((data_received quiet refs 0 rb bytes).0, true)
  unfolding pass_loop
  round_fits fuel i others h = ground (arith, fits_ret h)

abbrev pub nobody : ℕ → Rb → Rb
nobody i rb = rb

-- As long as nobody reads, a packet that does not fit the free space keeps the receiver in its
-- loop, for however many rounds.
pub never_ends :
    (fuel i refs : ℕ) (rb : Rb) (bytes : List ℕ)
    → IsValid rb
    → 0 < refs
    → room rb < length bytes
    → pass_loop fuel quiet nobody i refs 0 rb bytes 0 ≡ none
unfolding pass_loop
never_ends zero i refs rb bytes v listens h = refl
never_ends (suc fuel) i refs rb bytes v listens h =
    round_again refs rb bytes v listens (omega arith) fuel i nobody h
    ∙ never_ends fuel (i + 1) refs rb' bytes r.valid listens still
  where
    r : Received rb bytes (data_received quiet refs 0 rb bytes)
    r = data_received-Received refs rb bytes v listens (omega arith)

    rb' : Rb
    rb' = (data_received quiet refs 0 rb bytes).0

    still : room rb' < length bytes
    still = omega (
      arith,
      ap (λ (t : List ℕ). length t) r.bytes_kept,
      length-append (contents rb) (take (room rb) bytes),
      length-take (room rb) bytes,
      r.same_size,
    )

-- A packet that does not fit is stored twice in part: the prefix that fits stays in the ring, and
-- once the reader has emptied a ring that can hold the packet, the whole packet follows. The reader
-- sees the old bytes, that prefix, and then the packet from its start.
pub prefix_twice :
    (refs : ℕ) (rb rb₂ : Rb) (bytes : List ℕ) (others : ℕ → Rb → Rb) (fuel : ℕ)
    → IsValid rb
    → 0 < refs
    → room rb < length bytes
    → others 0 (data_received quiet refs 0 rb bytes).0 ≡ rb₂
    → IsValid rb₂
    → contents rb₂ ≡ []
    → length bytes < rb₂.size
    → (contents (data_received quiet refs 0 rb bytes).0 ≡ contents rb ++ take (room rb) bytes)
      × (pass_loop (suc (suc fuel)) quiet others 0 refs 0 rb bytes 0
          ≡ some ((data_received quiet refs 0 rb₂ bytes).0, true))
      × (contents (data_received quiet refs 0 rb₂ bytes).0 ≡ bytes)
prefix_twice refs rb rb₂ bytes others fuel v listens h e v₂ drained big = (
  (data_received-Received refs rb bytes v listens (omega arith)).bytes_kept,
  round_again refs rb bytes v listens (omega arith) (suc fuel) 0 others h
      ∙ ap (λ s. pass_loop (suc fuel) quiet others (0 + 1) refs 0 s bytes (0 + 0)) e
      ∙ round_fits refs rb₂ bytes v₂ listens (omega arith) fuel (0 + 1) others fits,
  (data_received-Received refs rb₂ bytes v₂ listens (omega arith)).bytes_kept
      ∙ ap (λ t. t ++ take (room rb₂) bytes) drained
      ∙ take_all (room rb₂) bytes fits,
)
  where
    fits : length bytes ≤ room rb₂
    fits = omega (arith, ap (λ (t : List ℕ). length t) drained)
