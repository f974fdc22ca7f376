-- ===== src/Reasm/Mismatch.antt =====
-- What the reassembly of the Linux host, main.c, makes of a message of which a frame is lost.
use native.Mathlib.Decide.{dec_le}
use esp_hosted.Prelude.{
  ℕ, zero, suc, ◌+◌, ◌-◌, ◌%◌, ◌≤◌, ◌<◌, ◌≡◌, ◌≢◌, refl, ap, ◌∙◌, true, false, List, [], ◌∷◌, map,
  length, length-take, length-drop, take, drop, take_all, take-append-drop, arith,
}
use esp_hosted.Header.{Frame, body, has_more}
use esp_hosted.Slave.{eth_data_len, write_frags, frame_of, serial_write_data}
use esp_hosted.Slave.Fragments.{all_taken, frags_last, frags_more}
use esp_hosted.Reasm.{
  Reasm, stored, delivered, max_len, reset, reasm_frame, reasm_frames, append_fragment,
}
use esp_hosted.Reasm.RoundTrip.{holding, frag, frame_more, frame_last, first_lem, rest_lem}

-- A last fragment out of order is handed on as if it were the message.
tail_alone :
    (st : Reasm) (f : Frame)
    → st.active ≡ true
    → has_more f.hdr.flags ≡ false
    → f.hdr.seq_num ≢ (st.last_seq + 1) % 65536
    → f.hdr.len ≤ max_len
    → reasm_frame true st f ≡ (reset, delivered (body f))
unfolding reasm_frame
tail_alone st f a m ne h = ground arith

-- A further fragment out of order starts a new message in its place.
restart :
    (st : Reasm) (f : Frame)
    → st.active ≡ true
    → has_more f.hdr.flags ≡ true
    → f.hdr.seq_num ≢ (st.last_seq + 1) % 65536
    → f.hdr.len ≤ max_len
    → reasm_frame true st f ≡ (append_fragment reset f, stored)
unfolding reasm_frame
restart st f a m ne h = ground arith

restart_frag :
    (acc bytes : List ℕ) (s seq : ℕ)
    → length bytes ≡ eth_data_len
    → seq ≢ (s + 1) % 65536
    → reasm_frame true (holding acc s) (frag 1 eth_data_len seq bytes) ≡ (holding bytes seq, stored)
unfolding append_fragment reset
restart_frag acc bytes s seq n ne =
    restart (holding acc s) (frag 1 eth_data_len seq bytes) refl refl ne (omega arith)
    ∙ rw (take_all eth_data_len bytes (omega (arith, n)), n) refl

-- The fragments that follow a gap.
gap_lem :
    (fuel i s seq : ℕ) (acc left : List ℕ)
    → length left < fuel
    → length left ≤ max_len
    → (seq + 1) % 65536 ≢ (s + 1) % 65536
    → reasm_frames (holding acc s) (map frame_of (write_frags fuel all_taken i seq left).1)
      ≡ (reset, left ∷ [])
unfolding reasm_frames
gap_lem zero i s seq acc left enough fits ne = absurd (omega (arith, enough))
gap_lem (suc fuel) i s seq acc left enough fits ne = elim (dec_le (length left) eth_data_len) [
  | yes h ↦
      rw
        (
          frags_last fuel i seq left h,
          frame_last ((seq + 1) % 65536) left h,
          tail_alone (holding acc s) (frag 0 (length left) ((seq + 1) % 65536) left) refl refl ne
              fits,
          take_all (length left) left (omega arith),
        )
        refl
  | no h ↦
      rw
        (
          frags_more fuel i seq left (omega (arith, h)),
          frame_more ((seq + 1) % 65536) left (omega (arith, h)),
          restarted (omega (arith, h)),
          rest_lem fuel (i + 1) (take eth_data_len left) ((seq + 1) % 65536)
              (drop eth_data_len left) (omega (arith, enough, h, length-drop eth_data_len left))
              (omega (arith, fits, length-take eth_data_len left, length-drop eth_data_len left)),
          take-append-drop eth_data_len left,
        )
        refl
]
  where
    restarted :
        eth_data_len < length left
        → reasm_frame true
            (holding acc s)
            (frag 1 eth_data_len ((seq + 1) % 65536) (take eth_data_len left))
          ≡ (holding (take eth_data_len left) ((seq + 1) % 65536), stored)
    restarted h =
        restart_frag acc (take eth_data_len left) s ((seq + 1) % 65536)
          (omega (arith, h, length-take eth_data_len left)) ne

-- The frames without the second one.
abbrev pub without_second : List Frame → List Frame
without_second [] = []
without_second (f ∷ []) = f ∷ []
without_second (f ∷ g ∷ fs) = f ∷ fs

lost_lem :
    (fuel seq : ℕ) (bytes : List ℕ)
    → length bytes ≤ suc fuel
    → 3000 < length bytes
    → length bytes ≤ max_len
    → reasm_frames reset
        (without_second (map frame_of (write_frags (suc (suc fuel)) all_taken 0 seq bytes).1))
      ≡ (reset, drop eth_data_len (drop eth_data_len bytes) ∷ [])
unfolding reasm_frames
lost_lem fuel seq bytes enough lo hi =
    rw
      (
        frags_more (suc fuel) 0 seq bytes (omega (arith, lo)),
        frags_more fuel (0 + 1) ((seq + 1) % 65536) (drop eth_data_len bytes)
            (omega (arith, lo, length-drop eth_data_len bytes)),
        frame_more ((seq + 1) % 65536) bytes (omega (arith, lo)),
        first_lem ((seq + 1) % 65536) (take eth_data_len bytes)
            (omega (arith, lo, length-take eth_data_len bytes)),
        gap_lem fuel (0 + 1 + 1) ((seq + 1) % 65536) (((seq + 1) % 65536 + 1) % 65536)
            (take eth_data_len bytes) (drop eth_data_len (drop eth_data_len bytes))
            (omega (
              arith,
              enough,
              lo,
              length-drop eth_data_len bytes,
              length-drop eth_data_len (drop eth_data_len bytes),
            ))
            (omega (
              arith,
              hi,
              length-drop eth_data_len bytes,
              length-drop eth_data_len (drop eth_data_len bytes),
            ))
            (λ e. omega (arith, e)),
      )
      refl

-- When the second frame of a message of 3001 to 12288 bytes is lost on the way from the coprocessor,
-- an idle Linux host that gets its memory hands on what follows it, without the first 3000 bytes, as
-- if it were a whole message, and is idle again.
pub second_frame_lost :
    (seq : ℕ) (bytes : List ℕ)
    → 3000 < length bytes
    → length bytes ≤ max_len
    → reasm_frames reset (without_second (map frame_of (serial_write_data all_taken seq bytes).1))
      ≡ (reset, drop eth_data_len (drop eth_data_len bytes) ∷ [])
unfolding serial_write_data
second_frame_lost seq bytes lo hi =
    ap
      (λ n.
        reasm_frames reset
          (without_second (map frame_of (write_frags (suc n) all_taken 0 seq bytes).1)))
      (omega (arith, lo))
    ∙ lost_lem (length bytes - 1) seq bytes (omega (arith, lo)) lo hi
