-- ===== src/Reasm/RoundTrip.antt =====
-- The coprocessor cuts a message into fragments, and the Linux host puts it together again.
use esp_hosted.Prelude.{
  ℕ, zero, suc, ◌+◌, ◌%◌, ◌≤◌, ◌<◌, ◌≡◌, refl, true, false, List, [], ◌∷◌, ◌++◌, some, map,
  append_assoc, length, length-append, length-take, length-drop, take, drop, take-append-drop,
  take_all, lt→ltb, ==_iff, arith, ltb,
}
use native.Mathlib.Decide.{dec_le}
use esp_hosted.Header.{Frame, serial_if, header_size}
use esp_hosted.Reasm.{Reasm, stored, delivered, max_len, reset, reasm_frame, reasm_frames, passed}
use esp_hosted.Slave.Fragments.{all_taken, frags_last, frags_more}
use esp_hosted.Slave.{
  eth_data_len, frag_handle, write_frags, tx_header, frame_of, serial_write_data,
}

-- The state in the middle of a message.
abbrev pub holding : List ℕ → ℕ → Reasm
holding acc seq = record { buf = some acc; len = length acc; last_seq = seq; active = true }

-- The frame of a fragment.
abbrev pub frag : ℕ → ℕ → ℕ → List ℕ → Frame
frag flags n seq bytes = record {
  hdr = record {
    if_type = serial_if;
    if_num = 0;
    flags = flags;
    len = n;
    offset = header_size;
    checksum = 0;
    seq_num = seq;
    reserved2 = 0;
    pkt_type = 0;
  };
  payload = bytes;
}

pub frame_more :
    (seq : ℕ) (left : List ℕ)
    → eth_data_len < length left
    → frame_of (frag_handle seq left) ≡ frag 1 eth_data_len seq (take eth_data_len left)
unfolding tx_header
frame_more seq left h = rw (lt→ltb eth_data_len (length left) h, first) refl
  where
    first : length (take eth_data_len left) ≡ eth_data_len
    first = omega (arith, length-take eth_data_len left)

pub frame_last :
    (seq : ℕ) (left : List ℕ)
    → length left ≤ eth_data_len
    → frame_of (frag_handle seq left) ≡ frag 0 (length left) seq left
unfolding tx_header
frame_last seq left h = rw (small, fits) refl
  where
    small : ltb eth_data_len (length left) ≡ false
    small = ground arith

    fits : length left % 65536 ≡ length left
    fits = omega arith

-- One fragment that is not the last.
step_more :
    (acc : List ℕ) (seq : ℕ) (bytes : List ℕ)
    → length bytes ≡ eth_data_len
    → length acc + eth_data_len ≤ max_len
    → reasm_frame true (holding acc seq) (frag 1 eth_data_len ((seq + 1) % 65536) bytes)
      ≡ (holding (acc ++ bytes) ((seq + 1) % 65536), stored)
unfolding reasm_frame
step_more acc seq bytes n fits =
    rw
      (
        (==_iff ((seq + 1) % 65536) ((seq + 1) % 65536)).1 refl,
        small,
        take_all (length acc) acc (omega arith),
        take_all eth_data_len bytes (omega arith),
        sum_length,
      )
      refl
  where
    small : ltb max_len (length acc + eth_data_len) ≡ false
    small = ground arith

    sum_length : length (acc ++ bytes) ≡ length acc + eth_data_len
    sum_length = omega (arith, length-append acc bytes)

-- The last fragment.
step_last :
    (acc : List ℕ) (seq : ℕ) (left : List ℕ)
    → length acc + length left ≤ max_len
    → reasm_frame true (holding acc seq) (frag 0 (length left) ((seq + 1) % 65536) left)
      ≡ (reset, delivered (acc ++ left))
unfolding reasm_frame
step_last acc seq left fits = ground (arith, take_all (length acc) acc, take_all (length left) left)

-- Everything that follows the first fragment.
pub rest_lem :
    (fuel i : ℕ) (acc : List ℕ) (seq : ℕ) (left : List ℕ)
    → length left < fuel
    → length acc + length left ≤ max_len
    → reasm_frames (holding acc seq) (map frame_of (write_frags fuel all_taken i seq left).1)
      ≡ (reset, (acc ++ left) ∷ [])
unfolding reasm_frames
rest_lem zero i acc seq left enough fits = absurd (omega arith)
rest_lem (suc fuel) i acc seq left enough fits = elim (dec_le (length left) eth_data_len) [
  | yes h ↦
      rw
        (
          frags_last fuel i seq left h,
          frame_last ((seq + 1) % 65536) left h,
          step_last acc seq left fits,
        )
        refl
  | no h ↦
      rw
        (
          frags_more fuel i seq left (omega arith),
          frame_more ((seq + 1) % 65536) left (omega arith),
          step_more acc seq (take eth_data_len left) (omega (arith, length-take eth_data_len left))
              (omega arith),
          rest_lem fuel (i + 1) (acc ++ take eth_data_len left) ((seq + 1) % 65536)
              (drop eth_data_len left) (omega (arith, length-drop eth_data_len left))
              (omega (
                arith,
                length-append acc (take eth_data_len left),
                length-take eth_data_len left,
                length-drop eth_data_len left,
              )),
          append_assoc acc (take eth_data_len left) (drop eth_data_len left),
          take-append-drop eth_data_len left,
        )
        refl
]

-- The first of several fragments, at an idle device.
pub first_lem :
    (seq : ℕ) (bytes : List ℕ)
    → length bytes ≡ eth_data_len
    → reasm_frame true reset (frag 1 eth_data_len seq bytes) ≡ (holding bytes seq, stored)
unfolding reasm_frame reset
first_lem seq bytes n = rw (take_all eth_data_len bytes (omega arith), n) refl

-- A message in one frame does not go through the buffer.
single_lem :
    (seq : ℕ) (bytes : List ℕ)
    → reasm_frame true reset (frag 0 (length bytes) seq bytes) ≡ (reset, passed bytes)
unfolding reasm_frame reset
single_lem seq bytes = rw (take_all (length bytes) bytes (omega arith)) refl

-- Whatever the coprocessor sends as one serial message of at most 12288 bytes, in as many frames
-- as it takes and from any sequence number, an idle Linux host that gets its memory hands on as
-- that message, once and in one piece, and is idle again.
pub reasm_frames-serial_write_data :
    (seq : ℕ) (bytes : List ℕ)
    → length bytes ≤ max_len
    → reasm_frames reset (map frame_of (serial_write_data all_taken seq bytes).1)
      ≡ (reset, bytes ∷ [])
unfolding reasm_frames serial_write_data
reasm_frames-serial_write_data seq bytes fits = elim (dec_le (length bytes) eth_data_len) [
  | yes h ↦
      rw
        (
          frags_last (length bytes) 0 seq bytes h,
          frame_last ((seq + 1) % 65536) bytes h,
          single_lem ((seq + 1) % 65536) bytes,
        )
        refl
  | no h ↦
      rw
        (
          frags_more (length bytes) 0 seq bytes (omega arith),
          frame_more ((seq + 1) % 65536) bytes (omega arith),
          first_lem ((seq + 1) % 65536) (take eth_data_len bytes)
              (omega (arith, length-take eth_data_len bytes)),
          rest_lem (length bytes) (0 + 1) (take eth_data_len bytes) ((seq + 1) % 65536)
              (drop eth_data_len bytes) (omega (arith, length-drop eth_data_len bytes))
              (omega (arith, length-take eth_data_len bytes, length-drop eth_data_len bytes)),
          take-append-drop eth_data_len bytes,
        )
        refl
]
