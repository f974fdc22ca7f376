-- ===== src/Serial/Fragments.antt =====
-- What a user writes to the device goes out in fragments, and the coprocessor puts them together.
use esp_hosted.Prelude.{
  ℕ, zero, suc, ◌+◌, ◌-◌, ◌%◌, ◌≤◌, ◌<◌, ◌≡◌, refl, ap, ◌∙◌, Bool, true, false, List, [], ◌∷◌, ◌++◌,
  some, append_assoc, length, length-append, length-take, length-drop, take, drop, take-append-drop,
  take_all, ltb, lt→ltb, ◌==◌, ==_iff, if◌then◌else◌, arith, min,
}
use native.Mathlib.Decide.{dec_le}
use esp_hosted.Errno.{done}
use esp_hosted.Header.{Frame, serial_if, header_size}
use esp_hosted.Serial.{Dev, TxEnv, eth_data_len, max_tx, write_loop, write_dev}
use esp_hosted.Slave.{
  RxData, no_data, process_serial_rx_pkt, store_fragment, rx_frames, serial_read_data,
}

abbrev pub calm : ℕ → TxEnv
calm i = record { is_ready = true; alloc_ok = true; copy_ok = true; send_ok = true }

-- The frame of a fragment.
abbrev frag : ℕ → ℕ → ℕ → List ℕ → Frame
frag flags n seq bytes = record {
  hdr = record {
    if_type = serial_if;
    if_num = 0;
    flags = flags;
    len = n;
    offset = header_size;
    checksum = 0;
    seq_num = seq;
    reserved2 = 0;
    pkt_type = 0;
  };
  payload = bytes;
}

loop_last :
    (fuel i size seq refs : ℕ) (left : List ℕ)
    → length left ≤ eth_data_len
    → write_loop (suc fuel) calm i size seq refs left
      ≡ record { ret = done size; frames = frag 0 (length left) seq left ∷ []; ref_count = refs }
unfolding write_loop
loop_last fuel i size seq refs left h =
    rw (small, nothing_left, fits, take_all (length left) left (omega arith)) refl
  where
    small : ltb eth_data_len (length left) ≡ false
    small = ground arith

    nothing_left : (length left - length left == 0) ≡ true
    nothing_left = ground arith

    fits : length left % 65536 ≡ length left
    fits = omega arith

loop_more :
    (fuel i size seq refs : ℕ) (left : List ℕ)
    → eth_data_len < length left
    → let later = write_loop fuel calm (i + 1) size seq refs (drop eth_data_len left) in
      write_loop (suc fuel) calm i size seq refs left
      ≡ record later { frames = frag 1 eth_data_len seq (take eth_data_len left) ∷ later.frames }
unfolding write_loop
loop_more fuel i size seq refs left h = rw (lt→ltb eth_data_len (length left) h, some_left) refl
  where
    some_left : (length left - eth_data_len == 0) ≡ false
    some_left = ground arith

-- The state in the middle of a message.
abbrev holding : List ℕ → ℕ → RxData
holding acc seq = record { valid = false; cur_seq_no = seq; len = length acc; bytes = acc }

rx_step :
    (acc : List ℕ) (seq flag : ℕ) (bytes : List ℕ)
    → process_serial_rx_pkt true (holding acc seq) (frag flag (length bytes) seq bytes)
      ≡ some (store_fragment true (holding acc seq) (frag flag (length bytes) seq bytes))
unfolding process_serial_rx_pkt
rx_step acc seq flag bytes = rw (if_same, (==_iff seq seq).1 refl) refl
  where
    if_same : (if length acc == 0 then holding acc seq else holding acc seq) ≡ holding acc seq
    if_same = ground arith

store_more :
    (acc : List ℕ) (seq : ℕ) (bytes : List ℕ)
    → store_fragment true (holding acc seq) (frag 1 (length bytes) seq bytes)
      ≡ (holding (acc ++ bytes) seq, false)
unfolding store_fragment
store_more acc seq bytes =
    rw
      (
        take_all (length acc) acc (omega arith),
        take_all (length bytes) bytes (omega arith),
        ← length-append acc bytes,
      )
      refl

store_last :
    (acc : List ℕ) (seq : ℕ) (bytes : List ℕ)
    → store_fragment true (holding acc seq) (frag 0 (length bytes) seq bytes)
      ≡ (record (holding (acc ++ bytes) seq) { valid = true }, true)
unfolding store_fragment
store_last acc seq bytes =
    rw
      (
        take_all (length acc) acc (omega arith),
        take_all (length bytes) bytes (omega arith),
        ← length-append acc bytes,
      )
      refl

rx_frames-cons :
    (r : RxData) (f : Frame) (fs : List Frame) {r' : RxData} {notified : Bool}
    → process_serial_rx_pkt true r f ≡ some (r', notified)
    → rx_frames r (f ∷ fs) ≡ rx_frames r' fs
unfolding rx_frames
rx_frames-cons r f fs e = ground (arith, e)

take_more :
    (acc : List ℕ) (seq : ℕ) (bytes : List ℕ) (fs : List Frame)
    → length bytes ≡ eth_data_len
    → rx_frames (holding acc seq) (frag 1 eth_data_len seq bytes ∷ fs)
      ≡ rx_frames (holding (acc ++ bytes) seq) fs
take_more acc seq bytes fs n = rw (← n) (
    rx_frames-cons (holding acc seq) (frag 1 (length bytes) seq bytes) fs
      (rx_step acc seq 1 bytes ∙ ap some (store_more acc seq bytes)))

take_last :
    (acc : List ℕ) (seq : ℕ) (bytes : List ℕ)
    → rx_frames (holding acc seq) (frag 0 (length bytes) seq bytes ∷ [])
      ≡ some (record (holding (acc ++ bytes) seq) { valid = true })
unfolding rx_frames
take_last acc seq bytes =
    rx_frames-cons (holding acc seq) (frag 0 (length bytes) seq bytes) []
      (rx_step acc seq 0 bytes ∙ ap some (store_last acc seq bytes))

-- What remains of a message is put behind what has arrived.
rest_lem :
    (fuel i size seq refs : ℕ) (acc left : List ℕ)
    → length left < fuel
    → rx_frames (holding acc seq) (write_loop fuel calm i size seq refs left).frames
      ≡ some (record (holding (acc ++ left) seq) { valid = true })
rest_lem zero i size seq refs acc left enough = absurd (omega arith)
rest_lem (suc fuel) i size seq refs acc left enough = elim (dec_le (length left) eth_data_len) [
  | yes h ↦ rw (loop_last fuel i size seq refs left h) (take_last acc seq left)
  | no h ↦ rw (loop_more fuel i size seq refs left (omega arith)) (
      take_more acc seq (take eth_data_len left) _ (omega (arith, length-take eth_data_len left))
      ∙ rest_lem fuel (i + 1) size seq refs (acc ++ take eth_data_len left) (drop eth_data_len left)
          (omega (arith, length-drop eth_data_len left))
      ∙ ap (λ t. some (record (holding t seq) { valid = true }))
          (append_assoc acc (take eth_data_len left) (drop eth_data_len left)
            ∙ ap (λ t. acc ++ t) (take-append-drop eth_data_len left)))
]

ret_lem :
    (fuel i size seq refs : ℕ) (left : List ℕ)
    → length left < fuel
    → ((write_loop fuel calm i size seq refs left).ret ≡ done size)
      × ((write_loop fuel calm i size seq refs left).ref_count ≡ refs)
ret_lem zero i size seq refs left enough = absurd (omega arith)
ret_lem (suc fuel) i size seq refs left enough = elim (dec_le (length left) eth_data_len) [
  | yes h ↦ rw (loop_last fuel i size seq refs left h) (refl, refl)
  | no h ↦ rw (loop_more fuel i size seq refs left (omega arith)) (
      ret_lem fuel (i + 1) size seq refs (drop eth_data_len left)
        (omega (arith, length-drop eth_data_len left)))
]

-- An idle coprocessor takes the sequence number of the first frame.
start_lem :
    (cur seq flag n : ℕ) (bytes : List ℕ) (fs : List Frame)
    → rx_frames (holding [] cur) (frag flag n seq bytes ∷ fs)
      ≡ rx_frames (holding [] seq) (frag flag n seq bytes ∷ fs)
unfolding rx_frames process_serial_rx_pkt
start_lem cur seq flag n bytes fs = refl

message_lem :
    (cur size seq refs : ℕ) (bytes : List ℕ)
    → rx_frames (holding [] cur) (write_loop (suc (length bytes)) calm 0 size seq refs bytes).frames
      ≡ some (record (holding bytes seq) { valid = true })
message_lem cur size seq refs bytes =
    same_start ∙ rest_lem (suc (length bytes)) 0 size seq refs [] bytes (omega arith)
  where
    same_start :
        rx_frames
          (holding [] cur)
          (write_loop (suc (length bytes)) calm 0 size seq refs bytes).frames
        ≡ rx_frames
            (holding [] seq)
            (write_loop (suc (length bytes)) calm 0 size seq refs bytes).frames
    same_start = elim (dec_le (length bytes) eth_data_len) [
      | yes h ↦
          rw (loop_last (length bytes) 0 size seq refs bytes h)
            (start_lem cur seq 0 (length bytes) bytes [])
      | no h ↦
          rw (loop_more (length bytes) 0 size seq refs bytes (omega arith))
            (start_lem cur seq 1 eth_data_len (take eth_data_len bytes) _)
    ]

-- The state of the coprocessor that has received a message.
abbrev pub received : ℕ → List ℕ → RxData
received seq bytes = record { valid = true; cur_seq_no = seq; len = length bytes; bytes = bytes }

-- While the slave is ready and nothing fails below, a write of at most 8172 bytes is accepted whole,
-- with the next sequence number; an idle coprocessor that gets its memory puts the frames together
-- to exactly these bytes, and the reader that asks for as many gets them and leaves it idle.
pub write_dev-received :
    (d : Dev) (cur : ℕ) (bytes : List ℕ)
    → d.priv ≡ true
    → length bytes ≤ max_tx
    → let seq = (d.seq_num + 1) % 65536 in
      let (d', ret, frames) = write_dev calm d bytes in
      (ret ≡ done (length bytes))
      × (d' ≡ record d { seq_num = seq })
      × (rx_frames (record no_data { cur_seq_no = cur }) frames ≡ some (received seq bytes))
      × (serial_read_data (received seq bytes) (length bytes) ≡ (no_data, bytes, length bytes))
unfolding write_dev serial_read_data
write_dev-received d cur bytes p fits =
    let seq = (d.seq_num + 1) % 65536 in
    let (ret, refs) =
      ret_lem (suc (length bytes)) 0 (length bytes) seq d.ref_count bytes (omega arith) in
    rw (small, p)
      (
        ret,
        ap (λ k. record d { seq_num = seq; ref_count = k; priv = true }) refs,
        message_lem cur (length bytes) seq d.ref_count bytes,
        rw (same_len, take_all (length bytes) bytes (omega arith)) refl,
      )
  where
    small : ltb max_tx (length bytes) ≡ false
    small = ground arith

    same_len : min (length bytes) (length bytes) ≡ length bytes
    same_len = omega arith
