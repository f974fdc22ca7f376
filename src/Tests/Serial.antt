-- ===== src/Tests/Serial.antt =====
-- The serial device of the Linux host, on the ring of four bytes.
use esp_hosted.Prelude.{
  replicate, drop, ℕ, ◌≡◌, refl, true, [], ◌∷◌, ◌++◌, none, some, take, map, arith, inl,
}
use esp_hosted.Errno.{done}
use esp_hosted.Header.{Frame}
use esp_hosted.Ring.{Rb}
use esp_hosted.Ring.Segments.{IsValid, contents}
use esp_hosted.Serial.{Dev, data_received, pass_loop, write_dev}
use esp_hosted.Serial.Receive.{Received, quiet, room, data_received-Received}
use esp_hosted.Serial.Fragments.{calm, received, write_dev-received}
use esp_hosted.Serial.Deliver.{nobody, never_ends, prefix_twice}
use esp_hosted.Slave.{
  eth_data_len, no_data, rx_frames, serial_read_data, serial_write_data, frame_of,
}
use esp_hosted.Slave.Fragments.{all_taken}
use esp_hosted.Reasm.{Reasm, reset, reasm_frame, reasm_frames}
use esp_hosted.Reasm.Bounds
use esp_hosted.Reasm.Bounds.{reasm_frame-IsValid, reasm_frame-delivered}
use esp_hosted.Reasm.RoundTrip.{reasm_frames-serial_write_data}
use esp_hosted.Reasm.Mismatch.{without_second, second_frame_lost}
use esp_hosted.Tests.Ring.{around, around-IsValid}

abbrev device : Dev
device = record { rb = around; ref_count = 1; seq_num = 65535; priv = true }

write_dev-received_example :
    let (d', ret, frames) = write_dev calm device (1 ∷ 2 ∷ 3 ∷ []) in
    (ret ≡ done 3)
    × (d' ≡ record device { seq_num = 0 })
    × (rx_frames (record no_data { cur_seq_no = 9 }) frames ≡ some (received 0 (1 ∷ 2 ∷ 3 ∷ [])))
    × (serial_read_data (received 0 (1 ∷ 2 ∷ 3 ∷ [])) 3 ≡ (no_data, 1 ∷ 2 ∷ 3 ∷ [], 3))
write_dev-received_example = write_dev-received device 9 (1 ∷ 2 ∷ 3 ∷ []) refl (omega arith)

data_received-Received_example :
    Received around (7 ∷ 8 ∷ []) (data_received quiet 1 0 around (7 ∷ 8 ∷ []))
data_received-Received_example =
    data_received-Received 1 around (7 ∷ 8 ∷ []) around-IsValid (omega arith) (omega arith)

never_ends_example : pass_loop 5 quiet nobody 0 1 0 around (7 ∷ 8 ∷ []) 0 ≡ none
never_ends_example =
    never_ends 5 0 1 around (7 ∷ 8 ∷ []) around-IsValid (omega arith) (ground arith)

abbrev emptied : Rb
emptied = record { buf = 10 ∷ 7 ∷ 30 ∷ 40 ∷ []; size = 4; rp = 2; wp = 2 }

emptied-IsValid : IsValid emptied
emptied-IsValid = record {
  storage = refl;
  small = omega arith;
  rp_in = omega arith;
  wp_in = omega arith;
}

-- The reader empties the ring after the first attempt.
abbrev empties : ℕ → Rb → Rb
empties i rb = emptied

prefix_twice_example :
    (contents (data_received quiet 1 0 around (7 ∷ 8 ∷ [])).0
      ≡ contents around ++ take (room around) (7 ∷ 8 ∷ []))
    × (pass_loop 4 quiet empties 0 1 0 around (7 ∷ 8 ∷ []) 0
        ≡ some ((data_received quiet 1 0 emptied (7 ∷ 8 ∷ [])).0, true))
    × (contents (data_received quiet 1 0 emptied (7 ∷ 8 ∷ [])).0 ≡ 7 ∷ 8 ∷ [])
prefix_twice_example =
    prefix_twice 1 around emptied (7 ∷ 8 ∷ []) empties 2 around-IsValid (omega arith) (ground arith)
      refl emptied-IsValid refl (omega arith)

-- A device in the middle of a message, and the last fragment of another.
abbrev half : Reasm
half = record { buf = some (1 ∷ 2 ∷ []); len = 2; last_seq = 4; active = true }

abbrev half-IsValid : Bounds.IsValid half
half-IsValid = record { exact = refl; bounded = omega arith; idle = inl refl }

abbrev last_frame : ℕ → Frame
last_frame seq = record {
  hdr = record {
    if_type = 2;
    if_num = 0;
    flags = 0;
    len = 1;
    offset = 12;
    checksum = 0;
    seq_num = seq;
    reserved2 = 0;
    pkt_type = 0;
  };
  payload = 3 ∷ 0 ∷ [];
}

reasm_frame-IsValid_example : Bounds.IsValid (reasm_frame true half (last_frame 5)).0
reasm_frame-IsValid_example =
    reasm_frame-IsValid true half (last_frame 5) half-IsValid (omega arith)

-- Two whole fragments and one of 100 bytes
second_frame_lost_example :
    reasm_frames reset
      (without_second (map frame_of (serial_write_data all_taken 65534 (replicate 3100 7)).1))
    ≡ (reset, drop eth_data_len (drop eth_data_len (replicate 3100 7)) ∷ [])
second_frame_lost_example = second_frame_lost 65534 (replicate 3100 7) (omega arith) (omega arith)

reasm_frames-serial_write_data_example :
    reasm_frames reset (map frame_of (serial_write_data all_taken 65535 (1 ∷ 2 ∷ [])).1)
    ≡ (reset, (1 ∷ 2 ∷ []) ∷ [])
reasm_frames-serial_write_data_example =
    reasm_frames-serial_write_data 65535 (1 ∷ 2 ∷ []) (omega arith)
