-- ===== src/Slave/Mismatch.antt =====
-- What the coprocessor does with a fragment of another message, and while a message waits.
use esp_hosted.Prelude.{◌≡◌, ◌≢◌, Bool, true, false, none, some, arith, ◌<◌}
use esp_hosted.Header.{Frame}
use esp_hosted.Slave.{RxData, process_serial_rx_pkt}

-- A fragment with another sequence number than the message that is being put together is dropped,
-- and the part that is there is handed to the request handler as if it were complete.
foreign_fragment :
    (ok : Bool) (r : RxData) (f : Frame)
    → r.valid ≡ false
    → 0 < r.len
    → f.hdr.seq_num ≢ r.cur_seq_no
    → process_serial_rx_pkt ok r f ≡ some (record r { valid = true }, true)
unfolding process_serial_rx_pkt
foreign_fragment ok r f v n ne = ground arith

-- No frame is taken before the message that waits has been read.
pub waits :
    (ok : Bool) (r : RxData) (f : Frame) → r.valid ≡ true → process_serial_rx_pkt ok r f ≡ none
unfolding process_serial_rx_pkt
waits ok r f v = ground arith
