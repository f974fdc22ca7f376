-- ===== src/Slave.antt =====
-- esp_hosted_fg/esp/esp_driver/network_adapter/main/esp_hosted_coprocessor.c: the serial channel of
-- the coprocessor. Whether `realloc` succeeds and whether the transport takes a buffer is input.
pub mod Fragments
pub mod Mismatch
use esp_hosted.Prelude.{
  ℕ, zero, suc, ◌+◌, ◌-◌, ◌%◌, Bool, true, false, not, List, [], ◌∷◌, ◌++◌, Option, none, some, min,
  length, take, drop, ltb, ◌==◌, if◌then◌else◌,
}
use esp_hosted.Header.{Header, Frame, body, has_more, header_size, serial_if, more_fragment}

-- `static struct rx_data r`; `data` is empty when the pointer is null.
pub record RxData : Type 0 where
  pub valid : Bool
  pub cur_seq_no : ℕ
  pub len : ℕ
  pub bytes : List ℕ

abbrev pub no_data : RxData
no_data = record { valid = false; cur_seq_no = 0; len = 0; bytes = [] }

-- From `realloc` on. The result says whether the request handler is notified.
unfoldable pub store_fragment : Bool → RxData → Frame → RxData × Bool
store_fragment ok r f =
    let r' = record r {
      valid = not (has_more f.hdr.flags);
      len = r.len + f.hdr.len;
      bytes = take r.len r.bytes ++ body f;
    } in
    if ok
    then (r', not (has_more f.hdr.flags))
    else (record r { bytes = []; len = 0; cur_seq_no = 0 }, false)

-- `process_serial_rx_pkt`. While a complete message waits to be read the function sleeps, which is
-- `none`.
unfoldable pub process_serial_rx_pkt : Bool → RxData → Frame → Option (RxData × Bool)
unfolding store_fragment
process_serial_rx_pkt ok r f =
    let r' = if r.len == 0 then record r { cur_seq_no = f.hdr.seq_num } else r in
    if r.valid
    then none
    else if f.hdr.seq_num == r'.cur_seq_no
    then some (store_fragment ok r' f)
    else some (record r' { valid = true }, true)

-- `serial_read_data`: the new state, the bytes copied out, and the returned length.
unfoldable pub serial_read_data : RxData → ℕ → RxData × List ℕ × ℕ
serial_read_data r len =
    let n = min len r.len in if r.valid then (no_data, take n r.bytes, n) else (r, [], n)

-- `interface_buffer_handle_t`, as `serial_write_data` fills it in.
pub record Handle : Type 0 where
  pub if_type : ℕ
  pub if_num : ℕ
  pub flag : ℕ
  pub seq_num : ℕ
  pub payload : List ℕ

abbrev pub eth_data_len : ℕ
eth_data_len = 1500

abbrev pub frag_handle : ℕ → List ℕ → Handle
frag_handle seq left = record {
  if_type = serial_if;
  if_num = 0;
  flag = if ltb eth_data_len (length left) then more_fragment else 0;
  seq_num = seq;
  payload = if ltb eth_data_len (length left) then take eth_data_len left else left;
}

-- The loop of `serial_write_data`; `ok i` says that the transport takes the i-th buffer. The
-- result holds ESP_OK or ESP_FAIL, the buffers that were taken, and the static sequence number.
unfoldable pub write_frags : ℕ → (ℕ → Bool) → ℕ → ℕ → List ℕ → Bool × List Handle × ℕ
write_frags zero ok i seq left = (true, [], seq)
write_frags (suc fuel) ok i seq left =
    let seq' = (seq + 1) % 65536 in
    let h = frag_handle seq' left in
    let later = write_frags fuel ok (i + 1) seq' (drop (length h.payload) left) in
    let sent : Bool × List Handle × ℕ =
      if length left - length h.payload == 0
      then (true, h ∷ [], seq')
      else (later.0, h ∷ later.1, later.2) in
    if ok i then sent else (false, [], seq')

-- `serial_write_data`. Each round sends a byte at least, or is the last one.
unfoldable pub serial_write_data : (ℕ → Bool) → ℕ → List ℕ → Bool × List Handle × ℕ
serial_write_data ok seq bytes = write_frags (suc (length bytes)) ok 0 seq bytes

-- The header that `esp_spi_write` puts in front of a buffer, but for its checksum.
unfoldable pub tx_header : Handle → Header
tx_header h = record {
  if_type = h.if_type;
  if_num = h.if_num;
  flags = h.flag;
  len = length h.payload % 65536;
  offset = header_size;
  checksum = 0;
  seq_num = h.seq_num;
  reserved2 = 0;
  pkt_type = 0;
}

abbrev pub frame_of : Handle → Frame
frame_of h = record { hdr = tx_header h; payload = h.payload }

-- A sequence of frames with nobody reading in between; `none` if the function sleeps for ever.
unfoldable pub rx_frames : RxData → List Frame → Option RxData
rx_frames r [] = some r
rx_frames r (f ∷ fs) = elim (process_serial_rx_pkt true r f) [
  | none ↦ none
  | some (r', notified) ↦ rx_frames r' fs
]
