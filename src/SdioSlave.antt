-- ===== src/SdioSlave.antt =====
-- esp_hosted_fg/esp/esp_driver/network_adapter/main/sdio_slave_api.c, built for TX_MODE_SW_AGGR and
-- without SDIO_TX_DEBUG: how the coprocessor packs buffers into aggregates, and how it takes the
-- blocks of the host apart. `sdio_rx_buf_size`, the option CONFIG_ESP_SDIO_CHECKSUM and what the
-- SDIO driver of ESP-IDF answers are input.
pub mod Pack
pub mod Read
use esp_hosted.Prelude.{
  ℕ, ◌+◌, ◌-◌, ◌*◌, ◌/◌, ◌%◌, Bool, true, false, not, List, [], ◌∷◌, ◌++◌, Option, none, some,
  length, take, drop, replicate, ltb, leb, ◌==◌, ◌&&◌, ◌||◌, if◌then◌else◌,
}
use esp_hosted.Header.{Header, header_size, put_header, get_header, compute_checksum}
use esp_hosted.Lanes.{Lanes, enqueue}
use esp_hosted.Slave.{Handle}
use esp_hosted.SpiSlave.{clear_checksum}

-- `(n + 3) & ~3`
abbrev pub align4 : ℕ → ℕ
align4 n = (n + 3) / 4 * 4

abbrev pub sdio_header : Handle → Header
sdio_header h = record {
  if_type = h.if_type;
  if_num = h.if_num;
  flags = h.flag;
  len = length h.payload;
  offset = header_size;
  checksum = 0;
  seq_num = h.seq_num;
  reserved2 = 0;
  pkt_type = 0;
}

-- The header with its checksum, which is computed while its own field is zero.
unfoldable pub frame_header : Bool → Handle → Header
frame_header sdio_checksum h =
    if sdio_checksum
    then record (sdio_header h) {
      checksum = compute_checksum (put_header (sdio_header h) h.payload);
    }
    else sdio_header h

-- Zeros up to a multiple of four bytes.
abbrev pub pad4 : List ℕ → List ℕ
pad4 frame = frame ++ replicate (align4 (length frame) - length frame) 0

-- `build_frame`: the bytes that it writes at `dst`; the length it returns is theirs.
unfoldable pub build_frame : Bool → Handle → List ℕ
unfolding frame_header
build_frame sdio_checksum h = pad4 (put_header (frame_header sdio_checksum h) h.payload)

-- SDIO_TX_LATENCY_BYPASS_SIZE
abbrev tx_latency_bypass_size : ℕ
tx_latency_bypass_size = 256

module _ (rx_buf_size : ℕ) (sdio_checksum : Bool) where
  -- A null payload is refused as an empty one is.
  unfoldable pub is_invalid_tx : Handle → Bool
  is_invalid_tx h = length h.payload == 0 || ltb rx_buf_size (length h.payload + header_size)

  -- Whether a frame is left for the next aggregate, behind `aggr_len` bytes.
  unfoldable pub starts_next : ℕ → Handle → Bool
  starts_next aggr_len h =
      not (aggr_len == 0)
      && (leb (length h.payload) tx_latency_bypass_size
          || ltb rx_buf_size (aggr_len + align4 (length h.payload + header_size)))

  -- The loop of `process_tx_queue`: the bytes of the aggregate, and the buffers that stay queued.
  -- `queued` never exceeds what the queue holds, since `send_task` alone takes from it: the loop
  -- runs while the queue holds something, and the list is what it will find.
  unfoldable pub pack : List ℕ → List Handle → List ℕ × List Handle
  unfolding is_invalid_tx starts_next build_frame
  pack aggr [] = (aggr, [])
  pack aggr (h ∷ q) =
      let skipped = pack aggr q in
      let aggr' : List ℕ = aggr ++ build_frame sdio_checksum h in
      let packed = pack aggr' q in
      if is_invalid_tx h
      then skipped
      else if starts_next (length aggr) h
      then (aggr, h ∷ q)
      else if leb (length h.payload) tx_latency_bypass_size
      then (aggr', q)
      else packed

  -- `process_tx_queue`: what is handed to `sdio_slave_transmit`, if something is, and the queue.
  -- Without a buffer for the aggregate one frame is dropped.
  unfoldable pub process_tx_queue : Bool → List Handle → Option (List ℕ) × List Handle
  unfolding pack
  process_tx_queue has_aggr_buf [] = (none, [])
  process_tx_queue has_aggr_buf (h ∷ rest) =
      let p = pack [] (h ∷ rest) in
      if not has_aggr_buf
      then (none, rest)
      else if length p.0 == 0
      then (none, p.1)
      else (some p.0, p.1)

  -- One round of the loop of `send_task`: what is transmitted for each queue, and the queues.
  unfoldable pub send_round :
      Bool → Lanes Handle → Option (List ℕ) × Option (List ℕ) × Option (List ℕ) × Lanes Handle
  unfolding process_tx_queue
  send_round has_aggr_buf q =
      let s = process_tx_queue has_aggr_buf q.serial in
      let b = process_tx_queue has_aggr_buf q.bt in
      let o = process_tx_queue has_aggr_buf q.others in
      (s.0, b.0, o.0, record { serial = s.1; bt = b.1; others = o.1 })

-- `sdio_write`: ESP_FAIL, or the length, and the queues; `sent` is what xQueueSend answers.
unfoldable sdio_write : Bool → Handle → Lanes Handle → Option ℕ × Lanes Handle
sdio_write sent h q =
    if length h.payload == 0
    then (none, q)
    else if not sent
    then (none, q)
    else (some (length h.payload), enqueue h.if_type h q)

-- The static variables of `sdio_read`. Without a block there is no `blk_base`.
pub record Block : Type 0 where
  pub bytes : List ℕ
  pub total : ℕ
  pub pos : ℕ

-- What a call leaves in `buf_handle`. `frees` says that its user gives the block back.
pub record RxFrame : Type 0 where
  pub payload : List ℕ
  pub payload_len : ℕ
  pub if_type : ℕ
  pub if_num : ℕ
  pub frees : Bool

-- The outcome of a call: the frame, or ESP_FAIL; the block that is left; whether the call itself
-- gives the block back.
pub record Outcome : Type 0 where
  pub frame : Option RxFrame
  pub left : Option Block
  pub given_back : Bool

abbrev dropped : Outcome
dropped = record { frame = none; left = none; given_back = true }

-- Bytes `pos` on, as memory that the header's fields are read from.
abbrev next_len : List ℕ → ℕ
next_len bytes = elim (get_header bytes) [ none ↦ 0 | some h ↦ h.len ]

unfoldable pub is_last_frame : Block → ℕ → Bool
is_last_frame b aligned_len =
    ltb b.total (b.pos + aligned_len + header_size)
    || (next_len (drop (b.pos + aligned_len) b.bytes) == 0)

-- From the header of the next frame on, with its checksum field cleared if the option is set.
unfoldable pub read_frame : Bool → Block → Outcome
unfolding is_last_frame
read_frame sdio_checksum b = elim (get_header (drop b.pos b.bytes)) [
  | none ↦ dropped
  | some h ↦
      let frame_len = (h.len + h.offset) % 65536 in
      let aligned_len = align4 frame_len % 65536 in
      let tail = drop b.pos b.bytes in
      let cleared = if sdio_checksum then clear_checksum tail else tail in
      let b' = if sdio_checksum then record b { bytes = take b.pos b.bytes ++ cleared } else b in
      let last = is_last_frame b' aligned_len in
      if h.len == 0 || (ltb h.offset header_size || ltb b.total (b.pos + frame_len))
      then dropped
      else if sdio_checksum && not (compute_checksum (take frame_len cleared) == h.checksum)
      then dropped
      else record {
        frame = some (record {
          payload = take frame_len cleared;
          payload_len = frame_len;
          if_type = h.if_type;
          if_num = h.if_num;
          frees = last;
        });
        left = if last then none else some (record b' { pos = (b.pos + aligned_len) % 65536 });
        given_back = false;
      }
]

-- `sdio_read`: `received` is what sdio_slave_recv gives, a buffer and the length that was read.
unfoldable pub sdio_read : Bool → Bool → Option (List ℕ × ℕ) → Option Block → Outcome
unfolding read_frame
sdio_read sdio_checksum active received blk =
    let failed : Outcome = record { frame = none; left = none; given_back = false } in
    if not active then record { frame = none; left = blk; given_back = false } else elim blk [
      | some b ↦ read_frame sdio_checksum b
      | none ↦ elim received [
        | none ↦ failed
        | some (bytes, n) ↦
            read_frame sdio_checksum (record { bytes = bytes; total = n % 65536; pos = 0 })
      ]
    ]
