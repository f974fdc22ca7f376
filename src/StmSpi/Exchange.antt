-- ===== src/StmSpi/Exchange.antt =====
-- The STM32 host and the coprocessor: each accepts what the other sends.
use esp_hosted.NetDev.HostToSlave.{Carries}
use esp_hosted.Prelude.{
  ℕ, ◌+◌, ◌-◌, ◌%◌, ◌≤◌, ◌<◌, ◌≡◌, refl, ap, ◌∙◌, true, List, ◌++◌, none, some, min, length, take,
  drop, replicate, take_all, take-length-append, arith,
}
use esp_hosted.Header.{Header, IsHeader, header_size, put_header, compute_checksum, offset_valid}
use esp_hosted.Header.Bytes.{get_header-put_header}
use esp_hosted.Header.Checksum.{compute_checksum-total}
use esp_hosted.Lanes.{Lanes, enqueue}
use esp_hosted.Slave.{Handle}
use esp_hosted.SpiSlave.{
  WriteEnv, TxBuf, RxBuf, esp_spi_write, fill_buffer, spi_header, checksum_ok, dma_aligned,
  process_spi_rx,
}
use esp_hosted.NetDev.FromSlave.{
  IsHandle, sent_header, take-put_header, clear-put_header, drop-put_header,
  fill_buffer-sent_header, sent_header-IsHeader,
}
use esp_hosted.NetDev.SlaveToHost.{
  IsFlagOf, bus_flag, bus_flag-IsFlagOf, flag_bound, queued, esp_spi_write-queued,
}
use esp_hosted.StmSpi.{
  process_transfer, spi_transaction_v1, hal_ok, stm_header, stm_payload, get_tx_buffer,
  max_payload_size,
}

-- A checksum that was computed over header and payload is accepted with anything behind them.
checksum_ok_tail :
    (h : Header) (p tail : List ℕ)
    → h.len ≡ length p
    → h.offset ≡ header_size
    → length p ≤ 1588
    → let sum = compute_checksum (put_header (record h { checksum = 0 }) p) in
      checksum_ok
        (record h { checksum = sum })
        (put_header (record h { checksum = sum }) (p ++ tail))
      ≡ true
unfolding checksum_ok
checksum_ok_tail h p tail a b c =
    let sum = compute_checksum (put_header (record h { checksum = 0 }) p) in
    let n : (h.len + h.offset) % 65536 ≡ length p + header_size = omega (arith, a, b) in
    let e1 = clear-put_header h sum (p ++ tail) in
    let e2 = take-put_header (record h { checksum = 0 }) p tail in ground (arith, n, e1, e2)

-- What `spi_transaction_v1` takes from a buffer of the coprocessor.
abbrev taken : Handle → ℕ → Handle
taken h flag = record h { flag = flag }

process_transfer-fill_buffer :
    (h : Handle) (flag : ℕ) (stale : List ℕ)
    → IsHandle h
    → flag < 256
    → process_transfer true (fill_buffer true h flag stale) ≡ (true, some (taken h flag))
unfolding process_transfer
process_transfer-fill_buffer h flag stale v f =
    let hdr = sent_header true h flag in
    let tail = drop (header_size + length h.payload) stale in
    let e1 = fill_buffer-sent_header true h flag stale in
    let e2 = get_header-put_header hdr (h.payload ++ tail) (sent_header-IsHeader true h flag v f) in
    let e3 = checksum_ok_tail (spi_header h flag) h.payload tail refl refl v.fits in
    let e4 = drop-put_header hdr (h.payload ++ tail) in
    let e5 = take-length-append h.payload tail in
    ground (arith, e1, e2, e3, e4, e5, v.nonempty, v.fits)

-- A buffer of 1 to 1588 bytes of any interface that the coprocessor writes with checksums on is
-- handed to the receiver of the STM32 host with its payload, sequence number and interface, and
-- with its flags, to which only FLAG_WAKEUP_PKT may have been added, if the data path is open, the
-- host wakes where it has to, and buffers and queues have room.
pub esp_spi_write-spi_transaction_v1 :
    (env : WriteEnv) (stale : List ℕ) (h : Handle) (q : Lanes TxBuf)
    → IsHandle h
    → env.datapath ≡ true
    → env.wakes ≡ true
    → env.tx_buffer ≡ some stale
    → env.spi_checksum ≡ true
    → (b : TxBuf) × (flag : ℕ) × (esp_spi_write env h q
        ≡ (some (dma_aligned (length h.payload + header_size)), enqueue h.if_type b q))
      × IsFlagOf flag h.flag
      × (spi_transaction_v1 hal_ok true b.payload ≡ (true, some (record h { flag = flag })))
unfolding spi_transaction_v1
esp_spi_write-spi_transaction_v1 env stale h q v d w e c =
    let flag = bus_flag env h in
    let b = flag_bound flag h.flag v.flag_8 (bus_flag-IsFlagOf env h) in
    (
      queued env h stale,
      flag,
      esp_spi_write-queued env stale h q v d w e,
      bus_flag-IsFlagOf env h,
      ap (λ cs. process_transfer true (fill_buffer cs h flag stale)) c
          ∙ process_transfer-fill_buffer h flag stale v b,
    )

stm_payload_lem :
    (h : Handle)
    → length h.payload ≤ 1588
    → stm_payload h ≡ h.payload ++ replicate (max_payload_size - length h.payload) 0
stm_payload_lem h c =
    ap (λ p. p ++ replicate (max_payload_size - length h.payload) 0)
      (take_all (min (length h.payload) max_payload_size) h.payload (omega arith))

-- The checksum that is sent.
abbrev stm_sum : Handle → ℕ
stm_sum h = compute_checksum (put_header (stm_header h 0) h.payload)

abbrev stm_buffer : Handle → ℕ → List ℕ
stm_buffer h sum =
    put_header (stm_header h sum) (h.payload ++ replicate (max_payload_size - length h.payload) 0)

get_tx_buffer_lem :
    (h : Handle)
    → 0 < length h.payload
    → length h.payload ≤ 1588
    → get_tx_buffer (some h) true ≡ (true, some (stm_buffer h (stm_sum h)))
unfolding get_tx_buffer
get_tx_buffer_lem h z c =
    let n : (header_size + length h.payload) % 65536 ≡ length h.payload + header_size =
      omega arith in
    let e1 = stm_payload_lem h c in
    let e2 =
      take-put_header (stm_header h 0) h.payload
        (replicate (max_payload_size - length h.payload) 0) in
    ground (arith, n, e1, e2)

stm_header-IsHeader :
    (h : Handle)
    → h.if_type < 16
    → h.if_num < 16
    → length h.payload ≤ 1588
    → IsHeader (stm_header h (stm_sum h))
stm_header-IsHeader h t n c =
    ground (arith, compute_checksum-total (put_header (stm_header h 0) h.payload))

-- What the coprocessor queues.
abbrev stm_rx_buf : Handle → RxBuf
stm_rx_buf h = record {
  if_type = h.if_type;
  if_num = h.if_num;
  payload_len = length h.payload + header_size;
  payload = stm_buffer h 0;
}

process_spi_rx-stm_buffer :
    (h : Handle) (q : Lanes RxBuf)
    → h.if_type < 16
    → h.if_num < 16
    → 0 < length h.payload
    → length h.payload ≤ 1588
    → process_spi_rx true (stm_buffer h (stm_sum h)) q
      ≡ (true, none, enqueue h.if_type (stm_rx_buf h) q)
unfolding process_spi_rx
process_spi_rx-stm_buffer h q t n z c =
    let tail : List ℕ = replicate (max_payload_size - length h.payload) 0 in
    let e1 =
      get_header-put_header (stm_header h (stm_sum h)) (h.payload ++ tail)
        (stm_header-IsHeader h t n c) in
    let e2 = checksum_ok_tail (stm_header h 0) h.payload tail refl refl c in
    let e3 = clear-put_header (stm_header h 0) (stm_sum h) (h.payload ++ tail) in
    ground (arith, e1, e2, e3, z, c)

stm_rx_buf-Carries :
    (h : Handle)
    → h.if_type < 16
    → h.if_num < 16
    → length h.payload ≤ 1588
    → Carries (stm_rx_buf h) (stm_header h 0) h.payload
unfolding offset_valid
stm_rx_buf-Carries h t n c =
    let tail : List ℕ = replicate (max_payload_size - length h.payload) 0 in
    record {
      header = get_header-put_header (stm_header h 0) (h.payload ++ tail) (ground arith);
      offset_ok = ground arith;
      body =
          ap (take (length h.payload)) (drop-put_header (stm_header h 0) (h.payload ++ tail))
          ∙ take-length-append h.payload tail;
    }

-- A buffer of 1 to 1588 bytes that the STM32 host has queued is sent if malloc finds memory for the
-- send buffer, and the coprocessor accepts it with checksums on, raises no power-save event, and queues a buffer with an offset that
-- ESP_OFFSET_VALID accepts and with the payload as it was.
pub get_tx_buffer-process_spi_rx :
    (h : Handle) (q : Lanes RxBuf)
    → h.if_type < 16
    → h.if_num < 16
    → 0 < length h.payload
    → length h.payload ≤ 1588
    → (sendbuf : List ℕ) × (b : RxBuf) × (hdr : Header) × (get_tx_buffer (some h) true
        ≡ (true, some sendbuf))
      × (process_spi_rx true sendbuf q ≡ (true, none, enqueue h.if_type b q))
      × Carries b hdr h.payload
get_tx_buffer-process_spi_rx h q t n z c = (
  stm_buffer h (stm_sum h),
  stm_rx_buf h,
  stm_header h 0,
  get_tx_buffer_lem h z c,
  process_spi_rx-stm_buffer h q t n z c,
  stm_rx_buf-Carries h t n c,
)
