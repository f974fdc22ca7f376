-- ===== src/SpiSlave.antt =====
-- esp_hosted_fg/esp/esp_driver/network_adapter/main/spi_slave_api.c: how the coprocessor puts a
-- buffer on the bus and what it makes of a transfer it receives; host_power_save.c: whether a
-- sleeping host is woken for it. The bytes of a fresh DMA buffer are not cleared, so they are input,
-- as are the outcome of the wake-up and the build's options.
pub mod Semaphore
use esp_hosted.Prelude.{
  ℕ, ◌+◌, ◌-◌, ◌/◌, ◌%◌, Bool, true, false, not, List, ◌∷◌, ◌++◌, Option, none, some, length, take,
  drop, ltb, ◌==◌, ◌&&◌, ◌||◌, if◌then◌else◌,
}
use esp_hosted.Header.{
  Header, header_size, sta_if, ap_if, serial_if, hci_if, priv_if, test_if, put_header, get_header,
  compute_checksum,
}
use esp_hosted.Lanes.{Lanes, enqueue, dequeue}
use esp_hosted.Slave.{Handle}

-- SPI_BUFFER_SIZE
abbrev spi_buffer_size : ℕ
spi_buffer_size = 1600

-- `flag |= FLAG_WAKEUP_PKT`
abbrev pub set_wakeup : ℕ → ℕ
set_wakeup flag = if flag / 2 % 2 == 1 then flag else flag + 2

abbrev power_save_started : ℕ → Bool
power_save_started flags = flags / 4 % 2 == 1

abbrev power_save_stopped : ℕ → Bool
power_save_stopped flags = flags / 8 % 2 == 1

-- What is around a call of `esp_spi_write`: the data path, whether the host sleeps,
-- H_HOST_PS_ALLOWED, whether a wake-up succeeds, the buffer that is allocated, and
-- CONFIG_ESP_SPI_CHECKSUM.
pub record WriteEnv : Type 0 where
  pub datapath : Bool
  pub host_power_saving : Bool
  pub host_ps_allowed : Bool
  pub wakes : Bool
  pub tx_buffer : Option (List ℕ)
  pub spi_checksum : Bool

-- `is_host_wakeup_needed`, for a payload that is not null.
unfoldable pub is_host_wakeup_needed : Bool → ℕ → Bool
is_host_wakeup_needed host_ps_allowed if_type =
    host_ps_allowed
    && (if_type == serial_if
        || (if_type == hci_if
            || (if_type == priv_if
                || (if_type == test_if || (if_type == sta_if || if_type == ap_if)))))

-- MAKE_SPI_DMA_ALIGNED, for a length that is not aligned
unfoldable pub dma_aligned : ℕ → ℕ
dma_aligned n = if n % 4 == 0 then n else n + (4 - n % 4)

-- `interface_buffer_handle_t` of the queue to the bus.
pub record TxBuf : Type 0 where
  pub if_type : ℕ
  pub if_num : ℕ
  pub payload_len : ℕ
  pub payload : List ℕ

-- The header that `esp_spi_write` sets up, but for its checksum.
abbrev pub spi_header : Handle → ℕ → Header
spi_header h flag = record {
  if_type = h.if_type;
  if_num = h.if_num;
  flags = flag;
  len = length h.payload;
  offset = header_size;
  checksum = 0;
  seq_num = h.seq_num;
  reserved2 = 0;
  pkt_type = 0;
}

-- The DMA buffer: header and payload over what was in it. The checksum is computed with its own
-- field zero.
unfoldable pub fill_buffer : Bool → Handle → ℕ → List ℕ → List ℕ
fill_buffer spi_checksum h flag stale =
    let hdr = spi_header h flag in
    let sum = compute_checksum (put_header hdr h.payload) in
    put_header (if spi_checksum then record hdr { checksum = sum } else hdr)
      (h.payload ++ drop (header_size + length h.payload) stale)

-- From the length validation on.
unfoldable pub send_buffer : WriteEnv → Handle → ℕ → Lanes TxBuf → Option ℕ × Lanes TxBuf
unfolding dma_aligned fill_buffer
send_buffer env h flag q =
    let n = length h.payload in
    let total_len = dma_aligned (n + header_size) in
    if n == 0 || ltb (spi_buffer_size - header_size) n
    then (none, q)
    else if ltb spi_buffer_size total_len
    then (none, q)
    else elim env.tx_buffer [
      | none ↦ (none, q)
      | some stale ↦ (
        some total_len,
        enqueue h.if_type
            (record {
              if_type = h.if_type;
              if_num = h.if_num;
              payload_len = total_len;
              payload = fill_buffer env.spi_checksum h flag stale;
            })
            q,
      )
    ]

-- `esp_spi_write`: ESP_FAIL, or the length queued; and the queues to the bus. A null payload is
-- refused as an empty one is.
unfoldable pub esp_spi_write : WriteEnv → Handle → Lanes TxBuf → Option ℕ × Lanes TxBuf
unfolding is_host_wakeup_needed send_buffer
esp_spi_write env h q =
    let wake = env.host_power_saving && is_host_wakeup_needed env.host_ps_allowed h.if_type in
    if not env.datapath
    then (none, q)
    else if wake && not env.wakes
    then (none, q)
    else send_buffer env h (if wake then set_wakeup h.flag else h.flag) q

-- `header->checksum = 0` in a received buffer.
unfoldable pub clear_checksum : List ℕ → List ℕ
clear_checksum (b0 ∷ b1 ∷ b2 ∷ b3 ∷ b4 ∷ b5 ∷ b6 ∷ b7 ∷ rest) =
    b0 ∷ b1 ∷ b2 ∷ b3 ∷ b4 ∷ b5 ∷ 0 ∷ 0 ∷ rest
clear_checksum short = short

-- The receivers' test of a buffer whose header is `h`; the length is a `uint16_t` of
-- `compute_checksum`.
unfoldable pub checksum_ok : Header → List ℕ → Bool
checksum_ok h buf =
    compute_checksum (take ((h.len + h.offset) % 65536) (clear_checksum buf)) == h.checksum

-- What `process_spi_rx` calls the event handler with.
pub data PsEvent : Type 0 where
  power_save_on power_save_off : PsEvent

-- The buffer that goes to the receive queue: all of the transfer.
pub record RxBuf : Type 0 where
  pub if_type : ℕ
  pub if_num : ℕ
  pub payload_len : ℕ
  pub payload : List ℕ

abbrev ps_event : ℕ → Option PsEvent
ps_event flags =
    if power_save_started flags
    then some power_save_on
    else if power_save_stopped flags
    then some power_save_off
    else none

-- `process_spi_rx`: 0 or -1 as a Bool, the event, and the receive queues.
unfoldable pub process_spi_rx : Bool → List ℕ → Lanes RxBuf → Bool × Option PsEvent × Lanes RxBuf
unfolding checksum_ok
process_spi_rx spi_checksum buf q = elim (get_header buf) [
  | none ↦ (false, none, q)
  | some h ↦
      if h.len == 0 || (h.offset == 0 || ltb spi_buffer_size (h.len + h.offset))
      then (false, none, q)
      else if spi_checksum && not (checksum_ok h buf)
      then (false, ps_event h.flags, q)
      else (
        true,
        ps_event h.flags,
        enqueue h.if_type
            (record {
              if_type = h.if_type;
              if_num = h.if_num;
              payload_len = h.len + h.offset;
              payload = if spi_checksum then clear_checksum buf else buf;
            })
            q,
      )
]

-- `get_next_tx_buffer` with priority queues: the semaphore counts the buffers that were queued.
unfoldable pub get_next_tx_buffer : ℕ → Lanes TxBuf → ℕ × Option TxBuf × Lanes TxBuf
get_next_tx_buffer sem q = elim (dequeue q) [
  | some (b, q') ↦ if sem == 0 then (sem, none, q) else (sem - 1, some b, q')
  | none ↦ if sem == 0 then (sem, none, q) else (sem - 1, none, q)
]
