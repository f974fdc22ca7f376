-- ===== src/StmSpi.antt =====
-- esp_hosted_fg/host/stm32/driver/transport/spi/spi_drv.c: a full-duplex transaction of the STM32
-- host with an ESP32 (`spi_transaction_v1`) and the buffer that is sent (`get_tx_buffer`). The HAL,
-- the queues and the allocator are input; allocations that the code asserts succeed.
pub mod Exchange
use esp_hosted.Prelude.{
  ℕ, ◌+◌, ◌-◌, ◌%◌, Bool, true, false, not, List, [], ◌∷◌, ◌++◌, Option, none, some, min, length,
  take, drop, replicate, ltb, ◌==◌, ◌||◌, if◌then◌else◌,
}
use esp_hosted.Header.{Header, header_size, put_header, get_header, compute_checksum}
use esp_hosted.Slave.{Handle}
use esp_hosted.SpiSlave.{checksum_ok}

-- MAX_SPI_BUFFER_SIZE and MAX_PAYLOAD_SIZE
abbrev max_spi_buffer_size : ℕ
max_spi_buffer_size = 1600

abbrev pub max_payload_size : ℕ
max_payload_size = 1588

-- `HAL_StatusTypeDef`
pub data HalStatus : Type 0 where
  hal_ok hal_error hal_busy hal_timeout : HalStatus

-- The handle that goes to `from_slave_queue`: its payload is the part of the receive buffer that
-- it points to.
abbrev rx_handle : Header → List ℕ → Handle
rx_handle h rxbuff = record {
  if_type = h.if_type;
  if_num = h.if_num;
  flag = h.flags;
  seq_num = h.seq_num;
  payload = take h.len (drop h.offset rxbuff);
}

-- The case HAL_OK: STM_OK as `true`, and what is queued. `queued` says that the queue takes it.
unfoldable pub process_transfer : Bool → List ℕ → Bool × Option Handle
process_transfer queued rxbuff = elim (get_header rxbuff) [
  | none ↦ (true, none)
  | some h ↦
      if h.len == 0 || (ltb max_payload_size h.len || not (h.offset == header_size))
      then (true, none)
      else if checksum_ok h rxbuff
      then (if queued then (true, some (rx_handle h rxbuff)) else (false, none))
      else (true, none)
]

-- `spi_transaction_v1`, by what the HAL returns and the bytes it has received.
unfoldable pub spi_transaction_v1 : HalStatus → Bool → List ℕ → Bool × Option Handle
unfolding process_transfer
spi_transaction_v1 hal_ok queued rxbuff = process_transfer queued rxbuff
spi_transaction_v1 hal_error queued rxbuff = (false, none)
spi_transaction_v1 hal_busy queued rxbuff = (false, none)
spi_transaction_v1 hal_timeout queued rxbuff = (false, none)

abbrev pub stm_header : Handle → ℕ → Header
stm_header h checksum = record {
  if_type = h.if_type;
  if_num = h.if_num;
  flags = 0;
  len = length h.payload;
  offset = header_size;
  checksum = checksum;
  seq_num = 0;
  reserved2 = 0;
  pkt_type = 0;
}

-- The payload in the send buffer: as much of it as fits, then zeros.
abbrev pub stm_payload : Handle → List ℕ
stm_payload h =
    take (min (length h.payload) max_payload_size) h.payload
    ++ replicate (max_payload_size - length h.payload) 0

-- `get_tx_buffer`: whether there is something to send, and the buffer; the argument is what the
-- queue holds. The length of the checksum is a `uint16_t`.
unfoldable pub get_tx_buffer : Option Handle → Bool → Bool × Option (List ℕ)
get_tx_buffer none allocates = (false, none)
get_tx_buffer (some h) allocates =
    let sum = compute_checksum (
      take ((header_size + length h.payload) % 65536)
        (put_header (stm_header h 0) (stm_payload h))) in
    if length h.payload == 0
    then (false, none)
    else if allocates
    then (true, some (put_header (stm_header h sum) (stm_payload h)))
    else (false, none)
