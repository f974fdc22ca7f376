-- ===== src/SpiHost.antt =====
-- esp_hosted_fg/host/linux/host_driver/esp32/spi/esp_spi.c: the SPI driver of the Linux host, from
-- `write_packet` to the bytes of a transfer, and from a transfer to `read_packet`.
pub mod Pending
use esp_hosted.Prelude.{
  ℕ, ◌+◌, ◌-◌, ◌/◌, ◌%◌, Bool, false, not, List, [], ◌∷◌, ◌++◌, Option, none, some, length, take,
  replicate, ltb, leb, ◌==◌, ◌&&◌, if◌then◌else◌,
}
use esp_hosted.Header.{header_size, serial_if, hci_if, get_header, compute_checksum}
use esp_hosted.Lanes.{Lanes, enqueue, dequeue}
use esp_hosted.SpiSlave.{clear_checksum}

-- SPI_BUF_SIZE
abbrev pub spi_buf_size : ℕ
spi_buf_size = 1600

-- ESP_MAX_IF
abbrev max_if : ℕ
max_if = 6

-- What a call returns: 0, -EINVAL or -EPERM.
pub data Status : Type 0 where
  ok invalid_arg not_permitted : Status

-- `spi_context.tx_q` and `tx_pending`.
pub record TxQueue : Type 0 where
  pub tx_q : Lanes (List ℕ)
  pub tx_pending : ℕ

abbrev pub if_type_of : List ℕ → ℕ
if_type_of [] = 0
if_type_of (b ∷ bs) = b % 16

-- TX_MAX_PENDING_COUNT is `max_pending`; the last component says whether `esp_tx_pause` is called.
-- The pointers are not null.
unfoldable pub write_packet : ℕ → Bool → List ℕ → TxQueue → Status × TxQueue × Bool
write_packet max_pending data_path skb q =
    let t = if_type_of skb in
    let n = q.tx_pending + 1 in
    if length skb == 0
    then (invalid_arg, q, false)
    else if ltb spi_buf_size (length skb)
    then (not_permitted, q, false)
    else if not data_path
    then (not_permitted, q, false)
    else (
      ok,
      record { tx_q = enqueue t skb q.tx_q; tx_pending = n },
      not (t == serial_if) && (not (t == hci_if) && leb max_pending n),
    )

-- `h->checksum = ...` in a buffer that is sent.
unfoldable pub set_checksum : ℕ → List ℕ → List ℕ
set_checksum c (b0 ∷ b1 ∷ b2 ∷ b3 ∷ b4 ∷ b5 ∷ b6 ∷ b7 ∷ rest) =
    b0 ∷ b1 ∷ b2 ∷ b3 ∷ b4 ∷ b5 ∷ (c % 256) ∷ (c / 256) ∷ rest
set_checksum c short = short

-- `skb_put_padto`, when it succeeds: zeros up to the size of a transfer.
abbrev pub pad_to : List ℕ → List ℕ
pad_to skb = skb ++ replicate (spi_buf_size - length skb) 0

-- The transmit half of `esp_spi_transaction`: the bytes of the transfer for a packet that was
-- dequeued. Whether the peer announced ESP_CHECKSUM_ENABLED is the first argument.
unfoldable pub transfer_of : Bool → List ℕ → List ℕ
unfolding set_checksum clear_checksum
transfer_of checksum_enabled skb =
    let buf = pad_to skb in
    elim (get_header buf) [
      | none ↦ buf
      | some h ↦
          if checksum_enabled
          then set_checksum
              (compute_checksum (take ((h.len + h.offset) % 65536) (clear_checksum buf))) buf
          else buf
    ]

-- The choice of what to send, and the counter of pending packets.
unfoldable pub next_tx : Bool → TxQueue → Option (List ℕ) × TxQueue
next_tx data_path q = elim (dequeue q.tx_q) [
  | none ↦ (none, q)
  | some (skb, rest) ↦
      if data_path
      then (some skb, record { tx_q = rest; tx_pending = q.tx_pending - 1 })
      else (none, q)
]

-- What `esp_spi_reinit_work` does to the packets that wait to be sent.
abbrev pub purge_tx : TxQueue
purge_tx = record { tx_q = record { serial = []; bt = []; others = [] }; tx_pending = 0 }

-- `process_rx_buf`
unfoldable pub process_rx_buf : Bool → List ℕ → Lanes (List ℕ) → Status × Lanes (List ℕ)
process_rx_buf data_path buf q = elim (get_header buf) [
  | none ↦ (invalid_arg, q)
  | some h ↦
      let n = (h.len + header_size) % 65536 in
      if leb max_if h.if_type
      then (invalid_arg, q)
      else if h.len == 0
      then (invalid_arg, q)
      else if not (h.offset == header_size)
      then (invalid_arg, q)
      else if ltb spi_buf_size n
      then (invalid_arg, q)
      else if not data_path
      then (not_permitted, q)
      else (ok, enqueue h.if_type (take n buf) q)
]

-- `read_packet`, with the device present.
unfoldable read_packet : Bool → Lanes (List ℕ) → Option (List ℕ) × Lanes (List ℕ)
read_packet data_path q = elim (dequeue q) [
  | none ↦ (none, q)
  | some (skb, rest) ↦ if data_path then (some skb, rest) else (none, q)
]
