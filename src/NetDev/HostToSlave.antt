-- ===== src/NetDev/HostToSlave.antt =====
-- `process_tx_packet` and the transmit half of a transfer on the host against `process_spi_rx` on
-- the coprocessor.
use esp_hosted.Prelude.{
  ℕ, ◌+◌, ◌-◌, ◌%◌, ◌≤◌, ◌<◌, ◌≡◌, refl, sym, ap, ◌∙◌, Bool, true, false, List, ◌++◌, none, some,
  length, take, drop, replicate, take-length-append, drop-length-append, length-append,
  length-replicate, drop-add, append_assoc, if◌then◌else◌, arith,
}
use esp_hosted.Header.{Header, header_size, offset_valid, put_header, get_header}
use esp_hosted.Header.Bytes.{get_header-put_header}
use esp_hosted.Lanes.{Lanes, enqueue}
use esp_hosted.SpiSlave.{clear_checksum, checksum_ok, process_spi_rx, RxBuf}
use esp_hosted.SpiHost.{transfer_of}
use esp_hosted.NetDev.{Private, TxEnv, tx_ok, tx_sent, pad_len, add_header, process_tx_packet}
use esp_hosted.NetDev.Transfer.{
  pad_len_bounds, tx_hdr, tx_rest, zeros, tx_sum, tx_hdr-IsHeader, tx_hdr_0, transfer_lem,
}

-- What the coprocessor queues for its receiving task.
abbrev rx_bytes : Private → List ℕ → ℕ → List ℕ
rx_bytes p pkt c = put_header (tx_hdr p pkt c) (tx_rest pkt ++ zeros p pkt)

abbrev rx_buf : Bool → Private → List ℕ → RxBuf
rx_buf cs p pkt = record {
  if_type = p.if_type;
  if_num = p.if_num;
  payload_len = length pkt % 65536 + pad_len (length pkt);
  payload = if cs then rx_bytes p pkt 0 else rx_bytes p pkt (tx_sum cs p pkt);
}

checksum_ok-tx :
    (p : Private) (pkt : List ℕ)
    → checksum_ok (tx_hdr p pkt (tx_sum true p pkt)) (rx_bytes p pkt (tx_sum true p pkt)) ≡ true
unfolding checksum_ok clear_checksum put_header
checksum_ok-tx p pkt = ground arith

clear-rx_bytes :
    (p : Private) (pkt : List ℕ) (c : ℕ) → clear_checksum (rx_bytes p pkt c) ≡ rx_bytes p pkt 0
unfolding clear_checksum put_header
clear-rx_bytes p pkt c = refl

process_spi_rx-tx :
    (cs : Bool) (p : Private) (pkt : List ℕ) (q : Lanes RxBuf)
    → p.if_type < 16
    → p.if_num < 16
    → 0 < length pkt
    → length pkt ≤ 1584
    → process_spi_rx cs (rx_bytes p pkt (tx_sum cs p pkt)) q
      ≡ (true, none, enqueue p.if_type (rx_buf cs p pkt) q)
unfolding process_spi_rx
process_spi_rx-tx true p pkt q t n z h =
    let e =
      get_header-put_header (tx_hdr p pkt (tx_sum true p pkt)) (tx_rest pkt ++ zeros p pkt)
        (tx_hdr-IsHeader true p pkt t n h) in
    ground (
      arith,
      e,
      checksum_ok-tx p pkt,
      clear-rx_bytes p pkt (tx_sum true p pkt),
      pad_len_bounds (length pkt) h,
    )
process_spi_rx-tx false p pkt q t n z h =
    let e =
      get_header-put_header (tx_hdr p pkt (tx_sum false p pkt)) (tx_rest pkt ++ zeros p pkt)
        (tx_hdr-IsHeader false p pkt t n h) in
    ground (arith, e, pad_len_bounds (length pkt) h)

drop-tx_rest :
    (p : Private) (pkt : List ℕ) (c : ℕ)
    → length pkt ≤ 1584
    → drop (pad_len (length pkt)) (rx_bytes p pkt c) ≡ pkt ++ zeros p pkt
unfolding put_header
drop-tx_rest p pkt c h =
    let k = pad_len (length pkt) - header_size in
    let split : pad_len (length pkt) ≡ 12 + k = omega (arith, pad_len_bounds (length pkt) h) in
    ap (λ m. drop m (rx_bytes p pkt c)) split
    ∙ drop-add 12 k (rx_bytes p pkt c)
    ∙ ap (drop k) (append_assoc (replicate k 0) pkt (zeros p pkt))
    ∙ ap (λ m. drop m (replicate k 0 ++ (pkt ++ zeros p pkt))) (sym (length-replicate k 0))
    ∙ drop-length-append (replicate k 0) (pkt ++ zeros p pkt)

-- The packet in a buffer that is queued: the bytes that its header announces, from the offset on.
pub record Carries (b : RxBuf) (hdr : Header) (pkt : List ℕ) : Type 0 where
  pub header : get_header b.payload ≡ some hdr
  pub offset_ok : offset_valid hdr.offset ≡ true
  pub body : take hdr.len (drop hdr.offset b.payload) ≡ pkt

tx_sum_clear :
    (cs : Bool) (p : Private) (pkt : List ℕ) → (rx_buf cs p pkt).payload ≡ rx_bytes p pkt 0
tx_sum_clear true p pkt = refl
tx_sum_clear false p pkt = refl

add_header_aligned :
    (p : Private) (pkt : List ℕ) → length pkt ≤ 1584 → length (add_header p pkt) % 4 ≡ 0
unfolding add_header put_header
add_header_aligned p pkt h = omega (
  arith,
  length-append (replicate (pad_len (length pkt) - header_size) 0) pkt,
  length-replicate {A = ℕ} (pad_len (length pkt) - header_size) 0,
  pad_len_bounds (length pkt) h,
)

rx_buf-Carries :
    (cs : Bool) (p : Private) (pkt : List ℕ)
    → p.if_type < 16
    → p.if_num < 16
    → length pkt ≤ 1584
    → Carries (rx_buf cs p pkt) (tx_hdr p pkt 0) pkt
unfolding offset_valid
rx_buf-Carries cs p pkt t n h =
    let same = tx_sum_clear cs p pkt in
    let len : length pkt % 65536 ≡ length pkt = omega arith in
    record {
      header =
          ap get_header same
          ∙ get_header-put_header (tx_hdr p pkt 0) (tx_rest pkt ++ zeros p pkt)
              (tx_hdr_0 p pkt t n h);
      offset_ok = ground (arith, pad_len_bounds (length pkt) h);
      body =
          ap (λ b. take (length pkt % 65536) (drop (pad_len (length pkt)) b)) same
          ∙ ap (take (length pkt % 65536)) (drop-tx_rest p pkt 0 h)
          ∙ ap (λ m. take m (pkt ++ zeros p pkt)) len
          ∙ take-length-append pkt (zeros p pkt);
    }

-- A packet of 1 to 1584 bytes of a device of the host is put on the bus with an offset that
-- ESP_OFFSET_VALID accepts and an end at a multiple of four, and the coprocessor accepts the
-- transfer, raises no power-save event and queues a buffer that carries the packet, with checksums
-- on or off, when the queues run, the host is awake, memory is there and data is not stopped.
pub process_tx_packet-arrives :
    (env : TxEnv) (cs : Bool) (p : Private) (pkt : List ℕ) (q : Lanes RxBuf)
    → env.queue_stopped ≡ false
    → env.host_sleeping ≡ false
    → env.linearizes ≡ true
    → env.allocates ≡ true
    → env.stop_data ≡ false
    → env.sends ≡ true
    → p.if_type < 16
    → p.if_num < 16
    → 0 < length pkt
    → length pkt ≤ 1584
    → (skb : List ℕ) × (b : RxBuf) × (hdr : Header) × (process_tx_packet env p pkt
        ≡ (tx_ok, some skb, tx_sent p (length skb)))
      × (length skb % 4 ≡ 0)
      × (process_spi_rx cs (transfer_of cs skb) q ≡ (true, none, enqueue p.if_type b q))
      × Carries b hdr pkt
unfolding process_tx_packet
process_tx_packet-arrives env cs p pkt q e1 e2 e3 e4 e5 e6 t n z h = (
  add_header p pkt,
  rx_buf cs p pkt,
  tx_hdr p pkt 0,
  ground (arith, e1, e2, e3, e4, e5, e6),
  add_header_aligned p pkt h,
  ap (λ b. process_spi_rx cs b q) (transfer_lem cs p pkt t n h)
      ∙ process_spi_rx-tx cs p pkt q t n z h,
  rx_buf-Carries cs p pkt t n h,
)
