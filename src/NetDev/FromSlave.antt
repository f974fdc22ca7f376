-- ===== src/NetDev/FromSlave.antt =====
-- The way of a buffer from the coprocessor's `esp_spi_write` through a transfer to the dispatch of
-- the Linux host.
use esp_hosted.Prelude.{
  ℕ, suc, ◌+◌, ◌≤◌, ◌<◌, ◌≡◌, refl, Bool, true, false, List, [], ◌++◌, Option, some, length, take,
  drop, take-length-append, if◌then◌else◌, arith, append-nil, ◌%◌,
}
use esp_hosted.Header.{Header, IsHeader, header_size, put_header, compute_checksum}
use esp_hosted.Header.Bytes.{get_header-put_header}
use esp_hosted.Header.Checksum.{compute_checksum-total}
use esp_hosted.Lanes.{Lanes, enqueue}
use esp_hosted.Slave.{Handle}
use esp_hosted.SpiSlave.{fill_buffer, spi_header, clear_checksum, checksum_ok}
use esp_hosted.SpiHost.{process_rx_buf, ok}
use esp_hosted.NetDev.{Private, process_rx_packet, process_skb, is_valid_rx_packet, dispatch}

-- A buffer that the fields of the header can describe and that fits a transfer.
pub record IsHandle (h : Handle) : Type 0 where
  pub if_type_known : h.if_type < 6
  pub if_num_4 : h.if_num < 16
  pub flag_8 : h.flag < 256
  pub seq_num_16 : h.seq_num < 65536
  pub nonempty : 0 < length h.payload
  pub fits : length h.payload ≤ 1588

pub take-put_header :
    (h : Header) (p tail : List ℕ)
    → take (length p + header_size) (put_header h (p ++ tail)) ≡ put_header h p
unfolding put_header
take-put_header h p tail =
    let steps : length p + 12
        ≡ suc (suc (suc (suc (suc (suc (suc (suc (suc (suc (suc (suc (length p)))))))))))) =
      omega arith in
    ground (arith, steps, take-length-append p tail)

pub clear-put_header :
    (h : Header) (c : ℕ) (p : List ℕ)
    → clear_checksum (put_header (record h { checksum = c }) p)
      ≡ put_header (record h { checksum = 0 }) p
unfolding clear_checksum put_header
clear-put_header h c p = refl

fill_buffer-checksum :
    (h : Handle) (flag : ℕ) (stale : List ℕ)
    → fill_buffer true h flag stale
      ≡ put_header
          (record (spi_header h flag) {
            checksum = compute_checksum (put_header (spi_header h flag) h.payload);
          })
          (h.payload ++ drop (header_size + length h.payload) stale)
unfolding fill_buffer
fill_buffer-checksum h flag stale = refl

-- The header that arrives.
abbrev pub sent_header : Bool → Handle → ℕ → Header
sent_header cs h flag = record (spi_header h flag) {
  checksum = if cs then compute_checksum (put_header (spi_header h flag) h.payload) else 0;
}

pub sent_header-IsHeader :
    (cs : Bool) (h : Handle) (flag : ℕ) → IsHandle h → flag < 256 → IsHeader (sent_header cs h flag)
sent_header-IsHeader true h flag v f = ground (
  arith,
  compute_checksum-total (put_header (spi_header h flag) h.payload),
  v.if_type_known,
  v.if_num_4,
  v.seq_num_16,
  v.fits,
)
sent_header-IsHeader false h flag v f =
    ground (arith, v.if_type_known, v.if_num_4, v.seq_num_16, v.fits)

pub fill_buffer-sent_header :
    (cs : Bool) (h : Handle) (flag : ℕ) (stale : List ℕ)
    → fill_buffer cs h flag stale
      ≡ put_header
          (sent_header cs h flag)
          (h.payload ++ drop (header_size + length h.payload) stale)
unfolding fill_buffer
fill_buffer-sent_header true h flag stale = refl
fill_buffer-sent_header false h flag stale = refl

checksum_ok-sent_header :
    (h : Handle) (flag : ℕ)
    → IsHandle h
    → checksum_ok (sent_header true h flag) (put_header (sent_header true h flag) h.payload) ≡ true
unfolding checksum_ok
checksum_ok-sent_header h flag v =
    let small : (length h.payload + header_size) % 65536 ≡ length h.payload + header_size =
      omega (arith, v.fits) in
    let hdr = spi_header h flag in
    let c = compute_checksum (put_header hdr h.payload) in
    let e1 = clear-put_header hdr c h.payload in
    let e2 = take-put_header hdr h.payload [] in
    let e3 = append-nil h.payload in ground (arith, small, e1, e2, e3)

-- What the host's driver queues.
abbrev pub arrived : Bool → Handle → ℕ → List ℕ
arrived cs h flag = put_header (sent_header cs h flag) h.payload

pub process_rx_buf-fill_buffer :
    (cs : Bool) (h : Handle) (flag : ℕ) (stale : List ℕ) (rq : Lanes (List ℕ))
    → IsHandle h
    → flag < 256
    → process_rx_buf true (fill_buffer cs h flag stale) rq
      ≡ (ok, enqueue h.if_type (arrived cs h flag) rq)
unfolding process_rx_buf
process_rx_buf-fill_buffer cs h flag stale rq v f =
    let hdr = sent_header cs h flag in
    let tail = drop (header_size + length h.payload) stale in
    let e1 = fill_buffer-sent_header cs h flag stale in
    let e2 = get_header-put_header hdr (h.payload ++ tail) (sent_header-IsHeader cs h flag v f) in
    let e3 = take-put_header hdr h.payload tail in
    ground (arith, e1, e2, e3, v.if_type_known, v.nonempty, v.fits)

valid-arrived :
    (cs : Bool) (h : Handle) (flag : ℕ)
    → IsHandle h
    → flag < 256
    → is_valid_rx_packet (arrived cs h flag) ≡ some (length h.payload, header_size)
unfolding is_valid_rx_packet
valid-arrived cs h flag v f =
    let e =
      get_header-put_header (sent_header cs h flag) h.payload
        (sent_header-IsHeader cs h flag v f) in
    ground (arith, e, v.nonempty)

-- The buffer that is dispatched: its checksum field is cleared if it was verified.
pub process_rx_packet-arrived :
    (cs : Bool) (privs : List (Option Private)) (h : Handle) (flag : ℕ)
    → IsHandle h
    → flag < 256
    → process_rx_packet cs privs (arrived cs h flag)
      ≡ some (
          dispatch privs
            (sent_header cs h flag)
            (put_header (spi_header h flag) h.payload)
            (length h.payload)
            header_size)
unfolding process_rx_packet process_skb
process_rx_packet-arrived true privs h flag v f =
    let hdr = sent_header true h flag in
    let e1 = get_header-put_header hdr h.payload (sent_header-IsHeader true h flag v f) in
    let e2 = valid-arrived true h flag v f in
    let e3 = checksum_ok-sent_header h flag v in
    let e4 = clear-put_header (spi_header h flag) hdr.checksum h.payload in
    ground (arith, e1, e2, e3, e4)
process_rx_packet-arrived false privs h flag v f =
    let hdr = sent_header false h flag in
    let e1 = get_header-put_header hdr h.payload (sent_header-IsHeader false h flag v f) in
    let e2 = valid-arrived false h flag v f in ground (arith, e1, e2)

pub drop-put_header : (hdr : Header) (p : List ℕ) → drop header_size (put_header hdr p) ≡ p
unfolding put_header
drop-put_header hdr p = refl
