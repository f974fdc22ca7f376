-- ===== src/NetDev/Transfer.antt =====
-- The bytes of a transfer that the host makes of a packet.
use esp_hosted.Prelude.{
  ℕ, ◌+◌, ◌-◌, ◌%◌, ◌≤◌, ◌<◌, ◌≡◌, refl, Bool, true, false, List, ◌++◌, length, take, replicate,
  if◌then◌else◌, arith,
}
use esp_hosted.Header.{Header, IsHeader, header_size, put_header, compute_checksum}
use esp_hosted.Header.Bytes.{get_header-put_header}
use esp_hosted.Header.Checksum.{compute_checksum-total}
use esp_hosted.SpiSlave.{clear_checksum}
use esp_hosted.SpiHost.{transfer_of, set_checksum, pad_to, spi_buf_size}
use esp_hosted.NetDev.{Private, pad_len, add_header}

-- `pad_len` makes room for the header and ends the packet at a multiple of four.
pub pad_len_bounds :
    (len : ℕ) → len ≤ 1584 → (12 < pad_len len) × (pad_len len ≤ 16) × ((len + pad_len len) % 4 ≡ 0)
unfolding pad_len
pad_len_bounds len h = (omega arith, omega arith, omega arith)

abbrev pub tx_hdr : Private → List ℕ → ℕ → Header
tx_hdr p pkt c = record {
  if_type = p.if_type;
  if_num = p.if_num;
  flags = 0;
  len = length pkt % 65536;
  offset = pad_len (length pkt);
  checksum = c;
  seq_num = 0;
  reserved2 = 0;
  pkt_type = 0;
}

abbrev pub tx_rest : List ℕ → List ℕ
tx_rest pkt = replicate (pad_len (length pkt) - header_size) 0 ++ pkt

abbrev pub zeros : Private → List ℕ → List ℕ
zeros p pkt = replicate (spi_buf_size - length (add_header p pkt)) 0

-- The bytes of the transfer.
abbrev pub tx_sum : Bool → Private → List ℕ → ℕ
tx_sum cs p pkt =
    if cs
    then compute_checksum (
        take ((length pkt % 65536 + pad_len (length pkt)) % 65536)
          (put_header (tx_hdr p pkt 0) (tx_rest pkt ++ zeros p pkt)))
    else 0

pub tx_hdr-IsHeader :
    (cs : Bool) (p : Private) (pkt : List ℕ)
    → p.if_type < 16
    → p.if_num < 16
    → length pkt ≤ 1584
    → IsHeader (tx_hdr p pkt (tx_sum cs p pkt))
tx_hdr-IsHeader true p pkt t n h = ground (
  arith,
  pad_len_bounds (length pkt) h,
  compute_checksum-total (
      take ((length pkt % 65536 + pad_len (length pkt)) % 65536)
        (put_header (tx_hdr p pkt 0) (tx_rest pkt ++ zeros p pkt))),
)
tx_hdr-IsHeader false p pkt t n h = ground (arith, pad_len_bounds (length pkt) h)

pub tx_hdr_0 :
    (p : Private) (pkt : List ℕ)
    → p.if_type < 16
    → p.if_num < 16
    → length pkt ≤ 1584
    → IsHeader (tx_hdr p pkt 0)
tx_hdr_0 p pkt t n h = tx_hdr-IsHeader false p pkt t n h

add_header_lem :
    (p : Private) (pkt : List ℕ)
    → pad_to (add_header p pkt) ≡ put_header (tx_hdr p pkt 0) (tx_rest pkt ++ zeros p pkt)
unfolding add_header put_header
add_header_lem p pkt = refl

pub transfer_lem :
    (cs : Bool) (p : Private) (pkt : List ℕ)
    → p.if_type < 16
    → p.if_num < 16
    → length pkt ≤ 1584
    → transfer_of cs (add_header p pkt)
      ≡ put_header (tx_hdr p pkt (tx_sum cs p pkt)) (tx_rest pkt ++ zeros p pkt)
unfolding transfer_of set_checksum clear_checksum put_header
transfer_lem true p pkt t n h =
    let e =
      get_header-put_header (tx_hdr p pkt 0) (tx_rest pkt ++ zeros p pkt) (tx_hdr_0 p pkt t n h) in
    ground (arith, add_header_lem p pkt, e)
transfer_lem false p pkt t n h =
    let e =
      get_header-put_header (tx_hdr p pkt 0) (tx_rest pkt ++ zeros p pkt) (tx_hdr_0 p pkt t n h) in
    ground (arith, add_header_lem p pkt, e)
