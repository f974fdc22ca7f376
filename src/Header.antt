-- ===== src/Header.antt =====
-- esp_hosted_fg/common/include/adapter.h: the header in front of every frame on the bus, packed and
-- little-endian, and the checksum over a frame.
pub mod Bytes
pub mod Checksum
use esp_hosted.Prelude.{
  ℕ, ◌+◌, ◌*◌, ◌/◌, ◌%◌, ◌^◌, ◌≤◌, ◌<◌, Bool, List, [], ◌∷◌, ◌++◌, Option, none, some, take, leb,
  ◌&&◌, ◌==◌,
}

-- `ESP_INTERFACE_TYPE`
abbrev pub sta_if : ℕ
sta_if = 0

abbrev pub ap_if : ℕ
ap_if = 1

abbrev pub serial_if : ℕ
serial_if = 2

abbrev pub hci_if : ℕ
hci_if = 3

abbrev pub priv_if : ℕ
priv_if = 4

abbrev pub test_if : ℕ
test_if = 5

-- `struct esp_payload_header`, without ESP_PKT_NUM_DEBUG. `pkt_type` is the union at its end.
pub record Header : Type 0 where
  pub if_type : ℕ
  pub if_num : ℕ
  pub flags : ℕ
  pub len : ℕ
  pub offset : ℕ
  pub checksum : ℕ
  pub seq_num : ℕ
  pub reserved2 : ℕ
  pub pkt_type : ℕ

-- What the widths of the fields allow.
pub record IsHeader (h : Header) : Type 0 where
  pub if_type_4 : h.if_type < 16
  pub if_num_4 : h.if_num < 16
  pub flags_8 : h.flags < 256
  pub len_16 : h.len < 65536
  pub offset_16 : h.offset < 65536
  pub checksum_16 : h.checksum < 65536
  pub seq_num_16 : h.seq_num < 65536
  pub reserved2_8 : h.reserved2 < 256
  pub pkt_type_8 : h.pkt_type < 256

-- `sizeof(struct esp_payload_header)`
abbrev pub header_size : ℕ
header_size = 12

abbrev max_align_padding : ℕ
max_align_padding = 4

-- `ESP_OFFSET_VALID`
unfoldable pub offset_valid : ℕ → Bool
offset_valid offset = leb header_size offset && leb offset (header_size + max_align_padding)

-- `flags & MORE_FRAGMENT`, where MORE_FRAGMENT is bit 0.
abbrev pub more_fragment : ℕ
more_fragment = 1

abbrev pub has_more : ℕ → Bool
has_more flags = flags % 2 == 1

-- The memory image of a header, in front of the bytes that follow it.
unfoldable pub put_header : Header → List ℕ → List ℕ
put_header h rest =
    (h.if_type + 16 * h.if_num)
    ∷ h.flags
    ∷ (h.len % 256)
    ∷ (h.len / 256)
    ∷ (h.offset % 256)
    ∷ (h.offset / 256)
    ∷ (h.checksum % 256)
    ∷ (h.checksum / 256)
    ∷ (h.seq_num % 256)
    ∷ (h.seq_num / 256)
    ∷ h.reserved2
    ∷ h.pkt_type
    ∷ rest

-- The header that the fields of the struct read from memory, if it holds twelve bytes.
unfoldable pub get_header : List ℕ → Option Header
get_header (b0 ∷ b1 ∷ b2 ∷ b3 ∷ b4 ∷ b5 ∷ b6 ∷ b7 ∷ b8 ∷ b9 ∷ b10 ∷ b11 ∷ rest) = some (record {
  if_type = b0 % 16;
  if_num = b0 / 16;
  flags = b1;
  len = b2 + 256 * b3;
  offset = b4 + 256 * b5;
  checksum = b6 + 256 * b7;
  seq_num = b8 + 256 * b9;
  reserved2 = b10;
  pkt_type = b11;
})
get_header _ = none

-- A frame: its header, and the bytes from the header's offset on.
pub record Frame : Type 0 where
  pub hdr : Header
  pub payload : List ℕ

-- The `len` bytes that the header announces.
abbrev pub body : Frame → List ℕ
body f = take f.hdr.len f.payload

-- The loop of `compute_checksum`: a `uint16_t` sum.
unfoldable pub sum_bytes : ℕ → List ℕ → ℕ
sum_bytes acc [] = acc
sum_bytes acc (b ∷ bs) = sum_bytes ((acc + b) % 65536) bs

-- `compute_checksum` over all of a buffer.
unfoldable pub compute_checksum : List ℕ → ℕ
unfolding sum_bytes
compute_checksum buf = sum_bytes 0 buf
