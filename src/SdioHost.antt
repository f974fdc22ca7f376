-- ===== src/SdioHost.antt =====
-- esp_hosted_fg/host/linux/host_driver/esp32/sdio/esp_sdio.c: what the SDIO driver of the Linux host
-- reads from the coprocessor, and the counters that both sides keep. What the registers hold, which
-- transfers succeed and which allocations do is input.
pub mod Flow
pub mod FromSlave
pub mod Split
pub mod Receive
pub mod Tx
use esp_hosted.Prelude.{
  ℕ, zero, suc, ◌+◌, ◌-◌, ◌*◌, ◌/◌, ◌%◌, Bool, true, false, not, List, [], ◌∷◌, Option, none, some,
  length, take, drop, ltb, leb, ◌==◌, ◌&&◌, ◌||◌, if◌then◌else◌,
}
use esp_hosted.Header.{header_size, offset_valid, get_header}
use esp_hosted.SdioSlave.{align4}

-- ESP_RX_BYTE_MAX, one more than ESP_SLAVE_LEN_MASK
abbrev rx_byte_max : ℕ
rx_byte_max = 1048576

-- ESP_TX_BUFFER_MAX, one more than ESP_TX_BUFFER_MASK
abbrev tx_buffer_max : ℕ
tx_buffer_max = 4096

-- ESP_RX_BUFFER_SIZE
abbrev rx_buffer_size : ℕ
rx_buffer_size = 15872

-- ESP_BLOCK_SIZE
abbrev block_size : ℕ
block_size = 512

-- `esp_slave_get_tx_buffer_num`, for a register that could be read.
unfoldable pub get_tx_buffer_num : ℕ → ℕ → ℕ
get_tx_buffer_num token tx_buffer_count =
    (token / 65536 % tx_buffer_max + tx_buffer_max - tx_buffer_count) % tx_buffer_max

pub data RxLen : Type 0 where
  rx_len : ℕ → RxLen
  too_long : RxLen

-- `esp_get_len_from_slave`, for a register that was read or prefetched.
unfoldable pub get_len_from_slave : ℕ → ℕ → ℕ → RxLen
get_len_from_slave e2h_aggr_size rx_byte_count reg =
    let len = reg % rx_byte_max in
    let n =
      if leb rx_byte_count len
      then (len + rx_byte_max - rx_byte_count) % rx_byte_max
      else rx_byte_max - rx_byte_count + len in
    let cap = if e2h_aggr_size == 0 then rx_buffer_size else e2h_aggr_size in
    if ltb cap n then too_long else rx_len n

-- What one transfer reads: whole blocks as long as there are some, then the rest.
abbrev chunk : ℕ → ℕ
chunk left = if left / block_size == 0 then left else left / block_size * block_size

-- The loop over the transfers; `bus i` says that the i-th succeeds. The result says whether all
-- did, with `rx_byte_count`.
unfoldable pub read_blocks : (ℕ → Bool) → ℕ → ℕ → ℕ → ℕ → Bool × ℕ
read_blocks bus zero i left count = (false, count)
read_blocks bus (suc fuel) i left count =
    let c = chunk left in
    let count' = (count + c) % rx_byte_max in
    let later = read_blocks bus fuel (i + 1) (left - c) count' in
    if not (bus i) then (false, count) else if left - c == 0 then (true, count') else later

-- The length of the frame at `pos`, if the loop over an aggregate accepts it; `alloc` says whether
-- a buffer for it can be had.
unfoldable pub frame_at : (ℕ → Bool) → ℕ → List ℕ → Option ℕ
frame_at alloc pos skb = elim (get_header (drop pos skb)) [
  | none ↦ none
  | some h ↦
      if ltb (length skb) (pos + header_size)
      then none
      else if h.len == 0
      then none
      else if ltb rx_buffer_size h.len || not (offset_valid h.offset)
      then none
      else if ltb (length skb) (pos + (h.len + h.offset))
      then none
      else if alloc pos
      then some (h.len + h.offset)
      else none
]

-- The loop over an aggregate; `pos_in_aggr` is a `u16`.
unfoldable pub split : (ℕ → Bool) → ℕ → ℕ → List ℕ → List (List ℕ)
unfolding frame_at
split alloc zero pos skb = []
split alloc (suc fuel) pos skb = elim (frame_at alloc pos skb) [
  | none ↦ []
  | some n ↦ take n (drop pos skb) ∷ split alloc fuel ((pos + align4 n) % 65536) skb
]

-- The frames of a transfer, as they are handed on: a frame that fills the transfer is trimmed.
unfoldable pub frames_of : (ℕ → Bool) → List ℕ → List (List ℕ)
unfolding split
frames_of alloc skb = elim (get_header skb) [
  | none ↦ []
  | some h ↦
      if h.len == 0
      then []
      else if ltb rx_buffer_size h.len || not (offset_valid h.offset)
      then []
      else if ltb (length skb) (h.len + h.offset)
      then []
      else if leb (length skb) (align4 (h.len + h.offset))
      then take (h.len + h.offset) skb ∷ []
      else split alloc (suc (length skb)) 0 skb
]

-- The fields of `struct esp_sdio_context` that reading uses. `disabled` is the adapter's state
-- ESP_CONTEXT_DISABLED.
pub record RxContext : Type 0 where
  pub rx_q : List (List ℕ)
  pub rx_byte_count : ℕ
  pub e2h_aggr_size : ℕ
  pub disabled : Bool

abbrev pop_rx : RxContext → Option (List ℕ) × RxContext
pop_rx c = elim c.rx_q [ [] ↦ (none, c) | p ∷ rest ↦ (some p, record c { rx_q = rest }) ]

-- What is around a call: the length register, or none when it cannot be read; whether the buffer for
-- the transfer can be had; the transfers; the bytes they bring; the buffers for the frames.
pub record RxEnv : Type 0 where
  pub reg : Option ℕ
  pub has_skb : Bool
  pub bus : ℕ → Bool
  pub stream : List ℕ
  pub alloc : ℕ → Bool

-- From a length that is not zero on.
unfoldable pub transfer : RxEnv → ℕ → RxContext → Option (List ℕ) × RxContext
unfolding read_blocks frames_of
transfer env n c =
    let r = read_blocks env.bus (suc n) 0 n c.rx_byte_count in
    let c' = record c { rx_byte_count = r.1 } in
    let skb = take n env.stream in
    if not env.has_skb
    then (none, c)
    else if not r.0
    then (none, record c' { disabled = true })
    else pop_rx (record c' { rx_q = frames_of env.alloc skb })

-- `read_packet`, with the adapter and the function present.
unfoldable pub read_packet : RxEnv → RxContext → Option (List ℕ) × RxContext
read_packet env c = elim c.rx_q [
  | p ∷ rest ↦ (some p, record c { rx_q = rest })
  | [] ↦ elim env.reg [
    | none ↦ (none, c)
    | some reg ↦ elim (get_len_from_slave c.e2h_aggr_size c.rx_byte_count reg) [
      | too_long ↦ (none, record c { disabled = true })
      | rx_len n ↦ if n == 0 then (none, c) else transfer env n c
    ]
  ]
]

-- MAX_WRITE_RETRIES
abbrev pub max_write_retries : ℕ
max_write_retries = 200

-- The loop of `is_sdio_write_buffer_available`: `probe i` is the i-th answer of the slave, or none
-- when the register cannot be read, which leaves `buf_available` as it was. The result is the
-- retries that are left, and `buf_available`.
unfoldable pub probe_credits : (ℕ → Option ℕ) → ℕ → ℕ → ℕ → ℕ → ℕ → ℕ × ℕ
unfolding get_tx_buffer_num
probe_credits probe tx_buffer_count needed i zero available = (zero, available)
probe_credits probe tx_buffer_count needed i (suc retry) available =
    let available' : ℕ = elim (probe i) [
      | none ↦ available
      | some token ↦ get_tx_buffer_num token tx_buffer_count
    ] in
    let later = probe_credits probe tx_buffer_count needed (i + 1) retry available' in
    if ltb available' needed then later else (suc retry, available')

-- `is_sdio_write_buffer_available`: BUFFER_AVAILABLE as a Bool, and the static `buf_available`.
unfoldable pub is_sdio_write_buffer_available : (ℕ → Option ℕ) → ℕ → ℕ → ℕ → Bool × ℕ
is_sdio_write_buffer_available probe tx_buffer_count needed available =
    let r =
      if ltb available needed
      then probe_credits probe tx_buffer_count needed 0 max_write_retries available
      else (max_write_retries, available) in
    let available' = if leb needed r.1 then r.1 - needed else r.1 in (not (r.0 == 0), available')

-- `tx_buffer_count` and `buf_available`
pub record Credits : Type 0 where
  pub tx_buffer_count : ℕ
  pub buf_available : ℕ

-- In `tx_process`, one try to send an aggregate: the test for credit, `esp_write_block`, of which
-- `bus` says whether it succeeds, and the count of the buffers that were used.
unfoldable pub try_send : (ℕ → Option ℕ) → Bool → ℕ → Credits → Bool × Credits
unfolding is_sdio_write_buffer_available
try_send probe bus needed c =
    let r = is_sdio_write_buffer_available probe c.tx_buffer_count needed c.buf_available in
    let c' = record c { buf_available = r.1 } in
    if not r.0
    then (false, c')
    else if not bus
    then (false, c')
    else (true, record c' { tx_buffer_count = (c.tx_buffer_count + needed) % tx_buffer_max })
