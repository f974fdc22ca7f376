-- ===== src/SdioHost/Tx.antt =====
-- The transmit side of esp_hosted_fg/host/linux/host_driver/esp32/sdio/esp_sdio.c: `write_packet`,
-- and how `tx_process` packs the queues into an aggregate.
pub mod Pending
pub mod Pack
pub mod Rounds
pub mod ToSlave
use esp_hosted.Prelude.{
  ℕ, zero, suc, ◌+◌, ◌-◌, ◌*◌, ◌%◌, Bool, true, false, not, List, [], ◌∷◌, ◌++◌, Option, none, some,
  length, take, replicate, ltb, leb, ◌==◌, ◌&&◌, ◌||◌, if◌then◌else◌, ◌/◌,
}
use esp_hosted.Header.{Header, header_size, serial_if, hci_if, offset_valid, get_header}
use esp_hosted.Lanes.{Lanes, enqueue}
use esp_hosted.SdioSlave.{align4, pad4}
use esp_hosted.SpiHost.{if_type_of}

pub data Prio : Type 0 where
  serial bt others : Prio

-- `queue_items`
pub record Items : Type 0 where
  pub serial_items : ℕ
  pub bt_items : ℕ
  pub others_items : ℕ

pub record TxState : Type 0 where
  pub tx_q : Lanes (List ℕ)
  pub items : Items
  pub tx_pending : ℕ
  pub tx_pending_bytes : ℕ

-- 0, -EINVAL, -EPERM or -EBUSY
pub data Status : Type 0 where
  ok invalid_arg not_permitted busy : Status

-- TX_MAX_PENDING_COUNT, TX_HARD_PENDING_COUNT, TX_MAX_PENDING_BYTES, TX_RESUME_THRESHOLD
abbrev max_pending_count : ℕ
max_pending_count = 1000

abbrev pub hard_pending_count : ℕ
hard_pending_count = 1064

abbrev pub max_pending_bytes : ℕ
max_pending_bytes = 2097152

abbrev resume_threshold : ℕ
resume_threshold = 200

-- ESP_RX_BUFFER_SIZE - sizeof(struct esp_payload_header)
abbrev max_pkt_size : ℕ
max_pkt_size = 15860

abbrev count : ℕ → Items → Items
count if_type i =
    if if_type == serial_if
    then record i { serial_items = i.serial_items + 1 }
    else if if_type == hci_if
    then record i { bt_items = i.bt_items + 1 }
    else record i { others_items = i.others_items + 1 }

-- `write_packet`, with pointers that are not null; the last component says whether `esp_tx_pause`
-- is called.
unfoldable pub write_packet : List ℕ → TxState → Status × TxState × Bool
write_packet skb s =
    let t = if_type_of skb in
    if length skb == 0
    then (invalid_arg, s, false)
    else if ltb max_pkt_size (length skb)
    then (not_permitted, s, false)
    else if leb hard_pending_count s.tx_pending
        || ltb max_pending_bytes (s.tx_pending_bytes + length skb)
    then (busy, s, true)
    else (
      ok,
      record {
        tx_q = enqueue t skb s.tx_q;
        items = count t s.items;
        tx_pending = s.tx_pending + 1;
        tx_pending_bytes = s.tx_pending_bytes + length skb;
      },
      leb max_pending_count (s.tx_pending + 1),
    )

-- The queue that the loop looks at.
unfoldable pub pick : Items → Option Prio
pick i =
    if ltb 0 i.serial_items
    then some serial
    else if ltb 0 i.bt_items
    then some bt
    else if ltb 0 i.others_items
    then some others
    else none

abbrev pub lane : Prio → Lanes (List ℕ) → List (List ℕ)
lane serial q = q.serial
lane bt q = q.bt
lane others q = q.others

abbrev pub set_lane : Prio → List (List ℕ) → Lanes (List ℕ) → Lanes (List ℕ)
set_lane serial l q = record q { serial = l }
set_lane bt l q = record q { bt = l }
set_lane others l q = record q { others = l }

-- `atomic_dec(&queue_items[prio])`, of a counter that is positive.
abbrev pub uncount : Prio → Items → Items
uncount serial i = record i { serial_items = i.serial_items - 1 }
uncount bt i = record i { bt_items = i.bt_items - 1 }
uncount others i = record i { others_items = i.others_items - 1 }

-- The front of a queue leaves it; `tx_pending` is not counted below zero.
abbrev pub taken : Prio → List ℕ → List (List ℕ) → TxState → TxState
taken prio skb rest s = record {
  tx_q = set_lane prio rest s.tx_q;
  items = uncount prio s.items;
  tx_pending = s.tx_pending - 1;
  tx_pending_bytes = s.tx_pending_bytes - length skb;
}

-- The aggregate so far, with `aggr_has_ctrl`, and whether `esp_tx_resume` was called.
pub record Aggr : Type 0 where
  pub bytes : List ℕ
  pub has_ctrl : Bool
  pub resumed : Bool
  pub tx : TxState

-- How a round of the loop ends.
pub data Round : Type 0 where
  again : Aggr → Round
  stop : Aggr → Round

abbrev is_others : Prio → Bool
is_others others = true
is_others _ = false

-- The packet joins the aggregate.
unfoldable pub join_packet : Prio → List ℕ → List (List ℕ) → ℕ → Aggr → Aggr
join_packet prio skb rest frame_len a =
    let s = taken prio skb rest a.tx in
    record {
      bytes = a.bytes ++ pad4 (take frame_len skb);
      has_ctrl = a.has_ctrl || not (is_others prio);
      resumed = a.resumed || ltb s.tx_pending resume_threshold;
      tx = s;
    }

-- ESP_HOST_TX_LATENCY_BYPASS_SIZE
abbrev latency_bypass_size : ℕ
latency_bypass_size = 256

module _ (tx_aggr_size : ℕ) where
  -- A packet whose header was read.
  unfoldable pub take_packet : Prio → List ℕ → List (List ℕ) → Header → Aggr → Round
  unfolding join_packet
  take_packet prio skb rest h a =
      let frame_len = h.offset + h.len in
      let small = is_others prio && leb h.len latency_bypass_size in
      let dropped = record a { tx = taken prio skb rest a.tx } in
      let a' = join_packet prio skb rest frame_len a in
      if not (offset_valid h.offset) || (h.len == 0)
      then again dropped
      else if ltb (length skb) frame_len
      then again dropped
      else if small && not (length a.bytes == 0)
      then stop a
      else if ltb tx_aggr_size (length a.bytes + align4 frame_len)
      then stop a
      else if small
      then stop a'
      else again a'

  -- A round of the loop. A packet that is too short for a header is dropped: what the code reads
  -- behind it is not described.
  unfoldable pub round : Aggr → Round
  unfolding take_packet pick
  round a = if not (ltb (length a.bytes) tx_aggr_size) then stop a else elim (pick a.tx.items) [
    | none ↦ stop a
    | some prio ↦ elim (lane prio a.tx.tx_q) [
      | [] ↦ again (record a { tx = record a.tx { items = uncount prio a.tx.items } })
      | skb ∷ rest ↦ elim (get_header skb) [
        | none ↦ again (record a { tx = taken prio skb rest a.tx })
        | some h ↦ take_packet prio skb rest h a
      ]
    ]
  ]

  -- The loop, on fuel; none means that the fuel was not enough.
  unfoldable pub rounds : ℕ → Aggr → Option Aggr
  rounds zero a = none
  rounds (suc fuel) a = elim (round a) [ stop a' ↦ some a' | again a' ↦ rounds fuel a' ]

-- `aggr_len = 0`, `aggr_has_ctrl = false`
abbrev pub start : TxState → Aggr
start s = record { bytes = []; has_ctrl = false; resumed = false; tx = s }

-- The zeros up to the next block, as they are put behind an aggregate.
abbrev block_size : ℕ
block_size = 512

unfoldable pub pad_block : List ℕ → List ℕ
pad_block bytes = bytes ++ replicate ((block_size - length bytes % block_size) % block_size) 0

-- `buf_needed`
unfoldable pub buf_needed : ℕ → ℕ → ℕ
buf_needed tx_aggr_size aggr_len = (aggr_len + tx_aggr_size - 1) / tx_aggr_size
