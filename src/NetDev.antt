-- ===== src/NetDev.antt =====
-- esp_hosted_fg/host/linux/host_driver/esp32/main.c: the header put in front of an Ethernet packet
-- (`process_tx_packet`), and the validation and dispatch of a received frame.
pub mod FromSlave
pub mod Transfer
pub mod HostToSlave
pub mod SlaveToHost
use esp_hosted.Prelude.{
  ℕ, suc, ◌+◌, ◌*◌, ◌-◌, ◌/◌, ◌%◌, Bool, true, false, not, List, [], ◌∷◌, ◌++◌, Option, none, some,
  length, take, drop, replicate, ltb, leb, ◌==◌, ◌&&◌, ◌||◌, if◌then◌else◌,
}
use esp_hosted.Header.{
  Header, Frame, header_size, sta_if, ap_if, serial_if, hci_if, priv_if, test_if, put_header,
  get_header, compute_checksum,
}
use esp_hosted.SpiSlave.{clear_checksum, checksum_ok}
use esp_hosted.SpiHost.{if_type_of}

-- `struct net_device_stats`, the counters that are used.
pub record Stats : Type 0 where
  pub tx_packets : ℕ
  pub tx_bytes : ℕ
  pub tx_errors : ℕ
  pub tx_dropped : ℕ

-- `struct esp_private`
pub record Private : Type 0 where
  pub if_type : ℕ
  pub if_num : ℕ
  pub stats : Stats

-- What the kernel and the other parts of the driver decide during one call.
pub record TxEnv : Type 0 where
  pub queue_stopped : Bool
  pub host_sleeping : Bool
  pub headroom : ℕ
  pub data_aligned : Bool
  pub linearizes : Bool
  pub allocates : Bool
  pub stop_data : Bool
  pub sends : Bool

pub data TxResult : Type 0 where
  tx_ok tx_busy : TxResult

-- `pad_len`: the header, and at least one byte more so that the packet's end is aligned.
unfoldable pub pad_len : ℕ → ℕ
pad_len len = (header_size + (4 - (len + header_size) % 65536 % 4)) % 256

-- The buffer with the header in front; `memset` clears all of the room made.
unfoldable pub add_header : Private → List ℕ → List ℕ
unfolding pad_len
add_header priv pkt =
    let pad = pad_len (length pkt) in
    put_header
      (record {
        if_type = priv.if_type;
        if_num = priv.if_num;
        flags = 0;
        len = length pkt % 65536;
        offset = pad;
        checksum = 0;
        seq_num = 0;
        reserved2 = 0;
        pkt_type = 0;
      })
      (replicate (pad - header_size) 0 ++ pkt)

abbrev pub tx_error : Private → Private
tx_error priv = record priv { stats = record priv.stats { tx_errors = suc priv.stats.tx_errors } }

abbrev pub tx_sent : Private → ℕ → Private
tx_sent priv n = record priv {
  stats = record priv.stats {
    tx_packets = suc priv.stats.tx_packets;
    tx_bytes = priv.stats.tx_bytes + n;
  };
}

abbrev tx_drop : Private → Private
tx_drop priv = record priv { stats = record priv.stats { tx_dropped = suc priv.stats.tx_dropped } }

-- `process_tx_packet` for a packet of device `priv`: the result, what goes to `esp_send_packet`,
-- and the device.
unfoldable pub process_tx_packet : TxEnv → Private → List ℕ → TxResult × Option (List ℕ) × Private
unfolding add_header
process_tx_packet env priv pkt =
    let skb = add_header priv pkt in
    let realloc_skb = ltb env.headroom (pad_len (length pkt)) || not env.data_aligned in
    if env.queue_stopped || env.host_sleeping
    then (tx_busy, none, priv)
    else if realloc_skb && (not env.linearizes || not env.allocates)
    then (tx_ok, none, tx_error priv)
    else if env.stop_data
    then (tx_ok, none, tx_drop priv)
    else if env.sends
    then (tx_ok, some skb, tx_sent priv (length skb))
    else (tx_ok, some skb, tx_error priv)

-- `is_valid_rx_packet`: length and offset, if the header is accepted.
unfoldable pub is_valid_rx_packet : List ℕ → Option (ℕ × ℕ)
is_valid_rx_packet buf = elim (get_header buf) [
  | none ↦ none
  | some h ↦ if h.len == 0 || not (h.offset == header_size) then none else some (h.len, h.offset)
]

-- `get_priv_from_payload_header`: the first device of `adapter.priv` that the header names.
unfoldable pub get_priv_from_payload_header : List (Option Private) → Header → Option Private
get_priv_from_payload_header [] h = none
get_priv_from_payload_header (none ∷ ps) h = get_priv_from_payload_header ps h
get_priv_from_payload_header (some p ∷ ps) h =
    let rest = get_priv_from_payload_header ps h in
    if p.if_type == h.if_type && p.if_num == h.if_num then some p else rest

-- Where `process_skb` hands a frame.
pub data Target : Type 0 where
  to_serial : Frame → Target
  to_network : Private → List ℕ → Target
  to_bluetooth : List ℕ → Target
  to_events : List ℕ → Target
  to_raw_tp : ℕ → Target
  bad_checksum no_device unknown_if : Target

-- The branches of `process_skb` on the interface type.
unfoldable pub dispatch : List (Option Private) → Header → List ℕ → ℕ → ℕ → Target
dispatch privs h buf len offset =
    if h.if_type == serial_if
    then to_serial (record { hdr = h; payload = drop offset buf })
    else if h.if_type == sta_if || h.if_type == ap_if
    then (elim (get_priv_from_payload_header privs h) [
      | none ↦ no_device
      | some p ↦ to_network p (drop offset buf)
    ])
    else if h.if_type == hci_if
    then to_bluetooth buf
    else if h.if_type == priv_if
    then to_events buf
    else if h.if_type == test_if
    then to_raw_tp len
    else unknown_if

-- `process_skb`; the first argument is ESP_CHECKSUM_ENABLED of `capabilities`.
unfoldable pub process_skb : Bool → List (Option Private) → List ℕ → ℕ → ℕ → Option Target
unfolding dispatch
process_skb checksum_enabled privs buf len offset = elim (get_header buf) [
  | none ↦ none
  | some h ↦
      if checksum_enabled && not (checksum_ok h buf)
      then some bad_checksum
      else some (dispatch privs h (if checksum_enabled then clear_checksum buf else buf) len offset)
]

-- `process_rx_packet`: `none` for an invalid packet.
unfoldable pub process_rx_packet : Bool → List (Option Private) → List ℕ → Option Target
unfolding is_valid_rx_packet process_skb
process_rx_packet checksum_enabled privs buf = elim (is_valid_rx_packet buf) [
  | none ↦ none
  | some (len, offset) ↦ process_skb checksum_enabled privs buf len offset
]
