-- ===== src/Serial.antt =====
-- esp_hosted_fg/host/linux/host_driver/esp32/esp_serial.c: the character device /dev/esps0 of the
-- Linux host. Frames that the slave sends reach the device's ring buffer, what a user writes goes
-- out in fragments. There is one device (ESP_SERIAL_MINOR_MAX). Signals, allocations, copies and
-- the transport below are input.
pub mod Receive
pub mod Fragments
pub mod Deliver
use esp_hosted.Prelude.{
  ℕ, zero, suc, ◌+◌, ◌-◌, ◌%◌, ◌<◌, ◌*◌, ◌^◌, Bool, true, false, not, List, [], ◌∷◌, Option, none,
  some, length, take, drop, ltb, leb, ◌==◌, ◌&&◌, ◌||◌, if◌then◌else◌,
}
use esp_hosted.Errno.{Errno, Ret, done, fail, eagain, einval, enodev, ebusy}
use esp_hosted.Header.{Header, Frame, header_size, serial_if, more_fragment}
use esp_hosted.Ring.{Rb, Read, get_free_space, write_by_kernel, read_by_user, Wake}

-- `ESP_SERIAL_MINOR_MAX`, `ESP_SERIAL_MAX_TX` and `ETH_DATA_LEN`
abbrev minor_max : ℕ
minor_max = 1

abbrev pub max_tx : ℕ
max_tx = 8192 - (header_size + 8)

abbrev pub eth_data_len : ℕ
eth_data_len = 1500

-- The loop of `esp_serial_data_received` over the bytes that are left. `sig i` says that a signal
-- interrupts the i-th write, `got` is `ret_len`, `ret` the result of the last write.
unfoldable pub receive_loop : ℕ → (ℕ → Bool) → ℕ → Rb → List ℕ → ℕ → Ret → Rb × ℕ × Ret
receive_loop zero sig i rb left got ret = (rb, got, ret)
receive_loop (suc fuel) sig i rb left got ret =
    let (rb', r) = write_by_kernel (sig i) rb left in
    let next : Rb × ℕ × Ret = elim r [
      | fail e ↦ (rb', got, fail e)
      | done n ↦
          let more = receive_loop fuel sig (i + 1) rb' (drop n left) (got + n) (done n) in
          if n == 0 then (rb', got, done 0) else more
    ] in
    if length left == 0 then (rb, got, ret) else next

-- `if (ret <= 0) return ret; return ret_len;`
abbrev pub received_ret : ℕ → Ret → Ret
received_ret got (fail e) = fail e
received_ret got (done n) = if n == 0 then done 0 else done got

-- `esp_serial_data_received`. One write at least advances, so the loop ends within one more round
-- than there are bytes.
unfoldable pub data_received : (ℕ → Bool) → ℕ → ℕ → Rb → List ℕ → Rb × Ret
data_received sig ref_count dev_index rb bytes =
    let (rb', got, ret) = receive_loop (suc (length bytes)) sig 0 rb bytes 0 (done 0) in
    if leb minor_max dev_index
    then (rb, fail einval)
    else if ref_count == 0
    then (rb, done (length bytes))
    else (rb', received_ret got ret)

-- What a file of the device and the driver's counters hold. `priv` says that the adapter is set.
pub record Dev : Type 0 where
  pub rb : Rb
  pub ref_count : ℕ
  pub seq_num : ℕ
  pub priv : Bool

-- `esp_serial_open`
unfoldable open_dev : Dev → Dev × Ret
open_dev d =
    if leb 1 d.ref_count
    then (d, fail ebusy)
    else (record d { ref_count = d.ref_count + 1 }, done 0)

-- `esp_serial_release`
unfoldable release_dev : Dev → Dev × Ret
release_dev d = (if d.ref_count == 0 then d else record d { ref_count = d.ref_count - 1 }, done 0)

-- `esp_serial_read`. `state` is the adapter's state, 0 when it is disabled.
unfoldable read_dev :
    ℕ → Bool → Bool → List Wake → Bool → Bool → Dev → ℕ → Option (Dev × Ret × List ℕ)
read_dev state interrupted block wakes ok1 ok2 d sz =
    if not d.priv || state == 0
    then some (d, fail enodev, [])
    else elim (read_by_user interrupted block wakes ok1 ok2 d.rb sz) [
      | none ↦ none
      | some r ↦
          some
            (record d { rb = r.rb }, elim r.ret [ done zero ↦ fail eagain | other ↦ other ], r.out)
    ]

-- `esp_serial_poll`: (readable, writable)
unfoldable poll_dev : Dev → Bool × Bool
poll_dev d = (not (d.rb.rp == d.rb.wp), not (get_free_space d.rb == 0))

-- What each round of the loop of `esp_serial_write` meets.
pub record TxEnv : Type 0 where
  pub is_ready : Bool
  pub alloc_ok : Bool
  pub copy_ok : Bool
  pub send_ok : Bool

pub record Written : Type 0 where
  pub ret : Ret
  pub frames : List Frame
  pub ref_count : ℕ

abbrev frag_len : ℕ → ℕ
frag_len left = if ltb eth_data_len left then eth_data_len else left

abbrev frag_flag : ℕ → ℕ
frag_flag left = if ltb eth_data_len left then more_fragment else 0

-- The header of a fragment.
abbrev frag_header : ℕ → ℕ → Header
frag_header seq left = record {
  if_type = serial_if;
  if_num = 0;
  flags = frag_flag left;
  len = frag_len left % 65536;
  offset = header_size;
  checksum = 0;
  seq_num = seq;
  reserved2 = 0;
  pkt_type = 0;
}

-- The loop of `esp_serial_write` with the user's bytes that are left.
unfoldable pub write_loop : ℕ → (ℕ → TxEnv) → ℕ → ℕ → ℕ → ℕ → List ℕ → Written
write_loop zero env i size seq refs left = record { ret = done size; frames = []; ref_count = refs }
write_loop (suc fuel) env i size seq refs left =
    let n = frag_len (length left) in
    let f : Frame = record { hdr = frag_header seq (length left); payload = take n left } in
    let later = write_loop fuel env (i + 1) size seq refs (drop n left) in
    let sent_some : Written = record {
      ret = done (size - length left);
      frames = [];
      ref_count = refs;
    } in
    let sent : Written =
      if length left - n == 0
      then record { ret = done size; frames = f ∷ []; ref_count = refs }
      else record later { frames = f ∷ later.frames } in
    if not (env i).is_ready
    then record { ret = fail enodev; frames = []; ref_count = refs - 1 }
    else if (env i).alloc_ok && (env i).copy_ok && (env i).send_ok
    then sent
    else sent_some

-- `esp_serial_write`. Each round sends a byte at least, or is the last one.
unfoldable pub write_dev : (ℕ → TxEnv) → Dev → List ℕ → Dev × Ret × List Frame
write_dev env d bytes =
    let seq = (d.seq_num + 1) % 65536 in
    let w = write_loop (suc (length bytes)) env 0 (length bytes) seq d.ref_count bytes in
    if ltb max_tx (length bytes)
    then (d, done 0, [])
    else if not d.priv
    then (record d { seq_num = seq }, fail enodev, [])
    else (record d { seq_num = seq; ref_count = w.ref_count }, w.ret, w.frames)

-- The loop of `process_skb` in main.c that hands an unfragmented packet to the device, with `got`
-- bytes accepted so far. `others i` is what the readers do to the ring after the i-th call. `none`
-- is a loop that has not ended after `fuel` rounds.
unfoldable pub pass_loop :
    ℕ → (ℕ → Bool) → (ℕ → Rb → Rb) → ℕ → ℕ → ℕ → Rb → List ℕ → ℕ → Option (Rb × Bool)
pass_loop zero sig others i refs dev_index rb bytes got = none
pass_loop (suc fuel) sig others i refs dev_index rb bytes got =
    let (rb', r) = data_received sig refs dev_index rb (drop got bytes) in
    elim r [
      | fail e ↦ some (rb', false)
      | done n ↦
          let more =
            pass_loop fuel sig others (i + 1) refs dev_index (others i rb') bytes (got + n) in
          if ltb (got + n) (length bytes) then more else some (rb', true)
    ]
