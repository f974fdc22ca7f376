-- ===== src/Reasm.antt =====
-- esp_hosted_fg/host/linux/host_driver/esp32/main.c: how `process_skb` puts the fragments of a
-- serial message together. The state of a device is `struct serial_reasm_state`; whether an
-- allocation succeeds is input. What is handed to `esp_serial_data_received` is the result.
pub mod Bounds
pub mod RoundTrip
pub mod Mismatch
use esp_hosted.Prelude.{
  ℕ, ◌+◌, ◌%◌, Bool, true, false, not, List, [], ◌∷◌, ◌++◌, Option, none, some, length, take, ltb,
  leb, ◌==◌, ◌&&◌, if◌then◌else◌,
}
use esp_hosted.Header.{Header, Frame, body, has_more}

-- `SERIAL_REASM_MAX_DEVS` and `SERIAL_REASM_MAX_LEN`
abbrev max_devs : ℕ
max_devs = 2

abbrev pub max_len : ℕ
max_len = 12288

pub record Reasm : Type 0 where
  pub buf : Option (List ℕ)
  pub len : ℕ
  pub last_seq : ℕ
  pub active : Bool

-- `serial_reasm_reset`, for a device number in range
unfoldable pub reset : Reasm
reset = record { buf = none; len = 0; last_seq = 0; active = false }

-- What becomes of a frame. `passed` is the path without reassembly, `delivered` a whole message.
pub data Action : Type 0 where
  dropped stored : Action
  passed : List ℕ → Action
  delivered : List ℕ → Action

abbrev pub bytes_of : Option (List ℕ) → List ℕ
bytes_of none = []
bytes_of (some b) = b

-- The fragment is copied behind the bytes that are there.
unfoldable pub append_fragment : Reasm → Frame → Reasm
append_fragment st f = record {
  buf = some (take st.len (bytes_of st.buf) ++ body f);
  len = st.len + f.hdr.len;
  last_seq = f.hdr.seq_num;
  active = has_more f.hdr.flags;
}

-- After a failed allocation: `krealloc` resets the state, `kmalloc` leaves it.
abbrev alloc_failed : Reasm → Option (List ℕ) → Reasm
alloc_failed st none = st
alloc_failed st (some b) = reset

-- From the test of the length on.
unfoldable add_fragment : Bool → Reasm → Frame → Reasm × Action
unfolding append_fragment reset
add_fragment ok st f =
    let st' = append_fragment st f in
    if ltb max_len (st.len + f.hdr.len)
    then (reset, dropped)
    else if ok
    then (if has_more f.hdr.flags then (st', stored) else (reset, delivered (bytes_of st'.buf)))
    else (alloc_failed st st.buf, dropped)

-- The branch of `process_skb` for a serial frame of one device.
unfoldable pub reasm_frame : Bool → Reasm → Frame → Reasm × Action
unfolding add_fragment reset
reasm_frame ok st f =
    let in_order = f.hdr.seq_num == (st.last_seq + 1) % 65536 in
    if not (has_more f.hdr.flags) && not st.active
    then (st, passed (body f))
    else if st.active && not in_order
    then add_fragment ok reset f
    else add_fragment ok st f

abbrev update : (ℕ → Reasm) → ℕ → Reasm → ℕ → Reasm
update devs i st j = if i == j then st else devs j

-- The same with the array of all devices, and the test of the device number.
unfoldable process_serial : Bool → (ℕ → Reasm) → Frame → (ℕ → Reasm) × Action
process_serial ok devs f =
    let (st, act) = reasm_frame ok (devs f.hdr.if_num) f in
    if leb max_devs f.hdr.if_num then (devs, dropped) else (update devs f.hdr.if_num st, act)

-- The messages that a sequence of frames of one device hands on, when every allocation succeeds.
abbrev messages_of : Action → List (List ℕ)
messages_of dropped = []
messages_of stored = []
messages_of (passed m) = m ∷ []
messages_of (delivered m) = m ∷ []

unfoldable pub reasm_frames : Reasm → List Frame → Reasm × List (List ℕ)
reasm_frames st [] = (st, [])
reasm_frames st (f ∷ fs) =
    let (st', act) = reasm_frame true st f in
    let (st'', ms) = reasm_frames st' fs in (st'', messages_of act ++ ms)
