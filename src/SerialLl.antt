-- ===== src/SerialLl.antt =====
-- esp_hosted_fg/host/stm32/driver/serial/serial_ll_if.c: the fragments of a serial message on the
-- STM32 host. `hosted_free` does not reset the pointer that it gets, so a buffer can be freed and
-- still be pointed to; using it again is a fault. What the allocator and the queue answer is input.
pub mod Handler
pub mod Fragments
pub mod Dangling
pub mod Messages
use esp_hosted.Prelude.{
  ℕ, ◌+◌, ◌%◌, Bool, true, false, List, [], ◌∷◌, ◌++◌, Option, none, some, length, take, ltb, leb,
  ◌==◌, ◌&&◌, if◌then◌else◌,
}
use esp_hosted.Header.{has_more}
use esp_hosted.Slave.{Handle}

-- `serial_ll_state_e`
pub data LlState : Type 0 where
  init active destroy : LlState

-- `r.data`: NULL, a buffer, or a pointer to a buffer that is freed.
pub data RxPtr : Type 0 where
  no_buffer dangling : RxPtr
  buffer : List ℕ → RxPtr

-- What lies in the queue: a message, or one whose buffer is freed.
pub data Entry : Type 0 where
  message : List ℕ → Entry
  freed : Entry

-- `serial_ll_handle_t`
pub record Conn : Type 0 where
  pub state : LlState
  pub queue : List Entry
  pub has_callback : Bool

-- The static variables: `r` and `interface_handle_g`.
pub record SerialVars : Type 0 where
  pub r_data : RxPtr
  pub r_len : ℕ
  pub conns : ℕ → Option Conn

-- Whether `r.data` gets its memory, the copy gets its memory, and the queue takes the message.
pub record RxAnswers : Type 0 where
  pub data_ok : Bool
  pub copy_ok : Bool
  pub sent : Bool

-- What a call did: STM_OK after a fragment, STM_OK after a message, STM_FAIL.
pub data LlOutcome : Type 0 where
  collected notified failed : LlOutcome

abbrev pub max_serial_intf : ℕ
max_serial_intf = 2

abbrev is_active : LlState → Bool
is_active init = false
is_active active = true
is_active destroy = false

abbrev if_active : Option Conn → Option Conn
if_active none = none
if_active (some c) = if is_active c.state then some c else none

-- `get_serial_ll_handle`
abbrev pub get_serial_ll_handle : (ℕ → Option Conn) → ℕ → Option Conn
get_serial_ll_handle conns n = if ltb n max_serial_intf then if_active (conns n) else none

abbrev pub set_conn : (ℕ → Option Conn) → ℕ → Conn → ℕ → Option Conn
set_conn conns n c k = if k == n then some c else conns k

-- `serial_buff_cleanup`; `hosted_free` of a pointer that dangles is a fault.
abbrev pub free_data : SerialVars → RxPtr → Option (LlOutcome × SerialVars)
free_data s no_buffer = some (failed, record s { r_data = no_buffer; r_len = 0 })
free_data s (buffer b) = some (failed, record s { r_data = dangling; r_len = 0 })
free_data s dangling = none

abbrev pub cleanup : SerialVars → Option (LlOutcome × SerialVars)
cleanup s = free_data s s.r_data

-- SERIAL_ALLOC_REALLOC_RDATA and the copy behind it; none is a fault. A first buffer has room for
-- the payload only.
abbrev pub copy_payload : Bool → RxPtr → ℕ → List ℕ → Option RxPtr
copy_payload false no_buffer len payload = some no_buffer
copy_payload true no_buffer len payload = if len == 0 then some (buffer payload) else none
copy_payload false (buffer b) len payload = some no_buffer
copy_payload true (buffer b) len payload = some (buffer (take len b ++ payload))
copy_payload ok dangling len payload = none

-- The bytes of a message that its `payload_len`, a `uint16_t`, announces.
abbrev pub covered : List ℕ → List ℕ
covered msg = take (length msg % 65536) msg

-- The end of a message: the entry is queued, and its buffer freed when there is no callback.
abbrev pub queue_message :
    RxAnswers → SerialVars → ℕ → Conn → List ℕ → Option (LlOutcome × SerialVars)
queue_message env s n c msg =
    let empty : SerialVars = record s { r_data = no_buffer; r_len = 0 } in
    if env.sent
    then if c.has_callback
      then some (
        notified,
        record empty {
          conns = set_conn s.conns n (record c { queue = c.queue ++ (message (covered msg) ∷ []) });
        },
      )
      else cleanup (record empty {
        conns = set_conn s.conns n (record c { queue = c.queue ++ (freed ∷ []) });
      })
    else cleanup empty

-- What follows the copy.
abbrev pub after_copy :
    RxAnswers → SerialVars → ℕ → Conn → Bool → Option RxPtr → ℕ → Option (LlOutcome × SerialVars)
after_copy env s n c more none added = none
after_copy env s n c more (some dangling) added = none
after_copy env s n c more (some no_buffer) added = cleanup (record s { r_data = no_buffer })
after_copy env s n c more (some (buffer b)) added =
    let s' : SerialVars = record s { r_data = buffer b; r_len = s.r_len + added } in
    if more
    then some (collected, s')
    else if env.copy_ok
    then queue_message env s' n c (take (s.r_len + added) b)
    else cleanup s'

abbrev pub with_conn :
    RxAnswers → SerialVars → Handle → Option Conn → Option (LlOutcome × SerialVars)
with_conn env s h none = cleanup s
with_conn env s h (some c) =
    after_copy env s h.if_num c (has_more h.flag)
      (copy_payload env.data_ok s.r_data s.r_len h.payload) (length h.payload)

-- `serial_ll_rx_handler`, of a buffer that is not NULL; none is a fault.
unfoldable pub serial_ll_rx_handler :
    RxAnswers → SerialVars → Handle → Option (LlOutcome × SerialVars)
serial_ll_rx_handler env s h =
    if length h.payload == 0
    then cleanup s
    else with_conn env s h (get_serial_ll_handle s.conns h.if_num)

abbrev pub and_then :
    Option (LlOutcome × SerialVars) → (SerialVars → Option SerialVars) → Option SerialVars
and_then none k = none
and_then (some (o, s)) k = k s

-- The buffers that `process_rx_task` hands over, one after another.
abbrev pub rx_handles : RxAnswers → SerialVars → List Handle → Option SerialVars
rx_handles env s [] = some s
rx_handles env s (h ∷ hs) = and_then (serial_ll_rx_handler env s h) (λ s'. rx_handles env s' hs)
