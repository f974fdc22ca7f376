-- ===== src/Tlv.antt =====
-- The TLV framing of control messages: type, 16-bit length, value. The coprocessor's side is
-- esp_hosted_fg/esp/esp_driver/network_adapter/main/protocomm_pserial.c, the host's is
-- esp_hosted_fg/host/virtual_serial_if/src/serial_if.c. Memory is a function from offsets to bytes,
-- so that a read behind the end of a buffer has a meaning: it finds what lies there.
pub mod Memory
pub mod RoundTrip
pub mod Overrun
use esp_hosted.Prelude.{
  ℕ, zero, suc, ◌+◌, ◌-◌, ◌*◌, ◌/◌, ◌%◌, ◌^◌, Bool, true, false, not, List, [], ◌∷◌, ◌++◌, Option,
  none, some, length, take, drop, put, replicate, get_or, ltb, leb, ◌==◌, ◌&&◌, ◌||◌, if◌then◌else◌,
}

-- `PROTO_PSER_TLV_T_EPNAME`, `PROTO_PSER_TLV_T_DATA` and `EPNAME_MAX`
abbrev t_epname : ℕ
t_epname = 1

abbrev pub t_data : ℕ
t_data = 2

abbrev epname_max : ℕ
epname_max = 16

-- `CTRL_EP_NAME_RESP`, "ctrlResp", and `CTRL_EP_NAME_EVENT`, "ctrlEvnt"
abbrev pub ep_name_resp : List ℕ
ep_name_resp = 99 ∷ 116 ∷ 114 ∷ 108 ∷ 82 ∷ 101 ∷ 115 ∷ 112 ∷ []

abbrev pub ep_name_event : List ℕ
ep_name_event = 99 ∷ 116 ∷ 114 ∷ 108 ∷ 69 ∷ 118 ∷ 110 ∷ 116 ∷ []

abbrev pub list_eq : List ℕ → List ℕ → Bool
list_eq [] [] = true
list_eq [] (y ∷ ys) = false
list_eq (x ∷ xs) [] = false
list_eq (x ∷ xs) (y ∷ ys) = x == y && list_eq xs ys

-- One type, one length in two bytes, and the value.
abbrev tlv : ℕ → List ℕ → List ℕ
tlv t v = t ∷ (length v % 256) ∷ (length v / 256 % 256) ∷ v

-- `compose_tlv` of the coprocessor: the endpoint's name, then the data. The length of the data in
-- front of them is cut to 16 bits.
unfoldable pub compose_tlv : List ℕ → List ℕ → List ℕ
compose_tlv epname out = tlv t_epname epname ++ tlv t_data out

-- `compose_tlv` of the host: the bytes that it writes, and the count that it returns, a `uint16_t`.
unfoldable pub host_compose_tlv : List ℕ → List ℕ × ℕ
host_compose_tlv bytes = (
  tlv t_epname ep_name_resp ++ tlv t_data bytes,
  (3 + length ep_name_resp + 3 + length bytes) % 65536,
)

-- What `transport_pserial_send` does: it writes behind the end of its buffer, it fails before the
-- serial driver is called, or it calls `serial_drv_write` with these bytes.
pub data Sending : Type 0 where
  heap_overflow not_sent : Sending
  writes : List ℕ → Sending

-- `transport_pserial_send`: whether the buffer is allocated and the interface is open. `buf_len` is
-- a `uint16_t`.
unfoldable pub transport_pserial_send : Bool → Bool → List ℕ → Sending
transport_pserial_send has_buf is_open bytes =
    let buf_len = (3 + length ep_name_resp + 3 + length bytes) % 65536 in
    let msg = host_compose_tlv bytes in
    if not (has_buf && is_open)
    then not_sent
    else if ltb buf_len (length msg.0)
    then heap_overflow
    else if msg.1 == 0
    then not_sent
    else writes (take msg.1 msg.0)

-- `n` bytes of memory from offset `p` on.
abbrev pub read_mem : (ℕ → ℕ) → ℕ → ℕ → List ℕ
read_mem m p zero = []
read_mem m p (suc n) = m p ∷ read_mem m (p + 1) n

-- What the loop of the coprocessor's `parse_tlv` calls keeps: where it reads and how many bytes it
-- takes to be left (a 32-bit `size_t`), the name's buffer, and where the data are.
pub record Parser : Type 0 where
  pub pos : ℕ
  pub total_len : ℕ
  pub epname : List ℕ
  pub payload : Option (ℕ × ℕ)

-- `*out_len`, a `uint16_t` read in place
abbrev pub len_at : (ℕ → ℕ) → ℕ → ℕ
len_at m p = m (p + 1) + 256 * m (p + 2)

-- What `parse_tlv` does to the position and the bytes left: `total_len -= len + 3` wraps.
unfoldable pub advance : (ℕ → ℕ) → Parser → Parser
advance m s = record s {
  pos = s.pos + 3 + len_at m s.pos;
  total_len = (s.total_len + 2 ^ 32 - (len_at m s.pos + 3) % 2 ^ 32) % 2 ^ 32;
}

-- One round of the loop: `parse_tlv` and the `switch` on the type. `none` is ESP_FAIL.
unfoldable pub parse_round : (ℕ → ℕ) → Parser → Option Parser
parse_round m s =
    let n = len_at m s.pos in
    let s' = advance m s in
    if m s.pos == t_epname
    then (if leb (epname_max - 1) n
        then none
        else some (record s' { epname = put s.epname 0 (read_mem m (s.pos + 3) n) }))
    else if m s.pos == t_data
    then some (record s' { payload = some (s.pos + 3, n) })
    else none

-- The loop; it ends when no byte is left. `none` is ESP_FAIL, or a loop that has not ended.
unfoldable pub parse_loop : ℕ → (ℕ → ℕ) → Parser → Option Parser
parse_loop zero m s = none
parse_loop (suc fuel) m s =
    let next : Option Parser = elim (parse_round m s) [
      | none ↦ none
      | some s' ↦ parse_loop fuel m s'
    ] in
    if s.total_len == 0 then some s else next

-- The C string in a buffer.
abbrev c_string : List ℕ → List ℕ
c_string [] = []
c_string (zero ∷ b) = []
c_string (suc c ∷ b) = suc c ∷ c_string b

-- After the loop: data and name must be there. The result is the name and the data.
unfoldable pub parse_done : (ℕ → ℕ) → Parser → Option (List ℕ × List ℕ)
parse_done m s = elim s.payload [
  | none ↦ none
  | some (p, n) ↦
      if n == 0 || length (c_string s.epname) == 0
      then none
      else some (c_string s.epname, read_mem m p n)
]

abbrev pub parse_start : ℕ → Parser
parse_start in_len = record {
  pos = 0;
  total_len = in_len;
  epname = replicate epname_max 0;
  payload = none;
}

-- The parsing part of `protocomm_pserial_ctrl_req_handler`.
unfoldable pub parse_request : ℕ → (ℕ → ℕ) → ℕ → Option (List ℕ × List ℕ)
parse_request fuel m in_len = elim (parse_loop fuel m (parse_start in_len)) [
  | none ↦ none
  | some s ↦ parse_done m s
]

-- The host's `parse_tlv`: the length of the data behind a known endpoint's name, or FAILURE.
unfoldable pub host_parse_tlv : (ℕ → ℕ) → Option ℕ
host_parse_tlv m =
    let name = read_mem m 3 8 in
    if m 0 == t_epname
      && len_at m 0 == 8
      && (list_eq name ep_name_resp || list_eq name ep_name_event)
      && m 11 == t_data
    then some (len_at m 11)
    else none
