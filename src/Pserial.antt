-- ===== src/Pserial.antt =====
-- esp_hosted_fg/esp/esp_driver/network_adapter/main/protocomm_pserial.c: the control task of the
-- coprocessor. The dispatcher of ESP-IDF (`protocomm_req_handle`) and the transmit function are
-- parameters, as is whether an allocation succeeds.
pub mod RoundTrip
use esp_hosted.Prelude.{
  ℕ, Bool, true, false, List, [], ◌∷◌, ◌++◌, Option, none, some, length, ltb, ◌==◌, ◌&&◌,
  if◌then◌else◌,
}
use esp_hosted.Slave.{RxData, serial_read_data}
use esp_hosted.Tlv.{compose_tlv, ep_name_resp, ep_name_event, parse_request}
use esp_hosted.Tlv.Memory.{mem}

-- `serial_arg_t`; `bytes` is empty where the pointer is null.
pub record SerialArg : Type 0 where
  pub msg_id : ℕ
  pub len : ℕ
  pub bytes : List ℕ

-- ESP_OK as `true`, and what `xmit` was called with.
pub record Handled : Type 0 where
  pub ok : Bool
  pub sent : Option (List ℕ)

abbrev pub failed : Handled
failed = record { ok = false; sent = none }

-- What the task uses: the dispatcher (endpoint, session, input), the transmit function, whether
-- `compose_tlv` gets its memory, and what lies in memory behind a message.
module _ (req_handle : List ℕ → ℕ → List ℕ → Option (List ℕ)) (xmit : List ℕ → Bool) (memory : Bool)
    (junk : ℕ → ℕ) where
  -- The end of both handlers: frame the output and transmit it.
  unfoldable pub respond : List ℕ → Option (List ℕ) → Handled
  respond epname none = failed
  respond epname (some out) =
      let msg = compose_tlv epname out in
      if memory then record { ok = xmit msg; sent = some msg } else failed

  -- `protocomm_pserial_ctrl_req_handler`, with fuel for its parsing loop.
  unfoldable pub ctrl_req_handler : ℕ → List ℕ → ℕ → Handled
  unfolding respond
  ctrl_req_handler fuel input in_len = elim (parse_request fuel (mem input junk) in_len) [
    | none ↦ failed
    | some (epname, payload) ↦ respond ep_name_resp (req_handle epname 0 payload)
  ]

  -- `protocomm_pserial_ctrl_evnt_handler`
  unfoldable ctrl_evnt_handler : List ℕ → ℕ → Handled
  unfolding respond
  ctrl_evnt_handler input msg_id = respond ep_name_event (req_handle ep_name_event msg_id input)

  -- One round of `pserial_task`, with the limits of the event numbers. For a request it reads the
  -- message from the serial channel; `none` if that gives nothing.
  unfoldable pub task_step : ℕ → ℕ → ℕ → RxData → SerialArg → RxData × Option Handled
  unfolding ctrl_req_handler ctrl_evnt_handler
  task_step fuel event_base event_max r arg =
      let (r', input, n) = serial_read_data r arg.len in
      if ltb event_base arg.msg_id && ltb arg.msg_id event_max
      then (r, some (ctrl_evnt_handler arg.bytes arg.msg_id))
      else if n == 0
      then (r', none)
      else (r', some (ctrl_req_handler fuel input n))

-- `protocomm_pserial_data_ready`: the argument that is queued, if the copy gets its memory.
unfoldable pub data_ready : Bool → List ℕ → ℕ → ℕ → Option SerialArg
data_ready memory input len msg_id =
    if len == 0
    then some (record { msg_id = msg_id; len = 0; bytes = [] })
    else if memory
    then some (record { msg_id = msg_id; len = len; bytes = input })
    else none

-- `parse_protobuf_req` of esp_hosted_coprocessor.c; `unknown_msg_id` is UNKNOWN_CTRL_MSG_ID.
unfoldable pub parse_protobuf_req : Bool → ℕ → RxData → Option SerialArg
unfolding data_ready
parse_protobuf_req memory unknown_msg_id r = data_ready memory r.bytes r.len unknown_msg_id
