-- ===== src/Ctrl/Request.antt =====
-- How the control library of esp_hosted_fg/host/control_lib/src/ctrl_core.c sends a request, waits
-- for the response of a synchronous one, and times out an asynchronous one.
pub mod Exchange
pub mod Answers
pub mod Ends
pub mod Delivery
pub mod Late
use esp_hosted.Prelude.{
  ℕ, ◌+◌, ◌-◌, Bool, true, false, not, List, [], ◌∷◌, Option, none, some, ltb, ◌==◌, if◌then◌else◌,
}
use esp_hosted.Ctrl.{
  Outcome, success, failure, error, Resp, Lib, CbStatus, available, not_registered, out_of_order,
  Call, req_base, resp_base, set_async_resp_callback,
}

-- CTRL_ERR_REQUEST_TIMEOUT, CTRL_ERR_SET_ASYNC_CB, CTRL_ERR_TRANSPORT_SEND, CTRL_ERR_REQ_IN_PROG
abbrev request_timeout : ℕ
request_timeout = 13

abbrev set_async_cb : ℕ
set_async_cb = 11

abbrev transport_send : ℕ
transport_send = 12

abbrev req_in_prog : ℕ
req_in_prog = 14

abbrev int32_max : ℕ
int32_max = 2147483647

-- A request, and what is around the call: whether the request can be composed and encoded, and the
-- error if not; the timer; the serial transport; the memory for a failure report.
pub record Request : Type 0 where
  pub msg_id : ℕ
  pub resp_cb : Option ℕ

pub record TxEnv : Type 0 where
  pub compose_error : Option ℕ
  pub timer_ok : Bool
  pub send_ok : Bool
  pub has_app : Bool

-- How a call ends: SUCCESS or FAILURE with the callbacks it calls, or the failed assertion that no
-- response is expected.
pub data Sent : Type 0 where
  sent : Lib → Sent
  failed : List Call → Lib → Sent
  asserts : Sent

-- From `fail_req` on: `got_sem` says that `ctrl_req_sem` is given back.
unfoldable pub fail_req : TxEnv → Request → Bool → ℕ → Lib → Sent
fail_req env r got_sem status l =
    let l' = record l {
      expected_resp_uid = none;
      ctrl_req_sem = if got_sem then l.ctrl_req_sem + 1 else l.ctrl_req_sem;
    } in
    let report : Resp = record {
      msg_id = r.msg_id - req_base + resp_base;
      uid = 0;
      status = if status == 0 then success else error status;
    } in
    elim r.resp_cb [
      | none ↦ failed [] l'
      | some cb ↦ failed (if env.has_app then (cb, report) ∷ [] else []) l'
    ]

abbrev next_uid : ℕ → ℕ
next_uid uid = if ltb uid int32_max then uid + 1 else 1

-- Behind `set_async_resp_callback`: the timer, and the transport.
unfoldable pub with_callback : TxEnv → Request → CbStatus × Lib → Sent
with_callback env r (available, l) = elim r.resp_cb [
  | none ↦ if env.send_ok then sent l else fail_req env r true transport_send l
  | some cb ↦
      let l' = record l { async_timer = some cb } in
      if not env.timer_ok
      then fail_req env r true 0 (record l { async_timer = none })
      else if env.send_ok
      then sent l'
      else fail_req env r false transport_send l'
]
with_callback env r (_, l) = fail_req env r true set_async_cb l

-- From the encoded request on.
unfoldable pub send_composed : TxEnv → Request → Lib → Sent
send_composed env r l = with_callback env r (set_async_resp_callback r.msg_id r.resp_cb l)

-- `ctrl_app_send_req`, of a request that is not null; nothing else happens while it waits for
-- `ctrl_req_sem`.
unfoldable pub ctrl_app_send_req : TxEnv → Request → Lib → Sent
ctrl_app_send_req env r l =
    let u = next_uid l.uid in
    let l' = record l { ctrl_req_sem = l.ctrl_req_sem - 1; uid = u; expected_resp_uid = some u } in
    if l.ctrl_req_sem == 0 then fail_req env r false req_in_prog l else elim l.expected_resp_uid [
      | some e ↦ asserts
      | none ↦ elim env.compose_error [
        | some status ↦ fail_req env r true status l'
        | none ↦ send_composed env r l'
      ]
    ]

-- `get_response`: the response or NULL, and the state. The wait for `read_sem` ends at once if it is
-- positive, and by its time limit otherwise.
unfoldable pub get_response : Lib → Option Resp × Lib
get_response l =
    if l.read_sem == 0
    then (none, record l { ctrl_req_sem = l.ctrl_req_sem + 1 })
    else elim l.ctrl_msg_q [
      | [] ↦ (none, record l { read_sem = l.read_sem - 1 })
      | r ∷ rest ↦ (some r, record l { read_sem = l.read_sem - 1; ctrl_msg_q = rest })
    ]

unfoldable pub ctrl_wait_and_parse_sync_resp : Lib → Option Resp × Lib
unfolding get_response
ctrl_wait_and_parse_sync_resp l =
    let g = get_response l in
    elim g.0 [ none ↦ (none, record g.1 { expected_resp_uid = none }) | some r ↦ (some r, g.1) ]

-- `ctrl_async_timeout_handler`, when the timer of a callback expires. The response that it reports
-- has no id.
unfoldable pub ctrl_async_timeout_handler : Bool → ℕ → Lib → List Call × Lib
ctrl_async_timeout_handler has_app cb l =
    let l' = record l { expected_resp_uid = none; ctrl_req_sem = l.ctrl_req_sem + 1 } in
    if not has_app then ([], l') else (
      (cb, record { msg_id = 0; uid = 0; status = error request_timeout }) ∷ [],
      record l' { async_timer = none },
    )
