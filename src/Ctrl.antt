-- ===== src/Ctrl.antt =====
-- esp_hosted_fg/host/control_lib/src/ctrl_core.c: the callback tables of the host's control library,
-- and what it does with a message from the coprocessor. The semaphores are those of
-- host/linux/port/src/platform_wrapper.c, which count. The payloads of protobuf messages are left
-- out: a message comes with the status that the parser of its payload leaves. Callbacks are numbers,
-- and a call of one is a result.
pub mod Events
pub mod Request
use esp_hosted.Prelude.{
  ℕ, suc, ◌+◌, ◌-◌, Bool, true, false, not, List, [], ◌∷◌, ◌++◌, Option, none, some, get_elem?, set,
  ltb, leb, ◌==◌, ◌&&◌, ◌||◌, if◌then◌else◌,
}

-- CTRL_RESP_BASE, CTRL_RESP_MAX, CTRL_EVENT_BASE, CTRL_EVENT_MAX, CTRL_REQ_BASE
abbrev pub req_base : ℕ
req_base = 100

abbrev pub resp_base : ℕ
resp_base = 200

abbrev resp_max : ℕ
resp_max = 229

abbrev event_base : ℕ
event_base = 300

abbrev event_max : ℕ
event_max = 309

-- `resp_event_status`: SUCCESS, FAILURE, or one of the positive errors.
pub data Outcome : Type 0 where
  success failure : Outcome
  error : ℕ → Outcome

-- The fields of `ctrl_cmd_t` that a response or an event has.
pub record Resp : Type 0 where
  pub msg_id : ℕ
  pub uid : ℕ
  pub status : Outcome

-- `CtrlMsg`: the type, and what the parser of the payload makes of it.
pub data MsgType : Type 0 where
  req_msg resp_msg event_msg : MsgType

pub record Msg : Type 0 where
  pub msg_type : MsgType
  pub msg_id : ℕ
  pub uid : ℕ
  pub payload : Outcome

-- The static variables. `expected_resp_uid` is none for -1; the semaphores are their values; the
-- timer is the callback that it will call.
pub record Lib : Type 0 where
  pub uid : ℕ
  pub expected_resp_uid : Option ℕ
  pub ctrl_req_sem : ℕ
  pub read_sem : ℕ
  pub ctrl_msg_q : List Resp
  pub async_timer : Option ℕ
  pub resp_cb_table : List (Option ℕ)
  pub event_cb_table : List (Option ℕ)

-- CALLBACK_AVAILABLE or CALLBACK_SET_SUCCESS, CALLBACK_NOT_REGISTERED, MSG_ID_OUT_OF_ORDER
pub data CbStatus : Type 0 where
  available not_registered out_of_order : CbStatus

-- A call of a callback.
abbrev pub Call : Type 0
Call = ℕ × Resp

abbrev pub entry : List (Option ℕ) → ℕ → Option ℕ
entry table i = elim (get_elem? table i) [ none ↦ none | some cb ↦ cb ]

abbrev pub event_in_range : ℕ → Bool
event_in_range event = ltb event_base event && ltb event event_max

abbrev pub resp_in_range : ℕ → Bool
resp_in_range id = ltb resp_base id && ltb id resp_max

unfoldable pub is_event_callback_registered : ℕ → Lib → CbStatus
is_event_callback_registered event l =
    if not (event_in_range event)
    then out_of_order
    else elim (entry l.event_cb_table (event - event_base)) [
      | none ↦ not_registered
      | some cb ↦ available
    ]

-- The callback is none for NULL.
unfoldable pub set_event_callback : ℕ → Option ℕ → Lib → CbStatus × Lib
set_event_callback event cb l =
    if not (event_in_range event)
    then (out_of_order, l)
    else (available, record l { event_cb_table = set l.event_cb_table (event - event_base) cb })

unfoldable pub get_event_callback : ℕ → Lib → Option ℕ
get_event_callback event l =
    if not (event_in_range event) then none else entry l.event_cb_table (event - event_base)

unfoldable pub reset_event_callback : ℕ → Lib → CbStatus × Lib
unfolding set_event_callback
reset_event_callback event l = set_event_callback event none l

-- For a request id that is at least CTRL_REQ_BASE.
unfoldable pub set_async_resp_callback : ℕ → Option ℕ → Lib → CbStatus × Lib
set_async_resp_callback req_id cb l =
    let id = req_id - req_base + resp_base in
    if leb resp_max id
    then (out_of_order, l)
    else (available, record l { resp_cb_table = set l.resp_cb_table (id - resp_base) cb })

-- `is_async_resp_callback_registered_by_resp_msg_id`
unfoldable pub resp_callback : ℕ → Lib → CbStatus
resp_callback id l =
    if not (resp_in_range id) then out_of_order else elim (entry l.resp_cb_table (id - resp_base)) [
      | none ↦ not_registered
      | some cb ↦ available
    ]

-- `is_async_resp_callback_registered`, of a request whose id is at least CTRL_REQ_BASE.
unfoldable pub is_async_resp_callback_registered : ℕ → Lib → CbStatus
is_async_resp_callback_registered req_id l =
    let id = req_id - req_base + resp_base in
    if leb resp_max id then out_of_order else elim (entry l.resp_cb_table (id - resp_base)) [
      | none ↦ not_registered
      | some cb ↦ available
    ]

unfoldable pub call_async_resp_callback : Resp → Lib → List Call
call_async_resp_callback r l =
    if not (resp_in_range r.msg_id)
    then []
    else elim (entry l.resp_cb_table (r.msg_id - resp_base)) [ none ↦ [] | some cb ↦ (cb, r) ∷ [] ]

unfoldable pub call_event_callback : Resp → Lib → List Call
call_event_callback r l =
    if not (event_in_range r.msg_id)
    then []
    else elim (entry l.event_cb_table (r.msg_id - event_base)) [
      | none ↦ []
      | some cb ↦ (cb, r) ∷ []
    ]

-- `app_resp->uid && expected_resp_uid != app_resp->uid`
abbrev mismatch : Option ℕ → ℕ → Bool
mismatch expected uid = elim expected [
  | none ↦ not (uid == 0)
  | some e ↦ not (uid == 0) && not (e == uid)
]

-- `ctrl_app_parse_resp`: on a mismatch the status stays FAILURE.
unfoldable pub parse_resp : Msg → Option ℕ → Resp
parse_resp m expected = record {
  msg_id = m.msg_id;
  uid = m.uid;
  status = if mismatch expected m.uid then failure else m.payload;
}

-- What the allocator and the queue say during a call: the application's struct, the queue's
-- element, and `esp_queue_put`.
pub record RxEnv : Type 0 where
  pub has_app : Bool
  pub has_elem : Bool
  pub put_ok : Bool

-- A response that was parsed: to its callback, or to the queue of synchronous responses. `none` is a
-- double free: `free_buffers` frees the message that `ctrl_app_parse_resp` has freed.
unfoldable pub deliver_resp : RxEnv → Resp → Lib → CbStatus → Option (List Call × Lib)
deliver_resp env r l available =
    some (call_async_resp_callback r l, record l { ctrl_req_sem = l.ctrl_req_sem + 1 })
deliver_resp env r l _ =
    if env.has_elem && env.put_ok
    then some (
      [],
      record l {
        ctrl_msg_q = l.ctrl_msg_q ++ r ∷ [];
        read_sem = l.read_sem + 1;
        ctrl_req_sem = l.ctrl_req_sem + 1;
      },
    )
    else none

-- A response, from its allocation on: the timer is stopped, and no response is expected any more.
unfoldable pub process_resp : RxEnv → Msg → Lib → Option (List Call × Lib)
process_resp env m l =
    let l' = record l { async_timer = none; expected_resp_uid = none } in
    if env.has_app
    then deliver_resp env (parse_resp m l.expected_resp_uid) l' (resp_callback m.msg_id l')
    else some ([], l)

-- `process_ctrl_rx_msg`, for a message that was unpacked: the callbacks it calls, and the state;
-- `none` is a double free.
unfoldable pub process_ctrl_rx_msg : RxEnv → Msg → Lib → Option (List Call × Lib)
unfolding process_resp
process_ctrl_rx_msg env m l = elim m.msg_type [
  | event_msg ↦ elim (is_event_callback_registered m.msg_id l) [
    | available ↦
        if env.has_app
        then some
            (call_event_callback (record { msg_id = m.msg_id; uid = 0; status = m.payload }) l, l)
        else some ([], l)
    | _ ↦ some ([], l)
  ]
  | resp_msg ↦ process_resp env m l
  | req_msg ↦ some ([], l)
]
