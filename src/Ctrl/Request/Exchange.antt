-- ===== src/Ctrl/Request/Exchange.antt =====
-- A whole exchange of the control library: a request, what comes back, and the wait or the timer.
use esp_hosted.Prelude.{
  ℕ, ◌+◌, ◌-◌, ◌<◌, ◌≡◌, refl, ap, ◌∙◌, true, List, [], Option, none, some, length, length-set, set,
  get_elem?-set_self, arith, ◌++◌,
}
use esp_hosted.Ctrl.{
  set_async_resp_callback, Resp, Msg, resp_msg, Lib, available, not_registered, Call, RxEnv,
  process_ctrl_rx_msg, is_async_resp_callback_registered, entry, resp_callback,
}
use esp_hosted.Ctrl.Request.{
  Request, TxEnv, sent, failed, asserts, ctrl_app_send_req, ctrl_wait_and_parse_sync_resp,
  ctrl_async_timeout_handler, next_uid, send_composed, with_callback, fail_req,
}

-- What the coprocessor does with a request that was sent.
pub data Fate : Type 0 where
  answers : RxEnv → Msg → Fate
  silent : Fate

-- The callbacks that were called, and what a synchronous caller gets.
pub record Result : Type 0 where
  pub calls : List Call
  pub response : Option Resp
  pub lib : Lib

-- The timer expires if it runs.
unfoldable pub expire : List Call → Lib → Result
expire calls l = elim l.async_timer [
  | none ↦ record { calls = calls; response = none; lib = l }
  | some cb ↦
      let t = ctrl_async_timeout_handler true cb l in
      record { calls = calls ++ t.0; response = none; lib = t.1 }
]

-- An API function of ctrl_api.c after it has sent its request, and the timer.
unfoldable pub finish : Request → List Call → Lib → Result
unfolding expire
finish r calls l = elim (is_async_resp_callback_registered r.msg_id l) [
  | available ↦ expire calls l
  | _ ↦
      let w = ctrl_wait_and_parse_sync_resp l in record { calls = calls; response = w.0; lib = w.1 }
]

abbrev pub after_rx : Request → Option (List Call × Lib) → Option Result
after_rx r none = none
after_rx r (some (calls, l)) = some (finish r calls l)

-- What follows a request that was sent; none is a double free.
unfoldable pub conclude : Request → Fate → Lib → Option Result
conclude r silent l = some (finish r [] l)
conclude r (answers rx m) l = after_rx r (process_ctrl_rx_msg rx m l)

-- An exchange; none is the failed assertion, or a double free.
unfoldable pub exchange : TxEnv → Request → Fate → Lib → Option Result
unfolding conclude expire
exchange env r fate l = elim (ctrl_app_send_req env r l) [
  | asserts ↦ none
  | failed calls l' ↦ some (expire calls l')
  | sent l' ↦ conclude r fate l'
]

-- The library between requests, and while one is outstanding.
abbrev pub idle : ℕ → List (Option ℕ) → List (Option ℕ) → Lib
idle u table events = record {
  uid = u;
  expected_resp_uid = none;
  ctrl_req_sem = 1;
  read_sem = 0;
  ctrl_msg_q = [];
  async_timer = none;
  resp_cb_table = table;
  event_cb_table = events;
}

-- The place of a request in the table, and the table with its callback.
abbrev pub place : ℕ → ℕ
place id = id - 100 + 200 - 200

abbrev pub pending : ℕ → List (Option ℕ) → List (Option ℕ) → ℕ → Option ℕ → Lib
pending u table events id cb = record {
  uid = u;
  expected_resp_uid = some u;
  ctrl_req_sem = 0;
  read_sem = 0;
  ctrl_msg_q = [];
  async_timer = cb;
  resp_cb_table = set table (place id) cb;
  event_cb_table = events;
}

-- The ids between CTRL_REQ_BASE and CTRL_REQ_MAX.
pub record IsRequest (r : Request) : Type 0 where
  pub above : 100 < r.msg_id
  pub below : r.msg_id < 129

module _ (u id : ℕ) (table events : List (Option ℕ)) (lo : 100 < id) (hi : id < 129)
    (len : length table ≡ 29) where
  pub set_callback :
      (cb : Option ℕ) (l : Lib)
      → set_async_resp_callback id cb l
        ≡ (available, record l { resp_cb_table = set l.resp_cb_table (place id) cb })
  unfolding set_async_resp_callback
  set_callback cb l = ground arith

  -- The state in which the callback is set.
  abbrev asked : Lib
  asked = record (idle (next_uid u) table events) {
    expected_resp_uid = some (next_uid u);
    ctrl_req_sem = 0;
  }

  pub send_registered :
      (env : TxEnv) (cb : Option ℕ)
      → env.compose_error ≡ none
      → ctrl_app_send_req env (record { msg_id = id; resp_cb = cb }) (idle u table events)
        ≡ with_callback env
            (record { msg_id = id; resp_cb = cb })
            (available, record asked { resp_cb_table = set table (place id) cb })
  unfolding ctrl_app_send_req send_composed
  send_registered env cb e =
      ap
        (λ c. elim c [
          | some status ↦ fail_req env (record { msg_id = id; resp_cb = cb }) true status asked
          | none ↦ send_composed env (record { msg_id = id; resp_cb = cb }) asked
        ])
        e
      ∙ ap (with_callback env (record { msg_id = id; resp_cb = cb })) (set_callback cb asked)

  pub entry-place : (cb : Option ℕ) → entry (set table (place id) cb) (place id) ≡ cb
  entry-place cb =
      ap (λ o. elim o [ none ↦ none | some c ↦ c ])
        (get_elem?-set_self table (place id) cb (omega arith))

  pub registered :
      (l : Lib) (cb : ℕ)
      → l.resp_cb_table ≡ set table (place id) (some cb)
      → is_async_resp_callback_registered id l ≡ available
  unfolding is_async_resp_callback_registered
  registered l cb e =
      let k : entry l.resp_cb_table (place id) ≡ some cb = rw e (entry-place (some cb)) in
      ground (arith, k)

  pub not-registered :
      (l : Lib)
      → l.resp_cb_table ≡ set table (place id) none
      → is_async_resp_callback_registered id l ≡ not_registered
  unfolding is_async_resp_callback_registered
  not-registered l e =
      let k : entry l.resp_cb_table (place id) ≡ none = rw e (entry-place none) in ground (arith, k)

  pub expects :
      (l : Lib) (cb : ℕ)
      → l.resp_cb_table ≡ set table (place id) (some cb)
      → resp_callback (id + 100) l ≡ available
  unfolding resp_callback
  expects l cb e =
      let k : entry l.resp_cb_table (place id) ≡ some cb = rw e (entry-place (some cb)) in
      let i : id + 100 - 200 ≡ place id = omega arith in ground (arith, k, i)

  pub not-expects :
      (l : Lib)
      → l.resp_cb_table ≡ set table (place id) none
      → resp_callback (id + 100) l ≡ not_registered
  unfolding resp_callback
  not-expects l e =
      let k : entry l.resp_cb_table (place id) ≡ none = rw e (entry-place none) in
      let i : id + 100 - 200 ≡ place id = omega arith in ground (arith, k, i)

-- No request is outstanding, and the table has its size.
pub record IsIdle (l : Lib) : Type 0 where
  pub at_rest : l ≡ idle l.uid l.resp_cb_table l.event_cb_table
  pub responses : length l.resp_cb_table ≡ 29

-- What is promised of an exchange.
abbrev pub Ended : Option Result → Type 0
Ended o = (x : Result) × (o ≡ some x) × IsIdle x.lib

-- The element of the queue, which a synchronous response needs, is allocated and put.
abbrev pub HasElement : Option ℕ → RxEnv → Type 0
HasElement none rx = (rx.has_elem ≡ true) × (rx.put_ok ≡ true)
HasElement (some cb) rx = Unit

abbrev pub IsReply : Request → Fate → Type 0
IsReply r silent = Unit
IsReply r (answers rx m) =
    (m.msg_type ≡ resp_msg) × (m.msg_id ≡ r.msg_id + 100) × HasElement r.resp_cb rx

pub idle-IsIdle :
    (u id : ℕ) (cb : Option ℕ) (table events : List (Option ℕ))
    → length table ≡ 29
    → IsIdle (idle u (set table (place id) cb) events)
idle-IsIdle u id cb table events h = record {
  at_rest = refl;
  responses = length-set table (place id) cb ∙ h;
}
