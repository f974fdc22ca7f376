-- ===== src/Ctrl/Request/Delivery.antt =====
-- Who gets the response of an exchange of the control library.
use esp_hosted.Prelude.{
  ℕ, ◌+◌, ◌<◌, ◌≡◌, refl, ap, ◌∙◌, true, List, [], ◌∷◌, Option, none, some, length, arith, ◌⊎◌,
}
use esp_hosted.Ctrl.{Outcome, failure, Resp, Msg, resp_msg, Lib, Call, RxEnv, parse_resp}
use esp_hosted.Ctrl.Request.{
  Request, TxEnv, sent, ctrl_app_send_req, ctrl_wait_and_parse_sync_resp, next_uid, with_callback,
}
use esp_hosted.Ctrl.Request.Exchange.{
  after_rx, answers, Result, expire, conclude, exchange, idle, pending, IsRequest, IsIdle,
  send_registered,
}
use esp_hosted.Ctrl.Request.Answers.{
  reply, after, queued, expecting, process_async, process_sync, finish_async, finish_sync,
}
use esp_hosted.Ctrl.Request.Ends.{exchange-sent}

-- Who gets the response to a request: the callback, or the caller.
abbrev pub delivered : Option ℕ → Resp → List Call × Option Resp
delivered none r = ([], some r)
delivered (some cb) r = ((cb, r) ∷ [], none)

abbrev pub outcome : Result → List Call × Option Resp
outcome x = (x.calls, x.response)

-- Nothing fails.
abbrev pub all_well : TxEnv
all_well = record { compose_error = none; timer_ok = true; send_ok = true; has_app = true }

abbrev pub rx_well : RxEnv
rx_well = record { has_app = true; has_elem = true; put_ok = true }

module _ (u id : ℕ) (table events : List (Option ℕ)) (lo : 100 < id) (hi : id < 129)
    (len : length table ≡ 29) where
  -- Whatever uid is expected, the response is delivered.
  pub conclude-delivered :
      (cb x : Option ℕ) (v : ℕ) (o : Outcome)
      → (y : Result) × (conclude
            (record { msg_id = id; resp_cb = cb })
            (answers rx_well (reply u id table events lo hi len v o))
            (expecting u id table events lo hi len cb x)
          ≡ some y)
        × (outcome y ≡ delivered cb (parse_resp (reply u id table events lo hi len v o) x))
  unfolding conclude ctrl_wait_and_parse_sync_resp expire
  conclude-delivered none x v o = (
    _,
    ap (after_rx (record { msg_id = id; resp_cb = none }))
          (process_sync u id table events lo hi len v o x)
        ∙ ap some (
            finish_sync u id table events lo hi len []
              (queued u id table events lo hi len
                (parse_resp (reply u id table events lo hi len v o) x))
              refl),
    refl,
  )
  conclude-delivered (some cb) x v o = (
    _,
    ap (after_rx (record { msg_id = id; resp_cb = some cb }))
          (process_async u id table events lo hi len true true cb v o x)
        ∙ ap some (
            finish_async u id table events lo hi len cb _
              (after u id table events lo hi len (some cb)) refl),
    refl,
  )

  parse_expected :
      (v : ℕ) (o : Outcome)
      → (v ≡ u) ⊎ (v ≡ 0)
      → parse_resp (reply u id table events lo hi len v o) (some u)
        ≡ record { msg_id = id + 100; uid = v; status = o }
  unfolding parse_resp
  parse_expected v o h = ground arith

  pub parse_unexpected :
      (v : ℕ) (o : Outcome)
      → 0 < v
      → parse_resp (reply u id table events lo hi len v o) none
        ≡ record { msg_id = id + 100; uid = v; status = failure }
  unfolding parse_resp
  parse_unexpected v o h = ground arith

  pub send_well :
      (cb : Option ℕ) (w : ℕ)
      → next_uid w ≡ u
      → ctrl_app_send_req all_well (record { msg_id = id; resp_cb = cb }) (idle w table events)
        ≡ sent (pending u table events id cb)
  unfolding with_callback
  send_well none w e =
      send_registered w id table events lo hi len all_well none refl
      ∙ ap (λ k. sent (pending k table events id none)) e
  send_well (some cb) w e =
      send_registered w id table events lo hi len all_well (some cb) refl
      ∙ ap (λ k. sent (pending k table events id (some cb))) e

-- When nothing fails, the response to a request of an idle library, with the request's uid or with
-- none, is delivered with its own status: to the callback of an asynchronous request, once, and to
-- the caller of a synchronous one.
pub exchange-delivered :
    (r : Request) (l : Lib) (v : ℕ) (o : Outcome)
    → IsIdle l
    → IsRequest r
    → (v ≡ next_uid l.uid) ⊎ (v ≡ 0)
    → let m : Msg = record { msg_type = resp_msg; msg_id = r.msg_id + 100; uid = v; payload = o } in
      (x : Result) × (exchange all_well r (answers rx_well m) l ≡ some x)
      × (outcome x ≡ delivered r.resp_cb (record { msg_id = r.msg_id + 100; uid = v; status = o }))
exchange-delivered r l v o i q h =
    let u = next_uid l.uid in
    let table = l.resp_cb_table in
    let events = l.event_cb_table in
    let m : Msg = record { msg_type = resp_msg; msg_id = r.msg_id + 100; uid = v; payload = o } in
    let p = pending u table events r.msg_id r.resp_cb in
    let y =
      conclude-delivered u r.msg_id table events q.above q.below i.responses r.resp_cb (some u) v
        o in
    (
      y.0,
      exchange-sent all_well r (answers rx_well m) l p (
            ap (ctrl_app_send_req all_well r) i.at_rest
            ∙ send_well u r.msg_id table events q.above q.below i.responses r.resp_cb l.uid refl)
          ∙ y.1,
      y.2
          ∙ ap (delivered r.resp_cb)
              (parse_expected u r.msg_id table events q.above q.below i.responses v o h),
    )
