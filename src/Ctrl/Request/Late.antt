-- ===== src/Ctrl/Request/Late.antt =====
-- A response that comes late, or while a second request was made, goes wrong.
use esp_hosted.Ctrl.Request.Delivery.{
  delivered, outcome, all_well, rx_well, conclude-delivered, parse_unexpected, send_well,
}
use esp_hosted.Prelude.{
  ℕ, ◌+◌, ◌<◌, ◌≡◌, refl, ap, ◌∙◌, List, [], ◌∷◌, Option, none, some, length, set,
}
use esp_hosted.Ctrl.{
  Outcome, failure, Resp, Msg, resp_msg, Lib, Call, parse_resp, process_ctrl_rx_msg, deliver_resp,
}
use esp_hosted.Ctrl.Request.{
  Request, TxEnv, sent, failed, asserts, ctrl_app_send_req, ctrl_wait_and_parse_sync_resp, next_uid,
  with_callback, fail_req, send_composed,
}
use esp_hosted.Ctrl.Request.Exchange.{
  answers, silent, Result, conclude, exchange, idle, place, pending, IsRequest, not-expects,
  set_callback,
}
use esp_hosted.Ctrl.Request.Answers.{reply, after, expecting, finish_sync}
use esp_hosted.Ctrl.Request.Ends.{exchange-sent}

module _ (u id : ℕ) (table events : List (Option ℕ)) (lo : 100 < id) (hi : id < 129)
    (len : length table ≡ 29) where
  -- A request that is made while another is outstanding fails, and no response is expected any more.
  send_busy :
      (env : TxEnv) (r : Request) (cb : Option ℕ)
      → (calls : List Call) × (ctrl_app_send_req env r (pending u table events id cb)
          ≡ failed calls (expecting u id table events lo hi len cb none))
  unfolding ctrl_app_send_req fail_req
  send_busy env r cb = busy r.resp_cb
    where
      busy :
          (c : Option ℕ)
          → (calls : List Call) × (ctrl_app_send_req env
                (record r { resp_cb = c })
                (pending u table events id cb)
              ≡ failed calls (expecting u id table events lo hi len cb none))
      busy none = (_, refl)
      busy (some c) = (_, refl)

  -- While a request is outstanding, any other request fails, as it should; but the response to the
  -- first request, which carries its uid and any status, is then delivered as failed.
  pub busy_spoils :
      (env : TxEnv) (r : Request) (cb : Option ℕ) (o : Outcome)
      → 0 < u
      → (calls : List Call) × (k : Lib) × (ctrl_app_send_req env r (pending u table events id cb)
          ≡ failed calls k)
        × (x : Result) × (conclude
              (record { msg_id = id; resp_cb = cb })
              (answers rx_well (reply u id table events lo hi len u o))
              k
            ≡ some x)
        × (outcome x ≡ delivered cb (record { msg_id = id + 100; uid = u; status = failure }))
  busy_spoils env r cb o h =
      let b = send_busy env r cb in
      let y = conclude-delivered u id table events lo hi len cb none u o in
      (
        b.0,
        expecting u id table events lo hi len cb none,
        b.1,
        y.0,
        y.1,
        y.2 ∙ ap (delivered cb) (parse_unexpected u id table events lo hi len u o h),
      )

  times_out :
      conclude (record { msg_id = id; resp_cb = none }) silent (pending u table events id none)
      ≡ some (record { calls = []; response = none; lib = after u id table events lo hi len none })
  unfolding conclude ctrl_wait_and_parse_sync_resp
  times_out =
      ap some (finish_sync u id table events lo hi len [] (pending u table events id none) refl)

  -- The library when the response to a request that timed out has come after all.
  abbrev stale : Resp → Lib
  stale s = record (after u id table events lo hi len none) {
    ctrl_req_sem = 2;
    read_sem = 1;
    ctrl_msg_q = s ∷ [];
  }

  process_late :
      (v : ℕ) (o : Outcome)
      → 0 < v
      → process_ctrl_rx_msg rx_well
          (reply u id table events lo hi len v o)
          (after u id table events lo hi len none)
        ≡ some ([], stale (record { msg_id = id + 100; uid = v; status = failure }))
  unfolding process_ctrl_rx_msg deliver_resp
  process_late v o h =
      ap
        (deliver_resp rx_well (parse_resp (reply u id table events lo hi len v o) none)
          (after u id table events lo hi len none))
        (not-expects u id table events lo hi len (after u id table events lo hi len none) refl)
      ∙ ap (λ s. some ([], stale s)) (parse_unexpected u id table events lo hi len v o h)

  -- The next request on that library.
  abbrev asked_again : ℕ → Resp → Lib
  asked_again id' s = record (stale s) {
    uid = next_uid u;
    expected_resp_uid = some (next_uid u);
    ctrl_req_sem = 1;
    resp_cb_table = set (set table (place id) none) (place id') none;
  }

  send_again :
      (id' : ℕ) (s : Resp)
      → 100 < id'
      → id' < 129
      → ctrl_app_send_req all_well (record { msg_id = id'; resp_cb = none }) (stale s)
        ≡ sent (asked_again id' s)
  unfolding ctrl_app_send_req send_composed with_callback
  send_again id' s lo' hi' = ap (with_callback all_well (record { msg_id = id'; resp_cb = none })) (
      set_callback u id' table events lo' hi' len none (record (stale s) {
        uid = next_uid u;
        expected_resp_uid = some (next_uid u);
        ctrl_req_sem = 1;
      }))

-- A synchronous request to an idle library that times out leaves it idle; but if its response comes
-- after all, with its own uid or any other that is not 0, the next synchronous request, although it
-- is sent without error, gets that old response, as failed; and a third request that is made before
-- the response to the second has come meets the assertion that no response is expected.
pub late_response :
    (u id id' v : ℕ) (table events : List (Option ℕ)) (o : Outcome) (env : TxEnv) (r : Request)
    → IsRequest (record { msg_id = id; resp_cb = none })
    → IsRequest (record { msg_id = id'; resp_cb = none })
    → length table ≡ 29
    → 0 < v
    → let m : Msg = record { msg_type = resp_msg; msg_id = id + 100; uid = v; payload = o } in
      (x : Result) × (k : Lib) × (l : Lib) × (exchange all_well
          (record { msg_id = id; resp_cb = none })
          silent
          (idle u table events)
        ≡ some x)
      × (process_ctrl_rx_msg rx_well m x.lib ≡ some ([], k))
      × (ctrl_app_send_req all_well (record { msg_id = id'; resp_cb = none }) k ≡ sent l)
      × ((ctrl_wait_and_parse_sync_resp l).0
          ≡ some (record { msg_id = id + 100; uid = v; status = failure }))
      × (ctrl_app_send_req env r l ≡ asserts)
unfolding ctrl_app_send_req ctrl_wait_and_parse_sync_resp
late_response u id id' v table events o env r q q' len h =
    let u' = next_uid u in
    let s : Resp = record { msg_id = id + 100; uid = v; status = failure } in
    (
      record {
        calls = [];
        response = none;
        lib = after u' id table events q.above q.below len none;
      },
      stale u' id table events q.above q.below len s,
      asked_again u' id table events q.above q.below len id' s,
      exchange-sent all_well (record { msg_id = id; resp_cb = none }) silent (idle u table events)
            (pending u' table events id none)
            (send_well u' id table events q.above q.below len none u refl)
          ∙ times_out u' id table events q.above q.below len,
      process_late u' id table events q.above q.below len v o h,
      send_again u' id table events q.above q.below len id' s q'.above q'.below,
      refl,
      refl,
    )
