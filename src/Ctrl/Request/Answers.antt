-- ===== src/Ctrl/Request/Answers.antt =====
-- Every exchange of the control library ends, with the library idle again, and the response goes to
-- the one who asked.
use esp_hosted.Prelude.{
  ℕ, ◌+◌, ◌<◌, ◌≡◌, refl, ap, ◌∙◌, Bool, true, false, List, [], ◌∷◌, Option, none, some, length,
  set, arith, ◌-◌,
}
use esp_hosted.Ctrl.{
  Outcome, Resp, Msg, resp_msg, Lib, available, Call, process_ctrl_rx_msg, parse_resp,
  call_async_resp_callback, deliver_resp, RxEnv,
}
use esp_hosted.Ctrl.Request.{ctrl_wait_and_parse_sync_resp, ctrl_async_timeout_handler}
use esp_hosted.Ctrl.Request.Exchange.{
  Ended, after_rx, Fate, answers, silent, expire, finish, conclude, idle, place, pending, IsIdle,
  idle-IsIdle, registered, not-registered, expects, not-expects, entry-place,
}

module _ (u id : ℕ) (table events : List (Option ℕ)) (lo : 100 < id) (hi : id < 129)
    (len : length table ≡ 29) where
  -- A response to the request.
  abbrev pub reply : ℕ → Outcome → Msg
  reply v o = record { msg_type = resp_msg; msg_id = id + 100; uid = v; payload = o }

  abbrev pub after : Option ℕ → Lib
  after cb = idle u (set table (place id) cb) events

  -- A response waits to be fetched.
  abbrev pub queued : Resp → Lib
  queued r = record (after none) { ctrl_msg_q = r ∷ []; read_sem = 1 }

  -- What a response finds: the timer stopped, and no response expected.
  abbrev pub stopped : Option ℕ → Lib
  stopped cb = record (pending u table events id cb) {
    async_timer = none;
    expected_resp_uid = none;
  }

  call-async :
      (cb : ℕ) (r : Resp)
      → r.msg_id ≡ id + 100
      → call_async_resp_callback r (stopped (some cb)) ≡ (cb, r) ∷ []
  unfolding call_async_resp_callback
  call-async cb r h =
      let e = entry-place u id table events lo hi len (some cb) in
      let i : r.msg_id - 200 ≡ place id = omega (arith, h) in ground (arith, e, i, h)

  -- A request is outstanding, and the uid `x` is expected.
  abbrev pub expecting : Option ℕ → Option ℕ → Lib
  expecting cb x = record (pending u table events id cb) { expected_resp_uid = x }

  parsed : (v : ℕ) (o : Outcome) (x : Option ℕ) → (parse_resp (reply v o) x).msg_id ≡ id + 100
  unfolding parse_resp
  parsed v o x = refl

  pub process_async :
      (he po : Bool) (cb v : ℕ) (o : Outcome) (x : Option ℕ)
      → process_ctrl_rx_msg
          (record { has_app = true; has_elem = he; put_ok = po })
          (reply v o)
          (expecting (some cb) x)
        ≡ some ((cb, parse_resp (reply v o) x) ∷ [], after (some cb))
  unfolding process_ctrl_rx_msg deliver_resp
  process_async he po cb v o x =
      ap
        (deliver_resp (record { has_app = true; has_elem = he; put_ok = po })
          (parse_resp (reply v o) x) (stopped (some cb)))
        (expects u id table events lo hi len (stopped (some cb)) cb refl)
      ∙ ap (λ c. some (c, after (some cb)))
          (call-async cb (parse_resp (reply v o) x) (parsed v o x))

  pub process_sync :
      (v : ℕ) (o : Outcome) (x : Option ℕ)
      → process_ctrl_rx_msg
          (record { has_app = true; has_elem = true; put_ok = true })
          (reply v o)
          (expecting none x)
        ≡ some ([], queued (parse_resp (reply v o) x))
  unfolding process_ctrl_rx_msg deliver_resp
  process_sync v o x =
      ap
        (deliver_resp (record { has_app = true; has_elem = true; put_ok = true })
          (parse_resp (reply v o) x) (stopped none))
        (not-expects u id table events lo hi len (stopped none) refl)

  process_unallocated :
      (he po : Bool) (v : ℕ) (o : Outcome) (cb : Option ℕ)
      → process_ctrl_rx_msg
          (record { has_app = false; has_elem = he; put_ok = po })
          (reply v o)
          (pending u table events id cb)
        ≡ some ([], pending u table events id cb)
  unfolding process_ctrl_rx_msg
  process_unallocated he po v o cb = refl

  pub finish_async :
      (cb : ℕ) (calls : List Call) (l : Lib)
      → l.resp_cb_table ≡ set table (place id) (some cb)
      → finish (record { msg_id = id; resp_cb = some cb }) calls l ≡ expire calls l
  unfolding finish
  finish_async cb calls l e =
      ap
        (λ s. elim s [
          | available ↦ expire calls l
          | _ ↦
              let w = ctrl_wait_and_parse_sync_resp l in
              record { calls = calls; response = w.0; lib = w.1 }
        ])
        (registered u id table events lo hi len l cb e)

  pub finish_sync :
      (calls : List Call) (l : Lib)
      → l.resp_cb_table ≡ set table (place id) none
      → finish (record { msg_id = id; resp_cb = none }) calls l ≡ record {
        calls = calls;
        response = (ctrl_wait_and_parse_sync_resp l).0;
        lib = (ctrl_wait_and_parse_sync_resp l).1;
      }
  unfolding finish
  finish_sync calls l e =
      ap
        (λ s. elim s [
          | available ↦ expire calls l
          | _ ↦
              let w = ctrl_wait_and_parse_sync_resp l in
              record { calls = calls; response = w.0; lib = w.1 }
        ])
        (not-registered u id table events lo hi len l e)

  -- The exchange ends, with the library idle.
  abbrev pub Ends : Option ℕ → Fate → Type 0
  Ends cb fate =
      Ended (conclude (record { msg_id = id; resp_cb = cb }) fate (pending u table events id cb))

  abbrev idle_after : (cb : Option ℕ) → IsIdle (after cb)
  idle_after cb = idle-IsIdle u id cb table events len

  pub silent-sync : Ends none silent
  unfolding conclude ctrl_wait_and_parse_sync_resp
  silent-sync = (_, ap some (finish_sync [] (pending u table events id none) refl), idle_after none)

  pub silent-async : (cb : ℕ) → Ends (some cb) silent
  unfolding conclude expire ctrl_async_timeout_handler
  silent-async cb = (
    _,
    ap some (finish_async cb [] (pending u table events id (some cb)) refl),
    idle_after (some cb),
  )

  -- What follows the handling of a response.
  then_finish :
      (cb : Option ℕ) (rx : RxEnv) (m : Msg) (calls : List Call) (l : Lib)
      → process_ctrl_rx_msg rx m (pending u table events id cb) ≡ some (calls, l)
      → conclude
          (record { msg_id = id; resp_cb = cb })
          (answers rx m)
          (pending u table events id cb)
        ≡ some (finish (record { msg_id = id; resp_cb = cb }) calls l)
  unfolding conclude
  then_finish cb rx m calls l e = ap (after_rx (record { msg_id = id; resp_cb = cb })) e

  pub reply-async :
      (ha he po : Bool) (cb v : ℕ) (o : Outcome)
      → Ends (some cb) (answers (record { has_app = ha; has_elem = he; put_ok = po }) (reply v o))
  unfolding expire ctrl_async_timeout_handler
  reply-async true he po cb v o = (
    _,
    then_finish (some cb) _ (reply v o) _ _ (process_async he po cb v o (some u))
        ∙ ap some (finish_async cb _ (after (some cb)) refl),
    idle_after (some cb),
  )
  reply-async false he po cb v o = (
    _,
    then_finish (some cb) _ (reply v o) _ _ (process_unallocated he po v o (some cb))
        ∙ ap some (finish_async cb [] (pending u table events id (some cb)) refl),
    idle_after (some cb),
  )

  pub reply-sync :
      (ha : Bool) (v : ℕ) (o : Outcome)
      → Ends none (answers (record { has_app = ha; has_elem = true; put_ok = true }) (reply v o))
  unfolding ctrl_wait_and_parse_sync_resp
  reply-sync true v o = (
    _,
    then_finish none _ (reply v o) _ _ (process_sync v o (some u))
        ∙ ap some (finish_sync [] (queued (parse_resp (reply v o) (some u))) refl),
    idle_after none,
  )
  reply-sync false v o = (
    _,
    then_finish none _ (reply v o) _ _ (process_unallocated true true v o none)
        ∙ ap some (finish_sync [] (pending u table events id none) refl),
    idle_after none,
  )
