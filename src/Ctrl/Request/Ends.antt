-- ===== src/Ctrl/Request/Ends.antt =====
-- The two promises of an exchange of the control library: it ends with the library idle, and the
-- response goes to the one who asked.
use mathlib.Core.Path.{subst}
use esp_hosted.Prelude.{
  ℕ, ◌+◌, ◌<◌, ◌≡◌, refl, sym, ap, ◌∙◌, Bool, true, false, List, Option, none, some, length, set,
}
use esp_hosted.Ctrl.{Lib, available, Call}
use esp_hosted.Ctrl.Request.{
  Request, TxEnv, sent, failed, asserts, ctrl_app_send_req, ctrl_async_timeout_handler, next_uid,
  with_callback, fail_req,
}
use esp_hosted.Ctrl.Request.Exchange.{
  Ended, Fate, answers, silent, expire, conclude, exchange, idle, place, pending, IsRequest, IsIdle,
  IsReply, idle-IsIdle, send_registered,
}
use esp_hosted.Ctrl.Request.Answers.{
  reply, Ends, silent-sync, silent-async, reply-async, reply-sync,
}

pub exchange-sent :
    (env : TxEnv) (r : Request) (fate : Fate) (l l' : Lib)
    → ctrl_app_send_req env r l ≡ sent l'
    → exchange env r fate l ≡ conclude r fate l'
unfolding exchange
exchange-sent env r fate l l' e =
    ap
      (λ s. elim s [
        | asserts ↦ none
        | failed calls k ↦ some (expire calls k)
        | sent k ↦ conclude r fate k
      ])
      e

sent-Ended :
    (env : TxEnv) (r : Request) (fate : Fate) (l l' : Lib)
    → ctrl_app_send_req env r l ≡ sent l'
    → Ended (conclude r fate l')
    → Ended (exchange env r fate l)
sent-Ended env r fate l l' e x = (x.0, exchange-sent env r fate l l' e ∙ x.1, x.2)

exchange-failed :
    (env : TxEnv) (r : Request) (fate : Fate) (l l' : Lib) (calls : List Call)
    → ctrl_app_send_req env r l ≡ failed calls l'
    → exchange env r fate l ≡ some (expire calls l')
unfolding exchange
exchange-failed env r fate l l' calls e =
    ap
      (λ s. elim s [
        | asserts ↦ none
        | failed calls k ↦ some (expire calls k)
        | sent k ↦ conclude r fate k
      ])
      e

module _ (u id : ℕ) (table events : List (Option ℕ)) (lo : 100 < id) (hi : id < 129)
    (len : length table ≡ 29) where
  conclude-Ends :
      (cb : Option ℕ) (fate : Fate)
      → IsReply (record { msg_id = id; resp_cb = cb }) fate
      → Ends u id table events lo hi len cb fate
  conclude-Ends none silent h = silent-sync u id table events lo hi len
  conclude-Ends (some cb) silent h = silent-async u id table events lo hi len cb
  conclude-Ends none (answers rx m) h =
      let e : reply u id table events lo hi len m.uid m.payload ≡ m =
        ap (λ t. record m { msg_type = t; msg_id = id + 100 }) (sym h.0)
        ∙ ap (λ i. record m { msg_id = i }) (sym h.1) in
      let x : record { has_app = rx.has_app; has_elem = true; put_ok = true } ≡ rx =
        ap (λ b. record rx { has_elem = b; put_ok = true }) (sym h.2.0)
        ∙ ap (λ b. record rx { put_ok = b }) (sym h.2.1) in
      subst (λ k. Ends u id table events lo hi len none (answers k m)) x
        (subst
          (λ k.
            Ends u id table events lo hi len none
              (answers (record { has_app = rx.has_app; has_elem = true; put_ok = true }) k))
          e (reply-sync u id table events lo hi len rx.has_app m.uid m.payload))
  conclude-Ends (some cb) (answers rx m) h =
      let e : reply u id table events lo hi len m.uid m.payload ≡ m =
        ap (λ t. record m { msg_type = t; msg_id = id + 100 }) (sym h.0)
        ∙ ap (λ i. record m { msg_id = i }) (sym h.1) in
      subst (λ k. Ends u id table events lo hi len (some cb) (answers rx k)) e
        (reply-async u id table events lo hi len rx.has_app rx.has_elem rx.put_ok cb m.uid
          m.payload)

  -- The library when the callback of a request is set.
  abbrev ready : Option ℕ → Lib
  ready cb = record (pending u table events id cb) { async_timer = none }

  failed-Ended :
      (env : TxEnv) (r : Request) (fate : Fate) (l : Lib) (calls : List Call) (cb : Option ℕ)
      → ctrl_app_send_req env r l ≡ failed calls (idle u (set table (place id) cb) events)
      → Ended (exchange env r fate l)
  unfolding expire
  failed-Ended env r fate l calls cb e = (
    record { calls = calls; response = none; lib = idle u (set table (place id) cb) events },
    exchange-failed env r fate l (idle u (set table (place id) cb) events) calls e,
    idle-IsIdle u id cb table events len,
  )

  -- A request that fails while its timer runs is reported, and ends when the timer expires.
  timed-Ended :
      (env : TxEnv) (r : Request) (fate : Fate) (l : Lib) (calls : List Call) (cb : ℕ)
      → ctrl_app_send_req env r l
        ≡ failed calls (record (pending u table events id (some cb)) { expected_resp_uid = none })
      → Ended (exchange env r fate l)
  unfolding expire ctrl_async_timeout_handler
  timed-Ended env r fate l calls cb e =
      let k = record (pending u table events id (some cb)) { expected_resp_uid = none } in
      (
        expire calls k,
        exchange-failed env r fate l k calls e,
        idle-IsIdle u id (some cb) table events len,
      )

  callback-Ended :
      (timer_ok send_ok has_app : Bool) (cb : Option ℕ) (fate : Fate) (l : Lib)
      → IsReply (record { msg_id = id; resp_cb = cb }) fate
      → let env : TxEnv = record {
        compose_error = none;
        timer_ok = timer_ok;
        send_ok = send_ok;
        has_app = has_app;
      } in
        let r : Request = record { msg_id = id; resp_cb = cb } in
        ctrl_app_send_req env r l ≡ with_callback env r (available, ready cb)
        → Ended (exchange env r fate l)
  unfolding with_callback fail_req
  callback-Ended timer_ok true has_app none fate l h e =
      sent-Ended _ _ fate l (pending u table events id none) e (conclude-Ends none fate h)
  callback-Ended timer_ok false has_app none fate l h e = failed-Ended _ _ fate l _ none e
  callback-Ended false send_ok has_app (some cb) fate l h e = failed-Ended _ _ fate l _ (some cb) e
  callback-Ended true true has_app (some cb) fate l h e =
      sent-Ended _ _ fate l (pending u table events id (some cb)) e (conclude-Ends (some cb) fate h)
  callback-Ended true false has_app (some cb) fate l h e = timed-Ended _ _ fate l _ cb e

compose-Ended :
    (u status id : ℕ) (table events : List (Option ℕ)) (timer_ok send_ok has_app : Bool)
    (cb : Option ℕ) (fate : Fate)
    → length table ≡ 29
    → Ended (
        exchange
          (record {
            compose_error = some status;
            timer_ok = timer_ok;
            send_ok = send_ok;
            has_app = has_app;
          })
          (record { msg_id = id; resp_cb = cb })
          fate
          (idle u table events))
unfolding exchange expire ctrl_app_send_req fail_req
compose-Ended u status id table events timer_ok send_ok has_app none fate len =
    (_, refl, record { at_rest = refl; responses = len })
compose-Ended u status id table events timer_ok send_ok has_app (some cb) fate len =
    (_, refl, record { at_rest = refl; responses = len })

idle-Ended :
    (u id : ℕ) (table events : List (Option ℕ)) (o : Option ℕ) (timer_ok send_ok has_app : Bool)
    (cb : Option ℕ) (fate : Fate)
    → 100 < id
    → id < 129
    → length table ≡ 29
    → IsReply (record { msg_id = id; resp_cb = cb }) fate
    → Ended (
        exchange
          (record { compose_error = o; timer_ok = timer_ok; send_ok = send_ok; has_app = has_app })
          (record { msg_id = id; resp_cb = cb })
          fate
          (idle u table events))
idle-Ended u id table events (some status) timer_ok send_ok has_app cb fate lo hi len h =
    compose-Ended u status id table events timer_ok send_ok has_app cb fate len
idle-Ended u id table events none timer_ok send_ok has_app cb fate lo hi len h =
    callback-Ended (next_uid u) id table events lo hi len timer_ok send_ok has_app cb fate
      (idle u table events) h (send_registered u id table events lo hi len _ cb refl)

-- A request to an idle control library, synchronous or asynchronous, ends with the library idle
-- again: if it cannot be composed or sent, if the timer cannot be started, if it is answered by a
-- response to this request, with memory for the struct of the response or without, and if it is not
-- answered before its time limit. The handler of the timer gets its memory, and the element of the
-- queue for a synchronous response is allocated and put.
pub exchange-IsIdle :
    (env : TxEnv) (r : Request) (fate : Fate) (l : Lib)
    → IsIdle l
    → IsRequest r
    → IsReply r fate
    → Ended (exchange env r fate l)
exchange-IsIdle env r fate l v q h =
    subst (λ k. Ended (exchange env r fate k)) (sym v.at_rest)
      (idle-Ended l.uid r.msg_id l.resp_cb_table l.event_cb_table env.compose_error env.timer_ok
        env.send_ok env.has_app r.resp_cb fate q.above q.below v.responses h)
