-- ===== src/Tests/Library.antt =====
-- The control library of the host: requests, responses, events.
use esp_hosted.Prelude.{
  ◌≢◌, length, suc, ℕ, ◌≡◌, refl, inl, List, [], ◌∷◌, Option, none, some, replicate, arith, false,
}
use esp_hosted.Ctrl.{
  success, failure, Msg, resp_msg, event_msg, Lib, Call, process_ctrl_rx_msg, deliver_resp,
  set_event_callback, resp_callback,
}
use esp_hosted.EspQueue.{null, QNode, Heap, QState, create_esp_queue, destroy_loop}
use esp_hosted.EspQueue.Life.{Op, put, get, Reply, IsMalloc, serve, replays, serve_then_destroy}
use esp_hosted.Ctrl.Events.{set_event_callback-process}
use esp_hosted.Ctrl.Request.{
  Request, sent, failed, asserts, ctrl_app_send_req, ctrl_wait_and_parse_sync_resp,
}
use esp_hosted.Ctrl.Request.Exchange.{
  answers, silent, Result, conclude, exchange, idle, pending, IsRequest, IsIdle, Ended,
}
use esp_hosted.Ctrl.Request.Ends.{exchange-IsIdle}
use esp_hosted.Ctrl.Request.Answers.{reply}
use esp_hosted.Ctrl.Request.Delivery.{outcome, all_well, rx_well, exchange-delivered}
use esp_hosted.Ctrl.Request.Late.{busy_spoils, late_response}

abbrev table : List (Option ℕ)
table = replicate 29 none

abbrev events : List (Option ℕ)
events = replicate 9 none

abbrev lib : Lib
lib = idle 6 table events

lib-IsIdle : IsIdle lib
lib-IsIdle = record { at_rest = refl; responses = refl }

-- CTRL_REQ_GET_MAC_ADDR, with a callback and without.
abbrev get_mac : Request
get_mac = record { msg_id = 101; resp_cb = some 9 }

abbrev get_mac_now : Request
get_mac_now = record { msg_id = 101; resp_cb = none }

abbrev mac_resp : Msg
mac_resp = record { msg_type = resp_msg; msg_id = 201; uid = 7; payload = success }

get_mac-IsRequest : IsRequest get_mac
get_mac-IsRequest = record { above = omega arith; below = omega arith }

exchange-IsIdle_example : Ended (exchange all_well get_mac silent lib)
exchange-IsIdle_example =
    exchange-IsIdle all_well get_mac silent lib lib-IsIdle get_mac-IsRequest tt

exchange-delivered_example :
    (x : Result) × (exchange all_well get_mac (answers rx_well mac_resp) lib ≡ some x)
    × (outcome x ≡ ((9, record { msg_id = 201; uid = 7; status = success }) ∷ [], none))
exchange-delivered_example =
    exchange-delivered get_mac lib 7 success lib-IsIdle get_mac-IsRequest (inl refl)

busy_spoils_example :
    (calls : List Call) × (k : Lib) × (ctrl_app_send_req all_well get_mac_now
        (pending 7 table events 101 none)
      ≡ failed calls k)
    × (x : Result) × (conclude get_mac_now
          (answers rx_well (reply 7 101 table events (omega arith) (omega arith) refl 7 success))
          k
        ≡ some x)
    × (outcome x ≡ ([], some (record { msg_id = 201; uid = 7; status = failure })))
busy_spoils_example =
    busy_spoils 7 101 table events (omega arith) (omega arith) refl all_well get_mac_now none
      success (omega arith)

late_response_example :
    (x : Result) × (k : Lib) × (l : Lib) × (exchange all_well get_mac_now silent lib ≡ some x)
    × (process_ctrl_rx_msg rx_well mac_resp x.lib ≡ some ([], k))
    × (ctrl_app_send_req all_well (record { msg_id = 102; resp_cb = none }) k ≡ sent l)
    × ((ctrl_wait_and_parse_sync_resp l).0
        ≡ some (record { msg_id = 201; uid = 7; status = failure }))
    × (ctrl_app_send_req all_well get_mac l ≡ asserts)
late_response_example =
    late_response 6 101 102 7 table events success all_well get_mac
      (record { above = omega arith; below = omega arith })
      (record { above = omega arith; below = omega arith }) refl (omega arith)

-- Without memory for the element of the queue, a synchronous response is freed twice.
no_element :
    process_ctrl_rx_msg
      (record rx_well { has_elem = false })
      mac_resp
      (pending 7 table events 101 none)
    ≡ none
unfolding process_ctrl_rx_msg deliver_resp resp_callback
no_element = refl

-- CTRL_EVENT_HEARTBEAT
abbrev heartbeat : Msg
heartbeat = record { msg_type = event_msg; msg_id = 302; uid = 0; payload = success }

set_event_callback-process_example :
    (before : List Call) × (process_ctrl_rx_msg rx_well heartbeat lib ≡ some (before, lib))
    × (process_ctrl_rx_msg rx_well heartbeat (set_event_callback 302 (some 4) lib).1
        ≡ some (
          (4, record { msg_id = 302; uid = 0; status = success }) ∷ [],
          (set_event_callback 302 (some 4) lib).1,
        ))
set_event_callback-process_example =
    set_event_callback-process rx_well heartbeat lib 302 (some 4) refl refl (omega arith)
      (omega arith) (omega arith) (omega arith) refl

-- An allocator with two addresses, 8 and 16.
abbrev at_8 : Option QNode → Option QNode → Option ℕ
at_8 none y = some 8
at_8 (some x) none = some 16
at_8 (some x) (some y) = none

abbrev two_slots : Heap → Option ℕ
two_slots h = at_8 (h 8) (h 16)

two_slots-IsMalloc : IsMalloc two_slots
two_slots-IsMalloc h p e = pick (h 8) (h 16) refl refl e
  where
    pick : (x y : Option QNode) → h 8 ≡ x → h 16 ≡ y → at_8 x y ≡ some p → (p ≢ null) × (h p ≡ none)
    pick none y a b e = (ground (arith, e), ground (arith, a, e))
    pick (some x) none a b e = (ground (arith, e), ground (arith, b, e))
    pick (some x) (some y) a b e = absurd (ground (arith, e))

abbrev calls : List Op
calls = put 5 ∷ put 6 ∷ put 7 ∷ get ∷ put 9 ∷ get ∷ []

serve_then_destroy_example :
    (rs : List Reply) × (s : QState) × (xs : List ℕ) × (h' : Heap) × (serve two_slots calls
        (create_esp_queue, λ a. none)
      ≡ some (rs, s))
    × (replays calls rs [] ≡ some xs)
    × (destroy_loop (suc (length xs)) s ≡ some h')
    × ((a : ℕ) → h' a ≡ none)
serve_then_destroy_example = serve_then_destroy two_slots calls (λ a. none) two_slots-IsMalloc
