-- ===== src/Ctrl/Events.antt =====
-- Events of the coprocessor reach the callback that is set for them, and no other.
use native.Mathlib.Decide.{ℕ_discrete}
use esp_hosted.Prelude.{
  ℕ, ◌-◌, ◌<◌, ◌≤◌, ◌≡◌, ◌⊎◌, refl, sym, ap, ◌∙◌, Bool, true, false, List, [], ◌∷◌, Option, none,
  some, length, set, get_elem?, get_elem?-set_self, get_elem?-set_ne, arith, if◌then◌else◌, ◌==◌,
}
use esp_hosted.Ctrl.{
  Resp, Msg, event_msg, Lib, Call, RxEnv, entry, process_ctrl_rx_msg, set_event_callback,
  is_event_callback_registered, call_event_callback,
}

-- The event that a message announces, as a callback gets it.
abbrev pub event_of : Msg → Resp
event_of m = record { msg_id = m.msg_id; uid = 0; status = m.payload }

-- The calls for the entry of a table.
abbrev pub calls_of : Option ℕ → Resp → List Call
calls_of none r = []
calls_of (some cb) r = (cb, r) ∷ []

process-event :
    (env : RxEnv) (m : Msg) (l : Lib)
    → m.msg_type ≡ event_msg
    → env.has_app ≡ true
    → 300 < m.msg_id
    → m.msg_id < 309
    → process_ctrl_rx_msg env m l
      ≡ some (calls_of (entry l.event_cb_table (m.msg_id - 300)) (event_of m), l)
unfolding process_ctrl_rx_msg is_event_callback_registered call_event_callback
process-event env m l t a lo hi = ground (arith, t, a)

process-unknown :
    (env : RxEnv) (m : Msg) (l : Lib)
    → m.msg_type ≡ event_msg
    → (m.msg_id ≤ 300) ⊎ (309 ≤ m.msg_id)
    → process_ctrl_rx_msg env m l ≡ some ([], l)
unfolding process_ctrl_rx_msg is_event_callback_registered
process-unknown env m l t h = ground (arith, t)

set-event-table :
    (event : ℕ) (cb : Option ℕ) (l : Lib)
    → 300 < event
    → event < 309
    → (set_event_callback event cb l).1.event_cb_table ≡ set l.event_cb_table (event - 300) cb
unfolding set_event_callback
set-event-table event cb l lo hi = ground arith

calls_of-if :
    (b : Bool) (x y : Option ℕ) (r : Resp)
    → calls_of (if b then x else y) r ≡ (if b then calls_of x r else calls_of y r)
calls_of-if true x y r = refl
calls_of-if false x y r = refl

entry-set :
    (table : List (Option ℕ)) (i j : ℕ) (cb : Option ℕ)
    → length table ≡ 9
    → i < 9
    → entry (set table i cb) j ≡ (if j == i then cb else entry table j)
entry-set table i j cb len h = elim (ℕ_discrete i j) [
  | yes e ↦
      let g : get_elem? (set table i cb) j ≡ some cb =
        ap (get_elem? (set table i cb)) (sym e) ∙ get_elem?-set_self table i cb (omega arith) in
      ground (arith, g)
  | no n ↦
      let g : get_elem? (set table i cb) j ≡ get_elem? table j = get_elem?-set_ne table cb n in
      let d : (j == i) ≡ false = ground arith in
      rw d (ap (λ o. elim o [ none ↦ none | some c ↦ c ]) g)
]

-- After a callback is set for an event, a message of that event calls it, once, with the event's id
-- and status (or nothing, if it was set to NULL), and a message of any other event calls what it
-- called before; it changes no state. The events are those between CTRL_EVENT_BASE and
-- CTRL_EVENT_MAX, and the application's struct can be allocated.
pub set_event_callback-process :
    (env : RxEnv) (m : Msg) (l : Lib) (event : ℕ) (cb : Option ℕ)
    → m.msg_type ≡ event_msg
    → env.has_app ≡ true
    → 300 < event
    → event < 309
    → 300 < m.msg_id
    → m.msg_id < 309
    → length l.event_cb_table ≡ 9
    → (before : List Call) × (process_ctrl_rx_msg env m l ≡ some (before, l))
      × (process_ctrl_rx_msg env m (set_event_callback event cb l).1
          ≡ some (
            if m.msg_id == event then calls_of cb (event_of m) else before,
            (set_event_callback event cb l).1,
          ))
set_event_callback-process env m l event cb t a lo hi lo' hi' len = (
  calls_of (entry l.event_cb_table (m.msg_id - 300)) (event_of m),
  process-event env m l t a lo' hi',
  process-event env m (set_event_callback event cb l).1 t a lo' hi'
      ∙ ap (λ c. some (c, (set_event_callback event cb l).1))
          (ap (λ e. calls_of e (event_of m)) table
            ∙ calls_of-if (m.msg_id == event) cb (entry l.event_cb_table (m.msg_id - 300))
                (event_of m)),
)
  where
    set_table :
        (set_event_callback event cb l).1.event_cb_table ≡ set l.event_cb_table (event - 300) cb
    set_table = set-event-table event cb l lo hi

    place : ((m.msg_id - 300) == (event - 300)) ≡ (m.msg_id == event)
    place = ground arith

    table :
        entry (set_event_callback event cb l).1.event_cb_table (m.msg_id - 300)
        ≡ (if m.msg_id == event then cb else entry l.event_cb_table (m.msg_id - 300))
    table =
        ap (λ k. entry k (m.msg_id - 300)) set_table
        ∙ entry-set l.event_cb_table (event - 300) (m.msg_id - 300) cb len (omega arith)
        ∙ ap (λ b. if b then cb else entry l.event_cb_table (m.msg_id - 300)) place
