-- ===== src/PowerSave.antt =====
-- The events that the host raises at the coprocessor and its sleep: `event_handler` of
-- esp_hosted_fg/esp/esp_driver/network_adapter/main/esp_hosted_coprocessor.c, and
-- `host_power_save_alert` and `wakeup_host` of host_power_save.c beside it, with H_HOST_PS_ALLOWED.
-- The clock, the timers and what the host does while the coprocessor waits are input.
pub mod Semaphore
use esp_hosted.Prelude.{
  ℕ, zero, suc, ◌+◌, ◌-◌, ◌/◌, ◌%◌, Bool, true, false, not, List, [], ◌∷◌, Option, none, some, ltb,
  ◌==◌, if◌then◌else◌,
}

-- `INTERFACE_STATE`
pub data IfState : Type 0 where
  deinit init active deactive : IfState

-- `wakeup_sem` is `none` before `host_power_save_init`, else whether the binary semaphore can be
-- taken. `if_handle` is `none` while the pointer is null.
pub record State : Type 0 where
  pub if_handle : Option IfState
  pub datapath : Bool
  pub reset_given : Bool
  pub wakeup_sem : Option Bool
  pub power_save_on : Bool
  pub host_wakeup_time : ℕ
  pub callbacks : ℕ

-- `host_power_save_init`, from the state before.
unfoldable host_power_save_init : State → State
host_power_save_init s = record s { wakeup_sem = some true }

abbrev take_from_isr : Option Bool → Option Bool
take_from_isr none = none
take_from_isr (some b) = some false

abbrev give_from_isr : Option Bool → Option Bool
give_from_isr none = none
give_from_isr (some b) = some true

pub data Alert : Type 0 where
  sleeps wakes other_alert : Alert

-- `host_power_save_alert` at a time in ms; `callbacks` counts the calls of `host_wakeup_cb`.
unfoldable pub host_power_save_alert : ℕ → Alert → State → State
host_power_save_alert now sleeps s = record s {
  wakeup_sem = take_from_isr s.wakeup_sem;
  power_save_on = true;
}
host_power_save_alert now wakes s = record s {
  power_save_on = false;
  host_wakeup_time = now;
  callbacks = suc s.callbacks;
  wakeup_sem = give_from_isr s.wakeup_sem;
}
host_power_save_alert now other_alert s = s

-- ESP_HOST_INTERRUPT; the last two are not handled.
pub data Event : Type 0 where
  open_data_path close_data_path power_save_on power_save_off reset max_interrupt : Event

-- `if_handle->state = ...`: `none` where the pointer is null.
abbrev set_state : IfState → State → Option State
set_state st s = elim s.if_handle [
  | none ↦ none
  | some old ↦ some (record s { if_handle = some st })
]

-- `event_handler`, with `host_reset_sem` created; `none` is the access through a null pointer.
unfoldable pub event_handler : ℕ → Event → State → Option State
unfolding host_power_save_alert
event_handler now open_data_path s = elim s.if_handle [
  | none ↦ some s
  | some old ↦ some (record s { if_handle = some active; datapath = true; reset_given = true })
]
event_handler now close_data_path s = elim s.if_handle [
  | none ↦ some (record s { datapath = false })
  | some old ↦ some (record s { if_handle = some deactive; datapath = false })
]
event_handler now power_save_on s = set_state active (host_power_save_alert now sleeps s)
event_handler now power_save_off s = elim s.if_handle [
  | none ↦ none
  | some old ↦
      some
        (host_power_save_alert now wakes (record s { if_handle = some active; reset_given = true }))
]
event_handler now reset s = some s
event_handler now max_interrupt s = some s

-- Events one after the other, each with its time.
unfoldable pub events : List (ℕ × Event) → State → Option State
events [] s = some s
events ((now, e) ∷ es) s = elim (event_handler now e s) [ none ↦ none | some s' ↦ events es s' ]

-- One round of `wakeup_host`: whether the timer is created and started, whether the semaphore can
-- be taken within 100 ms, and the time that has passed since the start.
pub record Round : Type 0 where
  pub timer_created : Bool
  pub timer_started : Bool
  pub sem_taken : Bool
  pub elapsed : ℕ

-- `wakeup_host`; the GPIO is set in every round. `none`: the rounds given are used up. The
-- semaphore is given back when it was taken.
unfoldable pub wakeup_host : ℕ → Bool → List Round → Option Bool
wakeup_host timeout_ms has_sem [] = none
wakeup_host timeout_ms has_sem (r ∷ rs) =
    let rest = wakeup_host timeout_ms has_sem rs in
    let taken = if has_sem then r.sem_taken else false in
    if not r.timer_created
    then some false
    else if not r.timer_started
    then some false
    else if taken
    then some true
    else if ltb timeout_ms r.elapsed
    then some false
    else rest
