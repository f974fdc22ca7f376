-- ===== src/PowerSave/Semaphore.antt =====
-- What the semaphore says about the host, and when the wake-up loop ends.
use esp_hosted.Prelude.{
  ℕ, ◌≡◌, ◌≢◌, ◌<◌, ◌⊎◌, inl, inr, refl, Bool, true, false, not, List, [], ◌∷◌, Option, none, some,
  Option-cases, ltb, if◌then◌else◌, arith, ◌∙◌, ◌++◌, lt→ltb,
}
use esp_hosted.PowerSave.{
  IfState, active, State, host_power_save_alert, Event, open_data_path, close_data_path,
  power_save_on, power_save_off, reset, max_interrupt, event_handler, events, Round, wakeup_host,
}

-- The semaphore can be taken exactly while the host is awake, and an open data path has an active
-- interface.
abbrev pub IsValid : State → Type 0
IsValid s =
    (s.wakeup_sem ≡ some (not s.power_save_on))
    × ((s.datapath ≡ false) ⊎ (s.if_handle ≡ some active))

event_handler-IsValid :
    (now : ℕ) (e : Event) (s s' : State) → event_handler now e s ≡ some s' → IsValid s → IsValid s'
unfolding event_handler host_power_save_alert
event_handler-IsValid now open_data_path s s' h v = ground (arith, h, v)
event_handler-IsValid now close_data_path s s' h v = ground (arith, h, v)
event_handler-IsValid now power_save_on s s' h v = ground (arith, h, v)
event_handler-IsValid now power_save_off s s' h v = ground (arith, h, v)
event_handler-IsValid now reset s s' h v = ground (arith, h, v)
event_handler-IsValid now max_interrupt s s' h v = ground (arith, h, v)

events_step :
    (now : ℕ) (e : Event) (es : List (ℕ × Event)) (s t : State)
    → event_handler now e s ≡ some t
    → events ((now, e) ∷ es) s ≡ events es t
unfolding events
events_step now e es s t h = ground (arith, h)

events_fault :
    (now : ℕ) (e : Event) (es : List (ℕ × Event)) (s : State)
    → event_handler now e s ≡ none
    → events ((now, e) ∷ es) s ≡ none
unfolding events
events_fault now e es s h = ground (arith, h)

-- The semaphore can be taken exactly while the host is awake, and an open data path has an active
-- interface: this is kept by every sequence of events that meets no null pointer.
pub events-IsValid :
    (es : List (ℕ × Event)) (s s' : State) → IsValid s → events es s ≡ some s' → IsValid s'
unfolding events
events-IsValid [] s s' v h = ground (arith, v, h)
events-IsValid ((now, e) ∷ es) s s' v h = elim (Option-cases (event_handler now e s)) [
  | inl n ↦ ground (arith, events_fault now e es s n, h)
  | inr (t, n) ↦
      events-IsValid es t s' (event_handler-IsValid now e s t n v)
        (ground (arith, events_step now e es s t n, h))
]

no_fault :
    (now : ℕ) (e : Event) (s : State) (st : IfState)
    → s.if_handle ≡ some st
    → event_handler now e s ≢ none
unfolding event_handler host_power_save_alert
no_fault now open_data_path s st h = ground (arith, h)
no_fault now close_data_path s st h = ground (arith, h)
no_fault now power_save_on s st h = ground (arith, h)
no_fault now power_save_off s st h = ground (arith, h)
no_fault now reset s st h = ground (arith, h)
no_fault now max_interrupt s st h = ground (arith, h)

keeps_handle :
    (now : ℕ) (e : Event) (s t : State) (st : IfState)
    → s.if_handle ≡ some st
    → event_handler now e s ≡ some t
    → t.if_handle ≢ none
unfolding event_handler host_power_save_alert
keeps_handle now open_data_path s t st h k = ground (arith, h, k)
keeps_handle now close_data_path s t st h k = ground (arith, h, k)
keeps_handle now power_save_on s t st h k = ground (arith, h, k)
keeps_handle now power_save_off s t st h k = ground (arith, h, k)
keeps_handle now reset s t st h k = ground (arith, h, k)
keeps_handle now max_interrupt s t st h k = ground (arith, h, k)

is_some {ℓ} : {A : Type ℓ} (o : Option A) → o ≢ none → (a : A) × (o ≡ some a)
is_some none h = ground arith
is_some (some a) h = (a, refl)

-- Once the interface exists, no sequence of events meets a null pointer.
pub events_total :
    (es : List (ℕ × Event)) (s : State) (st : IfState)
    → s.if_handle ≡ some st
    → (s' : State) × (events es s ≡ some s')
unfolding events
events_total [] s st h = (s, refl)
events_total ((now, e) ∷ es) s st h =
    let (t, n) = is_some (event_handler now e s) (no_fault now e s st h) in
    let (st', k) = is_some t.if_handle (keeps_handle now e s t st h n) in
    let (s', m) = events_total es t st' k in (s', events_step now e es s t n ∙ m)

abbrev Answers : Option Bool → Type 0
Answers o = (b : Bool) × (o ≡ some b)

round-Answers :
    (created started taken late : Bool) (rest : Option Bool)
    → (late ≡ true) ⊎ Answers rest
    → Answers (
        if not created
        then some false
        else if not started
        then some false
        else if taken
        then some true
        else if late
        then some false
        else rest)
round-Answers false started taken late rest h = (false, refl)
round-Answers true false taken late rest h = (false, refl)
round-Answers true true true late rest h = (true, refl)
round-Answers true true false true rest h = (false, refl)
round-Answers true true false false rest (inl h) = (false, ground (arith, h))
round-Answers true true false false rest (inr h) = h

-- The wake-up loop ends with an answer at the latest in a round that ends after the time limit.
pub wakeup_host_ends :
    (timeout_ms : ℕ) (has_sem : Bool) (rs : List Round) (last : Round) (more : List Round)
    → timeout_ms < last.elapsed
    → (b : Bool) × (wakeup_host timeout_ms has_sem (rs ++ last ∷ more) ≡ some b)
unfolding wakeup_host
wakeup_host_ends timeout_ms has_sem [] last more h =
    round-Answers last.timer_created last.timer_started (if has_sem then last.sem_taken else false)
      (ltb timeout_ms last.elapsed) (wakeup_host timeout_ms has_sem more)
      (inl (lt→ltb timeout_ms last.elapsed h))
wakeup_host_ends timeout_ms has_sem (r ∷ rs) last more h =
    round-Answers r.timer_created r.timer_started (if has_sem then r.sem_taken else false)
      (ltb timeout_ms r.elapsed) (wakeup_host timeout_ms has_sem (rs ++ last ∷ more))
      (inr (wakeup_host_ends timeout_ms has_sem rs last more h))
