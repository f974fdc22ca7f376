-- ===== src/Tests/Slave.antt =====
-- The coprocessor: its serial channel, its Wi-Fi callbacks and the sleep of its host.
use esp_hosted.Prelude.{ℕ, ◌≡◌, refl, inl, true, false, List, [], ◌∷◌, some, zero, suc}
use esp_hosted.Router.{both_lwip}
use esp_hosted.Wlan.{RxEnv, wlan_sta_rx_callback, TxStatus, tx_done, tx_no_mem, wifi_tx_with_retry}
use esp_hosted.Wlan.Ownership.{releases, copies, copy_releases, wlan_sta_rx_callback-releases}
use esp_hosted.PowerSave.{
  deactive, active, State, Event, open_data_path, power_save_on, power_save_off, event_handler,
  events, Round,
}
use esp_hosted.PowerSave.Semaphore.{IsValid, events-IsValid}

abbrev rx_env : RxEnv
rx_env = record {
  has_buffer = true;
  has_eb = true;
  datapath = true;
  has_netif = false;
  has_memory = true;
  has_transport = false;
}

wlan_sta_rx_callback-releases_example :
    (releases (wlan_sta_rx_callback rx_env both_lwip) ≡ 1)
    × (copy_releases (wlan_sta_rx_callback rx_env both_lwip)
        ≡ copies (wlan_sta_rx_callback rx_env both_lwip))
wlan_sta_rx_callback-releases_example = wlan_sta_rx_callback-releases rx_env both_lwip

-- The driver has no memory for the first two calls.
abbrev answer : ℕ → TxStatus
answer zero = tx_no_mem
answer (suc zero) = tx_no_mem
answer (suc (suc n)) = tx_done

three_calls : (wifi_tx_with_retry 7 answer).1 ≡ 3
unfolding wifi_tx_with_retry
three_calls = refl

abbrev awake : State
awake = record {
  if_handle = some deactive;
  datapath = false;
  reset_given = false;
  wakeup_sem = some true;
  power_save_on = false;
  host_wakeup_time = 0;
  callbacks = 0;
}

abbrev day : List (ℕ × Event)
day = (1, open_data_path) ∷ (2, power_save_on) ∷ (9, power_save_off) ∷ (12, power_save_on) ∷ []

abbrev asleep : State
asleep = record {
  if_handle = some active;
  datapath = true;
  reset_given = true;
  wakeup_sem = some false;
  power_save_on = true;
  host_wakeup_time = 9;
  callbacks = 1;
}

day_lem : events day awake ≡ some asleep
unfolding events event_handler
day_lem = refl

events-IsValid_example : IsValid asleep
events-IsValid_example = events-IsValid day awake asleep (refl, inl refl) day_lem

-- Two rounds; the second is past the limit.
abbrev round_at : ℕ → Round
round_at t = record { timer_created = true; timer_started = true; sem_taken = false; elapsed = t }
