-- ===== src/Wlan/Ownership.antt =====
-- Every receive buffer is given back once, and every copy of one.
use esp_hosted.Prelude.{ℕ, suc, ◌≡◌, Bool, List, [], ◌∷◌, if◌then◌else◌, arith}
use esp_hosted.Router.{Bridge, slave_lwip, host_lwip, both_lwip, invalid}
use esp_hosted.Wlan.{
  Effect, free_rx, to_slave, alloc_copy, copy_to_host, free_copy, to_host, RxEnv,
  wlan_ap_rx_callback, both_bridges, on_bridge, wlan_sta_rx_callback,
}

-- How often the effects give the receive buffer to somebody who frees it, or free it.
abbrev pub releases : List Effect → ℕ
releases [] = 0
releases (free_rx ∷ es) = suc (releases es)
releases (to_slave ∷ es) = suc (releases es)
releases (to_host t ∷ es) = suc (releases es)
releases (alloc_copy ∷ es) = releases es
releases (copy_to_host ∷ es) = releases es
releases (free_copy ∷ es) = releases es

abbrev pub copies : List Effect → ℕ
copies [] = 0
copies (alloc_copy ∷ es) = suc (copies es)
copies (free_rx ∷ es) = copies es
copies (to_slave ∷ es) = copies es
copies (to_host t ∷ es) = copies es
copies (copy_to_host ∷ es) = copies es
copies (free_copy ∷ es) = copies es

abbrev pub copy_releases : List Effect → ℕ
copy_releases [] = 0
copy_releases (copy_to_host ∷ es) = suc (copy_releases es)
copy_releases (free_copy ∷ es) = suc (copy_releases es)
copy_releases (free_rx ∷ es) = copy_releases es
copy_releases (to_slave ∷ es) = copy_releases es
copy_releases (to_host t ∷ es) = copy_releases es
copy_releases (alloc_copy ∷ es) = copy_releases es

abbrev owned : Bool → ℕ
owned has_eb = if has_eb then 1 else 0

-- Whatever the router answers and whatever fails, the station's callback releases the receive
-- buffer exactly once if there is one, never otherwise, and releases a copy exactly if it made one.
pub wlan_sta_rx_callback-releases :
    (env : RxEnv) (bridge : Bridge)
    → (releases (wlan_sta_rx_callback env bridge) ≡ owned env.has_eb)
      × (copy_releases (wlan_sta_rx_callback env bridge) ≡ copies (wlan_sta_rx_callback env bridge))
unfolding wlan_sta_rx_callback on_bridge both_bridges
wlan_sta_rx_callback-releases env slave_lwip = ground arith
wlan_sta_rx_callback-releases env host_lwip = ground arith
wlan_sta_rx_callback-releases env both_lwip = ground arith
wlan_sta_rx_callback-releases env invalid = ground arith

-- The same of the access point's callback.
wlan_ap_rx_callback-releases :
    (env : RxEnv)
    → (releases (wlan_ap_rx_callback env) ≡ owned env.has_eb)
      × (copy_releases (wlan_ap_rx_callback env) ≡ copies (wlan_ap_rx_callback env))
unfolding wlan_ap_rx_callback
wlan_ap_rx_callback-releases env = ground arith
