-- ===== src/Wlan.antt =====
-- esp_hosted_fg/esp/esp_driver/network_adapter/main/esp_hosted_coprocessor.c: what the coprocessor
-- does with a packet that its Wi-Fi driver receives (`wlan_sta_rx_callback`,
-- `wlan_ap_rx_callback`), and with a buffer from the host (`process_rx_pkt`). The Wi-Fi driver, the
-- TCP/IP stack and the allocator are input. Each callback is written as the list of its effects.
pub mod Ownership
pub mod Retry
use esp_hosted.Prelude.{
  ℕ, zero, suc, ◌+◌, ◌-◌, Bool, true, false, not, List, [], ◌∷◌, ◌++◌, ◌==◌, ◌&&◌, ◌||◌,
  if◌then◌else◌,
}
use esp_hosted.Header.{sta_if, ap_if, serial_if, hci_if, priv_if}
use esp_hosted.Router.{Bridge, slave_lwip, host_lwip, both_lwip, invalid}

-- An effect on the receive buffer `eb` or on a copy of it. `to_host` and `copy_to_host` hand the
-- buffer to `write` of the transport, which frees it; `to_slave` hands it to `esp_netif_receive`,
-- which frees it too.
pub data Effect : Type 0 where
  free_rx to_slave alloc_copy copy_to_host free_copy : Effect
  to_host : ℕ → Effect

pub record RxEnv : Type 0 where
  pub has_buffer : Bool
  pub has_eb : Bool
  pub datapath : Bool
  pub has_netif : Bool
  pub has_memory : Bool
  pub has_transport : Bool

-- `wlan_ap_rx_callback`
unfoldable pub wlan_ap_rx_callback : RxEnv → List Effect
wlan_ap_rx_callback env =
    if not env.has_buffer || (not env.has_eb || not env.datapath)
    then (if env.has_eb then free_rx ∷ [] else [])
    else if env.has_transport
    then to_host ap_if ∷ []
    else free_rx ∷ []

-- The case BOTH_LWIP_BRIDGE.
unfoldable pub both_bridges : RxEnv → List Effect
both_bridges env =
    let copied = env.datapath && env.has_memory in
    let slave = if env.has_netif then to_slave else free_rx in
    let host = if env.has_transport then copy_to_host else free_copy in
    if copied then alloc_copy ∷ slave ∷ host ∷ [] else slave ∷ []

unfoldable pub on_bridge : RxEnv → Bridge → List Effect
unfolding both_bridges
on_bridge env host_lwip =
    if not env.datapath
    then free_rx ∷ []
    else if env.has_transport
    then to_host sta_if ∷ []
    else free_rx ∷ []
on_bridge env slave_lwip = if env.has_netif then to_slave ∷ [] else free_rx ∷ []
on_bridge env both_lwip = both_bridges env
on_bridge env invalid = free_rx ∷ []

-- `wlan_sta_rx_callback`, given what `filter_and_route_packet` answers.
unfoldable pub wlan_sta_rx_callback : RxEnv → Bridge → List Effect
unfolding on_bridge
wlan_sta_rx_callback env bridge =
    if not env.has_buffer || not env.has_eb
    then (if env.has_eb then free_rx ∷ [] else [])
    else on_bridge env bridge

-- What `esp_wifi_internal_tx` returns: ESP_OK, ESP_ERR_NO_MEM or another error.
pub data TxStatus : Type 0 where
  tx_done tx_no_mem tx_error : TxStatus

-- The loop of `wifi_tx_with_retry` from the i-th call on, with `retry` rounds left; it also counts
-- the calls.
unfoldable pub retry_loop : ℕ → (ℕ → TxStatus) → ℕ → TxStatus × ℕ
retry_loop zero answer i = (answer i, suc i)
retry_loop (suc retry) answer i =
    let later = retry_loop retry answer (suc i) in
    elim (answer i) [
      | tx_done ↦ (tx_done, suc i)
      | tx_error ↦ (tx_error, suc i)
      | tx_no_mem ↦ later
    ]

-- `wifi_tx_with_retry`; `max_retry` is MAX_WIFI_STA_TX_RETRY less the round that always runs.
unfoldable pub wifi_tx_with_retry : ℕ → (ℕ → TxStatus) → TxStatus × ℕ
unfolding retry_loop
wifi_tx_with_retry max_retry answer = retry_loop max_retry answer 0

-- Where `process_rx_pkt` hands the payload of a buffer from the host, with CONFIG_BT_ENABLED and
-- without TEST_RAW_TP. The buffer is freed after each.
pub data HostPacket : Type 0 where
  wifi_sta wifi_ap serial_pkt priv_command priv_event hci_pkt ignored : HostPacket

-- ESP_PACKET_TYPE_COMMAND
abbrev packet_type_command : ℕ
packet_type_command = 1

unfoldable process_rx_pkt : Bool → Bool → ℕ → ℕ → HostPacket
process_rx_pkt station_connected softap_started if_type pkt_type =
    if if_type == sta_if && station_connected
    then wifi_sta
    else if if_type == ap_if && softap_started
    then wifi_ap
    else if if_type == serial_if
    then serial_pkt
    else if if_type == priv_if
    then (if pkt_type == packet_type_command then priv_command else priv_event)
    else if if_type == hci_if
    then hci_pkt
    else ignored
