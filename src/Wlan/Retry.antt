-- ===== src/Wlan/Retry.antt =====
-- The retries of a transmission for which the Wi-Fi driver has no memory.
use native.Mathlib.Decide.{ℕ_discrete}
use esp_hosted.Prelude.{ℕ, zero, suc, ◌+◌, ◌-◌, ◌≡◌, ◌≢◌, ◌≤◌, ◌<◌, ◌⊎◌, inl, inr, refl, arith}
use esp_hosted.Wlan.{TxStatus, tx_done, tx_no_mem, tx_error, retry_loop, wifi_tx_with_retry}

TxStatus-cases : (s : TxStatus) → ((s ≡ tx_no_mem) ⊎ (s ≢ tx_no_mem))
TxStatus-cases tx_no_mem = inl refl
TxStatus-cases tx_done = inr (ground arith)
TxStatus-cases tx_error = inr (ground arith)

-- One round, by what the driver answers.
retry_step :
    (n : ℕ) (answer : ℕ → TxStatus) (i : ℕ)
    → answer i ≡ tx_no_mem
    → retry_loop (suc n) answer i ≡ retry_loop n answer (suc i)
unfolding retry_loop
retry_step n answer i e = ground (arith, e)

retry_stop :
    (n : ℕ) (answer : ℕ → TxStatus) (i : ℕ)
    → answer i ≢ tx_no_mem
    → retry_loop (suc n) answer i ≡ (answer i, suc i)
unfolding retry_loop
retry_stop n answer i e = ground (arith, e)

-- What a run of the loop from the i-th call on comes to.
abbrev Ends : ℕ → (ℕ → TxStatus) → ℕ → TxStatus × ℕ → Type 0
Ends n answer i (s, calls) =
    (s ≡ answer (calls - 1))
    × (i < calls)
    × (calls ≤ i + n + 1)
    × ((s ≢ tx_no_mem) ⊎ (calls ≡ i + n + 1))

retry_loop-Ends : (n : ℕ) (answer : ℕ → TxStatus) (i : ℕ) → Ends n answer i (retry_loop n answer i)
unfolding retry_loop
retry_loop-Ends zero answer i = ground arith
retry_loop-Ends (suc n) answer i = elim (TxStatus-cases (answer i)) [
  | inl e ↦ ground (arith, retry_step n answer i e, retry_loop-Ends n answer (suc i))
  | inr e ↦ ground (arith, retry_stop n answer i e, e)
]

retry_loop_before :
    (n : ℕ) (answer : ℕ → TxStatus) (i j : ℕ)
    → i ≤ j
    → j + 1 < (retry_loop n answer i).1
    → answer j ≡ tx_no_mem
unfolding retry_loop
retry_loop_before zero answer i j h k = ground arith
retry_loop_before (suc n) answer i j h k = elim (TxStatus-cases (answer i)) [
  | inl e ↦ elim (ℕ_discrete i j) [
    | yes p ↦ ground (arith, e, p)
    | no p ↦
        retry_loop_before n answer (suc i) j (omega arith) (ground (arith, retry_step n answer i e))
  ]
  | inr e ↦ ground (arith, retry_stop n answer i e)
]

-- The driver is called at least once and at most `max + 1` times, the last answer is the result,
-- and the result is ESP_ERR_NO_MEM only after all `max + 1` calls.
pub wifi_tx_with_retry-calls :
    (max : ℕ) (answer : ℕ → TxStatus)
    → ((wifi_tx_with_retry max answer).0 ≡ answer ((wifi_tx_with_retry max answer).1 - 1))
      × (0 < (wifi_tx_with_retry max answer).1)
      × ((wifi_tx_with_retry max answer).1 ≤ max + 1)
      × (((wifi_tx_with_retry max answer).0 ≢ tx_no_mem)
          ⊎ ((wifi_tx_with_retry max answer).1 ≡ max + 1))
unfolding wifi_tx_with_retry
wifi_tx_with_retry-calls max answer = ground (arith, retry_loop-Ends max answer 0)

-- Every call but the last was answered ESP_ERR_NO_MEM.
pub wifi_tx_with_retry_before :
    (max : ℕ) (answer : ℕ → TxStatus) (j : ℕ)
    → j + 1 < (wifi_tx_with_retry max answer).1
    → answer j ≡ tx_no_mem
unfolding wifi_tx_with_retry
wifi_tx_with_retry_before max answer j h = retry_loop_before max answer 0 j (omega arith) h
