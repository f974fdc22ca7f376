-- ===== src/SpiSlave/Semaphore.antt =====
-- The counting semaphore in front of the coprocessor's queues to the bus.
use esp_hosted.Prelude.{
  ℕ, suc, ◌-◌, ◌<◌, ◌≡◌, none, some, Option-cases, inl, inr, arith, ◌==◌, if◌then◌else◌,
}
use esp_hosted.Lanes.{Lanes, dequeue, size}
use esp_hosted.Lanes.Order.{size-dequeue, dequeue-none}
use esp_hosted.SpiSlave.{TxBuf, get_next_tx_buffer}

got_some :
    (sem : ℕ) (q rest : Lanes TxBuf) (b : TxBuf)
    → dequeue q ≡ some (b, rest)
    → get_next_tx_buffer sem q ≡ (if sem == 0 then (sem, none, q) else (sem - 1, some b, rest))
unfolding get_next_tx_buffer
got_some sem q rest b e = ground (arith, e)

-- While the semaphore counts the buffers that wait, a transaction that finds one waiting gets one,
-- and the semaphore counts those that are left.
pub get_next_tx_buffer-size :
    (q : Lanes TxBuf)
    → 0 < size q
    → (b : TxBuf) × (rest : Lanes TxBuf) × (get_next_tx_buffer (size q) q
        ≡ (size rest, some b, rest))
      × (size q ≡ suc (size rest))
get_next_tx_buffer-size q z = elim (Option-cases (dequeue q)) [
  | inl e ↦ ground (arith, z, dequeue-none q e)
  | inr ((b, rest), e) ↦ (
    b,
    rest,
    ground (arith, got_some (size q) q rest b e, size-dequeue q rest b e),
    size-dequeue q rest b e,
  )
]
