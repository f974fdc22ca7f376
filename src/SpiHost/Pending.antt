-- ===== src/SpiHost/Pending.antt =====
-- The counter of packets that wait to be sent by the Linux host.
use esp_hosted.Prelude.{
  ℕ, ◌-◌, ◌≡◌, refl, Bool, List, [], ◌∷◌, none, some, Option-cases, inl, inr, arith, if◌then◌else◌,
}
use esp_hosted.Lanes.{Lanes, dequeue, size}
use esp_hosted.Lanes.Order.{size-enqueue, size-dequeue}
use esp_hosted.SpiHost.{TxQueue, write_packet, next_tx, purge_tx, if_type_of}

-- What happens to the queues: a packet is written, a transaction takes one, or the driver starts
-- again. The first two say whether the data path is open.
pub data Step : Type 0 where
  writes : Bool → List ℕ → Step
  transacts : Bool → Step
  starts_again : Step

abbrev pub step : ℕ → Step → TxQueue → TxQueue
step max_pending (writes data_path skb) q = (write_packet max_pending data_path skb q).1
step max_pending (transacts data_path) q = (next_tx data_path q).1
step max_pending starts_again q = purge_tx

abbrev pub steps : ℕ → List Step → TxQueue → TxQueue
steps max_pending [] q = q
steps max_pending (s ∷ ss) q = steps max_pending ss (step max_pending s q)

write_keeps :
    (max_pending : ℕ) (data_path : Bool) (skb : List ℕ) (q : TxQueue)
    → q.tx_pending ≡ size q.tx_q
    → (step max_pending (writes data_path skb) q).tx_pending
      ≡ size (step max_pending (writes data_path skb) q).tx_q
unfolding write_packet
write_keeps max_pending data_path skb q h =
    ground (arith, h, size-enqueue (if_type_of skb) skb q.tx_q)

next_none :
    (data_path : Bool) (q : TxQueue) → dequeue q.tx_q ≡ none → next_tx data_path q ≡ (none, q)
unfolding next_tx
next_none data_path q e = ground (arith, e)

next_some :
    (data_path : Bool) (q : TxQueue) (skb : List ℕ) (rest : Lanes (List ℕ))
    → dequeue q.tx_q ≡ some (skb, rest)
    → next_tx data_path q ≡ (
        if data_path
        then (some skb, record { tx_q = rest; tx_pending = q.tx_pending - 1 })
        else (none, q))
unfolding next_tx
next_some data_path q skb rest e = ground (arith, e)

next_keeps :
    (max_pending : ℕ) (data_path : Bool) (q : TxQueue)
    → q.tx_pending ≡ size q.tx_q
    → (step max_pending (transacts data_path) q).tx_pending
      ≡ size (step max_pending (transacts data_path) q).tx_q
next_keeps max_pending data_path q h = elim (Option-cases (dequeue q.tx_q)) [
  | inl e ↦ ground (arith, h, next_none data_path q e)
  | inr ((skb, rest), e) ↦
      ground (arith, h, next_some data_path q skb rest e, size-dequeue q.tx_q rest skb e)
]

step_keeps :
    (max_pending : ℕ) (s : Step) (q : TxQueue)
    → q.tx_pending ≡ size q.tx_q
    → (step max_pending s q).tx_pending ≡ size (step max_pending s q).tx_q
step_keeps max_pending (writes data_path skb) q h = write_keeps max_pending data_path skb q h
step_keeps max_pending (transacts data_path) q h = next_keeps max_pending data_path q h
step_keeps max_pending starts_again q h = refl

-- However packets are written, taken by transactions, refused, and purged when the driver starts
-- again, `tx_pending` stays the number of packets that wait in the three queues.
pub tx_pending-size :
    (max_pending : ℕ) (ss : List Step) (q : TxQueue)
    → q.tx_pending ≡ size q.tx_q
    → (steps max_pending ss q).tx_pending ≡ size (steps max_pending ss q).tx_q
tx_pending-size max_pending [] q h = h
tx_pending-size max_pending (s ∷ ss) q h =
    tx_pending-size max_pending ss (step max_pending s q) (step_keeps max_pending s q h)
