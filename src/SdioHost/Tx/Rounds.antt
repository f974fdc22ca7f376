-- ===== src/SdioHost/Tx/Rounds.antt =====
-- The loop of `tx_process` over the queues ends, and the driver keeps its counters right.
use mathlib.Core.Path.{subst}
use native.Mathlib.Decide.{dec_lt}
use esp_hosted.Prelude.{
  ℕ, zero, suc, ◌<◌, ◌≡◌, ◌⊎◌, inl, inr, refl, ◌∙◌, List, [], ◌∷◌, Option, none, some, length,
  arith, Option-cases,
}
use esp_hosted.Header.{Header, get_header}
use esp_hosted.Lanes.{size}
use esp_hosted.SdioHost.Tx.{
  Prio, TxState, write_packet, Aggr, Round, again, stop, join_packet, take_packet, round, rounds,
  start,
}
use esp_hosted.SdioHost.Tx.Pending.{
  IsCounted, IsFront, empty, front, front_of, round_full, round_empty, round-front, round-short,
  taken-IsCounted, write_packet-IsCounted,
}

-- A round leaves the counters right, and goes on only with fewer packets.
IsOk : ℕ → Round → Type 0
IsOk n (again a) = IsCounted a.tx × (size a.tx.tx_q < n)
IsOk n (stop a) = IsCounted a.tx

module _ (tx_aggr_size : ℕ) (a : Aggr) (v : IsCounted a.tx) where
  take_packet-IsOk :
      {prio : Prio} {skb : List ℕ} {rest : List (List ℕ)} (h : Header)
      → IsFront prio skb rest a.tx.tx_q
      → IsOk (size a.tx.tx_q) (take_packet tx_aggr_size prio skb rest h a)
  unfolding take_packet join_packet IsOk
  take_packet-IsOk h f = ground (arith, taken-IsCounted tx_aggr_size a v f, f.smaller)

  round_at_front :
      {prio : Prio} {skb : List ℕ} {rest : List (List ℕ)}
      → length a.bytes < tx_aggr_size
      → IsFront prio skb rest a.tx.tx_q
      → IsOk (size a.tx.tx_q) (round tx_aggr_size a)
  unfolding IsOk
  round_at_front {skb = skb} b f = elim (Option-cases (get_header skb)) [
    | inl e ↦
        rw (round-short tx_aggr_size a v f b e)
          (taken-IsCounted tx_aggr_size a v f, omega (arith, f.smaller))
    | inr (h, e) ↦ rw (round-front tx_aggr_size a v f h b e) (take_packet-IsOk h f)
  ]

  round-IsOk : IsOk (size a.tx.tx_q) (round tx_aggr_size a)
  unfolding IsOk
  round-IsOk = elim (dec_lt (length a.bytes) tx_aggr_size) [
    | no h ↦ rw (round_full tx_aggr_size a v (omega arith)) v
    | yes h ↦ elim (front_of a.tx.tx_q) [
      | empty _ e ↦ rw (round_empty tx_aggr_size a v e) v
      | front prio skb rest f ↦ round_at_front h f
    ]
  ]

pub rounds_stop :
    (tx_aggr_size fuel : ℕ) (a a' : Aggr)
    → round tx_aggr_size a ≡ stop a'
    → rounds tx_aggr_size (suc fuel) a ≡ some a'
unfolding rounds
rounds_stop tx_aggr_size fuel a a' e = ground (arith, e)

pub rounds_again :
    (tx_aggr_size fuel : ℕ) (a a' : Aggr)
    → round tx_aggr_size a ≡ again a'
    → rounds tx_aggr_size (suc fuel) a ≡ rounds tx_aggr_size fuel a'
unfolding rounds
rounds_again tx_aggr_size fuel a a' e = ground (arith, e)

pub Round-cases : (r : Round) → ((a : Aggr) × (r ≡ stop a)) ⊎ ((a : Aggr) × (r ≡ again a))
Round-cases (stop a) = inl (a, refl)
Round-cases (again a) = inr (a, refl)

-- While the counters are right, the loop over the queues ends after at most one round more than
-- there are packets, whatever the packets are, and the counters are right again.
pub rounds-IsCounted :
    (tx_aggr_size fuel : ℕ) (a : Aggr)
    → IsCounted a.tx
    → size a.tx.tx_q < fuel
    → (a' : Aggr) × (rounds tx_aggr_size fuel a ≡ some a') × IsCounted a'.tx
unfolding IsOk
rounds-IsCounted tx_aggr_size zero a v h = absurd (omega arith)
rounds-IsCounted tx_aggr_size (suc fuel) a v h = elim (Round-cases (round tx_aggr_size a)) [
  | inl (a', e) ↦
      (a', rounds_stop tx_aggr_size fuel a a' e, subst (IsOk _) e (round-IsOk tx_aggr_size a v))
  | inr (a', e) ↦
      let k : IsOk (size a.tx.tx_q) (again a') = subst (IsOk _) e (round-IsOk tx_aggr_size a v) in
      let r = rounds-IsCounted tx_aggr_size fuel a' k.0 (omega (arith, k.1)) in
      (r.0, rounds_again tx_aggr_size fuel a a' e ∙ r.1, r.2)
]

-- What happens to the queues: a packet is written, or the thread packs an aggregate.
pub data Op : Type 0 where
  writes : List ℕ → Op
  packs : ℕ → Op

-- The state after the operations, or none if the thread would not come back.
unfoldable pub run : List Op → TxState → Option TxState
run [] s = some s
run (writes skb ∷ ops) s = run ops (write_packet skb s).1
run (packs tx_aggr_size ∷ ops) s = elim (rounds tx_aggr_size (suc (size s.tx_q)) (start s)) [
  | none ↦ none
  | some a ↦ run ops a.tx
]

run-packs :
    (tx_aggr_size : ℕ) (ops : List Op) (s : TxState) (a : Aggr)
    → rounds tx_aggr_size (suc (size s.tx_q)) (start s) ≡ some a
    → run (packs tx_aggr_size ∷ ops) s ≡ run ops a.tx
unfolding run
run-packs tx_aggr_size ops s a e = ground (arith, e)

-- However packets are written and aggregates of whatever size are packed, every packing comes back,
-- the three counters of packets, `tx_pending` and `tx_pending_bytes` agree with what waits in the
-- queues, and at most 1064 packets and 2 MiB wait.
pub run-IsCounted :
    (ops : List Op) (s : TxState)
    → IsCounted s
    → (s' : TxState) × (run ops s ≡ some s') × IsCounted s'
unfolding run
run-IsCounted [] s v = (s, refl, v)
run-IsCounted (writes skb ∷ ops) s v =
    run-IsCounted ops (write_packet skb s).1 (write_packet-IsCounted skb s v)
run-IsCounted (packs tx_aggr_size ∷ ops) s v =
    let r = rounds-IsCounted tx_aggr_size (suc (size s.tx_q)) (start s) v (omega arith) in
    let k = run-IsCounted ops r.0.tx r.2 in (k.0, run-packs tx_aggr_size ops s r.0 r.1 ∙ k.1, k.2)
