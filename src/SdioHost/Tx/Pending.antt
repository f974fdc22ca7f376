-- ===== src/SdioHost/Tx/Pending.antt =====
-- The counters beside the transmit queues agree with what waits in them, and the loop of
-- `tx_process` over the queues ends.

use mathlib.Core.Path.{subst}
use esp_hosted.Prelude.{
  ℕ, suc, ◌+◌, ◌≤◌, ◌<◌, ◌≡◌, refl, sym, ap, ◌∙◌, List, [], ◌∷◌, ◌++◌, Option, none, some, length,
  length-append, arith,
}
use esp_hosted.Header.{Header, get_header}
use esp_hosted.Lanes.{Lanes, enqueue, size}
use esp_hosted.SdioHost.Tx.{
  Prio, serial, bt, others, TxState, write_packet, pick, lane, set_lane, taken, Aggr, again, stop,
  take_packet, round, hard_pending_count, max_pending_bytes,
}

abbrev pub byte_count : List (List ℕ) → ℕ
byte_count [] = 0
byte_count (p ∷ ps) = length p + byte_count ps

byte_count-append :
    (ps : List (List ℕ)) (p : List ℕ) → byte_count (ps ++ p ∷ []) ≡ byte_count ps + length p
byte_count-append [] p = omega arith
byte_count-append (q ∷ ps) p = omega (arith, byte_count-append ps p)

-- The state in which the counters agree with the queues.
abbrev pub counted : Lanes (List ℕ) → TxState
counted q = record {
  tx_q = q;
  items = record {
    serial_items = length q.serial;
    bt_items = length q.bt;
    others_items = length q.others;
  };
  tx_pending = size q;
  tx_pending_bytes = byte_count q.serial + byte_count q.bt + byte_count q.others;
}

-- The counters are right, and within the limits of `write_packet`.
pub record IsCounted (s : TxState) : Type 0 where
  pub right : s ≡ counted s.tx_q
  pub pending : s.tx_pending ≤ hard_pending_count
  pub bytes : s.tx_pending_bytes ≤ max_pending_bytes

enqueue-counted :
    (skb : List ℕ) (q : Lanes (List ℕ))
    → (write_packet skb (counted q)).1 ≡ counted (write_packet skb (counted q)).1.tx_q
unfolding write_packet enqueue
enqueue-counted skb q = ground (
  arith,
  length-append q.serial (skb ∷ []),
  length-append q.bt (skb ∷ []),
  length-append q.others (skb ∷ []),
  byte_count-append q.serial skb,
  byte_count-append q.bt skb,
  byte_count-append q.others skb,
)

write_packet-counted :
    (skb : List ℕ) (s : TxState)
    → s ≡ counted s.tx_q
    → (write_packet skb s).1 ≡ counted (write_packet skb s).1.tx_q
write_packet-counted skb s e =
    subst (λ t. (write_packet skb t).1 ≡ counted (write_packet skb t).1.tx_q) (sym e)
      (enqueue-counted skb s.tx_q)

-- Whatever is written, the counters stay right, at most 1064 packets wait, and at most 2 MiB.
pub write_packet-IsCounted :
    (skb : List ℕ) (s : TxState) → IsCounted s → IsCounted (write_packet skb s).1
unfolding write_packet
write_packet-IsCounted skb s v = record {
  right = write_packet-counted skb s v.right;
  pending = ground (arith, v.pending);
  bytes = ground (arith, v.bytes);
}

-- The front of a queue, and what the queues are without it.
pub record IsFront (prio : Prio) (skb : List ℕ) (rest : List (List ℕ)) (q : Lanes (List ℕ))
    : Type 0 where
  pub at_front : lane prio q ≡ skb ∷ rest
  pub picked : pick (counted q).items ≡ some prio
  pub waiting :
      q.serial ++ (q.bt ++ q.others)
      ≡ skb
        ∷ ((set_lane prio rest q).serial
            ++ ((set_lane prio rest q).bt ++ (set_lane prio rest q).others))
  pub smaller : size q ≡ suc (size (set_lane prio rest q))
  pub is_taken : taken prio skb rest (counted q) ≡ counted (set_lane prio rest q)

pub data Front (q : Lanes (List ℕ)) : Type 0 where
  empty : q.serial ++ (q.bt ++ q.others) ≡ [] → pick (counted q).items ≡ none → Front q
  front : (prio : Prio) (skb : List ℕ) (rest : List (List ℕ)) → IsFront prio skb rest q → Front q

front_lists : (s b o : List (List ℕ)) → Front (record { serial = s; bt = b; others = o })
unfolding pick
front_lists [] [] [] = empty refl refl
front_lists [] [] (p ∷ o) = front others p o (record {
  at_front = refl;
  picked = ground arith;
  waiting = refl;
  smaller = omega arith;
  is_taken = ground arith;
})
front_lists [] (p ∷ b) o = front bt p b (record {
  at_front = refl;
  picked = ground arith;
  waiting = refl;
  smaller = omega arith;
  is_taken = ground arith;
})
front_lists (p ∷ s) b o = front serial p s (record {
  at_front = refl;
  picked = ground arith;
  waiting = refl;
  smaller = omega arith;
  is_taken = ground arith;
})

pub front_of : (q : Lanes (List ℕ)) → Front q
front_of q = front_lists q.serial q.bt q.others

module _ (tx_aggr_size : ℕ) where
  module _ (a : Aggr) (v : IsCounted a.tx) where
    pub round_full : tx_aggr_size ≤ length a.bytes → round tx_aggr_size a ≡ stop a
    unfolding round
    round_full h = ground arith

    picked_at : (o : Option Prio) → pick (counted a.tx.tx_q).items ≡ o → pick a.tx.items ≡ o
    picked_at o e = ap (λ s. pick s.items) v.right ∙ e

    pub round_empty : pick (counted a.tx.tx_q).items ≡ none → round tx_aggr_size a ≡ stop a
    unfolding round
    round_empty e = let e' : pick a.tx.items ≡ none = picked_at none e in ground (arith, e')

    module _ {prio : Prio} {skb : List ℕ} {rest : List (List ℕ)}
        (f : IsFront prio skb rest a.tx.tx_q) where
      pub round-front :
          (h : Header)
          → length a.bytes < tx_aggr_size
          → get_header skb ≡ some h
          → round tx_aggr_size a ≡ take_packet tx_aggr_size prio skb rest h a
      unfolding round
      round-front h b e =
          let e' : pick a.tx.items ≡ some prio = picked_at (some prio) f.picked in
          ground (arith, e', f.at_front, e)

      pub round-short :
          length a.bytes < tx_aggr_size
          → get_header skb ≡ none
          → round tx_aggr_size a ≡ again (record a { tx = taken prio skb rest a.tx })
      unfolding round
      round-short b e =
          let e' : pick a.tx.items ≡ some prio = picked_at (some prio) f.picked in
          ground (arith, e', f.at_front, e)

      taken-counted : taken prio skb rest a.tx ≡ counted (set_lane prio rest a.tx.tx_q)
      taken-counted = ap (taken prio skb rest) v.right ∙ f.is_taken

      pub taken-IsCounted : IsCounted (taken prio skb rest a.tx)
      taken-IsCounted = record {
        right = taken-counted;
        pending = omega (arith, v.pending);
        bytes = omega (arith, v.bytes);
      }
