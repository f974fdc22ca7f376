-- ===== src/SdioHost/Tx/Pack.antt =====
-- What the loop of `tx_process` makes of queues that hold whole packets.
use mathlib.Core.Path.{subst}
use native.Mathlib.Decide.{dec_lt}
use esp_hosted.Prelude.{
  ℕ, zero, suc, ◌+◌, ◌≤◌, ◌<◌, ◌≡◌, ◌≢◌, ◌⊎◌, inl, inr, refl, sym, ap, ◌∙◌, List, [], ◌∷◌, ◌++◌,
  some, length, length-append, append_assoc, append-nil, take_all, arith,
}
use esp_hosted.Header.{offset_valid}
use esp_hosted.Lanes.{Lanes, size}
use esp_hosted.SdioSlave.{align4, pad4}
use esp_hosted.Aggregate.{IsPacket, ArePackets, join, length-pad4}
use esp_hosted.SdioHost.Tx.{Prio, Aggr, again, stop, set_lane, join_packet, take_packet, rounds}
use esp_hosted.SdioHost.Tx.Pending.{
  IsCounted, IsFront, empty, front, front_of, round_full, round_empty, round-front, taken-IsCounted,
}
use esp_hosted.SdioHost.Tx.Rounds.{rounds_stop, rounds_again}

-- The packets in the order in which the queues are served.
abbrev pub waiting : Lanes (List ℕ) → List (List ℕ)
waiting q = q.serial ++ (q.bt ++ q.others)

module _ (tx_aggr_size : ℕ) where
  abbrev pub AllFit : List (List ℕ) → Type 0
  AllFit [] = Unit
  AllFit (p ∷ ps) = (align4 (length p) ≤ tx_aggr_size) × AllFit ps

  -- `a'` is `a` and the packets `sent`.
  pub record Extends (a a' : Aggr) : Type 0 where
    pub sent : List (List ℕ)
    pub bytes : a'.bytes ≡ a.bytes ++ join sent
    pub packets : ArePackets sent
    pub order : waiting a.tx.tx_q ≡ sent ++ waiting a'.tx.tx_q
    pub fits : length a'.bytes ≤ tx_aggr_size
    pub progress : (length a.bytes ≢ 0) ⊎ ((length sent ≢ 0) ⊎ (waiting a.tx.tx_q ≡ []))

  end-Extends :
      (a : Aggr)
      → length a.bytes ≤ tx_aggr_size
      → (length a.bytes ≢ 0) ⊎ (waiting a.tx.tx_q ≡ [])
      → Extends a a
  end-Extends a h p = record {
    sent = [];
    bytes = sym (append-nil a.bytes);
    packets = tt;
    order = refl;
    fits = h;
    progress = elim p [ inl k ↦ inl k | inr e ↦ inr (inr e) ];
  }

  module _ (a : Aggr) (prio : Prio) (skb : List ℕ) (rest : List (List ℕ)) (w : IsPacket skb) where
    joined : Aggr
    joined = join_packet prio skb rest (length skb) a

    take_packet-cases :
        align4 (length skb) ≤ tx_aggr_size
        → ((take_packet tx_aggr_size prio skb rest w.hdr a ≡ stop a) × (length a.bytes ≢ 0))
          ⊎ ((length a.bytes + align4 (length skb) ≤ tx_aggr_size)
              × ((take_packet tx_aggr_size prio skb rest w.hdr a ≡ stop joined)
                  ⊎ (take_packet tx_aggr_size prio skb rest w.hdr a ≡ again joined)))
    unfolding take_packet offset_valid joined
    take_packet-cases h =
        let n : w.hdr.offset + w.hdr.len ≡ length skb = omega (arith, w.whole) in
        ground (arith, n, w.nonempty, w.offset_min, w.offset_max)

    joined-bytes : joined.bytes ≡ a.bytes ++ pad4 skb
    unfolding joined join_packet
    joined-bytes = ap (λ t. a.bytes ++ pad4 t) (take_all (length skb) skb (omega arith))

    joined-tx : joined.tx.tx_q ≡ set_lane prio rest a.tx.tx_q
    unfolding joined join_packet
    joined-tx = refl

    length-joined : length joined.bytes ≡ length a.bytes + align4 (length skb)
    length-joined =
        omega (arith, ap length joined-bytes, length-append a.bytes (pad4 skb), length-pad4 skb)

    cons-Extends : (a' : Aggr) → IsFront prio skb rest a.tx.tx_q → Extends joined a' → Extends a a'
    cons-Extends a' f x = record {
      sent = skb ∷ x.sent;
      bytes =
          x.bytes
          ∙ ap (λ t. t ++ join x.sent) joined-bytes
          ∙ append_assoc a.bytes (pad4 skb) (join x.sent);
      packets = (w, x.packets);
      order = f.waiting ∙ ap (λ q. skb ∷ waiting q) (sym joined-tx) ∙ ap (λ t. skb ∷ t) x.order;
      fits = x.fits;
      progress = inr (inl (omega arith));
    }

  packets_at :
      {prio : Prio} {skb : List ℕ} {rest : List (List ℕ)} (a : Aggr)
      → IsFront prio skb rest a.tx.tx_q
      → ArePackets (waiting a.tx.tx_q)
      → AllFit (waiting a.tx.tx_q)
      → ArePackets (skb ∷ waiting (set_lane prio rest a.tx.tx_q))
        × AllFit (skb ∷ waiting (set_lane prio rest a.tx.tx_q))
  packets_at a f w k = (subst ArePackets f.waiting w, subst AllFit f.waiting k)

  joined-IsCounted :
      (a : Aggr) (prio : Prio) (skb : List ℕ) (rest : List (List ℕ)) (w : IsPacket skb)
      → IsCounted a.tx
      → IsFront prio skb rest a.tx.tx_q
      → IsCounted (joined a prio skb rest w).tx
  unfolding joined join_packet
  joined-IsCounted a prio skb rest w v f = taken-IsCounted tx_aggr_size a v f

  pub rounds-Extends :
      (fuel : ℕ) (a : Aggr)
      → IsCounted a.tx
      → size a.tx.tx_q < fuel
      → 0 < tx_aggr_size
      → length a.bytes ≤ tx_aggr_size
      → ArePackets (waiting a.tx.tx_q)
      → AllFit (waiting a.tx.tx_q)
      → (a' : Aggr) × (rounds tx_aggr_size fuel a ≡ some a') × Extends a a'
  rounds-Extends zero a v h z b w k = absurd (omega arith)
  rounds-Extends (suc fuel) a v h z b w k = elim (dec_lt (length a.bytes) tx_aggr_size) [
    | no n ↦ (
      a,
      rounds_stop tx_aggr_size fuel a a (round_full tx_aggr_size a v (omega arith)),
      end-Extends a b (inl (omega arith)),
    )
    | yes n ↦ elim (front_of a.tx.tx_q) [
      | empty e i ↦ (
        a,
        rounds_stop tx_aggr_size fuel a a (round_empty tx_aggr_size a v i),
        end-Extends a b (inr e),
      )
      | front prio skb rest f ↦
          let g = packets_at a f w k in
          let p = g.0.0 in
          let r = round-front tx_aggr_size a v f p.hdr n p.is_header in
          let x = joined a prio skb rest p in
          let q = joined-tx a prio skb rest p in
          elim (take_packet-cases a prio skb rest p g.1.0) [
            | inl (e, m) ↦ (a, rounds_stop tx_aggr_size fuel a a (r ∙ e), end-Extends a b (inl m))
            | inr (fits, inl e) ↦ (
              x,
              rounds_stop tx_aggr_size fuel a x (r ∙ e),
              cons-Extends a prio skb rest p x f (
                  end-Extends x (omega (arith, fits, length-joined a prio skb rest p))
                    (inl (omega (arith, length-joined a prio skb rest p, p.whole, p.nonempty)))),
            )
            | inr (fits, inr e) ↦
                let later =
                  rounds-Extends fuel x (joined-IsCounted a prio skb rest p v f)
                    (omega (arith, ap size q, f.smaller, h)) z
                    (omega (arith, fits, length-joined a prio skb rest p)) (rw q g.0.1)
                    (rw q g.1.1) in
                (
                  later.0,
                  rounds_again tx_aggr_size fuel a x (r ∙ e) ∙ later.1,
                  cons-Extends a prio skb rest p later.0 f later.2,
                )
          ]
    ]
  ]
