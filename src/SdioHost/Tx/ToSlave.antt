-- ===== src/SdioHost/Tx/ToSlave.antt =====
-- From the transmit queues of the Linux host over the SDIO bus to what the coprocessor reads.
use esp_hosted.Prelude.{
  ℕ, suc, ◌+◌, ◌-◌, ◌%◌, ◌≤◌, ◌<◌, ◌≡◌, ◌≢◌, ◌⊎◌, inl, inr, refl, ap, ◌∙◌, List, [], ◌∷◌, ◌++◌,
  some, none, length, map, replicate, length-append, length-replicate, append_assoc, arith,
}
use esp_hosted.Lanes.{size}
use esp_hosted.Aggregate.{ArePackets, join}
use esp_hosted.SdioSlave.Read.{calls, summary, all_of, calls-join}
use esp_hosted.SdioHost.Tx.{TxState, Aggr, rounds, start, pad_block}
use esp_hosted.SdioHost.Tx.Pending.{IsCounted}
use esp_hosted.SdioHost.Tx.Pack.{waiting, AllFit, rounds-Extends}

-- The block that is written for an aggregate, in a receive buffer of the coprocessor, is read as the
-- packets of the aggregate.
reads_back :
    (bytes stale : List ℕ) (sent : List (List ℕ))
    → bytes ≡ join sent
    → ArePackets sent
    → length bytes < 65024
    → map summary
        (calls (length sent) (some (pad_block bytes ++ stale, length (pad_block bytes))) none)
      ≡ all_of sent
unfolding pad_block calls
reads_back bytes stale [] e v b = refl
reads_back bytes stale (p ∷ ps) e v b =
    ap
      (λ t.
        map summary
          (calls (suc (length ps)) (some (pad_block t ++ stale, length (pad_block t))) none))
      e
    ∙ ap
        (λ t.
          map summary (calls (suc (length ps)) (some (t, length (pad_block (join (p ∷ ps))))) none))
        (append_assoc (join (p ∷ ps)) (replicate k 0) stale)
    ∙ ap
        (λ n.
          map summary
            (calls (suc (length ps)) (some (join (p ∷ ps) ++ (replicate k 0 ++ stale), n)) none))
        (length-append (join (p ∷ ps)) (replicate k 0)
          ∙ ap (λ n. length (join (p ∷ ps)) + n) (length-replicate {A = ℕ} k 0))
    ∙ calls-join k stale p ps v (omega (arith, ap length e))
  where
    k : ℕ
    k = (512 - length (join (p ∷ ps)) % 512) % 512

-- An aggregate, and what arrives of it.
pub record IsSent (tx_aggr_size : ℕ) (stale : List ℕ) (s : TxState) : Type 0 where
  pub aggr : Aggr
  pub sent : List (List ℕ)
  pub ends : rounds tx_aggr_size (suc (size s.tx_q)) (start s) ≡ some aggr
  pub order : waiting s.tx_q ≡ sent ++ waiting aggr.tx.tx_q
  pub progress : (length sent ≢ 0) ⊎ (waiting s.tx_q ≡ [])
  pub fits : length aggr.bytes ≤ tx_aggr_size
  pub arrives :
      map summary (
        calls
          (length sent)
          (some (pad_block aggr.bytes ++ stale, length (pad_block aggr.bytes)))
          none)
      ≡ all_of sent

-- When the counters are right, aggregates have a size of less than 65024 bytes and the queues hold
-- whole packets that each fit an aggregate, the thread packs the packets at the front, serial ones first; the coprocessor, whose receive buffer
-- may hold anything behind the padded block, reads exactly these packets in as many calls, and gives
-- the block back with the last; the other packets stay in the queues; and if packets wait, some are
-- sent. Checksums are off on the coprocessor.
pub rounds-IsSent :
    (tx_aggr_size : ℕ) (stale : List ℕ) (s : TxState)
    → 0 < tx_aggr_size
    → tx_aggr_size < 65024
    → IsCounted s
    → ArePackets (waiting s.tx_q)
    → AllFit tx_aggr_size (waiting s.tx_q)
    → IsSent tx_aggr_size stale s
rounds-IsSent tx_aggr_size stale s z c v w k =
    let r =
      rounds-Extends tx_aggr_size (suc (size s.tx_q)) (start s) v (omega arith) z (omega arith) w
        k in
    let x = r.2 in
    record {
      aggr = r.0;
      sent = x.sent;
      ends = r.1;
      order = x.order;
      progress = elim x.progress [ inl n ↦ absurd (n refl) | inr p ↦ p ];
      fits = x.fits;
      arrives = reads_back r.0.bytes stale x.sent x.bytes x.packets (omega (arith, x.fits));
    }
