-- ===== src/SdioHost/FromSlave.antt =====
-- From a queue of the coprocessor over the SDIO bus into the receive queue of the Linux host.
use esp_hosted.Prelude.{
  ℕ, ◌+◌, ◌%◌, ◌≤◌, ◌<◌, ◌≡◌, ◌≢◌, ◌⊎◌, inl, inr, refl, sym, ap, ◌∙◌, Bool, true, false, List, [],
  ◌∷◌, ◌++◌, Option, some, none, length, map, arith,
}
use esp_hosted.Header.{IsHeader, put_header}
use esp_hosted.Header.Bytes.{get_header-put_header}
use esp_hosted.Header.Checksum.{compute_checksum-total}
use esp_hosted.Slave.{Handle}
use esp_hosted.SdioSlave.{sdio_header, frame_header, is_invalid_tx, pack, process_tx_queue}
use esp_hosted.SdioSlave.Pack.{IsSdioHandle, AreHandles, packet, valid, AreValid, pack-IsPacked}
use esp_hosted.SdioHost.{frames_of}
use esp_hosted.SdioHost.Split.{always, frames_of-join, length-join}
use esp_hosted.Aggregate.{IsPacket, ArePackets, join}

-- What a receiver that gets its memory makes of what was transmitted.
unfoldable pub received : Option (List ℕ) → List (List ℕ)
received none = []
received (some bytes) = frames_of always bytes

module _ (rx_buf_size : ℕ) (sdio_checksum : Bool) where
  frame_header-IsHeader :
      (h : Handle)
      → IsSdioHandle h
      → length h.payload < 65536
      → IsHeader (frame_header sdio_checksum h)
  unfolding frame_header
  frame_header-IsHeader h w n =
      ground (arith, compute_checksum-total (put_header (sdio_header h) h.payload))

  frame_header_len :
      (h : Handle)
      → ((frame_header sdio_checksum h).len ≡ length h.payload)
        × ((frame_header sdio_checksum h).offset ≡ 12)
  unfolding frame_header
  frame_header_len h = ground arith

  valid_bounds :
      (h : Handle)
      → is_invalid_tx rx_buf_size sdio_checksum h ≡ false
      → (0 < length h.payload) × (length h.payload + 12 ≤ rx_buf_size)
  unfolding is_invalid_tx
  valid_bounds h e = ground (arith, e)

  packet-IsPacket :
      (h : Handle)
      → IsSdioHandle h
      → is_invalid_tx rx_buf_size sdio_checksum h ≡ false
      → rx_buf_size ≤ 15872
      → IsPacket (packet sdio_checksum h)
  unfolding put_header
  packet-IsPacket h w e c =
      let b = valid_bounds h e in
      let f = frame_header_len h in
      record {
        hdr = frame_header sdio_checksum h;
        is_header =
            get_header-put_header (frame_header sdio_checksum h) h.payload
              (frame_header-IsHeader h w (omega (arith, b.0, b.1)));
        whole = omega (arith, f.0, f.1);
        nonempty = omega (arith, f.0, b.0);
        short = omega (arith, f.0, b.1);
        offset_min = omega (arith, f.1);
        offset_max = omega (arith, f.1);
      }

  packets-ArePackets :
      (hs : List Handle)
      → AreHandles hs
      → AreValid rx_buf_size sdio_checksum hs
      → rx_buf_size ≤ 15872
      → ArePackets (map (packet sdio_checksum) hs)
  packets-ArePackets [] w v c = tt
  packets-ArePackets (h ∷ hs) w v c = (packet-IsPacket h w.0 v.0 c, packets-ArePackets hs w.1 v.1 c)

  -- What a call does: `sent` are the oldest valid buffers of the queue, and the host receives their
  -- packets; none is sent only if the queue holds no valid buffer.
  pub record IsDelivered (q : List Handle) (r : Option (List ℕ) × List Handle) : Type 0 where
    pub sent : List Handle
    pub arrives : received r.0 ≡ map (packet sdio_checksum) sent
    pub order : valid rx_buf_size sdio_checksum q ≡ sent ++ valid rx_buf_size sdio_checksum r.1
    pub progress : (length sent ≢ 0) ⊎ (valid rx_buf_size sdio_checksum q ≡ [])

  process-none :
      (q : List Handle)
      → length (pack rx_buf_size sdio_checksum [] q).0 ≡ 0
      → process_tx_queue rx_buf_size sdio_checksum true q
        ≡ (none, (pack rx_buf_size sdio_checksum [] q).1)
  unfolding process_tx_queue pack
  process-none [] e = refl
  process-none (h ∷ q) e = ground (arith, e)

  process-some :
      (q : List Handle)
      → 0 < length (pack rx_buf_size sdio_checksum [] q).0
      → process_tx_queue rx_buf_size sdio_checksum true q
        ≡ (some (pack rx_buf_size sdio_checksum [] q).0, (pack rx_buf_size sdio_checksum [] q).1)
  unfolding process_tx_queue pack
  process-some [] e = absurd (omega arith)
  process-some (h ∷ q) e = ground (arith, e)

  deliver :
      (q sent : List Handle) (r : List ℕ × List Handle)
      → r ≡ pack rx_buf_size sdio_checksum [] q
      → r.0 ≡ join (map (packet sdio_checksum) sent)
      → valid rx_buf_size sdio_checksum q ≡ sent ++ valid rx_buf_size sdio_checksum r.1
      → length r.0 ≤ rx_buf_size
      → rx_buf_size ≤ 15872
      → ArePackets (map (packet sdio_checksum) sent)
      → (length sent ≢ 0) ⊎ (valid rx_buf_size sdio_checksum q ≡ [])
      → IsDelivered q (process_tx_queue rx_buf_size sdio_checksum true q)
  unfolding received
  deliver q [] r e b o f c v g =
      rw (process-none q (ap (λ t. length t.0) (sym e) ∙ ap length b))
        (rw (sym e) (record { sent = []; arrives = refl; order = o; progress = g }))
  deliver q (h ∷ hs) r e b o f c v g =
      rw (process-some q (omega (arith, ap (λ t. length t.0) e, ap length b, length-join-pos))) (
        rw (sym e) (record {
          sent = h ∷ hs;
          arrives =
              ap (frames_of always) b
              ∙ frames_of-join (packet sdio_checksum h) (map (packet sdio_checksum) hs) v
                  (omega (arith, ap length b));
          order = o;
          progress = g;
        }))
    where
      length-join-pos : 0 < length (join (map (packet sdio_checksum) (h ∷ hs)))
      length-join-pos = omega (arith, length-join (map (packet sdio_checksum) (h ∷ hs)) v)

  -- A call of `process_tx_queue` for a queue of well-formed buffers transmits the packets of its
  -- oldest valid ones, in their order; the Linux host that gets its memory takes exactly these
  -- packets out of the transfer; the other valid ones stay queued; and if there is a valid one, some
  -- are sent. The receive buffers are a multiple of four bytes, 15872 at most, and there is a buffer
  -- for the aggregate.
  pub process_tx_queue-IsDelivered :
      (q : List Handle)
      → rx_buf_size % 4 ≡ 0
      → rx_buf_size ≤ 15872
      → AreHandles q
      → IsDelivered q (process_tx_queue rx_buf_size sdio_checksum true q)
  process_tx_queue-IsDelivered q m c w =
      let p = pack-IsPacked rx_buf_size sdio_checksum [] q m w (omega arith) in
      deliver q p.sent (pack rx_buf_size sdio_checksum [] q) refl p.bytes p.order p.fits c
        (packets-ArePackets p.sent p.sent_handles p.sent_valid c)
        (elim p.progress [ inl k ↦ absurd (k refl) | inr k ↦ k ])
