-- ===== src/NetDev/SlaveToHost.antt =====
-- `esp_spi_write` on the coprocessor against `process_rx_buf` and `process_rx_packet` on the host.
use esp_hosted.Prelude.{
  ℕ, ◌+◌, ◌%◌, ◌<◌, ◌≡◌, ◌⊎◌, true, List, Option, none, some, length, arith, if_elim, ◌∙◌, sym, ap,
  if◌then◌else◌, inl, inr, refl, ◌&&◌, [], ◌∷◌, drop,
}
use esp_hosted.Header.{Header, header_size, serial_if, sta_if, ap_if, put_header}
use esp_hosted.Lanes.{Lanes, enqueue}
use esp_hosted.Slave.{Handle}
use esp_hosted.SpiSlave.{
  WriteEnv, TxBuf, set_wakeup, is_host_wakeup_needed, dma_aligned, fill_buffer, send_buffer,
  esp_spi_write, spi_header,
}
use esp_hosted.SpiHost.{process_rx_buf, ok}
use esp_hosted.NetDev.{
  Private, process_rx_packet, dispatch, get_priv_from_payload_header, to_serial, to_network, drop,
}
use esp_hosted.NetDev.FromSlave.{
  IsHandle, sent_header, arrived, process_rx_buf-fill_buffer, process_rx_packet-arrived,
  drop-put_header,
}

-- The flags on the bus: those of the buffer, and perhaps FLAG_WAKEUP_PKT.
abbrev pub IsFlagOf : ℕ → ℕ → Type 0
IsFlagOf flag given = (flag ≡ given) ⊎ (flag ≡ set_wakeup given)

pub flag_bound : (flag given : ℕ) → given < 256 → IsFlagOf flag given → flag < 256
flag_bound flag given h e = ground arith

-- The flags that `esp_spi_write` puts in the header.
abbrev pub bus_flag : WriteEnv → Handle → ℕ
bus_flag env h =
    if env.host_power_saving && is_host_wakeup_needed env.host_ps_allowed h.if_type
    then set_wakeup h.flag
    else h.flag

pub bus_flag-IsFlagOf : (env : WriteEnv) (h : Handle) → IsFlagOf (bus_flag env h) h.flag
bus_flag-IsFlagOf env h =
    if_elim (λ f. IsFlagOf f h.flag)
      (env.host_power_saving && is_host_wakeup_needed env.host_ps_allowed h.if_type)
      (set_wakeup h.flag) h.flag (λ _. inr refl) (λ _. inl refl)

-- The buffer that is queued.
abbrev pub queued : WriteEnv → Handle → List ℕ → TxBuf
queued env h stale = record {
  if_type = h.if_type;
  if_num = h.if_num;
  payload_len = dma_aligned (length h.payload + header_size);
  payload = fill_buffer env.spi_checksum h (bus_flag env h) stale;
}

send_buffer-queued :
    (env : WriteEnv) (stale : List ℕ) (h : Handle) (q : Lanes TxBuf)
    → IsHandle h
    → env.tx_buffer ≡ some stale
    → send_buffer env h (bus_flag env h) q ≡ (
      some (dma_aligned (length h.payload + header_size)),
      enqueue h.if_type (queued env h stale) q,
    )
unfolding send_buffer dma_aligned
send_buffer-queued env stale h q v e = ground (arith, e, v.nonempty, v.fits)

pub esp_spi_write-queued :
    (env : WriteEnv) (stale : List ℕ) (h : Handle) (q : Lanes TxBuf)
    → IsHandle h
    → env.datapath ≡ true
    → env.wakes ≡ true
    → env.tx_buffer ≡ some stale
    → esp_spi_write env h q ≡ (
      some (dma_aligned (length h.payload + header_size)),
      enqueue h.if_type (queued env h stale) q,
    )
unfolding esp_spi_write
esp_spi_write-queued env stale h q v d w e =
    ground (arith, d, w, send_buffer-queued env stale h q v e)

more_of : (flag given : ℕ) → IsFlagOf flag given → flag % 2 ≡ given % 2
more_of flag given e = ground arith

get_priv_same :
    (privs : List (Option Private)) (h h' : Header)
    → h.if_type ≡ h'.if_type
    → h.if_num ≡ h'.if_num
    → get_priv_from_payload_header privs h ≡ get_priv_from_payload_header privs h'
unfolding get_priv_from_payload_header
get_priv_same [] h h' a b = refl
get_priv_same (none ∷ ps) h h' a b = get_priv_same ps h h' a b
get_priv_same (some p ∷ ps) h h' a b = ground (arith, a, b, get_priv_same ps h h' a b)

dispatch_serial :
    (privs : List (Option Private)) (hdr : Header) (buf : List ℕ) (len : ℕ)
    → hdr.if_type ≡ serial_if
    → dispatch privs hdr buf len header_size
      ≡ to_serial (record { hdr = hdr; payload = drop header_size buf })
unfolding dispatch
dispatch_serial privs hdr buf len s = ground (arith, s)

dispatch_network :
    (privs : List (Option Private)) (p : Private) (hdr : Header) (buf : List ℕ) (len : ℕ)
    → (hdr.if_type ≡ sta_if) ⊎ (hdr.if_type ≡ ap_if)
    → get_priv_from_payload_header privs hdr ≡ some p
    → dispatch privs hdr buf len header_size ≡ to_network p (drop header_size buf)
unfolding dispatch
dispatch_network privs p hdr buf len s g = ground (arith, s, g)

-- What a call of `esp_spi_write` leads to, when the data path is open, the host wakes if it has to,
-- and a buffer is allocated: `skb` is what the host's driver queues, `hdr` the header on the bus.
pub record Delivery (env : WriteEnv) (h : Handle) (q : Lanes TxBuf) (rq : Lanes (List ℕ))
    (skb : List ℕ) (hdr : Header) : Type 0 where
  pub buffer : TxBuf
  pub written :
      esp_spi_write env h q
      ≡ (some (dma_aligned (length h.payload + header_size)), enqueue h.if_type buffer q)
  pub taken : process_rx_buf true buffer.payload rq ≡ (ok, enqueue h.if_type skb rq)
  pub same_if : (hdr.if_type ≡ h.if_type) × (hdr.if_num ≡ h.if_num)
  pub same_seq : hdr.seq_num ≡ h.seq_num
  pub same_len : hdr.len ≡ length h.payload
  pub same_more : hdr.flags % 2 ≡ h.flag % 2

module _ (env : WriteEnv) (stale : List ℕ) (h : Handle) (q : Lanes TxBuf)
    (rq : Lanes (List ℕ)) where
  delivery :
      IsHandle h
      → env.datapath ≡ true
      → env.wakes ≡ true
      → env.tx_buffer ≡ some stale
      → Delivery env h q rq
          (arrived env.spi_checksum h (bus_flag env h))
          (sent_header env.spi_checksum h (bus_flag env h))
  delivery v d w e =
      let f = bus_flag-IsFlagOf env h in
      record {
        buffer = queued env h stale;
        written = esp_spi_write-queued env stale h q v d w e;
        taken =
            process_rx_buf-fill_buffer env.spi_checksum h (bus_flag env h) stale rq v
              (flag_bound (bus_flag env h) h.flag v.flag_8 f);
        same_if = (refl, refl);
        same_seq = refl;
        same_len = refl;
        same_more = more_of (bus_flag env h) h.flag f;
      }

  -- A serial buffer of 1 to 1588 bytes that the coprocessor writes arrives at the host's serial
  -- branch with its payload, sequence number and MORE_FRAGMENT flag, whatever the DMA buffer held
  -- before and whether or not checksums are on, if the data path is open, the host wakes where it
  -- has to and a DMA buffer is free.
  pub serial_write-arrives :
      (privs : List (Option Private))
      → IsHandle h
      → env.datapath ≡ true
      → env.wakes ≡ true
      → env.tx_buffer ≡ some stale
      → h.if_type ≡ serial_if
      → (skb : List ℕ) × (hdr : Header) × Delivery env h q rq skb hdr
        × (process_rx_packet env.spi_checksum privs skb
            ≡ some (to_serial (record { hdr = hdr; payload = h.payload })))
  serial_write-arrives privs v d w e s =
      let flag = bus_flag env h in
      let cs = env.spi_checksum in
      let b = flag_bound flag h.flag v.flag_8 (bus_flag-IsFlagOf env h) in
      (
        arrived cs h flag,
        sent_header cs h flag,
        delivery v d w e,
        process_rx_packet-arrived cs privs h flag v b
            ∙ ap some (
                dispatch_serial privs (sent_header cs h flag)
                  (put_header (spi_header h flag) h.payload) (length h.payload) s
                ∙ ap (λ p. to_serial (record { hdr = sent_header cs h flag; payload = p }))
                    (drop-put_header (spi_header h flag) h.payload)),
      )

  -- A buffer of a station or access point of 1 to 1588 bytes that the coprocessor writes reaches the
  -- first network device of the host that its header names, as the packet it was, whatever the DMA
  -- buffer held before and whether or not checksums are on, if there is such a device, the data path
  -- is open, the host wakes where it has to and a DMA buffer is free.
  pub network_write-arrives :
      (privs : List (Option Private)) (p : Private)
      → IsHandle h
      → env.datapath ≡ true
      → env.wakes ≡ true
      → env.tx_buffer ≡ some stale
      → (h.if_type ≡ sta_if) ⊎ (h.if_type ≡ ap_if)
      → get_priv_from_payload_header privs (spi_header h h.flag) ≡ some p
      → (skb : List ℕ) × (hdr : Header) × Delivery env h q rq skb hdr
        × (process_rx_packet env.spi_checksum privs skb ≡ some (to_network p h.payload))
  network_write-arrives privs p v d w e s g =
      let flag = bus_flag env h in
      let cs = env.spi_checksum in
      let b = flag_bound flag h.flag v.flag_8 (bus_flag-IsFlagOf env h) in
      let g' =
        sym (get_priv_same privs (spi_header h h.flag) (sent_header cs h flag) refl refl) ∙ g in
      (
        arrived cs h flag,
        sent_header cs h flag,
        delivery v d w e,
        process_rx_packet-arrived cs privs h flag v b
            ∙ ap some (
                dispatch_network privs p (sent_header cs h flag)
                  (put_header (spi_header h flag) h.payload) (length h.payload) s g'
                ∙ ap (to_network p) (drop-put_header (spi_header h flag) h.payload)),
      )
