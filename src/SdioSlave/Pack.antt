-- ===== src/SdioSlave/Pack.antt =====
-- What `process_tx_queue` makes of a queue: an aggregate of its oldest valid buffers.
use native.Mathlib.Decide.{dec_le}
use esp_hosted.Prelude.{
  ℕ, ◌+◌, ◌%◌, ◌≤◌, ◌<◌, ◌≡◌, refl, sym, ap, ◌∙◌, Bool, true, false, List, [], ◌∷◌, ◌++◌, length,
  map, length-append, append_assoc, append-nil, if◌then◌else◌, arith, Bool-cases, inl, inr, ◌≢◌,
  ◌⊎◌,
}
use esp_hosted.Header.{put_header}
use esp_hosted.Slave.{Handle}
use esp_hosted.SdioSlave.{align4, pad4, frame_header, build_frame, is_invalid_tx, starts_next, pack}
use esp_hosted.Aggregate.{join, length-pad4}

-- What the fields of the header can hold.
pub record IsSdioHandle (h : Handle) : Type 0 where
  pub if_type_4 : h.if_type < 16
  pub if_num_4 : h.if_num < 16
  pub flag_8 : h.flag < 256
  pub seq_num_16 : h.seq_num < 65536

abbrev pub AreHandles : List Handle → Type 0
AreHandles [] = Unit
AreHandles (h ∷ hs) = IsSdioHandle h × AreHandles hs

-- A buffer on the bus, without its padding.
abbrev pub packet : Bool → Handle → List ℕ
packet sdio_checksum h = put_header (frame_header sdio_checksum h) h.payload

module _ (rx_buf_size : ℕ) (sdio_checksum : Bool) where
  -- The buffers of a queue that are not dropped.
  abbrev pub valid : List Handle → List Handle
  valid [] = []
  valid (h ∷ q) =
      let later : List Handle = valid q in
      if is_invalid_tx rx_buf_size sdio_checksum h then later else h ∷ later

  abbrev pub AreValid : List Handle → Type 0
  AreValid [] = Unit
  AreValid (h ∷ hs) = (is_invalid_tx rx_buf_size sdio_checksum h ≡ false) × AreValid hs

  -- `sent` is what an aggregate behind `aggr` is made of.
  pub record IsPacked (aggr : List ℕ) (q : List Handle) (r : List ℕ × List Handle) : Type 0 where
    pub sent : List Handle
    pub bytes : r.0 ≡ aggr ++ join (map (packet sdio_checksum) sent)
    pub order : valid q ≡ sent ++ valid r.1
    pub fits : length r.0 ≤ rx_buf_size
    pub sent_handles : AreHandles sent
    pub sent_valid : AreValid sent
    pub progress : (length aggr ≢ 0) ⊎ ((length sent ≢ 0) ⊎ (valid q ≡ []))

  pack-invalid :
      (aggr : List ℕ) (h : Handle) (q : List Handle)
      → is_invalid_tx rx_buf_size sdio_checksum h ≡ true
      → pack rx_buf_size sdio_checksum aggr (h ∷ q) ≡ pack rx_buf_size sdio_checksum aggr q
  unfolding pack
  pack-invalid aggr h q e = ground (arith, e)

  pack_later :
      (aggr : List ℕ) (h : Handle) (q : List Handle)
      → is_invalid_tx rx_buf_size sdio_checksum h ≡ false
      → starts_next rx_buf_size sdio_checksum (length aggr) h ≡ true
      → pack rx_buf_size sdio_checksum aggr (h ∷ q) ≡ (aggr, h ∷ q)
  unfolding pack
  pack_later aggr h q e e' = ground (arith, e, e')

  pack_small :
      (aggr : List ℕ) (h : Handle) (q : List Handle)
      → is_invalid_tx rx_buf_size sdio_checksum h ≡ false
      → starts_next rx_buf_size sdio_checksum (length aggr) h ≡ false
      → length h.payload ≤ 256
      → pack rx_buf_size sdio_checksum aggr (h ∷ q) ≡ (aggr ++ build_frame sdio_checksum h, q)
  unfolding pack
  pack_small aggr h q e e' k = ground (arith, e, e')

  pack_large :
      (aggr : List ℕ) (h : Handle) (q : List Handle)
      → is_invalid_tx rx_buf_size sdio_checksum h ≡ false
      → starts_next rx_buf_size sdio_checksum (length aggr) h ≡ false
      → 256 < length h.payload
      → pack rx_buf_size sdio_checksum aggr (h ∷ q)
        ≡ pack rx_buf_size sdio_checksum (aggr ++ build_frame sdio_checksum h) q
  unfolding pack
  pack_large aggr h q e e' k = ground (arith, e, e')

  valid_skip :
      (h : Handle) (q : List Handle)
      → is_invalid_tx rx_buf_size sdio_checksum h ≡ true
      → valid (h ∷ q) ≡ valid q
  valid_skip h q e = ground (arith, e)

  valid_keep :
      (h : Handle) (q : List Handle)
      → is_invalid_tx rx_buf_size sdio_checksum h ≡ false
      → valid (h ∷ q) ≡ h ∷ valid q
  valid_keep h q e = ground (arith, e)

  length-build_frame :
      (h : Handle) → length (build_frame sdio_checksum h) ≡ align4 (length h.payload + 12)
  unfolding build_frame put_header
  length-build_frame h = omega (arith, length-pad4 (packet sdio_checksum h))

  -- A frame that is not left for the next aggregate fits this one.
  room :
      (aggr : List ℕ) (h : Handle)
      → rx_buf_size % 4 ≡ 0
      → is_invalid_tx rx_buf_size sdio_checksum h ≡ false
      → starts_next rx_buf_size sdio_checksum (length aggr) h ≡ false
      → length (aggr ++ build_frame sdio_checksum h) ≤ rx_buf_size
  unfolding is_invalid_tx starts_next
  room aggr h m e e' =
      ground (arith, e, e', length-append aggr (build_frame sdio_checksum h), length-build_frame h)

  not_empty :
      (aggr : List ℕ) (h : Handle)
      → starts_next rx_buf_size sdio_checksum (length aggr) h ≡ true
      → length aggr ≢ 0
  unfolding starts_next
  not_empty aggr h e = ground (arith, e)

  build_nonempty : (aggr : List ℕ) (h : Handle) → length (aggr ++ build_frame sdio_checksum h) ≢ 0
  build_nonempty aggr h =
      omega (arith, length-append aggr (build_frame sdio_checksum h), length-build_frame h)

  -- One more frame in front of what is packed later.
  cons-IsPacked :
      (aggr : List ℕ) (h : Handle) (q : List Handle) (r : List ℕ × List Handle)
      → IsSdioHandle h
      → is_invalid_tx rx_buf_size sdio_checksum h ≡ false
      → IsPacked (aggr ++ build_frame sdio_checksum h) q r
      → IsPacked aggr (h ∷ q) r
  unfolding build_frame
  cons-IsPacked aggr h q r w e p = record {
    sent = h ∷ p.sent;
    bytes =
        p.bytes
        ∙ append_assoc aggr (pad4 (packet sdio_checksum h))
            (join (map (packet sdio_checksum) p.sent));
    order = valid_keep h q e ∙ ap (λ t. h ∷ t) p.order;
    fits = p.fits;
    sent_handles = (w, p.sent_handles);
    sent_valid = (e, p.sent_valid);
    progress = inr (inl (omega arith));
  }

  end-IsPacked :
      (aggr : List ℕ) (q : List Handle)
      → length aggr ≤ rx_buf_size
      → (length aggr ≢ 0) ⊎ (valid q ≡ [])
      → IsPacked aggr q (aggr, q)
  end-IsPacked aggr q h n = record {
    sent = [];
    bytes = sym (append-nil aggr);
    order = refl;
    fits = h;
    sent_handles = tt;
    sent_valid = tt;
    progress = elim n [ inl k ↦ inl k | inr e ↦ inr (inr e) ];
  }

  pub pack-IsPacked :
      (aggr : List ℕ) (q : List Handle)
      → rx_buf_size % 4 ≡ 0
      → AreHandles q
      → length aggr ≤ rx_buf_size
      → IsPacked aggr q (pack rx_buf_size sdio_checksum aggr q)
  unfolding pack
  pack-IsPacked aggr [] m w b = end-IsPacked aggr [] b (inr refl)
  pack-IsPacked aggr (h ∷ q) m w b = elim (Bool-cases (is_invalid_tx rx_buf_size sdio_checksum h)) [
    | inl e ↦
        let p = pack-IsPacked aggr q m w.1 b in
        rw (pack-invalid aggr h q e) (record {
          sent = p.sent;
          bytes = p.bytes;
          order = valid_skip h q e ∙ p.order;
          fits = p.fits;
          sent_handles = p.sent_handles;
          sent_valid = p.sent_valid;
          progress = elim p.progress [
            | inl k ↦ inl k
            | inr (inl k) ↦ inr (inl k)
            | inr (inr k) ↦ inr (inr (valid_skip h q e ∙ k))
          ];
        })
    | inr e ↦ elim (Bool-cases (starts_next rx_buf_size sdio_checksum (length aggr) h)) [
      | inl e' ↦
          rw (pack_later aggr h q e e') (end-IsPacked aggr (h ∷ q) b (inl (not_empty aggr h e')))
      | inr e' ↦ elim (dec_le (length h.payload) 256) [
        | yes k ↦ rw (pack_small aggr h q e e' k) (
            cons-IsPacked aggr h q _ w.0 e
              (end-IsPacked _ q (room aggr h m e e') (inl (build_nonempty aggr h))))
        | no k ↦ rw (pack_large aggr h q e e' (omega arith)) (
            cons-IsPacked aggr h q _ w.0 e
              (pack-IsPacked (aggr ++ build_frame sdio_checksum h) q m w.1 (room aggr h m e e')))
      ]
    ]
  ]
