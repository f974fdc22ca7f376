-- ===== src/StartUp/RoundTrip.antt =====
-- The host keeps what the coprocessor announced in its start-up event.
use esp_hosted.StartUp.Loop.{announced, tag_loop-sdio_event_data}
use esp_hosted.Prelude.{
  ℕ, suc, ◌+◌, ◌*◌, ◌/◌, ◌%◌, ◌<◌, ◌≡◌, refl, ap, ◌∙◌, Bool, true, false, not, List, [], ◌∷◌,
  Option, none, some, length, drop, get_or, arith, if◌then◌else◌, ◌||◌, ◌&&◌,
}
use esp_hosted.Header.{get_header, put_header, Header, IsHeader}
use esp_hosted.Header.Bytes.{get_header-put_header}
use esp_hosted.StartUp.{
  fw_bytes, Boot, sdio_event_data, sdio_event_len, sdio_startup_event, startup_header, FwEnv,
  check_esp_version, HostState, is_sdio_chip, tag_loop, Start, ready, disabled, process_init_event,
  process_priv, unchecked,
}

module _ (env : FwEnv) where
  -- How the start ends, when the network devices can be added.
  abbrev pub started : Boot → Start
  started b =
      if check_esp_version env (fw_bytes b.fw_ver) && is_sdio_chip b.chip_id
      then ready
      else disabled

  decide_start :
      (ok chip : Bool) (s : HostState)
      → if◌then◌else◌ {A = Option (Start × HostState)}
          (not ok || not chip)
          (some (disabled, s))
          (some (ready, s))
        ≡ some (if ok && chip then ready else disabled, s)
  decide_start true true s = refl
  decide_start true false s = refl
  decide_start false true s = refl
  decide_start false false s = refl

  process_init_event-announced :
      (b : Boot) (rest : List ℕ) (s : HostState)
      → 0 < length b.custom_str
      → process_init_event env true (sdio_event_data b rest) (sdio_event_len b) s
        ≡ some (started b, announced env b s)
  unfolding process_init_event
  process_init_event-announced b rest s h =
      ap
        (λ o. elim o [
          | none ↦ none
          | some s' ↦
              if s'.fw_incompat || s'.chip_unsupported
              then some (disabled, s')
              else some (ready, s')
        ])
        (ap (λ n. tag_loop env n (sdio_event_len b) (sdio_event_data b rest) (unchecked s)) enough
          ∙ tag_loop-sdio_event_data env (length b.custom_str + 22) b rest s h)
      ∙ decide_start (check_esp_version env (fw_bytes b.fw_ver)) (is_sdio_chip b.chip_id)
          (announced env b s)
    where
      enough :
          suc (sdio_event_len b)
          ≡ suc (suc (suc (suc (suc (suc (suc (length b.custom_str + 22)))))))
      enough = omega arith

  startup_header-IsHeader : (n : ℕ) → n < 256 → IsHeader (startup_header n)
  startup_header-IsHeader n h = record {
    if_type_4 = omega arith;
    if_num_4 = omega arith;
    flags_8 = omega arith;
    len_16 = omega arith;
    offset_16 = omega arith;
    checksum_16 = omega arith;
    seq_num_16 = omega arith;
    reserved2_8 = omega arith;
    pkt_type_8 = omega arith;
  }

  process_priv-event :
      (skb : List ℕ) (h : Header) (s s' : HostState) (start : Start)
      → get_header skb ≡ some h
      → h.pkt_type ≡ 0
      → 0 < h.len
      → get_or (drop h.offset skb) 0 0 ≡ 0
      → process_init_event env true (drop 2 (drop h.offset skb)) (get_or (drop h.offset skb) 1 0) s
        ≡ some (start, s')
      → process_priv env true skb s ≡ some (some start, s')
  unfolding process_priv
  process_priv-event skb h s s' start e p n z i = ground (arith, e, p, z, i)

  -- The event that the coprocessor transmits, if its build string is not empty and shorter than 228
  -- bytes, leaves in the host the announced capabilities, and its receive buffer size, as the limit
  -- of both directions, if that is a multiple of 512 below 131072; the host is ready afterwards if
  -- the version passes its check and the chip is one for SDIO, and disabled otherwise. The network
  -- devices can be added.
  pub process_priv-sdio_startup_event :
      (b : Boot) (s : HostState)
      → 0 < length b.custom_str
      → length b.custom_str < 228
      → b.rx_buf_size % 512 ≡ 0
      → b.rx_buf_size < 131072
      → process_priv env true (sdio_startup_event b) s
        ≡ some (
          some (started b),
          record s {
            capabilities = b.cap;
            e2h_aggr_size = b.rx_buf_size;
            slave_rx_buf_size = b.rx_buf_size;
            e2h_mode = 0;
            h2e_mode = 0;
            fw_incompat = not (check_esp_version env (fw_bytes b.fw_ver));
            fw_version_checked = check_esp_version env (fw_bytes b.fw_ver);
            chip_unsupported = not (is_sdio_chip b.chip_id);
          },
        )
  unfolding sdio_startup_event put_header
  process_priv-sdio_startup_event b s h k m c =
      process_priv-event (sdio_startup_event b) (startup_header (sdio_event_len b)) s
        (announced env b s) (started b)
        (get_header-put_header (startup_header (sdio_event_len b))
          (0 ∷ (sdio_event_len b % 256) ∷ sdio_event_data b [])
          (startup_header-IsHeader (sdio_event_len b) (omega arith)))
        refl (omega arith) refl
        (ap (λ n. process_init_event env true (sdio_event_data b []) n s) length_fits
          ∙ process_init_event-announced b [] s h)
      ∙ ap
          (λ n. some (
            some (started b),
            record (announced env b s) { e2h_aggr_size = n; slave_rx_buf_size = n },
          ))
          whole
    where
      length_fits : sdio_event_len b % 256 ≡ sdio_event_len b
      length_fits = omega arith

      whole : b.rx_buf_size / 512 % 256 * 512 ≡ b.rx_buf_size
      whole = omega arith
