-- ===== src/StartUp/Loop.antt =====
-- The host's loop over the tags of the start-up event ends, and reads what was announced.
use native.Mathlib.Decide.{dec_lt}
use esp_hosted.Prelude.{
  ℕ, zero, suc, ◌+◌, ◌-◌, ◌*◌, ◌/◌, ◌%◌, ◌≤◌, ◌<◌, ◌≡◌, refl, ap, ◌∙◌, Bool, true, false, not, List,
  [], ◌∷◌, ◌++◌, some, length, drop, get_or, drop-length-append, arith, if◌then◌else◌, ◌==◌,
}
use esp_hosted.StartUp.{
  fw_bytes, Boot, tlv, sdio_event_data, sdio_event_len, FwEnv, check_esp_version, HostState,
  is_sdio_chip, process_tag, tag_loop, rx_buf_config, capability_tag, chip_id_tag, raw_tp_tag,
  fw_data_tag, rx_buf_config_tag, custom_str_tag, unchecked,
}

module _ (env : FwEnv) where
  tag_loop_end :
      (fuel left : ℕ) (memory : List ℕ) (s : HostState)
      → left < 2
      → tag_loop env (suc fuel) left memory s ≡ some s
  unfolding tag_loop
  tag_loop_end fuel left memory s h = ground arith

  tag_loop_cut :
      (fuel left : ℕ) (memory : List ℕ) (s : HostState)
      → left < get_or memory 1 0 + 2
      → tag_loop env (suc fuel) left memory s ≡ some s
  unfolding tag_loop
  tag_loop_cut fuel left memory s h = ground arith

  tag_loop_next :
      (fuel left : ℕ) (memory : List ℕ) (s : HostState)
      → get_or memory 1 0 + 2 ≤ left
      → tag_loop env (suc fuel) left memory s
        ≡ tag_loop env fuel (left - (get_or memory 1 0 + 2)) (drop (get_or memory 1 0 + 2) memory) (
            if get_or memory 1 0 == 0
            then s
            else process_tag env (get_or memory 0 0) (get_or memory 1 0) (drop 2 memory) s)
  unfolding tag_loop
  tag_loop_next fuel left memory s h = ground arith

  -- Whatever bytes an event holds, and however long they claim to be, the loop over the tags ends,
  -- in at most one round more than the event has bytes.
  pub tag_loop_ends :
      (fuel left : ℕ) (memory : List ℕ) (s : HostState)
      → left < fuel
      → (s' : HostState) × (tag_loop env fuel left memory s ≡ some s')
  tag_loop_ends zero left memory s h = absurd (omega arith)
  tag_loop_ends (suc fuel) left memory s h = elim (dec_lt left (get_or memory 1 0 + 2)) [
    | yes k ↦ (s, tag_loop_cut fuel left memory s k)
    | no k ↦
        let r =
          tag_loop_ends fuel (left - (get_or memory 1 0 + 2)) (drop (get_or memory 1 0 + 2) memory)
            _ (omega arith) in
        (r.0, tag_loop_next fuel left memory s (omega arith) ∙ r.1)
  ]

  -- A round over a tag that is whole and not empty.
  tag_loop-tlv :
      (fuel left tag : ℕ) (value rest : List ℕ) (s : HostState)
      → 0 < length value
      → tag_loop env (suc fuel) (length value + 2 + left) (tlv tag value rest) s
        ≡ tag_loop env fuel left rest (process_tag env tag (length value) (value ++ rest) s)
  tag_loop-tlv fuel left tag value rest s h =
      tag_loop_next fuel (length value + 2 + left) (tlv tag value rest) s (omega arith)
      ∙ rw (counts, behind, not_empty)
    where
      counts : length value + 2 + left - (length value + 2) ≡ left
      counts = omega arith

      two : length value + 2 ≡ suc (suc (length value))
      two = omega arith

      behind : drop (length value + 2) (tlv tag value rest) ≡ rest
      behind = ap (λ n. drop n (tlv tag value rest)) two ∙ drop-length-append value rest

      not_empty : (length value == 0) ≡ false
      not_empty = ground arith

  -- What the host keeps of an announcement.
  abbrev pub announced : Boot → HostState → HostState
  announced b s = record s {
    capabilities = b.cap;
    e2h_aggr_size = b.rx_buf_size / 512 % 256 * 512;
    slave_rx_buf_size = b.rx_buf_size / 512 % 256 * 512;
    e2h_mode = 0;
    h2e_mode = 0;
    fw_incompat = not (check_esp_version env (fw_bytes b.fw_ver));
    fw_version_checked = check_esp_version env (fw_bytes b.fw_ver);
    chip_unsupported = not (is_sdio_chip b.chip_id);
  }

  decide_fw :
      (s : HostState) (ok : Bool)
      → s.fw_incompat ≡ false
      → s.fw_version_checked ≡ false
      → (if ok then record s { fw_version_checked = true } else record s { fw_incompat = true })
        ≡ record s { fw_version_checked = ok; fw_incompat = not ok }
  decide_fw s true e f = rw e
  decide_fw s false e f = rw f

  pub tag_loop-sdio_event_data :
      (fuel : ℕ) (b : Boot) (rest : List ℕ) (s : HostState)
      → 0 < length b.custom_str
      → tag_loop env
          (suc (suc (suc (suc (suc (suc (suc fuel)))))))
          (sdio_event_len b)
          (sdio_event_data b rest)
          (unchecked s)
        ≡ some (announced b s)
  unfolding sdio_event_data process_tag
  tag_loop-sdio_event_data fuel b rest s h =
      ap
        (λ n.
          tag_loop env (suc (suc (suc (suc (suc (suc (suc fuel))))))) n (sdio_event_data b rest)
            (unchecked s))
        split
      ∙ tag_loop-tlv _ _ chip_id_tag (b.chip_id ∷ []) _ _ (omega arith)
      ∙ tag_loop-tlv _ _ capability_tag (b.cap ∷ []) _ _ (omega arith)
      ∙ tag_loop-tlv _ _ raw_tp_tag (b.raw_tp_cap ∷ []) _ _ (omega arith)
      ∙ tag_loop-tlv _ _ rx_buf_config_tag (rx_buf_config b.rx_buf_size) _ _ (omega arith)
      ∙ tag_loop-tlv _ _ custom_str_tag b.custom_str _ _ h
      ∙ tag_loop-tlv _ _ fw_data_tag (fw_bytes b.fw_ver) rest _ (omega arith)
      ∙ tag_loop_end fuel 0 rest _ (omega arith)
      ∙ ap some (
          decide_fw (record (announced b s) { fw_incompat = false; fw_version_checked = false })
            (check_esp_version env (fw_bytes b.fw_ver)) refl refl)
    where
      split :
          sdio_event_len b
          ≡ 1 + 2 + (1 + 2 + (1 + 2 + (5 + 2 + (length b.custom_str + 2 + (8 + 2 + 0)))))
      split = omega arith
