-- ===== src/StartUp.antt =====
-- The event with which the coprocessor announces itself: `generate_startup_event` of
-- esp_hosted_fg/esp/esp_driver/network_adapter/main/sdio_slave_api.c (built for TX_MODE_SW_AGGR,
-- without checksums) and spi_slave_api.c, and `process_init_event` of
-- host/linux/host_driver/esp32/sdio/esp_sdio.c with the version check of esp_fw_verify.c. Whether a
-- version is the driver's own release, and whether the network devices can be added, is input.
pub mod Loop
pub mod RoundTrip
use esp_hosted.Prelude.{
  ℕ, zero, suc, ◌+◌, ◌-◌, ◌*◌, ◌/◌, ◌%◌, Bool, true, false, not, List, [], ◌∷◌, ◌++◌, Option, none,
  some, length, take, drop, get_or, ltb, ◌==◌, ◌&&◌, ◌||◌, if◌then◌else◌,
}
use esp_hosted.Header.{Header, header_size, priv_if, put_header, get_header}

-- ESP_PRIV_TAG_TYPE
abbrev pub capability_tag : ℕ
capability_tag = 0

abbrev pub chip_id_tag : ℕ
chip_id_tag = 2

abbrev pub raw_tp_tag : ℕ
raw_tp_tag = 3

abbrev pub fw_data_tag : ℕ
fw_data_tag = 4

abbrev pub rx_buf_config_tag : ℕ
rx_buf_config_tag = 5

abbrev pub custom_str_tag : ℕ
custom_str_tag = 6

-- ESP_PRIV_BUF_BLOCK
abbrev pub buf_block : ℕ
buf_block = 512

-- `struct fw_version`
pub record FwVersion : Type 0 where
  pub name0 : ℕ
  pub name1 : ℕ
  pub name2 : ℕ
  pub major1 : ℕ
  pub major2 : ℕ
  pub minor : ℕ
  pub revision_patch_1 : ℕ
  pub revision_patch_2 : ℕ

abbrev pub fw_bytes : FwVersion → List ℕ
fw_bytes v =
    v.name0 ∷ v.name1 ∷ v.name2 ∷ v.major1 ∷ v.major2 ∷ v.minor ∷ v.revision_patch_1
    ∷ v.revision_patch_2 ∷ []

-- What the coprocessor announces; `custom_str` is the time of its build.
pub record Boot : Type 0 where
  pub chip_id : ℕ
  pub cap : ℕ
  pub raw_tp_cap : ℕ
  pub rx_buf_size : ℕ
  pub custom_str : List ℕ
  pub fw_ver : FwVersion

-- A tag, the length, and the value, in front of what follows.
abbrev pub tlv : ℕ → List ℕ → List ℕ → List ℕ
tlv tag value rest = tag ∷ length value ∷ (value ++ rest)

-- `struct esp_priv_rx_buf_config`: SDIO, and SW_AGGR in both directions.
abbrev pub rx_buf_config : ℕ → List ℕ
rx_buf_config size = 0 ∷ 0 ∷ (size / buf_block % 256) ∷ 0 ∷ (size / buf_block % 256) ∷ []

-- `event_data` of the SDIO event, and its length.
unfoldable pub sdio_event_data : Boot → List ℕ → List ℕ
sdio_event_data b rest = tlv chip_id_tag (b.chip_id ∷ []) (
    tlv capability_tag (b.cap ∷ []) (
      tlv raw_tp_tag (b.raw_tp_cap ∷ []) (
        tlv rx_buf_config_tag (rx_buf_config b.rx_buf_size)
          (tlv custom_str_tag b.custom_str (tlv fw_data_tag (fw_bytes b.fw_ver) rest)))))

abbrev pub sdio_event_len : Boot → ℕ
sdio_event_len b = 28 + length b.custom_str

abbrev pub startup_header : ℕ → Header
startup_header event_len = record {
  if_type = priv_if;
  if_num = 0;
  flags = 0;
  len = event_len + 2;
  offset = header_size;
  checksum = 0;
  seq_num = 0;
  reserved2 = 0;
  pkt_type = 0;
}

-- `generate_startup_event` of the SDIO transport: what is transmitted. `event_len` is a `uint8_t`.
unfoldable pub sdio_startup_event : Boot → List ℕ
unfolding sdio_event_data
sdio_startup_event b =
    put_header (startup_header (sdio_event_len b))
      (0 ∷ (sdio_event_len b % 256) ∷ sdio_event_data b [])

-- `set_fw_check_type`, PROJECT_VERSION_MAJOR_1 of the driver, and the comparison of a version with
-- RELEASE_VERSION.
pub record FwEnv : Type 0 where
  pub strict : Bool
  pub major : ℕ
  pub is_release : List ℕ → Bool

-- `check_esp_version`: whether a version is accepted.
unfoldable pub check_esp_version : FwEnv → List ℕ → Bool
check_esp_version env ver =
    if env.strict && not (get_or ver 3 0 == env.major)
    then false
    else not (env.strict && not (env.is_release ver))

-- `process_fw_data`
unfoldable pub process_fw_data : FwEnv → List ℕ → ℕ → Bool
unfolding check_esp_version
process_fw_data env memory tag_len =
    if not (tag_len == 8) then false else check_esp_version env (take 8 memory)

-- What the host keeps of the event.
pub record HostState : Type 0 where
  pub capabilities : ℕ
  pub e2h_aggr_size : ℕ
  pub slave_rx_buf_size : ℕ
  pub e2h_mode : ℕ
  pub h2e_mode : ℕ
  pub fw_incompat : Bool
  pub fw_version_checked : Bool
  pub chip_unsupported : Bool

-- `esp_validate_chipset` of the SDIO driver: the four chips that it knows.
abbrev pub is_sdio_chip : ℕ → Bool
is_sdio_chip id = id == 0 || (id == 13 || (id == 20 || id == 23))

-- ESP_PRIV_RX_BUF_CONFIG: five bytes, for the SDIO transport.
unfoldable pub set_rx_buf_config : List ℕ → ℕ → HostState → HostState
set_rx_buf_config memory tag_len s =
    if tag_len == 5 && (get_or memory 0 0 == 0)
    then record s {
      e2h_mode = get_or memory 1 0;
      e2h_aggr_size = get_or memory 2 0 * buf_block;
      h2e_mode = get_or memory 3 0;
      slave_rx_buf_size = get_or memory 4 0 * buf_block;
    }
    else s

-- The switch over the tag; `memory` is what is at `pos + 2`.
unfoldable pub process_tag : FwEnv → ℕ → ℕ → List ℕ → HostState → HostState
unfolding set_rx_buf_config process_fw_data
process_tag env tag tag_len memory s =
    if tag == capability_tag
    then record s { capabilities = get_or memory 0 0 }
    else if tag == chip_id_tag
    then record s {
      chip_unsupported = s.chip_unsupported || not (is_sdio_chip (get_or memory 0 0));
    }
    else if tag == fw_data_tag
    then if process_fw_data env memory tag_len
      then record s { fw_version_checked = true }
      else record s { fw_incompat = true }
    else if tag == rx_buf_config_tag
    then set_rx_buf_config memory tag_len s
    else s

-- The loop over the tags, on fuel; none means that the fuel was not enough.
unfoldable pub tag_loop : FwEnv → ℕ → ℕ → List ℕ → HostState → Option HostState
unfolding process_tag
tag_loop env zero len_left memory s = none
tag_loop env (suc fuel) len_left memory s =
    let tag = get_or memory 0 0 in
    let tag_len = get_or memory 1 0 in
    let value = drop 2 memory in
    let s' = if tag_len == 0 then s else process_tag env tag tag_len value s in
    let later = tag_loop env fuel (len_left - (tag_len + 2)) (drop (tag_len + 2) memory) s' in
    if ltb len_left 2 then some s else if ltb len_left (tag_len + 2) then some s else later

-- How the start ends: ESP_CONTEXT_READY, or ESP_CONTEXT_DISABLED with the data path closed.
pub data Start : Type 0 where
  ready disabled : Start

-- The local flags, at the start of a call.
abbrev pub unchecked : HostState → HostState
unchecked s = record s { fw_incompat = false; fw_version_checked = false; chip_unsupported = false }

-- `process_init_event` of the SDIO driver.
unfoldable pub process_init_event :
    FwEnv → Bool → List ℕ → ℕ → HostState → Option (Start × HostState)
process_init_event env card_added memory len s =
    elim (tag_loop env (suc len) len memory (unchecked s)) [
      | none ↦ none
      | some s' ↦
          if s'.fw_incompat || s'.chip_unsupported
          then some (disabled, s')
          else if card_added
          then some (ready, s')
          else some (disabled, s')
    ]

-- `process_priv_communication` and `process_event` of main.c: an event of another type is dropped,
-- and so is a private packet that is no event.
unfoldable pub process_priv : FwEnv → Bool → List ℕ → HostState → Option (Option Start × HostState)
process_priv env card_added skb s = elim (get_header skb) [
  | none ↦ some (none, s)
  | some h ↦
      let payload = drop h.offset skb in
      if not (h.pkt_type == 0) || (h.len == 0 || not (get_or payload 0 0 == 0))
      then some (none, s)
      else elim (process_init_event env card_added (drop 2 payload) (get_or payload 1 0) s) [
        | none ↦ none
        | some (start, s') ↦ some (some start, s')
      ]
]
