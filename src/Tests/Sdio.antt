-- ===== src/Tests/Sdio.antt =====
-- Aggregates and credits on the SDIO bus, and the start-up event.
use esp_hosted.SdioSlave.Pack.{IsSdioHandle}
use esp_hosted.Prelude.{ℕ, ◌≡◌, refl, true, false, List, [], ◌∷◌, ◌++◌, some, replicate, arith}
use esp_hosted.Header.{Header, put_header}
use esp_hosted.Header.Bytes.{get_header-put_header}
use esp_hosted.Slave.{Handle}
use esp_hosted.SdioSlave.{process_tx_queue}
use esp_hosted.Aggregate.{IsPacket, join}
use esp_hosted.SdioHost.{RxContext, read_packet, try_send, probe_credits}
use esp_hosted.SdioHost.Split.{always}
use esp_hosted.SdioHost.FromSlave.{IsDelivered, process_tx_queue-IsDelivered}
use esp_hosted.SdioHost.Flow.{Link, IsSafe, Step, sends, here, next, Reach-IsSafe}
use esp_hosted.SdioHost.Receive.{read_packet-join}
use esp_hosted.SdioHost.Tx.{TxState}
use esp_hosted.SdioHost.Tx.Pending.{counted, IsCounted}
use esp_hosted.SdioHost.Tx.Rounds.{writes, packs, run, run-IsCounted}
use esp_hosted.SdioHost.Tx.ToSlave.{IsSent, rounds-IsSent}
use esp_hosted.StartUp.{
  Boot, FwEnv, HostState, ready, process_priv, sdio_startup_event, check_esp_version,
}
use esp_hosted.StartUp.RoundTrip.{process_priv-sdio_startup_event}

abbrev bulk : ℕ → Handle
bulk n = record { if_type = 0; if_num = 0; flag = 0; seq_num = 0; payload = replicate n 7 }

-- Two large frames share an aggregate, and the small one behind them waits for the next.
abbrev bulk_queue : List Handle
bulk_queue = bulk 300 ∷ bulk 0 ∷ bulk 300 ∷ bulk 5 ∷ []

process_tx_queue-IsDelivered_example :
    IsDelivered 1536 false bulk_queue (process_tx_queue 1536 false true bulk_queue)
process_tx_queue-IsDelivered_example =
    process_tx_queue-IsDelivered 1536 false bulk_queue refl (omega arith)
      (is_handle 300, (is_handle 0, (is_handle 300, (is_handle 5, tt))))
  where
    is_handle : (n : ℕ) → IsSdioHandle (bulk n)
    is_handle n = record {
      if_type_4 = omega arith;
      if_num_4 = omega arith;
      flag_8 = omega arith;
      seq_num_16 = omega arith;
    }

abbrev header : ℕ → Header
header if_type = record {
  if_type = if_type;
  if_num = 0;
  flags = 0;
  len = 3;
  offset = 12;
  checksum = 0;
  seq_num = 0;
  reserved2 = 0;
  pkt_type = 0;
}

abbrev packet : ℕ → List ℕ
packet if_type = put_header (header if_type) (1 ∷ 2 ∷ 3 ∷ [])

packet-IsPacket : (if_type : ℕ) → if_type ≡ 0 → IsPacket (packet if_type)
unfolding put_header
packet-IsPacket if_type h = record {
  hdr = header if_type;
  is_header = get_header-put_header (header if_type) (1 ∷ 2 ∷ 3 ∷ []) (record {
    if_type_4 = omega arith;
    if_num_4 = omega arith;
    flags_8 = omega arith;
    len_16 = omega arith;
    offset_16 = omega arith;
    checksum_16 = omega arith;
    seq_num_16 = omega arith;
    reserved2_8 = omega arith;
    pkt_type_8 = omega arith;
  });
  whole = refl;
  nonempty = omega arith;
  short = omega arith;
  offset_min = omega arith;
  offset_max = omega arith;
}

abbrev two_packets : TxState
two_packets = counted (record { serial = []; bt = []; others = packet 0 ∷ packet 0 ∷ [] })

two_packets-IsCounted : IsCounted two_packets
unfolding put_header
two_packets-IsCounted = record { right = refl; pending = omega arith; bytes = omega arith }

rounds-IsSent_example : IsSent 512 (9 ∷ []) two_packets
unfolding put_header
rounds-IsSent_example =
    rounds-IsSent 512 (9 ∷ []) two_packets (omega arith) (omega arith) two_packets-IsCounted
      (packet-IsPacket 0 refl, (packet-IsPacket 0 refl, tt)) (omega arith, (omega arith, tt))

run-IsCounted_example :
    (s' : TxState) × (run (writes (packet 0) ∷ packs 512 ∷ []) two_packets ≡ some s') × IsCounted s'
run-IsCounted_example =
    run-IsCounted (writes (packet 0) ∷ packs 512 ∷ []) two_packets two_packets-IsCounted

-- The counters are about to wrap.
abbrev link : Link
link = record {
  granted = 4096;
  used = 4095;
  credits = record { tx_buffer_count = 4095; buf_available = 0 };
}

abbrev link_after : Link
link_after = record {
  granted = 4097;
  used = 4097;
  credits = record { tx_buffer_count = 1; buf_available = 0 };
}

sent_two : Step link link_after
unfolding try_send probe_credits
sent_two =
    sends 2 4097 (λ i. some 65536) (λ i. 4097) true (omega arith) (omega arith)
      (λ i. (refl, (omega arith, omega arith)))

Reach-IsSafe_example : IsSafe link_after
Reach-IsSafe_example =
    Reach-IsSafe (next here sent_two)
      (record { counts = refl; covered = omega arith; recent = omega arith })

abbrev rx : RxContext
rx = record { rx_q = []; rx_byte_count = 1048570; e2h_aggr_size = 0; disabled = false }

read_packet-join_example :
    read_packet
      (record {
        reg = some 26;
        has_skb = true;
        bus = always;
        stream = join (packet 0 ∷ packet 0 ∷ []) ++ [];
        alloc = always;
      })
      rx
    ≡ (some (packet 0), record rx { rx_q = packet 0 ∷ []; rx_byte_count = 26 })
unfolding put_header
read_packet-join_example =
    read_packet-join rx 1048602 26 (packet 0) (packet 0 ∷ []) []
      (packet-IsPacket 0 refl, (packet-IsPacket 0 refl, tt)) refl (omega arith) refl refl
      (omega arith) (omega arith)

abbrev boot : Boot
boot = record {
  chip_id = 23;
  cap = 5;
  raw_tp_cap = 0;
  rx_buf_size = 15872;
  custom_str = 74 ∷ 97 ∷ [];
  fw_ver = record {
    name0 = 70;
    name1 = 71;
    name2 = 0;
    major1 = 2;
    major2 = 0;
    minor = 1;
    revision_patch_1 = 0;
    revision_patch_2 = 0;
  };
}

abbrev release : FwEnv
release = record { strict = true; major = 2; is_release = λ v. true }

abbrev fresh : HostState
fresh = record {
  capabilities = 0;
  e2h_aggr_size = 0;
  slave_rx_buf_size = 0;
  e2h_mode = 0;
  h2e_mode = 0;
  fw_incompat = false;
  fw_version_checked = false;
  chip_unsupported = false;
}

process_priv-sdio_startup_event_example :
    process_priv release true (sdio_startup_event boot) fresh
    ≡ some (
      some ready,
      record fresh {
        capabilities = 5;
        e2h_aggr_size = 15872;
        slave_rx_buf_size = 15872;
        fw_version_checked = true;
      },
    )
unfolding check_esp_version
process_priv-sdio_startup_event_example =
    process_priv-sdio_startup_event release boot fresh (omega arith) (omega arith) refl
      (omega arith)
