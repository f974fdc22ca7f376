-- ===== src/Tests/Bus.antt =====
-- Frames on the bus, in both directions, and the queues of the drivers.

use esp_hosted.SpiHost.Pending.{Step, writes, transacts, steps, tx_pending-size}
use esp_hosted.StmSpi.Exchange.{esp_spi_write-spi_transaction_v1, get_tx_buffer-process_spi_rx}
use esp_hosted.StmSpi.{spi_transaction_v1, hal_ok, get_tx_buffer}
use esp_hosted.Prelude.{
  ℕ, ◌%◌, ◌≡◌, refl, inl, true, false, List, [], ◌∷◌, none, some, length, arith,
}
use esp_hosted.Header.{Header, IsHeader, serial_if, sta_if}
use esp_hosted.Lanes.{Lanes, enqueue, size}
use esp_hosted.Slave.{Handle}
use esp_hosted.SpiSlave.{
  WriteEnv, TxBuf, RxBuf, process_spi_rx, spi_header, esp_spi_write, dma_aligned,
}
use esp_hosted.SpiHost.{transfer_of, purge_tx}
use esp_hosted.NetDev.{
  Private, TxEnv, tx_ok, tx_sent, process_tx_packet, process_rx_packet, to_serial, to_network,
  get_priv_from_payload_header,
}
use esp_hosted.NetDev.FromSlave.{IsHandle}
use esp_hosted.NetDev.SlaveToHost.{Delivery, serial_write-arrives, network_write-arrives, IsFlagOf}
use esp_hosted.NetDev.HostToSlave.{Carries, process_tx_packet-arrives}

abbrev header : Header
header = record {
  if_type = 2;
  if_num = 0;
  flags = 1;
  len = 1500;
  offset = 12;
  checksum = 4660;
  seq_num = 65535;
  reserved2 = 0;
  pkt_type = 0;
}

header-IsHeader : IsHeader header
header-IsHeader = record {
  if_type_4 = omega arith;
  if_num_4 = omega arith;
  flags_8 = omega arith;
  len_16 = omega arith;
  offset_16 = omega arith;
  checksum_16 = omega arith;
  seq_num_16 = omega arith;
  reserved2_8 = omega arith;
  pkt_type_8 = omega arith;
}

abbrev waiting : Lanes ℕ
waiting = record { serial = 1 ∷ 2 ∷ []; bt = 3 ∷ []; others = 4 ∷ 5 ∷ [] }

-- A host that sleeps and wakes, and a build with checksums.
abbrev write_env : WriteEnv
write_env = record {
  datapath = true;
  host_power_saving = true;
  host_ps_allowed = true;
  wakes = true;
  tx_buffer = some (7 ∷ 7 ∷ []);
  spi_checksum = true;
}

abbrev handle_of : ℕ → Handle
handle_of t = record {
  if_type = t;
  if_num = 0;
  flag = 1;
  seq_num = 12;
  payload = 10 ∷ 20 ∷ 30 ∷ [];
}

serial-IsHandle : IsHandle (handle_of serial_if)
serial-IsHandle = record {
  if_type_known = omega arith;
  if_num_4 = omega arith;
  flag_8 = omega arith;
  seq_num_16 = omega arith;
  nonempty = omega arith;
  fits = omega arith;
}

sta-IsHandle : IsHandle (handle_of sta_if)
sta-IsHandle = record {
  if_type_known = omega arith;
  if_num_4 = omega arith;
  flag_8 = omega arith;
  seq_num_16 = omega arith;
  nonempty = omega arith;
  fits = omega arith;
}

abbrev no_tx : Lanes TxBuf
no_tx = record { serial = []; bt = []; others = [] }

abbrev no_skb : Lanes (List ℕ)
no_skb = record { serial = []; bt = []; others = [] }

abbrev no_rx : Lanes RxBuf
no_rx = record { serial = []; bt = []; others = [] }

abbrev station : Private
station = record {
  if_type = sta_if;
  if_num = 0;
  stats = record { tx_packets = 0; tx_bytes = 0; tx_errors = 0; tx_dropped = 0 };
}

serial_write-arrives_example :
    (skb : List ℕ) × (hdr : Header) × Delivery write_env (handle_of serial_if) no_tx no_skb skb hdr
    × (process_rx_packet true [] skb
        ≡ some (to_serial (record { hdr = hdr; payload = 10 ∷ 20 ∷ 30 ∷ [] })))
serial_write-arrives_example =
    serial_write-arrives write_env (7 ∷ 7 ∷ []) (handle_of serial_if) no_tx no_skb []
      serial-IsHandle refl refl refl refl

found :
    get_priv_from_payload_header (none ∷ some station ∷ []) (spi_header (handle_of sta_if) 1)
    ≡ some station
unfolding get_priv_from_payload_header
found = refl

network_write-arrives_example :
    (skb : List ℕ) × (hdr : Header) × Delivery write_env (handle_of sta_if) no_tx no_skb skb hdr
    × (process_rx_packet true (none ∷ some station ∷ []) skb
        ≡ some (to_network station (10 ∷ 20 ∷ 30 ∷ [])))
network_write-arrives_example =
    network_write-arrives write_env (7 ∷ 7 ∷ []) (handle_of sta_if) no_tx no_skb
      (none ∷ some station ∷ []) station sta-IsHandle refl refl refl (inl refl) found

abbrev tx_env : TxEnv
tx_env = record {
  queue_stopped = false;
  host_sleeping = false;
  headroom = 8;
  data_aligned = true;
  linearizes = true;
  allocates = true;
  stop_data = false;
  sends = true;
}

process_tx_packet-arrives_example :
    (skb : List ℕ) × (b : RxBuf) × (hdr : Header) × (process_tx_packet tx_env station
        (1 ∷ 2 ∷ 3 ∷ [])
      ≡ (tx_ok, some skb, tx_sent station (length skb)))
    × (length skb % 4 ≡ 0)
    × (process_spi_rx true (transfer_of true skb) no_rx ≡ (true, none, enqueue sta_if b no_rx))
    × Carries b hdr (1 ∷ 2 ∷ 3 ∷ [])
process_tx_packet-arrives_example =
    process_tx_packet-arrives tx_env true station (1 ∷ 2 ∷ 3 ∷ []) no_rx refl refl refl refl refl
      refl (omega arith) (omega arith) (omega arith) (omega arith)

esp_spi_write-spi_transaction_v1_example :
    (b : TxBuf) × (flag : ℕ) × (esp_spi_write write_env (handle_of sta_if) no_tx
      ≡ (some (dma_aligned 15), enqueue sta_if b no_tx))
    × IsFlagOf flag 1
    × (spi_transaction_v1 hal_ok true b.payload
        ≡ (true, some (record (handle_of sta_if) { flag = flag })))
esp_spi_write-spi_transaction_v1_example =
    esp_spi_write-spi_transaction_v1 write_env (7 ∷ 7 ∷ []) (handle_of sta_if) no_tx sta-IsHandle
      refl refl refl refl

get_tx_buffer-process_spi_rx_example :
    (sendbuf : List ℕ) × (b : RxBuf) × (hdr : Header) × (get_tx_buffer
        (some (handle_of serial_if))
        true
      ≡ (true, some sendbuf))
    × (process_spi_rx true sendbuf no_rx ≡ (true, none, enqueue serial_if b no_rx))
    × Carries b hdr (10 ∷ 20 ∷ 30 ∷ [])
get_tx_buffer-process_spi_rx_example =
    get_tx_buffer-process_spi_rx (handle_of serial_if) no_rx (omega arith) (omega arith)
      (omega arith) (omega arith)

abbrev bus_steps : List Step
bus_steps =
    writes true (18 ∷ 0 ∷ [])
    ∷ writes true (2 ∷ 0 ∷ [])
    ∷ writes false (0 ∷ [])
    ∷ transacts true
    ∷ []

tx_pending-size_example :
    (steps 100 bus_steps purge_tx).tx_pending ≡ size (steps 100 bus_steps purge_tx).tx_q
tx_pending-size_example = tx_pending-size 100 bus_steps purge_tx refl

abbrev one_waits : Lanes TxBuf
one_waits = record {
  serial = [];
  bt = [];
  others = record { if_type = 0; if_num = 0; payload_len = 16; payload = 0 ∷ [] } ∷ [];
}
