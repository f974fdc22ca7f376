-- ===== src/Lib.antt =====
-- ESP-Hosted, first generation: a Wi-Fi and Bluetooth coprocessor and the drivers of its hosts.
--
-- A host (Linux, or an STM32) and an ESP chip exchange frames over SPI or SDIO. A frame is a twelve-byte
-- header and a payload; its interface type says what it carries: Ethernet packets of the station or
-- the access point, the serial channel of control messages, Bluetooth, private events. Paths below
-- start at esp_hosted_fg/.
--
-- The way of a control request: a tool frames it as TLV (host/virtual_serial_if/src/serial_if.c), the
-- serial device cuts it into fragments (host/linux/host_driver/esp32/esp_serial.c), the SPI driver
-- queues and transfers them (spi/esp_spi.c beside it); on the coprocessor
-- (esp/esp_driver/network_adapter/main/) spi_slave_api.c validates a transfer,
-- esp_hosted_coprocessor.c puts the fragments together, protocomm_pserial.c parses the TLV, calls
-- the dispatcher of ESP-IDF and frames the response. Back on the host, main.c reassembles the
-- response and hands it to the ring buffer esp_rb.c, which the tool reads.
--
-- Modules, with the code they model:
--   Header      common/include/adapter.h: header, offsets, checksum
--   Fifo        a bounded queue of bytes: what the ring buffer promises
--   Ring        host/linux/host_driver/esp32/esp_rb.c
--   Serial      host/linux/host_driver/esp32/esp_serial.c
--   Reasm       the serial branch of process_skb in host/linux/host_driver/esp32/main.c
--   NetDev      process_tx_packet and the rest of process_skb in main.c
--   Lanes       the three priority queues of the bus drivers
--   SpiHost     host/linux/host_driver/esp32/spi/esp_spi.c
--   SdioHost    host/linux/host_driver/esp32/sdio/esp_sdio.c: reading, credits, and in Tx writing
--   SpiSlave    esp/esp_driver/network_adapter/main/spi_slave_api.c, host_power_save.c
--   SdioSlave   main/sdio_slave_api.c: aggregates to the host, and blocks from it
--   Aggregate   the format of an aggregate on the SDIO bus
--   StartUp     the start-up event in sdio_slave_api.c, and process_init_event in esp_sdio.c
--   Slave       the serial channel in main/esp_hosted_coprocessor.c
--   Wlan        the Wi-Fi callbacks in main/esp_hosted_coprocessor.c
--   PowerSave   event_handler there, and main/host_power_save.c
--   Tlv, Pserial  main/protocomm_pserial.c and host/virtual_serial_if/src/serial_if.c
--   Ctrl        host/control_lib/src/ctrl_core.c: callbacks, requests, time-outs
--   EspQueue    host/components/src/esp_queue.c
--   Router      main/nw_split_router.c and main/esp_hosted_lwip_src_port_hook.h
--   Arp         host/stm32/app/data/arp_server_stub.c and its helpers
--   IpText      host/stm32/common/util.c: the text of an IPv4 address
--   SerialLl    host/stm32/driver/serial/serial_ll_if.c: serial_ll_rx_handler
--   StmSpi      host/stm32/driver/transport/spi/spi_drv.c
--   Prelude, Errno  shared names, list and memory lemmas, results of driver calls
--   Tests       the theorems at concrete inputs
--
-- State is a record, a call is a function from state to state and result. Numbers are natural
-- numbers; the wrap-around of 16- and 32-bit fields and of size_t is written out. What the kernel, the
-- memory allocator, FreeRTOS or a peer decides (signals, faults, allocations, time, whether a queue
-- takes a buffer) is an argument. Logging is left out.
--
-- Bounds and fuel: the loops over fragments and bytes get one round more than there are bytes, and
-- each round takes a byte at least. The TLV loop takes its fuel as an argument, since a malformed
-- length can keep it running; three rounds are enough for every message that compose_tlv makes. The
-- loop of process_skb around esp_serial_data_received has fuel too, because it need not end. The
-- wake-up loop runs over the rounds it is given.
--
-- On the SDIO bus the loop that packs the host's queues gets one round more than packets wait; the loop
-- that takes an aggregate apart, one more than the aggregate has bytes; the loop over the tags of the
-- start-up event, one more than the event has bytes. The probes for credit are at most 200, as in the
-- code. The loop that destroys a queue of the control library gets one round more than there are elements
-- left, and the one that writes the digits of a byte three rounds.
--
-- Not modelled: what the control library and slave_control.c copy between protobuf messages and their
-- own structures, the STREAM and PACKET modes of the SDIO transport and the recovery of its driver,
-- Bluetooth, statistics, device registration and pins, the other STM32 drivers and the opening and
-- closing of its serial interface, and the program's second generation.
pub mod Prelude
pub mod Errno
pub mod Header
pub mod Fifo
pub mod Tlv
pub mod Router
pub mod Ring
pub mod Slave
pub mod Reasm
pub mod Serial
pub mod Lanes
pub mod SpiSlave
pub mod SdioSlave
pub mod Aggregate
pub mod SdioHost
pub mod SpiHost
pub mod NetDev
pub mod Wlan
pub mod Arp
pub mod StmSpi
pub mod Pserial
pub mod EspQueue
pub mod IpText
pub mod SerialLl
pub mod Ctrl
pub mod StartUp
pub mod Tests
pub mod PowerSave
