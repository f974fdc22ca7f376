-- ===== src/Tests/Stm.antt =====
-- The serial interface of the STM32 host.
use esp_hosted.Prelude.{
  ℕ, ◌≡◌, refl, true, false, List, [], ◌∷◌, Option, none, some, replicate, if◌then◌else◌, ◌==◌,
}
use esp_hosted.Header.{serial_if}
use esp_hosted.Slave.{Handle}
use esp_hosted.SerialLl.{
  no_buffer, Conn, active, freed, message, failed, set_conn, serial_ll_rx_handler,
}
use esp_hosted.SerialLl.Handler.{all_well}

abbrev conn : Conn
conn = record { state = active; queue = message (5 ∷ []) ∷ []; has_callback = true }

abbrev conns : ℕ → Option Conn
conns n = if n == 0 then some conn else none

-- Two fragments of 1500 and 300 bytes
abbrev long_message : List ℕ
long_message = replicate 1800 7

abbrev frame : ℕ → List ℕ → Handle
frame flag bytes = record {
  if_type = serial_if;
  if_num = 0;
  flag = flag;
  seq_num = 0;
  payload = bytes;
}

-- Without a callback the queue holds a message whose buffer is freed.
abbrev silent : ℕ → Option Conn
silent n = if n == 0 then some (record conn { has_callback = false }) else none

no_callback :
    serial_ll_rx_handler all_well
      (record { r_data = no_buffer; r_len = 0; conns = silent })
      (frame 0 (3 ∷ []))
    ≡ some (
      failed,
      record {
        r_data = no_buffer;
        r_len = 0;
        conns =
            set_conn silent 0
              (record conn { has_callback = false; queue = message (5 ∷ []) ∷ freed ∷ [] });
      },
    )
unfolding serial_ll_rx_handler
no_callback = refl
