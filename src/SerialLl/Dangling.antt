-- ===== src/SerialLl/Dangling.antt =====
-- What serial_ll_if.c on the STM32 host does after it has found no memory for a message.
use esp_hosted.Prelude.{ℕ, Option}
use esp_hosted.SerialLl.{Conn, SerialVars, dangling}

-- The buffer is freed, and still pointed to.
abbrev freed_state : (ℕ → Option Conn) → SerialVars
freed_state conns = record { r_data = dangling; r_len = 0; conns = conns }
