-- ===== src/SerialLl/Messages.antt =====
-- Messages of the coprocessor at the STM32 host, serial_ll_if.c.
use esp_hosted.Prelude.{ℕ, ◌≡◌, List, [], ◌∷◌, ◌++◌, Option, some}
use esp_hosted.SerialLl.{
  covered, no_buffer, Conn, message, SerialVars, get_serial_ll_handle, set_conn,
}

module _ (conns : ℕ → Option Conn) (c : Conn) (up : get_serial_ll_handle conns 0 ≡ some c) where
  -- The interface with one more message, and nothing collected.
  abbrev pub delivered : List ℕ → SerialVars
  delivered msg = record {
    r_data = no_buffer;
    r_len = 0;
    conns = set_conn conns 0 (record c { queue = c.queue ++ (message (covered msg) ∷ []) });
  }
