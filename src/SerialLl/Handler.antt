-- ===== src/SerialLl/Handler.antt =====
-- A call of `serial_ll_rx_handler` of serial_ll_if.c on the STM32 host, for an open interface.
use esp_hosted.Prelude.{
  Bool, ℕ, ◌<◌, ◌≡◌, ap, ◌∙◌, true, Option, some, ◌==◌, length, if◌then◌else◌, arith,
}
use esp_hosted.Slave.{Handle}
use esp_hosted.SerialLl.{
  Conn, SerialVars, RxAnswers, LlOutcome, get_serial_ll_handle, cleanup, with_conn,
  serial_ll_rx_handler,
}

-- Memory for what is collected, and a queue that takes the message.
abbrev pub with_data : Bool → RxAnswers
with_data copy = record { data_ok = true; copy_ok = copy; sent = true }

abbrev pub all_well : RxAnswers
all_well = with_data true

-- A buffer that is not empty, for an open interface.
pub handler_up :
    (env : RxAnswers) (s : SerialVars) (c : Conn) (h : Handle)
    → get_serial_ll_handle s.conns 0 ≡ some c
    → h.if_num ≡ 0
    → 0 < length h.payload
    → serial_ll_rx_handler env s h ≡ with_conn env s h (some c)
unfolding serial_ll_rx_handler
handler_up env s c h up n p =
    nonempty (length h.payload) (cleanup s)
      (with_conn env s h (get_serial_ll_handle s.conns h.if_num)) p
    ∙ ap (with_conn env s h) (ap (get_serial_ll_handle s.conns) n ∙ up)
  where
    nonempty :
        (n : ℕ) (x y : Option (LlOutcome × SerialVars)) → 0 < n → (if n == 0 then x else y) ≡ y
    nonempty n x y h = ground (arith, h)
