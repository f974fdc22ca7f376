-- ===== src/SerialLl/Fragments.antt =====
-- Fragments of a message at the STM32 host, serial_ll_if.c: they are collected, whether or not there
-- is memory for the copy of the whole message.
use esp_hosted.Prelude.{
  ℕ, ◌+◌, ◌≤◌, ◌<◌, ◌≡◌, refl, sym, ap, ◌∙◌, Bool, true, false, List, [], ◌∷◌, ◌++◌, Option, some,
  length, length-append, length-take, take_all, arith, take,
}
use esp_hosted.Slave.{eth_data_len, frag_handle, Handle}
use esp_hosted.Slave.Fragments.{frag_big, frag_small}
use esp_hosted.SerialLl.{
  RxPtr, no_buffer, buffer, Conn, SerialVars, collected, get_serial_ll_handle, copy_payload,
  after_copy, serial_ll_rx_handler,
}
use esp_hosted.SerialLl.Handler.{with_data, handler_up}

-- The buffer after the bytes of a message that have come.
abbrev pub ptr_of : List ℕ → RxPtr
ptr_of [] = no_buffer
ptr_of (b ∷ bs) = buffer (b ∷ bs)

abbrev pub holding : (ℕ → Option Conn) → List ℕ → SerialVars
holding conns acc = record { r_data = ptr_of acc; r_len = length acc; conns = conns }

copy_payload-ptr_of :
    (acc p : List ℕ) → copy_payload true (ptr_of acc) (length acc) p ≡ some (buffer (acc ++ p))
copy_payload-ptr_of [] p = refl
copy_payload-ptr_of (b ∷ bs) p =
    ap (λ t. some (buffer (t ++ p))) (take_all (length (b ∷ bs)) (b ∷ bs) (omega arith))

buffer_of : (acc p : List ℕ) → 0 < length p → buffer (acc ++ p) ≡ ptr_of (acc ++ p)
buffer_of [] [] h = absurd (omega (arith, h))
buffer_of [] (x ∷ p) h = refl
buffer_of (b ∷ bs) p h = refl

module _ (conns : ℕ → Option Conn) (c : Conn) (up : get_serial_ll_handle conns 0 ≡ some c)
    (copy : Bool) where
  copied :
      (acc : List ℕ) (h : Handle) (more : Bool)
      → after_copy
          (with_data copy)
          (holding conns acc)
          0
          c
          more
          (copy_payload true (ptr_of acc) (length acc) h.payload)
          (length h.payload)
        ≡ after_copy
            (with_data copy)
            (holding conns acc)
            0
            c
            more
            (some (buffer (acc ++ h.payload)))
            (length h.payload)
  copied acc h more =
      ap (λ t. after_copy (with_data copy) (holding conns acc) 0 c more t (length h.payload))
        (copy_payload-ptr_of acc h.payload)

  -- A fragment that is not the last one.
  pub fragment_kept :
      (acc : List ℕ) (seq : ℕ) (left : List ℕ)
      → eth_data_len < length left
      → serial_ll_rx_handler (with_data copy) (holding conns acc) (frag_handle seq left)
        ≡ some (collected, holding conns (acc ++ take eth_data_len left))
  fragment_kept acc seq left h =
      ap (serial_ll_rx_handler (with_data copy) (holding conns acc)) (frag_big seq left h)
      ∙ handler_up (with_data copy) (holding conns acc) c
          (record (frag_handle seq left) { flag = 1; payload = take eth_data_len left }) up refl
          some_bytes
      ∙ copied acc (record (frag_handle seq left) { flag = 1; payload = take eth_data_len left })
          true
      ∙ ap some (ap (λ t. (collected, t)) same)
    where
      some_bytes : 0 < length (take eth_data_len left)
      some_bytes = omega (arith, h, length-take eth_data_len left)

      same :
          Path SerialVars
            (record {
              r_data = buffer (acc ++ take eth_data_len left);
              r_len = length acc + length (take eth_data_len left);
              conns = conns;
            })
            (holding conns (acc ++ take eth_data_len left))
      same =
          ap
            (λ d. record {
              r_data = d;
              r_len = length acc + length (take eth_data_len left);
              conns = conns;
            })
            (buffer_of acc (take eth_data_len left) some_bytes)
          ∙ ap
              (λ n. record {
                r_data = ptr_of (acc ++ take eth_data_len left);
                r_len = n;
                conns = conns;
              })
              (sym (length-append acc (take eth_data_len left)))

  -- The last one.
  pub last_copied :
      (acc : List ℕ) (seq : ℕ) (left : List ℕ)
      → length left ≤ eth_data_len
      → 0 < length left
      → serial_ll_rx_handler (with_data copy) (holding conns acc) (frag_handle seq left)
        ≡ after_copy
            (with_data copy)
            (holding conns acc)
            0
            c
            false
            (some (buffer (acc ++ left)))
            (length left)
  last_copied acc seq left h p =
      ap (serial_ll_rx_handler (with_data copy) (holding conns acc)) (frag_small seq left h)
      ∙ handler_up (with_data copy) (holding conns acc) c
          (record (frag_handle seq left) { flag = 0; payload = left }) up refl p
      ∙ copied acc (record (frag_handle seq left) { flag = 0; payload = left }) false
