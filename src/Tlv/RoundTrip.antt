-- ===== src/Tlv/RoundTrip.antt =====
-- What one side composes the other side parses.
use mathlib.Core.Path.{ap₂}
use esp_hosted.Prelude.{
  ltb, if◌then◌else◌, ◌⊎◌, inl, inr, ◌≤◌, take, take_all, true, ℕ, suc, ◌+◌, ◌*◌, ◌/◌, ◌%◌, ◌<◌,
  ◌≡◌, refl, ap, ◌∙◌, false, List, [], ◌∷◌, ◌++◌, none, some, append-nil, length, replicate, ◌==◌,
  arith, sym,
}
use native.Mathlib.Decide.{dec_le}
use esp_hosted.Tlv.{
  not_sent, transport_pserial_send, writes, heap_overflow, host_compose_tlv, Parser, ep_name_resp,
  ep_name_event, compose_tlv, read_mem, advance, parse_round, parse_loop, parse_start, parse_done,
  parse_request, host_parse_tlv,
}
use esp_hosted.Tlv.Memory.{mem, read_mem_part}

parse_loop_step :
    (fuel : ℕ) (m : ℕ → ℕ) (s s' : Parser)
    → 0 < s.total_len
    → parse_round m s ≡ some s'
    → parse_loop (suc fuel) m s ≡ parse_loop fuel m s'
unfolding parse_loop
parse_loop_step fuel m s s' h e = ground arith

parse_loop_end :
    (fuel : ℕ) (m : ℕ → ℕ) (s : Parser) → s.total_len ≡ 0 → parse_loop (suc fuel) m s ≡ some s
unfolding parse_loop
parse_loop_end fuel m s h = ground arith

-- The name's buffer with "ctrlResp" in it.
abbrev named : List ℕ
named = ep_name_resp ++ replicate 8 0

module _ (bytes : List ℕ) (junk : ℕ → ℕ) (small : length bytes < 65536) where
  -- What `compose_tlv` puts into memory.
  abbrev image : ℕ → ℕ
  image = mem (compose_tlv ep_name_resp bytes) junk

  two_bytes : length bytes % 256 + 256 * (length bytes / 256 % 256) ≡ length bytes
  two_bytes = omega arith

  round_name :
      parse_round image (parse_start (14 + length bytes))
      ≡ some (record { pos = 11; total_len = 3 + length bytes; epname = named; payload = none })
  unfolding parse_round advance compose_tlv
  round_name =
      ap (λ k. some (record { pos = 11; total_len = k; epname = named; payload = none }))
        (omega arith)

  round_data :
      parse_round image
        (record { pos = 11; total_len = 3 + length bytes; epname = named; payload = none })
      ≡ some (record {
        pos = 14 + length bytes;
        total_len = 0;
        epname = named;
        payload = some (14, length bytes);
      })
  unfolding parse_round advance compose_tlv
  round_data =
      ap₂
        (λ n k.
          some (record { pos = 11 + 3 + n; total_len = k; epname = named; payload = some (14, n) }))
        two_bytes (omega arith)
      ∙ ap
          (λ p.
            some (record {
              pos = p;
              total_len = 0;
              epname = named;
              payload = some (14, length bytes);
            }))
          (omega arith)

  abbrev after_name : Parser
  after_name = record { pos = 11; total_len = 3 + length bytes; epname = named; payload = none }

  abbrev after_data : Parser
  after_data = record {
    pos = 14 + length bytes;
    total_len = 0;
    epname = named;
    payload = some (14, length bytes);
  }

  loop_lem : parse_loop 3 image (parse_start (14 + length bytes)) ≡ some after_data
  loop_lem =
      parse_loop_step 2 image (parse_start (14 + length bytes)) after_name (omega arith) round_name
      ∙ parse_loop_step 1 image after_name after_data (omega arith) round_data
      ∙ parse_loop_end 0 image after_data refl

  data_back : read_mem image 14 (length bytes) ≡ bytes
  unfolding compose_tlv
  data_back =
      ap (λ b. read_mem (mem (xs ++ b) junk) 14 (length bytes)) (sym (append-nil bytes))
      ∙ read_mem_part xs bytes [] junk
    where
      xs : List ℕ
      xs =
          1
          ∷ 8
          ∷ 0
          ∷ 99
          ∷ 116
          ∷ 114
          ∷ 108
          ∷ 82
          ∷ 101
          ∷ 115
          ∷ 112
          ∷ 2
          ∷ (length bytes % 256)
          ∷ (length bytes / 256 % 256)
          ∷ []

pub length-compose_tlv :
    (bytes : List ℕ) → length (compose_tlv ep_name_resp bytes) ≡ 14 + length bytes
unfolding compose_tlv
length-compose_tlv bytes = omega arith

request_lem :
    (fuel : ℕ) (m : ℕ → ℕ) (n : ℕ) {s : Parser}
    → parse_loop fuel m (parse_start n) ≡ some s
    → parse_request fuel m n ≡ parse_done m s
unfolding parse_request
request_lem fuel m n e = ground (arith, e)

done_lem :
    (bytes : List ℕ) (junk : ℕ → ℕ) (pos : 0 < length bytes) (small : length bytes < 65536)
    → parse_done (image bytes junk small) (after_data bytes junk small) ≡ some (ep_name_resp, bytes)
unfolding parse_done
done_lem bytes junk pos small = rw (nonzero, data_back bytes junk small) refl
  where
    nonzero : (length bytes == 0) ≡ false
    nonzero = ground arith

-- The framed data are read back as the endpoint and the data, in three rounds.
pub parse_request-compose_tlv :
    (bytes : List ℕ) (junk : ℕ → ℕ)
    → 0 < length bytes
    → length bytes < 65536
    → parse_request 3
        (mem (compose_tlv ep_name_resp bytes) junk)
        (length (compose_tlv ep_name_resp bytes))
      ≡ some (ep_name_resp, bytes)
parse_request-compose_tlv bytes junk pos small =
    ap (parse_request 3 (mem (compose_tlv ep_name_resp bytes) junk)) (length-compose_tlv bytes)
    ∙ request_lem 3 _ _ (loop_lem bytes junk small)
    ∙ done_lem bytes junk pos small

pub send_fits :
    (bytes : List ℕ)
    → length bytes ≤ 65521
    → transport_pserial_send true true bytes ≡ writes (compose_tlv ep_name_resp bytes)
unfolding transport_pserial_send host_compose_tlv compose_tlv
send_fits bytes h =
    pick ((14 + length bytes) % 65536) (compose_tlv ep_name_resp bytes)
      (omega (arith, h) ∙ sym (length-compose_tlv bytes)) (omega (arith, h))
  where
    pick :
        (n : ℕ) (msg : List ℕ)
        → n ≡ length msg
        → 0 < n
        → (if ltb n (length msg)
            then heap_overflow
            else if n == 0
            then not_sent
            else writes (take n msg))
          ≡ writes msg
    pick n msg e z = ground (arith, e, z, take_all n msg (omega (arith, e)))

send_overflows :
    (bytes : List ℕ)
    → 65521 < length bytes
    → length bytes < 65536
    → transport_pserial_send true true bytes ≡ heap_overflow
unfolding transport_pserial_send host_compose_tlv compose_tlv
send_overflows bytes h k =
    pick ((14 + length bytes) % 65536) (compose_tlv ep_name_resp bytes)
      (omega (arith, h, k, length-compose_tlv bytes))
  where
    pick :
        (n : ℕ) (msg : List ℕ)
        → n < length msg
        → (if ltb n (length msg)
            then heap_overflow
            else if n == 0
            then not_sent
            else writes (take n msg))
          ≡ heap_overflow
    pick n msg e = ground (arith, e)

-- Data of 1 to 65521 bytes that the host sends as a request, with memory and an open interface, are
-- written in a frame that the coprocessor, with any bytes behind it in memory, reads back as the
-- endpoint "ctrlResp" and exactly these data, in three rounds; data of 65522 to 65535 bytes are
-- written behind the end of the host's buffer.
pub parse_request-transport_pserial_send :
    (bytes : List ℕ) (junk : ℕ → ℕ)
    → 0 < length bytes
    → length bytes < 65536
    → ((msg : List ℕ) × (length bytes ≤ 65521)
        × (transport_pserial_send true true bytes ≡ writes msg)
        × (parse_request 3 (mem msg junk) (length msg) ≡ some (ep_name_resp, bytes)))
      ⊎ ((65521 < length bytes) × (transport_pserial_send true true bytes ≡ heap_overflow))
parse_request-transport_pserial_send bytes junk pos small = elim (dec_le (length bytes) 65521) [
  | yes h ↦ inl (
    compose_tlv ep_name_resp bytes,
    h,
    send_fits bytes h,
    parse_request-compose_tlv bytes junk pos small,
  )
  | no h ↦ inr (omega (arith, h), send_overflows bytes (omega (arith, h)) small)
]

-- What the coprocessor frames for the response or the event endpoint, up to 65535 bytes, the host
-- accepts, with its exact length.
pub host_parse_tlv-compose_tlv :
    (bytes : List ℕ) (junk : ℕ → ℕ)
    → length bytes < 65536
    → (host_parse_tlv (mem (compose_tlv ep_name_resp bytes) junk) ≡ some (length bytes))
      × (host_parse_tlv (mem (compose_tlv ep_name_event bytes) junk) ≡ some (length bytes))
unfolding host_parse_tlv compose_tlv
host_parse_tlv-compose_tlv bytes junk small = (ap some (omega arith), ap some (omega arith))
