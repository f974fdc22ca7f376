-- ===== src/SdioHost/Receive.antt =====
-- The host's counter of received bytes, and `read_packet` over a transfer.
use native.Mathlib.Decide.{dec_lt}
use esp_hosted.Prelude.{
  ℕ, zero, suc, ◌+◌, ◌-◌, ◌%◌, ◌≤◌, ◌<◌, ◌≡◌, refl, ap, ◌∙◌, true, false, List, [], ◌∷◌, ◌++◌, some,
  length, take, take-length-append, arith, if◌then◌else◌, ◌==◌, leb,
}
use esp_hosted.SdioHost.{
  rx_len, get_len_from_slave, chunk, read_blocks, frames_of, RxContext, RxEnv, transfer,
  read_packet,
}
use esp_hosted.SdioHost.Split.{always, frames_of-join, length-join}
use esp_hosted.Aggregate.{ArePackets, join}

-- The limit in force: what the coprocessor announced, or ESP_RX_BUFFER_SIZE.
abbrev pub limit : ℕ → ℕ
limit e2h_aggr_size = if e2h_aggr_size == 0 then 15872 else e2h_aggr_size

-- When the coprocessor has sent `sent` bytes since it started, and the host has read `read` of them.
get_len_from_slave-exact :
    (e2h_aggr_size read sent reg : ℕ)
    → read ≤ sent
    → sent < read + 1048576
    → sent - read ≤ limit e2h_aggr_size
    → reg % 1048576 ≡ sent % 1048576
    → get_len_from_slave e2h_aggr_size (read % 1048576) reg ≡ rx_len (sent - read)
unfolding get_len_from_slave
get_len_from_slave-exact e2h_aggr_size read sent reg a b c e = ground (arith, difference)
  where
    difference :
        (if leb (read % 1048576) (reg % 1048576)
          then (reg % 1048576 + 1048576 - read % 1048576) % 1048576
          else 1048576 - read % 1048576 + reg % 1048576)
        ≡ sent - read
    difference = ground (arith, e)

chunk-bounds : (left : ℕ) → 0 < left → (0 < chunk left) × (chunk left ≤ left)
chunk-bounds left h = ground arith

read_blocks_last :
    (fuel i left count : ℕ)
    → left - chunk left ≡ 0
    → read_blocks always (suc fuel) i left count ≡ (true, (count + chunk left) % 1048576)
unfolding read_blocks
read_blocks_last fuel i left count e = rw e

read_blocks_more :
    (fuel i left count : ℕ)
    → 0 < left - chunk left
    → read_blocks always (suc fuel) i left count
      ≡ read_blocks always fuel (i + 1) (left - chunk left) ((count + chunk left) % 1048576)
unfolding read_blocks
read_blocks_more fuel i left count e =
    let e' : (left - chunk left == 0) ≡ false = ground arith in rw e'

read_blocks-count :
    (fuel i left count : ℕ)
    → 0 < left
    → left < fuel
    → read_blocks always fuel i left count ≡ (true, (count + left) % 1048576)
read_blocks-count zero i left count z h = absurd (omega arith)
read_blocks-count (suc fuel) i left count z h =
    let c = chunk-bounds left z in
    elim (dec_lt 0 (left - chunk left)) [
      | yes k ↦
          read_blocks_more fuel i left count k
          ∙ read_blocks-count fuel (i + 1) (left - chunk left) ((count + chunk left) % 1048576) k
              (omega (arith, c.0, c.1))
          ∙ ap (λ n. (true, n)) (omega (arith, c.1))
      | no k ↦
          read_blocks_last fuel i left count (omega arith)
          ∙ ap (λ n. (true, n)) (omega (arith, c.1))
    ]

transfer-step :
    (env : RxEnv) (n count : ℕ) (p : List ℕ) (ps : List (List ℕ)) (c : RxContext)
    → env.has_skb ≡ true
    → read_blocks env.bus (suc n) 0 n c.rx_byte_count ≡ (true, count)
    → frames_of env.alloc (take n env.stream) ≡ p ∷ ps
    → transfer env n c ≡ (some p, record c { rx_q = ps; rx_byte_count = count })
unfolding transfer
transfer-step env n count p ps c s b f = rw (s, b, f)

read_packet-transfer :
    (env : RxEnv) (n reg : ℕ) (c : RxContext)
    → c.rx_q ≡ []
    → env.reg ≡ some reg
    → get_len_from_slave c.e2h_aggr_size c.rx_byte_count reg ≡ rx_len n
    → 0 < n
    → read_packet env c ≡ transfer env n c
unfolding read_packet
read_packet-transfer env n reg c q r l z = ground (arith, q, r, l)

-- When nothing fails and no frame waits, a transfer that joins packets, of less than 65536 bytes and
-- at most the size of aggregates that is agreed on (15872 bytes where none is), gives the first of them to
-- the caller and leaves the others to the next calls, and the host's count of received bytes, which
-- wraps at 2^20, becomes that of the coprocessor: `sent` bytes since it started, of which the host
-- had read all but this transfer.
pub read_packet-join :
    (c : RxContext) (sent reg : ℕ) (p : List ℕ) (ps : List (List ℕ)) (later : List ℕ)
    → ArePackets (p ∷ ps)
    → c.rx_q ≡ []
    → length (join (p ∷ ps)) ≤ sent
    → c.rx_byte_count ≡ (sent - length (join (p ∷ ps))) % 1048576
    → reg % 1048576 ≡ sent % 1048576
    → length (join (p ∷ ps)) < 65536
    → length (join (p ∷ ps)) ≤ limit c.e2h_aggr_size
    → read_packet
        (record {
          reg = some reg;
          has_skb = true;
          bus = always;
          stream = join (p ∷ ps) ++ later;
          alloc = always;
        })
        c
      ≡ (some p, record c { rx_q = ps; rx_byte_count = sent % 1048576 })
read_packet-join c sent reg p ps later v q s r e b l =
    read_packet-transfer env n reg c q refl
      (ap (λ k. get_len_from_slave c.e2h_aggr_size k reg) r
        ∙ get_len_from_slave-exact c.e2h_aggr_size (sent - n) sent reg (omega arith) (omega arith)
            (omega (arith, l)) e
        ∙ ap rx_len (omega arith))
      pos
    ∙ transfer-step env n (sent % 1048576) p ps c refl
        (ap (λ k. read_blocks always (suc n) 0 n k) r
          ∙ read_blocks-count (suc n) 0 n ((sent - n) % 1048576) pos (omega arith)
          ∙ ap (λ k. (true, k)) (omega arith))
        (ap (frames_of always) (take-length-append (join (p ∷ ps)) later) ∙ frames_of-join p ps v b)
  where
    n : ℕ
    n = length (join (p ∷ ps))

    pos : 0 < n
    pos = omega (arith, length-join (p ∷ ps) v)

    env : RxEnv
    env = record {
      reg = some reg;
      has_skb = true;
      bus = always;
      stream = join (p ∷ ps) ++ later;
      alloc = always;
    }
