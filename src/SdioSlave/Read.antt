-- ===== src/SdioSlave/Read.antt =====
-- The coprocessor reads the packets of a block of the host one after the other, and the block is
-- given back once, with the last of them. CONFIG_ESP_SDIO_CHECKSUM is off, as it is by default.
use native.Mathlib.Decide.{dec_lt}
use esp_hosted.Prelude.{
  ℕ, zero, suc, ◌+◌, ◌-◌, ◌%◌, ◌≤◌, ◌<◌, ◌≡◌, refl, sym, ap, ◌∙◌, Bool, true, false, ◌||◌, List, [],
  ◌∷◌, ◌++◌, Option, some, none, length, map, take, drop, replicate, length-append, append_assoc,
  drop-length-append, if◌then◌else◌, arith, ltb, ◌==◌, drop-add,
}
use esp_hosted.Header.{Header, get_header}
use esp_hosted.SdioSlave.{
  align4, pad4, Block, Outcome, is_last_frame, read_frame, sdio_read, next_len,
}
use esp_hosted.Aggregate.{IsPacket, ArePackets, join, length-pad4, take-pad4, get_header-pad4}

-- The calls that empty a block; `received` is the block that the first one gets.
unfoldable pub calls : ℕ → Option (List ℕ × ℕ) → Option Block → List Outcome
calls zero received blk = []
calls (suc fuel) received blk =
    let o = sdio_read false true received blk in
    o ∷ elim o.left [ none ↦ [] | some b ↦ calls fuel none (some b) ]

-- What a call returns, and whether the block is given back, by the call or by the frame's user.
abbrev pub summary : Outcome → Option (List ℕ) × Bool
summary o = elim o.frame [
  | none ↦ (none, o.given_back)
  | some f ↦ (some f.payload, o.given_back || f.frees)
]

-- All packets are returned, and the last of them gives the block back.
abbrev pub all_of : List (List ℕ) → List (Option (List ℕ) × Bool)
all_of [] = []
all_of (p ∷ []) = (some p, true) ∷ []
all_of (p ∷ q ∷ ps) = (some p, false) ∷ all_of (q ∷ ps)

read_frame-accepts :
    (b : Block) (h : Header)
    → get_header (drop b.pos b.bytes) ≡ some h
    → 0 < h.len
    → 12 ≤ h.offset
    → h.len + h.offset < 65500
    → b.pos + (h.len + h.offset) ≤ b.total
    → read_frame false b ≡ record {
      frame = some (record {
        payload = take (h.len + h.offset) (drop b.pos b.bytes);
        payload_len = h.len + h.offset;
        if_type = h.if_type;
        if_num = h.if_num;
        frees = is_last_frame b (align4 (h.len + h.offset));
      });
      left =
          if is_last_frame b (align4 (h.len + h.offset))
          then none
          else some (record b { pos = (b.pos + align4 (h.len + h.offset)) % 65536 });
      given_back = false;
    }
unfolding read_frame
read_frame-accepts b h e n o s t =
    let m : (h.len + h.offset) % 65536 ≡ h.len + h.offset = omega arith in
    let a : align4 (h.len + h.offset) % 65536 ≡ align4 (h.len + h.offset) = omega arith in
    ground (arith, e, m, a)

twelve : ℕ → ℕ
twelve k = suc (suc (suc (suc (suc (suc (suc (suc (suc (suc (suc (suc k)))))))))))

next_len-zeros : (k : ℕ) (stale : List ℕ) → 12 ≤ k → next_len (replicate k 0 ++ stale) ≡ 0
unfolding get_header twelve
next_len-zeros k stale h = ap (λ n. next_len (replicate n 0 ++ stale)) many
  where
    many : k ≡ twelve (k - 12)
    many = omega arith

-- The test for the last frame, when `rest` follows the padding of a packet `p`.
abbrev last_of : List ℕ → List ℕ → List ℕ → ℕ → Bool
last_of pre p rest total = ltb total (length pre + align4 (length p) + 12) || (next_len rest == 0)

abbrev block : List ℕ → List ℕ → List ℕ → ℕ → Block
block pre p rest total = record { bytes = pre ++ (pad4 p ++ rest); total = total; pos = length pre }

is_last_frame-last_of :
    (pre p rest : List ℕ) (total : ℕ)
    → is_last_frame (block pre p rest total) (align4 (length p)) ≡ last_of pre p rest total
unfolding is_last_frame
is_last_frame-last_of pre p rest total =
    ap (λ t. ltb total (length pre + align4 (length p) + 12) || (next_len t == 0)) behind
  where
    behind : drop (length pre + align4 (length p)) (pre ++ (pad4 p ++ rest)) ≡ rest
    behind =
        drop-add (length pre) (align4 (length p)) (pre ++ (pad4 p ++ rest))
        ∙ ap (drop (align4 (length p))) (drop-length-append pre (pad4 p ++ rest))
        ∙ ap (λ n. drop n (pad4 p ++ rest)) (sym (length-pad4 p))
        ∙ drop-length-append (pad4 p) rest

read_frame-packet :
    (pre p rest : List ℕ) (total : ℕ) (v : IsPacket p)
    → length pre + align4 (length p) ≤ total
    → total < 65536
    → read_frame false (block pre p rest total) ≡ record {
      frame = some (record {
        payload = p;
        payload_len = length p;
        if_type = v.hdr.if_type;
        if_num = v.hdr.if_num;
        frees = last_of pre p rest total;
      });
      left =
          if last_of pre p rest total
          then none
          else some (record (block pre p rest total) { pos = length pre + align4 (length p) });
      given_back = false;
    }
read_frame-packet pre p rest total v f c =
    let at : drop (length pre) (pre ++ (pad4 p ++ rest)) ≡ pad4 p ++ rest =
      drop-length-append pre (pad4 p ++ rest) in
    let wraps : (length pre + align4 (length p)) % 65536 ≡ length pre + align4 (length p) =
      omega arith in
    read_frame-accepts (block pre p rest total) v.hdr (ap get_header at ∙ get_header-pad4 p rest v)
      v.nonempty v.offset_min (omega (arith, v.short, v.offset_max)) (omega (arith, v.whole, f))
    ∙ rw (v.whole, at, take-pad4 p rest, is_last_frame-last_of pre p rest total, wraps)

-- What the loop returns from the packets `ps` on.
module _ (k : ℕ) (stale : List ℕ) where
  abbrev tail_of : List (List ℕ) → List ℕ
  tail_of ps = join ps ++ (replicate k 0 ++ stale)

  last-single :
      (pre p : List ℕ) → last_of pre p (tail_of []) (length pre + align4 (length p) + k) ≡ true
  last-single pre p = elim (dec_lt k 12) [
    | yes h ↦ ground arith
    | no h ↦ rw (next_len-zeros k stale (omega arith)) (ground arith)
  ]

  last-more :
      (pre p q : List ℕ) (ps : List (List ℕ)) (total : ℕ)
      → IsPacket q
      → length pre + align4 (length p) + 12 ≤ total
      → last_of pre p (tail_of (q ∷ ps)) total ≡ false
  last-more pre p q ps total v h = ground (arith, len)
    where
      len : next_len (tail_of (q ∷ ps)) ≡ v.hdr.len
      len =
          ap next_len (append_assoc (pad4 q) (join ps) (replicate k 0 ++ stale))
          ∙ ap (λ o. elim o [ none ↦ 0 | some h ↦ h.len ])
              (get_header-pad4 q (join ps ++ (replicate k 0 ++ stale)) v)

  calls_end :
      (fuel : ℕ) (b : Block) (o : Outcome)
      → read_frame false b ≡ o
      → o.left ≡ none
      → calls (suc fuel) none (some b) ≡ o ∷ []
  unfolding calls sdio_read
  calls_end fuel b o e n = rw (e, n)

  calls_more :
      (fuel : ℕ) (b b' : Block) (o : Outcome)
      → read_frame false b ≡ o
      → o.left ≡ some b'
      → calls (suc fuel) none (some b) ≡ o ∷ calls fuel none (some b')
  unfolding calls sdio_read
  calls_more fuel b b' o e n = rw (e, n)

  next_block :
      (pre p q : List ℕ) (ps : List (List ℕ)) (total : ℕ)
      → record (block pre p (tail_of (q ∷ ps)) total) { pos = length pre + align4 (length p) }
        ≡ block (pre ++ pad4 p) q (tail_of ps) total
  next_block pre p q ps total =
      ap (λ n. record (block pre p (tail_of (q ∷ ps)) total) { pos = n })
        (omega (arith, length-append pre (pad4 p), length-pad4 p))
      ∙ ap (λ t. record (block (pre ++ pad4 p) q (tail_of ps) total) { bytes = t })
          (ap (λ t. pre ++ (pad4 p ++ t)) (append_assoc (pad4 q) (join ps) (replicate k 0 ++ stale))
            ∙ sym (append_assoc pre (pad4 p) (pad4 q ++ (join ps ++ (replicate k 0 ++ stale)))))

  calls-block :
      (fuel : ℕ) (pre p : List ℕ) (ps : List (List ℕ)) (total : ℕ)
      → ArePackets (p ∷ ps)
      → length ps < fuel
      → total ≡ length pre + length (join (p ∷ ps)) + k
      → total < 65536
      → map summary (calls fuel none (some (block pre p (tail_of ps) total))) ≡ all_of (p ∷ ps)
  calls-block zero pre p ps total v f e c = absurd (omega arith)
  calls-block (suc fuel) pre p [] total v f e c =
      rw
        (calls_end fuel (block pre p (tail_of []) total) _
          (read_frame-packet pre p (tail_of []) total v.0 (omega (arith, len)) c) (rw at_end))
        (rw at_end)
    where
      len : total ≡ length pre + align4 (length p) + k
      len = omega (arith, e, length-append (pad4 p) [], length-pad4 p)

      at_end : last_of pre p (tail_of []) total ≡ true
      at_end = ap (last_of pre p (tail_of [])) len ∙ last-single pre p
  calls-block (suc fuel) pre p (q ∷ ps) total v f e c =
      rw
        (calls_more fuel (block pre p (tail_of (q ∷ ps)) total)
          (block (pre ++ pad4 p) q (tail_of ps) total) _
          (read_frame-packet pre p (tail_of (q ∷ ps)) total v.0 (omega (arith, room)) c)
          (rw more (ap some (next_block pre p q ps total))))
        (rw more (
          ap (λ t. (some p, false) ∷ t)
            (calls-block fuel (pre ++ pad4 p) q ps total v.1 (omega arith)
              (omega (arith, e, len, length-append pre (pad4 p), length-pad4 p)) c)))
    where
      len : length (join (p ∷ q ∷ ps)) ≡ align4 (length p) + length (join (q ∷ ps))
      len = omega (arith, length-append (pad4 p) (join (q ∷ ps)), length-pad4 p)

      room : length pre + align4 (length p) + 12 ≤ total
      room = omega (
        arith,
        e,
        len,
        length-append (pad4 q) (join ps),
        length-pad4 q,
        v.1.0.whole,
        v.1.0.offset_min,
      )

      more : last_of pre p (tail_of (q ∷ ps)) total ≡ false
      more = last-more pre p q ps total v.1.0 room

  calls_first :
      (fuel total : ℕ) (bytes : List ℕ)
      → total < 65536
      → calls fuel (some (bytes, total)) none
        ≡ calls fuel none (some (record { bytes = bytes; total = total; pos = 0 }))
  unfolding calls sdio_read
  calls_first zero total bytes c = refl
  calls_first (suc fuel) total bytes c =
      ap
        (λ n.
          let o = read_frame false (record { bytes = bytes; total = n; pos = 0 }) in
          o ∷ elim o.left [ none ↦ [] | some b ↦ calls fuel none (some b) ])
        (omega arith)

  -- A block of less than 65536 bytes that joins packets, with `k` zeros behind them and anything in
  -- the rest of the receive buffer, is read packet by packet, each as it was sent and in their
  -- order, in as many calls as there are packets; the block is given back once, with the last.
  pub calls-join :
      (p : List ℕ) (ps : List (List ℕ))
      → ArePackets (p ∷ ps)
      → length (join (p ∷ ps)) + k < 65536
      → map summary (
          calls
            (length (p ∷ ps))
            (some (join (p ∷ ps) ++ (replicate k 0 ++ stale), length (join (p ∷ ps)) + k))
            none)
        ≡ all_of (p ∷ ps)
  calls-join p ps v c =
      ap (map summary) (calls_first (length (p ∷ ps)) total (tail_of (p ∷ ps)) c)
      ∙ ap
          (λ t.
            map summary
              (calls (length (p ∷ ps)) none (some (record { bytes = t; total = total; pos = 0 }))))
          (append_assoc (pad4 p) (join ps) (replicate k 0 ++ stale))
      ∙ calls-block (length (p ∷ ps)) [] p ps total v (omega arith) (omega arith) c
    where
      total : ℕ
      total = length (join (p ∷ ps)) + k
