-- ===== src/SdioHost/Split.antt =====
-- The host takes an aggregate apart into the packets that it was made of.
use esp_hosted.Prelude.{
  ℕ, zero, suc, ◌+◌, ◌%◌, ◌≤◌, ◌<◌, ◌≡◌, sym, ap, ◌∙◌, Bool, true, List, [], ◌∷◌, ◌++◌, some, none,
  length, take, drop, length-append, append_assoc, drop-length-append, arith,
}
use esp_hosted.Header.{Header, get_header, offset_valid}
use esp_hosted.SdioSlave.{align4, pad4}
use esp_hosted.SdioHost.{frame_at, split, frames_of}
use esp_hosted.Aggregate.{IsPacket, ArePackets, join, length-pad4, take-pad4, get_header-pad4}

-- Every buffer can be had.
abbrev pub always : ℕ → Bool
always i = true

frame_at-accepts :
    (pos : ℕ) (skb : List ℕ) (h : Header)
    → get_header (drop pos skb) ≡ some h
    → 0 < h.len
    → h.len ≤ 15872
    → 12 ≤ h.offset
    → h.offset ≤ 16
    → pos + (h.len + h.offset) ≤ length skb
    → frame_at always pos skb ≡ some (h.len + h.offset)
unfolding frame_at offset_valid
frame_at-accepts pos skb h e a b c d f = ground (arith, e)

frame_at_end : (skb : List ℕ) → frame_at always (length skb) (skb ++ []) ≡ none
unfolding frame_at get_header
frame_at_end skb = ground (arith, drop-length-append skb [])

frame_at-join :
    (pre p rest : List ℕ) (v : IsPacket p)
    → frame_at always (length pre) (pre ++ (pad4 p ++ rest)) ≡ some (length p)
frame_at-join pre p rest v =
    frame_at-accepts (length pre) (pre ++ (pad4 p ++ rest)) v.hdr
      (ap get_header (drop-length-append pre (pad4 p ++ rest)) ∙ get_header-pad4 p rest v)
      v.nonempty v.short v.offset_min v.offset_max
      (omega (
        arith,
        v.whole,
        length-append pre (pad4 p ++ rest),
        length-append (pad4 p) rest,
        length-pad4 p,
      ))
    ∙ ap some v.whole

split-step :
    (fuel pos n : ℕ) (skb : List ℕ)
    → frame_at always pos skb ≡ some n
    → split always (suc fuel) pos skb
      ≡ take n (drop pos skb) ∷ split always fuel ((pos + align4 n) % 65536) skb
unfolding split
split-step fuel pos n skb e = ground (arith, e)

split-none :
    (fuel pos : ℕ) (skb : List ℕ)
    → frame_at always pos skb ≡ none
    → split always (suc fuel) pos skb ≡ []
unfolding split
split-none fuel pos skb e = ground (arith, e)

split-join :
    (fuel : ℕ) (pre : List ℕ) (ps : List (List ℕ))
    → ArePackets ps
    → length ps < fuel
    → length (pre ++ join ps) < 65536
    → split always fuel (length pre) (pre ++ join ps) ≡ ps
split-join zero pre ps v h b = absurd (omega arith)
split-join (suc fuel) pre [] v h b = split-none fuel (length pre) (pre ++ []) (frame_at_end pre)
split-join (suc fuel) pre (p ∷ ps) v h b =
    split-step fuel (length pre) (length p) (pre ++ (pad4 p ++ join ps))
      (frame_at-join pre p (join ps) v.0)
    ∙ ap (λ t. t ∷ split always fuel pos' (pre ++ (pad4 p ++ join ps))) first
    ∙ ap (λ t. p ∷ t) (later (split-join fuel (pre ++ pad4 p) ps v.1 (omega arith) bound))
  where
    pos' : ℕ
    pos' = (length pre + align4 (length p)) % 65536

    first : take (length p) (drop (length pre) (pre ++ (pad4 p ++ join ps))) ≡ p
    first =
        ap (λ t. take (length p) t) (drop-length-append pre (pad4 p ++ join ps))
        ∙ take-pad4 p (join ps)

    assoc : (pre ++ pad4 p) ++ join ps ≡ pre ++ (pad4 p ++ join ps)
    assoc = append_assoc pre (pad4 p) (join ps)

    bound : length ((pre ++ pad4 p) ++ join ps) < 65536
    bound = omega (arith, ap length assoc)

    at : pos' ≡ length (pre ++ pad4 p)
    at = omega (
      arith,
      bound,
      length-append (pre ++ pad4 p) (join ps),
      length-append pre (pad4 p),
      length-pad4 p,
    )

    later :
        split always fuel (length (pre ++ pad4 p)) ((pre ++ pad4 p) ++ join ps) ≡ ps
        → split always fuel pos' (pre ++ (pad4 p ++ join ps)) ≡ ps
    later ih =
        ap (λ k. split always fuel k (pre ++ (pad4 p ++ join ps))) at
        ∙ ap (λ t. split always fuel (length (pre ++ pad4 p)) t) (sym assoc)
        ∙ ih

pub length-join : (ps : List (List ℕ)) → ArePackets ps → length ps ≤ length (join ps)
length-join [] v = omega arith
length-join (p ∷ ps) v = omega (
  arith,
  length-append (pad4 p) (join ps),
  length-pad4 p,
  length-join ps v.1,
  v.0.whole,
  v.0.nonempty,
)

frames_of-single :
    (skb : List ℕ) (h : Header) (alloc : ℕ → Bool)
    → get_header skb ≡ some h
    → 0 < h.len
    → h.len ≤ 15872
    → 12 ≤ h.offset
    → h.offset ≤ 16
    → h.len + h.offset ≤ length skb
    → length skb ≤ align4 (h.len + h.offset)
    → frames_of alloc skb ≡ take (h.len + h.offset) skb ∷ []
unfolding frames_of offset_valid
frames_of-single skb h alloc e a b c d f g = ground (arith, e)

frames_of-several :
    (skb : List ℕ) (h : Header) (alloc : ℕ → Bool)
    → get_header skb ≡ some h
    → 0 < h.len
    → h.len ≤ 15872
    → 12 ≤ h.offset
    → h.offset ≤ 16
    → h.len + h.offset ≤ length skb
    → align4 (h.len + h.offset) < length skb
    → frames_of alloc skb ≡ split alloc (suc (length skb)) 0 skb
unfolding frames_of offset_valid
frames_of-several skb h alloc e a b c d f g = ground (arith, e)

-- A transfer of at most 65535 bytes that joins packets is taken apart into these packets, in their
-- order and without the padding, if the buffers for them can be had.
pub frames_of-join :
    (p : List ℕ) (ps : List (List ℕ))
    → ArePackets (p ∷ ps)
    → length (join (p ∷ ps)) < 65536
    → frames_of always (join (p ∷ ps)) ≡ p ∷ ps
frames_of-join p [] v b =
    frames_of-single (pad4 p ++ []) v.0.hdr always (get_header-pad4 p [] v.0) v.0.nonempty v.0.short
      v.0.offset_min v.0.offset_max (omega (arith, len, v.0.whole)) (omega (arith, len, v.0.whole))
    ∙ ap (λ n. take n (pad4 p ++ []) ∷ []) v.0.whole
    ∙ ap (λ t. t ∷ []) (take-pad4 p [])
  where
    len : length (pad4 p ++ []) ≡ align4 (length p)
    len = omega (arith, length-append (pad4 p) [], length-pad4 p)
frames_of-join p (q ∷ ps) v b =
    frames_of-several (join (p ∷ q ∷ ps)) v.0.hdr always (get_header-pad4 p (join (q ∷ ps)) v.0)
      v.0.nonempty v.0.short v.0.offset_min v.0.offset_max (omega (arith, len, v.0.whole, more))
      (omega (arith, len, v.0.whole, more))
    ∙ split-join (suc (length (join (p ∷ q ∷ ps)))) [] (p ∷ q ∷ ps) v
        (omega (arith, length-join (p ∷ q ∷ ps) v)) b
  where
    len : length (join (p ∷ q ∷ ps)) ≡ align4 (length p) + length (join (q ∷ ps))
    len = omega (arith, length-append (pad4 p) (join (q ∷ ps)), length-pad4 p)

    more : 0 < length (join (q ∷ ps))
    more = omega (arith, length-join (q ∷ ps) v.1)
