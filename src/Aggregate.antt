-- ===== src/Aggregate.antt =====
-- The format of an aggregate on the SDIO bus, in both directions: packets one after the other, each
-- padded with zeros to a multiple of four bytes.
use esp_hosted.Prelude.{
  ℕ, ◌+◌, ◌-◌, ◌≤◌, ◌<◌, ◌≡◌, ap, ◌∙◌, List, [], ◌∷◌, ◌++◌, some, length, take, drop, replicate,
  length-append, length-replicate, append_assoc, take-length-append, drop-length-append, arith,
}
use esp_hosted.Header.{Header, get_header}
use esp_hosted.SdioSlave.{align4, pad4}

-- A packet that a receiver accepts: its header describes all of it.
pub record IsPacket (p : List ℕ) : Type 0 where
  pub hdr : Header
  pub is_header : get_header p ≡ some hdr
  pub whole : hdr.len + hdr.offset ≡ length p
  pub nonempty : 0 < hdr.len
  pub short : hdr.len ≤ 15872
  pub offset_min : 12 ≤ hdr.offset
  pub offset_max : hdr.offset ≤ 16

abbrev pub ArePackets : List (List ℕ) → Type 0
ArePackets [] = Unit
ArePackets (p ∷ ps) = IsPacket p × ArePackets ps

abbrev pub join : List (List ℕ) → List ℕ
join [] = []
join (p ∷ ps) = pad4 p ++ join ps

pub length-pad4 : (p : List ℕ) → length (pad4 p) ≡ align4 (length p)
length-pad4 p = omega (
  arith,
  length-append p (replicate (align4 (length p) - length p) 0),
  length-replicate {A = ℕ} (align4 (length p) - length p) 0,
)

-- A header is read from the first twelve bytes.
pub get_header-append :
    (p rest : List ℕ) (h : Header) → get_header p ≡ some h → get_header (p ++ rest) ≡ some h
unfolding get_header
get_header-append (b0 ∷ b1 ∷ b2 ∷ b3 ∷ b4 ∷ b5 ∷ b6 ∷ b7 ∷ b8 ∷ b9 ∷ b10 ∷ b11 ∷ p) rest h e = e
get_header-append [] rest h e = ground (arith, e)
get_header-append (b0 ∷ []) rest h e = ground (arith, e)
get_header-append (b0 ∷ b1 ∷ []) rest h e = ground (arith, e)
get_header-append (b0 ∷ b1 ∷ b2 ∷ []) rest h e = ground (arith, e)
get_header-append (b0 ∷ b1 ∷ b2 ∷ b3 ∷ []) rest h e = ground (arith, e)
get_header-append (b0 ∷ b1 ∷ b2 ∷ b3 ∷ b4 ∷ []) rest h e = ground (arith, e)
get_header-append (b0 ∷ b1 ∷ b2 ∷ b3 ∷ b4 ∷ b5 ∷ []) rest h e = ground (arith, e)
get_header-append (b0 ∷ b1 ∷ b2 ∷ b3 ∷ b4 ∷ b5 ∷ b6 ∷ []) rest h e = ground (arith, e)
get_header-append (b0 ∷ b1 ∷ b2 ∷ b3 ∷ b4 ∷ b5 ∷ b6 ∷ b7 ∷ []) rest h e = ground (arith, e)
get_header-append (b0 ∷ b1 ∷ b2 ∷ b3 ∷ b4 ∷ b5 ∷ b6 ∷ b7 ∷ b8 ∷ []) rest h e = ground (arith, e)
get_header-append (b0 ∷ b1 ∷ b2 ∷ b3 ∷ b4 ∷ b5 ∷ b6 ∷ b7 ∷ b8 ∷ b9 ∷ []) rest h e =
    ground (arith, e)
get_header-append (b0 ∷ b1 ∷ b2 ∷ b3 ∷ b4 ∷ b5 ∷ b6 ∷ b7 ∷ b8 ∷ b9 ∷ b10 ∷ []) rest h e =
    ground (arith, e)

-- What is at the start of the next packet in a block: after `pre`, the packet `p`.
pub drop-join : (pre p rest : List ℕ) → drop (length pre) (pre ++ (p ++ rest)) ≡ p ++ rest
drop-join pre p rest = drop-length-append pre (p ++ rest)

-- Behind the packet its padding and the later packets.
pub pad_split :
    (p rest : List ℕ) → pad4 p ++ rest ≡ p ++ (replicate (align4 (length p) - length p) 0 ++ rest)
pad_split p rest = append_assoc p (replicate (align4 (length p) - length p) 0) rest

pub take-pad4 : (p rest : List ℕ) → take (length p) (pad4 p ++ rest) ≡ p
take-pad4 p rest =
    ap (λ t. take (length p) t) (pad_split p rest)
    ∙ take-length-append p (replicate (align4 (length p) - length p) 0 ++ rest)

pub get_header-pad4 : (p rest : List ℕ) (v : IsPacket p) → get_header (pad4 p ++ rest) ≡ some v.hdr
get_header-pad4 p rest v =
    ap get_header (pad_split p rest)
    ∙ get_header-append p (replicate (align4 (length p) - length p) 0 ++ rest) v.hdr v.is_header
