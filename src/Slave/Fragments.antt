-- ===== src/Slave/Fragments.antt =====
-- How `serial_write_data` cuts a message into fragments.
use native.Mathlib.Decide.{dec_le}
use esp_hosted.Prelude.{
  ℕ, zero, suc, ◌+◌, ◌-◌, ◌%◌, ◌≤◌, ◌<◌, ◌≡◌, refl, Bool, true, false, List, [], ◌∷◌, ◌++◌, length,
  length-take, take, drop, ltb, lt→ltb, ◌==◌, arith, ap, ◌∙◌, take-append-drop, append-nil,
  length-drop,
}
use esp_hosted.Slave.{Handle, eth_data_len, frag_handle, write_frags, serial_write_data}

abbrev pub all_taken : ℕ → Bool
all_taken i = true

pub frags_last :
    (fuel i seq : ℕ) (left : List ℕ)
    → length left ≤ eth_data_len
    → write_frags (suc fuel) all_taken i seq left
      ≡ (true, frag_handle ((seq + 1) % 65536) left ∷ [], (seq + 1) % 65536)
unfolding write_frags
frags_last fuel i seq left h = rw (small, nothing_left) refl
  where
    small : ltb eth_data_len (length left) ≡ false
    small = ground arith

    nothing_left : (length left - length left == 0) ≡ true
    nothing_left = ground arith

pub frags_more :
    (fuel i seq : ℕ) (left : List ℕ)
    → eth_data_len < length left
    → let seq' = (seq + 1) % 65536 in
      let later = write_frags fuel all_taken (i + 1) seq' (drop eth_data_len left) in
      write_frags (suc fuel) all_taken i seq left
      ≡ (later.0, frag_handle seq' left ∷ later.1, later.2)
unfolding write_frags
frags_more fuel i seq left h = rw (lt→ltb eth_data_len (length left) h, first, some_left) refl
  where
    first : length (take eth_data_len left) ≡ eth_data_len
    first = omega (arith, length-take eth_data_len left)

    some_left : (length left - eth_data_len == 0) ≡ false
    some_left = ground arith

-- All payloads, one behind the other.
abbrev pub joined : List Handle → List ℕ
joined [] = []
joined (h ∷ hs) = h.payload ++ joined hs

-- Every payload fits an Ethernet frame, and only the last one has no MORE_FRAGMENT.
abbrev pub IsChain : List Handle → Type 0
IsChain [] = ⊥
IsChain (h ∷ []) = (length h.payload ≤ eth_data_len) × (h.flag ≡ 0)
IsChain (h ∷ g ∷ hs) = (length h.payload ≡ eth_data_len) × (h.flag ≡ 1) × IsChain (g ∷ hs)

pub frag_small :
    (seq : ℕ) (left : List ℕ)
    → length left ≤ eth_data_len
    → frag_handle seq left ≡ record (frag_handle seq left) { flag = 0; payload = left }
frag_small seq left h = rw small refl
  where
    small : ltb eth_data_len (length left) ≡ false
    small = ground arith

pub frag_big :
    (seq : ℕ) (left : List ℕ)
    → eth_data_len < length left
    → frag_handle seq left
      ≡ record (frag_handle seq left) { flag = 1; payload = take eth_data_len left }
frag_big seq left h = rw (lt→ltb eth_data_len (length left) h) refl

IsChain-cons :
    (h : Handle) (hs : List Handle)
    → length h.payload ≡ eth_data_len
    → h.flag ≡ 1
    → IsChain hs
    → IsChain (h ∷ hs)
IsChain-cons h [] n f c = absurd c
IsChain-cons h (g ∷ hs) n f c = (n, f, c)

-- What the loop has handed to the transport.
record Cut (left : List ℕ) (out : Bool × List Handle × ℕ) : Type 0 where
  ok : out.0 ≡ true
  chain : IsChain out.1
  whole : joined out.1 ≡ left

write_frags-Cut :
    (fuel i seq : ℕ) (left : List ℕ)
    → length left < fuel
    → Cut left (write_frags fuel all_taken i seq left)
write_frags-Cut zero i seq left h = absurd (omega arith)
write_frags-Cut (suc fuel) i seq left h = elim (dec_le (length left) eth_data_len) [
  | yes small ↦
      rw (frags_last fuel i seq left small, frag_small ((seq + 1) % 65536) left small)
        (record { ok = refl; chain = (small, refl); whole = append-nil left })
  | no big ↦ more (omega arith) (
      write_frags-Cut fuel (i + 1) ((seq + 1) % 65536) (drop eth_data_len left)
        (omega (arith, length-drop eth_data_len left)))
]
  where
    more :
        eth_data_len < length left
        → Cut
            (drop eth_data_len left)
            (write_frags fuel all_taken (i + 1) ((seq + 1) % 65536) (drop eth_data_len left))
        → Cut left (write_frags (suc fuel) all_taken i seq left)
    more big c =
        rw (frags_more fuel i seq left big, frag_big ((seq + 1) % 65536) left big)
          (record {
            ok = c.ok;
            chain =
                IsChain-cons
                  (record (frag_handle ((seq + 1) % 65536) left) {
                    flag = 1;
                    payload = take eth_data_len left;
                  })
                  (write_frags fuel all_taken (i + 1) ((seq + 1) % 65536)
                    (drop eth_data_len left)).1
                  (omega (arith, length-take eth_data_len left)) refl c.chain;
            whole =
                ap (λ t. take eth_data_len left ++ t) c.whole ∙ take-append-drop eth_data_len left;
          })

-- As long as the transport takes every buffer, a message of any length goes out whole: the payloads
-- are the message cut into pieces of 1500 bytes and a last piece that is no longer, all but the
-- last flagged MORE_FRAGMENT.
pub serial_write_data-IsChain :
    (seq : ℕ) (bytes : List ℕ)
    → let (ok, hs, seq') = serial_write_data all_taken seq bytes in
      (ok ≡ true) × IsChain hs × (joined hs ≡ bytes)
unfolding serial_write_data
serial_write_data-IsChain seq bytes =
    let c = write_frags-Cut (suc (length bytes)) 0 seq bytes (omega arith) in
    (c.ok, c.chain, c.whole)
