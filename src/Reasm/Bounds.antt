-- ===== src/Reasm/Bounds.antt =====
-- What holds of the reassembly state between two frames, whatever frames come.
use esp_hosted.Prelude.{
  ℕ, ◌≤◌, ◌≡◌, Bool, List, none, length, length-append, length-take, take, arith, true, ◌⊎◌,
}
use esp_hosted.Header.{Frame, body}
use esp_hosted.Reasm.{Reasm, delivered, bytes_of, max_len, reasm_frame}

-- The recorded length is that of the buffer and within the limit; an idle device holds no buffer.
pub record IsValid (st : Reasm) : Type 0 where
  pub exact : st.len ≡ length (bytes_of st.buf)
  pub bounded : st.len ≤ max_len
  pub idle : (st.active ≡ true) ⊎ (st.buf ≡ none)

-- A frame that holds all the bytes that its header announces.
abbrev IsWhole : Frame → Type 0
IsWhole f = f.hdr.len ≤ length f.payload

module _ (ok : Bool) (st : Reasm) (f : Frame) (v : IsValid st) (w : IsWhole f) where
  abbrev old : List ℕ
  old = take st.len (bytes_of st.buf)

  length-old : length old ≡ st.len
  length-old = omega (arith, v.exact, v.bounded, length-take st.len (bytes_of st.buf))

  new_length : length (body f) ≡ f.hdr.len
  new_length = omega (arith, w, length-take f.hdr.len f.payload)

  -- Every frame that is whole keeps the state well formed, so that no reassembly buffer ever passes
  -- 12288 bytes.
  pub reasm_frame-IsValid : IsValid (reasm_frame ok st f).0
  unfolding reasm_frame
  reasm_frame-IsValid = ground (arith, v.idle, length-old, new_length, length-append old (body f))

  -- A message that is delivered after a whole frame is within that limit.
  pub reasm_frame-delivered :
      (m : List ℕ) → (reasm_frame ok st f).1 ≡ delivered m → length m ≤ max_len
  unfolding reasm_frame
  reasm_frame-delivered m h = ground (arith, length-old, new_length, length-append old (body f))
