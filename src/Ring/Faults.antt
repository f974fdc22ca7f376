-- ===== src/Ring/Faults.antt =====
-- `esp_rb_read_by_user` when it has to wait, and when a copy to the user fails.
use esp_hosted.Prelude.{
  ℕ, ◌-◌, ◌<◌, ◌≡◌, ◌≢◌, refl, Bool, true, false, List, [], ◌∷◌, ◌++◌, some, length, seg,
  length-seg, seg_empty, arith,
}
use esp_hosted.Errno.{fail, efault}
use esp_hosted.Ring.{Rb, Wake, signalled, woken, ready, init, read_bytes, read_wait}
use esp_hosted.Ring.Segments.{IsValid, contents}

-- A ring that `esp_rb_init` made of `sz` bytes is well formed and empty, for any size that is
-- positive and fits an `int`.
pub init-IsValid :
    (bytes : List ℕ) (sz : ℕ) {rb : Rb}
    → init (some bytes) sz ≡ some rb
    → length bytes ≡ sz
    → 0 < sz
    → sz < 2147483648
    → IsValid rb × (contents rb ≡ [])
unfolding init
init-IsValid bytes sz h n p q = ground arith

second_fault :
    (rb : Rb) (sz : ℕ)
    → IsValid rb
    → rb.wp < rb.rp
    → rb.size - rb.rp < sz
    → read_bytes true false rb sz
      ≡ record { ret = fail efault; out = seg rb.buf rb.rp rb.size; rb = record rb { rp = 0 } }
unfolding read_bytes
second_fault rb sz v p q = ground arith

-- If only the second `copy_to_user` fails, the call reports EFAULT, but the bytes of the first copy,
-- up to the end of the buffer, have left the ring for good.
pub second_fault_loses :
    (rb : Rb) (sz : ℕ)
    → IsValid rb
    → rb.wp < rb.rp
    → rb.size - rb.rp < sz
    → (read_bytes true false rb sz).ret ≡ fail efault
      × (contents rb ≡ seg rb.buf rb.rp rb.size ++ contents (read_bytes true false rb sz).rb)
      × (length (seg rb.buf rb.rp rb.size) ≡ rb.size - rb.rp)
second_fault_loses rb sz v p q =
    rw (second_fault rb sz v p q)
      (refl, ground (arith, seg_empty rb.buf 0 0), length-seg rb.buf rb.rp rb.size (omega arith))

-- A failing first copy changes nothing.
first_fault_keeps :
    (ok2 : Bool) (rb : Rb) (sz : ℕ)
    → read_bytes false ok2 rb sz ≡ record { ret = fail efault; out = []; rb = rb }
unfolding read_bytes
first_fault_keeps ok2 rb sz = ground arith

-- Whatever a blocking reader meets while it sleeps, it goes on to read only from a ring that holds
-- data.
wait_ready :
    (block : Bool) (rb : Rb) (ws : List Wake) {rb' : Rb}
    → read_wait block rb ws ≡ ready rb'
    → rb'.rp ≢ rb'.wp
unfolding read_wait
wait_ready block rb [] h = ground arith
wait_ready block rb (signalled ∷ ws) h = ground arith
wait_ready block rb (woken rb₁ i ∷ ws) {rb'} h = ground (arith, wait_ready block rb₁ ws {rb' = rb'})
