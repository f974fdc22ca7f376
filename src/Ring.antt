-- ===== src/Ring.antt =====
-- esp_hosted_fg/host/linux/host_driver/esp32/esp_rb.c: the ring buffer between the packet receiver
-- and the readers of the serial device. `rp` and `wp` are offsets from `buf`, and `end` is `size`.
-- The offsets are `size_t`, so a difference wraps at 2^64; an `int` result holds every size below
-- 2^31. What the kernel decides (signals, faults of a copy, what happens during a sleep) is input.
pub mod Segments
pub mod Write
pub mod Take
pub mod Refine
pub mod Faults
use esp_hosted.Prelude.{
  ℕ, ◌+◌, ◌-◌, ◌%◌, ◌^◌, min, Bool, true, false, List, [], ◌∷◌, ◌++◌, Option, none, some, length,
  take, drop, replicate, put, seg, ltb, leb, ◌==◌, if◌then◌else◌,
}
use esp_hosted.Errno.{Errno, eagain, erestartsys, efault, enomem, Ret, done, fail}

pub record Rb : Type 0 where
  pub buf : List ℕ
  pub size : ℕ
  pub rp : ℕ
  pub wp : ℕ

-- `(size_t)(p - q)`
abbrev sub_size : ℕ → ℕ → ℕ
sub_size p q = (p + 2 ^ 64 - q) % 2 ^ 64

-- `if (p == end) p = buf`
abbrev wrap : Rb → ℕ → ℕ
wrap rb p = if p == rb.size then 0 else p

-- `kmalloc` gives `sz` bytes of any content, or nothing.
unfoldable pub init : Option (List ℕ) → ℕ → Option Rb
init none sz = none
init (some bytes) sz = some (record { buf = bytes; size = sz; rp = 0; wp = 0 })

-- The pointers of a ring that `init` made are not null.
unfoldable pub get_free_space : Rb → ℕ
get_free_space rb = if rb.rp == rb.wp then rb.size - 1 else (rb.rp + rb.size - rb.wp) % rb.size - 1

-- How many bytes the first `memcpy` takes, of `sz` that fit.
unfoldable write_len : Rb → ℕ → ℕ
write_len rb sz =
    if leb rb.rp rb.wp then min sz (sub_size rb.size rb.wp) else min sz (sub_size rb.rp (rb.wp + 1))

-- The second `memcpy`, after `n` of `sz` bytes went to the end of the buffer.
unfoldable write_rest : Rb → List ℕ → ℕ → ℕ → Rb × ℕ
write_rest rb src n sz =
    let temp = min (sz - n) (sub_size rb.rp (rb.wp + 1)) in
    if ltb n sz
    then (
      record rb { buf = put rb.buf rb.wp (take temp (drop n src)); wp = wrap rb (rb.wp + temp) },
      n + temp,
    )
    else (record rb { wp = wrap rb rb.wp }, n)

unfoldable pub write_bytes : Rb → List ℕ → ℕ → Rb × ℕ
unfolding write_len write_rest
write_bytes rb src sz =
    let n = write_len rb sz in
    let rb' = record rb { buf = put rb.buf rb.wp (take n src); wp = wrap rb (rb.wp + n) } in
    write_rest rb' src n sz

-- `esp_rb_write_by_kernel`. `interrupted` says that a signal ended `down_interruptible`.
unfoldable pub write_by_kernel : Bool → Rb → List ℕ → Rb × Ret
unfolding get_free_space write_bytes
write_by_kernel interrupted rb src =
    let (rb', n) = write_bytes rb src (min (length src) (get_free_space rb)) in
    if interrupted
    then (rb, fail erestartsys)
    else if get_free_space rb == 0
    then (rb, done 0)
    else (rb', done n)

-- What ends a sleep on the wait queue: a signal, or a writer's wake-up, after which the reader
-- finds the ring as others have left it, and takes the semaphore unless a signal comes.
pub data Wake : Type 0 where
  signalled : Wake
  woken : Rb → Bool → Wake

pub data Waited : Type 0 where
  ready : Rb → Waited
  failed : Errno → Rb → Waited
  blocked : Waited

-- The loop `while (rp == wp)`: it sleeps until data is there. Without a further wake-up the reader
-- stays blocked.
unfoldable pub read_wait : Bool → Rb → List Wake → Waited
read_wait block rb [] =
    if rb.rp == rb.wp then (if block then blocked else failed eagain rb) else ready rb
read_wait block rb (signalled ∷ ws) =
    if rb.rp == rb.wp then (if block then failed erestartsys rb else failed eagain rb) else ready rb
read_wait block rb (woken rb' interrupted ∷ ws) =
    let later = read_wait block rb' ws in
    if rb.rp == rb.wp
    then (if block
        then (if interrupted then failed erestartsys rb' else later)
        else failed eagain rb)
    else ready rb

unfoldable read_len : Rb → ℕ → ℕ
read_len rb sz =
    if ltb rb.rp rb.wp then min sz (sub_size rb.wp rb.rp) else min sz (sub_size rb.size rb.rp)

-- A finished read: what it returns, the bytes that reached the caller, and the ring.
pub record Read : Type 0 where
  pub ret : Ret
  pub out : List ℕ
  pub rb : Rb

-- From the second `copy_to_user` on, with `n` bytes `got` and `rp` moved past them. `ok2` says
-- that this copy succeeds.
unfoldable read_rest : Bool → Rb → List ℕ → ℕ → ℕ → Read
read_rest ok2 rb got n sz =
    let temp = min (sz - n) (sub_size rb.wp rb.rp) in
    if ltb n sz
    then (if ok2
        then record {
          ret = done (n + temp);
          out = got ++ seg rb.buf rb.rp (rb.rp + temp);
          rb = record rb { rp = rb.rp + temp };
        }
        else record { ret = fail efault; out = got; rb = rb })
    else record { ret = done n; out = got; rb = rb }

-- The part of `esp_rb_read_by_user` under the semaphore, with data to read.
unfoldable pub read_bytes : Bool → Bool → Rb → ℕ → Read
unfolding read_len read_rest
read_bytes ok1 ok2 rb sz =
    let n = read_len rb sz in
    if ok1
    then read_rest ok2 (record rb { rp = wrap rb (rb.rp + n) }) (seg rb.buf rb.rp (rb.rp + n)) n sz
    else record { ret = fail efault; out = []; rb = rb }

-- `esp_rb_read_by_user`; `none` means that it still sleeps.
unfoldable pub read_by_user : Bool → Bool → List Wake → Bool → Bool → Rb → ℕ → Option Read
unfolding read_wait read_bytes
read_by_user interrupted block wakes ok1 ok2 rb sz =
    if interrupted
    then some (record { ret = fail erestartsys; out = []; rb = rb })
    else elim (read_wait block rb wakes) [
      | ready rb' ↦ some (read_bytes ok1 ok2 rb' sz)
      | failed e rb' ↦ some (record { ret = fail e; out = []; rb = rb' })
      | blocked ↦ none
    ]
