-- ===== src/Ring/Refine.antt =====
-- The ring buffer of esp_rb.c implements the bounded queue of `Fifo`.
use mathlib.Core.Path.{ap₂}
use esp_hosted.Prelude.{
  ℕ, ◌-◌, ◌≤◌, ◌<◌, ◌≡◌, ◌≢◌, refl, sym, ap, ◌∙◌, true, false, List, [], ◌∷◌, ◌++◌, Option, none,
  some, append-nil, length, length-append, min, take, drop, drop-nil, take_all, drop_all,
  take-length-append, drop-length-append, seg_empty, ◌==◌, Bool-cases, inl, inr, arith,
}
use native.Mathlib.Decide.{dec_le, ℕ_discrete}
use esp_hosted.Errno.{done, fail, eagain}
use esp_hosted.Fifo
use esp_hosted.Fifo.{Op, write, read, Reply}
use esp_hosted.Ring.{
  Rb, Read, get_free_space, write_bytes, write_by_kernel, read_bytes, read_by_user,
}
use esp_hosted.Ring.Segments.{IsValid, contents, length-contents, free-add-length}
use esp_hosted.Ring.Write.{Grew, write_bytes-Grew}
use esp_hosted.Ring.Take.{Took, read_bytes-Took}

take-min : (n : ℕ) (xs : List ℕ) → take (min (length xs) n) xs ≡ take n xs
take-min n xs = elim (dec_le (length xs) n) [
  | yes h ↦
      ap (λ k. take k xs) (min_left h)
      ∙ take_all (length xs) xs (omega arith)
      ∙ sym (take_all n xs h)
  | no h ↦ ap (λ k. take k xs) (min_right h)
]
  where
    min_left : length xs ≤ n → min (length xs) n ≡ length xs
    min_left p = omega arith

    min_right : ¬ (length xs ≤ n) → min (length xs) n ≡ n
    min_right p = omega arith

-- A write that is not interrupted stores the longest prefix that fits behind the bytes already
-- there, returns its length, and keeps the ring well formed.
pub write_refines :
    (rb : Rb) (src : List ℕ)
    → IsValid rb
    → let (rb', ret) = write_by_kernel false rb src in
      IsValid rb'
      × (rb'.size ≡ rb.size)
      × (contents rb' ≡ Fifo.push (rb.size - 1) (contents rb) src)
      × (ret ≡ Fifo.push_ret (rb.size - 1) (contents rb) src)
unfolding write_by_kernel
write_refines rb src v = elim (Bool-cases (get_free_space rb == 0)) [
  | inl full ↦ rw full (v, refl, no_room full, no_count full)
  | inr room ↦ rw room (g.valid, g.same_size, stored, counted)
]
  where
    free : get_free_space rb ≡ rb.size - 1 - length (contents rb)
    free = omega (arith, free-add-length rb v)

    g :
        Grew rb src
          (min (length src) (get_free_space rb))
          (write_bytes rb src (min (length src) (get_free_space rb)))
    g = write_bytes-Grew rb src (min (length src) (get_free_space rb)) v (omega arith) (omega arith)

    stored :
        contents (write_bytes rb src (min (length src) (get_free_space rb))).0
        ≡ Fifo.push (rb.size - 1) (contents rb) src
    stored = g.bytes ∙ ap (λ t. contents rb ++ t) (rw (← free) (take-min (get_free_space rb) src))

    counted :
        done (write_bytes rb src (min (length src) (get_free_space rb))).1
        ≡ Fifo.push_ret (rb.size - 1) (contents rb) src
    counted = ap done (rw (← free) g.count)

    zero_left : (get_free_space rb == 0) ≡ true → rb.size - 1 - length (contents rb) ≡ 0
    zero_left e = ground (arith, free)

    no_room :
        (get_free_space rb == 0) ≡ true → contents rb ≡ Fifo.push (rb.size - 1) (contents rb) src
    no_room e = rw (zero_left e, append-nil)

    no_count :
        (get_free_space rb == 0) ≡ true → done 0 ≡ Fifo.push_ret (rb.size - 1) (contents rb) src
    no_count e = ap done (omega (arith, zero_left e))

-- A prefix that has the length of `take` is `take`, and the rest is `drop`.
split_unique :
    (sz : ℕ) (q out rest : List ℕ)
    → q ≡ out ++ rest
    → length out ≡ min sz (length q)
    → (out ≡ take sz q) × (rest ≡ drop sz q)
split_unique sz q out rest e n = elim (dec_le (length q) sz) [
  | yes h ↦ (
    sym (append-nil out) ∙ ap (λ t. out ++ t) (sym (no_rest h)) ∙ sym e ∙ sym (take_all sz q h),
    no_rest h ∙ sym (drop_all sz q h),
  )
  | no h ↦ (
    sym (take-length-append out rest) ∙ ap₂ (λ k t. take k t) (exact h) (sym e),
    sym (drop-length-append out rest) ∙ ap₂ (λ k t. drop k t) (exact h) (sym e),
  )
]
  where
    exact : ¬ (length q ≤ sz) → length out ≡ sz
    exact h = omega arith

    nil_of : (l : List ℕ) → length l ≡ 0 → l ≡ []
    nil_of [] p = refl
    nil_of (x ∷ l) p = absurd (omega arith)

    no_rest : length q ≤ sz → rest ≡ []
    no_rest h = nil_of rest (omega (arith, ap (λ (t : List ℕ). length t) e, length-append out rest))

empty_iff : (rb : Rb) → IsValid rb → rb.rp ≡ rb.wp → contents rb ≡ []
empty_iff rb v e = ground (arith, seg_empty rb.buf rb.rp rb.wp)

pop_reply_cons :
    (q : List ℕ) (sz : ℕ)
    → 0 < length q
    → Fifo.pop_reply q sz ≡ (done (min sz (length q)), take sz q)
pop_reply_cons [] sz h = absurd (omega arith)
pop_reply_cons (x ∷ q) sz h = refl

-- The call that `read_refines` is about: no signal, `O_NONBLOCK`, no fault.
abbrev pub read_now : Rb → ℕ → Option Read
read_now rb sz = read_by_user false false [] true true rb sz

read_now_empty :
    (rb : Rb) (sz : ℕ)
    → rb.rp ≡ rb.wp
    → read_now rb sz ≡ some (record { ret = fail eagain; out = []; rb = rb })
unfolding read_by_user
read_now_empty rb sz e = ground arith

read_now_ready :
    (rb : Rb) (sz : ℕ) → rb.rp ≢ rb.wp → read_now rb sz ≡ some (read_bytes true true rb sz)
unfolding read_by_user
read_now_ready rb sz ne = ground arith

-- A read that does not block and meets no fault takes the oldest bytes out, at most as many as
-- asked for, and reports EAGAIN if there are none.
pub read_refines :
    (rb : Rb) (sz : ℕ)
    → IsValid rb
    → (r : Read) × (read_now rb sz ≡ some r)
      × IsValid r.rb
      × (r.rb.size ≡ rb.size)
      × (contents r.rb ≡ drop sz (contents rb))
      × ((r.ret, r.out) ≡ Fifo.pop_reply (contents rb) sz)
read_refines rb sz v = elim (ℕ_discrete rb.rp rb.wp) [
  | yes e ↦ (
    record { ret = fail eagain; out = []; rb = rb },
    read_now_empty rb sz e,
    v,
    refl,
    rw (empty_iff rb v e) (sym (drop-nil sz)),
    rw (empty_iff rb v e),
  )
  | no ne ↦ (
    read_bytes true true rb sz,
    read_now_ready rb sz ne,
    (took ne).valid,
    (took ne).same_size,
    (split ne).1,
    ap₂ (λ a b. (a, b)) ((took ne).ret ∙ ap done (took ne).count) (split ne).0
        ∙ sym (pop_reply_cons (contents rb) sz (ground (arith, length-contents rb v))),
  )
]
  where
    took : rb.rp ≢ rb.wp → Took rb sz (read_bytes true true rb sz)
    took ne = read_bytes-Took rb sz v ne

    split :
        rb.rp ≢ rb.wp
        → ((read_bytes true true rb sz).out ≡ take sz (contents rb))
          × (contents (read_bytes true true rb sz).rb ≡ drop sz (contents rb))
    split ne = split_unique sz (contents rb) _ _ (took ne).bytes (took ne).count

-- A client's calls on the ring, in order, and what each returns.
run_read : Option Read → (Rb → List Reply) → List Reply
run_read none k = []
run_read (some r) k = (r.ret, r.out) ∷ k r.rb

unfoldable pub run : Rb → List Op → List Reply
unfolding run_read
run rb [] = []
run rb (write src ∷ ops) = let (rb', ret) = write_by_kernel false rb src in (ret, []) ∷ run rb' ops
run rb (read sz ∷ ops) = run_read (read_now rb sz) (λ rb'. run rb' ops)

-- No sequence of writes that no signal interrupts and reads that do not block, with no signal and no
-- failing copy to the user, tells a well-formed ring of `size` bytes from a queue of capacity
-- `size - 1` that holds the same bytes.
pub run_refines :
    (ops : List Op) (rb : Rb) → IsValid rb → run rb ops ≡ Fifo.run (rb.size - 1) (contents rb) ops
unfolding run Fifo.run
run_refines [] rb v = refl
run_refines (write src ∷ ops) rb v =
    let (rb', ret) = write_by_kernel false rb src in
    let (v', size, bytes, count) = write_refines rb src v in
    ap₂ (λ a b. (a, []) ∷ b) count
      (run_refines ops rb' v' ∙ ap₂ (λ s q. Fifo.run (s - 1) q ops) size bytes)
run_refines (read sz ∷ ops) rb v =
    let (r, call, v', size, bytes, reply) = read_refines rb sz v in
    ap (λ o. run_read o (λ rb'. run rb' ops)) call
    ∙ ap₂ (λ a b. a ∷ b) reply
        (run_refines ops r.rb v' ∙ ap₂ (λ s q. Fifo.run (s - 1) q ops) size bytes)
