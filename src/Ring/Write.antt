-- ===== src/Ring/Write.antt =====
-- What a write does to the bytes of a ring.
use esp_hosted.Prelude.{
  ℕ, ◌+◌, ◌-◌, ◌≤◌, ◌<◌, ◌≡◌, refl, ap, ◌∙◌, List, ◌++◌, append-nil, append_assoc, length, take,
  drop, put, seg, length-take, length-drop, length-put, seg_split, seg-put_self, seg-put_before,
  seg-put_after, take-add, arith,
}
use native.Mathlib.Decide.{dec_le, dec_lt}
use esp_hosted.Ring.{Rb, get_free_space, write_bytes}
use esp_hosted.Ring.Segments.{IsValid, contents, free_cases}

-- Bytes written just behind a segment extend it.
seg-put_extend :
    (b : List ℕ) (a i n : ℕ) (s : List ℕ)
    → a ≤ i
    → n ≡ i + length s
    → n ≤ length b
    → seg (put b i s) a n ≡ seg b a i ++ s
seg-put_extend b a i n s p e q =
    seg_split (put b i s) a i n p (omega arith)
    ∙ ap (λ t. t ++ seg (put b i s) i n) (seg-put_before b i a i s (omega arith))
    ∙ ap (λ t. seg b a i ++ t) (seg-put_self b i n s (omega arith) e)

module _ (rb : Rb) (src : List ℕ) (sz : ℕ) (v : IsValid rb) (has : sz ≤ length src) where
  len : (n : ℕ) → n ≤ length src → length (take n src) ≡ n
  len n h = omega (arith, length-take n src)

  -- The free bytes behind `wp` suffice.
  ahead :
      rb.rp ≤ rb.wp
      → rb.wp + sz < rb.size
      → write_bytes rb src sz
        ≡ (record rb { buf = put rb.buf rb.wp (take sz src); wp = rb.wp + sz }, sz)
  unfolding write_bytes
  ahead p q = ground arith

  -- They fill the buffer up to its end.
  to_end :
      rb.rp ≤ rb.wp
      → rb.wp + sz ≡ rb.size
      → write_bytes rb src sz ≡ (record rb { buf = put rb.buf rb.wp (take sz src); wp = 0 }, sz)
  unfolding write_bytes
  to_end p q = ground arith

  -- The write goes on at the start of the buffer.
  around :
      rb.rp ≤ rb.wp
      → rb.size < rb.wp + sz
      → sz + (rb.wp - rb.rp) < rb.size
      → let n = rb.size - rb.wp in
        write_bytes rb src sz ≡ (
          record rb {
            buf = put (put rb.buf rb.wp (take n src)) 0 (take (sz - n) (drop n src));
            wp = sz - n;
          },
          sz,
        )
  unfolding write_bytes
  around p q r = ground arith

  -- The free bytes lie between `wp` and `rp`.
  between :
      rb.wp < rb.rp
      → rb.wp + sz < rb.rp
      → write_bytes rb src sz
        ≡ (record rb { buf = put rb.buf rb.wp (take sz src); wp = rb.wp + sz }, sz)
  unfolding write_bytes
  between p q = ground arith

-- What a write of `sz` bytes that fit has done.
pub record Grew (rb : Rb) (src : List ℕ) (sz : ℕ) (out : Rb × ℕ) : Type 0 where
  pub valid : IsValid out.0
  pub same_size : out.0.size ≡ rb.size
  pub count : out.1 ≡ sz
  pub bytes : contents out.0 ≡ contents rb ++ take sz src

module _ (rb : Rb) (src : List ℕ) (sz : ℕ) (v : IsValid rb) (has : sz ≤ length src) where
  ahead-Grew : rb.rp ≤ rb.wp → rb.wp + sz < rb.size → Grew rb src sz (write_bytes rb src sz)
  ahead-Grew p q = rw (ahead rb src sz v has p q) (record {
    valid = ground (arith, length-put rb.buf rb.wp (take sz src));
    same_size = refl;
    count = refl;
    bytes = ground (
      arith,
      seg-put_extend rb.buf rb.rp rb.wp (rb.wp + sz) (take sz src),
      len rb src sz v has sz has,
    );
  })

  to_end-Grew :
      rb.rp ≤ rb.wp → 0 < rb.rp → rb.wp + sz ≡ rb.size → Grew rb src sz (write_bytes rb src sz)
  to_end-Grew p z q = rw (to_end rb src sz v has p q) (record {
    valid = ground (arith, length-put rb.buf rb.wp (take sz src));
    same_size = refl;
    count = refl;
    bytes = ground (
      arith,
      seg-put_extend rb.buf rb.rp rb.wp rb.size (take sz src),
      append-nil (seg (put rb.buf rb.wp (take sz src)) rb.rp rb.size),
      len rb src sz v has sz has,
    );
  })

  between-Grew : rb.wp < rb.rp → rb.wp + sz < rb.rp → Grew rb src sz (write_bytes rb src sz)
  between-Grew p q = rw (between rb src sz v has p q) (record {
    valid = ground (arith, length-put rb.buf rb.wp (take sz src));
    same_size = refl;
    count = refl;
    bytes = ground (
      arith,
      seg-put_extend rb.buf 0 rb.wp (rb.wp + sz) (take sz src),
      seg-put_after rb.buf rb.wp rb.rp rb.size (take sz src),
      append_assoc (seg rb.buf rb.rp rb.size) (seg rb.buf 0 rb.wp) (take sz src),
      len rb src sz v has sz has,
    );
  })

  around-Grew :
      rb.rp ≤ rb.wp
      → rb.size < rb.wp + sz
      → sz + (rb.wp - rb.rp) < rb.size
      → Grew rb src sz (write_bytes rb src sz)
  around-Grew p q r = rw (around rb src sz v has p q r) (record {
    valid = ground (arith, length-put b' 0 rest, length-put rb.buf rb.wp first);
    same_size = refl;
    count = refl;
    bytes = ground (
      arith,
      seg-put_extend rb.buf rb.rp rb.wp rb.size first,
      seg-put_extend b' 0 0 (sz - n) rest,
      seg-put_after b' 0 rb.rp rb.size rest,
      length-put rb.buf rb.wp first,
      len rb src sz v has n,
      length-take (sz - n) (drop n src),
      length-drop n src,
      append_assoc (seg rb.buf rb.rp rb.wp) first rest,
      take-add n (sz - n) src,
    );
  })
    where
      n : ℕ
      n = rb.size - rb.wp

      first : List ℕ
      first = take n src

      rest : List ℕ
      rest = take (sz - n) (drop n src)

      b' : List ℕ
      b' = put rb.buf rb.wp first

  -- Whatever fits is stored behind the bytes that are there.
  pub write_bytes-Grew : sz ≤ get_free_space rb → Grew rb src sz (write_bytes rb src sz)
  write_bytes-Grew fits = elim (dec_le rb.rp rb.wp) [
    | yes p ↦ elim (dec_lt (rb.wp + sz) rb.size) [
      | yes q ↦ ahead-Grew p q
      | no q ↦ elim (dec_lt rb.size (rb.wp + sz)) [
        | yes r ↦ around-Grew p r (ground (arith, free_cases rb v))
        | no r ↦ to_end-Grew p (ground (arith, free_cases rb v)) (omega arith)
      ]
    ]
    | no p ↦ between-Grew (omega arith) (ground (arith, free_cases rb v))
  ]
