-- ===== src/Ring/Take.antt =====
-- What a read does to the bytes of a ring.
use esp_hosted.Prelude.{
  ℕ, ◌+◌, ◌-◌, ◌≤◌, ◌<◌, ◌≡◌, ◌≢◌, refl, true, [], ◌++◌, append-nil, append_assoc, length,
  length-append, min, seg, length-seg, seg_split, seg_empty, arith,
}
use native.Mathlib.Decide.{dec_le, dec_lt}
use esp_hosted.Errno.{done}
use esp_hosted.Ring.{Rb, Read, read_bytes}
use esp_hosted.Ring.Segments.{IsValid, contents, length-contents}

-- What a read of at most `sz` bytes has done: the oldest bytes went out, in order, and the rest
-- is still there.
pub record Took (rb : Rb) (sz : ℕ) (r : Read) : Type 0 where
  pub valid : IsValid r.rb
  pub same_size : r.rb.size ≡ rb.size
  pub ret : r.ret ≡ done (length r.out)
  pub count : length r.out ≡ min sz (length (contents rb))
  pub bytes : contents rb ≡ r.out ++ contents r.rb

module _ (rb : Rb) (sz : ℕ) (v : IsValid rb) where
  part :
      rb.rp < rb.wp
      → sz ≤ rb.wp - rb.rp
      → read_bytes true true rb sz ≡ record {
        ret = done sz;
        out = seg rb.buf rb.rp (rb.rp + sz);
        rb = record rb { rp = rb.rp + sz };
      }
  unfolding read_bytes
  part p q = ground arith

  whole :
      rb.rp < rb.wp
      → rb.wp - rb.rp < sz
      → read_bytes true true rb sz ≡ record {
        ret = done (rb.wp - rb.rp);
        out = seg rb.buf rb.rp rb.wp ++ [];
        rb = record rb { rp = rb.wp };
      }
  unfolding read_bytes
  whole p q = ground (arith, seg_empty rb.buf rb.wp rb.wp)

  below_end :
      rb.wp < rb.rp
      → rb.rp + sz < rb.size
      → read_bytes true true rb sz ≡ record {
        ret = done sz;
        out = seg rb.buf rb.rp (rb.rp + sz);
        rb = record rb { rp = rb.rp + sz };
      }
  unfolding read_bytes
  below_end p q = ground arith

  past_end :
      rb.wp < rb.rp
      → rb.size ≤ rb.rp + sz
      → let t = min (sz - (rb.size - rb.rp)) rb.wp in
        read_bytes true true rb sz ≡ record {
          ret = done (rb.size - rb.rp + t);
          out = seg rb.buf rb.rp rb.size ++ seg rb.buf 0 t;
          rb = record rb { rp = t };
        }
  unfolding read_bytes
  past_end p q = ground (arith, append-nil (seg rb.buf rb.rp rb.size), seg_empty rb.buf 0 0)

module _ (rb : Rb) (sz : ℕ) (v : IsValid rb) where
  part-Took : rb.rp < rb.wp → sz ≤ rb.wp - rb.rp → Took rb sz (read_bytes true true rb sz)
  part-Took p q = rw (part rb sz v p q) (record {
    valid = ground arith;
    same_size = refl;
    ret = ground (arith, length-seg rb.buf rb.rp (rb.rp + sz));
    count = ground (arith, length-seg rb.buf rb.rp (rb.rp + sz), length-contents rb v);
    bytes = ground (arith, seg_split rb.buf rb.rp (rb.rp + sz) rb.wp);
  })

  whole-Took : rb.rp < rb.wp → rb.wp - rb.rp < sz → Took rb sz (read_bytes true true rb sz)
  whole-Took p q =
      rw (whole rb sz v p q, append-nil)
        (record {
          valid = ground arith;
          same_size = refl;
          ret = ground (arith, length-seg rb.buf rb.rp rb.wp);
          count = ground (arith, length-seg rb.buf rb.rp rb.wp, length-contents rb v);
          bytes = ground (arith, seg_empty rb.buf rb.wp rb.wp, append-nil (seg rb.buf rb.rp rb.wp));
        })

  below_end-Took : rb.wp < rb.rp → rb.rp + sz < rb.size → Took rb sz (read_bytes true true rb sz)
  below_end-Took p q = rw (below_end rb sz v p q) (record {
    valid = ground arith;
    same_size = refl;
    ret = ground (arith, length-seg rb.buf rb.rp (rb.rp + sz));
    count = ground (arith, length-seg rb.buf rb.rp (rb.rp + sz), length-contents rb v);
    bytes = ground (
      arith,
      seg_split rb.buf rb.rp (rb.rp + sz) rb.size,
      append_assoc (seg rb.buf rb.rp (rb.rp + sz)) (seg rb.buf (rb.rp + sz) rb.size)
          (seg rb.buf 0 rb.wp),
    );
  })

  past_end-Took : rb.wp < rb.rp → rb.size ≤ rb.rp + sz → Took rb sz (read_bytes true true rb sz)
  past_end-Took p q = rw (past_end rb sz v p q) (record {
    valid = ground arith;
    same_size = refl;
    ret = ground (arith, out_length);
    count = ground (arith, out_length, length-contents rb v);
    bytes = ground (
      arith,
      seg_split rb.buf 0 t rb.wp,
      append_assoc (seg rb.buf rb.rp rb.size) (seg rb.buf 0 t) (seg rb.buf t rb.wp),
    );
  })
    where
      t : ℕ
      t = min (sz - (rb.size - rb.rp)) rb.wp

      out_length : length (seg rb.buf rb.rp rb.size ++ seg rb.buf 0 t) ≡ rb.size - rb.rp + t
      out_length = omega (
        arith,
        length-append (seg rb.buf rb.rp rb.size) (seg rb.buf 0 t),
        length-seg rb.buf rb.rp rb.size (omega arith),
        length-seg rb.buf 0 t (omega arith),
      )

  -- A read without faults takes the oldest bytes.
  pub read_bytes-Took : rb.rp ≢ rb.wp → Took rb sz (read_bytes true true rb sz)
  read_bytes-Took ne = elim (dec_lt rb.rp rb.wp) [
    | yes p ↦ elim (dec_le sz (rb.wp - rb.rp)) [
      | yes q ↦ part-Took p q
      | no q ↦ whole-Took p (omega arith)
    ]
    | no p ↦ elim (dec_lt (rb.rp + sz) rb.size) [
      | yes q ↦ below_end-Took (omega arith) q
      | no q ↦ past_end-Took (omega arith) (omega arith)
    ]
  ]
