-- ===== src/Fifo.antt =====
-- A queue of bytes of bounded capacity: what the ring buffer of esp_rb.c promises its users.
use esp_hosted.Prelude.{ℕ, ◌-◌, List, [], ◌∷◌, ◌++◌, length, take, drop, min}
use esp_hosted.Errno.{Ret, done, fail, eagain}

pub data Op : Type 0 where
  write : List ℕ → Op
  read : ℕ → Op

abbrev pub Reply : Type 0
Reply = Ret × List ℕ

module _ (cap : ℕ) where
  -- Of the bytes offered, those that fit are stored.
  abbrev pub push : List ℕ → List ℕ → List ℕ
  push q src = q ++ take (cap - length q) src

  abbrev pub push_ret : List ℕ → List ℕ → Ret
  push_ret q src = done (min (length src) (cap - length q))

-- The oldest bytes, at most `sz`; an empty queue has nothing to give yet.
abbrev pub pop_reply : List ℕ → ℕ → Reply
pop_reply [] sz = (fail eagain, [])
pop_reply (x ∷ q) sz = (done (min sz (length (x ∷ q))), take sz (x ∷ q))

-- A client's calls in order, and what each returns.
unfoldable pub run : ℕ → List ℕ → List Op → List Reply
run cap q [] = []
run cap q (write src ∷ ops) = (push_ret cap q src, []) ∷ run cap (push cap q src) ops
run cap q (read sz ∷ ops) = pop_reply q sz ∷ run cap (drop sz q) ops
