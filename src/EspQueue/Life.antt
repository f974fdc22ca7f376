-- ===== src/EspQueue/Life.antt =====
-- A life of the queue of esp_hosted_fg/host/components/src/esp_queue.c, from `create_esp_queue` to
-- `esp_queue_destroy`, against a first-in first-out list.
use esp_hosted.Prelude.{
  ℕ, suc, ◌≡◌, ◌≢◌, refl, sym, ap, ◌∙◌, List, [], ◌∷◌, ◌++◌, Option, none, some, ◌==◌, arith,
  length, if◌then◌else◌,
}
use esp_hosted.EspQueue.{
  null, Heap, QState, create_esp_queue, QueueRet, queue_success, queue_err_memory, esp_queue_put,
  esp_queue_get, destroy_loop,
}
use esp_hosted.EspQueue.Chain.{Cells}
use esp_hosted.EspQueue.Refine.{Owns, create-Owns, put-Owns}
use esp_hosted.EspQueue.Release.{get-Owns, get_empty, destroy_loop-frame}

pub data Op : Type 0 where
  put : ℕ → Op
  get : Op

pub data Reply : Type 0 where
  did : QueueRet → Reply
  got : ℕ → Reply

-- What `malloc` promises: an address that is not NULL and not in use.
abbrev pub IsMalloc : (Heap → Option ℕ) → Type 0
IsMalloc malloc = (h : Heap) (p : ℕ) → malloc h ≡ some p → (p ≢ null) × (h p ≡ none)

abbrev pub reply_put : Option (QueueRet × QState) → Option (Reply × QState)
reply_put none = none
reply_put (some (r, s)) = some (did r, s)

abbrev pub reply_get : Option (ℕ × QState) → Option (Reply × QState)
reply_get none = none
reply_get (some (d, s)) = some (got d, s)

abbrev pub step : (Heap → Option ℕ) → Op → QState → Option (Reply × QState)
step malloc (put d) s = reply_put (esp_queue_put (malloc s.1) d s)
step malloc get s = reply_get (esp_queue_get s)

abbrev pub cons_reply : Reply → Option (List Reply × QState) → Option (List Reply × QState)
cons_reply r none = none
cons_reply r (some (rs, s)) = some (r ∷ rs, s)

abbrev pub and_then :
    Option (Reply × QState) → (QState → Option (List Reply × QState)) → Option (List Reply × QState)
and_then none k = none
and_then (some (r, s)) k = cons_reply r (k s)

-- The calls one after another; none is a fault.
abbrev pub serve : (Heap → Option ℕ) → List Op → QState → Option (List Reply × QState)
serve malloc [] s = some ([], s)
serve malloc (op ∷ ops) s = and_then (step malloc op s) (serve malloc ops)

-- Whether a list replays a call so, and what it holds afterwards: a put is done or fails for want of
-- memory, a get hands out the oldest element, or NULL if there is none.
abbrev pub answer : Op → Reply → List ℕ → Option (List ℕ)
answer (put d) (did queue_success) xs = some (xs ++ (d ∷ []))
answer (put d) (did queue_err_memory) xs = some xs
answer (put d) (got v) xs = none
answer get (did r) xs = none
answer get (got v) [] = if v == null then some [] else none
answer get (got v) (x ∷ xs) = if v == x then some xs else none

abbrev pub and_answer : Option (List ℕ) → (List ℕ → Option (List ℕ)) → Option (List ℕ)
and_answer none k = none
and_answer (some xs) k = k xs

abbrev pub replays : List Op → List Reply → List ℕ → Option (List ℕ)
replays [] [] xs = some xs
replays [] (r ∷ rs) xs = none
replays (op ∷ ops) [] xs = none
replays (op ∷ ops) (r ∷ rs) xs = and_answer (answer op r xs) (replays ops rs)

abbrev elems : Cells → List ℕ
elems [] = []
elems ((a, d) ∷ xs) = d ∷ elems xs

elems-append : (p d : ℕ) (xs : Cells) → elems (xs ++ ((p, d) ∷ [])) ≡ elems xs ++ (d ∷ [])
elems-append p d [] = refl
elems-append p d ((a, e) ∷ xs) = ap (λ t. e ∷ t) (elems-append p d xs)

length-elems : (xs : Cells) → length (elems xs) ≡ length xs
length-elems [] = refl
length-elems ((a, e) ∷ xs) = ap suc (length-elems xs)

put_none :
    (d : ℕ) (s : QState) → reply_put (esp_queue_put none d s) ≡ some (did queue_err_memory, s)
unfolding esp_queue_put
put_none d s = refl

Stepped : Heap → (Heap → Option ℕ) → Op → QState → Cells → Type 0
Stepped h0 malloc op s xs =
    (r : Reply) × (s' : QState) × (ys : Cells) × (step malloc op s ≡ some (r, s'))
    × (answer op r (elems xs) ≡ some (elems ys))
    × Owns h0 s' ys

put_step :
    (h0 : Heap) (malloc : Heap → Option ℕ) (d : ℕ) (s : QState) (xs : Cells) (p : Option ℕ)
    → IsMalloc malloc
    → Owns h0 s xs
    → malloc s.1 ≡ p
    → Stepped h0 malloc (put d) s xs
unfolding Stepped
put_step h0 malloc d s xs none m o e = (
  did queue_err_memory,
  s,
  xs,
  ap (λ t. reply_put (esp_queue_put t d s)) e ∙ put_none d s,
  refl,
  o,
)
put_step h0 malloc d s xs (some p) m o e =
    let f = m s.1 p e in
    let w = put-Owns h0 p d xs s o f.0 f.1 in
    (
      did queue_success,
      w.0,
      xs ++ ((p, d) ∷ []),
      ap (λ t. reply_put (esp_queue_put t d s)) e ∙ ap reply_put w.1,
      ap some (sym (elems-append p d xs)),
      w.2,
    )

get_step :
    (h0 : Heap) (malloc : Heap → Option ℕ) (s : QState) (xs : Cells)
    → Owns h0 s xs
    → Stepped h0 malloc get s xs
unfolding Stepped
get_step h0 malloc s [] o = (got null, s, [], ap reply_get (get_empty h0 s o), refl, o)
get_step h0 malloc s ((a, d) ∷ xs) o =
    let w = get-Owns h0 a d xs s o in
    (got d, w.0, xs, ap reply_get w.1, same d (some (elems xs)) none, w.2)
  where
    same : (d : ℕ) (x y : Option (List ℕ)) → (if d == d then x else y) ≡ x
    same d x y = ground arith

step-Owns :
    (h0 : Heap) (malloc : Heap → Option ℕ) (op : Op) (s : QState) (xs : Cells)
    → IsMalloc malloc
    → Owns h0 s xs
    → Stepped h0 malloc op s xs
step-Owns h0 malloc (put d) s xs m o = put_step h0 malloc d s xs (malloc s.1) m o refl
step-Owns h0 malloc get s xs m o = get_step h0 malloc s xs o

-- The calls on a queue that owns its nodes.
serve-Owns :
    (h0 : Heap) (malloc : Heap → Option ℕ) (ops : List Op) (s : QState) (xs : Cells)
    → IsMalloc malloc
    → Owns h0 s xs
    → (rs : List Reply) × (s' : QState) × (ys : Cells) × (serve malloc ops s ≡ some (rs, s'))
      × (replays ops rs (elems xs) ≡ some (elems ys))
      × Owns h0 s' ys
unfolding Stepped
serve-Owns h0 malloc [] s xs m o = ([], s, xs, refl, refl, o)
serve-Owns h0 malloc (op ∷ ops) s xs m o =
    let a = step-Owns h0 malloc op s xs m o in
    let b = serve-Owns h0 malloc ops a.1 a.2 m a.5 in
    (
      a.0 ∷ b.0,
      b.1,
      b.2,
      ap (λ t. and_then t (serve malloc ops)) a.3 ∙ ap (cons_reply a.0) b.3,
      ap (λ t. and_answer t (replays ops b.0)) a.4 ∙ b.4,
      b.5,
    )

-- From its creation on, the queue replays every sequence of puts and gets as a first-in first-out
-- list does, whether or not `malloc` finds memory, without an access to an address that is not a
-- node, provided `malloc` hands out addresses that are not NULL and not in use; and the loop that
-- destroys it ends after one round for each element left, with the heap as it was before.
pub serve_then_destroy :
    (malloc : Heap → Option ℕ) (ops : List Op) (h : Heap)
    → IsMalloc malloc
    → (rs : List Reply) × (s : QState) × (xs : List ℕ) × (h' : Heap) × (serve malloc ops
          (create_esp_queue, h)
        ≡ some (rs, s))
      × (replays ops rs [] ≡ some xs)
      × (destroy_loop (suc (length xs)) s ≡ some h')
      × ((a : ℕ) → h' a ≡ h a)
serve_then_destroy malloc ops h m =
    let b = serve-Owns h malloc ops (create_esp_queue, h) [] m (create-Owns h) in
    let o = b.5 in
    let d =
      destroy_loop-frame h (suc (length (elems b.2))) b.2 b.1.0 b.1.1 o.front o.cells o.frame
        (omega (arith, length-elems b.2)) in
    (b.0, b.1, elems b.2, d.0, b.3, b.4, d.1, d.2)
