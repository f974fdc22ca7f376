-- ===== src/EspQueue/Release.antt =====
-- esp_hosted_fg/host/components/src/esp_queue.c: what esp_queue_get and esp_queue_destroy free.
use esp_hosted.Prelude.{
  ℕ, zero, suc, ◌≡◌, ◌≢◌, refl, sym, ◌∙◌, [], ◌∷◌, none, some, ◌==◌, arith, length, if◌then◌else◌,
  ◌<◌,
}
use esp_hosted.EspQueue.{null, Heap, store, EspQueue, QState, esp_queue_get, destroy_loop}
use esp_hosted.EspQueue.Chain.{Cells, first_ptr, last_ptr, rear_ptr, has, Holds, Holds-store}
use esp_hosted.EspQueue.Refine.{Owns}

-- The frame after the first node was freed.
frame_less :
    (h0 h : Heap) (p d : ℕ) (xs : Cells)
    → ((a : ℕ) → h0 a ≡ (if has a ((p, d) ∷ xs) then none else h a))
    → (a : ℕ) → h0 a ≡ (if has a xs then none else store h p none a)
unfolding store
frame_less h0 h p d xs f a = ground (arith, f a)

if_not_null : (x y z : ℕ) → x ≢ null → (if x == null then y else z) ≡ z
if_not_null x y z n = ground (arith, n)

-- A get of an empty queue reports NULL and changes nothing.
pub get_empty : (h0 : Heap) (s : QState) → Owns h0 s [] → esp_queue_get s ≡ some (null, s)
unfolding esp_queue_get
get_empty h0 (q, h) o = ground (arith, o.front)

get_step :
    (q : EspQueue) (h : Heap) (d n : ℕ)
    → q.front ≢ null
    → h q.front ≡ some (record { elem = d; next = n })
    → esp_queue_get (q, h)
      ≡ some (
        d,
        (record { front = n; rear = if n == null then null else q.rear }, store h q.front none),
      )
unfolding esp_queue_get store
get_step q h d n f e = ground (arith, f, e)

-- A get of a queue that holds something hands out the oldest data and frees its node.
pub get-Owns :
    (h0 : Heap) (a d : ℕ) (xs : Cells) (s : QState)
    → Owns h0 s ((a, d) ∷ xs)
    → (s' : QState) × (esp_queue_get s ≡ some (d, s')) × Owns h0 s' xs
get-Owns h0 a d xs (q, h) o = (
  (
    record { front = first_ptr xs; rear = if first_ptr xs == null then null else q.rear },
    store h q.front none,
  ),
  get_step q h d (first_ptr xs) (rw o.front (o.cells.0)) (rw o.front (o.cells.1)),
  rw o.front (record {
    front = refl;
    rear = rear_of xs o.rear o.cells.3;
    cells = Holds-store h a none xs o.cells.2 o.cells.3;
    frame = frame_less h0 h a d xs o.frame;
  }),
)
  where
    rear_of :
        (ys : Cells)
        → q.rear ≡ last_ptr a ys
        → Holds h ys
        → (if first_ptr ys == null then null else q.rear) ≡ rear_ptr ys
    rear_of [] e v = refl
    rear_of ((b, f) ∷ ys) e v = if_not_null b null q.rear v.0 ∙ e

destroy_step :
    (fuel : ℕ) (q : EspQueue) (h : Heap) (d n : ℕ)
    → q.front ≢ null
    → h q.front ≡ some (record { elem = d; next = n })
    → destroy_loop (suc fuel) (q, h)
      ≡ destroy_loop fuel (record q { front = n }, store h q.front none)
unfolding destroy_loop
destroy_step fuel q h d n f e = ground (arith, f, e)

destroy_end :
    (fuel : ℕ) (q : EspQueue) (h : Heap) → q.front ≡ null → destroy_loop (suc fuel) (q, h) ≡ some h
unfolding destroy_loop
destroy_end fuel q h e = rw e refl

-- The loop of `esp_queue_destroy` ends after one round for each node, and leaves the heap as it was
-- before the queue got its nodes.
pub destroy_loop-frame :
    (h0 : Heap) (fuel : ℕ) (xs : Cells) (q : EspQueue) (h : Heap)
    → q.front ≡ first_ptr xs
    → Holds h xs
    → ((a : ℕ) → h0 a ≡ (if has a xs then none else h a))
    → length xs < fuel
    → (h' : Heap) × (destroy_loop fuel (q, h) ≡ some h') × ((a : ℕ) → h' a ≡ h0 a)
destroy_loop-frame h0 zero xs q h o v f l = absurd (omega (arith, l))
destroy_loop-frame h0 (suc fuel) [] q h o v f l = (h, destroy_end fuel q h o, λ a. sym (f a))
destroy_loop-frame h0 (suc fuel) ((a, d) ∷ xs) q h o v f l =
    let r =
      destroy_loop-frame h0 fuel xs (record q { front = first_ptr xs }) (store h a none) refl
        (Holds-store h a none xs v.2 v.3) (frame_less h0 h a d xs f) (omega (arith, l)) in
    (r.0, destroy_step fuel q h d (first_ptr xs) (rw o (v.0)) (rw o (v.1)) ∙ rw o (r.1), r.2)
