-- ===== src/EspQueue/Refine.antt =====
-- esp_hosted_fg/host/components/src/esp_queue.c as the owner of its nodes, and what a put adds.
use esp_hosted.Prelude.{
  ℕ, ◌≡◌, ◌≢◌, refl, sym, ap, ◌∙◌, Bool, true, false, ◌||◌, [], ◌∷◌, ◌++◌, none, some, ◌==◌, arith,
  if◌then◌else◌,
}
use native.Mathlib.Decide.{ℕ_discrete}
use esp_hosted.EspQueue.{
  null, Heap, store, EspQueue, QState, create_esp_queue, queue_success, esp_queue_put,
}
use esp_hosted.EspQueue.Chain.{
  Cells, first_ptr, last_ptr, rear_ptr, has, Holds, Holds-store, Holds-has, Holds-append, last_cell,
  has-last_ptr, has-append, store_same, store_other,
}

-- The queue holds the cells, and the heap is `h0` with the queue's nodes added.
pub record Owns (h0 : Heap) (s : QState) (xs : Cells) : Type 0 where
  pub front : s.0.front ≡ first_ptr xs
  pub rear : s.0.rear ≡ rear_ptr xs
  pub cells : Holds s.1 xs
  pub frame : (a : ℕ) → h0 a ≡ (if has a xs then none else s.1 a)

pub create-Owns : (h : Heap) → Owns h (create_esp_queue, h) []
create-Owns h = record { front = refl; rear = refl; cells = tt; frame = λ a. refl }

-- The frame after an address that was free got into the list.
frame_more :
    (h0 h h' : Heap) (p : ℕ) (b c : ℕ → Bool)
    → ((a : ℕ) → h0 a ≡ (if b a then none else h a))
    → ((a : ℕ) → c a ≡ (b a || (a == p)))
    → h p ≡ none
    → ((a : ℕ) → c a ≡ false → h' a ≡ h a)
    → (a : ℕ) → h0 a ≡ (if c a then none else h' a)
frame_more h0 h h' p b c f more free same a = elim (ℕ_discrete a p) [
  | yes e ↦ ground (arith, e, f a, more a, ap h e, free)
  | no e ↦ ground (arith, e, f a, more a, same a)
]

rear-append : (a d p e : ℕ) (xs : Cells) → last_ptr a (xs ++ ((p, e) ∷ [])) ≡ p
rear-append a d p e [] = refl
rear-append a d p e ((b, f) ∷ xs) = rear-append b f p e xs

-- The state after a put.
abbrev Queued : Heap → ℕ → ℕ → QState → Cells → Type 0
Queued h0 p d s xs =
    (s' : QState) × (esp_queue_put (some p) d s ≡ some (queue_success, s'))
    × Owns h0 s' (xs ++ ((p, d) ∷ []))

unequal : (x y : ℕ) → x ≢ y → (x == y) ≡ false
unequal x y n = ground (arith, n)

-- The heap with the new node.
abbrev with_node : Heap → ℕ → ℕ → Heap
with_node h p d = store h p (some (record { elem = d; next = null }))

put_first :
    (h0 : Heap) (p d : ℕ) (s : QState) → Owns h0 s [] → p ≢ null → s.1 p ≡ none → Queued h0 p d s []
unfolding esp_queue_put
put_first h0 p d (q, h) o np fresh = (
  (record { front = p; rear = p }, with_node h p d),
  ground (arith, o.rear),
  record {
    front = refl;
    rear = refl;
    cells = (np, store_same h p (some (record { elem = d; next = null })), refl, tt);
    frame =
        frame_more h0 h (with_node h p d) p (λ a. false) (λ a. has a ((p, d) ∷ [])) o.frame
          (λ a. has-append a p d []) fresh not_p;
  },
)
  where
    not_p : (a : ℕ) → has a ((p, d) ∷ []) ≡ false → with_node h p d a ≡ h a
    not_p a n = store_other h p a (some (record { elem = d; next = null })) (ground (arith, n))

put_step :
    (q : EspQueue) (h : Heap) (p d last : ℕ)
    → q.rear ≢ null
    → (q.rear == p) ≡ false
    → h q.rear ≡ some (record { elem = last; next = null })
    → esp_queue_put (some p) d (q, h)
      ≡ some (
        queue_success,
        (
          record q { rear = p },
          store
              (store h p (some (record { elem = d; next = null })))
              q.rear
              (some (record { elem = last; next = p })),
        ),
      )
unfolding esp_queue_put store
put_step q h p d last n ne at_last = ground (arith, n, ne, at_last)

linked :
    (h0 : Heap) (p d a e last : ℕ) (xs : Cells) (s : QState)
    → Owns h0 s ((a, e) ∷ xs)
    → p ≢ null
    → s.1 p ≡ none
    → has p ((a, e) ∷ xs) ≡ false
    → (last_ptr a xs == p) ≡ false
    → s.1 (last_ptr a xs) ≡ some (record { elem = last; next = null })
    → Owns h0
        (
          record (s.0) { rear = p },
          store (with_node s.1 p d) (last_ptr a xs) (some (record { elem = last; next = p })),
        )
        ((a, e) ∷ (xs ++ ((p, d) ∷ [])))
linked h0 p d a e last xs s o np fresh out ne at_last = record {
  front = o.front;
  rear = sym (rear-append a d p d xs);
  cells =
      Holds-append (with_node s.1 p d) a e p d last xs
        (Holds-store s.1 p (some (record { elem = d; next = null })) ((a, e) ∷ xs) out o.cells) np
        out (store_same s.1 p (some (record { elem = d; next = null })))
        (store_other s.1 p (last_ptr a xs) (some (record { elem = d; next = null })) ne ∙ at_last);
  frame =
      frame_more h0 s.1
        (store (with_node s.1 p d) (last_ptr a xs) (some (record { elem = last; next = p }))) p
        (λ b. has b ((a, e) ∷ xs)) (λ b. has b ((a, e) ∷ (xs ++ ((p, d) ∷ [])))) o.frame
        (λ b. has-append b p d ((a, e) ∷ xs)) fresh same;
}
  where
    cases : (x y : Bool) → (x || y) ≡ false → (x ≡ false) × (y ≡ false)
    cases true y n = absurd (ground (arith, n))
    cases false y n = (refl, n)

    clash : (x : Bool) → x ≡ true → ¬ (x ≡ false)
    clash x p q = ground (arith, p, q)

    not_last_ptr : (b : ℕ) → has b ((a, e) ∷ xs) ≡ false → (b == last_ptr a xs) ≡ false
    not_last_ptr b n = elim (ℕ_discrete b (last_ptr a xs)) [
      | yes q ↦
          absurd
            (clash (has b ((a, e) ∷ xs)) (ap (λ t. has t ((a, e) ∷ xs)) q ∙ has-last_ptr a e xs) n)
      | no q ↦ unequal b (last_ptr a xs) q
    ]

    same :
        (b : ℕ)
        → has b ((a, e) ∷ (xs ++ ((p, d) ∷ []))) ≡ false
        → store (with_node s.1 p d) (last_ptr a xs) (some (record { elem = last; next = p })) b
          ≡ s.1 b
    same b n =
        let w = cases (has b ((a, e) ∷ xs)) (b == p) (sym (has-append b p d ((a, e) ∷ xs)) ∙ n) in
        store_other (with_node s.1 p d) (last_ptr a xs) b (some (record { elem = last; next = p }))
          (not_last_ptr b w.0)
        ∙ store_other s.1 p b (some (record { elem = d; next = null })) w.1

put_behind :
    (h0 : Heap) (p d a e : ℕ) (xs : Cells) (s : QState)
    → Owns h0 s ((a, e) ∷ xs)
    → p ≢ null
    → s.1 p ≡ none
    → Queued h0 p d s ((a, e) ∷ xs)
put_behind h0 p d a e xs (q, h) o np fresh =
    let c = last_cell h a e xs o.cells in
    (
      (
        record q { rear = p },
        store (with_node h p d) q.rear (some (record { elem = c.0; next = p })),
      ),
      put_step q h p d c.0 (rw o.rear (c.1)) (rw o.rear apart_rear) (rw o.rear (c.2)),
      rw o.rear (linked h0 p d a e c.0 xs (q, h) o np fresh out apart_rear c.2),
    )
  where
    out : has p ((a, e) ∷ xs) ≡ false
    out = Holds-has h p ((a, e) ∷ xs) fresh o.cells

    apart : (a e : ℕ) (xs : Cells) → has p ((a, e) ∷ xs) ≡ false → (last_ptr a xs == p) ≡ false
    apart a e [] n = ground (arith, n)
    apart a e ((b, f) ∷ xs) n = apart b f xs (ground (arith, n))

    apart_rear : (last_ptr a xs == p) ≡ false
    apart_rear = apart a e xs out

-- A put of a node that the heap did not hold puts the data behind the others.
pub put-Owns :
    (h0 : Heap) (p d : ℕ) (xs : Cells) (s : QState)
    → Owns h0 s xs
    → p ≢ null
    → s.1 p ≡ none
    → Queued h0 p d s xs
put-Owns h0 p d [] s o np fresh = put_first h0 p d s o np fresh
put-Owns h0 p d ((a, e) ∷ xs) s o np fresh = put_behind h0 p d a e xs s o np fresh
