-- ===== src/EspQueue/Chain.antt =====
-- What a linked list of esp_hosted_fg/host/components/src/esp_queue.c stands for: the addresses and
-- the data of its nodes, in order.
use esp_hosted.Prelude.{
  ℕ, ◌≡◌, ◌≢◌, refl, sym, ap, ◌∙◌, Bool, true, false, ◌||◌, List, [], ◌∷◌, ◌++◌, Option, none, some,
  ◌==◌, arith,
}
use esp_hosted.EspQueue.{null, QNode, Heap, store}

abbrev pub Cells : Type 0
Cells = List (ℕ × ℕ)

abbrev pub first_ptr : Cells → ℕ
first_ptr [] = null
first_ptr ((a, d) ∷ xs) = a

-- The address of the last of the nodes, of which the first is at `a`.
abbrev pub last_ptr : ℕ → Cells → ℕ
last_ptr a [] = a
last_ptr a ((b, d) ∷ xs) = last_ptr b xs

abbrev pub rear_ptr : Cells → ℕ
rear_ptr [] = null
rear_ptr ((a, d) ∷ xs) = last_ptr a xs

-- Whether an address is one of the list's.
abbrev pub has : ℕ → Cells → Bool
has p [] = false
has p ((a, d) ∷ xs) = (p == a) || has p xs

-- The heap holds the nodes at addresses that differ, each linked to the next, the last to NULL.
abbrev pub Holds : Heap → Cells → Type 0
Holds h [] = Unit
Holds h ((a, d) ∷ xs) =
    (a ≢ null)
    × (h a ≡ some (record { elem = d; next = first_ptr xs }))
    × (has a xs ≡ false)
    × Holds h xs

-- A store outside the list leaves it as it is.
pub Holds-store :
    (h : Heap) (p : ℕ) (c : Option QNode) (xs : Cells)
    → has p xs ≡ false
    → Holds h xs
    → Holds (store h p c) xs
unfolding store
Holds-store h p c [] n v = tt
Holds-store h p c ((a, d) ∷ xs) n v =
    (v.0, ground (arith, n, v.1), v.2, Holds-store h p c xs (ground (arith, n)) v.3)

-- An address that is not in use is not one of the list's.
pub Holds-has : (h : Heap) (p : ℕ) (xs : Cells) → h p ≡ none → Holds h xs → has p xs ≡ false
Holds-has h p [] n v = refl
Holds-has h p ((a, d) ∷ xs) n v = ground (arith, n, v.1, Holds-has h p xs n v.3)

pub has-last_ptr : (a d : ℕ) (xs : Cells) → has (last_ptr a xs) ((a, d) ∷ xs) ≡ true
has-last_ptr a d [] = ground arith
has-last_ptr a d ((b, e) ∷ xs) = ground (arith, has-last_ptr b e xs)

pub has-append : (q p d : ℕ) (xs : Cells) → has q (xs ++ ((p, d) ∷ [])) ≡ (has q xs || (q == p))
has-append q p d [] = ground arith
has-append q p d ((a, e) ∷ xs) = ground (arith, has-append q p d xs)

-- The last node is linked to NULL.
pub last_cell :
    (h : Heap) (a d : ℕ) (xs : Cells)
    → Holds h ((a, d) ∷ xs)
    → (e : ℕ) × (last_ptr a xs ≢ null)
      × (h (last_ptr a xs) ≡ some (record { elem = e; next = null }))
last_cell h a d [] v = (d, v.0, v.1)
last_cell h a d ((b, e) ∷ xs) v = last_cell h b e xs v.3

pub store_same : (h : Heap) (p : ℕ) (c : Option QNode) → store h p c p ≡ c
unfolding store
store_same h p c = ground arith

pub store_other : (h : Heap) (p q : ℕ) (c : Option QNode) → (q == p) ≡ false → store h p c q ≡ h q
unfolding store
store_other h p q c n = ground (arith, n)

same_elem :
    (d e m n : ℕ)
    → Path
        (Option QNode)
        (some (record { elem = d; next = m }))
        (some (record { elem = e; next = n }))
    → d ≡ e
same_elem d e m n p = ground (arith, p)

-- The last of the list is not a node with another one behind it.
not_last : (a b f : ℕ) (xs : Cells) → has a ((b, f) ∷ xs) ≡ false → (a == last_ptr b xs) ≡ false
not_last a b f [] n = ground (arith, n)
not_last a b f ((c, g) ∷ xs) n = not_last a c g xs (ground (arith, n))

apart :
    (a p b f d : ℕ) (xs : Cells)
    → has a ((b, f) ∷ xs) ≡ false
    → has p ((a, d) ∷ (b, f) ∷ xs) ≡ false
    → (has a ((b, f) ∷ xs) || (a == p)) ≡ false
apart a p b f d xs u w = rw u (not_same a p (has p ((b, f) ∷ xs)) w)
  where
    not_same : (a p : ℕ) (r : Bool) → ((p == a) || r) ≡ false → (a == p) ≡ false
    not_same a p r w = ground (arith, w)

-- A node linked behind the last one.
pub Holds-append :
    (h : Heap) (a d p e last : ℕ) (xs : Cells)
    → Holds h ((a, d) ∷ xs)
    → p ≢ null
    → has p ((a, d) ∷ xs) ≡ false
    → h p ≡ some (record { elem = e; next = null })
    → h (last_ptr a xs) ≡ some (record { elem = last; next = null })
    → Holds
        (store h (last_ptr a xs) (some (record { elem = last; next = p })))
        ((a, d) ∷ (xs ++ ((p, e) ∷ [])))
Holds-append h a d p e last [] v np fresh at_p at_last = (
  v.0,
  store_same h a (some (record { elem = last; next = p }))
      ∙ ap (λ k. some (record { elem = k; next = p }))
          (sym (same_elem d last null null (sym v.1 ∙ at_last))),
  ground (arith, fresh),
  (
    np,
    store_other h a p (some (record { elem = last; next = p })) (ground (arith, fresh)) ∙ at_p,
    refl,
    tt,
  ),
)
Holds-append h a d p e last ((b, f) ∷ xs) v np fresh at_p at_last = (
  v.0,
  store_other h (last_ptr b xs) a (some (record { elem = last; next = p })) (not_last a b f xs v.2)
      ∙ v.1,
  has-append a p e ((b, f) ∷ xs) ∙ apart a p b f d xs v.2 fresh,
  Holds-append h b f p e last xs v.3 np (ground (arith, fresh)) at_p at_last,
)
