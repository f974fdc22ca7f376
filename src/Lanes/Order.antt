-- ===== src/Lanes/Order.antt =====
-- What the three queues promise: nothing is lost, a queue keeps its order, serial frames go first.
use esp_hosted.Prelude.{
  ℕ, zero, suc, ◌+◌, ◌≡◌, refl, ap, List, [], ◌∷◌, ◌++◌, none, some, length, length-append, arith,
}
use esp_hosted.Lanes.{Lanes, enqueue, dequeue, size}

module _ {ℓ} {A : Type ℓ} where
  pub size-enqueue : (t : ℕ) (a : A) (q : Lanes A) → size (enqueue t a q) ≡ suc (size q)
  unfolding enqueue
  size-enqueue t a q = ground (
    arith,
    length-append q.serial (a ∷ []),
    length-append q.bt (a ∷ []),
    length-append q.others (a ∷ []),
  )

  -- Taking from the queues until they are empty, or `fuel` times.
  abbrev pub drain : ℕ → Lanes A → List A
  drain zero q = []
  drain (suc fuel) q = elim (dequeue q) [ none ↦ [] | some (a, q') ↦ a ∷ drain fuel q' ]

  drain_lists :
      (n : ℕ) (s b o : List A)
      → n ≡ length s + length b + length o
      → drain n (record { serial = s; bt = b; others = o }) ≡ s ++ b ++ o
  unfolding dequeue
  drain_lists zero [] [] [] h = refl
  drain_lists zero [] [] (x ∷ o) h = ground arith
  drain_lists zero [] (x ∷ b) o h = ground arith
  drain_lists zero (x ∷ s) b o h = ground arith
  drain_lists (suc n) [] [] [] h = ground arith
  drain_lists (suc n) [] [] (x ∷ o) h = ap (◌∷◌ x) (drain_lists n [] [] o (omega arith))
  drain_lists (suc n) [] (x ∷ b) o h = ap (◌∷◌ x) (drain_lists n [] b o (omega arith))
  drain_lists (suc n) (x ∷ s) b o h = ap (◌∷◌ x) (drain_lists n s b o (omega arith))

  -- As many takes as elements wait give all of them: the serial frames first, then the frames of
  -- the Bluetooth controller, then the others, each queue in the order it was filled.
  pub drain-size : (q : Lanes A) → drain (size q) q ≡ q.serial ++ q.bt ++ q.others
  drain-size q = drain_lists (size q) q.serial q.bt q.others refl

  -- A take removes one element.
  pub size-dequeue : (q q' : Lanes A) (a : A) → dequeue q ≡ some (a, q') → size q ≡ suc (size q')
  unfolding dequeue
  size-dequeue q q' a h = ground (arith, h)

  pub dequeue-none : (q : Lanes A) → dequeue q ≡ none → size q ≡ 0
  unfolding dequeue
  dequeue-none q h = ground (arith, h)
