-- ===== src/Util/MinHeap/Order.antt =====
-- min_heap.h: the order that the heap keeps, and the block that it owns.
use april_ann.Prelude.{ℕ, zero, suc, ◌≤◌, ◌<◌, ◌≡◌, Bool, true, false, arith, Bool-cases, inl, inr}
use april_ann.Util.MinHeap.{MinHeap, parent}

-- What `CmpLess` is relied on for: a strict weak order.
pub record IsWeakOrder {T : Type 0} (cmpless : T → T → Bool) : Type 0 where
  pub asymm : (a b : T) → cmpless a b ≡ true → cmpless b a ≡ false
  pub trans : (a b c : T) → cmpless b a ≡ false → cmpless c b ≡ false → cmpless c a ≡ false

module _ {T : Type 0} (cmpless : T → T → Bool) where
  -- No child from `lo`'s children on is before its parent.
  abbrev pub IsHeapFrom : ℕ → (ℕ → T) → ℕ → Type 0
  IsHeapFrom lo vec n =
      (c : ℕ) → 1 < c → c ≤ n → lo ≤ parent c → cmpless (vec c) (vec (parent c)) ≡ false

  -- The state between calls: heap order, and the elements lie in the block.
  pub record IsValid (h : MinHeap T) : Type 0 where
    pub ordered : IsHeapFrom 1 h.vec h.the_size
    pub room : h.the_size ≤ h.vector_size
    pub some_room : 0 < h.vector_size

  root_least_below :
      (k : ℕ) (vec : ℕ → T) (n i : ℕ)
      → IsWeakOrder cmpless
      → IsHeapFrom 1 vec n
      → i < k
      → 1 ≤ i
      → i ≤ n
      → cmpless (vec i) (vec 1) ≡ false
  root_least_below zero vec n i w h f p q = absurd (omega arith)
  root_least_below (suc k) vec n (suc zero) w h f p q =
      elim (Bool-cases (cmpless (vec 1) (vec 1))) [ inl e ↦ w.asymm (vec 1) (vec 1) e | inr e ↦ e ]
  root_least_below (suc k) vec n i w h f p q =
      w.trans (vec 1) (vec (parent i)) (vec i)
        (root_least_below k vec n (parent i) w h (omega arith) (omega arith) (omega arith))
        (h i (omega arith) q (omega arith))

  -- Nothing in a heap is before its root.
  pub root_least :
      (vec : ℕ → T) (n i : ℕ)
      → IsWeakOrder cmpless
      → IsHeapFrom 1 vec n
      → 1 ≤ i
      → i ≤ n
      → cmpless (vec i) (vec 1) ≡ false
  root_least vec n i w h p q = root_least_below (suc i) vec n i w h (omega arith) p q
