-- ===== src/Util/Vector/Contents.antt =====
-- vector.h: the list that a vector stands for, and what each operation does to it.
use april_ann.Prelude.{
  ℕ, zero, suc, ◌+◌, ◌-◌, ◌≤◌, ◌<◌, ◌≡◌, List, [], ◌∷◌, ◌++◌, arith, refl, ap, sym, lt→ltb, take,
  ◌==◌, length, length-append, inl, inr, Bool-cases, ◌∙◌,
}
use april_ann.Util.Vector.{Vector, back, pop_back, copy, assign, resize, push_back}

module _ {T : Type 0} where
  -- the values at 0, …, n - 1
  abbrev pub tabulate : (ℕ → T) → ℕ → List T
  tabulate f zero = []
  tabulate f (suc n) = tabulate f n ++ f n ∷ []

  abbrev pub contents : Vector T → List T
  contents v = tabulate v.vec v.used_size

  -- The used elements lie in the block.
  pub record IsValid (v : Vector T) : Type 0 where
    pub fits : v.used_size ≤ v.vector_size

  pub tabulate_cong :
      (f g : ℕ → T) (n : ℕ) → ((i : ℕ) → i < n → f i ≡ g i) → tabulate f n ≡ tabulate g n
  tabulate_cong f g zero h = refl
  tabulate_cong f g (suc n) h = ground (arith, tabulate_cong f g n (λ i p. h i (omega arith)), h n)

  pub length-tabulate : (f : ℕ → T) (n : ℕ) → length (tabulate f n) ≡ n
  length-tabulate f zero = refl
  length-tabulate f (suc n) =
      omega (arith, length-append (tabulate f n) (f n ∷ []), length-tabulate f n)

  take_all : (xs ys : List T) (n : ℕ) → length xs ≡ n → take n (xs ++ ys) ≡ xs
  take_all [] ys zero e = refl
  take_all [] ys (suc n) e = absurd (omega arith)
  take_all (x ∷ xs) ys zero e = absurd (omega arith)
  take_all (x ∷ xs) ys (suc n) e = ap (◌∷◌ x) (take_all xs ys n (omega arith))

  take-append_le : (xs ys : List T) (n : ℕ) → n ≤ length xs → take n (xs ++ ys) ≡ take n xs
  take-append_le xs ys zero h = refl
  take-append_le [] ys (suc n) h = absurd (omega arith)
  take-append_le (x ∷ xs) ys (suc n) h = ap (◌∷◌ x) (take-append_le xs ys n (omega arith))

  take_self : (xs : List T) (n : ℕ) → length xs ≡ n → take n xs ≡ xs
  take_self [] zero e = refl
  take_self [] (suc n) e = refl
  take_self (x ∷ xs) zero e = absurd (omega arith)
  take_self (x ∷ xs) (suc n) e = ap (◌∷◌ x) (take_self xs n (omega arith))

  -- The first values of a table are the table of the first values.
  pub take-tabulate : (f : ℕ → T) (k n : ℕ) → k ≤ n → take k (tabulate f n) ≡ tabulate f k
  take-tabulate f zero n h = refl
  take-tabulate f (suc k) zero h = absurd (omega arith)
  take-tabulate f (suc k) (suc n) h = elim (Bool-cases (k == n)) [
    | inl e ↦
        let same : n ≡ k = ground arith in
        rw same (take_self (tabulate f k ++ f k ∷ []) (suc k) (length-tabulate f (suc k)))
    | inr e ↦
        take-append_le (tabulate f n) (f n ∷ []) (suc k) (ground (arith, length-tabulate f n))
        ∙ take-tabulate f (suc k) n (ground arith)
  ]

  -- A table of one value more.
  tabulate-extend :
      (f g : ℕ → T) (n m : ℕ) (t : T)
      → m ≡ n + 1
      → f n ≡ t
      → ((i : ℕ) → i < n → f i ≡ g i)
      → tabulate f m ≡ tabulate g n ++ t ∷ []
  tabulate-extend f g n zero t e h k = absurd (omega arith)
  tabulate-extend f g n (suc m) t e h k =
      let same : m ≡ n = omega arith in rw (same, h, tabulate_cong f g n k) refl

  -- `pop_back` and `push_back` undo one another: the last value leaves, the others stay.
  pub contents-pop_back :
      (v : Vector T) → 0 < v.used_size → contents (pop_back v) ++ back v ∷ [] ≡ contents v
  unfolding pop_back back
  contents-pop_back v h = rw (lt→ltb 0 v.used_size h) (
      sym (
        tabulate-extend v.vec v.vec (v.used_size - 1) v.used_size (v.vec (v.used_size - 1))
          (omega arith) refl (λ i p. refl)))

  module _ (fresh : ℕ → T) where
    -- `push_back` puts one value behind the others, whether or not it takes a new block.
    pub contents-push_back :
        (v : Vector T) (t : T)
        → IsValid v
        → (contents (push_back fresh v t) ≡ contents v ++ t ∷ []) × IsValid (push_back fresh v t)
    unfolding push_back
    contents-push_back v t w = (
      tabulate-extend (push_back fresh v t).vec v.vec v.used_size (push_back fresh v t).used_size t
          (ground arith) (ground arith) (λ i p. ground arith),
      record { fits = ground arith },
    )

    -- `resize` keeps the values that the old and the new size share, and never gives up room.
    pub contents-resize :
        (v : Vector T) (n k : ℕ)
        → IsValid v
        → k ≤ n
        → k ≤ v.used_size
        → (take k (contents (resize fresh v n)) ≡ take k (contents v))
          × IsValid (resize fresh v n)
          × ((resize fresh v n).used_size ≡ n)
          × (v.vector_size ≤ (resize fresh v n).vector_size)
    unfolding resize
    contents-resize v n k w h p = (
      take-tabulate (resize fresh v n).vec k n h
          ∙ tabulate_cong (resize fresh v n).vec v.vec k (λ i q. ground arith)
          ∙ sym (take-tabulate v.vec k v.used_size p),
      record { fits = ground arith },
      ground arith,
      ground arith,
    )

    -- The copy constructor and `operator=` give the values of the source, whatever the target held.
    pub contents-copy :
        (v l : Vector T)
        → IsValid v
        → (contents (copy fresh l) ≡ contents l)
          × (contents (assign fresh v l) ≡ contents l)
          × IsValid (copy fresh l)
          × IsValid (assign fresh v l)
    unfolding copy assign
    contents-copy v l w = (
      tabulate_cong (copy fresh l).vec l.vec l.used_size (λ i p. ground arith),
      tabulate_cong (assign fresh v l).vec l.vec l.used_size (λ i p. ground arith),
      record { fits = ground arith },
      record { fits = ground arith },
    )
