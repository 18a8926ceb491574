-- ===== src/DataSet/Context/Correct.antt =====
-- `ContextualizerDataSet`: what reading a pattern with its context gives.
use april_ann.Prelude.{
  ℕ, suc, ◌+◌, ◌-◌, ◌*◌, ◌<◌, ◌≤◌, ◌≡◌, arith, Bool-cases, inl, inr, refl, ap, sym, ◌∙◌, ◌⊎◌,
  if◌then◌else◌,
}
use april_ann.Prelude.Int.{ℤ, pos, ◌+ℤ◌, ◌-ℤ◌}
use april_ann.Prelude.Loop.{Ends, ends, Ends-bind, Ends-map, for_loop}
use april_ann.DataSet.{Copied, Reads}
use april_ann.DataSet.Gather.{
  Gathered, Gathered-suc, for_loop-Gathered, for_loop-Gathered_all, Apart,
}
use Prim.Native.Nat.{min}
use april_ann.DataSet.Context.{
  ContextualizerDataSet, vec_at, j_at, left_index, right_index, context_piece, context_get,
}

rows_apart : (k l m : ℕ) → k < l → k * m + m ≤ l * m
rows_apart k l m q = grind arith

rows_within : (l n m : ℕ) → l ≤ n → l * m ≤ n * m
rows_within l n m q = grind arith

back_apart : (a k l m : ℕ) → k + m ≤ l → l ≤ a → a - l + m ≤ a - k
back_apart a k l m q r = omega arith

row_sum : (a d t m : ℕ) → a ≡ d + t → d * m + t * m ≡ a * m
row_sum a d t m e = grind arith

rows_left : (a t m : ℕ) → t ≤ a → (a - t) * m + t * m ≡ a * m
rows_left a t m h = let e : a ≡ (a - t) + t = omega arith in row_sum a (a - t) t m e

one_more : (a m : ℕ) → (a + 1) * m ≡ a * m + m
one_more a m = grind arith

rows_succ : (a n m : ℕ) → n ≡ a + 1 → n * m ≡ a * m + m
rows_succ a n m e = ap (λ k. k * m) e ∙ one_more a m

outside_back :
    (p am tm m w j : ℕ)
    → tm ≤ am
    → w ≡ am + m
    → (j < p) ⊎ (p + w ≤ j)
    → (j < p + am - tm) ⊎ (p + am - tm + m ≤ j)
outside_back p am tm m w j h e (inl q) = inl (omega arith)
outside_back p am tm m w j h e (inr q) = inr (omega arith)

outside_forth :
    (p am tm m w j : ℕ)
    → tm ≤ am
    → w ≡ am + m
    → (j < p) ⊎ (p + w ≤ j)
    → (j < p + tm) ⊎ (p + tm + m ≤ j)
outside_forth p am tm m w j h e (inl q) = inl (omega arith)
outside_forth p am tm m w j h e (inr q) = inr (omega arith)

plus_one : (n : ℕ) → n + 1 ≡ suc n
plus_one n = omega arith

module _ {S T : Type 0} where
  -- The pattern beside `i` that piece `t` shows: the border patterns stand in for what lies outside.
  unfoldable pub neighbour : ContextualizerDataSet S T → ℕ → ℕ → ℕ
  neighbour c i t = min (i + t - c.ctxtizq) (c.numpatterns - 1)

  left_neighbour :
      (c : ContextualizerDataSet S T) (i t : ℕ)
      → i < c.numpatterns
      → t < c.ctxtizq
      → left_index c (pos i) t ≡ pos (neighbour c i t)
  unfolding neighbour ◌+ℤ◌ ◌-ℤ◌
  left_neighbour c i t l q = ground arith

  own_neighbour :
      (c : ContextualizerDataSet S T) (i : ℕ)
      → i < c.numpatterns
      → j_at c (pos i) c.ctxtizq ≡ pos (neighbour c i c.ctxtizq)
  unfolding neighbour ◌+ℤ◌ ◌-ℤ◌
  own_neighbour c i l = ground arith

  right_neighbour :
      (c : ContextualizerDataSet S T) (i t : ℕ)
      → i < c.numpatterns
      → right_index c (pos i) (c.ctxtizq + 1 + t) ≡ pos (neighbour c i (c.ctxtizq + 1 + t))
  unfolding neighbour ◌+ℤ◌ ◌-ℤ◌
  right_neighbour c i t l = ground arith

  vec_at-Apart :
      (c : ContextualizerDataSet S T) (p : ℕ)
      → Apart (vec_at c p) (λ t. c.ds.pattern_size) (c.ctxtizq + 1 + c.ctxtder)
  unfolding vec_at
  vec_at-Apart c p k l q r =
      let m = c.ds.pattern_size in
      let beside = rows_apart k l m q in
      let within = rows_within l (c.ctxtizq + c.ctxtder) m (omega arith) in
      elim (Bool-cases c.reverse) [
        | inl back ↦ inr (
            rw back
              (back_apart (p + (c.ctxtizq + c.ctxtder) * m) (k * m) (l * m) m beside (omega arith)))
        | inr forth ↦ inl (rw forth (omega arith))
      ]

  -- Where piece `t` stands in the vector at `p`: the pieces are counted from its front, or from its back.
  abbrev pub piece_place : ContextualizerDataSet S T → ℕ → ℕ → ℕ
  piece_place c p t =
      if c.reverse
      then p + (c.ctxtizq + c.ctxtder - t) * c.ds.pattern_size
      else p + t * c.ds.pattern_size

  vec_at_lem :
      (c : ContextualizerDataSet S T) (p t : ℕ)
      → t < c.ctxtizq + 1 + c.ctxtder
      → vec_at c p t ≡ piece_place c p t
  unfolding vec_at
  vec_at_lem c p t l =
      let rows = rows_left (c.ctxtizq + c.ctxtder) t c.ds.pattern_size (omega arith) in
      elim (Bool-cases c.reverse) [ inl back ↦ rw back (omega arith) | inr forth ↦ rw forth refl ]

  vec_at_within :
      (c : ContextualizerDataSet S T) (p t j : ℕ)
      → t < c.ctxtizq + 1 + c.ctxtder
      → (j < p) ⊎ (p + (c.ctxtizq + 1 + c.ctxtder) * c.ds.pattern_size ≤ j)
      → (j < vec_at c p t) ⊎ (vec_at c p t + c.ds.pattern_size ≤ j)
  unfolding vec_at
  vec_at_within c p t j l out =
      let m = c.ds.pattern_size in
      let a = c.ctxtizq + c.ctxtder in
      let below = rows_within t a m (omega arith) in
      let whole = rows_succ a (c.ctxtizq + 1 + c.ctxtder) m (omega arith) in
      elim (Bool-cases c.reverse) [
        | inl back ↦
            rw back
              (outside_back p (a * m) (t * m) m ((c.ctxtizq + 1 + c.ctxtder) * m) j below whole out)
        | inr forth ↦
            rw forth (
              outside_forth p (a * m) (t * m) m ((c.ctxtizq + 1 + c.ctxtder) * m) j below whole out)
      ]

  module _ (c : ContextualizerDataSet S T) (s : S) (i p : ℕ) (f : ℕ → ℕ → T)
      (inside : i < c.numpatterns) (h : (k : ℕ) → k < c.numpatterns → Reads c.ds k s (f k)) where
    -- `after` holds the first `n` pieces, and is else as `before`.
    abbrev Pieces : (ℕ → T) → ℕ → (ℕ → T) → Type 0
    Pieces = Gathered (vec_at c p) (λ t. c.ds.pattern_size) (λ t. f (neighbour c i t))

    neighbour_inside : (t : ℕ) → neighbour c i t < c.numpatterns
    unfolding neighbour
    neighbour_inside t = omega arith

    piece-Copied :
        (j : ℤ) (t : ℕ) (x : ℕ → T)
        → j ≡ pos (neighbour c i t)
        → Ends
            (Copied x (vec_at c p t) c.ds.pattern_size (f (neighbour c i t)))
            (context_piece c j s p t x)
    piece-Copied j t x e = rw e (
        Ends-bind (h (neighbour c i t) (neighbour_inside t) x (vec_at c p t))
          (λ r (_, copied). ends copied))

    Apart-below :
        (n : ℕ) → n ≤ c.ctxtizq + 1 + c.ctxtder → Apart (vec_at c p) (λ t. c.ds.pattern_size) n
    Apart-below n q k l r r' = vec_at-Apart c p k l r (omega arith)

    left-Pieces :
        (b : ℕ → T)
        → Ends
            (Pieces b c.ctxtizq)
            (for_loop c.ctxtizq (λ t. context_piece c (left_index c (pos i) t) s p t) b)
    left-Pieces b =
        for_loop-Gathered_all (vec_at c p) (λ t. c.ds.pattern_size) (λ t. f (neighbour c i t))
          c.ctxtizq (λ t. context_piece c (left_index c (pos i) t) s p t) b
          (Apart-below c.ctxtizq (omega arith))
          (λ t l x. piece-Copied (left_index c (pos i) t) t x (left_neighbour c i t inside l))

    own_piece :
        (b b1 : ℕ → T)
        → Pieces b c.ctxtizq b1
        → Ends
            (Pieces b (c.ctxtizq + 1))
            (context_piece c (j_at c (pos i) c.ctxtizq) s p c.ctxtizq b1)
    own_piece b b1 g =
        Ends-map (piece-Copied (j_at c (pos i) c.ctxtizq) c.ctxtizq b1 (own_neighbour c i inside))
          (λ b2 copied. rw (plus_one c.ctxtizq) (
            Gathered-suc (vec_at c p) (λ t. c.ds.pattern_size) (λ t. f (neighbour c i t)) c.ctxtizq
              b b1 b2 (Apart-below (suc c.ctxtizq) (omega arith)) g copied))

    right-Pieces :
        (b b2 : ℕ → T)
        → Pieces b (c.ctxtizq + 1) b2
        → Ends (Pieces b (c.ctxtizq + 1 + c.ctxtder)) (
            for_loop c.ctxtder
              (λ t.
                context_piece c (right_index c (pos i) (c.ctxtizq + 1 + t)) s p (c.ctxtizq + 1 + t))
              b2)
    right-Pieces b b2 g =
        for_loop-Gathered (vec_at c p) (λ t. c.ds.pattern_size) (λ t. f (neighbour c i t))
          (c.ctxtizq + 1) c.ctxtder
          (λ t. context_piece c (right_index c (pos i) (c.ctxtizq + 1 + t)) s p (c.ctxtizq + 1 + t))
          b b2 (Apart-below (c.ctxtizq + 1 + c.ctxtder) (omega arith)) g
          (λ t l x.
            piece-Copied (right_index c (pos i) (c.ctxtizq + 1 + t)) (c.ctxtizq + 1 + t) x
              (right_neighbour c i t inside))

    -- The pieces are in their places, and nothing before the vector or behind it has changed.
    pub record Framed (before after : ℕ → T) : Type 0 where
      pub pieces :
          (t j : ℕ)
          → t < c.ctxtizq + 1 + c.ctxtder
          → j < c.ds.pattern_size
          → after (piece_place c p t + j) ≡ f (neighbour c i t) j
      pub kept :
          (j : ℕ)
          → (j < p) ⊎ (p + (c.ctxtizq + 1 + c.ctxtder) * c.ds.pattern_size ≤ j)
          → after j ≡ before j

    Pieces-Framed : (b b' : ℕ → T) → Pieces b (c.ctxtizq + 1 + c.ctxtder) b' → Framed b b'
    Pieces-Framed b b' g = record {
      pieces = λ t j l q. ap (λ a. b' (a + j)) (sym (vec_at_lem c p t l)) ∙ g.inside t j l q;
      kept = λ j out. g.outside j (λ t l. vec_at_within c p t j l out);
    }

    -- For an index i in range, and a data set whose patterns can be read, reading a pattern with its context
    -- ends. Of the pieces of the vector, counted from its front, or from its back when `reverse` is set,
    -- piece t holds the pattern at index i + t - izq, or the first or the last pattern where that index is
    -- out of range. Nothing outside the vector is written.
    pub context_get_correct :
        (b : ℕ → T) → Ends (λ r. (r.0 ≡ c.patternsize) × Framed b r.1) (context_get c (pos i) s b p)
    unfolding context_get
    context_get_correct b = Ends-bind (left-Pieces b) (λ b1 g1.
        Ends-bind (own_piece b b1 g1)
          (λ b2 g2. Ends-bind (right-Pieces b b2 g2) (λ b3 g3. ends (refl, Pieces-Framed b b3 g3))))
