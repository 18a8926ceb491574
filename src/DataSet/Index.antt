-- ===== src/DataSet/Index.antt =====
-- dataset.cc, dataset.h: `IndexDataSet`, whose patterns are looked up in other data sets, one for each value
-- of a pattern of indices. What a value is as an `int` is a parameter.
use april_ann.Prelude.{
  ℕ, zero, suc, ◌+◌, ◌<◌, ◌≤◌, ◌≡◌, inl, if◌then◌else◌, false, Option, some, none, arith, refl, sym,
  ap, ◌∙◌,
}
use mathlib.Core.Path.{subst}
use april_ann.Prelude.Int.{ℤ, pos, ◌-ℤ◌, ltb_ℤ}
use april_ann.Prelude.Loop.{Ends, ends, Ends-bind, for_loop, ◌>>=◌}
use april_ann.DataSet.{DataSet, Copied, Reads}
use april_ann.DataSet.Offsets.{Summed, Summed-mono}
use april_ann.DataSet.Gather.{Gathered, Gathered-zero, Gathered-suc, Apart}

not_negative : (n : ℕ) → ltb_ℤ (pos n) (pos 0) ≡ false
not_negative n = ground arith

pub record IndexDataSet (S T : Type 0) : Type 0 where
  pub indices : DataSet S T
  pub numdiccionarios : ℕ
  pub diccionarios : ℕ → DataSet S T
  pub patternsize : ℕ
  pub firstindex : ℤ

-- The place in the vector and the vector.
pub record Position (T : Type 0) : Type 0 where
  pub place : ℕ
  pub pat : ℕ → T

module _ {S T : Type 0} (to_int : T → ℤ) where
  -- One round of the loop of getPattern; `none` is the failed assertion on the index.
  abbrev pub look_up : IndexDataSet S T → (ℕ → T) → S → ℕ → ℕ → Position T → Option (Position T)
  look_up x patternindices s p i o =
      let idx = to_int (patternindices i) -ℤ x.firstindex in
      if ltb_ℤ idx (pos 0)
      then none
      else (x.diccionarios i).get_pattern idx s o.pat (p + o.place) >>= λ r.
          some (record { place = o.place + r.0; pat = r.1 })

  -- `scratch` is what the block of the indices holds before the call.
  unfoldable pub index_get : (ℕ → T) → IndexDataSet S T → ℤ → S → (ℕ → T) → ℕ → Option (ℕ × (ℕ → T))
  index_get scratch x index s b p = x.indices.get_pattern index s scratch 0 >>= λ r.
      for_loop x.numdiccionarios (look_up x r.1 s p) (record { place = 0; pat = b }) >>= λ o.
      some (x.patternsize, o.pat)

  module _ (x : IndexDataSet S T) (d : ℕ → ℕ)
      (sums : Summed (λ k. (x.diccionarios k).pattern_size) x.numdiccionarios d) (p : ℕ) where
    index-Apart : Apart (λ k. p + d k) (λ k. (x.diccionarios k).pattern_size) x.numdiccionarios
    index-Apart k l q r = inl (
        omega (
          arith,
          sums.1 k (omega arith),
          Summed-mono (λ k'. (x.diccionarios k').pattern_size) x.numdiccionarios d sums (k + 1) l
              (omega arith) (omega arith),
        ))

    -- The first `n` patterns stand in the vector, one behind the other.
    abbrev pub LookedUp : (ℕ → ℕ → T) → (ℕ → T) → ℕ → Position T → Type 0
    LookedUp f b n o =
        (o.place ≡ d n) × Gathered (λ k. p + d k) (λ k. (x.diccionarios k).pattern_size) f b n o.pat

    -- The index that the value `v` stands for.
    abbrev pub StandsFor : T → ℕ → Type 0
    StandsFor v i = to_int v -ℤ x.firstindex ≡ pos i

    next_place :
        (place size n : ℕ)
        → n < x.numdiccionarios
        → place ≡ d n
        → size ≡ (x.diccionarios n).pattern_size
        → place + size ≡ d (suc n)
    next_place place size n l e e' = grind (arith, sums.1 n l)

    read_index :
        {scratch : ℕ → T} (r g : ℕ → T) (k : ℕ)
        → Copied scratch 0 x.indices.pattern_size g r
        → k < x.indices.pattern_size
        → r k ≡ g k
    read_index r g k c l = ap r {x = k} {y = 0 + k} (omega arith) ∙ c.inside k l

    look_up-LookedUp :
        (patternindices : ℕ → T) (s : S) (f : ℕ → ℕ → T) (which : ℕ → ℕ) (b : ℕ → T) (n : ℕ)
        (o : Position T)
        → n < x.numdiccionarios
        → StandsFor (patternindices n) (which n)
        → Reads (x.diccionarios n) (which n) s (f n)
        → LookedUp f b n o
        → Ends (LookedUp f b (suc n)) (look_up x patternindices s p n o)
    look_up-LookedUp patternindices s f which b n o l e h (at_place, g) =
        rw (e, not_negative (which n))
          (Ends-bind (h o.pat (p + o.place)) (λ r (size, copied). ends (
            next_place (o.place) r.0 n l at_place size,
            Gathered-suc (λ k. p + d k) (λ k. (x.diccionarios k).pattern_size) f n b o.pat r.1
                (λ k l' q q'. index-Apart k l' q (omega arith)) g
                (subst (λ q. Copied o.pat (p + q) (x.diccionarios n).pattern_size (f n) r.1)
                  at_place copied),
          )))

    loop-LookedUp :
        (patternindices : ℕ → T) (s : S) (f : ℕ → ℕ → T) (which : ℕ → ℕ) (b : ℕ → T) (n : ℕ)
        → n ≤ x.numdiccionarios
        → ((k : ℕ) → k < x.numdiccionarios → StandsFor (patternindices k) (which k))
        → ((k : ℕ) → k < x.numdiccionarios → Reads (x.diccionarios k) (which k) s (f k))
        → Ends
            (LookedUp f b n)
            (for_loop n (look_up x patternindices s p) (record { place = 0; pat = b }))
    unfolding for_loop
    loop-LookedUp patternindices s f which b zero l e h =
        ends (sym sums.0, Gathered-zero (λ k. p + d k) (λ k. (x.diccionarios k).pattern_size) f b)
    loop-LookedUp patternindices s f which b (suc n) l e h =
        Ends-bind (loop-LookedUp patternindices s f which b n (omega arith) e h) (λ o done.
          look_up-LookedUp patternindices s f which b n o (omega arith) (e n (omega arith))
            (h n (omega arith)) done)

    -- Reading a pattern whose indices are all in range ends, returns the size, and fills the vector with
    -- the pattern that each dictionary has at its index, one behind the other, and nothing else.
    pub index_get_correct :
        (scratch : ℕ → T) (i : ℕ) (s : S) (g : ℕ → T) (f : ℕ → ℕ → T) (which : ℕ → ℕ) (b : ℕ → T)
        → x.numdiccionarios ≡ x.indices.pattern_size
        → Reads x.indices i s g
        → ((k : ℕ) → k < x.numdiccionarios → StandsFor (g k) (which k))
        → ((k : ℕ) → k < x.numdiccionarios → Reads (x.diccionarios k) (which k) s (f k))
        → Ends
            (λ r.
              (r.0 ≡ x.patternsize)
              × Gathered
                  (λ k. p + d k)
                  (λ k. (x.diccionarios k).pattern_size)
                  f
                  b
                  x.numdiccionarios
                  r.1)
            (index_get scratch x (pos i) s b p)
    unfolding index_get
    index_get_correct scratch i s g f which b same h e hs =
        Ends-bind (h scratch 0) (λ r (_, copied).
          Ends-bind
            (loop-LookedUp r.1 s f which b x.numdiccionarios (omega arith)
              (λ k l.
                subst (λ v. StandsFor v (which k))
                  (sym (read_index r.1 g k copied (omega (arith, same)))) (e k l))
              hs)
            (λ o (_, done). ends (refl, done)))
