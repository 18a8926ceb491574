-- ===== src/DataSet/Context.antt =====
-- dataset.cc, dataset.h: `ContextualizerDataSet`, each pattern between its neighbours.
pub mod Correct
use april_ann.Prelude.{
  ℕ, zero, suc, ◌+◌, ◌-◌, ◌*◌, ◌<◌, ◌≤◌, ◌≡◌, Bool, true, false, ltb, ◌==◌, if◌then◌else◌, Option,
  none, some, arith, Bool-cases, inl, inr, refl, sym, ◌∙◌, ◌⊎◌, ◌≢◌, ap,
}
use april_ann.Prelude.Int.{ℤ, pos, negsuc, ◌+ℤ◌, ◌-ℤ◌, ltb_ℤ, +ℤ_parts, -ℤ_parts, eq_of_parts}
use april_ann.Prelude.Loop.{Ends, ends, Ends-bind, Ends-map, Ends-if, for_loop, ◌>>=◌}
use april_ann.DataSet.{DataSet, Copied, Reads}
use april_ann.DataSet.Gather.{
  Gathered, Gathered-zero, Gathered-suc, for_loop-Gathered, for_loop-Gathered_all, Apart,
}
use Prim.Native.Nat.{min}

pub record ContextualizerDataSet (S T : Type 0) : Type 0 where
  pub ctxtizq : ℕ
  pub ctxtder : ℕ
  pub ds : DataSet S T
  pub numpatterns : ℕ
  pub patternsize : ℕ
  pub reverse : Bool

module _ {S T : Type 0} where
  unfoldable pub make_context : DataSet S T → ℕ → ℕ → Bool → ContextualizerDataSet S T
  make_context ds izq der reverse = record {
    ctxtizq = izq;
    ctxtder = der;
    ds = ds;
    numpatterns = ds.num_patterns;
    patternsize = ds.pattern_size * (izq + 1 + der);
    reverse = reverse;
  }

  -- The pointer `vec` once it has moved `t` times.
  unfoldable pub vec_at : ContextualizerDataSet S T → ℕ → ℕ → ℕ
  vec_at c p t =
      let ps = c.ds.pattern_size in
      if c.reverse then p + (c.ctxtizq + c.ctxtder) * ps - t * ps else p + t * ps

  -- The counter `j` once it has moved `t` times.
  abbrev pub j_at : ContextualizerDataSet S T → ℤ → ℕ → ℤ
  j_at c index t = (index -ℤ pos c.ctxtizq) +ℤ pos t

  abbrev pub left_index : ContextualizerDataSet S T → ℤ → ℕ → ℤ
  left_index c index t = let j = j_at c index t in if ltb_ℤ j (pos 0) then pos 0 else j

  abbrev pub right_index : ContextualizerDataSet S T → ℤ → ℕ → ℤ
  right_index c index t =
      let j = j_at c index t in
      if ltb_ℤ j (pos c.numpatterns) then j else pos c.numpatterns -ℤ pos 1

  -- The call that fills the piece at `vec_at c p t`.
  abbrev pub context_piece : ContextualizerDataSet S T → ℤ → S → ℕ → ℕ → (ℕ → T) → Option (ℕ → T)
  context_piece c j s p t b = c.ds.get_pattern j s b (vec_at c p t) >>= λ r. some r.1

  unfoldable pub context_get :
      ContextualizerDataSet S T → ℤ → S → (ℕ → T) → ℕ → Option (ℕ × (ℕ → T))
  context_get c index s b p =
      for_loop c.ctxtizq (λ i. context_piece c (left_index c index i) s p i) b >>= λ b1.
      context_piece c (j_at c index c.ctxtizq) s p c.ctxtizq b1 >>= λ b2.
      for_loop c.ctxtder
        (λ i. context_piece c (right_index c index (c.ctxtizq + 1 + i)) s p (c.ctxtizq + 1 + i)) b2
      >>= λ b3. some (c.patternsize, b3)
