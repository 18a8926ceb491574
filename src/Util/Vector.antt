-- ===== src/Util/Vector.antt =====
-- packages/basics/util/c_src/vector.h: `april_utils::vector`. The pointer `vec` is the block itself;
-- the null pointer is a block of no elements. A `size_t` is a number: sizes stay below 2 ^ 63.
pub mod Contents
mod Tests
use april_ann.Prelude.{ℕ, ◌+◌, ◌-◌, ◌*◌, Bool, ltb, leb, ◌==◌, if◌then◌else◌}
use april_ann.Prelude.Array.{update}

-- The block holds `vector_size` elements, of which the first `used_size` are the vector's.
pub record Vector (T : Type 0) : Type 0 where
  pub vec : ℕ → T
  pub used_size : ℕ
  pub vector_size : ℕ

module _ {T : Type 0} where
  pub is_empty : Vector T → Bool
  is_empty v = v.used_size == 0

  pub back : Vector T → T
  back v = v.vec (v.used_size - 1)

  unfoldable pub pop_back : Vector T → Vector T
  pop_back v = if ltb 0 v.used_size then record v { used_size = v.used_size - 1 } else v

  unfoldable pub clear : Vector T → Vector T
  clear v = record v { used_size = 0 }

  -- The vector of `n` copies of `t`.
  unfoldable pub make_filled : (fresh : ℕ → T) → ℕ → T → Vector T
  make_filled fresh n t = record {
    vec = λ i. if ltb i n then t else fresh i;
    used_size = n;
    vector_size = n;
  }

  -- What stands in a block that `new T[n]` has just returned: nothing is known of it.
  module _ (fresh : ℕ → T) where
    unfoldable pub make : ℕ → Vector T
    make n = record { vec = fresh; used_size = n; vector_size = n }

    -- The copy constructor.
    unfoldable pub copy : Vector T → Vector T
    copy l = record {
      vec = λ i. if ltb i l.used_size then l.vec i else fresh i;
      used_size = l.used_size;
      vector_size = l.used_size;
    }

    -- `operator=` from another vector: the block is kept if it is large enough.
    unfoldable pub assign : Vector T → Vector T → Vector T
    assign v l =
        let block = if ltb v.vector_size l.used_size then fresh else v.vec in
        record {
          vec = λ i. if ltb i l.used_size then l.vec i else block i;
          used_size = l.used_size;
          vector_size = if ltb v.vector_size l.used_size then l.used_size else v.vector_size;
        }

    -- A new block takes over the used elements only.
    unfoldable pub reserve : Vector T → ℕ → Vector T
    reserve v n =
        if ltb v.vector_size n
        then record v { vec = λ i. if ltb i v.used_size then v.vec i else fresh i; vector_size = n }
        else v

    unfoldable pub resize : Vector T → ℕ → Vector T
    unfolding reserve
    resize v n = record (reserve v n) { used_size = n }

    -- `push_back` up to the write.
    unfoldable pub widen : Vector T → Vector T
    widen v =
        if leb v.vector_size v.used_size
        then record v {
          vec = λ i. if ltb i v.vector_size then v.vec i else fresh i;
          vector_size = if v.vector_size == 0 then 1 else 2 * v.vector_size;
        }
        else v

    unfoldable pub push_back : Vector T → T → Vector T
    unfolding widen
    push_back v t =
        let w = widen v in
        record w { vec = update w.vec w.used_size t; used_size = w.used_size + 1 }
