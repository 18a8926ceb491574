-- ===== src/Util/MfSet.antt =====
-- packages/basics/util/c_src/mfset.h: `april_utils::MFSet`, disjoint sets of numbers as a forest of
-- parent links, with path halving. An `int32_t` here is a number below 2 ^ 30, so that the doubling
-- of a size does not overflow. `toString` and `fromString` are not here.
pub mod Forest
pub mod Find
pub mod Grow
pub mod Merge
mod Tests
use april_ann.Prelude.{
  ℕ, zero, suc, ◌+◌, ◌*◌, Bool, ◌&&◌, ◌||◌, Option, none, some, ltb, leb, ◌==◌, if◌then◌else◌,
}
use april_ann.Prelude.Array.{update}
use april_ann.Prelude.Loop.{◌>>=◌}
use april_ann.Util.Vector
use april_ann.Util.Vector.{Vector}
use Prim.Native.Nat.{max}

-- `links` is the field `data`. The positions below `max_vector_size` are in use.
pub record MfSet : Type 0 where
  pub links : Vector ℕ
  pub open links use {vec, used_size}
  pub max_vector_size : ℕ
  pub vector_size : ℕ

-- The loop `for (i=lo; i<hi; ++i) data[i] = i;`.
unfoldable pub own_sets : ℕ → ℕ → Vector ℕ → Vector ℕ
own_sets lo hi v = record v { vec = λ i. if leb lo i && ltb i hi then i else v.vec i }

-- `fresh` is what stands in a block that has just been allocated.
module _ (fresh : ℕ → ℕ) where
  -- `MFSet(size)`: every position is a set of its own.
  unfoldable pub make : ℕ → MfSet
  unfolding own_sets
  make size = record {
    links = own_sets 0 size (Vector.reserve fresh (Vector.make fresh size) size);
    max_vector_size = size;
    vector_size = 0;
  }

  -- The copy constructor, which `clone` calls. It copies into the reserved room of a vector that
  -- stays empty.
  unfoldable pub clone : MfSet → MfSet
  clone obj =
      let room = Vector.reserve fresh (Vector.make fresh 0) obj.max_vector_size in
      record {
        links = record room {
          vec = λ i. if ltb i obj.max_vector_size then obj.vec i else room.vec i;
        };
        max_vector_size = obj.max_vector_size;
        vector_size = obj.vector_size;
      }

  -- `data.resize(n)`, and the loop that makes each new position a set of its own.
  unfoldable pub grow : ℕ → MfSet → MfSet
  unfolding own_sets
  grow n s = record s {
    links = own_sets s.max_vector_size n (Vector.resize fresh s.links n);
    max_vector_size = n;
  }

  unfoldable pub set_size : ℕ → MfSet → MfSet
  set_size sz s =
      let roomy = if leb s.max_vector_size sz then grow (2 * sz) s else s in
      record roomy { vector_size = sz }

  unfoldable pub clear : MfSet → MfSet
  unfolding own_sets
  clear s = record s {
    links =
        own_sets 0 s.max_vector_size
          (Vector.reserve fresh (Vector.clear s.links) s.max_vector_size);
    vector_size = 0;
  }

  -- `merge` up to its two calls of `find`.
  unfoldable pub make_room : MfSet → ℕ → ℕ → MfSet
  make_room s value1 value2 =
      let roomy =
        if leb s.max_vector_size value1 || leb s.max_vector_size value2
        then grow (2 * max value1 value2) s
        else s in
      record roomy { vector_size = max (value2 + 1) (max (value1 + 1) roomy.vector_size) }

-- The loop of `find`; `none` says that the fuel ran out.
unfoldable pub find_loop : ℕ → (ℕ → ℕ) → ℕ → Option (ℕ × (ℕ → ℕ))
find_loop zero vec r = none
find_loop (suc fuel) vec r =
    let halved = update vec r (vec (vec r)) in
    let next = find_loop fuel halved (halved r) in if r == vec r then some (r, vec) else next

-- `none` stands also for a failed assertion.
unfoldable pub find : ℕ → MfSet → ℕ → Option (ℕ × MfSet)
find fuel s value =
    if ltb value s.vector_size
    then (find_loop fuel s.vec (s.vec value) >>= λ (r, vec).
        some (r, record s { links = record s.links { vec = vec } }))
    else none

-- `if (r1 != r2) data[r2] = r1;`
unfoldable pub link : MfSet → ℕ → ℕ → MfSet
link s r1 r2 =
    if r1 == r2 then s else record s { links = record s.links { vec = update s.vec r2 r1 } }

unfoldable pub merge : (fresh : ℕ → ℕ) → ℕ → MfSet → ℕ → ℕ → Option MfSet
merge fresh fuel s value1 value2 =
    find fuel (make_room fresh s value1 value2) value1 >>= λ (r1, s1).
    find fuel s1 value2 >>= λ (r2, s2). some (link s2 r1 r2)
