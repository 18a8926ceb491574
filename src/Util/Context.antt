-- ===== src/Util/Context.antt =====
-- packages/basics/util/c_src/context.h: `april_utils::context`, a window on a sequence. A pointer to an
-- element is the element here, `none` the null pointer, and the elements are not freed. `vec_size` is
-- computed. `[]` is read where its assertions hold.
pub mod Fill
pub mod Window
pub mod End
mod Tests
use april_ann.Prelude.{
  ℕ, zero, suc, ◌+◌, ◌-◌, Bool, true, false, ◌&&◌, not, Option, none, some, ltb, leb, ◌==◌,
  if◌then◌else◌,
}
use april_ann.Prelude.Array.{update}

pub record Context (A : Type 0) : Type 0 where
  pub before : ℕ
  pub after : ℕ
  pub num_inserts : ℕ
  pub num_shifts : ℕ
  pub is_ended : Bool
  pub fill_after : Bool
  pub vec : ℕ → Option A

module _ {A : Type 0} where
  abbrev pub vec_size : Context A → ℕ
  vec_size c = c.before + c.after + 1

  -- `context(before, after)`, with `init`
  unfoldable pub make : ℕ → ℕ → Context A
  make before after = record {
    before = before;
    after = after;
    num_inserts = 0;
    num_shifts = 0;
    is_ended = false;
    fill_after = false;
    vec = λ _. none;
  }

  -- `for (int i=0; i<n; i++) vec[i]=vec[i+1];`
  unfoldable pub move_down : ℕ → (ℕ → Option A) → ℕ → Option A
  move_down zero vec = vec
  move_down (suc n) vec = let moved = move_down n vec in update moved n (moved (n + 1))

  -- `for (int i=from; i<from+n; i++) vec[i] = vec[source];`
  unfoldable pub repeat_elem : ℕ → ℕ → ℕ → (ℕ → Option A) → ℕ → Option A
  repeat_elem source from zero vec = vec
  repeat_elem source from (suc n) vec =
      let filled = repeat_elem source from n vec in update filled (from + n) (filled source)

  -- Where `insert` writes: behind the elements, or at the end when the vector is full.
  unfoldable pub append_elem : ℕ → ℕ → ℕ → (ℕ → Option A) → A → ℕ → Option A
  unfolding move_down
  append_elem before after num_inserts vec elem =
      if ltb (before + num_inserts) (before + after + 1)
      then update vec (before + num_inserts) (some elem)
      else update (move_down (before + after) vec) (before + after) (some elem)

  -- The first element also stands before itself.
  unfoldable pub place_elem : ℕ → ℕ → ℕ → (ℕ → Option A) → A → ℕ → Option A
  unfolding append_elem repeat_elem
  place_elem before after zero vec elem =
      repeat_elem before 0 before (append_elem before after 0 vec elem)
  place_elem before after (suc n) vec elem = append_elem before after (suc n) vec elem

  -- `insert(T *elem)`
  unfoldable pub insert : Context A → A → Bool × Context A
  unfolding place_elem
  insert c elem = if c.is_ended then (false, c) else (
    true,
    record c {
      num_inserts = c.num_inserts + 1;
      vec = place_elem c.before c.after c.num_inserts c.vec elem;
    },
  )

  abbrev pub ready : Context A → Bool
  ready c =
      if not c.is_ended
      then ltb c.after c.num_inserts
      else leb c.num_shifts c.after && leb c.num_shifts c.num_inserts

  unfoldable pub end_input : Context A → Context A
  end_input c = record c {
    is_ended = true;
    fill_after = ltb 0 c.num_inserts && ltb c.num_inserts (vec_size c);
  }

  unfoldable pub shift : Context A → Bool × Context A
  unfolding move_down repeat_elem
  shift c =
      let filled =
        repeat_elem (c.before + c.num_inserts - 1) (c.before + c.num_inserts)
          (vec_size c - (c.before + c.num_inserts)) c.vec in
      if not c.is_ended
      then (false, c)
      else if c.fill_after
      then (true, record c { vec = filled; fill_after = false; num_shifts = c.num_shifts + 1 })
      else (
        true,
        record c { vec = move_down (c.before + c.after) c.vec; num_shifts = c.num_shifts + 1 },
      )

  unfoldable pub reset : Context A → Context A
  unfolding make
  reset c = make c.before c.after
