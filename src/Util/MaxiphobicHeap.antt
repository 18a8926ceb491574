-- ===== src/Util/MaxiphobicHeap.antt =====
-- packages/basics/util/c_src/maxiphobic_minheap.h: `april_utils::maxiphobic_minheap`, a heap as a tree
-- whose nodes know their sizes. The trees that an operation takes apart are not used again, so that a
-- node is a value here. The pool of free nodes is not here.
pub mod Heap
pub mod Rounds
pub mod Arrange
pub mod Merge
pub mod Operations
pub mod Visit
mod Tests
use april_ann.Prelude.{
  ℕ, zero, suc, ◌+◌, Bool, true, false, ◌||◌, Option, none, some, List, [], ◌∷◌, ltb, if◌then◌else◌,
}
use april_ann.Prelude.Loop.{◌>>=◌}

-- `node`; `tip` is the null pointer.
pub data Tree (T : Type 0) : Type 0 where
  tip : Tree T
  node : ℕ → T → Tree T → Tree T → Tree T

module _ {T : Type 0} where
  -- `size()`
  unfoldable pub size_of : Tree T → ℕ
  size_of tip = 0
  size_of (node s d l r) = s

  abbrev pub is_tip : Tree T → Bool
  is_tip tip = true
  is_tip (node s d l r) = false

  -- `node(d, l, r)`
  unfoldable pub make_node : T → Tree T → Tree T → Tree T
  unfolding size_of
  make_node d l r = node (1 + size_of l + size_of r) d l r

  -- The children of `cur` after the loop of `merge`, when one of the trees is empty.
  unfoldable pub hang : ℕ → T → Tree T → Tree T → Tree T → Tree T
  hang s d tip b c = node s d b c
  hang s d (node s1 d1 l1 r1) tip c = node s d (node s1 d1 l1 r1) c
  hang s d (node s1 d1 l1 r1) (node s2 d2 l2 r2) c = node s d (node s1 d1 l1 r1) (node s2 d2 l2 r2)

  -- `if (b->size > a->size) swap(a, b);`
  unfoldable pub larger_first : Tree T → Tree T → Tree T × Tree T
  unfolding size_of
  larger_first a b = if ltb (size_of a) (size_of b) then (b, a) else (a, b)

  unfoldable pub copy : Tree T → Tree T
  unfolding make_node
  copy tip = tip
  copy (node s d l r) = make_node d (copy l) (copy r)

  module _ (less : T → T → Bool) where
    -- The two trees that are not the largest are merged onto the one whose root is before the other's:
    -- `go` is the rest of the loop.
    unfoldable pub merge_below :
        (ℕ → T → Tree T → Tree T → Tree T → Option (Tree T)) → Tree T → Tree T → Option (Tree T)
    merge_below go tip c = none
    merge_below go (node sb db lb rb) tip = none
    merge_below go (node sb db lb rb) (node sc dc lc rc) =
        if less db dc
        then go (sb + sc) db lb rb (node sc dc lc rc)
        else go (sc + sb) dc lc (node sb db lb rb) rc

    -- The loop of `merge`, which gives the tree below `cur`, a node with size `s` and value `d`.
    unfoldable pub merge_loop : ℕ → ℕ → T → Tree T → Tree T → Tree T → Option (Tree T)
    unfolding hang larger_first merge_below
    merge_loop zero s d a b c = none
    merge_loop (suc fuel) s d a b c =
        let go : ℕ → T → Tree T → Tree T → Tree T → Option (Tree T) = merge_loop fuel in
        let ab = larger_first a b in
        let ac = larger_first ab.0 c in
        if is_tip a || is_tip b || is_tip c
        then some (hang s d a b c)
        else (merge_below go ab.1 ac.1 >>= λ r. some (node s d ac.0 r))

    unfoldable pub merge : Tree T → Tree T → Option (Tree T)
    unfolding merge_loop
    merge tip t = some t
    merge (node s1 d1 l1 r1) tip = some (node s1 d1 l1 r1)
    merge (node s1 d1 l1 r1) (node s2 d2 l2 r2) =
        if less d1 d2
        then merge_loop (s1 + s2) (s1 + s2) d1 l1 r1 (node s2 d2 l2 r2)
        else merge_loop (s2 + s1) (s2 + s1) d2 l2 r2 (node s1 d1 l1 r1)

    unfoldable pub insert : Tree T → T → Option (Tree T)
    unfolding merge
    insert root data_ = merge root (node 1 data_ tip tip)

    -- `extract_min`, with `read_min` and `delete_min`: a null root is an error.
    unfoldable pub extract_min : Tree T → Option (T × Tree T)
    unfolding merge
    extract_min tip = none
    extract_min (node s d l r) = merge l r >>= λ t. some (d, t)

  -- The loop of `foreach`, with its stack; the values in the order of the calls.
  unfoldable pub visit : ℕ → List (Tree T) → Option (List T)
  visit zero stack = none
  visit (suc fuel) [] = some []
  visit (suc fuel) (tip ∷ stack) = none
  visit (suc fuel) (node s d l r ∷ stack) =
      let with_right = if is_tip r then stack else r ∷ stack in
      let with_left = if is_tip l then with_right else l ∷ with_right in
      visit fuel with_left >>= λ ds. some (d ∷ ds)

  -- `foreach`: it takes one node in each round.
  unfoldable pub foreach : Tree T → Option (List T)
  unfolding visit size_of
  foreach tip = some []
  foreach (node s d l r) = visit (suc s) (node s d l r ∷ [])
