-- ===== src/Util/MaxiphobicHeap/Visit.antt =====
-- `foreach` and `copy` of packages/basics/util/c_src/maxiphobic_minheap.h.
use mathlib.Core.Path.{subst}
use mathlib.Core.List.{append_assoc, append-nil}
use april_ann.Prelude.{
  ℕ, zero, suc, ◌+◌, ◌≡◌, refl, ap, Bool, false, some, List, [], ◌∷◌, ◌++◌, arith, if◌then◌else◌,
  sym, ◌∙◌,
}
use april_ann.Util.MaxiphobicHeap.{
  Tree, tip, node, size_of, make_node, copy, is_tip, visit, foreach,
}
use april_ann.Util.MaxiphobicHeap.Heap.{IsHeap, heap_tip, heap_node}

module _ {T : Type 0} where
  -- The values of a tree: a value, those on its left, those on its right.
  unfoldable preorder : Tree T → List T
  preorder tip = []
  preorder (node s d l r) = d ∷ (preorder l ++ preorder r)

  unfoldable stack_values : List (Tree T) → List T
  unfolding preorder
  stack_values [] = []
  stack_values (t ∷ ts) = preorder t ++ stack_values ts

  abbrev with_child : Tree T → List (Tree T) → List (Tree T)
  with_child t ts = if is_tip t then ts else t ∷ ts

  module _ (less : T → T → Bool) where
    -- The stack holds `n` nodes below its trees, none of which is empty.
    data Stacked : ℕ → List (Tree T) → Type 0 where
      no_trees : Stacked 0 []
      tree_on :
          {n m : ℕ} {t : Tree T} {ts : List (Tree T)}
          → IsHeap less t
          → is_tip t ≡ false
          → m ≡ size_of t + n
          → Stacked n ts
          → Stacked m (t ∷ ts)

    Stacked-push :
        (n : ℕ) (t : Tree T) (ts : List (Tree T))
        → IsHeap less t
        → Stacked n ts
        → Stacked (size_of t + n) (with_child t ts)
    unfolding size_of
    Stacked-push n tip ts h o = subst (λ x. Stacked x ts) (omega arith) o
    Stacked-push n (node s d l r) ts h o = tree_on h refl refl o

    values-push :
        (t : Tree T) (ts : List (Tree T))
        → stack_values (with_child t ts) ≡ preorder t ++ stack_values ts
    unfolding stack_values
    values-push tip ts = refl
    values-push (node s d l r) ts = refl

    visit-Stacked :
        (n : ℕ) (ts : List (Tree T)) → Stacked n ts → visit (suc n) ts ≡ some (stack_values ts)
    unfolding visit stack_values size_of
    visit-Stacked n _ no_trees = refl
    visit-Stacked n _ (tree_on {t = tip} h empty e o) = absurd (ground arith)
    visit-Stacked zero _ (tree_on {t = node s d l r} (heap_node es f g hl hr) full e o) =
        absurd (omega arith)
    visit-Stacked (suc m) _
          (tree_on {n = n} {t = node s d l r} {ts = ts} (heap_node es f g hl hr) full e o) =
        let sizes : size_of l + (size_of r + n) ≡ m = omega arith in
        let below : Stacked m (with_child l (with_child r ts)) =
          subst (λ x. Stacked x (with_child l (with_child r ts))) sizes
            (Stacked-push (size_of r + n) l (with_child r ts) hl (Stacked-push n r ts hr o)) in
        let rest = visit-Stacked m (with_child l (with_child r ts)) below in
        rw (rest, values-push l (with_child r ts), values-push r ts)
          (ap (λ xs. some (d ∷ xs))
            (sym (append_assoc (preorder l) (preorder r) (stack_values ts))))

    -- `foreach` calls its function for the value of a heap's root, then for the values on its left in this
    -- order, then for those on its right, and for no other value.
    foreach_correct : (t : Tree T) → IsHeap less t → foreach t ≡ some (preorder t)
    unfolding foreach preorder stack_values size_of
    foreach_correct tip h = refl
    foreach_correct (node s d l r) h =
        visit-Stacked s (node s d l r ∷ []) (tree_on h refl (omega arith) no_trees)
        ∙ ap some (append-nil (preorder (node s d l r)))

    -- A copy of a heap is equal to it, sizes included.
    copy_same : (t : Tree T) → IsHeap less t → copy t ≡ t
    unfolding copy make_node
    copy_same _ heap_tip = refl
    copy_same _ (heap_node {d = d} {l = l} {r = r} e f g hl hr) =
        rw (copy_same l hl, copy_same r hr, e) refl
