-- ===== src/Util/Qsort.antt =====
-- packages/basics/util/c_src/qsort.h: sorting and selection in a part of an array. The positions are
-- numbers: `high` is never below `low` when the code reads an element, and for an empty array the model
-- passes 0 where the code passes -1, with the same effect.
pub mod Permuted
pub mod Insertion
pub mod Scan
pub mod Partition
pub mod Sort
pub mod Select
mod Tests
use april_ann.Prelude.{
  ℕ, zero, suc, ◌+◌, ◌-◌, ◌/◌, Bool, true, false, Option, none, some, ltb, leb, if◌then◌else◌,
}
use april_ann.Prelude.Array.{update}
use april_ann.Prelude.Loop.{◌>>=◌}

-- `swap(v[i], v[j])`
unfoldable pub swap {ℓ} : {T : Type ℓ} → (ℕ → T) → ℕ → ℕ → ℕ → T
swap v i j = update (update v i (v j)) j (v i)

abbrev pub min_size : ℕ
min_size = 8

module _ {ℓ} {T : Type ℓ} (compare : T → T → Bool) where
  -- The inner loop of `InsertionSort`: `gap` is `j + 1`.
  unfoldable pub shift : ℕ → T → ℕ → (ℕ → T) → ℕ → T
  shift low aux zero v = update v 0 aux
  shift low aux (suc j) v =
      let rest = shift low aux j (update v (suc j) (v j)) in
      if leb low j
      then (if compare aux (v j) then rest else update v (suc j) aux)
      else update v (suc j) aux

  -- The outer loop, over `n` positions from `low + 1` on.
  unfoldable pub insert_all : ℕ → ℕ → (ℕ → T) → ℕ → T
  unfolding shift
  insert_all low zero v = v
  insert_all low (suc n) v =
      let w = insert_all low n v in shift low (w (low + suc n)) (low + suc n) w

  unfoldable pub insertion_sort : (ℕ → T) → ℕ → ℕ → ℕ → T
  unfolding insert_all
  insertion_sort v low high = insert_all low (high - low) v

  -- `if (compare(v[i], v[j])) swap(v[j], v[i]);`
  unfoldable pub put_in_order : (ℕ → T) → ℕ → ℕ → ℕ → T
  unfolding swap
  put_in_order v i j = if compare (v i) (v j) then swap v j i else v

  -- The array after `med3`, whose result stands at `high - 1`.
  unfoldable pub med3 : (ℕ → T) → ℕ → ℕ → ℕ → T
  unfolding put_in_order swap
  med3 v low high =
      let cnt = (low + high) / 2 in
      let a = put_in_order v cnt low in
      let b = put_in_order a high low in let c = put_in_order b high cnt in swap c cnt (high - 1)

  -- `do { izq++; } while (compare(v[izq], piv));`
  unfoldable pub scan_up : ℕ → (ℕ → T) → T → ℕ → Option ℕ
  scan_up zero v piv izq = none
  scan_up (suc fuel) v piv izq =
      let rest = scan_up fuel v piv (izq + 1) in
      if compare (v (izq + 1)) piv then rest else some (izq + 1)

  -- `do { der--; } while (compare(piv, v[der]));`
  unfoldable pub scan_down : (ℕ → T) → T → ℕ → Option ℕ
  scan_down v piv zero = none
  scan_down v piv (suc der) =
      let rest = scan_down v piv der in if compare piv (v der) then rest else some der

  -- The outer loop of `partition`: the array and the position of `izq`, after the swap that undoes the
  -- last one.
  unfoldable pub part_loop : ℕ → T → (ℕ → T) → ℕ → ℕ → Option ((ℕ → T) × ℕ)
  unfolding scan_up scan_down swap
  part_loop zero piv v izq der = none
  part_loop (suc fuel) piv v izq der = scan_up (suc der) v piv izq >>= λ i.
      scan_down v piv der >>= λ j.
      (let rest = part_loop fuel piv (swap v i j) i j in
        if ltb i j then rest else some (swap (swap v i j) i j, i))

  unfoldable pub partition : (ℕ → T) → ℕ → ℕ → Option ((ℕ → T) × ℕ)
  unfolding med3 part_loop swap
  partition v low high =
      let w = med3 v low high in
      part_loop (high + 1) (w (high - 1)) w low (high - 1) >>= λ r.
      some (swap r.0 r.1 (high - 1), r.1)

  -- `Sort(v, low, high)`, whose loop goes on with the larger part.
  unfoldable pub sort_range : ℕ → (ℕ → T) → ℕ → ℕ → Option (ℕ → T)
  unfolding partition insertion_sort
  sort_range zero v low high = none
  sort_range (suc fuel) v low high =
      let left : ℕ → (ℕ → T) → Option (ℕ → T) = λ p w. sort_range fuel w low p in
      let right : ℕ → (ℕ → T) → Option (ℕ → T) = λ p w. sort_range fuel w (p + 1) high in
      if leb min_size (high - low)
      then (partition v low high >>= λ r.
          if ltb (r.1 - low) (high - r.1)
          then (left r.1 r.0 >>= right r.1)
          else (right r.1 r.0 >>= left r.1))
      else some (insertion_sort v low high)

  -- `Sort(v, sze)`
  unfoldable pub sort : (ℕ → T) → ℕ → Option (ℕ → T)
  unfolding sort_range
  sort v sze = sort_range (sze + 1) v 0 (sze - 1)

  -- The loop of `Selection`.
  unfoldable pub select_range : ℕ → (ℕ → T) → ℕ → ℕ → ℕ → Option (ℕ → T)
  unfolding partition insertion_sort
  select_range zero v low high k = none
  select_range (suc fuel) v low high k =
      let left : ℕ → (ℕ → T) → Option (ℕ → T) = λ q w. select_range fuel w low q k in
      let right : ℕ → (ℕ → T) → Option (ℕ → T) = λ q w. select_range fuel w (q + 1) high k in
      if leb min_size (high - low)
      then (partition v low high >>= λ r. if leb k r.1 then left r.1 r.0 else right r.1 r.0)
      else some (insertion_sort v low high)

  -- The array after `Selection(v, sze, k)`, and its result.
  unfoldable pub selection : (ℕ → T) → ℕ → ℕ → Option ((ℕ → T) × T)
  unfolding select_range
  selection v sze k = select_range (sze + 1) v 0 (sze - 1) k >>= λ w. some (w, w k)
