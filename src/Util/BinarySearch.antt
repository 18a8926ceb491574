-- ===== src/Util/BinarySearch.antt =====
-- packages/basics/util/c_src/binary_search.h. The two tests of an element against the value that is looked
-- for are parameters. `der` is one more than the code's, which may be -1.
use april_ann.Prelude.{
  ℕ, zero, suc, ◌+◌, ◌-◌, ◌/◌, Bool, ◌&&◌, not, ltb, if◌then◌else◌, Option, none, some,
}
use april_ann.Prelude.Int.{ℤ, pos, negsuc}
pub mod Found
mod Tests

module _ {T : Type 0} (is_value is_less : T → Bool) where
  -- The loop; `none` says that the fuel ran out.
  unfoldable pub search_loop : (ℕ → T) → ℕ → ℕ → ℕ → Option ℤ
  search_loop vec zero izq der = none
  search_loop vec (suc fuel) izq der =
      let m = (izq + (der - 1)) / 2 in
      let right = search_loop vec fuel (m + 1) der in
      let left = search_loop vec fuel izq m in
      if ltb izq der
      then if is_value (vec m) then some (pos m) else if is_less (vec m) then right else left
      else some (negsuc 0)

  unfoldable pub binary_search : (ℕ → T) → ℕ → Option ℤ
  binary_search vec sz = search_loop vec (sz + 1) 0 sz

module _ {T : Type 0} (is_less : T → Bool) where
  -- The loop of `binary_search_first`. Position `sz - 1` holds a sentinel, and `der` starts before it.
  unfoldable pub first_loop : (ℕ → T) → ℕ → ℕ → ℕ → Option (Option ℕ)
  first_loop vec zero izq der = none
  first_loop vec (suc fuel) izq der =
      let m = (izq + (der - 1)) / 2 in
      let right = first_loop vec fuel (m + 1) der in
      let left = first_loop vec fuel izq m in
      if ltb izq der
      then if not (is_less (vec m)) && is_less (vec (m + 1))
        then some (some m)
        else if is_less (vec m)
        then right
        else left
      else some none

  unfoldable pub binary_search_first : (ℕ → T) → ℕ → Option (Option ℕ)
  binary_search_first vec sz = first_loop vec sz 0 (sz - 1)
