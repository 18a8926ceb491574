-- ===== src/DataSet.antt =====
-- packages/basics/dataset/c_src/dataset.h: the abstract class DataSet. A data set keeps its patterns in
-- a state `S` that it may share with others; a vector `T *pat` is a block and a position in it. A
-- call that ends the process (`exit`, a failed assertion) gives `none`.
use april_ann.Prelude.{ℕ, ◌+◌, ◌<◌, ◌≤◌, ◌≡◌, ◌≢◌, ◌⊎◌, Option}
use april_ann.Prelude.Int.{ℤ, pos}
use april_ann.Prelude.Loop.{Ends}
pub mod Offsets
pub mod Search
pub mod Union
pub mod Gather
pub mod Join
pub mod Context
pub mod Window
pub mod Subset
pub mod Bits
pub mod Index
pub mod Accumulate
mod Tests

pub record DataSet (S T : Type 0) : Type 0 where
  pub num_patterns : ℕ
  pub pattern_size : ℕ
  pub get_pattern : ℤ → S → (ℕ → T) → ℕ → Option (ℕ × (ℕ → T))
  pub put_pattern : ℤ → (ℕ → T) → ℕ → S → Option (ℕ × S)

-- `after` is `before` with `n` values of `f` copied to `p`, …, `p + n - 1`.
pub record Copied {T : Type 0} (before : ℕ → T) (p n : ℕ) (f : ℕ → T) (after : ℕ → T) : Type 0 where
  pub inside : (j : ℕ) → j < n → after (p + j) ≡ f j
  pub outside : (j : ℕ) → (j < p) ⊎ (p + n ≤ j) → after j ≡ before j

module _ {S T : Type 0} where
  -- The call reads `f` as the pattern at `i`, and touches nothing but its place in the block.
  abbrev pub Reads : DataSet S T → ℕ → S → (ℕ → T) → Type 0
  Reads ds i s f =
      (b : ℕ → T) (p : ℕ)
      → Ends (λ r. (r.0 ≡ ds.pattern_size) × Copied b p ds.pattern_size f (r.1))
          (ds.get_pattern (pos i) s b p)

  -- `t` is `s` with the pattern at `i` replaced by `f`, seen through `view`.
  pub record Replaced (ds : DataSet S T) (view : S → ℕ → ℕ → T) (i : ℕ) (f : ℕ → T) (s t : S)
      : Type 0 where
    pub written : (j : ℕ) → j < ds.pattern_size → view t i j ≡ f j
    pub kept :
        (k j : ℕ) → k ≢ i → k < ds.num_patterns → j < ds.pattern_size → view t k j ≡ view s k j

  -- What a client relies on: a data set is a table of patterns.
  pub record IsTable (ds : DataSet S T) (Valid : S → Type 0) (view : S → ℕ → ℕ → T) : Type 0 where
    pub reads : (s : S) (i : ℕ) → Valid s → i < ds.num_patterns → Reads ds i s (view s i)
    pub writes :
        (s : S) (i : ℕ) (b : ℕ → T) (p : ℕ)
        → Valid s
        → i < ds.num_patterns
        → Ends
            (λ r.
              (r.0 ≡ ds.pattern_size) × Valid (r.1) × Replaced ds view i (λ j. b (p + j)) s (r.1))
            (ds.put_pattern (pos i) b p s)
