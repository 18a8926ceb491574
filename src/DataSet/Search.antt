-- ===== src/DataSet/Search.antt =====
-- dataset.cc: the search for the sub-set of a global index, in `UnionDataSet`.
use april_ann.Prelude.{
  ℕ, zero, suc, ◌+◌, ◌-◌, ◌/◌, ◌<◌, ◌≤◌, ◌≡◌, ltb, leb, ◌==◌, false, if◌then◌else◌, Option, none,
  some, arith, Bool-cases, inl, inr, sym,
}
use april_ann.Prelude.Loop.{Ends, ends, Ends-if}

-- The do-while loop; `none` says that the fuel ran out.
unfoldable pub search : (ℕ → ℕ) → ℕ → ℕ → ℕ → ℕ → Option ℕ
search d index zero izq der = none
search d index (suc fuel) izq der =
    let m = (izq + der) / 2 in
    let right = search d index fuel m der in
    let left = search d index fuel izq m in
    if leb (d m) index
    then (if ltb m (der - 1) then right else some m)
    else (if ltb izq (m - 1) then left else some izq)

abbrev pub Found : (ℕ → ℕ) → ℕ → ℕ → ℕ → Type 0
Found d index num i = (i < num) × (d i ≤ index) × (index < d (i + 1))

index_below : (d : ℕ → ℕ) (index a b : ℕ) → a ≡ b → index < d b → index < d a
index_below d index a b e l = rw e l

clash : (d : ℕ → ℕ) (index a b : ℕ) → a ≡ b → d a ≤ index → leb (d b) index ≡ false → ⊥
clash d index a b e q above = let q' : d b ≤ index = rw (sym e) q in ground arith

middle :
    (d : ℕ → ℕ) (index izq der : ℕ)
    → izq < der
    → d izq ≤ index
    → leb (d ((izq + der) / 2)) index ≡ false
    → izq < (izq + der) / 2
middle d index izq der l q above = elim (Bool-cases (izq == (izq + der) / 2)) [
  | inl same ↦ absurd (clash d index izq ((izq + der) / 2) (ground arith) q above)
  | inr other ↦ ground arith
]

pub search_lem :
    (d : ℕ → ℕ) (index num fuel izq der : ℕ)
    → der - izq ≤ fuel
    → izq < der
    → der ≤ num
    → d izq ≤ index
    → index < d der
    → Ends (Found d index num) (search d index fuel izq der)
unfolding search
search_lem d index num zero izq der f l n q r = absurd (omega arith)
search_lem d index num (suc fuel) izq der f l n q r =
    let m = (izq + der) / 2 in
    Ends-if (leb (d m) index)
      (λ below.
        Ends-if (ltb m (der - 1))
          (λ more.
            search_lem d index num fuel m der (ground arith) (ground arith) n (ground arith) r)
          (λ last.
            ends (omega arith, ground arith, index_below d index (m + 1) der (ground arith) r)))
      (λ above.
        let inside : izq < m = middle d index izq der l q above in
        Ends-if (ltb izq (m - 1))
          (λ more.
            search_lem d index num fuel izq m (ground arith) inside (omega arith) q (ground arith))
          (λ last.
            ends (omega arith, q, index_below d index (izq + 1) m (ground arith) (ground arith))))
