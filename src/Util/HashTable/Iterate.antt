-- ===== src/Util/HashTable/Iterate.antt =====
-- The iterators of packages/basics/util/c_src/hash_table.h: a loop from `begin()` to `end()`.
use mathlib.Core.List.{append_assoc, append-nil}
use april_ann.Prelude.{
  ℕ, zero, suc, ◌+◌, ◌-◌, ◌≤◌, ◌<◌, ◌≡◌, refl, true, Option, some, none, List, [], ◌∷◌, ◌++◌, arith,
  ltb, ◌==◌, if◌then◌else◌, length, sym, ◌∙◌, ap, ==_iff,
}
use april_ann.Prelude.Loop.{◌>>=◌, Ends, ends, Ends-map, Ends-inv, Ends-if, Ends-bind}
use april_ann.Util.HashKey.{Key}
use april_ann.Util.HashTable.{
  Hash, Iterator, push_nodes, get_hash_nodes, begin, advance, at_end, skip_empty,
}
use april_ann.Util.HashTable.Bucket.{Chain}
use april_ann.Util.HashTable.Valid.{IsHash, length-push_nodes}
use april_ann.Util.HashTable.Walk.{all_nodes}

-- The nodes of the `n` buckets from `i` on, in their order.
unfoldable pub nodes_from {ℓ} : {K V : Type ℓ} → (ℕ → Chain K V) → ℕ → ℕ → List (K × V)
nodes_from b i zero = []
nodes_from b i (suc n) = b i ++ nodes_from b (suc i) n

nodes_from-last {ℓ} :
    {K V : Type ℓ} (b : ℕ → Chain K V) (i n : ℕ)
    → nodes_from b i (suc n) ≡ nodes_from b i n ++ b (i + n)
unfolding nodes_from
nodes_from-last b i zero = let e : i + 0 ≡ i = omega arith in rw (e, append-nil (b i)) refl
nodes_from-last b i (suc n) =
    let e : i + suc n ≡ suc i + n = omega arith in
    rw (e, append_assoc (b i) (nodes_from b (suc i) n) (b (suc i + n)))
      (ap (λ r. b i ++ r) (nodes_from-last b (suc i) n))

nodes_from_all {ℓ} : {K V : Type ℓ} (b : ℕ → Chain K V) (n : ℕ) → nodes_from b 0 n ≡ push_nodes n b
unfolding nodes_from push_nodes
nodes_from_all b zero = refl
nodes_from_all b (suc n) =
    let e : 0 + n ≡ n = omega arith in nodes_from-last b 0 n ∙ rw (e, nodes_from_all b n) refl

module _ {ℓ} {K V F : Type ℓ} (t : Hash K V F) where
  -- What is still to come, the node under the iterator first.
  abbrev pub remaining : Iterator K V → List (K × V)
  remaining it = it.ptr ++ nodes_from t.buckets (suc it.index) (t.num_buckets - suc it.index)

  -- On a node of a bucket in use, or at the end.
  pub data Stands : Iterator K V → Type ℓ where
    on_node :
        {i : ℕ} {e : K × V} {c : Chain K V}
        → i < t.num_buckets
        → Stands (record { index = i; ptr = e ∷ c })
    past_last : {i : ℕ} → i ≡ t.num_buckets → Stands (record { index = i; ptr = [] })

  abbrev pub Reaches : Iterator K V → Iterator K V → Type ℓ
  Reaches it u = Stands u × (remaining u ≡ remaining it)

  bucket_first :
      (i : ℕ)
      → i + 1 < t.num_buckets
      → t.buckets (i + 1) ++ nodes_from t.buckets (suc (i + 1)) (t.num_buckets - suc (i + 1))
        ≡ nodes_from t.buckets (suc i) (t.num_buckets - suc i)
  unfolding nodes_from
  bucket_first i h =
      let e : t.num_buckets - suc i ≡ suc (t.num_buckets - suc (i + 1)) = omega arith in
      let e' : i + 1 ≡ suc i = omega arith in rw (e, e') refl

  skip_empty-Ends :
      (fuel i : ℕ) (c : Chain K V)
      → i < t.num_buckets
      → t.num_buckets ≤ fuel + i
      → Ends
          (Reaches (record { index = i; ptr = c }))
          (skip_empty t fuel (record { index = i; ptr = c }))
  unfolding skip_empty nodes_from
  skip_empty-Ends zero i c h enough = absurd (omega arith)
  skip_empty-Ends (suc fuel) i (e ∷ c) h enough = ends (on_node h, refl)
  skip_empty-Ends (suc fuel) i [] h enough =
      Ends-if (ltb (i + 1) t.num_buckets)
        (λ more.
          Ends-map (skip_empty-Ends fuel (i + 1) (t.buckets (i + 1)) (ground arith) (omega arith))
            (λ u r. (r.0, r.1 ∙ bucket_first i (ground arith))))
        (λ last.
          let at : i + 1 ≡ t.num_buckets = ground arith in
          let e : t.num_buckets - suc i ≡ 0 = omega arith in
          let e' : t.num_buckets - suc (i + 1) ≡ 0 = omega arith in
          ends (past_last at, rw (e, e') refl))

  -- `begin()` ends at the first node.
  begin-Ends :
      0 < t.num_buckets
      → Ends (λ it. Stands it × (remaining it ≡ push_nodes t.num_buckets t.buckets)) (begin t)
  unfolding begin nodes_from
  begin-Ends pos =
      Ends-map (skip_empty-Ends (t.num_buckets + 1) 0 (t.buckets 0) pos (omega arith)) (λ it r.
        let e : t.num_buckets ≡ suc (t.num_buckets - 1) = omega arith in
        (r.0, r.1 ∙ (sym (ap (nodes_from t.buckets 0) e) ∙ nodes_from_all t.buckets t.num_buckets)))

  -- The loop `for (it = begin(); it != end(); ++it)` that collects `*it`.
  unfoldable pub collect : ℕ → Iterator K V → Option (List (K × V))
  collect zero it = none
  collect (suc fuel) it =
      let rest : K × V → Option (List (K × V)) =
        λ e. advance t it >>= λ u. collect fuel u >>= λ es. some (e ∷ es) in
      if at_end t it then some [] else elim it.ptr [ [] ↦ none | (e ∷ c) ↦ rest e ]

  collect-Ends :
      (fuel : ℕ) (it : Iterator K V)
      → Stands it
      → length (remaining it) < fuel
      → Ends (λ es. es ≡ remaining it) (collect fuel it)
  unfolding collect at_end advance nodes_from
  collect-Ends zero it stands h = absurd (omega arith)
  collect-Ends (suc fuel) _ (past_last {i = i} at) h =
      let e : (i == t.num_buckets) ≡ true = (==_iff i t.num_buckets).1 at in
      let e' : t.num_buckets - suc i ≡ 0 = omega arith in rw (e, e') (ends refl)
  collect-Ends (suc fuel) _ (on_node {i = i} {e = e} {c = c} below) h =
      let fewer : (u : Iterator K V)
          → remaining u ≡ remaining (record { index = i; ptr = c })
          → length (remaining u) < fuel =
        λ u same.
          let same' : length (remaining u) ≡ length (remaining (record { index = i; ptr = c })) =
            ap length same in
          omega arith in
      Ends-bind (skip_empty-Ends (t.num_buckets + 1) i c below (omega arith)) (λ u r.
        Ends-bind (collect-Ends fuel u r.0 (fewer u r.1))
          (λ es eq. ends (ap (λ l. e ∷ l) (eq ∙ r.1))))

module _ {ℓ} {K V F : Type ℓ} ⦃key : Key K⦄ (t : Hash K V F) where
  -- A loop over the iterators of a table ends, and meets the nodes of `get_hash_nodes` in their order.
  pub begin-collect : IsHash t → (begin t >>= collect t (t.the_size + 1)) ≡ some (get_hash_nodes t)
  begin-collect valid =
      let pos : 0 < t.num_buckets = omega (arith, valid.mask_of) in
      let (it, eq, (stands, all)) = Ends-inv (begin-Ends t pos) in
      let counted : length (remaining t it) ≡ t.the_size =
        ap length all ∙ (length-push_nodes t.num_buckets t.buckets ∙ sym valid.sized) in
      let (es, eq', here) = Ends-inv (collect-Ends t (t.the_size + 1) it stands (omega arith)) in
      rw (eq, eq') (ap some (here ∙ (all ∙ sym (all_nodes t valid))))
