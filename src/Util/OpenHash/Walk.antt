-- ===== src/Util/OpenHash/Walk.antt =====
-- The iterators of packages/basics/util/c_src/open_addressing_hash.h: a loop from `begin()` to `end()`.
use april_ann.Prelude.{
  ℕ, zero, suc, ◌+◌, ◌-◌, ◌≤◌, ◌<◌, ◌≡◌, refl, Option, some, none, List, [], ◌∷◌, sym, ap, ◌∙◌,
  arith, inl, inr, Bool-cases, ◌==◌, if◌then◌else◌, ltb, length,
}
use april_ann.Prelude.Loop.{◌>>=◌, Ends, ends, Ends-bind, Ends-map, Ends-inv}
use april_ann.Util.HashKey.{Key, ◌=k=◌}
use april_ann.Util.OpenHash.{OpenHash, skip_free, begin, advance}
use april_ann.Util.OpenHash.Slots.{Free, Used}
use april_ann.Util.OpenHash.Store.{used_count}
use april_ann.Util.OpenHash.Table.{IsOpen}

module _ {ℓ} {K V : Type ℓ} ⦃key : Key K⦄ (empty : K) (b : ℕ → K × V) where
  -- The used pairs of the `m` positions from `i` on.
  unfoldable pub used_from : ℕ → ℕ → List (K × V)
  used_from i zero = []
  used_from i (suc m) =
      let rest = used_from (suc i) m in if (b i).0 =k= empty then rest else b i ∷ rest

  -- Counted from the other end.
  length-used_from :
      (m i : ℕ) → length (used_from i m) + used_count empty b i ≡ used_count empty b (i + m)
  unfolding used_from used_count
  length-used_from zero i = let e : i + 0 ≡ i = omega arith in rw e (omega arith)
  length-used_from (suc m) i =
      let e : i + suc m ≡ suc i + m = omega arith in
      rw e (ground (arith, length-used_from m (suc i)))

  length-used_from_all : (n : ℕ) → length (used_from 0 (n - 0)) ≡ used_count empty b n
  unfolding used_count
  length-used_from_all n =
      let e : n - 0 ≡ n = omega arith in
      let at_n : used_count empty b (0 + n) ≡ used_count empty b n =
        ap (used_count empty b) (omega arith) in
      let whole : length (used_from 0 n) + 0 ≡ used_count empty b (0 + n) = length-used_from n 0 in
      rw e (omega arith)

module _ {ℓ} {K V F : Type ℓ} ⦃key : Key K⦄ (t : OpenHash K V F) where
  abbrev pub to_come : ℕ → List (K × V)
  to_come i = used_from t.empty_key t.buckets i (t.num_buckets - i)

  -- A used position or the end, with the same pairs still to come.
  pub record At (i j : ℕ) : Type ℓ where
    pub from : i ≤ j
    pub bounded : j ≤ t.num_buckets
    pub on_used : j < t.num_buckets → Used t.empty_key t.buckets j
    pub same : to_come j ≡ to_come i

  to_come-Free :
      (i : ℕ) → i < t.num_buckets → Free t.empty_key t.buckets i → to_come (suc i) ≡ to_come i
  unfolding used_from
  to_come-Free i h free =
      let e : t.num_buckets - i ≡ suc (t.num_buckets - suc i) = omega arith in rw (e, free) refl

  to_come-Used :
      (i : ℕ)
      → i < t.num_buckets
      → Used t.empty_key t.buckets i
      → to_come i ≡ t.buckets i ∷ to_come (suc i)
  unfolding used_from
  to_come-Used i h used =
      let e : t.num_buckets - i ≡ suc (t.num_buckets - suc i) = omega arith in rw (e, used) refl

  skip_free-At :
      (fuel i : ℕ) → i ≤ t.num_buckets → t.num_buckets < fuel + i → Ends (At i) (skip_free t fuel i)
  unfolding skip_free
  skip_free-At zero i h enough = absurd (omega arith)
  skip_free-At (suc fuel) i h enough = elim (Bool-cases (ltb i t.num_buckets)) [
    | inr at_end ↦ rw at_end (
        ends (record {
          from = omega arith;
          bounded = h;
          on_used = λ g. absurd (ground arith);
          same = refl;
        }))
    | inl inside ↦
        let i' : i < t.num_buckets = ground arith in
        let next : i + 1 ≡ suc i = omega arith in
        rw inside (elim (Bool-cases ((t.buckets i).0 =k= t.empty_key)) [
          | inl free ↦
              rw (free, next)
                (Ends-map (skip_free-At fuel (suc i) i' (omega arith)) (λ j a. record {
                  from = omega (arith, a.from);
                  bounded = a.bounded;
                  on_used = a.on_used;
                  same = a.same ∙ to_come-Free i i' free;
                }))
          | inr used ↦
              rw used (
                ends (record { from = omega arith; bounded = h; on_used = λ g. used; same = refl }))
        ])
  ]

  -- The loop `for (it = begin(); it != end(); ++it)` that collects `*it`.
  unfoldable pub collect_pairs : ℕ → ℕ → Option (List (K × V))
  collect_pairs zero i = none
  collect_pairs (suc fuel) i =
      let rest = advance t i >>= λ j. collect_pairs fuel j >>= λ es. some (t.buckets i ∷ es) in
      if i == t.num_buckets then some [] else rest

  collect_pairs-Ends :
      (fuel i : ℕ)
      → i ≤ t.num_buckets
      → t.num_buckets < fuel + i
      → (i < t.num_buckets → Used t.empty_key t.buckets i)
      → Ends (λ es. es ≡ to_come i) (collect_pairs fuel i)
  unfolding collect_pairs advance used_from
  collect_pairs-Ends zero i h enough used = absurd (omega arith)
  collect_pairs-Ends (suc fuel) i h enough used = elim (Bool-cases (i == t.num_buckets)) [
    | inl at_end ↦ let e : t.num_buckets - i ≡ 0 = ground arith in rw (at_end, e) (ends refl)
    | inr inside ↦
        let i' : i < t.num_buckets = ground arith in
        rw inside (
          Ends-bind (skip_free-At (t.num_buckets + 1) (i + 1) (omega arith) (omega arith)) (λ j a.
            Ends-bind (collect_pairs-Ends fuel j a.bounded (omega (arith, a.from)) a.on_used)
              (λ es eq.
                let next : i + 1 ≡ suc i = omega arith in
                ends (
                  ap (λ l. t.buckets i ∷ l) (eq ∙ (a.same ∙ ap to_come next))
                  ∙ sym (to_come-Used i i' (used i'))))))
  ]

  -- A loop over the iterators ends, and meets the used pairs in the order of their positions, as many
  -- as the size says.
  begin-collect_pairs :
      (ceil_load : F → ℕ → ℕ)
      → IsOpen ceil_load t
      → ((begin t >>= collect_pairs (t.num_buckets + 1)) ≡ some (to_come 0))
        × (length (to_come 0) ≡ t.the_size)
  unfolding begin
  begin-collect_pairs ceil_load valid =
      let (i, eq, a) = Ends-inv (skip_free-At (t.num_buckets + 1) 0 (omega arith) (omega arith)) in
      let (es, eq', all) =
        Ends-inv (collect_pairs-Ends (t.num_buckets + 1) i a.bounded (omega arith) a.on_used) in
      (
        rw (eq, eq') (ap some (all ∙ a.same)),
        length-used_from_all t.empty_key t.buckets t.num_buckets ∙ sym valid.counted,
      )
