-- ===== src/DataSet/Accumulate.antt =====
-- dataset.cc, dataset.h: `AccumulateDataSet`, which adds up what is put into it. The sums of type double,
-- with their addition and the two conversions, are parameters.
use april_ann.Prelude.{
  ℕ, zero, suc, ◌+◌, ◌<◌, ◌≤◌, ◌≡◌, ◌==◌, arith, Bool-cases, inl, inr, ◌∙◌, ap, true, refl,
}
use april_ann.Prelude.Array.{update}

pub record AccumulateDataSet (D : Type 0) : Type 0 where
  pub patternsize : ℕ
  pub numpatterns : ℕ
  pub sums : ℕ → D

same_test : (k : ℕ) → (k == k) ≡ true
same_test k = ground arith

module _ {T D : Type 0} (plus : D → D → D) (to_double : T → D) (of_double : D → T) where
  -- The loop of getPattern, once it has passed `n` values.
  unfoldable pub read_sums : (ℕ → D) → ℕ → (ℕ → T) → ℕ → ℕ → T
  read_sums sums zero pat p = pat
  read_sums sums (suc n) pat p = update (read_sums sums n pat p) (p + n) (of_double (sums n))

  unfoldable pub accumulate_get : AccumulateDataSet D → (ℕ → T) → ℕ → ℕ × (ℕ → T)
  accumulate_get x pat p = (x.patternsize, read_sums x.sums x.patternsize pat p)

  -- The loop of putPattern, once it has passed `n` values.
  unfoldable pub add_values : (ℕ → T) → ℕ → ℕ → (ℕ → D) → ℕ → D
  add_values pat p zero sums = sums
  add_values pat p (suc n) sums =
      let before = add_values pat p n sums in
      update before n (plus (before n) (to_double (pat (p + n))))

  unfoldable pub accumulate_put : AccumulateDataSet D → (ℕ → T) → ℕ → ℕ × AccumulateDataSet D
  accumulate_put x pat p =
      (x.patternsize, record x { sums = add_values pat p x.patternsize x.sums })

  read_sums_lem :
      (sums : ℕ → D) (n : ℕ) (pat : ℕ → T) (p k : ℕ)
      → k < n
      → read_sums sums n pat p (p + k) ≡ of_double (sums k)
  unfolding read_sums
  read_sums_lem sums zero pat p k l = absurd (omega arith)
  read_sums_lem sums (suc n) pat p k l = elim (Bool-cases (k == n)) [
    | inl same ↦ let e : k ≡ n = ground arith in rw e (ground arith)
    | inr other ↦ ground (arith, read_sums_lem sums n pat p k (ground arith))
  ]

  add_values_above :
      (pat : ℕ → T) (p n : ℕ) (sums : ℕ → D) (k : ℕ) → n ≤ k → add_values pat p n sums k ≡ sums k
  unfolding add_values
  add_values_above pat p zero sums k l = refl
  add_values_above pat p (suc n) sums k l =
      ground (arith, add_values_above pat p n sums k (omega arith))

  add_values_below :
      (pat : ℕ → T) (p n : ℕ) (sums : ℕ → D) (k : ℕ)
      → k < n
      → add_values pat p n sums k ≡ plus (sums k) (to_double (pat (p + k)))
  unfolding add_values
  add_values_below pat p zero sums k l = absurd (omega arith)
  add_values_below pat p (suc n) sums k l = elim (Bool-cases (k == n)) [
    | inl same ↦
        let e : k ≡ n = ground arith in
        rw (e, same_test n)
          (ap (λ v. plus v (to_double (pat (p + n))))
            (add_values_above pat p n sums n (omega arith)))
    | inr other ↦ ground (arith, add_values_below pat p n sums k (ground arith))
  ]

  -- What is read after a pattern has been put is the old sum and the new value, added in the type of the
  -- sums.
  pub accumulate_correct :
      (x : AccumulateDataSet D) (pat out : ℕ → T) (p q k : ℕ)
      → k < x.patternsize
      → (accumulate_get (accumulate_put x pat p).1 out q).1 (q + k)
        ≡ of_double (plus (x.sums k) (to_double (pat (p + k))))
  unfolding accumulate_get accumulate_put
  accumulate_correct x pat out p q k l =
      read_sums_lem (add_values pat p x.patternsize x.sums) x.patternsize out q k l
      ∙ ap of_double (add_values_below pat p x.patternsize x.sums k l)
