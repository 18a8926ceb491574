-- ===== src/Util/BinarySearch/Found.antt =====
-- binary_search.h: what the search finds.
use april_ann.Prelude.{
  ℕ, zero, suc, ◌+◌, ◌-◌, ◌/◌, ◌<◌, ◌≤◌, ◌≡◌, Bool, true, false, ◌&&◌, not, ltb, ltb→lt, none,
  arith, Bool-cases, inl, inr, refl,
}
use april_ann.Prelude.Int.{ℤ, pos, negsuc}
use april_ann.Prelude.Loop.{Ends, ends, Ends-if}
use april_ann.Util.BinarySearch.{search_loop, binary_search, first_loop, binary_search_first}

middle : (izq der : ℕ) → izq < der → (izq ≤ (izq + (der - 1)) / 2) × ((izq + (der - 1)) / 2 < der)
middle izq der l = (omega arith, omega arith)

no_step : (a b : Bool) → (not a && b) ≡ true → (b ≡ true → a ≡ true) → ⊥
no_step true b h up = ground arith
no_step false true h up = let e = up refl in ground arith
no_step false false h up = ground arith

module _ {T : Type 0} (is_value is_less : T → Bool) (vec : ℕ → T) (sz : ℕ) where
  -- The vector is sorted, as far as the two tests see it: the elements before the value, the value, and
  -- the elements after it.
  pub record IsSorted : Type 0 where
    pub less_down : (i j : ℕ) → i ≤ j → j < sz → is_less (vec j) ≡ true → is_less (vec i) ≡ true
    pub less_other : (i : ℕ) → i < sz → is_less (vec i) ≡ true → is_value (vec i) ≡ false
    pub after :
        (i j : ℕ)
        → i ≤ j
        → j < sz
        → is_value (vec i) ≡ false
        → is_less (vec i) ≡ false
        → is_value (vec j) ≡ false

  -- The answer: a place of the value, or -1 when there is none.
  abbrev pub Answers : ℤ → Type 0
  Answers (pos m) = (m < sz) × (is_value (vec m) ≡ true)
  Answers (negsuc n) = (n ≡ 0) × ((i : ℕ) → i < sz → is_value (vec i) ≡ false)

  -- The value is nowhere outside izq, …, der - 1.
  abbrev Confined : ℕ → ℕ → Type 0
  Confined izq der =
      ((i : ℕ) → i < izq → is_value (vec i) ≡ false)
      × ((i : ℕ) → der ≤ i → i < sz → is_value (vec i) ≡ false)

  nowhere :
      (izq der : ℕ) → Confined izq der → der ≤ izq → (i : ℕ) → i < sz → is_value (vec i) ≡ false
  nowhere izq der (before, behind) q i l = elim (Bool-cases (ltb i izq)) [
    | inl less ↦ before i (ground arith)
    | inr more ↦ behind i (ground arith) l
  ]

  search_loop-Answers :
      (fuel izq der : ℕ)
      → IsSorted
      → der - izq < fuel
      → der ≤ sz
      → Confined izq der
      → Ends Answers (search_loop is_value is_less vec fuel izq der)
  unfolding search_loop
  search_loop-Answers zero izq der s f l c = absurd (omega arith)
  search_loop-Answers (suc fuel) izq der s f l c =
      let m = (izq + (der - 1)) / 2 in
      Ends-if (ltb izq der)
        (λ some_left.
          let here : (izq ≤ m) × (m < der) = middle izq der (ltb→lt izq der some_left) in
          Ends-if (is_value (vec m)) (λ hit. ends (omega (arith, here.1), hit))
            (λ miss.
              Ends-if (is_less (vec m))
                (λ less. search_loop-Answers fuel (m + 1) der s (omega (arith, here.0, here.1)) l (
                  λ i q.
                      s.less_other i (omega (arith, here.1))
                        (s.less_down i m (omega arith) (omega (arith, here.1)) less),
                  c.1,
                ))
                (λ more.
                  search_loop-Answers fuel izq m s (omega (arith, here.0, here.1))
                    (omega (arith, here.1)) (c.0, λ i q r. s.after m i q r miss more))))
        (λ empty. ends (refl, nowhere izq der c (ground arith)))

  -- On a sorted vector the search ends, with a place of the value, or with -1 when no place has it.
  pub binary_search_correct : IsSorted → Ends Answers (binary_search is_value is_less vec sz)
  unfolding binary_search
  binary_search_correct s =
      search_loop-Answers (sz + 1) 0 sz s (omega arith) (omega arith)
        (λ i l. absurd (omega arith), λ i q l. absurd (omega arith))

module _ {T : Type 0} (is_less : T → Bool) (vec : ℕ → T) (sz : ℕ) where
  first_loop-none :
      (fuel izq der : ℕ)
      → ((i : ℕ) → i + 1 < sz → is_less (vec (i + 1)) ≡ true → is_less (vec i) ≡ true)
      → der - izq < fuel
      → der + 1 ≤ sz
      → Ends (λ r. r ≡ none) (first_loop is_less vec fuel izq der)
  unfolding first_loop
  first_loop-none zero izq der up f l = absurd (omega arith)
  first_loop-none (suc fuel) izq der up f l =
      let m = (izq + (der - 1)) / 2 in
      Ends-if (ltb izq der)
        (λ some_left.
          let here : (izq ≤ m) × (m < der) = middle izq der (ltb→lt izq der some_left) in
          Ends-if (not (is_less (vec m)) && is_less (vec (m + 1)))
            (λ step. absurd (
              no_step (is_less (vec m)) (is_less (vec (m + 1))) step
                (up m (omega (arith, here.1)))))
            (λ flat.
              Ends-if (is_less (vec m))
                (λ less. first_loop-none fuel (m + 1) der up (omega (arith, here.0, here.1)) l)
                (λ more.
                  first_loop-none fuel izq m up (omega (arith, here.0, here.1))
                    (omega (arith, here.1)))))
        (λ empty. ends refl)

  -- On a vector of at least one element in which each element is below the value whenever the next one
  -- is, as in every ascending vector, binary_search_first ends without finding any element.
  pub binary_search_first_misses :
      0 < sz
      → ((i : ℕ) → i + 1 < sz → is_less (vec (i + 1)) ≡ true → is_less (vec i) ≡ true)
      → Ends (λ r. r ≡ none) (binary_search_first is_less vec sz)
  unfolding binary_search_first
  binary_search_first_misses l up = first_loop-none sz 0 (sz - 1) up (omega arith) (omega arith)
