-- ===== src/Util/HashTable/Bucket.antt =====
-- packages/basics/util/c_src/hash_table.h: the linked nodes of one bucket, as a list of pairs.
use april_ann.Prelude.{
  ℕ, ◌+◌, ◌≤◌, ◌≡◌, refl, true, Option, none, some, List, [], ◌∷◌, ◌++◌, arith, if◌then◌else◌,
  length, Option-cases, inl, inr,
}
use april_ann.Util.HashKey.{Key, ◌=k=◌, =k=_congr_left, =k=_congr_right}

abbrev pub Chain {ℓ} : Type ℓ → Type ℓ → Type ℓ
Chain K V = List (K × V)

-- `p ? &(p->second) : 0`
abbrev pub second {ℓ} : {K V : Type ℓ} → Option (K × V) → Option V
second none = none
second (some p) = some p.1

abbrev pub or_else {ℓ} : {V : Type ℓ} → Option V → Option V → Option V
or_else none y = y
or_else (some v) y = some v

pub or_else-none {ℓ} : {V : Type ℓ} (x : Option V) → or_else x none ≡ x
or_else-none none = refl
or_else-none (some v) = refl

module _ {ℓ} {K V : Type ℓ} ⦃key : Key K⦄ where
  -- The loop of `find_pair`.
  unfoldable pub chain_pair : K → Chain K V → Option (K × V)
  chain_pair k [] = none
  chain_pair k (e ∷ c) = let rest = chain_pair k c in if k =k= e.0 then some e else rest

  -- `p->second = d` for the pair `p` of a key.
  unfoldable pub chain_write : K → V → Chain K V → Chain K V
  chain_write k d [] = []
  chain_write k d (e ∷ c) =
      let rest = chain_write k d c in if k =k= e.0 then (e.0, d) ∷ c else e ∷ rest

  -- The loop of `erase`: the chain without the first node of the key, or `none` when it has none.
  unfoldable pub chain_erase : K → Chain K V → Option (Chain K V)
  chain_erase k [] = none
  chain_erase k (e ∷ c) =
      let rest = chain_erase k c in
      if k =k= e.0 then some c else elim rest [ none ↦ none | some c' ↦ some (e ∷ c') ]

  -- The value of a key in a chain.
  unfoldable pub value : K → Chain K V → Option V
  unfolding chain_pair
  value q c = second (chain_pair q c)

  -- How many nodes have the key.
  unfoldable pub nodes_of : K → Chain K V → ℕ
  nodes_of q [] = 0
  nodes_of q (e ∷ c) = (if q =k= e.0 then 1 else 0) + nodes_of q c

  pub value-cons :
      (q : K) (e : K × V) (c : Chain K V)
      → value q (e ∷ c) ≡ (if q =k= e.0 then some e.1 else value q c)
  unfolding value chain_pair
  value-cons q e c = ground arith

  pub value-none : (q : K) (c : Chain K V) → nodes_of q c ≡ 0 → value q c ≡ none
  unfolding value nodes_of chain_pair
  value-none q [] h = refl
  value-none q (e ∷ c) h = ground (arith, value-none q c)

  pub nodes_of-none :
      (k q : K) (c : Chain K V) → chain_pair k c ≡ none → (q =k= k) ≡ true → nodes_of q c ≡ 0
  unfolding nodes_of chain_pair
  nodes_of-none k q [] h same = refl
  nodes_of-none k q (e ∷ c) h same = ground (arith, nodes_of-none k q c, =k=_congr_left q k e.0)

  pub value-append : (q : K) (a b : Chain K V) → value q (a ++ b) ≡ or_else (value q a) (value q b)
  unfolding value chain_pair
  value-append q [] b = refl
  value-append q (e ∷ a) b = ground (arith, value-append q a b)

  pub nodes_of-append :
      (q : K) (a b : Chain K V) → nodes_of q (a ++ b) ≡ nodes_of q a + nodes_of q b
  unfolding nodes_of
  nodes_of-append q [] b = omega arith
  nodes_of-append q (e ∷ a) b = omega (arith, nodes_of-append q a b)

  pub nodes_of_congr : (q k : K) (c : Chain K V) → (q =k= k) ≡ true → nodes_of q c ≡ nodes_of k c
  unfolding nodes_of
  nodes_of_congr q k [] same = refl
  nodes_of_congr q k (e ∷ c) same = ground (arith, nodes_of_congr q k c, =k=_congr_left q k e.0)

  module _ (k q : K) where
    pub value-chain_write :
        (d : V) (c : Chain K V) (p : K × V)
        → chain_pair k c ≡ some p
        → value q (chain_write k d c) ≡ (if q =k= k then some d else value q c)
    unfolding value chain_pair chain_write
    value-chain_write d [] p h = ground arith
    value-chain_write d (e ∷ c) p h =
        ground (arith, value-chain_write d c p, =k=_congr_left q k e.0, =k=_congr_right q k e.0)

    pub nodes_of-chain_write :
        (d : V) (c : Chain K V) → nodes_of q (chain_write k d c) ≡ nodes_of q c
    unfolding nodes_of chain_write
    nodes_of-chain_write d [] = refl
    nodes_of-chain_write d (e ∷ c) = ground (arith, nodes_of-chain_write d c)

    value-chain_erase_cons :
        (e : K × V) (c c' : Chain K V)
        → chain_erase k (e ∷ c) ≡ some c'
        → ((q =k= e.0) ≡ true → value q c ≡ none)
        → ((c1 : Chain K V)
            → chain_erase k c ≡ some c1
            → value q c1 ≡ (if q =k= k then none else value q c))
        → value q c' ≡ (if q =k= k then none else value q (e ∷ c))
    unfolding value chain_pair chain_erase
    value-chain_erase_cons e c c' eq zero_of ih = elim (Option-cases (chain_erase k c)) [
      | inl e0 ↦ ground (arith, zero_of, =k=_congr_left q k e.0, =k=_congr_right q k e.0)
      | inr (c1, e1) ↦
          ground (arith, ih c1 e1, zero_of, =k=_congr_left q k e.0, =k=_congr_right q k e.0)
    ]

    pub value-chain_erase :
        (c c' : Chain K V)
        → chain_erase k c ≡ some c'
        → nodes_of q c ≤ 1
        → value q c' ≡ (if q =k= k then none else value q c)
    unfolding value chain_pair chain_erase nodes_of
    value-chain_erase [] c' e h = ground arith
    value-chain_erase (e ∷ c) c' eq h =
        value-chain_erase_cons e c c' eq (λ t. value-none q c (ground arith))
          (λ c1 e1. value-chain_erase c c1 e1 (omega arith))

    pub nodes_of-chain_erase :
        (c c' : Chain K V) → chain_erase k c ≡ some c' → nodes_of q c' ≤ nodes_of q c
    unfolding chain_erase nodes_of
    nodes_of-chain_erase [] c' e = ground arith
    nodes_of-chain_erase (e ∷ c) c' eq = elim (Option-cases (chain_erase k c)) [
      | inl e0 ↦ ground arith
      | inr (c1, e1) ↦ ground (arith, nodes_of-chain_erase c c1 e1)
    ]

  pub length-chain_erase :
      (k : K) (c c' : Chain K V) → chain_erase k c ≡ some c' → length c' + 1 ≡ length c
  unfolding chain_erase
  length-chain_erase k [] c' e = ground arith
  length-chain_erase k (e ∷ c) c' eq = elim (Option-cases (chain_erase k c)) [
    | inl e0 ↦ ground arith
    | inr (c1, e1) ↦ ground (arith, length-chain_erase k c c1 e1)
  ]

  -- `erase` finds a node exactly when `find_pair` does.
  pub chain_erase-none : (k : K) (c : Chain K V) → chain_erase k c ≡ none → chain_pair k c ≡ none
  unfolding chain_erase chain_pair
  chain_erase-none k [] e = refl
  chain_erase-none k (e ∷ c) eq = elim (Option-cases (chain_erase k c)) [
    | inl e0 ↦ ground (arith, chain_erase-none k c e0)
    | inr (c1, e1) ↦ ground arith
  ]

  pub chain_erase-some : (k : K) (c c' : Chain K V) → chain_erase k c ≡ some c' → 1 ≤ nodes_of k c
  unfolding chain_erase nodes_of
  chain_erase-some k [] c' e = ground arith
  chain_erase-some k (e ∷ c) c' eq = elim (Option-cases (chain_erase k c)) [
    | inl e0 ↦ ground arith
    | inr (c1, e1) ↦ ground (arith, chain_erase-some k c c1 e1)
  ]

  pub length-chain_write : (k : K) (d : V) (c : Chain K V) → length (chain_write k d c) ≡ length c
  unfolding chain_write
  length-chain_write k d [] = refl
  length-chain_write k d (e ∷ c) = ground (arith, length-chain_write k d c)
