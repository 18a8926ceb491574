-- ===== src/Util/OpenHash/Slots.antt =====
-- What stands where in the vector of packages/basics/util/c_src/open_addressing_hash.h: every key can be
-- reached along its probe sequence, and the search decides whether a key is there.
use mathlib.Core.Path.{subst}
use april_ann.Prelude.{
  ℕ, zero, suc, ◌+◌, ◌-◌, ◌^◌, ◌≤◌, ◌<◌, ◌≡◌, refl, Bool, true, false, sym, ap, ◌∙◌, arith, ◌⊎◌,
  inl, inr, Bool-cases, ◌==◌, ◌≢◌, ltb,
}
use april_ann.Prelude.Loop.{Ends, ends, Ends-map, Ends-if}
use april_ann.Util.HashKey.{Key, masked, ◌=k=◌, =k=_congr_right}
use april_ann.Util.OpenHash.{seek, seek_free}
use april_ann.Util.OpenHash.Probe.{at, at_le, at_congr, at_reaches}
use native.Mathlib.Nat.{one-le-pow}

order : (a b : ℕ) → (a < b) ⊎ ((a ≡ b) ⊎ (b < a))
order a b = elim (Bool-cases (ltb a b)) [
  | inl lower ↦ inl (ground arith)
  | inr upper ↦ elim (Bool-cases (a == b)) [
    | inl same ↦ inr (inl (ground arith))
    | inr other ↦ inr (inr (ground arith))
  ]
]

one_more : (P : ℕ → Type 0) (j : ℕ) → ((i : ℕ) → i < j → P i) → P j → (i : ℕ) → i < suc j → P i
one_more P j below here i h = elim (order i j) [
  | inl lower ↦ below i lower
  | inr (inl same) ↦ subst P (sym same) here
  | inr (inr upper) ↦ absurd (omega arith)
]

module _ {ℓ} {K V : Type ℓ} ⦃key : Key K⦄ (empty : K) (b : ℕ → K × V) where
  abbrev pub Free : ℕ → Type 0
  Free i = ((b i).0 =k= empty) ≡ true

  abbrev pub Used : ℕ → Type 0
  Used i = ((b i).0 =k= empty) ≡ false

  abbrev pub PassedAt : K → ℕ → Type 0
  PassedAt k i = Used i × (((b i).0 =k= k) ≡ false)

  -- The pair of a key.
  pub record Slot (n : ℕ) (k : K) (i : ℕ) : Type 0 where
    pub inside : i < n
    pub used : Used i
    pub same : ((b i).0 =k= k) ≡ true

module _ {ℓ} {K V : Type ℓ} ⦃key : Key K⦄ (empty : K) (mask : ℕ) (b : ℕ → K × V) where
  -- The probe sequence of a key passes its `j`-th position.
  abbrev pub Passed : K → ℕ → Type 0
  Passed k j = PassedAt empty b k (at mask k j)

  -- The position is the first of the sequence that the key does not pass.
  pub record Reach (k : K) (i : ℕ) : Type 0 where
    pub steps : ℕ
    pub lands : at mask k steps ≡ i
    pub passes : (j : ℕ) → j < steps → Passed k j

  abbrev pub Chained : ℕ → Type 0
  Chained n = (i : ℕ) → i < n → Used empty b i → Reach (b i).0 i

  Reach-congr : (k q : K) (i : ℕ) → (k =k= q) ≡ true → Reach k i → Reach q i
  Reach-congr k q i e r = record {
    steps = r.steps;
    lands = sym (at_congr mask k q e r.steps) ∙ r.lands;
    passes = λ j h.
        let same : at mask k j ≡ at mask q j = at_congr mask k q e j in
        let p : Passed k j = r.passes j h in
        (
          subst (λ m. ((b m).0 =k= empty) ≡ false) same p.0,
          subst (λ m. ((b m).0 =k= q) ≡ false) same
              (sym (=k=_congr_right (b (at mask k j)).0 k q e) ∙ p.1),
        );
  }

  module _ {n : ℕ} (chained : Chained n) where
    -- The slot of a key is reached by that key.
    pub Slot-Reach : (q : K) (i : ℕ) → Slot empty b n q i → Reach q i
    Slot-Reach q i s = Reach-congr (b i).0 q i s.same (chained i s.inside s.used)

    blocked : (q : K) (i : ℕ) → Slot empty b n q i → ¬ PassedAt empty b q i
    blocked q i s p = ground (arith, s.same)

    -- A key is at most once in the vector.
    pub Slot-unique : (q : K) (i j : ℕ) → Slot empty b n q i → Slot empty b n q j → i ≡ j
    Slot-unique q i j s s' =
        let r : Reach q i = Slot-Reach q i s in
        let r' : Reach q j = Slot-Reach q j s' in
        elim (order r.steps r'.steps) [
          | inl before ↦
              absurd (blocked q i s (subst (PassedAt empty b q) r.lands (r'.passes r.steps before)))
          | inr (inl same) ↦ sym r.lands ∙ (ap (at mask q) same ∙ r'.lands)
          | inr (inr after) ↦
              absurd
                (blocked q j s' (subst (PassedAt empty b q) r'.lands (r.passes r'.steps after)))
        ]

    -- A key that reaches a free position has no slot.
    pub Free-missing : (q : K) (i : ℕ) → Reach q i → Free empty b i → (m : ℕ) → ¬ Slot empty b n q m
    Free-missing q i r free m s =
        let r' : Reach q m = Slot-Reach q m s in
        elim (order r.steps r'.steps) [
          | inl before ↦
              let p : PassedAt empty b q i =
                subst (PassedAt empty b q) r.lands (r'.passes r.steps before) in
              let used : Used empty b i = p.0 in ground arith
          | inr (inl same) ↦
              let e : i ≡ m = sym r.lands ∙ (ap (at mask q) same ∙ r'.lands) in
              let used : Used empty b i = subst (Used empty b) (sym e) s.used in ground arith
          | inr (inr after) ↦
              blocked q m s (subst (PassedAt empty b q) r'.lands (r.passes r'.steps after))
        ]

  pub Reach-inside : (q : K) (i : ℕ) → Reach q i → i ≤ mask
  Reach-inside q i r = subst (λ m. m ≤ mask) r.lands (at_le mask q r.steps)

  -- Where a search ends.
  pub record Stop (q : K) (r : Bool × ℕ) : Type 0 where
    pub reach : Reach q r.1
    pub found : r.0 ≡ true → Used empty b r.1 × (((b r.1).0 =k= q) ≡ true)
    pub missed : r.0 ≡ false → Free empty b r.1

  -- A search that has passed `j` positions, and will meet a free one at `last`.
  seek-Stop :
      (q : K) (fuel j last : ℕ)
      → last < fuel + j
      → j ≤ last
      → Free empty b (at mask q last)
      → ((i : ℕ) → i < j → Passed q i)
      → Ends (Stop q) (seek empty mask q b fuel (at mask q j))
  unfolding seek at
  seek-Stop q zero j last h h' free passed = absurd (omega arith)
  seek-Stop q (suc fuel) j last h h' free passed =
      Ends-if ((b (at mask q j)).0 =k= empty)
        (λ at_free. ends (record {
          reach = record { steps = j; lands = refl; passes = passed };
          found = λ e. absurd (ground arith);
          missed = λ e. at_free;
        }))
        (λ used.
          Ends-if ((b (at mask q j)).0 =k= q)
            (λ same. ends (record {
              reach = record { steps = j; lands = refl; passes = passed };
              found = λ e. (used, same);
              missed = λ e. absurd (ground arith);
            }))
            (λ other.
              let later : j ≢ last = λ e.
                let free_here : Free empty b (at mask q j) =
                  subst (λ m. Free empty b (at mask q m)) (sym e) free in
                ground arith in
              seek-Stop q fuel (suc j) last (omega arith) (omega arith) free
                (one_more (Passed q) j passed (used, other))))

  -- The search of a key decides whether it has a slot, when some position is free.
  pub seek_decides :
      (e : ℕ) (q : K) (free : ℕ)
      → mask ≡ 2 ^ e - 1
      → free < 2 ^ e
      → Free empty b free
      → Ends (Stop q) (seek empty mask q b (2 ^ e) (masked mask q))
  unfolding at
  seek_decides e q free is_mask below is_free =
      let (j, less, lands) = at_reaches e q free below in
      let lands' : at mask q j ≡ free = ap (λ m. at m q j) is_mask ∙ lands in
      seek-Stop q (2 ^ e) 0 j (omega arith) (omega arith)
        (subst (Free empty b) (sym lands') is_free) (λ i h. absurd (omega arith))

  -- A search for a free position passes used ones.
  pub record FreeStop (q : K) (i : ℕ) : Type 0 where
    pub steps : ℕ
    pub lands : at mask q steps ≡ i
    pub passes : (j : ℕ) → j < steps → Used empty b (at mask q j)
    pub free : Free empty b i

  seek_free-Stop :
      (q : K) (fuel j last : ℕ)
      → last < fuel + j
      → j ≤ last
      → Free empty b (at mask q last)
      → ((i : ℕ) → i < j → Used empty b (at mask q i))
      → Ends (FreeStop q) (seek_free empty mask q b fuel (at mask q j))
  unfolding seek_free at
  seek_free-Stop q zero j last h h' free passed = absurd (omega arith)
  seek_free-Stop q (suc fuel) j last h h' free passed =
      Ends-if ((b (at mask q j)).0 =k= empty)
        (λ at_free. ends (record { steps = j; lands = refl; passes = passed; free = at_free }))
        (λ used.
          let later : j ≢ last = λ e.
            let free_here : Free empty b (at mask q j) =
              subst (λ m. Free empty b (at mask q m)) (sym e) free in
            ground arith in
          seek_free-Stop q fuel (suc j) last (omega arith) (omega arith) free
            (one_more (λ i. Used empty b (at mask q i)) j passed used))

  -- For a key that has no slot, what is passed holds other keys.
  pub seek_free_decides :
      (e : ℕ) (q : K) (free : ℕ)
      → mask ≡ 2 ^ e - 1
      → free < 2 ^ e
      → Free empty b free
      → ((i : ℕ) → ¬ Slot empty b (2 ^ e) q i)
      → Ends (λ i. Reach q i × Free empty b i) (seek_free empty mask q b (2 ^ e) (masked mask q))
  unfolding at
  seek_free_decides e q free is_mask below is_free missing =
      let (j, less, lands) = at_reaches e q free below in
      let lands' : at mask q j ≡ free = ap (λ m. at m q j) is_mask ∙ lands in
      Ends-map
        (seek_free-Stop q (2 ^ e) 0 j (omega arith) (omega arith)
          (subst (Free empty b) (sym lands') is_free) (λ i h. absurd (omega arith)))
        (λ i stop. (
          record {
            steps = stop.steps;
            lands = stop.lands;
            passes = λ m h.
                let used : Used empty b (at mask q m) = stop.passes m h in (used, not_here m used);
          },
          stop.free,
        ))
    where
      not_here : (m : ℕ) → Used empty b (at mask q m) → ((b (at mask q m)).0 =k= q) ≡ false
      not_here m used = elim (Bool-cases ((b (at mask q m)).0 =k= q)) [
        | inr other ↦ other
        | inl same ↦ absurd (
            missing (at mask q m) (record {
              inside = omega (arith, at_le mask q m, one-le-pow e 2 (omega arith));
              used = used;
              same = same;
            }))
      ]
