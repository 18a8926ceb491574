-- ===== src/Util/OpenHash/Store.antt =====
-- A pair is stored at a free position that its key reaches, or the value of a pair is written: what
-- stands where afterwards, for packages/basics/util/c_src/open_addressing_hash.h.
use mathlib.Core.Path.{subst}
use april_ann.Prelude.{
  ℕ, zero, suc, ◌+◌, ◌<◌, ◌≡◌, refl, true, false, Option, some, none, sym, ap, ◌∙◌, arith, inl, inr,
  Bool-cases, ◌==◌, ◌≢◌, if◌then◌else◌, ==_iff,
}
use april_ann.Prelude.Array.{update}
use april_ann.Util.HashKey.{Key, ◌=k=◌}
use april_ann.Util.OpenHash.Probe.{at}
use april_ann.Util.OpenHash.Slots.{Free, Used, PassedAt, Reach, Slot, Chained, Slot-unique}

module _ {ℓ} {K V : Type ℓ} ⦃key : Key K⦄ (empty : K) where
  -- How many of the positions before `m` are used.
  unfoldable pub used_count : (ℕ → K × V) → ℕ → ℕ
  used_count b zero = 0
  used_count b (suc m) = used_count b m + (if (b m).0 =k= empty then 0 else 1)

  pub used_count_cong :
      (a b : ℕ → K × V) (m : ℕ)
      → ((i : ℕ) → i < m → (a i).0 ≡ (b i).0)
      → used_count a m ≡ used_count b m
  unfolding used_count
  used_count_cong a b zero h = refl
  used_count_cong a b (suc m) h =
      let here : (a m).0 ≡ (b m).0 = h m (omega arith) in
      rw (here, used_count_cong a b m (λ i g. h i (omega arith))) refl

  pub used_count-store :
      (b : ℕ → K × V) (m i : ℕ) (e : K × V)
      → i < m
      → Free empty b i
      → (e.0 =k= empty) ≡ false
      → used_count (update b i e) m ≡ used_count b m + 1
  unfolding used_count
  used_count-store b zero i e h free other = absurd (omega arith)
  used_count-store b (suc m) i e h free other = elim (Bool-cases (i == m)) [
    | inl same ↦
        let at_m : i ≡ m = ground arith in
        let before : used_count (update b i e) m ≡ used_count b m =
          used_count_cong (update b i e) b m
            (λ j g. let apart : (i == j) ≡ false = ground arith in rw apart refl) in
        rw (before, same, other, sym at_m, free) (omega arith)
    | inr elsewhere ↦
        rw elsewhere (omega (arith, used_count-store b m i e (ground arith) free other))
  ]

  -- Fewer used positions than positions leave a free one.
  pub room :
      (b : ℕ → K × V) (m : ℕ)
      → used_count b m < m
      → (i : ℕ) × (i < m) × (((b i).0 =k= empty) ≡ true)
  unfolding used_count
  room b zero h = absurd (omega arith)
  room b (suc m) h = elim (Bool-cases ((b m).0 =k= empty)) [
    | inl free ↦ (m, omega arith, free)
    | inr used ↦ let (i, below, free) = room b m (ground arith) in (i, omega arith, free)
  ]

-- What is found under a key, from what stands in the slots.
module _ {ℓ} {K V : Type ℓ} ⦃key : Key K⦄ (empty : K) (b : ℕ → K × V) (n : ℕ) (q : K) where
  pub data Look : Option V → Type ℓ where
    present : {i : ℕ} → Slot empty b n q i → Look (some (b i).1)
    missing : ((i : ℕ) → ¬ Slot empty b n q i) → Look none

module _ {ℓ} {K V : Type ℓ} ⦃key : Key K⦄ (empty : K) (mask n : ℕ) (b : ℕ → K × V) where
  pub Look-unique :
      Chained empty mask b n
      → (q : K) {o o' : Option V} → Look empty b n q o
      → Look empty b n q o'
      → o ≡ o'
  Look-unique chained q (present s) (present s') =
      ap (λ i. some (b i).1) (Slot-unique empty mask b chained q _ _ s s')
  Look-unique chained q (present s) (missing h) = absurd (h _ s)
  Look-unique chained q (missing h) (present s) = absurd (h _ s)
  Look-unique chained q (missing h) (missing h') = refl

  -- `e` is stored at a free position that its key reaches.
  module _ (i : ℕ) (e : K × V) (inside : i < n) (free : Free empty b i)
      (real : (e.0 =k= empty) ≡ false) where
    abbrev pub stored : ℕ → K × V
    stored = update b i e

    at_other : (m : ℕ) → i ≢ m → stored m ≡ b m
    at_other m h = let apart : (i == m) ≡ false = ground arith in rw apart refl

    at_same : stored i ≡ e
    at_same = let same : (i == i) ≡ true = ground arith in rw same refl

    Used-other : (m : ℕ) → Used empty b m → i ≢ m
    Used-other m used same =
        let free_here : Free empty b m = subst (Free empty b) same free in ground arith

    PassedAt-stored : (q : K) (m : ℕ) → PassedAt empty b q m → PassedAt empty stored q m
    PassedAt-stored q m p =
        subst (λ x. ((x.0 =k= empty) ≡ false) × ((x.0 =k= q) ≡ false))
          (sym (at_other m (Used-other m p.0))) p

    Reach-stored : (q : K) (m : ℕ) → Reach empty mask b q m → Reach empty mask stored q m
    Reach-stored q m r = record {
      steps = r.steps;
      lands = r.lands;
      passes = λ j h. PassedAt-stored q (at mask q j) (r.passes j h);
    }

    Slot-stored : (q : K) (m : ℕ) → Slot empty b n q m → Slot empty stored n q m
    Slot-stored q m s =
        let same : stored m ≡ b m = at_other m (Used-other m s.used) in
        record {
          inside = s.inside;
          used = subst (λ x. (x.0 =k= empty) ≡ false) (sym same) s.used;
          same = subst (λ x. (x.0 =k= q) ≡ true) (sym same) s.same;
        }

    Slot-stored_old : (q : K) (m : ℕ) → i ≢ m → Slot empty stored n q m → Slot empty b n q m
    Slot-stored_old q m other s =
        let same : stored m ≡ b m = at_other m other in
        record {
          inside = s.inside;
          used = subst (λ x. (x.0 =k= empty) ≡ false) same s.used;
          same = subst (λ x. (x.0 =k= q) ≡ true) same s.same;
        }

    pub Chained-stored :
        Chained empty mask b n → Reach empty mask b e.0 i → Chained empty mask stored n
    Chained-stored chained reach m h used = elim (Bool-cases (i == m)) [
      | inl same ↦
          let e' : i ≡ m = (==_iff i m).0 same in
          let key_there : (stored m).0 ≡ e.0 =
            ap (λ x. (stored x).0) (sym e') ∙ ap (λ x. x.0) at_same in
          subst (λ k. Reach empty mask stored k m) (sym key_there)
            (Reach-stored e.0 m (subst (Reach empty mask b e.0) e' reach))
      | inr other ↦
          let apart : i ≢ m = ground arith in
          let same : stored m ≡ b m = at_other m apart in
          let used_before : Used empty b m = subst (λ x. (x.0 =k= empty) ≡ false) same used in
          subst (λ x. Reach empty mask stored x.0 m) (sym same)
            (Reach-stored (b m).0 m (chained m h used_before))
    ]

    pub Look-stored :
        ((m : ℕ) → ¬ Slot empty b n e.0 m)
        → (q : K) {o : Option V} → Look empty b n q o
        → Look empty stored n q (if q =k= e.0 then some e.1 else o)
    Look-stored new q {o = o} look = elim (Bool-cases (q =k= e.0)) [
      | inl same ↦ rw same (
          subst (λ x. Look empty stored n q (some x.1)) at_same
            (present (record {
              inside = inside;
              used = subst (λ x. (x.0 =k= empty) ≡ false) (sym at_same) real;
              same =
                  subst (λ x. (x.0 =k= q) ≡ true) (sym at_same) (key.equal_key_symm e.0 q ∙ same);
            })))
      | inr other ↦ rw other (kept look other)
    ]
      where
        kept : {o : Option V} → Look empty b n q o → (q =k= e.0) ≡ false → Look empty stored n q o
        kept (present {i = m} s) other =
            subst (λ x. Look empty stored n q (some x.1)) (at_other m (Used-other m s.used))
              (present (Slot-stored q m s))
        kept (missing h) other = missing (λ m s. elim (Bool-cases (i == m)) [
          | inl at_i ↦
              let e' : i ≡ m = (==_iff i m).0 at_i in
              let s' : Slot empty stored n q i = subst (Slot empty stored n q) (sym e') s in
              let here : (e.0 =k= q) ≡ true = subst (λ x. (x.0 =k= q) ≡ true) at_same s'.same in
              let there : (e.0 =k= q) ≡ false = key.equal_key_symm e.0 q ∙ other in ground arith
          | inr elsewhere ↦ h m (Slot-stored_old q m (ground arith) s)
        ])
