-- ===== src/Util/OpenHash/Rewrite.antt =====
-- A vector with the same keys and other values, for packages/basics/util/c_src/open_addressing_hash.h.
use mathlib.Core.Path.{subst}
use april_ann.Prelude.{
  ℕ, ◌≡◌, refl, true, false, Option, some, sym, ap, ◌∙◌, arith, inl, inr, Bool-cases, ◌==◌,
  if◌then◌else◌, ==_iff,
}
use april_ann.Prelude.Array.{update}
use april_ann.Util.HashKey.{Key, ◌=k=◌, =k=_congr_right}
use april_ann.Util.OpenHash.Probe.{at}
use april_ann.Util.OpenHash.Slots.{PassedAt, Reach, Slot, Chained}
use april_ann.Util.OpenHash.Store.{Look, present, missing}

module _ {ℓ} {K V : Type ℓ} ⦃key : Key K⦄ (empty : K) (mask n : ℕ) (b c : ℕ → K × V)
    (keys : (m : ℕ) → (b m).0 ≡ (c m).0) where
  Reach-same : (q : K) (i : ℕ) → Reach empty mask b q i → Reach empty mask c q i
  Reach-same q i r = record {
    steps = r.steps;
    lands = r.lands;
    passes = λ j h.
        let m : ℕ = at mask q j in
        let p : PassedAt empty b q m = r.passes j h in
        (
          subst (λ k. (k =k= empty) ≡ false) (keys m) p.0,
          subst (λ k. (k =k= q) ≡ false) (keys m) p.1,
        );
  }

  pub Slot-same : (q : K) (i : ℕ) → Slot empty b n q i → Slot empty c n q i
  Slot-same q i s = record {
    inside = s.inside;
    used = subst (λ k. (k =k= empty) ≡ false) (keys i) s.used;
    same = subst (λ k. (k =k= q) ≡ true) (keys i) s.same;
  }

  pub Chained-same : Chained empty mask b n → Chained empty mask c n
  Chained-same chained i h used =
      subst (λ k. Reach empty mask c k i) (keys i)
        (Reach-same (b i).0 i
          (chained i h (subst (λ k. (k =k= empty) ≡ false) (sym (keys i)) used)))

module _ {ℓ} {K V : Type ℓ} ⦃key : Key K⦄ (empty : K) (mask n : ℕ) (b : ℕ → K × V) (i : ℕ)
    (d : V) where
  abbrev pub rewritten : ℕ → K × V
  rewritten = update b i ((b i).0, d)

  pub same_keys : (m : ℕ) → (b m).0 ≡ (rewritten m).0
  same_keys m = elim (Bool-cases (i == m)) [
    | inl same ↦ let e : i ≡ m = (==_iff i m).0 same in rw same (ap (λ x. (b x).0) (sym e))
    | inr other ↦ rw other refl
  ]

  pub Look-rewritten :
      (k q : K)
      → Chained empty mask b n
      → Slot empty b n k i
      → {o : Option V} → Look empty b n q o
      → Look empty rewritten n q (if q =k= k then some d else o)
  Look-rewritten k q chained s look = elim (Bool-cases (q =k= k)) [
    | inl same ↦
        let equal : (k =k= q) ≡ true = key.equal_key_symm k q ∙ same in
        let value_there : (rewritten i).1 ≡ d =
          let e : (i == i) ≡ true = ground arith in rw e refl in
        rw same (
          subst (λ v. Look empty rewritten n q (some v)) value_there
            (present (
              Slot-same empty mask n b rewritten same_keys q i (record {
                inside = s.inside;
                used = s.used;
                same = sym (=k=_congr_right (b i).0 k q equal) ∙ s.same;
              }))))
    | inr other ↦ rw other (kept look other)
  ]
    where
      kept : {o : Option V} → Look empty b n q o → (q =k= k) ≡ false → Look empty rewritten n q o
      kept (present {i = m} t) other =
          let apart : (i == m) ≡ false = elim (Bool-cases (i == m)) [
            | inr elsewhere ↦ elsewhere
            | inl at_i ↦
                let e : i ≡ m = (==_iff i m).0 at_i in
                let here : ((b m).0 =k= k) ≡ true = subst (λ x. ((b x).0 =k= k) ≡ true) e s.same in
                let equal : (q =k= k) ≡ true =
                  key.equal_key_trans q (b m).0 k (key.equal_key_symm q (b m).0 ∙ t.same) here in
                absurd (ground arith)
          ] in
          let same : (rewritten m).1 ≡ (b m).1 = rw apart refl in
          subst (λ v. Look empty rewritten n q (some v)) same
            (present (Slot-same empty mask n b rewritten same_keys q m t))
      kept (missing h) other =
          missing (λ m t. h m (Slot-same empty mask n rewritten b (λ x. sym (same_keys x)) q m t))
