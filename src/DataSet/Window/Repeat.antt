-- ===== src/DataSet/Window/Repeat.antt =====
-- dataset.cc: loops that fill a vector from front to back.
use april_ann.Prelude.{
  ℕ, zero, suc, ◌+◌, ◌*◌, ◌<◌, ◌≤◌, ◌≡◌, ◌⊎◌, inl, inr, ◌==◌, arith, refl, Bool-cases, ap, ◌∙◌,
}
use april_ann.DataSet.Window.{Filling, append, repeat}

-- From `o` to `o'`, `w` values are appended; the one with the key `k` stands at `at k` behind the others.
pub record Wrote {A T : Type 0} (In : A → Type 0) (at : A → ℕ) (w : ℕ) (f : A → T)
    (o o' : Filling T) : Type 0 where
  pub length : o'.offsetpat ≡ o.offsetpat + w
  pub inside : (k : A) → In k → o'.pattern (o.offsetpat + at k) ≡ f k
  pub outside : (j : ℕ) → (j < o.offsetpat) ⊎ (o.offsetpat + w ≤ j) → o'.pattern j ≡ o.pattern j

-- The same for `n` rounds, in which round `i` appends `w` values.
pub record WroteAll {A T : Type 0} (In : A → Type 0) (at : A → ℕ) (w n : ℕ) (f : ℕ → A → T)
    (o o' : Filling T) : Type 0 where
  pub length : o'.offsetpat ≡ o.offsetpat + n * w
  pub inside : (i : ℕ) (k : A) → i < n → In k → o'.pattern (o.offsetpat + (i * w + at k)) ≡ f i k
  pub outside : (j : ℕ) → (j < o.offsetpat) ⊎ (o.offsetpat + n * w ≤ j) → o'.pattern j ≡ o.pattern j

pub row_below : (i n w q : ℕ) → i < n → q < w → i * w + q < n * w
row_below i n w q l r = grind arith

row_next : (n w : ℕ) → suc n * w ≡ n * w + w
row_next n w = grind arith

module _ {A T : Type 0} (In : A → Type 0) (at : A → ℕ) (w : ℕ) (f : ℕ → A → T) where
  WroteAll-suc :
      (n : ℕ) (o x y : Filling T)
      → ((k : A) → In k → at k < w)
      → WroteAll In at w n f o x
      → Wrote In at w (f n) x y
      → WroteAll In at w (suc n) f o y
  WroteAll-suc n o x y below before last = record {
    length = omega (arith, before.length, last.length, row_next n w);
    inside = λ i k l r. elim (Bool-cases (i == n)) [
      | inl same ↦
          let e : i ≡ n = ground arith in
          rw e (
            ap y.pattern {x = o.offsetpat + (n * w + at k)} (omega (arith, before.length))
            ∙ last.inside k r)
      | inr other ↦
          last.outside (o.offsetpat + (i * w + at k))
            (inl (omega (arith, before.length, row_below i n w (at k) (ground arith) (below k r))))
          ∙ before.inside i k (ground arith) r
    ];
    outside = λ j l. elim l [
      | inl left ↦ last.outside j (inl (omega (arith, before.length))) ∙ before.outside j (inl left)
      | inr right ↦
          last.outside j (inr (omega (arith, before.length, row_next n w)))
          ∙ before.outside j (inr (omega (arith, row_next n w)))
    ];
  }

  pub repeat-WroteAll :
      (n : ℕ) (body : ℕ → Filling T → Filling T) (o : Filling T)
      → ((k : A) → In k → at k < w)
      → ((i : ℕ) → i < n → (x : Filling T) → Wrote In at w (f i) x (body i x))
      → WroteAll In at w n f o (repeat n body o)
  unfolding repeat
  repeat-WroteAll zero body o below h = record {
    length = grind arith;
    inside = λ i k l r. absurd (omega arith);
    outside = λ j l. refl;
  }
  repeat-WroteAll (suc n) body o below h =
      WroteAll-suc n o (repeat n body o) (body n (repeat n body o)) below
        (repeat-WroteAll n body o below (λ i l. h i (omega arith)))
        (h n (omega arith) (repeat n body o))

-- One value appended.
pub append-Wrote :
    {T : Type 0} (v : T) (o : Filling T) → Wrote (λ q. q < 1) (λ q. q) 1 (λ q. v) o (append v o)
append-Wrote v o = record {
  length = refl;
  inside = λ k l. ground arith;
  outside = λ j l. ground arith;
}

module _ {A T : Type 0} {In : A → Type 0} {at : A → ℕ} {w : ℕ} {o o' : Filling T} where
  pub Wrote-cong :
      {f g : A → T} → ((k : A) → f k ≡ g k) → Wrote In at w f o o' → Wrote In at w g o o'
  Wrote-cong h r = record {
    length = r.length;
    inside = λ k l. r.inside k l ∙ h k;
    outside = r.outside;
  }

one_wide : (n q : ℕ) → q < 1 → n * 1 + q ≡ n
one_wide n q l = omega arith

-- Values appended one by one.
pub Wrote-of-ones :
    {A T : Type 0} (In : A → Type 0) (at : A → ℕ) (w : ℕ) (o o' : Filling T) (f : ℕ → T)
    → ((k : A) → In k → at k < w)
    → WroteAll (λ q. q < 1) (λ q. q) 1 w (λ i q. f i) o o'
    → Wrote In at w (λ k. f (at k)) o o'
Wrote-of-ones In at w o o' f below all = record {
  length = omega (arith, all.length);
  inside = λ k l.
      ap o'.pattern {x = o.offsetpat + at k} {y = o.offsetpat + (at k * 1 + 0)} (omega arith)
      ∙ all.inside (at k) 0 (below k l) (omega arith);
  outside = λ j l. all.outside j (elim l [ inl p ↦ inl p | inr q ↦ inr (omega arith) ]);
}
