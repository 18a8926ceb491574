-- ===== src/Util/OpenHash/Move.antt =====
-- `resize` of packages/basics/util/c_src/open_addressing_hash.h: the pairs of the old vector move to a
-- new one.
use mathlib.Core.Path.{subst}
use native.Mathlib.Nat.{one-le-pow}
use april_ann.Prelude.{
  ℕ, zero, suc, ◌-◌, ◌^◌, ◌≤◌, ◌<◌, ◌≡◌, refl, true, false, Option, some, none, sym, ap, ◌∙◌, arith,
  inl, inr, Bool-cases, ◌==◌, ◌≢◌, if◌then◌else◌, ==_iff,
}
use april_ann.Prelude.Array.{update}
use april_ann.Prelude.Loop.{Ends, ends, Ends-bind}
use april_ann.Util.HashKey.{Key, ◌=k=◌}
use april_ann.Util.OpenHash.{move_slots}
use april_ann.Util.OpenHash.Slots.{
  Free, Used, Reach, Reach-inside, Slot, Chained, Slot-unique, seek_free_decides,
}
use april_ann.Util.OpenHash.Store.{
  Look, present, missing, used_count, used_count-store, room, Chained-stored, Look-stored,
}

module _ {ℓ} {K V : Type ℓ} ⦃key : Key K⦄ (empty : K) where
  pub Look-none :
      (b : ℕ → K × V) (n : ℕ) (q : K) {o : Option V}
      → Look empty b n q o
      → o ≡ none
      → (i : ℕ) → ¬ Slot empty b n q i
  Look-none b n q (present s) e i t = absurd (ground arith)
  Look-none b n q (missing h) e i t = h i t

  used_count_mono : (b : ℕ → K × V) (m n : ℕ) → m ≤ n → used_count empty b m ≤ used_count empty b n
  unfolding used_count
  used_count_mono b zero n h = omega arith
  used_count_mono b (suc m) zero h = absurd (omega arith)
  used_count_mono b (suc m) (suc n) h = elim (Bool-cases (m == n)) [
    | inl same ↦ let e : m ≡ n = (==_iff m n).0 same in rw e (omega arith)
    | inr other ↦ omega (arith, used_count_mono b (suc m) n (ground arith))
  ]

  -- A slot among fewer positions.
  Slot-narrow :
      (b : ℕ → K × V) (m n : ℕ) (q : K) (i : ℕ) → i < m → Slot empty b n q i → Slot empty b m q i
  Slot-narrow b m n q i h s = record { inside = h; used = s.used; same = s.same }

module _ {ℓ} {K V : Type ℓ} ⦃key : Key K⦄ (empty : K) (initial : V) (was n : ℕ) (old : ℕ → K × V)
    (chained_old : Chained empty was old n) (e : ℕ) (fits : used_count empty old n < 2 ^ e) where
  -- The pairs of the first `m` positions are in the new vector.
  pub record Moved (m : ℕ) (new : ℕ → K × V) : Type ℓ where
    pub chained : Chained empty (2 ^ e - 1) new (2 ^ e)
    pub looks : (q : K) {o : Option V} → Look empty old m q o → Look empty new (2 ^ e) q o
    pub counted : used_count empty new (2 ^ e) ≡ used_count empty old m

  -- A position before `suc m` that is not `m`.
  earlier : (m i : ℕ) → i < suc m → i ≢ m → i < m
  earlier m i h other = omega arith

  skipped : (m : ℕ) (new : ℕ → K × V) → Free empty old m → Moved m new → Moved (suc m) new
  unfolding used_count
  skipped m new free moved = record {
    chained = moved.chained;
    looks = λ q l. moved.looks q (narrow q l);
    counted = moved.counted ∙ rw free (omega arith);
  }
    where
      narrow : (q : K) {o : Option V} → Look empty old (suc m) q o → Look empty old m q o
      narrow q (present {i = i} s) =
          let apart : i ≢ m = λ at_m.
            let free_here : Free empty old i = subst (Free empty old) (sym at_m) free in
            let used : Used empty old i = s.used in ground arith in
          present (Slot-narrow empty old m (suc m) q i (earlier m i s.inside apart) s)
      narrow q (missing h) =
          missing
            (λ i s. h i (record { inside = omega (arith, s.inside); used = s.used; same = s.same }))

  -- A slot of the key at `m` is `m`.
  same-Slot :
      (m i : ℕ) (q : K) {a : ℕ}
      → m < n
      → Used empty old m
      → (q =k= (old m).0) ≡ true
      → a ≤ n
      → Slot empty old a q i
      → i ≡ m
  same-Slot m i q h used same g s =
      Slot-unique empty was old chained_old q i m
        (record { inside = omega (arith, s.inside); used = s.used; same = s.same })
        (record { inside = h; used = used; same = key.equal_key_symm (old m).0 q ∙ same })

  not_same :
      (m : ℕ) (q : K)
      → m < n
      → Used empty old m
      → ¬ ((q =k= (old m).0) ≡ true)
      → (q =k= (old m).0) ≡ false
  not_same m q h used other = elim (Bool-cases (q =k= (old m).0)) [
    | inl same ↦ absurd (other same)
    | inr differs ↦ differs
  ]

  -- The key at `m` has no slot before.
  first_time : (m : ℕ) → m < n → Used empty old m → (i : ℕ) → ¬ Slot empty old m (old m).0 i
  first_time m h used i s =
      let same : i ≡ m =
        same-Slot m i (old m).0 h used (key.equal_key_refl (old m).0) (omega arith) s in
      omega (arith, s.inside)

  -- What is found with one position more.
  last_one :
      (m : ℕ)
      → m < n
      → Used empty old m
      → (q : K) {o' : Option V} → Look empty old (suc m) q o'
      → (o : Option V) × Look empty old m q o
        × (o' ≡ (if q =k= (old m).0 then some (old m).1 else o))
  last_one m h used q (present {i = i} s) = elim (Bool-cases (i == m)) [
    | inl at_m ↦
        let e' : i ≡ m = (==_iff i m).0 at_m in
        let same : (q =k= (old m).0) ≡ true =
          key.equal_key_symm q (old m).0 ∙ subst (λ x. ((old x).0 =k= q) ≡ true) e' s.same in
        (
          none,
          missing (λ j t.
              let at_m' : j ≡ m = same-Slot m j q h used same (omega arith) t in
              omega (arith, t.inside)),
          ap (λ x. some (old x).1) e' ∙ rw same refl,
        )
    | inr elsewhere ↦
        let lower : i < m = earlier m i s.inside (ground arith) in
        (
          some (old i).1,
          present (Slot-narrow empty old m (suc m) q i lower s),
          rw
              (not_same m q h used (λ same.
                let at_m : i ≡ m = same-Slot m i q h used same (omega arith) s in omega arith))
              refl,
        )
  ]
  last_one m h used q (missing none_there) = (
    none,
    missing (λ i s.
        none_there i (record { inside = omega (arith, s.inside); used = s.used; same = s.same })),
    rw
        (not_same m q h used (λ same. none_there m (record {
          inside = omega arith;
          used = used;
          same = key.equal_key_symm (old m).0 q ∙ same;
        })))
        refl,
  )

  -- The pair at `m` is stored at a free position that its key reaches.
  Moved-one :
      (m i : ℕ) (new : ℕ → K × V)
      → m < n
      → Used empty old m
      → i < 2 ^ e
      → Reach empty (2 ^ e - 1) new (old m).0 i
      → Free empty new i
      → Moved m new
      → Moved (suc m) (update new i (old m))
  unfolding used_count
  Moved-one m i new h used inside reach free moved = record {
    chained =
        Chained-stored empty (2 ^ e - 1) (2 ^ e) new i (old m) inside free used moved.chained reach;
    looks = λ q l.
        let (o, below, eq) = last_one m h used q l in
        subst (Look empty (update new i (old m)) (2 ^ e) q) (sym eq) (
          Look-stored empty (2 ^ e - 1) (2 ^ e) new i (old m) inside free used
            (Look-none empty new (2 ^ e) (old m).0
              (moved.looks (old m).0 (missing (first_time m h used))) refl)
            q (moved.looks q below));
    counted =
        used_count-store empty new (2 ^ e) i (old m) inside free used
        ∙ rw (used, moved.counted) refl;
  }

  inside : (b : ℕ → K × V) (q : K) (j : ℕ) → Reach empty (2 ^ e - 1) b q j → j < 2 ^ e
  inside b q j r =
      omega (arith, Reach-inside empty (2 ^ e - 1) b q j r, one-le-pow e 2 (omega arith))

  Moved-none : Moved 0 (λ _. (empty, initial))
  unfolding used_count
  Moved-none = record {
    chained = λ i h used. absurd (ground (arith, key.equal_key_refl empty));
    looks = λ q l. nothing_yet q l;
    counted = nothing_used (2 ^ e);
  }
    where
      nothing_yet :
          (q : K) {o : Option V}
          → Look empty old 0 q o
          → Look empty (λ _. (empty, initial)) (2 ^ e) q o
      nothing_yet q (present s) = absurd (omega (arith, s.inside))
      nothing_yet q (missing h) = missing (λ i s.
          let used : (empty =k= empty) ≡ false = s.used in ground (arith, key.equal_key_refl empty))

      nothing_used : (m : ℕ) → used_count empty (λ _. (empty, initial)) m ≡ 0
      nothing_used zero = refl
      nothing_used (suc m) = rw (key.equal_key_refl empty) (omega (arith, nothing_used m))

  -- The loop of `resize` ends, when the new vector has room.
  pub move_slots-Moved : (m : ℕ) → m ≤ n → Ends (Moved m) (move_slots initial empty (2 ^ e) m old)
  unfolding move_slots
  move_slots-Moved zero h = ends Moved-none
  move_slots-Moved (suc m) h = Ends-bind (move_slots-Moved m (omega arith)) (λ new moved.
      elim (Bool-cases ((old m).0 =k= empty)) [
        | inl free ↦ rw free (ends (skipped m new free moved))
        | inr used ↦
            let less : used_count empty new (2 ^ e) < 2 ^ e =
              omega (arith, moved.counted, used_count_mono empty old m n (omega arith)) in
            let (i, below, free) = room empty new (2 ^ e) less in
            rw used (
              Ends-bind
                (seek_free_decides empty (2 ^ e - 1) new e (old m).0 i refl below free (
                  Look-none empty new (2 ^ e) (old m).0
                    (moved.looks (old m).0 (missing (first_time m (omega arith) used))) refl))
                (λ j p. ends (
                  Moved-one m j new (omega arith) used (inside new (old m).0 j p.0) p.0 p.1 moved)))
      ])
