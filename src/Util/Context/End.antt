-- ===== src/Util/Context/End.antt =====
-- What the window of packages/basics/util/c_src/context.h shows after the end of the input.
use mathlib.Core.Path.{subst}
use april_ann.Prelude.{
  ℕ, zero, suc, ◌+◌, ◌-◌, ◌≤◌, ◌<◌, ◌≡◌, refl, ap, true, false, some, arith, ◌∙◌, Bool-cases, inl,
  inr, ltb, if◌then◌else◌,
}
use april_ann.Util.Context.{Context, move_down, repeat_elem, vec_size, end_input, shift, ready}
use april_ann.Util.Context.Fill.{
  last_or_below, move_down_below, move_down_above, repeat_elem_inside, repeat_elem_outside,
}
use april_ann.Util.Context.Window.{IsWindow}

-- The number of an element, where the last of `n` stands for those after it.
abbrev pub held : ℕ → ℕ → ℕ
held n i = if ltb i n then i else n - 1

last_held :
    (b a n m i : ℕ)
    → n ≤ m + a + 1
    → 0 < n
    → i ≡ b + a
    → held n (i + m - b) ≡ held n (i + suc m - b)
last_held b a n m i l p e = ground arith

module _ {A : Type 0} where
  -- `n` calls of `shift`.
  unfoldable pub shifts : ℕ → Context A → Context A
  unfolding shift
  shifts zero c = c
  shifts (suc n) c = (shift (shifts n c)).1

  -- The number of the current element after the end and `n + 1` shifts.
  abbrev pub current : Context A → ℕ → ℕ
  current c n =
      c.num_inserts - (c.after + 1) + (if ltb c.num_inserts (vec_size c) then n else n + 1)

  shifts_after : (k : ℕ) (c : Context A) → shifts (suc k) c ≡ shifts k (shift c).1
  unfolding shifts
  shifts_after zero c = refl
  shifts_after (suc k) c = ap (λ y. (shift y).1) (shifts_after k c)

  end-num_shifts : (c : Context A) (k : ℕ) → c.num_shifts ≡ 0 → (end_input c).num_shifts + k ≡ k
  unfolding end_input
  end-num_shifts c k e = omega arith

  ready_bound :
      (c : Context A) (k a : ℕ)
      → c.is_ended ≡ true
      → c.num_shifts ≡ k + 1
      → c.after ≡ a
      → ready c ≡ true
      → k + 1 ≤ a
  ready_bound c k a ended counted same is_ready = ground arith

module _ {A : Type 0} (x : ℕ → A) where
  -- The input of `n` elements has ended, and the current element is the one with number `m`.
  pub record IsEnded (b a n m : ℕ) (c : Context A) : Type 0 where
    pub ended : c.is_ended ≡ true
    pub filled : c.fill_after ≡ false
    pub same_before : c.before ≡ b
    pub same_after : c.after ≡ a
    pub same_inserts : c.num_inserts ≡ n
    pub late : n ≤ m + a + 1
    pub some_input : 0 < n
    pub shown : (i : ℕ) → i < b + a + 1 → c.vec i ≡ some (x (held n (i + m - b)))

  shift-shown :
      (b a n m : ℕ) (c : Context A)
      → IsEnded b a n m c
      → (i : ℕ) → i < b + a + 1
      → move_down (c.before + c.after) c.vec i ≡ some (x (held n (i + suc m - b)))
  shift-shown b a n m c o i room =
      let eb = o.same_before in
      let ea = o.same_after in
      elim (last_or_below i (c.before + c.after) (omega arith)) [
        | inl e ↦
            move_down_above (c.before + c.after) c.vec i (omega arith)
            ∙ o.shown i room
            ∙ ap (λ k. some (x k)) (last_held b a n m i o.late o.some_input (omega arith))
        | inr below ↦
            move_down_below (c.before + c.after) c.vec i below
            ∙ o.shown (i + 1) (omega arith)
            ∙ ap (λ k. some (x (held n k))) (omega arith)
      ]

  shift-IsEnded :
      (b a n m : ℕ) (c : Context A)
      → IsEnded b a n m c
      → IsEnded b a n (suc m) (shift c).1 × ((shift c).1.num_shifts ≡ c.num_shifts + 1)
  unfolding shift
  shift-IsEnded b a n m c o =
      rw (o.ended, o.filled)
        (
          record {
            ended = refl;
            filled = refl;
            same_before = o.same_before;
            same_after = o.same_after;
            same_inserts = o.same_inserts;
            late = let l = o.late in omega arith;
            some_input = o.some_input;
            shown = shift-shown b a n m c o;
          },
          refl,
        )

  -- How many elements of the vector are missing behind the last when the input ends.
  abbrev missing_behind : Context A → ℕ
  missing_behind c = c.before + c.after + 1 - (c.before + c.num_inserts)

  filled-shown :
      (c : Context A)
      → IsWindow x c
      → 0 < c.num_inserts
      → (i : ℕ) → i < c.before + c.after + 1
      → repeat_elem
          (c.before + c.num_inserts - 1)
          (c.before + c.num_inserts)
          (missing_behind c)
          c.vec
          i
        ≡ some (x (held c.num_inserts (i + (c.num_inserts - (c.after + 1)) - c.before)))
  filled-shown c o pos i room = elim (Bool-cases (ltb i (c.before + c.num_inserts))) [
    | inl inside ↦
        repeat_elem_outside (c.before + c.num_inserts - 1) (c.before + c.num_inserts)
          (missing_behind c) c.vec i (inl (ground arith))
        ∙ o.shown i pos room (ground arith)
        ∙ ap (λ k. some (x k)) (ground arith)
    | inr outside ↦
        repeat_elem_inside (c.before + c.num_inserts - 1) (c.before + c.num_inserts)
          (missing_behind c) c.vec i (inl (omega arith)) (ground arith) (ground arith)
        ∙ o.shown (c.before + c.num_inserts - 1) pos (ground arith) (omega arith)
        ∙ ap (λ k. some (x k)) (ground arith)
  ]

  -- The first shift only fills the vector when fewer elements came than it holds.
  fill-IsEnded :
      (c : Context A)
      → IsWindow x c
      → 0 < c.num_inserts
      → c.num_inserts < c.before + c.after + 1
      → IsEnded c.before c.after c.num_inserts
          (c.num_inserts - (c.after + 1))
          (shift (end_input c)).1
        × ((shift (end_input c)).1.num_shifts ≡ 1)
  unfolding shift end_input
  fill-IsEnded c o pos few =
      let some_in : ltb 0 c.num_inserts ≡ true = ground arith in
      let not_full : ltb c.num_inserts (c.before + c.after + 1) ≡ true = ground arith in
      rw (some_in, not_full, o.unshifted)
        (
          record {
            ended = refl;
            filled = refl;
            same_before = refl;
            same_after = refl;
            same_inserts = refl;
            late = omega arith;
            some_input = pos;
            shown = filled-shown c o pos;
          },
          refl,
        )

  full-IsEnded :
      (c : Context A)
      → IsWindow x c
      → 0 < c.num_inserts
      → c.before + c.after + 1 ≤ c.num_inserts
      → IsEnded c.before c.after c.num_inserts (c.num_inserts - (c.after + 1)) (end_input c)
  unfolding end_input
  full-IsEnded c o pos many =
      let full : ltb c.num_inserts (c.before + c.after + 1) ≡ false = ground arith in
      let some_in : ltb 0 c.num_inserts ≡ true = ground arith in
      record {
        ended = refl;
        filled = rw (some_in, full) refl;
        same_before = refl;
        same_after = refl;
        same_inserts = refl;
        late = omega arith;
        some_input = pos;
        shown = λ i room. o.shown i pos room (omega arith) ∙ ap (λ k. some (x k)) (ground arith);
      }

  shifted_on :
      (b a n m : ℕ) (k : ℕ) (c : Context A)
      → IsEnded b a n m c
      → IsEnded b a n (m + k) (shifts k c) × ((shifts k c).num_shifts ≡ c.num_shifts + k)
  unfolding shifts
  shifted_on b a n m zero c o = (subst (λ j. IsEnded b a n j c) (omega arith) o, omega arith)
  shifted_on b a n m (suc k) c o =
      let (p, q) = shifted_on b a n m k c o in
      let (p', q') = shift-IsEnded b a n (m + k) (shifts k c) p in
      (subst (λ j. IsEnded b a n j (shift (shifts k c)).1) (omega arith) p', q' ∙ omega arith)

  -- What `k + 1` shifts after the end leave of the window `c`.
  pub record Shifted (c : Context A) (k : ℕ) (c' : Context A) : Type 0 where
    pub ended : IsEnded c.before c.after c.num_inserts (current c k) c'
    pub counted : c'.num_shifts ≡ k + 1

  -- After the end of an input that is not empty, every shift shows the surroundings of the next element,
  -- where what would come after the last element is the last; but the first shift of an input that is
  -- shorter than the vector stays at the element that the last insertion made current, or at the first.
  pub shifts_correct :
      (c : Context A) (k : ℕ)
      → IsWindow x c
      → 0 < c.num_inserts
      → Shifted c k (shifts (suc k) (end_input c))
  shifts_correct c k o pos = elim (Bool-cases (ltb c.num_inserts (vec_size c))) [
    | inl few ↦
        let (e, counted) = fill-IsEnded c o pos (ground arith) in
        let (e', counted') =
          shifted_on c.before c.after c.num_inserts (c.num_inserts - (c.after + 1)) k
            (shift (end_input c)).1 e in
        rw (shifts_after k (end_input c)) (record { ended = rw few e'; counted = omega arith })
    | inr many ↦
        let e = full-IsEnded c o pos (ground arith) in
        let (e', counted') =
          shifted_on c.before c.after c.num_inserts (c.num_inserts - (c.after + 1)) (suc k)
            (end_input c) e in
        record {
          ended = rw many (
              subst
                (λ j.
                  IsEnded c.before c.after c.num_inserts (c.num_inserts - (c.after + 1) + j)
                    (shifts (suc k) (end_input c)))
                (omega arith) e');
          counted = counted' ∙ end-num_shifts c (suc k) o.unshifted ∙ omega arith;
        }
  ]

  at_current :
      (b a n k k' : ℕ)
      → a < n
      → k + 1 ≤ a
      → k' ≡ k
      → held n (b + (n - (a + 1) + k') - b) ≡ n - (a + 1) + k
  at_current b a n k k' p q e = ground arith

  -- Without a shift, the current element is the one that the last insertion made current.
  unshifted_lem :
      (c : Context A)
      → IsWindow x c
      → c.after < c.num_inserts
      → (shifts 0 (end_input c)).vec c.before ≡ some (x (c.num_inserts - (c.after + 1)))
  unfolding shifts end_input
  unshifted_lem c o enough =
      o.shown c.before (omega arith) (omega arith) (omega arith)
      ∙ ap (λ j. some (x j)) (omega arith)

  -- When the window keeps elements after the current one, and the input had fewer elements than the vector
  -- holds but enough to make one current, the last element is not current after the end of the input and
  -- any number of shifts, 0 included, at which the window is ready.
  pub last_is_skipped :
      (c : Context A) (k : ℕ)
      → IsWindow x c
      → 0 < c.after
      → c.after < c.num_inserts
      → c.num_inserts < vec_size c
      → ready (shifts k (end_input c)) ≡ true
      → (m : ℕ) × ((shifts k (end_input c)).vec c.before ≡ some (x m)) × (m + 1 < c.num_inserts)
  last_is_skipped c zero o behind enough few is_ready =
      (c.num_inserts - (c.after + 1), unshifted_lem c o enough, omega arith)
  last_is_skipped c (suc k) o behind enough few is_ready =
      let s = shifts_correct c k o (omega arith) in
      let short =
        ready_bound (shifts (suc k) (end_input c)) k c.after s.ended.ended s.counted
          s.ended.same_after is_ready in
      let m = c.num_inserts - (c.after + 1) + k in
      let not_full : ltb c.num_inserts (vec_size c) ≡ true = ground arith in
      let stays : (if ltb c.num_inserts (vec_size c) then k else k + 1) ≡ k = rw not_full refl in
      let at_m = at_current c.before c.after c.num_inserts k _ enough short stays in
      (m, s.ended.shown c.before (omega arith) ∙ ap (λ j. some (x j)) at_m, omega arith)
