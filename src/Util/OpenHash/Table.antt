-- ===== src/Util/OpenHash/Table.antt =====
-- The tables of packages/basics/util/c_src/open_addressing_hash.h: what their operations keep, the search
-- and `resize`.
use mathlib.Core.Path.{subst}
use native.Mathlib.Nat.{one-le-pow, two-pow-succ}
use april_ann.Prelude.{
  ℕ, zero, suc, ◌+◌, ◌-◌, ◌^◌, ◌≤◌, ◌<◌, ◌≡◌, refl, true, Option, some, none, sym, arith, inl, inr,
  Bool-cases, ◌==◌, ltb,
}
use april_ann.Prelude.Loop.{Ends, ends, Ends-bind, Ends-if}
use april_ann.Util.HashKey.{Key, ◌=k=◌, masked}
use april_ann.Util.HashTable.{double_up}
use april_ann.Util.OpenHash.{
  OpenHash, seek, seek_free, move_slots, find, find_pair, resize, first_power_of_2,
}
use april_ann.Util.OpenHash.Move.{Moved, move_slots-Moved}
use april_ann.Util.OpenHash.Slots.{
  Free, Used, Reach, Slot, Chained, Stop, seek_decides, seek_free_decides, Free-missing,
  Reach-inside,
}
use april_ann.Util.OpenHash.Store.{Look, present, missing, used_count, room}

double_up_power :
    (fuel e value : ℕ)
    → 0 < fuel
    → value < fuel + 2 ^ e
    → Ends (λ r. ((e' : ℕ) × (r ≡ 2 ^ e')) × (value ≤ r)) (double_up fuel (2 ^ e) value)
unfolding double_up
double_up_power zero e value q h = absurd (omega arith)
double_up_power (suc fuel) e value q h =
    Ends-if (ltb (2 ^ e) value)
      (λ below.
        let lt : 2 ^ e < value = ground arith in
        rw (sym (two-pow-succ e)) (
          double_up_power fuel (suc e) value (omega arith)
            (omega (arith, two-pow-succ e, one-le-pow e 2 (omega arith)))))
      (λ above. ends ((e, refl), ground arith))

pub first_power_correct :
    (value : ℕ) → Ends (λ r. ((e : ℕ) × (r ≡ 2 ^ e)) × (value ≤ r)) (first_power_of_2 value)
unfolding first_power_of_2
first_power_correct value = double_up_power (suc value) 2 value (omega arith) (omega arith)

module _ {ℓ} {K V F : Type ℓ} ⦃key : Key K⦄ where
  abbrev pub used_of : OpenHash K V F → ℕ
  used_of t = used_count t.empty_key t.buckets t.num_buckets

  abbrev pub SlotOf : OpenHash K V F → K → ℕ → Type 0
  SlotOf t q i = Slot t.empty_key t.buckets t.num_buckets q i

  abbrev pub LookOf : OpenHash K V F → K → Option V → Type ℓ
  LookOf t q o = Look t.empty_key t.buckets t.num_buckets q o

  module _ (ceil_load : F → ℕ → ℕ) where
    -- The vector is in order and has room.
    pub record Arranged (t : OpenHash K V F) : Type ℓ where
      pub power_of : (e : ℕ) × (t.num_buckets ≡ 2 ^ e)
      pub mask_of : t.hash_mask + 1 ≡ t.num_buckets
      pub chained : Chained t.empty_key t.hash_mask t.buckets t.num_buckets
      pub roomy : used_of t < t.num_buckets
      pub threshold_of : t.rehash_threshold ≡ ceil_load t.max_load_factor t.num_buckets

    -- The size counts the used positions too.
    pub record IsOpen (t : OpenHash K V F) : Type ℓ where
      pub arranged : Arranged t
      pub counted : t.the_size ≡ used_of t

    module _ (t : OpenHash K V F) (arranged : Arranged t) where
      mask_eq : (e : ℕ) → t.num_buckets ≡ 2 ^ e → t.hash_mask ≡ 2 ^ e - 1
      mask_eq e power = omega (arith, arranged.mask_of)

      -- The loop of the search ends.
      pub seek-Ends :
          (q : K)
          → Ends
              (Stop t.empty_key t.hash_mask t.buckets q)
              (seek t.empty_key t.hash_mask q t.buckets t.num_buckets (masked t.hash_mask q))
      seek-Ends q =
          let (e, power) = arranged.power_of in
          let (i, below, free) = room t.empty_key t.buckets t.num_buckets arranged.roomy in
          subst
            (λ n.
              Ends (Stop t.empty_key t.hash_mask t.buckets q)
                (seek t.empty_key t.hash_mask q t.buckets n (masked t.hash_mask q)))
            (sym power)
            (seek_decides t.empty_key t.hash_mask t.buckets e q i (mask_eq e power) (omega arith)
              free)

      -- So does the search for a free position, for a key that has no slot.
      pub seek_free-Ends :
          (q : K)
          → ((i : ℕ) → ¬ SlotOf t q i)
          → Ends
              (λ i. Reach t.empty_key t.hash_mask t.buckets q i × Free t.empty_key t.buckets i)
              (seek_free t.empty_key t.hash_mask q t.buckets t.num_buckets (masked t.hash_mask q))
      seek_free-Ends q none_there =
          let (e, power) = arranged.power_of in
          let (i, below, free) = room t.empty_key t.buckets t.num_buckets arranged.roomy in
          subst
            (λ n.
              Ends (λ i. Reach t.empty_key t.hash_mask t.buckets q i × Free t.empty_key t.buckets i)
                (seek_free t.empty_key t.hash_mask q t.buckets n (masked t.hash_mask q)))
            (sym power)
            (seek_free_decides t.empty_key t.hash_mask t.buckets e q i (mask_eq e power)
              (omega arith) free
              (λ m s.
                none_there m
                  (record { inside = omega (arith, s.inside); used = s.used; same = s.same })))

      pub stop_inside :
          (q : K) (i : ℕ) → Reach t.empty_key t.hash_mask t.buckets q i → i < t.num_buckets
      stop_inside q i r =
          omega (arith, arranged.mask_of, Reach-inside t.empty_key t.hash_mask t.buckets q i r)

      -- `find` ends, with the value of the key's slot, or nothing when it has none.
      pub find_correct : (q : K) → Ends (LookOf t q) (find t q)
      unfolding find find_pair
      find_correct q =
          Ends-bind
            (Ends-bind {Q = λ p. LookOf t q (elim p [ none ↦ none | some e ↦ some e.1 ])}
              (seek-Ends q)
              (λ r stop. elim (Bool-cases r.0) [
                | inl found ↦
                    let here : Used t.empty_key t.buckets r.1 × (((t.buckets r.1).0 =k= q) ≡ true) =
                      stop.found found in
                    rw found (
                      ends (
                        present (record {
                          inside = stop_inside q r.1 stop.reach;
                          used = here.0;
                          same = here.1;
                        })))
                | inr missed ↦ rw missed (
                    ends (
                      missing (
                        Free-missing t.empty_key t.hash_mask t.buckets arranged.chained q r.1
                          stop.reach (stop.missed missed))))
              ]))
            (λ p l. ends l)

    module _ (initial : V) (t : OpenHash K V F) (arranged : Arranged t) where
      -- What `resize` keeps.
      pub record Resized (n : ℕ) (u : OpenHash K V F) : Type ℓ where
        pub still : Arranged u
        pub same_count : used_of u ≡ used_of t
        pub same_size : u.the_size ≡ t.the_size
        pub same_empty : u.empty_key ≡ t.empty_key
        pub same_looks : (q : K) {o : Option V} → LookOf t q o → LookOf u q o
        pub enough : n ≤ u.num_buckets

      -- `resize` ends, when the pairs are fewer than the positions asked for.
      pub resize_correct : (n : ℕ) → used_of t < n → Ends (Resized n) (resize ceil_load initial n t)
      unfolding resize
      resize_correct n fits = Ends-bind (first_power_correct n) (λ m p.
          let (e, power) = p.0 in
          let fewer : used_of t < 2 ^ e = omega (arith, p.1) in
          elim (Bool-cases (m == t.num_buckets)) [
            | inl same ↦ rw same (
                ends (record {
                  still = arranged;
                  same_count = refl;
                  same_size = refl;
                  same_empty = refl;
                  same_looks = λ q l. l;
                  enough = ground (arith, p.1);
                }))
            | inr other ↦ rw other (
                Ends-bind
                  (subst
                    (λ k.
                      Ends
                        (Moved t.empty_key initial t.hash_mask t.num_buckets t.buckets
                          arranged.chained e fewer t.num_buckets)
                        (move_slots initial t.empty_key k t.num_buckets t.buckets))
                    (sym power)
                    (move_slots-Moved t.empty_key initial t.hash_mask t.num_buckets t.buckets
                      arranged.chained e fewer t.num_buckets (omega arith)))
                  (λ b moved.
                    let count : used_count t.empty_key b m ≡ used_of t =
                      subst (λ k. used_count t.empty_key b k ≡ used_of t) (sym power)
                        moved.counted in
                    ends (record {
                      still = record {
                        power_of = (e, power);
                        mask_of = omega (arith, one-le-pow e 2 (omega arith));
                        chained =
                            subst (λ k. Chained t.empty_key (k - 1) b k) (sym power) moved.chained;
                        roomy = omega (arith, p.1);
                        threshold_of = refl;
                      };
                      same_count = count;
                      same_size = refl;
                      same_empty = refl;
                      same_looks = λ q {o} l.
                          subst (λ k. Look t.empty_key b k q o) (sym power) (moved.looks q l);
                      enough = p.1;
                    })))
          ])
