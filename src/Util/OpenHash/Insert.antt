-- ===== src/Util/OpenHash/Insert.antt =====
-- `operator[]` and `insert` of packages/basics/util/c_src/open_addressing_hash.h.
use mathlib.Core.Path.{subst}
use april_ann.Prelude.{
  ℕ, ◌+◌, ◌*◌, ◌≤◌, ◌<◌, ◌≡◌, refl, true, false, Option, some, sym, ap, ◌∙◌, arith, inl, inr,
  Bool-cases, ◌==◌, if◌then◌else◌, leb,
}
use april_ann.Prelude.Array.{update}
use april_ann.Prelude.Loop.{Ends, ends, Ends-bind, Ends-if, Ends-inv}
use april_ann.Util.HashKey.{Key, ◌=k=◌}
use april_ann.Util.OpenHash.{OpenHash, find, subscript, insert, make_room, put_key}
use april_ann.Util.OpenHash.Move.{Look-none}
use april_ann.Util.OpenHash.Rewrite.{Look-rewritten, Chained-same, same_keys}
use april_ann.Util.OpenHash.Slots.{Free, Used, Reach, Free-missing}
use april_ann.Util.OpenHash.Store.{
  missing, Look-unique, Look-stored, Chained-stored, used_count, used_count_cong, used_count-store,
  room,
}
use april_ann.Util.OpenHash.Table.{
  Arranged, IsOpen, resize_correct, seek-Ends, seek_free-Ends, stop_inside, find_correct, used_of,
  SlotOf, LookOf,
}

module _ {ℓ} {K V F : Type ℓ} ⦃key : Key K⦄ (ceil_load : F → ℕ → ℕ)
    (below_all : (f : F) (n : ℕ) → ceil_load f n ≤ n) (initial : V) (t : OpenHash K V F)
    (k : K) where
  -- A table and the free position that a new key goes to.
  pub record Room (s : OpenHash K V F × ℕ) : Type ℓ where
    pub arranged : Arranged ceil_load s.0
    pub spare : used_of s.0 + 1 < s.0.num_buckets
    pub counts : s.0.the_size ≡ used_of s.0 + 1
    pub size : s.0.the_size ≡ t.the_size + 1
    pub inside : s.1 < s.0.num_buckets
    pub free : Free s.0.empty_key s.0.buckets s.1
    pub reach : Reach s.0.empty_key s.0.hash_mask s.0.buckets k s.1
    pub same_empty : s.0.empty_key ≡ t.empty_key
    pub looks : (q : K) {o : Option V} → LookOf t q o → LookOf s.0 q o

  make_room-Room :
      (i : ℕ)
      → IsOpen ceil_load t
      → Free t.empty_key t.buckets i
      → Reach t.empty_key t.hash_mask t.buckets k i
      → Ends Room (make_room ceil_load initial (record t { the_size = t.the_size + 1 }) k i)
  unfolding make_room
  make_room-Room i valid free reach =
      let a : Arranged ceil_load t = valid.arranged in
      let t' : OpenHash K V F = record t { the_size = t.the_size + 1 } in
      let a' : Arranged ceil_load t' = record {
        power_of = a.power_of;
        mask_of = a.mask_of;
        chained = a.chained;
        roomy = a.roomy;
        threshold_of = a.threshold_of;
      } in
      let none_there : (m : ℕ) → ¬ SlotOf t k m =
        Free-missing t.empty_key t.hash_mask t.buckets a.chained k i reach free in
      Ends-if (leb t.rehash_threshold (t.the_size + 1))
        (λ full.
          Ends-bind
            (resize_correct ceil_load initial t' a' (2 * t.num_buckets) (omega (arith, a.roomy)))
            (λ u r.
              Ends-bind
                (seek_free-Ends ceil_load u r.still k (
                  Look-none u.empty_key u.buckets u.num_buckets k
                    (r.same_looks k (missing none_there)) refl))
                (λ j p. ends {a = (u, j)} (record {
                  arranged = r.still;
                  spare = omega (arith, r.same_count, r.enough, a.roomy);
                  counts = omega (arith, r.same_size, r.same_count, valid.counted);
                  size = r.same_size;
                  inside = stop_inside ceil_load u r.still k j p.0;
                  free = p.1;
                  reach = p.0;
                  same_empty = r.same_empty;
                  looks = r.same_looks;
                }))))
        (λ fits.
          let below : t.the_size + 1 < t.rehash_threshold = ground arith in
          ends {a = (t', i)} (record {
            arranged = a';
            spare =
                omega
                  (arith, valid.counted, a.threshold_of, below_all t.max_load_factor t.num_buckets);
            counts = omega (arith, valid.counted);
            size = refl;
            inside = stop_inside ceil_load t a k i reach;
            free = free;
            reach = reach;
            same_empty = refl;
            looks = λ q l. l;
          }))

  -- What `operator[]` does: the position is the slot of the key, and other keys find what they found.
  pub record Has (s : OpenHash K V F × ℕ) : Type ℓ where
    pub valid : IsOpen ceil_load s.0
    pub slot : SlotOf s.0 k s.1
    pub others :
        (q : K) {o : Option V}
        → LookOf t q o
        → (o' : Option V) × LookOf s.0 q o' × ((q =k= k) ≡ false → o' ≡ o)
    pub held : (i : ℕ) → SlotOf t k i → s.0.the_size ≡ t.the_size
    pub added : ((i : ℕ) → ¬ SlotOf t k i) → s.0.the_size ≡ t.the_size + 1

  put_key-Has :
      (s : OpenHash K V F × ℕ)
      → (k =k= t.empty_key) ≡ false
      → ((i : ℕ) → ¬ SlotOf t k i)
      → Room s
      → Has (put_key k s)
  unfolding put_key
  put_key-Has s real none_there room =
      let u : OpenHash K V F = s.0 in
      let a : Arranged ceil_load u = room.arranged in
      let e : K × V = (k, (u.buckets s.1).1) in
      let real_u : (k =k= u.empty_key) ≡ false =
        subst (λ x. (k =k= x) ≡ false) (sym room.same_empty) real in
      let count : used_count u.empty_key (update u.buckets s.1 e) u.num_buckets ≡ used_of u + 1 =
        used_count-store u.empty_key u.buckets u.num_buckets s.1 e room.inside room.free real_u in
      let there : (update u.buckets s.1 e s.1).0 ≡ k =
        let same : (s.1 == s.1) ≡ true = ground arith in rw same refl in
      record {
        valid = record {
          arranged = record {
            power_of = a.power_of;
            mask_of = a.mask_of;
            chained =
                Chained-stored u.empty_key u.hash_mask u.num_buckets u.buckets s.1 e room.inside
                  room.free real_u a.chained room.reach;
            roomy = omega (arith, room.spare);
            threshold_of = a.threshold_of;
          };
          counted = room.counts ∙ sym count;
        };
        slot = record {
          inside = room.inside;
          used = subst (λ x. (x =k= u.empty_key) ≡ false) (sym there) real_u;
          same = subst (λ x. (x =k= k) ≡ true) (sym there) (key.equal_key_refl k);
        };
        others = λ q {o} l. (
          (if q =k= k then some e.1 else o),
          Look-stored u.empty_key u.hash_mask u.num_buckets u.buckets s.1 e room.inside room.free
              real_u
              (Look-none u.empty_key u.buckets u.num_buckets k (room.looks k (missing none_there))
                refl)
              q (room.looks q l),
          λ other. rw other refl,
        );
        held = λ i slot. absurd (none_there i slot);
        added = λ h. room.size;
      }

  -- `operator[]` ends, for a key that is not the empty key: the position that it gives is the slot of
  -- the key, in a table in order, which has one pair more if the key was missing.
  pub subscript_correct :
      IsOpen ceil_load t → (k =k= t.empty_key) ≡ false → Ends Has (subscript ceil_load initial t k)
  unfolding subscript
  subscript_correct valid real = Ends-bind (seek-Ends ceil_load t valid.arranged k) (λ r stop.
      elim (Bool-cases r.0) [
        | inl found ↦
            let here : Used t.empty_key t.buckets r.1 × (((t.buckets r.1).0 =k= k) ≡ true) =
              stop.found found in
            let slot : SlotOf t k r.1 = record {
              inside = stop_inside ceil_load t valid.arranged k r.1 stop.reach;
              used = here.0;
              same = here.1;
            } in
            rw found (
              ends (record {
                valid = valid;
                slot = slot;
                others = λ q {o} l. (o, l, λ _. refl);
                held = λ i held. refl;
                added = λ h. absurd (h r.1 slot);
              }))
        | inr missed ↦
            let free : Free t.empty_key t.buckets r.1 = stop.missed missed in
            rw missed (
              Ends-bind (make_room-Room r.1 valid free stop.reach) (λ s room. ends (
                put_key-Has s real
                  (Free-missing t.empty_key t.hash_mask t.buckets valid.arranged.chained k r.1
                    stop.reach free)
                  room)))
      ])

  written-IsOpen :
      (u : OpenHash K V F) (i : ℕ) (d : V)
      → IsOpen ceil_load u
      → IsOpen ceil_load (record u { buckets = update u.buckets i ((u.buckets i).0, d) })
  written-IsOpen u i d valid =
      let a : Arranged ceil_load u = valid.arranged in
      let c : ℕ → K × V = update u.buckets i ((u.buckets i).0, d) in
      let keys : (m : ℕ) → (u.buckets m).0 ≡ (c m).0 =
        same_keys u.empty_key u.hash_mask u.num_buckets u.buckets i d in
      let count : used_of u ≡ used_count u.empty_key c u.num_buckets =
        used_count_cong u.empty_key u.buckets c u.num_buckets (λ m h. keys m) in
      record {
        arranged = record {
          power_of = a.power_of;
          mask_of = a.mask_of;
          chained = Chained-same u.empty_key u.hash_mask u.num_buckets u.buckets c keys a.chained;
          roomy = omega (arith, a.roomy);
          threshold_of = a.threshold_of;
        };
        counted = valid.counted ∙ count;
      }

  found_after :
      (s : OpenHash K V F × ℕ) (d : V)
      → Has s
      → (q : K) (o o' : Option V) → LookOf s.0 q o'
      → ((q =k= k) ≡ false → o' ≡ o)
      → find (record s.0 { buckets = update s.0.buckets s.1 ((s.0.buckets s.1).0, d) }) q
        ≡ some (if q =k= k then some d else o)
  found_after s d has q o o' l same =
      let u : OpenHash K V F = s.0 in
      let w : OpenHash K V F = record u { buckets = update u.buckets s.1 ((u.buckets s.1).0, d) } in
      let valid : IsOpen ceil_load w = written-IsOpen u s.1 d has.valid in
      let (o'', eq, l'') = Ends-inv (find_correct ceil_load w valid.arranged q) in
      let written : LookOf w q (if q =k= k then some d else o') =
        Look-rewritten u.empty_key u.hash_mask u.num_buckets u.buckets s.1 d k q
          has.valid.arranged.chained has.slot l in
      let found : o'' ≡ (if q =k= k then some d else o') =
        Look-unique w.empty_key w.hash_mask w.num_buckets w.buckets valid.arranged.chained q l''
          written in
      eq
      ∙ ap some (
          found ∙ (elim (Bool-cases (q =k= k)) [
            | inl equal ↦ rw equal refl
            | inr other ↦ rw other (same other)
          ]))

  -- What `insert` does.
  pub record Stored (d : V) (u : OpenHash K V F) : Type ℓ where
    pub valid : IsOpen ceil_load u
    pub held : (i : ℕ) → SlotOf t k i → u.the_size ≡ t.the_size
    pub added : ((i : ℕ) → ¬ SlotOf t k i) → u.the_size ≡ t.the_size + 1
    pub finds :
        (q : K)
        → (o : Option V) × (find t q ≡ some o) × (find u q ≡ some (if q =k= k then some d else o))

  -- `insert` ends, for a key that is not the empty key, and keeps the table in order. It counts a key
  -- that had no slot; afterwards `find` ends with `d` under the key, and as before under other keys.
  pub open_insert_correct :
      (d : V)
      → IsOpen ceil_load t
      → (k =k= t.empty_key) ≡ false
      → Ends (Stored d) (insert ceil_load initial t k d)
  unfolding insert
  open_insert_correct d valid real = Ends-bind (subscript_correct valid real) (λ s has.
      ends (record {
        valid = written-IsOpen s.0 s.1 d has.valid;
        held = has.held;
        added = has.added;
        finds = λ q.
            let (o, eq, l) = Ends-inv (find_correct ceil_load t valid.arranged q) in
            let (o', l', same) = has.others q l in (o, eq, found_after s d has q o o' l' same);
      }))
