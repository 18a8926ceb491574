-- ===== src/Util/MfSet/Grow.antt =====
-- mfset.h: how the set of numbers is made, grown and cleared.
use april_ann.Prelude.{
  ℕ, ◌+◌, ◌*◌, ◌≤◌, ◌<◌, ◌≡◌, ◌||◌, arith, refl, inl, inr, Bool-cases, if◌then◌else◌, ltb, leb,
}
use Prim.Native.Nat.{max}
use april_ann.Util.Vector
use april_ann.Util.MfSet.{MfSet, make, clone, clear, grow, set_size, make_room}
use april_ann.Util.MfSet.Forest.{here, IsForest, IsValid, Root-cong, Rep}

-- The constructor gives a valid structure, with every rank 0, in which each number is a set.
pub make-IsValid :
    (fresh : ℕ → ℕ) (size : ℕ)
    → 0 < size
    → IsValid (make fresh size) (λ _. 0) × ((i : ℕ) → Rep (make fresh size) i i)
unfolding make Vector.reserve Vector.make
make-IsValid fresh size h = (
  record {
    forest = record { inside = λ i p. ground arith; falls = λ i p d. ground arith };
    used = omega arith;
    some_room = h;
    full = ground arith;
    fits = ground arith;
  },
  λ i. ((λ p. here (ground arith)), λ p. refl),
)

-- The ranks after growing: the new positions are roots.
abbrev pub grown_rank : MfSet → (ℕ → ℕ) → ℕ → ℕ
grown_rank s rank i = if ltb i s.max_vector_size then rank i else 0

module _ (fresh : ℕ → ℕ) (s : MfSet) (rank : ℕ → ℕ) (v : IsValid s rank) where
  grow-IsForest :
      (n : ℕ) → s.max_vector_size ≤ n → IsForest (grow fresh n s).vec n (grown_rank s rank)
  unfolding grow Vector.resize
  grow-IsForest n h = record {
    inside = λ i p. ground (arith, v.forest.inside i);
    falls = λ i p d. ground (arith, v.forest.inside i, v.forest.falls i);
  }

  same-IsForest : IsForest s.vec s.max_vector_size (grown_rank s rank)
  same-IsForest = record {
    inside = v.forest.inside;
    falls = λ i p d. ground (arith, v.forest.inside i, v.forest.falls i);
  }

  grow-IsValid :
      (n k : ℕ)
      → s.max_vector_size ≤ n
      → k ≤ n
      → IsValid (record (grow fresh n s) { vector_size = k }) (grown_rank s rank)
  unfolding grow Vector.resize
  grow-IsValid n k h u = record {
    forest = grow-IsForest n h;
    used = u;
    some_room = omega (arith, v.some_room);
    full = ground arith;
    fits = ground (arith, v.fits);
  }

  grow-Rep :
      (n k i r : ℕ)
      → s.max_vector_size ≤ n
      → Rep s i r
      → Rep (record (grow fresh n s) { vector_size = k }) i r
  unfolding grow Vector.resize
  grow-Rep n k i r h t = elim (Bool-cases (ltb i s.max_vector_size)) [
    | inl e ↦ (
      λ p.
          Root-cong s.max_vector_size v.forest.inside (λ j q. ground arith) (ground arith)
            (t.0 (ground arith)),
      λ p. absurd (ground arith),
    )
    | inr e ↦ let own : r ≡ i = t.1 (ground arith) in rw own ((λ p. here (ground arith)), λ p. refl)
  ]

  -- `setSize` to a positive size keeps the structure valid and every set.
  pub set_size_correct :
      (sz : ℕ)
      → 0 < sz
      → IsValid (set_size fresh sz s) (grown_rank s rank)
        × ((i r : ℕ) → Rep s i r → Rep (set_size fresh sz s) i r)
  unfolding set_size
  set_size_correct sz h = elim (Bool-cases (leb s.max_vector_size sz)) [
    | inl e ↦ rw e (
      grow-IsValid (2 * sz) sz (ground arith) (omega arith),
      λ i r. grow-Rep (2 * sz) sz i r (ground arith),
    )
    | inr e ↦ rw e (
      record {
        forest = same-IsForest;
        used = ground arith;
        some_room = v.some_room;
        full = v.full;
        fits = v.fits;
      },
      λ i r t. t,
    )
  ]

  -- Making room for two values keeps the structure valid and every set, and puts both in use.
  pub make_room_correct :
      (value1 value2 : ℕ)
      → IsValid (make_room fresh s value1 value2) (grown_rank s rank)
        × ((i r : ℕ) → Rep s i r → Rep (make_room fresh s value1 value2) i r)
        × (value1 < (make_room fresh s value1 value2).vector_size)
        × (value2 < (make_room fresh s value1 value2).vector_size)
  unfolding make_room
  make_room_correct value1 value2 =
      let n = 2 * max value1 value2 in
      elim (Bool-cases (leb s.max_vector_size value1 || leb s.max_vector_size value2)) [
        | inl e ↦
            let room : s.max_vector_size ≤ n = ground (arith, v.some_room) in
            let k = max (value2 + 1) (max (value1 + 1) s.vector_size) in
            rw e (
              unfold grow Vector.resize in
              (
                grow-IsValid n k room (ground (arith, v.some_room, v.used)),
                λ i r. grow-Rep n k i r room,
                omega arith,
                omega arith,
              ))
        | inr e ↦ rw e (
          record {
            forest = same-IsForest;
            used = ground arith;
            some_room = v.some_room;
            full = v.full;
            fits = v.fits;
          },
          (λ i r t. t),
          omega arith,
          omega arith,
        )
      ]

-- The next growth after a `clear`, and the next growth of a `clone`, forgets every link: `clear` and
-- `clone` leave the vector of links with no used element, and a new block takes over used elements
-- only. Each position then holds what the new block happened to hold.
pub grow-clear :
    (fresh : ℕ → ℕ) (s : MfSet) (n i : ℕ)
    → s.max_vector_size ≤ s.links.vector_size
    → s.links.vector_size < n
    → i < s.max_vector_size
    → ((grow fresh n (clear fresh s)).vec i ≡ fresh i)
      × ((grow fresh n (clone fresh s)).vec i ≡ fresh i)
unfolding grow clear clone Vector.reserve Vector.resize Vector.make Vector.clear
grow-clear fresh s n i room h p = (ground arith, ground arith)
