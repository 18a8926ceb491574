-- ===== src/Util/MfSet/Merge.antt =====
-- mfset.h: `merge` joins two sets and leaves the others alone.
use april_ann.Prelude.{
  ℕ, suc, ◌+◌, ◌<◌, ◌≡◌, ◌≢◌, arith, sym, inl, inr, Bool-cases, ◌==◌, if◌then◌else◌,
}
use mathlib.Core.Path.{subst}
use april_ann.Prelude.Array.{update}
use april_ann.Prelude.Loop.{Ends, ends, Ends-bind}
use april_ann.Util.MfSet.{MfSet, make_room, link, merge}
use april_ann.Util.MfSet.Forest.{
  Root, here, up, IsForest, IsValid, Root-fixed, Root-unique, Root-inside, root_of, root_of-Root,
  Rep,
}
use april_ann.Util.MfSet.Find.{Found, find_correct}
use april_ann.Util.MfSet.Grow.{grown_rank, make_room_correct}

-- Hanging one root below another.
module _ (vec rank : ℕ → ℕ) (n r1 r2 : ℕ) (f : IsForest vec n rank) (h1 : r1 < n) (h2 : r2 < n)
    (fixed1 : vec r1 ≡ r1) (fixed2 : vec r2 ≡ r2) (ne : r1 ≢ r2) where
  abbrev linked : ℕ → ℕ
  linked = update vec r2 r1

  linked-Root : {i r : ℕ} → Root vec i r → Root linked i (if r == r2 then r1 else r)
  linked-Root (here {r = r} e) = elim (Bool-cases (r == r2)) [
    | inl t ↦ let at : linked r ≡ r1 = ground arith in rw t (up (rw at (here (ground arith))))
    | inr t ↦ rw t (here (ground arith))
  ]
  linked-Root {i} {r} (up t) = elim (Bool-cases (i == r2)) [
    | inl e ↦
        let still : vec i ≡ i = ground arith in
        subst (λ x. Root linked x (if r == r2 then r1 else r)) still (linked-Root t)
    | inr e ↦ let at : linked i ≡ vec i = ground arith in up (rw at (linked-Root t))
  ]

  -- the tree of `r2` moves above the rank of `r1`
  abbrev linked_rank : ℕ → ℕ
  linked_rank i = if root_of (suc (rank i)) vec i == r2 then rank i + suc (rank r1) else rank i

  root_step :
      (i : ℕ) → i < n → root_of (suc (rank (vec i))) vec (vec i) ≡ root_of (suc (rank i)) vec i
  root_step i h =
      Root-unique
        (up (root_of-Root (suc (rank (vec i))) vec rank n (vec i) f (f.inside i h) (omega arith)))
        (root_of-Root (suc (rank i)) vec rank n i f h (omega arith))

  root_fixed : (i : ℕ) → i < n → vec i ≡ i → root_of (suc (rank i)) vec i ≡ i
  root_fixed i h e =
      Root-unique (root_of-Root (suc (rank i)) vec rank n i f h (omega arith)) (here e)

  linked-IsForest : IsForest linked n linked_rank
  linked-IsForest = record {
    inside = λ i p. ground (arith, f.inside i);
    falls = λ i p d. elim (Bool-cases (i == r2)) [
      | inl e ↦
          let same : r2 ≡ i = ground arith in
          let at : linked i ≡ r1 = ground arith in
          rw at (ground (arith, root_fixed r1 h1 fixed1, root_fixed r2 h2 fixed2))
      | inr e ↦
          let at : linked i ≡ vec i = ground arith in
          rw (at, root_step i p) (ground (arith, f.falls i))
    ];
  }

Found-IsValid :
    {s : MfSet} {rank : ℕ → ℕ} {value : ℕ} {found : ℕ × MfSet}
    → IsValid s rank
    → Found s rank value found
    → IsValid found.1 rank
Found-IsValid {rank = rank} {found = found} v t = record {
  forest = subst (λ n. IsForest found.1.vec n rank) (sym t.sizes.0) t.forest;
  used = omega arith;
  some_room = omega arith;
  full = omega arith;
  fits = omega arith;
}

Found-Rep :
    {s : MfSet} {rank : ℕ → ℕ} {value : ℕ} {found : ℕ × MfSet} (i r : ℕ)
    → Found s rank value found
    → Rep s i r
    → Rep found.1 i r
Found-Rep i r t p = (λ h. (t.same i r (omega arith)).1 (p.0 (omega arith)), λ h. p.1 (omega arith))

-- What `merge` leaves: a valid structure in which the set of `r2` has joined that of `r1`, with
-- `r1` as its representative, and every other set is as it was.
pub record Merged (s : MfSet) (r1 r2 : ℕ) (t : MfSet) : Type 0 where
  pub valid : (rank : ℕ → ℕ) × IsValid t rank
  pub reps : (i r : ℕ) → Rep s i r → Rep t i (if r == r2 then r1 else r)

link-Merged :
    (s : MfSet) (rank : ℕ → ℕ) (r1 r2 : ℕ)
    → IsValid s rank
    → r1 < s.max_vector_size
    → r2 < s.max_vector_size
    → s.vec r1 ≡ r1
    → s.vec r2 ≡ r2
    → Merged s r1 r2 (link s r1 r2)
unfolding link
link-Merged s rank r1 r2 v h1 h2 e1 e2 = elim (Bool-cases (r1 == r2)) [
  | inl e ↦ rw e (record {
    valid = (rank, v);
    reps = λ i r t. elim (Bool-cases (r == r2)) [
      | inl same ↦ rw same (subst (λ x. Rep s i x) (ground arith) t)
      | inr other ↦ rw other t
    ];
  })
  | inr e ↦
      let ne : r1 ≢ r2 = ground arith in
      let n = s.max_vector_size in
      rw e (record {
        valid = (
          linked_rank s.vec rank n r1 r2 v.forest h1 h2 e1 e2 ne,
          record {
            forest = linked-IsForest s.vec rank n r1 r2 v.forest h1 h2 e1 e2 ne;
            used = v.used;
            some_room = v.some_room;
            full = v.full;
            fits = v.fits;
          },
        );
        reps = λ i r t. (
          λ p. linked-Root s.vec rank n r1 r2 v.forest h1 h2 e1 e2 ne (t.0 p),
          λ p. ground (arith, t.1 p),
        );
      })
]

-- `merge` on a valid structure ends once the fuel passes the ranks of its two values. It leaves a
-- valid structure in which the set of the second value has joined the set of the first, under the
-- representative of the first; no other number changes its representative. A number past the end
-- counts as the set of itself alone, before and after.
pub merge_correct :
    (fresh : ℕ → ℕ) (fuel : ℕ) (s : MfSet) (rank : ℕ → ℕ) (value1 value2 r1 r2 : ℕ)
    (v : IsValid s rank)
    → Rep s value1 r1
    → Rep s value2 r2
    → grown_rank s rank value1 < fuel
    → grown_rank s rank value2 < fuel
    → Ends (Merged s r1 r2) (merge fresh fuel s value1 value2)
unfolding merge
merge_correct fresh fuel s rank value1 value2 r1 r2 v p1 p2 b1 b2 =
    let m = make_room fresh s value1 value2 in
    let gr = grown_rank s rank in
    let (vm, keep, u1, u2) = make_room_correct fresh s rank v value1 value2 in
    Ends-bind (find_correct fuel m gr value1 vm u1 b1) λ found1 t1.
      let v1 = Found-IsValid vm t1 in
      Ends-bind (find_correct fuel found1.1 gr value2 v1 (omega arith) b2) λ found2 t2.
        let v2 = Found-IsValid v1 t2 in
        let n = found2.1.max_vector_size in
        let in1 : value1 < n = omega arith in
        let in2 : value2 < n = omega arith in
        let keep2 = λ (i r : ℕ) (q : Rep s i r). Found-Rep i r t2 (Found-Rep i r t1 (keep i r q)) in
        let root1 : Root found2.1.vec value1 r1 = (keep2 value1 r1 p1).0 in1 in
        let root2 : Root found2.1.vec value2 r2 = (keep2 value2 r2 p2).0 in2 in
        let same1 : found1.0 ≡ r1 = Root-unique t1.root ((keep value1 r1 p1).0 (omega arith)) in
        let same2 : found2.0 ≡ r2 =
          Root-unique t2.root ((Found-Rep value2 r2 t1 (keep value2 r2 p2)).0 (omega arith)) in
        let linked =
          link-Merged found2.1 gr r1 r2 v2 (Root-inside v2.forest in1 root1)
            (Root-inside v2.forest in2 root2) (Root-fixed root1) (Root-fixed root2) in
        rw (same1, same2)
          (ends (record { valid = linked.valid; reps = λ i r q. linked.reps i r (keep2 i r q) }))
