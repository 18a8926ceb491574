-- ===== src/Util/MfSet/Find.antt =====
-- mfset.h: `find` ends at the representative, and its path halving changes no set.
use april_ann.Prelude.{
  ℕ, zero, suc, ◌<◌, ◌≡◌, ◌≢◌, ◌↔◌, arith, refl, sym, inl, inr, Bool-cases, ◌==◌, ltb,
}
use mathlib.Core.Path.{subst}
use april_ann.Prelude.Array.{update}
use april_ann.Prelude.Loop.{Ends, ends, Ends-if, Ends-map, Ends-bind}
use april_ann.Util.MfSet.{MfSet, find_loop, find}
use april_ann.Util.MfSet.Forest.{
  Root, here, up, IsForest, IsValid, Root-fixed, Root-unique, root_of-Root,
}

-- Two arrays of links with the same sets and the same representatives.
abbrev pub SameRoots : ℕ → (ℕ → ℕ) → (ℕ → ℕ) → Type 0
SameRoots n a b = (i r : ℕ) → i < n → Root a i r ↔ Root b i r

module _ (vec : ℕ → ℕ) (q : ℕ) (ne : q ≢ vec q) where
  -- one round of the loop of `find`
  abbrev halved : ℕ → ℕ
  halved = update vec q (vec (vec q))

  -- Skipping one link on the way from `q` keeps every way's end.
  skip : {r : ℕ} → vec r ≡ r → Root halved (vec q) r → Root halved (vec (vec q)) r
  skip e (here f) = subst (λ x. Root halved x (vec q)) (sym e) (here f)
  skip {r} e (up t) =
      let past : halved (vec q) ≡ vec (vec q) = ground arith in subst (λ x. Root halved x r) past t

  halved-Root : {i r : ℕ} → Root vec i r → Root halved i r
  halved-Root (here {r = r} e) = here (ground arith)
  halved-Root {i} {r} (up t) =
      let ih = halved-Root t in
      elim (Bool-cases (q == i)) [
        | inl e ↦
            let same : q ≡ i = ground arith in
            let at : halved i ≡ vec (vec q) = ground arith in
            up (rw at (skip (Root-fixed t) (subst (λ x. Root halved (vec x) r) (sym same) ih)))
        | inr e ↦ let at : halved i ≡ vec i = ground arith in up (rw at ih)
      ]

  module _ (n : ℕ) (rank : ℕ → ℕ) (f : IsForest vec n rank) (h : q < n) where
    halved-IsForest : IsForest halved n rank
    halved-IsForest = record {
      inside = λ i p. ground (arith, f.inside i, f.inside (vec q), f.inside q);
      falls = λ i p d. ground (arith, f.falls i, f.falls (vec q), f.falls q, f.inside q);
    }

    halved-SameRoots : SameRoots n halved vec
    halved-SameRoots i r p =
        let there = root_of-Root (suc (rank i)) vec rank n i f p (omega arith) in
        (λ t. subst (λ x. Root vec i x) (Root-unique (halved-Root there) t) there, halved-Root)

-- What the loop leaves: the representative, and links with the same meaning.
pub record Found (s : MfSet) (rank : ℕ → ℕ) (value : ℕ) (found : ℕ × MfSet) : Type 0 where
  pub root : Root s.vec value found.0
  pub same : SameRoots s.max_vector_size found.1.vec s.vec
  pub forest : IsForest found.1.vec s.max_vector_size rank
  pub sizes :
      (found.1.max_vector_size ≡ s.max_vector_size)
      × (found.1.vector_size ≡ s.vector_size)
      × (found.1.used_size ≡ s.used_size)
      × (found.1.links.vector_size ≡ s.links.vector_size)

find_loop-Ends :
    (fuel : ℕ) (vec rank : ℕ → ℕ) (n r : ℕ)
    → IsForest vec n rank
    → r < n
    → rank r < fuel
    → Ends
        (λ found. Root vec r found.0 × SameRoots n found.1 vec × IsForest found.1 n rank)
        (find_loop fuel vec r)
unfolding find_loop
find_loop-Ends zero vec rank n r f h b = absurd (omega arith)
find_loop-Ends (suc fuel) vec rank n r f h b =
    Ends-if (r == vec r) (λ e. ends (here (ground arith), λ i s p. (λ t. t, λ t. t), f))
      (λ e.
        let ne : r ≢ vec r = ground arith in
        let next = halved vec r ne in
        let g = halved-IsForest vec r ne n rank f h in
        let same = halved-SameRoots vec r ne n rank f h in
        let lower : rank (next r) < rank r =
          ground (arith, f.falls r, f.falls (vec r), f.inside r) in
        Ends-map (find_loop-Ends fuel next rank n (next r) g (g.inside r h) (omega arith))
          λ found (root, kept, forest). (
            (same r found.0 h).0 (up root),
            λ i s p.
                (λ t. (same i s p).0 ((kept i s p).0 t), λ t. (kept i s p).1 ((same i s p).1 t)),
            forest,
          ))

-- `find` of a value in use ends once the fuel passes the rank of the value. It returns the
-- representative of the value's set; every position keeps its representative, the links stay a
-- forest of the same rank, and the sizes stay.
pub find_correct :
    (fuel : ℕ) (s : MfSet) (rank : ℕ → ℕ) (value : ℕ)
    → IsValid s rank
    → value < s.vector_size
    → rank value < fuel
    → Ends (Found s rank value) (find fuel s value)
unfolding find
find_correct fuel s rank value v h b =
    let n = s.max_vector_size in
    let p : value < n = omega arith in
    let below : rank (s.vec value) < fuel = ground (arith, v.forest.falls value) in
    Ends-if (ltb value s.vector_size)
      (λ e.
        Ends-bind
          (find_loop-Ends fuel s.vec rank n (s.vec value) v.forest (v.forest.inside value p) below)
          λ found (root, same, forest). ends (record {
            root = up root;
            same = same;
            forest = forest;
            sizes = (refl, refl, refl, refl);
          }))
      (λ e. absurd (ground arith))
