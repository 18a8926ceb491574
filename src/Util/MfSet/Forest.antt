-- ===== src/Util/MfSet/Forest.antt =====
-- mfset.h: what the parent links mean.
use april_ann.Prelude.{
  ℕ, zero, suc, ◌≤◌, ◌<◌, ◌≡◌, ◌≢◌, arith, refl, ◌∙◌, sym, inl, inr, Bool-cases, ◌==◌,
  if◌then◌else◌, ltb, ltb→lt,
}
use april_ann.Util.MfSet.{MfSet}

-- `Root vec i r`: following the links from `i` ends at `r`, the representative of the set of `i`.
pub data Root (vec : ℕ → ℕ) : ℕ → ℕ → Type 0 where
  here : {r : ℕ} → vec r ≡ r → Root vec r r
  up : {i r : ℕ} → Root vec (vec i) r → Root vec i r

-- The links of the positions below `n` stay below `n`, and lead down in a rank.
pub record IsForest (vec : ℕ → ℕ) (n : ℕ) (rank : ℕ → ℕ) : Type 0 where
  pub inside : (i : ℕ) → i < n → vec i < n
  pub falls : (i : ℕ) → i < n → vec i ≢ i → rank (vec i) < rank i

-- The state between calls.
pub record IsValid (s : MfSet) (rank : ℕ → ℕ) : Type 0 where
  pub forest : IsForest s.vec s.max_vector_size rank
  pub used : s.vector_size ≤ s.max_vector_size
  pub some_room : 0 < s.max_vector_size
  pub full : s.max_vector_size ≤ s.used_size
  pub fits : s.used_size ≤ s.links.vector_size

Root-stays : {vec : ℕ → ℕ} {i r : ℕ} → vec i ≡ i → Root vec i r → r ≡ i
Root-stays e (here f) = refl
Root-stays {vec} e (up {i = i} t) = Root-stays (rw e e) t ∙ e

pub Root-fixed : {vec : ℕ → ℕ} {i r : ℕ} → Root vec i r → vec r ≡ r
Root-fixed (here e) = e
Root-fixed (up t) = Root-fixed t

pub Root-unique : {vec : ℕ → ℕ} {i r s : ℕ} → Root vec i r → Root vec i s → r ≡ s
Root-unique (here e) t = sym (Root-stays e t)
Root-unique (up t) (here f) = Root-stays f (up t)
Root-unique (up t) (up u) = Root-unique t u

pub Root-inside :
    {vec rank : ℕ → ℕ} {n i r : ℕ} → IsForest vec n rank → i < n → Root vec i r → r < n
Root-inside f h (here e) = h
Root-inside f h (up {i = i} t) = Root-inside f (f.inside i h) t

-- The representative, found by following `k` links at most.
pub root_of : ℕ → (ℕ → ℕ) → ℕ → ℕ
root_of zero vec i = i
root_of (suc k) vec i = if vec i == i then i else root_of k vec (vec i)

pub root_of-Root :
    (k : ℕ) (vec rank : ℕ → ℕ) (n i : ℕ)
    → IsForest vec n rank
    → i < n
    → rank i < k
    → Root vec i (root_of k vec i)
unfolding root_of
root_of-Root zero vec rank n i f h b = absurd (omega arith)
root_of-Root (suc k) vec rank n i f h b = elim (Bool-cases (vec i == i)) [
  | inl e ↦ rw e (here (ground arith))
  | inr e ↦
      rw e (up (root_of-Root k vec rank n (vec i) f (f.inside i h) (ground (arith, f.falls i h))))
]

-- Links that agree below `n`, and stay there, have the same ends.
pub Root-cong :
    {a b : ℕ → ℕ} {i r : ℕ} (n : ℕ)
    → ((j : ℕ) → j < n → a j < n)
    → ((j : ℕ) → j < n → b j ≡ a j)
    → i < n
    → Root a i r
    → Root b i r
Root-cong n inside agree h (here {r = r} e) = here (agree r h ∙ e)
Root-cong n inside agree h (up {i = i} t) =
    up (rw (agree i h) (Root-cong n inside agree (inside i h) t))

-- The representative of any number: one past the end stands for the set of itself alone.
abbrev pub Rep : MfSet → ℕ → ℕ → Type 0
Rep s i r = (i < s.max_vector_size → Root s.vec i r) × (s.max_vector_size ≤ i → r ≡ i)

-- The structure with its links followed to the end, as a function.
abbrev pub rep_of : MfSet → (ℕ → ℕ) → ℕ → ℕ
rep_of s rank i = if ltb i s.max_vector_size then root_of (suc (rank i)) s.vec i else i

pub rep_of-Rep : (s : MfSet) (rank : ℕ → ℕ) (i : ℕ) → IsValid s rank → Rep s i (rep_of s rank i)
rep_of-Rep s rank i v = elim (Bool-cases (ltb i s.max_vector_size)) [
  | inl e ↦ rw e (
    (λ h. root_of-Root (suc (rank i)) s.vec rank s.max_vector_size i v.forest h (omega arith)),
    λ h. absurd (ground arith),
  )
  | inr e ↦ rw e ((λ h. absurd (ground arith)), λ h. refl)
]

pub Rep-unique : (s : MfSet) {i r q : ℕ} → Rep s i r → Rep s i q → r ≡ q
Rep-unique s {i = i} t u = elim (Bool-cases (ltb i s.max_vector_size)) [
  | inl e ↦ Root-unique (t.0 (ltb→lt i s.max_vector_size e)) (u.0 (ltb→lt i s.max_vector_size e))
  | inr e ↦ t.1 (ground arith) ∙ sym (u.1 (ground arith))
]
