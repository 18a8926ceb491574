-- ===== src/Util/Fifo/Chain.antt =====
-- fifo.h: nodes that are linked in a row.
use april_ann.Prelude.{ℕ, ◌<◌, ◌≡◌, ◌≢◌, List, [], ◌∷◌, ◌++◌, map, arith, refl, sym, ap}
use april_ann.Prelude.Array.{update}

-- `as` are the nodes from `p` until the pointer `e`.
abbrev pub Linked : (ℕ → ℕ) → ℕ → List ℕ → ℕ → Type 0
Linked next p [] e = p ≡ e
Linked next p (a ∷ rest) e = (p ≡ a) × (a ≢ 0) × Linked next (next a) rest e

abbrev pub NotIn : ℕ → List ℕ → Type 0
NotIn q [] = 0 < 1
NotIn q (a ∷ rest) = (q ≢ a) × NotIn q rest

abbrev pub Distinct : List ℕ → Type 0
Distinct [] = 0 < 1
Distinct (a ∷ rest) = NotIn a rest × Distinct rest

-- The last of the nodes, and `d` when there are none.
abbrev pub last_of : ℕ → List ℕ → ℕ
last_of d [] = d
last_of d (a ∷ rest) = last_of a rest

pub update_ne : {A : Type 0} (f : ℕ → A) (q a : ℕ) (v : A) → q ≢ a → update f q v a ≡ f a
update_ne f q a v h = ground arith

pub update_eq : {A : Type 0} (f : ℕ → A) (q : ℕ) (v : A) → update f q v q ≡ v
update_eq f q v = ground arith

pub NotIn-last : (q a : ℕ) (rest : List ℕ) → NotIn q (a ∷ rest) → last_of a rest ≢ q
NotIn-last q a [] (h, _) = λ e. h (sym e)
NotIn-last q a (b ∷ rest) (_, h) = NotIn-last q b rest h

pub NotIn-append :
    (q aux : ℕ) (nodes : List ℕ) → NotIn q nodes → q ≢ aux → NotIn q (nodes ++ aux ∷ [])
NotIn-append q aux [] h n = (n, omega arith)
NotIn-append q aux (a ∷ rest) (h, h') n = (h, NotIn-append q aux rest h' n)

pub Distinct-append :
    (aux : ℕ) (nodes : List ℕ) → Distinct nodes → NotIn aux nodes → Distinct (nodes ++ aux ∷ [])
Distinct-append aux [] d n = (omega arith, omega arith)
Distinct-append aux (a ∷ rest) (d, d') (n, n') =
    (NotIn-append a aux rest d (λ e. n (sym e)), Distinct-append aux rest d' n')

pub last_of-append : (d aux : ℕ) (nodes : List ℕ) → last_of d (nodes ++ aux ∷ []) ≡ aux
last_of-append d aux [] = refl
last_of-append d aux (a ∷ rest) = last_of-append a aux rest

-- The values of the nodes, after a write outside them.
pub map-update :
    {T : Type 0} (value : ℕ → T) (q : ℕ) (v : T) (nodes : List ℕ)
    → NotIn q nodes
    → map (update value q v) nodes ≡ map value nodes
map-update value q v [] h = refl
map-update value q v (a ∷ rest) (h, h') =
    rw (update_ne value q a v h, map-update value q v rest h') refl

pub map-append :
    {T : Type 0} (f : ℕ → T) (nodes : List ℕ) (a : ℕ)
    → map f (nodes ++ a ∷ []) ≡ map f nodes ++ f a ∷ []
map-append f [] a = refl
map-append f (b ∷ rest) a = ap (λ xs. f b ∷ xs) (map-append f rest a)

-- A node outside the chain may be written.
pub Linked-update :
    (next : ℕ → ℕ) (p q v : ℕ) (nodes : List ℕ) (e : ℕ)
    → NotIn q nodes
    → Linked next p nodes e
    → Linked (update next q v) p nodes e
Linked-update next p q v [] e h l = l
Linked-update next p q v (a ∷ rest) e (h, h') (l, nz, l') =
    (l, nz, rw (update_ne next q a v h) (Linked-update next (next a) q v rest e h' l'))

-- The chain is extended behind its last node.
pub Linked-extend :
    (next : ℕ → ℕ) (p a aux : ℕ) (rest : List ℕ)
    → Linked next p (a ∷ rest) 0
    → Distinct (a ∷ rest)
    → aux ≢ 0
    → NotIn aux (a ∷ rest)
    → next aux ≡ 0
    → Linked (update next (last_of a rest) aux) p ((a ∷ rest) ++ aux ∷ []) 0
Linked-extend next p a aux [] (l, nz, l') d h n z =
    (l, nz, (update_eq next a aux, h, rw (update_ne next a aux aux (λ e. n.0 (sym e))) z))
Linked-extend next p a aux (b ∷ rest) (l, nz, l') (d, d') h n z = (
  l,
  nz,
  rw (update_ne next (last_of b rest) a aux (NotIn-last a b rest d))
      (Linked-extend next (next a) b aux rest l' d' h n.1 z),
)
