-- ===== src/Util/Fifo/Queue.antt =====
-- fifo.h: the queue as the list of its values, from the first to the last.
use april_ann.Prelude.{
  ℕ, ◌≡◌, ◌≢◌, true, false, ◌==◌, if◌then◌else◌, List, [], ◌∷◌, ◌++◌, map, Option, some, none,
  arith, refl, sym, ap, ◌∙◌, length, length-append,
}
use mathlib.Core.Path.{subst}
use april_ann.Prelude.Array.{update}
use april_ann.Util.Fifo.{Fifo, put, get, consult, make}
use april_ann.Util.Fifo.Chain.{
  Linked, NotIn, Distinct, last_of, Linked-update, Linked-extend, Distinct-append, last_of-append,
  map-update, map-append, update_eq, NotIn-last,
}

abbrev pub front : {T : Type 0} → List T → Option T
front [] = none
front (x ∷ xs) = some x

abbrev pub behind : {T : Type 0} → List T → List T
behind [] = []
behind (x ∷ xs) = xs

put_link :
    (next : ℕ → ℕ) (first last a aux : ℕ) (rest : List ℕ)
    → last ≡ last_of a rest
    → Linked next first (a ∷ rest) 0
    → Distinct (a ∷ rest)
    → aux ≢ 0
    → NotIn aux (a ∷ rest)
    → Linked (update (update next aux 0) last aux) first ((a ∷ rest) ++ aux ∷ []) 0
put_link next first last a aux rest e l d h n =
    subst (λ x. Linked (update (update next aux 0) x aux) first ((a ∷ rest) ++ aux ∷ []) 0) (sym e)
      (Linked-extend (update next aux 0) first a aux rest
        (Linked-update next first aux 0 (a ∷ rest) 0 n l) d h n (update_eq next aux 0))

get_last :
    (first a last : ℕ) (rest : List ℕ)
    → first ≡ a
    → last ≡ last_of a rest
    → Distinct (a ∷ rest)
    → (if first == last then 0 else last) ≡ last_of 0 rest
get_last first a last [] e l d = ground (arith, e, l)
get_last first a last (b ∷ rest) e l (d, _) = ground (arith, e, l, NotIn-last a b rest d)

get_link :
    (next : ℕ → ℕ) (first a : ℕ) (rest : List ℕ)
    → first ≡ a
    → Linked next (next a) rest 0
    → Linked next (next first) rest 0
get_link next first a rest e l = rw e l

module _ {T : Type 0} where
  pub record IsQueue (f : Fifo T) (nodes : List ℕ) (xs : List T) : Type 0 where
    pub linked : Linked f.next f.first nodes 0
    pub distinct : Distinct nodes
    pub last_node : f.last ≡ last_of 0 nodes
    pub size : f.the_size ≡ length nodes
    pub values : map f.value nodes ≡ xs

  put_value :
      (aux : ℕ) (v : T) (value : ℕ → T) (nodes : List ℕ) (xs : List T)
      → NotIn aux nodes
      → map value nodes ≡ xs
      → map (update value aux v) (nodes ++ aux ∷ []) ≡ xs ++ v ∷ []
  put_value aux v value nodes xs n e =
      map-append (update value aux v) nodes aux
      ∙ rw (map-update value aux v nodes n, update_eq value aux v, e) refl

  -- Putting a value into a queue appends it, where the new node is none of the queue's.
  pub put_correct :
      (f : Fifo T) (nodes : List ℕ) (xs : List T) (aux : ℕ) (v : T)
      → IsQueue f nodes xs
      → aux ≢ 0
      → NotIn aux nodes
      → IsQueue (put aux v f) (nodes ++ aux ∷ []) (xs ++ v ∷ [])
  unfolding put
  put_correct f [] xs aux v q h n =
      let e : (f.first == 0) ≡ true = rw (q.linked) refl in
      rw e (record {
        linked = (refl, h, update_eq f.next aux 0);
        distinct = (omega arith, omega arith);
        last_node = refl;
        size = omega (arith, q.size);
        values = put_value aux v f.value [] xs n q.values;
      })
  put_correct f (a ∷ rest) xs aux v q h n =
      let e : (f.first == 0) ≡ false = ground (arith, q.linked.0, q.linked.1) in
      rw e (record {
        linked = put_link f.next f.first f.last a aux rest q.last_node q.linked q.distinct h n;
        distinct = Distinct-append aux (a ∷ rest) q.distinct n;
        last_node = sym (last_of-append 0 aux (a ∷ rest));
        size = omega (arith, q.size, length-append rest (aux ∷ []));
        values = put_value aux v f.value (a ∷ rest) xs n q.values;
      })

  -- Getting from a queue gives its first value and leaves the others in order; it gives none and leaves
  -- the queue alone when the queue is empty. Consulting gives the same value.
  pub get_correct :
      (f : Fifo T) (nodes : List ℕ) (xs : List T)
      → IsQueue f nodes xs
      → ((get f).0 ≡ front xs)
        × IsQueue (get f).1 (behind nodes) (behind xs)
        × (consult f ≡ front xs)
  unfolding get consult
  get_correct f [] xs q =
      let e : (f.first == 0) ≡ true = ground (arith, q.linked) in
      rw e (
        ap front q.values,
        record {
          linked = q.linked;
          distinct = q.distinct;
          last_node = q.last_node;
          size = q.size;
          values = ap behind q.values;
        },
        ap front q.values,
      )
  get_correct f (a ∷ rest) xs q =
      let (l, nz, l') = q.linked in
      let e : (f.first == 0) ≡ false = ground (arith, l, nz) in
      let first_value : some (f.value f.first) ≡ front xs =
        ap (λ p. some (f.value p)) l ∙ ap front q.values in
      rw e (
        first_value,
        record {
          linked = get_link f.next f.first a rest l l';
          distinct = q.distinct.1;
          last_node = get_last f.first a f.last rest l q.last_node q.distinct;
          size = omega (arith, q.size);
          values = ap behind q.values;
        },
        first_value,
      )

  pub make-IsQueue : (value : ℕ → T) (next : ℕ → ℕ) → IsQueue (make value next) [] []
  unfolding make
  make-IsQueue value next = record {
    linked = refl;
    distinct = omega arith;
    last_node = refl;
    size = refl;
    values = refl;
  }
