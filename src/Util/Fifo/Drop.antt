-- ===== src/Util/Fifo/Drop.antt =====
-- fifo.h: what drop_by_value does to the list of the values.
use april_ann.Prelude.{
  ℕ, zero, suc, ◌+◌, ◌<◌, ◌≡◌, ◌≢◌, Bool, true, false, not, ◌==◌, if◌then◌else◌, List, [], ◌∷◌, map,
  some, arith, refl, Bool-cases, inl, inr, sym, ap, ◌∙◌, length,
}
use mathlib.Core.Path.{subst}
use april_ann.Prelude.Array.{update}
use april_ann.Prelude.Loop.{Ends, ends}
use april_ann.Util.Fifo.{Fifo, seek, drop_at, drop_by_value}
use april_ann.Util.Fifo.Chain.{
  Linked, NotIn, Distinct, last_of, Linked-update, update_ne, NotIn-last,
}
use april_ann.Util.Fifo.Queue.{IsQueue}

clash : true ≡ false → ⊥
clash e = ground arith

last_hit :
    (a b last : ℕ) (rest : List ℕ)
    → NotIn b rest
    → last ≡ last_of b rest
    → (if last == b then a else last) ≡ last_of a rest
last_hit a b last [] d e = ground (arith, e)
last_hit a b last (c ∷ rest) d e = ground (arith, e, NotIn-last b c rest d)

same_test : (a : ℕ) → (a == a) ≡ true
same_test a = ground arith

not_null : (a : ℕ) → a ≢ 0 → (a == 0) ≡ false
not_null a h = ground arith

module _ {T : Type 0} (is_value : T → Bool) where
  -- The list without the first value that passes the test, and whether there is one.
  unfoldable pub without : List T → List T
  without [] = []
  without (x ∷ xs) = if is_value x then xs else x ∷ without xs

  unfoldable pub occurs : List T → Bool
  occurs [] = false
  occurs (x ∷ xs) = if is_value x then true else occurs xs

  module _ (f : Fifo T) where
    -- Where the search stops on the nodes behind `prev`, and what is left when that node is taken out.
    unfoldable stop : ℕ → List ℕ → ℕ × ℕ
    stop prev [] = (prev, 0)
    stop prev (a ∷ rest) = if is_value (f.value a) then (prev, a) else stop a rest

    unfoldable pub left : List ℕ → List ℕ
    left [] = []
    left (a ∷ rest) = if is_value (f.value a) then rest else a ∷ left rest

    seek_lem :
        (fuel prev p : ℕ) (nodes : List ℕ)
        → length nodes < fuel
        → Linked f.next p nodes 0
        → seek is_value f fuel prev p ≡ some (stop prev nodes)
    unfolding seek stop
    seek_lem zero prev p nodes l h = absurd (omega arith)
    seek_lem (suc fuel) prev p [] l h = rw h refl
    seek_lem (suc fuel) prev p (a ∷ rest) l (e, nz, h) =
        rw (e, not_null a nz)
          (elim (Bool-cases (is_value (f.value a))) [
            | inl hit ↦ rw hit refl
            | inr miss ↦ rw miss (seek_lem fuel a (f.next a) rest (omega arith) h)
          ])

    stop-ne : (q b : ℕ) (rest : List ℕ) → NotIn q (b ∷ rest) → (stop b rest).0 ≢ q
    unfolding stop
    stop-ne q b [] (h, _) = λ e. h (sym e)
    stop-ne q b (c ∷ rest) (h, h') = elim (Bool-cases (is_value (f.value c))) [
      | inl hit ↦ rw hit (λ e. h (sym e))
      | inr miss ↦ rw miss (stop-ne q c rest h')
    ]

    unlink : ℕ × ℕ → ℕ → ℕ
    unlink found = update f.next found.0 (f.next found.1)

    -- Behind a node that stays, the node that is found is taken out of the chain.
    unlink-Linked :
        (a : ℕ) (rest : List ℕ)
        → Distinct (a ∷ rest)
        → Linked f.next (f.next a) rest 0
        → occurs (map f.value rest) ≡ true
        → Linked (unlink (stop a rest)) (unlink (stop a rest) a) (left rest) 0
    unfolding stop left occurs unlink
    unlink-Linked a [] d h o = absurd (ground arith)
    unlink-Linked a (b ∷ rest) (d, d') (h, nz, h') o = elim (Bool-cases (is_value (f.value b))) [
      | inl hit ↦ rw (hit, same_test a) (Linked-update f.next (f.next b) a (f.next b) rest 0 d.1 h')
      | inr miss ↦ rw miss (
        update_ne f.next (stop b rest).0 a (f.next (stop b rest).1) (stop-ne a b rest d) ∙ h,
        nz,
        unlink-Linked b rest d' h' (rw miss at o),
      )
    ]

    unlink_last :
        (a last : ℕ) (rest : List ℕ)
        → Distinct rest
        → last ≡ last_of a rest
        → occurs (map f.value rest) ≡ true
        → (if last == (stop a rest).1 then (stop a rest).0 else last) ≡ last_of a (left rest)
    unfolding stop left occurs
    unlink_last a last [] d e o = absurd (ground arith)
    unlink_last a last (b ∷ rest) (d, d') e o = elim (Bool-cases (is_value (f.value b))) [
      | inl hit ↦ rw hit (last_hit a b last rest d e)
      | inr miss ↦ rw miss (unlink_last b last rest d' e (rw miss at o))
    ]

    NotIn-left : (q : ℕ) (nodes : List ℕ) → NotIn q nodes → NotIn q (left nodes)
    unfolding left
    NotIn-left q [] h = h
    NotIn-left q (a ∷ rest) (h, h') = elim (Bool-cases (is_value (f.value a))) [
      | inl hit ↦ rw hit h'
      | inr miss ↦ rw miss (h, NotIn-left q rest h')
    ]

    Distinct-left : (nodes : List ℕ) → Distinct nodes → Distinct (left nodes)
    unfolding left
    Distinct-left [] h = h
    Distinct-left (a ∷ rest) (h, h') = elim (Bool-cases (is_value (f.value a))) [
      | inl hit ↦ rw hit h'
      | inr miss ↦ rw miss (NotIn-left a rest h, Distinct-left rest h')
    ]

    map-left : (nodes : List ℕ) → map f.value (left nodes) ≡ without (map f.value nodes)
    unfolding left without
    map-left [] = refl
    map-left (a ∷ rest) = elim (Bool-cases (is_value (f.value a))) [
      | inl hit ↦ rw hit refl
      | inr miss ↦ rw miss (ap (λ xs. f.value a ∷ xs) (map-left rest))
    ]

    length-left :
        (nodes : List ℕ)
        → occurs (map f.value nodes) ≡ true
        → length (left nodes) + 1 ≡ length nodes
    unfolding left occurs
    length-left [] o = absurd (ground arith)
    length-left (a ∷ rest) o = elim (Bool-cases (is_value (f.value a))) [
      | inl hit ↦ rw hit (omega arith)
      | inr miss ↦ rw miss (omega (arith, length-left rest (rw miss at o)))
    ]

    stop_found :
        (prev : ℕ) (nodes : List ℕ)
        → NotIn 0 nodes
        → ((stop prev nodes).1 == 0) ≡ not (occurs (map f.value nodes))
    unfolding stop occurs
    stop_found prev [] n = refl
    stop_found prev (a ∷ rest) (n, n') = elim (Bool-cases (is_value (f.value a))) [
      | inl hit ↦ rw hit (not_null a (λ e. n (sym e)))
      | inr miss ↦ rw miss (stop_found a rest n')
    ]

    without-none : (nodes : List ℕ) → occurs (map f.value nodes) ≡ false → left nodes ≡ nodes
    unfolding left occurs
    without-none [] o = refl
    without-none (a ∷ rest) o = elim (Bool-cases (is_value (f.value a))) [
      | inl hit ↦ absurd (clash (rw hit at o))
      | inr miss ↦ rw miss (ap (λ xs. a ∷ xs) (without-none rest (rw miss at o)))
    ]

    Linked-nonzero : (p : ℕ) (nodes : List ℕ) → Linked f.next p nodes 0 → NotIn 0 nodes
    Linked-nonzero p [] h = omega arith
    Linked-nonzero p (a ∷ rest) (_, nz, h) = (λ e. nz (sym e), Linked-nonzero (f.next a) rest h)

    drop_at-true :
        (nodes : List ℕ)
        → Linked f.next f.first nodes 0
        → occurs (map f.value nodes) ≡ true
        → (drop_at f (stop 0 nodes).0 (stop 0 nodes).1).0 ≡ occurs (map f.value nodes)
    unfolding drop_at
    drop_at-true nodes h o =
        let e = stop_found 0 nodes (Linked-nonzero f.first nodes h) in rw (e, o) refl

    -- The queue after the node that was found has been taken out.
    drop_at-IsQueue :
        (nodes : List ℕ) (xs : List T)
        → IsQueue f nodes xs
        → occurs (map f.value nodes) ≡ true
        → IsQueue
            (drop_at f (stop 0 nodes).0 (stop 0 nodes).1).1
            (left nodes)
            (without (map f.value nodes))
    unfolding drop_at stop left occurs without unlink
    drop_at-IsQueue [] xs q o = absurd (ground arith)
    drop_at-IsQueue (a ∷ rest) xs q o =
        let (l, nz, h) = q.linked in
        let (d, d') = q.distinct in
        elim (Bool-cases (is_value (f.value a))) [
          | inl hit ↦
              rw (hit, not_null a nz)
                (record {
                  linked = h;
                  distinct = d';
                  last_node = last_hit 0 a f.last rest d q.last_node;
                  size = omega (arith, q.size);
                  values = refl;
                })
          | inr miss ↦
              let o' = rw miss at o in
              let found = stop_found a rest (Linked-nonzero (f.next a) rest h) in
              let away =
                not_null (stop a rest).0
                  (stop-ne 0 a rest (λ e. nz (sym e), Linked-nonzero (f.next a) rest h)) in
              rw (miss, found, o', away)
                (record {
                  linked = (l, nz, unlink-Linked a rest q.distinct h o');
                  distinct = (NotIn-left a rest d, Distinct-left rest d');
                  last_node = unlink_last a f.last rest d' q.last_node o';
                  size = omega (arith, q.size, length-left rest o');
                  values = ap (λ ys. f.value a ∷ ys) (map-left rest);
                })
        ]

    drop_at-none :
        (nodes : List ℕ)
        → Linked f.next f.first nodes 0
        → occurs (map f.value nodes) ≡ false
        → drop_at f (stop 0 nodes).0 (stop 0 nodes).1 ≡ (false, f)
    unfolding drop_at
    drop_at-none nodes h o = rw (stop_found 0 nodes (Linked-nonzero f.first nodes h), o) refl

    same-IsQueue :
        (nodes : List ℕ) (xs : List T)
        → IsQueue f nodes xs
        → occurs (map f.value nodes) ≡ false
        → IsQueue f (left nodes) (without (map f.value nodes))
    same-IsQueue nodes xs q o =
        rw (sym (map-left nodes), without-none nodes o)
          (record {
            linked = q.linked;
            distinct = q.distinct;
            last_node = q.last_node;
            size = q.size;
            values = refl;
          })

    drop-Ends :
        (nodes : List ℕ) (xs : List T)
        → IsQueue f nodes xs
        → Ends
            (λ r.
              (r.0 ≡ occurs (map f.value nodes))
              × IsQueue r.1 (left nodes) (without (map f.value nodes)))
            (drop_by_value is_value f)
    unfolding drop_by_value
    drop-Ends nodes xs q =
        rw (seek_lem (f.the_size + 1) 0 f.first nodes (omega (arith, q.size)) q.linked)
          (elim (Bool-cases (occurs (map f.value nodes))) [
            | inl some_node ↦
                ends (drop_at-true nodes q.linked some_node, drop_at-IsQueue nodes xs q some_node)
            | inr no_node ↦
                rw (drop_at-none nodes q.linked no_node)
                  (ends (sym no_node, same-IsQueue nodes xs q no_node))
          ])

    -- Dropping by value ends, says whether a value of the queue passes the test, and takes the first one
    -- that does out of the queue.
    pub drop_by_value_correct :
        (nodes : List ℕ) (xs : List T)
        → IsQueue f nodes xs
        → Ends
            (λ r. (r.0 ≡ occurs xs) × IsQueue r.1 (left nodes) (without xs))
            (drop_by_value is_value f)
    drop_by_value_correct nodes xs q =
        subst
          (λ ys.
            Ends (λ r. (r.0 ≡ occurs ys) × IsQueue r.1 (left nodes) (without ys))
              (drop_by_value is_value f))
          q.values (drop-Ends nodes xs q)
