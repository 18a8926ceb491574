-- ===== src/Util/StringQueue/Advance.antt =====
-- `advanceBuffer` and `exportBuffer` of packages/basics/util/c_src/stringQueue.cc.
use mathlib.Core.Path.{subst}
use mathlib.Core.List.{append_assoc}
use april_ann.Prelude.{
  ℕ, zero, suc, ◌+◌, ◌≤◌, ◌≡◌, refl, ap, sym, ◌∙◌, List, [], ◌∷◌, ◌++◌, length, length-append,
  length-take, drop, length-drop, take, arith, Bool-cases, inl, inr, leb,
}
use april_ann.Prelude.Loop.{Ends, ends}
use april_ann.Util.StringQueue.{
  Node, StringQueue, new_node, occuped, check_non_empty, get_buffer_chunk, advance_nodes,
  advance_buffer, export_nodes,
}
use april_ann.Util.StringQueue.Last.{contents, IsChain, only, more}
use april_ann.Util.StringQueue.Contents.{IsQueue, nonempty_same}

module _ {A : Type 0} where
  take-length : (k : ℕ) (xs : List A) → length xs ≤ k → take k xs ≡ xs
  take-length zero [] h = refl
  take-length (suc k) [] h = refl
  take-length zero (x ∷ xs) h = absurd (omega arith)
  take-length (suc k) (x ∷ xs) h = ap (λ ys. x ∷ ys) (take-length k xs (omega arith))

  take-drop : (k : ℕ) (xs : List A) → take k xs ++ drop k xs ≡ xs
  take-drop zero xs = refl
  take-drop (suc k) [] = refl
  take-drop (suc k) (x ∷ xs) = ap (λ ys. x ∷ ys) (take-drop k xs)

  drop_nil : (k : ℕ) → drop {A = A} k [] ≡ []
  drop_nil zero = refl
  drop_nil (suc k) = refl

  drop-drop : (j k : ℕ) (xs : List A) → drop k (drop j xs) ≡ drop (j + k) xs
  drop-drop zero k xs = ap (λ i. drop i xs) (omega arith)
  drop-drop (suc j) k [] = drop_nil k ∙ sym (drop_nil (suc j + k))
  drop-drop (suc j) k (x ∷ xs) =
      let e : suc (j + k) ≡ suc j + k = omega arith in
      drop-drop j k xs ∙ ap (λ i. drop i (x ∷ xs)) e

record Dropped (k : ℕ) (n : Node) (ns ms : List Node) : Type 0 where
  chain : IsChain ms
  split : contents (n ∷ ns) ≡ take k (drop n.first n.buffer) ++ contents ms

past_end :
    (k : ℕ) (n : Node) (ns ms : List Node)
    → length n.buffer ≤ n.first + k
    → IsChain ms
    → contents ms ≡ contents ns
    → Dropped k n ns ms
unfolding contents
past_end k n ns ms h c e = record {
  chain = c;
  split =
      ap (λ xs. drop n.first n.buffer ++ xs) (sym e)
      ∙ ap (λ xs. xs ++ contents ms)
          (sym (
            take-length k (drop n.first n.buffer)
              (let l = length-drop n.first n.buffer in omega arith)));
}

inside :
    (k : ℕ) (n : Node) (ns : List Node)
    → IsChain (record n { first = n.first + k } ∷ ns)
    → Dropped k n ns (record n { first = n.first + k } ∷ ns)
unfolding contents
inside k n ns c = record {
  chain = c;
  split =
      ap (λ xs. xs ++ contents ns) (sym (take-drop k (drop n.first n.buffer)))
      ∙ append_assoc (take k (drop n.first n.buffer)) (drop k (drop n.first n.buffer)) (contents ns)
      ∙ ap (λ xs. take k (drop n.first n.buffer) ++ (xs ++ contents ns))
          (drop-drop n.first k n.buffer);
}

still_chain :
    (k : ℕ) (n : Node) (ns : List Node)
    → n.first + k ≤ length n.buffer
    → IsChain (n ∷ ns)
    → IsChain (record n { first = n.first + k } ∷ ns)
still_chain k n _ f (only g) = only f
still_chain k n _ f (more g c) = more f c

-- The first node goes, or is made new when it is the only one.
at_end :
    (k : ℕ) (n : Node) (ns : List Node)
    → length n.buffer ≤ n.first + k
    → IsChain (n ∷ ns)
    → Dropped k n ns (elim ns [ [] ↦ new_node ∷ [] | (m ∷ ms) ↦ m ∷ ms ])
unfolding contents
at_end k n _ h (only f) = past_end k n [] (new_node ∷ []) h (only (omega arith)) refl
at_end k n _ h (more {m = m} {ns = ms} f c) = past_end k n (m ∷ ms) (m ∷ ms) h c refl

advance_nodes-Dropped :
    (k : ℕ) (n : Node) (ns : List Node)
    → IsChain (n ∷ ns)
    → Dropped k n ns (advance_nodes k (n ∷ ns))
unfolding advance_nodes contents
advance_nodes-Dropped k n ns c = elim (Bool-cases (leb (length n.buffer) (n.first + k))) [
  | inl past ↦ rw past (at_end k n ns (ground arith) c)
  | inr before ↦ rw before (inside k n ns (still_chain k n ns (ground arith) c))
]

-- What `advanceBuffer` leaves of the queue `q`.
pub record Advanced (k : ℕ) (q q' : StringQueue) : Type 0 where
  pub queue : IsQueue q'
  pub dropped : contents q.nodes ≡ take k (get_buffer_chunk q) ++ contents q'.nodes

-- On a queue with a node, `advanceBuffer` takes off the first `k` characters, which are the first `k` that
-- getBufferChunk gives, when it gives so many; the nodes stay in order and the size stays right.
pub advance_correct :
    (k : ℕ) (n : Node) (ns : List Node) (size : ℕ)
    → IsQueue (record { nodes = n ∷ ns; the_size = size })
    → k ≤ length (get_buffer_chunk (record { nodes = n ∷ ns; the_size = size }))
    → Ends
        (Advanced k (record { nodes = n ∷ ns; the_size = size }))
        (advance_buffer k (record { nodes = n ∷ ns; the_size = size }))
unfolding advance_buffer get_buffer_chunk check_non_empty
advance_correct k n ns size o enough =
    let d = advance_nodes-Dropped k n ns o.chain in
    let ms = advance_nodes k (n ∷ ns) in
    let whole : size ≡ length (contents (n ∷ ns)) = o.sized in
    let split : length (contents (n ∷ ns))
        ≡ length (take k (drop n.first n.buffer)) + length (contents ms) =
      ap length d.split ∙ length-append (take k (drop n.first n.buffer)) (contents ms) in
    let taken : length (take k (drop n.first n.buffer)) ≡ k =
      length-take k (drop n.first n.buffer) ∙ omega arith in
    ends (record {
      queue = record {
        chain = subst IsChain (sym (nonempty_same ms d.chain)) d.chain;
        sized = omega arith;
      };
      dropped = d.split;
    })

data Untouched : List Node → Type 0 where
  no_nodes : Untouched []
  whole_node : {n : Node} {ns : List Node} → n.first ≡ 0 → Untouched ns → Untouched (n ∷ ns)

-- As long as nothing has been taken off a node, `exportBuffer` copies what the queue holds.
export_nodes-Untouched : (ns : List Node) → Untouched ns → export_nodes ns ≡ contents ns
unfolding export_nodes contents
export_nodes-Untouched _ no_nodes = refl
export_nodes-Untouched _ (whole_node {n = n} {ns = ns} start rest) =
    ap (λ xs. xs ++ export_nodes ns)
      (take-length (occuped n) n.buffer (omega arith) ∙ ap (λ i. drop i n.buffer) (sym start))
    ∙ ap (λ xs. drop n.first n.buffer ++ xs) (export_nodes-Untouched ns rest)
