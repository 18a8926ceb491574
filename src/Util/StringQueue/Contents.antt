-- ===== src/Util/StringQueue/Contents.antt =====
-- What the operations of packages/basics/util/c_src/stringQueue.cc do to the characters that the queue holds.
use mathlib.Core.Path.{subst}
use mathlib.Core.List.{append_assoc, append-nil}
use april_ann.Prelude.{
  ℕ, ◌+◌, ◌≡◌, refl, ap, sym, ◌∙◌, List, [], ◌∷◌, ◌++◌, length, length-append, arith, Option-cases,
  inl, inr,
}
use april_ann.Util.StringQueue.{
  Node, StringQueue, put_last, put_char, print, print_loop, print_esc, print_esc_loop, escaped,
  head_code, check_non_empty,
}
use april_ann.Util.StringQueue.Escape.{IsEscape, escape, escape-IsEscape}
use april_ann.Util.StringQueue.Last.{contents, IsChain, only, more, Adds, put_last-Adds}

-- The nodes are in order, and `theSize` counts what they hold.
pub record IsQueue (q : StringQueue) : Type 0 where
  pub chain : IsChain (check_non_empty q.nodes)
  pub sized : q.the_size ≡ length (contents q.nodes)

-- The queue `q` with the characters `s` behind its own.
pub record Added (q : StringQueue) (s : List ℕ) (q' : StringQueue) : Type 0 where
  pub queue : IsQueue q'
  pub added : contents q'.nodes ≡ contents q.nodes ++ s

pub nonempty_same : (ns : List Node) → IsChain ns → check_non_empty ns ≡ ns
unfolding check_non_empty
nonempty_same _ (only f) = refl
nonempty_same _ (more f c) = refl

contents-check_non_empty : (ns : List Node) → contents (check_non_empty ns) ≡ contents ns
unfolding contents check_non_empty
contents-check_non_empty [] = refl
contents-check_non_empty (n ∷ ns) = refl

-- From nodes that hold what the queue does, and more.
Added-nodes :
    (q : StringQueue) (s : List ℕ) (ms : List Node) (size : ℕ)
    → IsQueue q
    → Adds s (check_non_empty q.nodes) ms
    → size ≡ q.the_size + length s
    → Added q s (record { nodes = ms; the_size = size })
Added-nodes q s ms size o a e =
    let held : contents ms ≡ contents q.nodes ++ s =
      a.added ∙ ap (λ xs. xs ++ s) (contents-check_non_empty q.nodes) in
    record {
      queue = record {
        chain = subst IsChain (sym (nonempty_same ms a.chain)) a.chain;
        sized =
            e ∙ omega (arith, o.sized, length-append (contents q.nodes) s) ∙ ap length (sym held);
      };
      added = held;
    }

Added-nothing :
    (q : StringQueue) → IsQueue q → Added q [] (record q { nodes = check_non_empty q.nodes })
Added-nothing q o =
    Added-nodes q [] (check_non_empty q.nodes) q.the_size o
      (record { chain = o.chain; added = sym (append-nil (contents (check_non_empty q.nodes))) })
      (omega arith)

Added-trans :
    (q q' q'' : StringQueue) (s t : List ℕ) → Added q s q' → Added q' t q'' → Added q (s ++ t) q''
Added-trans q q' q'' s t a b = record {
  queue = b.queue;
  added = b.added ∙ ap (λ xs. xs ++ t) a.added ∙ append_assoc (contents q.nodes) s t;
}

Added-here : (q : StringQueue) → IsQueue q → Added q [] q
Added-here q o = record { queue = o; added = sym (append-nil (contents q.nodes)) }

put_step :
    (buffer_size c : ℕ) (q : StringQueue)
    → IsQueue q
    → IsChain q.nodes
    → Added q
        (c ∷ [])
        (record { nodes = put_last buffer_size c q.nodes; the_size = q.the_size + 1 })
put_step buffer_size c q o h =
    Added-nodes q (c ∷ []) (put_last buffer_size c q.nodes) (q.the_size + 1) o
      (subst (λ ns. Adds (c ∷ []) ns (put_last buffer_size c q.nodes))
        (sym (nonempty_same q.nodes h)) (put_last-Adds buffer_size c q.nodes h))
      refl

step_chain : (buffer_size c : ℕ) (ns : List Node) → IsChain ns → IsChain (put_last buffer_size c ns)
step_chain buffer_size c ns h = let a = put_last-Adds buffer_size c ns h in a.chain

print_loop-Added :
    (buffer_size : ℕ) (str : List ℕ) (q : StringQueue)
    → IsQueue q
    → IsChain q.nodes
    → Added q str (print_loop buffer_size str q)
unfolding print_loop
print_loop-Added buffer_size [] q o h = Added-here q o
print_loop-Added buffer_size (c ∷ str) q o h =
    let once = put_step buffer_size c q o h in
    let p : StringQueue = record {
      nodes = put_last buffer_size c q.nodes;
      the_size = q.the_size + 1;
    } in
    Added-trans q p (print_loop buffer_size str p) (c ∷ []) str once
      (print_loop-Added buffer_size str p once.queue (step_chain buffer_size c q.nodes h))

print_esc_loop-Added :
    (buffer_size : ℕ) (str : List ℕ) (q : StringQueue)
    → IsQueue q
    → IsChain q.nodes
    → Added q (escape str) (print_esc_loop buffer_size str q)
unfolding print_esc_loop escape
print_esc_loop-Added buffer_size [] q o h = Added-here q o
print_esc_loop-Added buffer_size (c ∷ str) q o h = elim (Option-cases (escaped c (head_code str))) [
  | inl plain ↦
      let once = put_step buffer_size c q o h in
      let p : StringQueue = record {
        nodes = put_last buffer_size c q.nodes;
        the_size = q.the_size + 1;
      } in
      rw (escape, plain)
        (Added-trans q p (print_esc_loop buffer_size str p) (c ∷ []) (escape str) once
          (print_esc_loop-Added buffer_size str p once.queue (step_chain buffer_size c q.nodes h)))
  | inr (e, special) ↦
      let once = put_step buffer_size 92 q o h in
      let p : StringQueue = record {
        nodes = put_last buffer_size 92 q.nodes;
        the_size = q.the_size + 1;
      } in
      let p-IsChain = step_chain buffer_size 92 q.nodes h in
      let twice = put_step buffer_size e p once.queue p-IsChain in
      let r : StringQueue = record {
        nodes = put_last buffer_size e p.nodes;
        the_size = p.the_size + 1;
      } in
      rw (escape, special)
        (Added-trans q p (print_esc_loop buffer_size str r) (92 ∷ []) (e ∷ escape str) once (
          Added-trans p r (print_esc_loop buffer_size str r) (e ∷ []) (escape str) twice (
            print_esc_loop-Added buffer_size str r twice.queue
              (step_chain buffer_size e p.nodes p-IsChain))))
]

-- `print` puts the characters of a string behind those that the queue holds, and counts them.
print_correct :
    (buffer_size : ℕ) (q : StringQueue) (str : List ℕ)
    → IsQueue q
    → Added q str (print buffer_size q str)
unfolding print
print_correct buffer_size q str o =
    let p : StringQueue = record q { nodes = check_non_empty q.nodes } in
    let a = Added-nothing q o in
    Added-trans q p (print_loop buffer_size str p) [] str a
      (print_loop-Added buffer_size str p a.queue o.chain)

-- `printEsc` puts the escaped form of a string behind the characters that the queue holds, and counts what
-- it puts: a backslash and a letter for \b, \f, \n, \r and \t, a backslash before a quotation mark and
-- before a backslash, except that a backslash before u stays alone; every other character is itself.
pub print_esc_correct :
    (buffer_size : ℕ) (q : StringQueue) (str : List ℕ)
    → IsQueue q
    → (t : List ℕ) × IsEscape str t × Added q t (print_esc buffer_size q str)
unfolding print_esc
print_esc_correct buffer_size q str o =
    let p : StringQueue = record q { nodes = check_non_empty q.nodes } in
    let a = Added-nothing q o in
    (
      escape str,
      escape-IsEscape str,
      Added-trans q p (print_esc_loop buffer_size str p) [] (escape str) a
          (print_esc_loop-Added buffer_size str p a.queue o.chain),
    )

put_char-Added :
    (buffer_size : ℕ) (q : StringQueue) (c : ℕ)
    → IsQueue q
    → Added q (c ∷ []) (put_char buffer_size q c)
unfolding put_char
put_char-Added buffer_size q c o =
    Added-nodes q (c ∷ []) (put_last buffer_size c (check_non_empty q.nodes)) (q.the_size + 1) o
      (put_last-Adds buffer_size c (check_non_empty q.nodes) o.chain) refl
