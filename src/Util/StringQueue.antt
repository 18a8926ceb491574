-- ===== src/Util/StringQueue.antt =====
-- packages/basics/util/c_src/stringQueue.h and stringQueue.cc: `StringQueue`, a queue of characters in
-- linked nodes. A character is its code; the buffer of a node is the list of the characters before `last`,
-- which is its length, since none behind them is read. `buffer_size` is the nodes' `bufferSize`.
pub mod Last
pub mod Escape
pub mod Contents
pub mod Advance
pub mod Bounds
mod Tests
use april_ann.Prelude.{
  ℕ, zero, suc, ◌+◌, ◌-◌, Bool, Option, none, some, List, [], ◌∷◌, ◌++◌, length, take, drop, leb,
  ◌==◌, if◌then◌else◌, ◌&&◌, not,
}
use april_ann.Prelude.Loop.{◌>>=◌}

pub record Node : Type 0 where
  pub first : ℕ
  pub buffer : List ℕ

pub record StringQueue : Type 0 where
  pub nodes : List Node
  pub the_size : ℕ

abbrev pub new_node : Node
new_node = record { first = 0; buffer = [] }

abbrev pub occuped : Node → ℕ
occuped n = length n.buffer - n.first

abbrev pub put_char_no_check : ℕ → Node → Node
put_char_no_check c n = record n { buffer = n.buffer ++ (c ∷ []) }

abbrev pub empty_queue : StringQueue
empty_queue = record { nodes = []; the_size = 0 }

-- A change at `lastNode`.
unfoldable pub on_last : (Node → List Node) → List Node → List Node
on_last f [] = []
on_last f (n ∷ []) = f n
on_last f (n ∷ m ∷ ns) = n ∷ on_last f (m ∷ ns)

unfoldable pub check_non_empty : List Node → List Node
check_non_empty [] = new_node ∷ []
check_non_empty (n ∷ ns) = n ∷ ns

module _ (buffer_size : ℕ) where
  unfoldable pub check_last : List Node → List Node
  unfolding on_last
  check_last = on_last (λ n. if length n.buffer == buffer_size then n ∷ new_node ∷ [] else n ∷ [])

  -- `checkLast(); lastNode->putCharNoCheck(c);`
  unfoldable pub put_last : ℕ → List Node → List Node
  unfolding check_last
  put_last c ns = on_last (λ n. put_char_no_check c n ∷ []) (check_last ns)

  unfoldable pub put_char : StringQueue → ℕ → StringQueue
  unfolding put_last check_non_empty
  put_char q c = record { nodes = put_last c (check_non_empty q.nodes); the_size = q.the_size + 1 }

  unfoldable pub put_times : ℕ → ℕ → List Node → List Node
  unfolding put_last
  put_times c zero ns = ns
  put_times c (suc times) ns = put_last c (put_times c times ns)

  unfoldable pub put_chars : StringQueue → ℕ → ℕ → StringQueue
  unfolding put_times check_non_empty
  put_chars q c times = record {
    nodes = put_times c times (check_non_empty q.nodes);
    the_size = q.the_size + times;
  }

  unfoldable pub print_loop : List ℕ → StringQueue → StringQueue
  unfolding put_last
  print_loop [] q = q
  print_loop (c ∷ str) q =
      print_loop str (record { nodes = put_last c q.nodes; the_size = q.the_size + 1 })

  -- `print`, with the characters of `str` before its zero.
  unfoldable pub print : StringQueue → List ℕ → StringQueue
  unfolding print_loop check_non_empty
  print q str = print_loop str (record q { nodes = check_non_empty q.nodes })

-- `switch (c)`: the letter that follows a backslash, when there is one. `next` is `*str`.
unfoldable pub escaped : ℕ → ℕ → Option ℕ
escaped c next =
    if c == 92
    then (if next == 117 then none else some 92)
    else if c == 34
    then some 34
    else if c == 8
    then some 98
    else if c == 12
    then some 102
    else if c == 10
    then some 110
    else if c == 13
    then some 114
    else if c == 9
    then some 116
    else none

-- `*str`, where 0 ends the string.
abbrev pub head_code : List ℕ → ℕ
head_code [] = 0
head_code (c ∷ str) = c

module _ (buffer_size : ℕ) where
  unfoldable pub print_esc_loop : List ℕ → StringQueue → StringQueue
  unfolding put_last escaped
  print_esc_loop [] q = q
  print_esc_loop (c ∷ str) q = print_esc_loop str (elim (escaped c (head_code str)) [
    | none ↦ record { nodes = put_last buffer_size c q.nodes; the_size = q.the_size + 1 }
    | some e ↦ record {
      nodes = put_last buffer_size e (put_last buffer_size 92 q.nodes);
      the_size = q.the_size + 1 + 1;
    }
  ])

  unfoldable pub print_esc : StringQueue → List ℕ → StringQueue
  unfolding print_esc_loop check_non_empty
  print_esc q str = print_esc_loop str (record q { nodes = check_non_empty q.nodes })

-- `getBufferChunk`: the characters of the buffer that it gives.
unfoldable pub get_buffer_chunk : StringQueue → List ℕ
get_buffer_chunk q = elim q.nodes [ [] ↦ [] | (n ∷ ns) ↦ drop n.first n.buffer ]

-- `advanceBuffer`; without a node it is an error.
unfoldable pub advance_nodes : ℕ → List Node → List Node
advance_nodes k [] = []
advance_nodes k (n ∷ ns) =
    let moved : Node = record n { first = n.first + k } in
    if leb (length moved.buffer) moved.first
    then elim ns [ [] ↦ new_node ∷ [] | (m ∷ ms) ↦ m ∷ ms ]
    else moved ∷ ns

unfoldable pub advance_buffer : ℕ → StringQueue → Option StringQueue
unfolding advance_nodes
advance_buffer k q = elim q.nodes [
  | [] ↦ none
  | (n ∷ ns) ↦ some (record { nodes = advance_nodes k (n ∷ ns); the_size = q.the_size - k })
]

-- `exportBuffer`, without its final zero: each node's characters are copied from the start of its buffer.
unfoldable pub export_nodes : List Node → List ℕ
export_nodes [] = []
export_nodes (n ∷ ns) = take (occuped n) n.buffer ++ export_nodes ns
