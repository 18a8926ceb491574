-- ===== src/Util/StringQueue/Tests.antt =====
-- Runs of the queue of characters, and the conditions of its theorems.
use april_ann.Prelude.{ℕ, List, ◌≡◌, refl, some, [], ◌∷◌, arith}
use april_ann.Prelude.Loop.{◌>>=◌, Ends}
use april_ann.Util.StringQueue.{
  StringQueue, empty_queue, print, print_loop, print_esc, put_last, check_last, on_last, put_chars,
  check_non_empty, get_buffer_chunk, advance_nodes, advance_buffer, export_nodes,
}
use april_ann.Util.StringQueue.Last.{contents, only, more}
use april_ann.Util.StringQueue.Contents.{IsQueue, Added, print_esc_correct}
use april_ann.Util.StringQueue.Escape.{IsEscape}
use april_ann.Util.StringQueue.Bounds.{IsBounded, one_node, node_before, print-IsBounded}
use april_ann.Util.StringQueue.Advance.{Advanced, advance_correct}

-- Nodes of three characters; the first of the three has been taken off.
abbrev two_nodes : StringQueue
two_nodes = record {
  nodes =
      record { first = 1; buffer = 97 ∷ 98 ∷ 99 ∷ [] }
      ∷ record { first = 0; buffer = 100 ∷ [] }
      ∷ [];
  the_size = 3;
}

two_nodes-IsQueue : IsQueue two_nodes
unfolding check_non_empty contents
two_nodes-IsQueue = record { chain = more (omega arith) (only (omega arith)); sized = refl }

print_esc_correct_example :
    (t : List ℕ) × IsEscape (97 ∷ 10 ∷ []) t
    × Added two_nodes t (print_esc 3 two_nodes (97 ∷ 10 ∷ []))
print_esc_correct_example = print_esc_correct 3 two_nodes (97 ∷ 10 ∷ []) two_nodes-IsQueue

advance_correct_example : Ends (Advanced 2 two_nodes) (advance_buffer 2 two_nodes)
unfolding get_buffer_chunk
advance_correct_example =
    advance_correct 2 (record { first = 1; buffer = 97 ∷ 98 ∷ 99 ∷ [] })
      (record { first = 0; buffer = 100 ∷ [] } ∷ []) 3 two_nodes-IsQueue (omega arith)

-- After the first of two characters is taken off, the export has the first instead of the second.
exported :
    (advance_buffer 1 (print 3 empty_queue (97 ∷ 98 ∷ [])) >>= λ q. some (export_nodes q.nodes))
    ≡ some (97 ∷ [])
unfolding print print_loop put_last check_last on_last check_non_empty advance_nodes advance_buffer
    export_nodes
exported = refl

held :
    (advance_buffer 1 (print 3 empty_queue (97 ∷ 98 ∷ [])) >>= λ q. some (contents q.nodes))
    ≡ some (98 ∷ [])
unfolding print print_loop put_last check_last on_last check_non_empty advance_nodes advance_buffer
    contents
held = refl

print-IsBounded_example :
    IsBounded 3 (print 3 two_nodes (101 ∷ 102 ∷ 103 ∷ [])).nodes
    × IsBounded 3 (print_esc 3 two_nodes (101 ∷ 102 ∷ 103 ∷ [])).nodes
    × IsBounded 3 (put_chars 3 two_nodes 32 5).nodes
unfolding check_non_empty
print-IsBounded_example =
    print-IsBounded 3 (omega arith) two_nodes (101 ∷ 102 ∷ 103 ∷ []) 32 5
      (node_before (omega arith) (one_node (omega arith)))
