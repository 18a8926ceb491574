-- ===== src/Util/StringQueue/Bounds.antt =====
-- No operation of packages/basics/util/c_src/stringQueue.cc that puts characters writes behind a node's buffer.
use april_ann.Prelude.{
  ℕ, zero, suc, ◌+◌, ◌≤◌, ◌<◌, List, [], ◌∷◌, length, length-append, arith, Option-cases,
  Bool-cases, inl, inr, ◌==◌,
}
use april_ann.Util.StringQueue.{
  Node, StringQueue, on_last, check_last, check_non_empty, put_last, put_char_no_check, print,
  print_loop, print_esc, print_esc_loop, escaped, head_code, put_times, put_chars,
}

module _ (buffer_size : ℕ) where
  -- At least one node, and none with more characters than its buffer holds.
  pub data IsBounded : List Node → Type 0 where
    one_node : {n : Node} → length n.buffer ≤ buffer_size → IsBounded (n ∷ [])
    node_before :
        {n : Node} {ns : List Node}
        → length n.buffer ≤ buffer_size
        → IsBounded ns
        → IsBounded (n ∷ ns)

  -- The last one has room for a character.
  data HasRoom : List Node → Type 0 where
    last_node : {n : Node} → length n.buffer < buffer_size → HasRoom (n ∷ [])
    room_behind :
        {n : Node} {ns : List Node} → length n.buffer ≤ buffer_size → HasRoom ns → HasRoom (n ∷ ns)

  module _ (pos : 0 < buffer_size) where
    check_last-HasRoom : (ns : List Node) → IsBounded ns → HasRoom (check_last buffer_size ns)
    unfolding check_last on_last
    check_last-HasRoom _ (one_node {n = n} h) = elim (Bool-cases (length n.buffer == buffer_size)) [
      | inl full ↦ rw full (room_behind h (last_node pos))
      | inr free ↦ rw free (last_node (ground arith))
    ]
    check_last-HasRoom _ (node_before h (one_node g)) =
        room_behind h (check_last-HasRoom _ (one_node g))
    check_last-HasRoom _ (node_before h (node_before g b)) =
        room_behind h (check_last-HasRoom _ (node_before g b))

    put-IsBounded :
        (c : ℕ) (ns : List Node)
        → HasRoom ns
        → IsBounded (on_last (λ n. put_char_no_check c n ∷ []) ns)
    unfolding on_last
    put-IsBounded c _ (last_node {n = n} h) =
        one_node (let l = length-append n.buffer (c ∷ []) in omega arith)
    put-IsBounded c _ (room_behind h (last_node g)) =
        node_before h (put-IsBounded c _ (last_node g))
    put-IsBounded c _ (room_behind h (room_behind g r)) =
        node_before h (put-IsBounded c _ (room_behind g r))

    print_loop-IsBounded :
        (str : List ℕ) (q : StringQueue)
        → IsBounded q.nodes
        → IsBounded (print_loop buffer_size str q).nodes
    unfolding print_loop put_last
    print_loop-IsBounded [] q b = b
    print_loop-IsBounded (c ∷ str) q b =
        print_loop-IsBounded str
          (record { nodes = put_last buffer_size c q.nodes; the_size = q.the_size + 1 })
          (put-IsBounded c (check_last buffer_size q.nodes) (check_last-HasRoom q.nodes b))

    put_last-IsBounded :
        (c : ℕ) (ns : List Node) → IsBounded ns → IsBounded (put_last buffer_size c ns)
    unfolding put_last
    put_last-IsBounded c ns b =
        put-IsBounded c (check_last buffer_size ns) (check_last-HasRoom ns b)

    print_esc_loop-IsBounded :
        (str : List ℕ) (q : StringQueue)
        → IsBounded q.nodes
        → IsBounded (print_esc_loop buffer_size str q).nodes
    unfolding print_esc_loop
    print_esc_loop-IsBounded [] q b = b
    print_esc_loop-IsBounded (c ∷ str) q b = elim (Option-cases (escaped c (head_code str))) [
      | inl plain ↦
          rw (print_esc_loop, plain)
            (print_esc_loop-IsBounded str
              (record { nodes = put_last buffer_size c q.nodes; the_size = q.the_size + 1 })
              (put_last-IsBounded c q.nodes b))
      | inr (e, special) ↦
          rw (print_esc_loop, special)
            (print_esc_loop-IsBounded str
              (record {
                nodes = put_last buffer_size e (put_last buffer_size 92 q.nodes);
                the_size = q.the_size + 1 + 1;
              })
              (put_last-IsBounded e (put_last buffer_size 92 q.nodes)
                (put_last-IsBounded 92 q.nodes b)))
    ]

    put_times-IsBounded :
        (c times : ℕ) (ns : List Node) → IsBounded ns → IsBounded (put_times buffer_size c times ns)
    unfolding put_times
    put_times-IsBounded c zero ns b = b
    put_times-IsBounded c (suc times) ns b =
        put_last-IsBounded c (put_times buffer_size c times ns) (put_times-IsBounded c times ns b)

    -- `print`, `printEsc` and `putchars` put no more characters into a node than its buffer holds, when its
    -- size is not 0 and no node had more before.
    pub print-IsBounded :
        (q : StringQueue) (str : List ℕ) (c times : ℕ)
        → IsBounded (check_non_empty q.nodes)
        → IsBounded (print buffer_size q str).nodes
          × IsBounded (print_esc buffer_size q str).nodes
          × IsBounded (put_chars buffer_size q c times).nodes
    unfolding print print_esc put_chars
    print-IsBounded q str c times b = (
      print_loop-IsBounded str (record q { nodes = check_non_empty q.nodes }) b,
      print_esc_loop-IsBounded str (record q { nodes = check_non_empty q.nodes }) b,
      put_times-IsBounded c times (check_non_empty q.nodes) b,
    )
