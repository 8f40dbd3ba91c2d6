-- ===== src/Treap/Tests.antt =====
-- Runs of the treap on small inputs.
use lock_free_search_tree.Base.{
  ℕ, suc, ◌≡◌, refl, true, false, Bool, List, [], ◌∷◌, ◌*◌, ◌%◌, half, ◌+ℤ◌, ℤ, pos, negsuc,
  Outcome, ok, ◌>>=◌,
}
use lock_free_search_tree.Treap.State.{
  Treap, new, node_at, write, set_parent, set_left, set_right, set_parent_unless_null,
  replace_child, assign, move_node, create_new_node,
}
use lock_free_search_tree.Treap.Moves.{
  right_rotate, left_rotate, rotate_up, stays, move_up_loop, move_up, rotate_down, move_down_loop,
  move_down, bst_insert_loop, bst_insert, bst_find_loop, bst_find,
}
use lock_free_search_tree.Treap.Ops.{
  insert, cut_off, remove_at, remove, contains, range_loop, range_query, rightmost_loop,
  get_max_value,
}
use lock_free_search_tree.Treap.Bulk.{
  attach, transfer_loop, transfer_nodes_from, collect, insert_ordered, sort, average,
  get_median_val, transfer_whole, join_roots, cut_control, merge_both, merge, take_half, split,
}

-- A stream of weights.
abbrev draws : ℕ → ℤ
draws i = pos (i * 7 % 5)

abbrev insert_all : List ℤ → ℕ → Treap → Outcome Treap
insert_all [] i t = ok t
insert_all (v ∷ vs) i t = insert v (draws i) t >>= insert_all vs (suc i)

-- Unfolding it unfolds the whole treap.
whole : Unit {0}
unfolding half ◌+ℤ◌ node_at write set_parent set_left set_right set_parent_unless_null replace_child
    assign move_node create_new_node right_rotate left_rotate rotate_up stays move_up_loop move_up
    rotate_down move_down_loop move_down bst_insert_loop bst_insert bst_find_loop bst_find insert
    cut_off remove_at remove contains range_loop range_query rightmost_loop get_max_value attach
    transfer_loop transfer_nodes_from collect insert_ordered sort average get_median_val
    transfer_whole join_roots cut_control merge_both merge take_half split
whole = tt

abbrev four : Outcome Treap
four = insert_all (pos 5 ∷ pos 1 ∷ pos 9 ∷ negsuc 2 ∷ []) 0 new

abbrev run : Outcome (List ℤ × Bool × Bool × ℤ)
run = do
  t ← four
  (_, t) ← remove (pos 5) t
  l ← range_query (negsuc 9) (pos 50) t
  a ← contains (pos 9) t
  b ← contains (pos 5) t
  m ← get_max_value t
  ok (l, a, b, m)

run_test : run ≡ ok (negsuc 2 ∷ pos 1 ∷ pos 9 ∷ [], true, false, pos 9)
unfolding whole
run_test = refl

abbrev run_splits : Outcome (ℤ × List ℤ × List ℤ × List ℤ)
run_splits = do
  t ← four
  (v, l, r) ← split draws draws t
  m ← merge draws l r
  a ← range_query (negsuc 9) (pos 50) l
  b ← range_query (negsuc 9) (pos 50) r
  c ← range_query (negsuc 9) (pos 50) m
  ok (v, a, b, c)

run_splits_test :
    run_splits
    ≡ ok (pos 2, negsuc 2 ∷ pos 1 ∷ [], pos 5 ∷ pos 9 ∷ [], negsuc 2 ∷ pos 1 ∷ pos 5 ∷ pos 9 ∷ [])
unfolding whole
run_splits_test = refl

-- The average of two equal values is not the value: only the first half is rounded down.
average_test : average (pos 3) (pos 3) ≡ pos 2
unfolding whole
average_test = refl

average_test_negative : average (negsuc 4) (negsuc 2) ≡ negsuc 2
unfolding whole
average_test_negative = refl
