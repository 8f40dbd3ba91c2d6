-- ===== src/Lfca/Tests.antt =====
-- Runs of one thread alone on the search tree of lfca.cpp.
use lock_free_search_tree.Base.{
  ℕ, zero, suc, some, update, ◌<◌, arith, ◌≡◌, refl, Bool, true, false, List, [], ◌∷◌, ◌*◌, ◌+◌,
  ◌%◌, half, ◌+ℤ◌, ℤ, pos, none,
}
use lock_free_search_tree.Treap.State.{
  node_at, write, set_parent, set_left, set_right, set_parent_unless_null, replace_child, assign,
  move_node, create_new_node,
}
use lock_free_search_tree.Treap.Moves.{
  right_rotate, left_rotate, rotate_up, stays, move_up_loop, move_up, rotate_down, move_down_loop,
  move_down, bst_insert_loop, bst_insert, bst_find_loop, bst_find,
}
use lock_free_search_tree.Treap.Ops.{
  cut_off, remove_at, contains, range_loop, get_size, rightmost_loop, get_max_value,
  immutable_insert, immutable_remove,
}
use lock_free_search_tree.Treap.Ops
use lock_free_search_tree.Treap.Bulk.{
  attach, transfer_loop, transfer_nodes_from, collect, insert_ordered, sort, average,
  get_median_val, transfer_whole, join_roots, cut_control, merge_both, merge, take_half, split,
}
use lock_free_search_tree.Lfca.Memory.{
  Memory, Program, ret, ◌>>=◌, ◌>>◌, blank, blank_storage, Ended, returns, throws, faults,
  exhausted, run,
}
use lock_free_search_tree.Lfca.Access.{
  load, store, exchange, exchange_preparing, exchange_root, new_node, new_storage, new_treap,
  load_treap, load_result, load_more_than_one, try_replace, is_replaceable, minus_range_sub,
  adjusted_stat, new_stat,
}
use lock_free_search_tree.Lfca.Find.{
  load_root, leftmost, rightmost, find_base_node, find_base_stack_loop, find_base_stack,
  leftmost_and_stack, replace_top, climb, find_next_base_stack, parent_loop, parent_of,
}
use lock_free_search_tree.Lfca.Adapt.{
  abort_join, unlock, lock, publish_join, lock_parents, replace_both, secure_join, splice,
  complete_join, join, low_contention_adaptation, high_contention_adaptation, adapt_if_needed,
}
use lock_free_search_tree.Lfca.Range.{
  new_range_base, exchange_result, set_more_than_one, collect_results, finish, is_last,
  help_if_needed, all_in_range,
}
use lock_free_search_tree.Lfca.Update.{
  treap_insert, treap_remove, update_loop, do_update, insert, remove, lookup, range_query,
  construct,
}
use lock_free_search_tree.Treap.State
use lock_free_search_tree.Lfca.Access.{is_range}
use lock_free_search_tree.Lfca.Safety.{AllPlain}
use lock_free_search_tree.Lfca.Safety.Rules.{update-Plain}
use lock_free_search_tree.Lfca.Threads.{
  Call, insert_call, range_call, call, thread, System, play, start,
}
use lock_free_search_tree.Lfca.Threads.Laws.{stat-InBounds, result-kept, never_range}
use lock_free_search_tree.Base.{inr}
use lock_free_search_tree.Lfca.Memory.{contended}
use lock_free_search_tree.Lfca.Access.{minus_range_contrib}
use lock_free_search_tree.Lfca.Stats.{InBounds, zero-InBounds, adjusted_stat-InBounds}

whole : Unit {0}
unfolding half ◌+ℤ◌ node_at write set_parent set_left set_right set_parent_unless_null replace_child
    assign move_node create_new_node right_rotate left_rotate rotate_up stays move_up_loop move_up
    rotate_down move_down_loop move_down bst_insert_loop bst_insert bst_find_loop bst_find
    Ops.insert cut_off remove_at Ops.remove contains range_loop Ops.range_query rightmost_loop
    get_max_value attach get_size immutable_insert immutable_remove transfer_loop
    transfer_nodes_from collect insert_ordered sort average get_median_val transfer_whole join_roots
    cut_control merge_both merge take_half split load store exchange exchange_preparing
    exchange_root new_node new_storage new_treap load_treap load_result load_more_than_one
    try_replace is_replaceable minus_range_sub adjusted_stat new_stat load_root leftmost rightmost
    find_base_node find_base_stack_loop find_base_stack leftmost_and_stack replace_top climb
    find_next_base_stack parent_loop parent_of abort_join unlock lock publish_join lock_parents
    replace_both secure_join splice complete_join join low_contention_adaptation
    high_contention_adaptation adapt_if_needed new_range_base exchange_result set_more_than_one
    collect_results finish is_last help_if_needed all_in_range run play call thread treap_insert
    treap_remove update_loop do_update insert remove lookup range_query construct
whole = tt

abbrev weights : ℕ → ℕ → ℤ
weights d i = pos ((d * 7 + i * 3) % 5)

abbrev empty : Memory
empty = record {
  root = none;
  nodes = λ _. blank;
  node_count = 0;
  node_limit = 100;
  storages = λ _. blank_storage;
  storage_count = 0;
  storage_limit = 10;
  treap_count = 0;
  treap_limit = 100;
  draws = 0;
}

-- The memory of a tree that is empty, with one base node.
abbrev one_node : Memory
one_node = record empty {
  root = some 0;
  nodes = update (λ _. blank) 0 (record blank { treap = some State.new });
  node_count = 1;
  treap_count = 1;
}

one_node-AllPlain : AllPlain one_node
one_node-AllPlain = update-Plain (λ _. blank) 0 _ (λ p. (refl, zero-InBounds)) (refl, zero-InBounds)

-- Thread 0 inserts 5 and asks for the values from 0 to 9, and thread 1 inserts 7.
abbrev calls : ℕ → List Call
calls zero = insert_call (pos 5) ∷ range_call (pos 0) (pos 9) ∷ []
calls (suc zero) = insert_call (pos 7) ∷ []
calls (suc (suc _)) = []

-- The steps of the two threads in turn.
abbrev turns : ℕ → List ℕ
turns zero = []
turns (suc n) = 0 ∷ 1 ∷ turns n

abbrev played : ℕ → System
played n = play (turns n) (start 20 weights calls one_node)

stored_test : ((played 60).memory.storages 0).result ≡ some (pos 5 ∷ [])
unfolding whole
stored_test = refl

abbrev result {ℓ} : {A : Type 0} {B : Type ℓ} → B → (A → B) → Ended A → B
result d f (returns a m) = f a
result d f (throws e) = d
result d f faults = d
result d f exhausted = d

-- A split at 5, an update on each side, and two range queries. The second starts at the route value,
-- searches to the right of it, and misses the 5 that stands on its left.
abbrev session : Program (Bool × Bool × List ℤ × List ℤ)
unfolding whole
session = do
  construct
  insert 20 weights (pos 5)
  insert 20 weights (pos 1)
  insert 20 weights (pos 9)
  root ← load_root
  high_contention_adaptation 20 weights root
  insert 20 weights (pos 7)
  a ← remove 20 weights (pos 1)
  b ← lookup 20 weights (pos 5)
  l ← range_query 20 weights (pos 2) (pos 8)
  k ← range_query 20 weights (pos 5) (pos 8)
  ret (a, b, l, k)

session_test :
    result (false, false, [], []) (λ r. r) (run session empty)
    ≡ (true, true, pos 5 ∷ pos 7 ∷ [], pos 7 ∷ [])
unfolding whole
session_test = refl

-- The number of result sets that are handed out after 60 turns.
handed_out : 0 < (played 60).memory.storage_count
unfolding whole
handed_out = omega arith

result-kept_example : ((play (turns 9) (played 60)).memory.storages 0).result ≡ some (pos 5 ∷ [])
result-kept_example =
    result-kept 20 weights calls one_node one_node-AllPlain (turns 60) (turns 9) 0 (pos 5 ∷ [])
      handed_out stored_test

never_range_example : is_range ((played 60).memory.nodes 3).type ≡ false
never_range_example = never_range 20 weights calls one_node one_node-AllPlain (turns 60) 3

adjusted_stat-InBounds_example : InBounds (adjusted_stat (pos 1000) contended minus_range_contrib)
adjusted_stat-InBounds_example =
    adjusted_stat-InBounds (pos 1000) contended minus_range_contrib (omega arith, omega arith)
      (inr refl)

stat-InBounds_example : InBounds ((played 60).memory.nodes 3).stat
stat-InBounds_example = stat-InBounds 20 weights calls one_node one_node-AllPlain (turns 60) 3
