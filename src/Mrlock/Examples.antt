-- ===== src/Mrlock/Examples.antt =====
-- The theorem on mrlocktree.cpp at a tree with one route node, and runs of its operations.
use lock_free_search_tree.Base.{
  ℕ, zero, suc, ◌≤◌, ◌≡◌, refl, List, [], ◌∷◌, true, arith, ℤ, pos, ◌<ℤ◌, int_min, ok, throw,
  out_of_range, length,
}
use lock_free_search_tree.Base.Sorted.{insert_sorted, remove_first, member, length-insert_sorted}
use lock_free_search_tree.Treap.State.{treap_nodes, Treap, new}
use lock_free_search_tree.Treap.Ops.{insert}
use lock_free_search_tree.Treap.Model.{Represents, new-Represents, size-Represents}
use lock_free_search_tree.Treap.Insert.{Gives, insert-Represents}
use lock_free_search_tree.Mrlock.{
  Node, base, route, initial, lookup, tree_range_query, node_count, destroy,
}
use lock_free_search_tree.Mrlock.Destroy.{nodes, destroy-nodes}
use lock_free_search_tree.Mrlock as mrlock
use lock_free_search_tree.Mrlock.Laws.{Holds, lookup-member}
use lock_free_search_tree.Mrlock.Growth.{
  Grows, GrowsSpacious, insert-Holds, insert-Spacious, insert_overflows,
}
use lock_free_search_tree.Mrlock.Remove.{Drops, remove-Holds}
use lock_free_search_tree.Mrlock.Range.{ListsTree, tree_range_query-between}
use lock_free_search_tree.Mrlock.Refines.{
  Call, perform_all, answers, AllSteps, initial-Stores, perform_all-refines, perform_all-agree,
}

abbrev one : Gives (insert_sorted (pos 5) []) (insert (pos 5) (pos 9) new)
one = insert-Represents (pos 5) (pos 9) new [] new-Represents (omega arith)

abbrev more : Gives (insert_sorted (pos 8) []) (insert (pos 8) (pos 2) new)
more = insert-Represents (pos 8) (pos 2) new [] new-Represents (omega arith)

abbrev tree : Node
tree = route (pos 5) (base one.0) (base more.0)

tree-Holds : Holds tree (pos 5 ∷ pos 8 ∷ [])
unfolding insert_sorted
tree-Holds = (
  insert_sorted (pos 5) [],
  insert_sorted (pos 8) [],
  refl,
  one.2,
  more.2,
  (omega arith, tt),
  (omega arith, tt),
)

lookup-member_example : lookup (pos 8) tree ≡ ok true
unfolding member
lookup-member_example = lookup-member (pos 8) tree (pos 5 ∷ pos 8 ∷ []) tree-Holds

-- A stream of weights, and the same tree, built by the calls.
abbrev draws : ℕ → ℤ
draws i = pos i

drawn : (a : ℕ) → int_min <ℤ draws a
drawn a = omega arith

abbrev five :
    GrowsSpacious (insert_sorted (pos 5) []) (mrlock.insert draws draws (pos 5) (pos 9) initial)
unfolding insert_sorted
five =
    insert-Spacious draws draws drawn drawn (pos 5) (pos 9) (omega arith) initial []
      initial-Stores.0 initial-Stores.1 initial-Stores.2 (tt, tt)

insert-Spacious_example :
    GrowsSpacious
      (insert_sorted (pos 8) (insert_sorted (pos 5) []))
      (mrlock.insert draws draws (pos 8) (pos 2) five.0)
unfolding insert_sorted
insert-Spacious_example =
    insert-Spacious draws draws drawn drawn (pos 8) (pos 2) (omega arith) five.0
      (insert_sorted (pos 5) []) five.2 five.3 five.4 ((omega arith, tt), (tt, tt))

insert-Holds_example :
    Grows (insert_sorted (pos 5) []) (mrlock.insert draws draws (pos 5) (pos 9) initial)
insert-Holds_example =
    insert-Holds draws draws drawn drawn (pos 5) (pos 9) (omega arith) initial [] initial-Stores.0
      initial-Stores.1 (omega arith)

remove-Holds_example :
    Drops (pos 5) (insert_sorted (pos 5) []) five.0 (mrlock.remove draws (pos 5) five.0)
remove-Holds_example =
    remove-Holds draws drawn (pos 5) five.0 (insert_sorted (pos 5) []) five.2 five.3

tree_range_query-between_example :
    ListsTree (pos 5) (pos 6) (pos 5 ∷ pos 8 ∷ []) (tree_range_query (pos 5) (pos 6) tree)
tree_range_query-between_example =
    tree_range_query-between (pos 5) (pos 6) tree (pos 5 ∷ pos 8 ∷ []) tree-Holds

abbrev calls : List Call
calls =
    Call.insert draws draws (pos 5) (pos 9)
    ∷ Call.insert draws draws (pos 8) (pos 2)
    ∷ Call.lookup (pos 5)
    ∷ Call.remove draws (pos 5)
    ∷ Call.lookup (pos 5)
    ∷ []

perform_all-refines_example : AllSteps calls [] (perform_all calls initial)
unfolding insert_sorted remove_first member
perform_all-refines_example = perform_all-refines calls (
  (drawn, drawn, omega arith, refl),
  ((drawn, drawn, omega arith, refl), (tt, (drawn, (tt, tt)))),
)

-- The values 5 and 8, inserted in the one order and in the other, with other weights.
abbrev both : GrowsSpacious (pos 5 ∷ pos 8 ∷ []) (mrlock.insert draws draws (pos 8) (pos 2) five.0)
unfolding insert_sorted
both =
    insert-Spacious draws draws drawn drawn (pos 8) (pos 2) (omega arith) five.0
      (insert_sorted (pos 5) []) five.2 five.3 five.4 ((omega arith, tt), (tt, tt))

abbrev eight : GrowsSpacious (pos 8 ∷ []) (mrlock.insert draws draws (pos 8) (pos 9) initial)
unfolding insert_sorted
eight =
    insert-Spacious draws draws drawn drawn (pos 8) (pos 9) (omega arith) initial []
      initial-Stores.0 initial-Stores.1 initial-Stores.2 (tt, tt)

abbrev swapped :
    GrowsSpacious (pos 5 ∷ pos 8 ∷ []) (mrlock.insert draws draws (pos 5) (pos 2) eight.0)
unfolding insert_sorted
swapped =
    insert-Spacious draws draws drawn drawn (pos 5) (pos 2) (omega arith) eight.0 (pos 8 ∷ [])
      eight.2 eight.3 eight.4 ((omega arith, tt), (tt, tt))

perform_all-agree_example :
    answers (perform_all (Call.lookup (pos 5) ∷ Call.remove draws (pos 8) ∷ []) both.0)
    ≡ answers (perform_all (Call.lookup (pos 5) ∷ Call.remove draws (pos 8) ∷ []) swapped.0)
perform_all-agree_example =
    perform_all-agree (Call.lookup (pos 5) ∷ Call.remove draws (pos 8) ∷ []) both.0 swapped.0
      (pos 5 ∷ pos 8 ∷ []) (both.2, both.3, both.4, ((omega arith, tt), (tt, tt)))
      (swapped.2, swapped.3, swapped.4, ((omega arith, tt), (tt, tt))) (tt, (drawn, tt))

-- Treaps of any size up to the limit, of equal values.
abbrev Filled : ℕ → Type 0
Filled n = (t : Treap) × (vs : List ℤ) × Represents t vs × (t.size ≡ n)

filled : (n : ℕ) → n ≤ treap_nodes → Filled n
filled zero h = (new, [], new-Represents, refl)
filled (suc n) h =
    let (t, vs, r, e) = filled n (omega arith) in
    let (u, run, s) =
      insert-Represents (pos 7) (pos n) t vs r (omega (arith, e, size-Represents t vs r)) in
    (
      u,
      insert_sorted (pos 7) vs,
      s,
      omega (
        arith,
        e,
        size-Represents t vs r,
        size-Represents u (insert_sorted (pos 7) vs) s,
        length-insert_sorted (pos 7) vs,
      ),
    )

abbrev full : Filled treap_nodes
full = filled treap_nodes (omega arith)

insert_overflows_example :
    mrlock.insert draws draws (pos 8) (pos 3) (base full.0) ≡ throw out_of_range
insert_overflows_example =
    insert_overflows draws draws drawn drawn (pos 8) (pos 3) (omega arith) (base full.0) full.1
      full.2 full.3

destroy-nodes_example : (destroy tree ≡ ok (nodes tree)) × (length (nodes tree) ≡ node_count tree)
destroy-nodes_example = destroy-nodes tree
