-- ===== src/Treap/Trials.antt =====
-- The theorems on the bulk operations and the queries of treap.cpp at small treaps.
use lock_free_search_tree.Base.{
  ℕ, refl, none, some, update, List, [], ◌++◌, arith, ℤ, pos, negsuc, ◌<ℤ◌, int_min,
}
use lock_free_search_tree.Base.Sorted.{insert_sorted}
use lock_free_search_tree.Treap.State.{Treap, new}
use lock_free_search_tree.Treap.Ops.{insert, remove, range_query, get_max_value}
use lock_free_search_tree.Treap.Bulk.{transfer_nodes_from, get_median_val, merge, split}
use lock_free_search_tree.Treap.Model.{Returns, new-Sound}
use lock_free_search_tree.Treap.Weights.{insert-Sound, RemovesSound, remove-Sound}
use lock_free_search_tree.Treap.Shape.{leaf, node}
use lock_free_search_tree.Treap.Transfer.{Transfers, transfer_nodes_from_lem}
use lock_free_search_tree.Treap.Median.{FindsMiddle, get_median_val_lem}
use lock_free_search_tree.Treap.Balance.{SplitsAtMedian, SplitsEvenly, split_lem, split_even}
use lock_free_search_tree.Treap.Merging.{merge_lem}
use lock_free_search_tree.Treap.RoundTrip.{Rejoins, merge-split}
use lock_free_search_tree.Treap.Range.{Lists, range_query-between}
use lock_free_search_tree.Treap.Greatest.{Greatest, get_max_value-last}

-- A stream of weights.
abbrev draws : ℕ → ℤ
draws i = pos i

drawn : (a : ℕ) → int_min <ℤ draws a
drawn a = omega arith

abbrev one : Returns (insert_sorted (pos 5) []) (insert (pos 5) (pos 9) new)
one = insert-Sound (pos 5) (pos 9) new [] new-Sound (omega arith) (omega arith)

abbrev values : List ℤ
values = insert_sorted (negsuc 2) (insert_sorted (pos 5) [])

insert-Sound_example : Returns values (insert (negsuc 2) (pos 4) one.0)
unfolding insert_sorted
insert-Sound_example =
    insert-Sound (negsuc 2) (pos 4) one.0 (insert_sorted (pos 5) []) one.2 (omega arith)
      (omega arith)

abbrev two : Returns values (insert (negsuc 2) (pos 4) one.0)
unfolding insert_sorted
two =
    insert-Sound (negsuc 2) (pos 4) one.0 (insert_sorted (pos 5) []) one.2 (omega arith)
      (omega arith)

remove-Sound_example : RemovesSound (pos 5) values (remove (pos 5) two.0)
remove-Sound_example = remove-Sound (pos 5) two.0 values two.2

range_query-between_example :
    Lists two.0 (negsuc 9) (pos 3) values (range_query (negsuc 9) (pos 3) two.0)
range_query-between_example = range_query-between two.0 (negsuc 9) (pos 3) values two.2.0

get_max_value-last_example : Greatest values (get_max_value two.0)
unfolding insert_sorted
get_max_value-last_example = get_max_value-last two.0 values two.2.0 (omega arith)

get_median_val_lem_example : FindsMiddle values (get_median_val two.0)
unfolding insert_sorted
get_median_val_lem_example = get_median_val_lem two.0 values two.2.0 (omega arith)

split_lem_example : SplitsAtMedian values (split draws draws two.0)
unfolding insert_sorted
split_lem_example = split_lem draws draws drawn drawn two.0 values two.2 (omega arith)

split_even_example : SplitsEvenly values (split draws draws two.0)
unfolding insert_sorted
split_even_example =
    split_even draws draws drawn drawn two.0 values two.2 (omega arith)
      ((omega arith, tt), (tt, tt))

abbrev more : Returns (insert_sorted (pos 8) []) (insert (pos 8) (pos 2) new)
more = insert-Sound (pos 8) (pos 2) new [] new-Sound (omega arith) (omega arith)

merge_lem_example : Returns (values ++ insert_sorted (pos 8) []) (merge draws two.0 more.0)
unfolding insert_sorted
merge_lem_example =
    merge_lem draws drawn two.0 more.0 values (insert_sorted (pos 8) []) two.2.0 more.2.0
      (omega arith) ((omega arith, (omega arith, tt)), ((omega arith, tt), (tt, tt)))

merge-split_example : Rejoins draws values (split draws draws two.0)
unfolding insert_sorted
merge-split_example =
    merge-split draws draws draws drawn drawn drawn two.0 values two.2 (omega arith)

-- A treap of one node, written out, and a copy of it.
abbrev single : Treap
single = record {
  size = 1;
  nodes =
      update new.nodes 0
        (record { val = pos 5; weight = pos 3; parent = none; left = none; right = none });
  root = some 0;
}

transfer_nodes_from_lem_example :
    Transfers draws single new (node leaf 0 leaf) (transfer_nodes_from draws single (some 0) new)
transfer_nodes_from_lem_example =
    transfer_nodes_from_lem draws single new none leaf 0 leaf
      (omega arith, refl, refl, refl, tt, tt) (omega arith)
