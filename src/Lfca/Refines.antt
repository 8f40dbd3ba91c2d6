-- ===== src/Lfca/Refines.antt =====
-- `insert` and `remove` of lfca.cpp, run by one thread alone, against the values of the tree.
use lock_free_search_tree.Base.{ℕ, ◌≤◌, ap, true, arith, List, ℤ, ◌≤ℤ◌, ◌<ℤ◌}
use lock_free_search_tree.Base.Sorted.{
  member, All-imp, insert_sorted, insert_sorted-left, insert_sorted-right, insert_sorted-All,
  remove_first, remove_first-left, remove_first-right, remove_first-All,
}
use lock_free_search_tree.Base.Sides.{none_above, none_below}
use lock_free_search_tree.Treap.Model.{size-Represents}
use lock_free_search_tree.Treap.State.{assign}
use lock_free_search_tree.Treap.Ops.{immutable_insert, immutable_remove}
use lock_free_search_tree.Treap.Insert.{insert-Represents}
use lock_free_search_tree.Treap.Remove.{remove-Represents}
use lock_free_search_tree.Lfca.Memory.{Memory, run}
use lock_free_search_tree.Lfca.Update.{always, treap_insert, treap_remove, do_update, remove}
use lock_free_search_tree.Lfca.Layout.{Layout, height}
use lock_free_search_tree.Lfca.Replace.{ChangesAt}
use lock_free_search_tree.Lfca.Calm.{Ready, Effect, Updates}
use lock_free_search_tree.Lfca.Updated.{do_update_lem}

-- The two functions that `do_update` takes.
insert-ChangesAt : (i : ℤ) → ChangesAt i (insert_sorted i)
insert-ChangesAt i = record {
  left = insert_sorted-left i;
  right = λ xs ys h.
      insert_sorted-right i xs ys (All-imp (λ x. x <ℤ i) (λ x. x ≤ℤ i) xs (λ x k. omega arith) h);
  keeps = λ P xs p h. insert_sorted-All P i xs p h;
}

remove-ChangesAt : (i : ℤ) → ChangesAt i (remove_first i)
remove-ChangesAt i = record {
  left = λ xs ys h. remove_first-left i xs ys (none_above i i ys (omega arith) h);
  right = λ xs ys h. remove_first-right i xs ys (none_below i xs h);
  keeps = λ P xs p h. remove_first-All P i xs h;
}

insert-Effect : (i : ℤ) (draws : ℕ → ℤ) → Effect treap_insert i draws (λ b. true) (insert_sorted i)
unfolding treap_insert immutable_insert assign
insert-Effect i draws t ws r h =
    let (t', run', held) =
      insert-Represents i (draws 0) t ws r (omega (arith, size-Represents t ws r)) in
    (t', ap always run', held)

remove-Effect : (i : ℤ) (draws : ℕ → ℤ) → Effect treap_remove i draws (λ b. b) (remove_first i)
unfolding treap_remove immutable_remove assign
remove-Effect i draws t ws r h = remove-Represents i t ws r

-- Take a memory that holds a tree with the values `vs` behind its root, in which the base nodes know
-- their parents, and each node has been handed out and stands once in the tree. Every base node can be
-- replaced: its type is normal, or it is the main node of a join that was aborted, or the neighbour in
-- one that was aborted or is done. No base node is full or due to be split or joined: its statistics are
-- above -1000 and at most 1000. The pools have room. Then the update of `insert`, run alone with fuel
-- for the height of the tree, returns `true`, and the memory then holds a tree with these values and the
-- new one inserted in order, in which again the base nodes know their parents, and each node has been
-- handed out and stands once.
pub insert-alone :
    (f : ℕ) (weights : ℕ → ℕ → ℤ) (m : Memory) (i : ℤ) (x : Layout) (vs : List ℤ)
    → Ready m x vs
    → height x ≤ f
    → Updates true (insert_sorted i vs) (run (do_update f weights treap_insert i) m)
insert-alone f weights m i x vs r fuel =
    do_update_lem f weights treap_insert i m (λ b. true) (insert_sorted i)
      (insert-Effect i (weights m.draws)) (insert-ChangesAt i) x vs r fuel

-- Take a memory that holds a tree with the values `vs` behind its root, in which the base nodes know
-- their parents, and each node has been handed out and stands once in the tree. Every base node can be
-- replaced: its type is normal, or it is the main node of a join that was aborted, or the neighbour in
-- one that was aborted or is done. No base node is full or due to be split or joined: its statistics are
-- above -1000 and at most 1000. The pools have room. Then `remove`, run alone with fuel for the
-- height of the tree, returns whether the value is one of `vs`, and the memory then holds a tree with
-- these values without the first occurrence of that value, in which again the base nodes know their
-- parents, and each node has been handed out and stands once.
pub remove-alone :
    (f : ℕ) (weights : ℕ → ℕ → ℤ) (m : Memory) (i : ℤ) (x : Layout) (vs : List ℤ)
    → Ready m x vs
    → height x ≤ f
    → Updates (member i vs) (remove_first i vs) (run (remove f weights i) m)
unfolding remove
remove-alone f weights m i x vs r fuel =
    do_update_lem f weights treap_remove i m (λ b. b) (remove_first i)
      (remove-Effect i (weights m.draws)) (remove-ChangesAt i) x vs r fuel
