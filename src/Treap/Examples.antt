-- ===== src/Treap/Examples.antt =====
-- The theorems on treap.cpp at small treaps.
use lock_free_search_tree.Base.{
  ℕ, zero, suc, ◌≤◌, ◌≡◌, refl, ap, ◌∙◌, none, some, List, [], arith, true, ℤ, pos, negsuc, length,
  update, ok,
}
use lock_free_search_tree.Base.Sorted.{insert_sorted, member, length-insert_sorted}
use lock_free_search_tree.Treap.State.{treap_nodes, Treap, blank, new, move_node}
use lock_free_search_tree.Treap.Moves.{right_rotate, left_rotate, move_up, move_down}
use lock_free_search_tree.Treap.Ops.{insert, remove, contains}
use lock_free_search_tree.Treap.Shape.{leaf, node, top, in_left}
use lock_free_search_tree.Treap.Focus.{Focus, Rotated}
use lock_free_search_tree.Treap.Model.{Represents, new-Represents}
use lock_free_search_tree.Treap.Insert.{Gives, insert-Represents}
use lock_free_search_tree.Treap.Find.{contains-member}
use lock_free_search_tree.Treap.Remove.{Removes, remove-Represents}
use lock_free_search_tree.Treap.RotateRight.{right_rotate_lem}
use lock_free_search_tree.Treap.RotateLeft.{left_rotate_lem}
use lock_free_search_tree.Treap.MoveUp.{Raised}
use lock_free_search_tree.Treap.MoveDown.{Sinks}
use lock_free_search_tree.Treap.MoveNode.{Renamed, move_node_lem}
use lock_free_search_tree.Treap.Sifting.{move_up_lem, move_down_lem}

abbrev values : List ℤ
values = insert_sorted (negsuc 2) (insert_sorted (pos 5) [])

-- The treap with 5 inserted, and then -3 with a smaller weight.
abbrev one : Gives (insert_sorted (pos 5) []) (insert (pos 5) (pos 9) new)
one = insert-Represents (pos 5) (pos 9) new [] new-Represents (omega arith)

abbrev two : Gives values (insert (negsuc 2) (pos 4) one.0)
unfolding insert_sorted
two = insert-Represents (negsuc 2) (pos 4) one.0 (insert_sorted (pos 5) []) one.2 (omega arith)

insert-Represents_example : Gives (insert_sorted (pos 5) values) (insert (pos 5) (pos 1) two.0)
unfolding insert_sorted
insert-Represents_example = insert-Represents (pos 5) (pos 1) two.0 values two.2 (omega arith)

remove-Represents_example : Removes (pos 5) values (remove (pos 5) two.0)
remove-Represents_example = remove-Represents (pos 5) two.0 values two.2

contains-member_example : contains (pos 5) two.0 ≡ ok true
unfolding insert_sorted member
contains-member_example = contains-member two.0 values (pos 5) two.2

-- Treaps of any size up to the limit, of equal values.
abbrev Filled : ℕ → Type 0
Filled n = (t : Treap) × (vs : List ℤ) × Represents t vs × (length vs ≡ n)

filled : (n : ℕ) → n ≤ treap_nodes → Filled n
filled zero h = (new, [], new-Represents, refl)
filled (suc n) h =
    let (t, vs, r, e) = filled n (omega arith) in
    let (u, run, s) = insert-Represents (pos 7) (pos n) t vs r (omega (arith, e)) in
    (u, insert_sorted (pos 7) vs, s, length-insert_sorted (pos 7) vs ∙ ap suc e)

abbrev full : Filled treap_nodes
full = filled treap_nodes (omega arith)

-- 5 at index 0 with -3 below it on the left at index 1, which is lighter.
abbrev left_child : Treap
left_child = record {
  size = 2;
  nodes =
      update
        (update (λ _. blank) 0
          (record { val = pos 5; weight = pos 9; parent = none; left = some 1; right = none }))
        1 (record { val = negsuc 2; weight = pos 4; parent = some 0; left = none; right = none });
  root = some 0;
}

-- -3 at index 0 with 5 below it on the right at index 1.
abbrev right_child : Treap
right_child = record {
  size = 2;
  nodes =
      update
        (update (λ _. blank) 0
          (record { val = negsuc 2; weight = pos 9; parent = none; left = none; right = some 1 }))
        1 (record { val = pos 5; weight = pos 4; parent = some 0; left = none; right = none });
  root = some 0;
}

left_child-Focus : Focus left_child top (node (node leaf 1 leaf) 0 leaf)
left_child-Focus = record {
  around = refl;
  shape = (omega arith, refl, refl, refl, (omega arith, refl, refl, refl, tt, tt), tt);
  distinct = λ a. ground arith;
}

lower-Focus : Focus left_child (in_left 0 leaf top) (node leaf 1 leaf)
lower-Focus = record {
  around = (omega arith, refl, refl, refl, tt, refl);
  shape = (omega arith, refl, refl, refl, tt, tt);
  distinct = λ a. ground arith;
}

right_child-Focus : Focus right_child top (node leaf 0 (node leaf 1 leaf))
right_child-Focus = record {
  around = refl;
  shape = (omega arith, refl, refl, refl, tt, (omega arith, refl, refl, refl, tt, tt));
  distinct = λ a. ground arith;
}

right_rotate_lem_example :
    Rotated left_child top (node leaf 1 (node leaf 0 leaf)) (right_rotate (some 0) left_child)
right_rotate_lem_example = right_rotate_lem left_child top leaf 1 leaf 0 leaf left_child-Focus

left_rotate_lem_example :
    Rotated right_child top (node (node leaf 0 leaf) 1 leaf) (left_rotate (some 0) right_child)
left_rotate_lem_example = left_rotate_lem right_child top leaf 0 leaf 1 leaf right_child-Focus

move_up_lem_example :
    Raised left_child (in_left 0 leaf top) (node leaf 1 leaf) 1 (move_up (some 1) left_child)
move_up_lem_example = move_up_lem left_child (in_left 0 leaf top) leaf 1 leaf lower-Focus

move_down_lem_example :
    Sinks left_child top (node (node leaf 1 leaf) 0 leaf) 0 (move_down (some 0) left_child)
move_down_lem_example = move_down_lem left_child top (node leaf 1 leaf) 0 leaf left_child-Focus

move_node_lem_example :
    (u : Treap) × (move_node (some 1) (some 5) left_child ≡ ok u)
    × Renamed left_child (in_left 0 leaf top) leaf 1 leaf 5 u
move_node_lem_example =
    move_node_lem left_child (in_left 0 leaf top) leaf 1 leaf 5 lower-Focus (omega arith)
      (λ e. omega arith) refl
