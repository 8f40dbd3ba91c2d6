-- ===== src/Lfca/Trials.antt =====
-- The theorem on `lookup` of lfca.cpp at a memory with one route node.
use lock_free_search_tree.Base.{inl, ℕ, ◌≡◌, refl, none, some, update, [], ◌∷◌, true, arith, pos}
use lock_free_search_tree.Base.Sorted.{insert_sorted, member, remove_first}
use lock_free_search_tree.Treap.State.{new}
use lock_free_search_tree.Treap.Ops.{insert}
use lock_free_search_tree.Treap.Model.{new-Represents, size-Represents}
use lock_free_search_tree.Treap.Insert.{Gives, insert-Represents}
use lock_free_search_tree.Lfca.Memory.{NodeType, Node, blank, blank_storage, Memory, returns, run}
use lock_free_search_tree.Lfca.Update.{construct, lookup, do_update, treap_insert, remove}
use lock_free_search_tree.Lfca.Layout.{base, route, Lays}
use lock_free_search_tree.Lfca.Calm.{Ready, Updates}
use lock_free_search_tree.Lfca.Construct.{Constructs, construct-Ready}
use lock_free_search_tree.Lfca.Refines.{insert-alone, remove-alone}
use lock_free_search_tree.Lfca.Lookup.{lookup-alone}

abbrev five : Gives (insert_sorted (pos 5) []) (insert (pos 5) (pos 9) new)
five = insert-Represents (pos 5) (pos 9) new [] new-Represents (omega arith)

abbrev eight : Gives (insert_sorted (pos 8) []) (insert (pos 8) (pos 2) new)
eight = insert-Represents (pos 8) (pos 2) new [] new-Represents (omega arith)

abbrev nodes : ℕ → Node
nodes =
    update
      (update
        (update (λ _. blank) 0
          (record blank { type = NodeType.route; key = pos 5; left = some 1; right = some 2 }))
        1 (record blank { treap = some five.0; parent = some 0 }))
      2 (record blank { treap = some eight.0; parent = some 0 })

abbrev memory : Memory
memory = record {
  root = some 0;
  nodes = nodes;
  node_count = 3;
  node_limit = 100;
  storages = λ _. blank_storage;
  storage_count = 0;
  storage_limit = 10;
  treap_count = 2;
  treap_limit = 100;
  draws = 0;
}

memory-Lays : Lays memory (some 0) (route 0 (base 1) (base 2)) (pos 5 ∷ pos 8 ∷ [])
unfolding insert_sorted
memory-Lays = (
  refl,
  refl,
  (
    pos 5 ∷ [],
    pos 8 ∷ [],
    refl,
    (refl, refl, (five.0, refl, five.2)),
    (refl, refl, (eight.0, refl, eight.2)),
    (omega arith, tt),
    (omega arith, tt),
  ),
)

lookup-alone_example : run (lookup 9 (λ d i. pos i) (pos 8)) memory ≡ returns true memory
unfolding member
lookup-alone_example =
    lookup-alone 9 (λ d i. pos i) memory (pos 8) (route 0 (base 1) (base 2)) (pos 5 ∷ pos 8 ∷ [])
      memory-Lays (omega arith)

memory-Ready : Ready memory (route 0 (base 1) (base 2)) (pos 5 ∷ pos 8 ∷ [])
unfolding insert_sorted
memory-Ready = record {
  tree = record {
    lays = memory-Lays;
    parents = (refl, refl);
    distinct = λ a. ground arith;
    used = λ a h. ground arith;
  };
  calm = (
    refl,
    (
      inl refl,
      omega arith,
      omega arith,
      (five.0, refl, omega (arith, size-Represents five.0 (insert_sorted (pos 5) []) five.2)),
    ),
    (
      inl refl,
      omega arith,
      omega arith,
      (eight.0, refl, omega (arith, size-Represents eight.0 (insert_sorted (pos 8) []) eight.2)),
    ),
  );
  node_room = omega arith;
  treap_room = omega arith;
}

insert-alone_example :
    Updates true
      (insert_sorted (pos 6) (pos 5 ∷ pos 8 ∷ []))
      (run (do_update 9 (λ d i. pos i) treap_insert (pos 6)) memory)
insert-alone_example =
    insert-alone 9 (λ d i. pos i) memory (pos 6) (route 0 (base 1) (base 2)) (pos 5 ∷ pos 8 ∷ [])
      memory-Ready (omega arith)

remove-alone_example :
    Updates
      (member (pos 5) (pos 5 ∷ pos 8 ∷ []))
      (remove_first (pos 5) (pos 5 ∷ pos 8 ∷ []))
      (run (remove 9 (λ d i. pos i) (pos 5)) memory)
remove-alone_example =
    remove-alone 9 (λ d i. pos i) memory (pos 5) (route 0 (base 1) (base 2)) (pos 5 ∷ pos 8 ∷ [])
      memory-Ready (omega arith)

abbrev no_node : Memory
no_node = record memory { root = none; nodes = λ _. blank; node_count = 0; treap_count = 0 }

construct-Ready_example : Constructs no_node (run construct no_node)
construct-Ready_example = construct-Ready no_node (omega arith) (omega arith)
