-- ===== src/Mrlock/Growth.antt =====
-- `insert` of mrlocktree.cpp against the values of the tree.
use lock_free_search_tree.Base.{
  ℕ, ◌<◌, ◌≡◌, inl, inr, List, Bool-cases, leb_ℤ, ◌<ℤ◌, ℤ, int_min, Outcome, ok, throw,
  out_of_range,
}
use lock_free_search_tree.Base.Sorted.{insert_sorted}
use lock_free_search_tree.Treap.State.{treap_nodes}
use lock_free_search_tree.Treap.Balance.{IsStrict}
use lock_free_search_tree.Mrlock.{Node, base, route, split_if_full}
use lock_free_search_tree.Mrlock as mrlock
use lock_free_search_tree.Mrlock.Laws.{Holds}
use lock_free_search_tree.Mrlock.Insert.{Heavy, Spacious, target, insert-Fills, insert_throws}

-- Where `insert` leads.
abbrev pub Grows : List ℤ → Outcome Node → Type 0
Grows ws run = (m : Node) × (run ≡ ok m) × Holds m ws × Heavy m

-- The same, with room in every treap.
abbrev pub GrowsSpacious : List ℤ → Outcome Node → Type 0
GrowsSpacious ws run = (m : Node) × (run ≡ ok m) × Holds m ws × Heavy m × Spacious m

module _ (dl dr : ℕ → ℤ) (drawn_left : (a : ℕ) → int_min <ℤ dl a)
    (drawn_right : (a : ℕ) → int_min <ℤ dr a) (val weight : ℤ) (heavier : int_min <ℤ weight)
    (n : Node) (vs : List ℤ) (holds : Holds n vs) where
  -- In a tree that holds the values `vs`, with all weights above that of the control node, and in which
  -- the treap at which the search for the new value ends is not full, `insert` returns, and the tree
  -- then holds these values with the new one inserted in order.
  pub insert-Holds :
      Heavy n
      → (target val n).size < treap_nodes
      → Grows (insert_sorted val vs) (mrlock.insert dl dr val weight n)
  insert-Holds heavy room =
      let (m, run, held, heavy', _) =
        insert-Fills dl dr drawn_left drawn_right val weight heavier n vs holds heavy room in
      (m, run, held, heavy')

  -- In a tree that holds the values `vs`, and in which the treap at which the search for the new value
  -- ends is full, `insert` throws `out_of_range`.
  pub insert_overflows :
      (target val n).size ≡ treap_nodes → mrlock.insert dl dr val weight n ≡ throw out_of_range
  insert_overflows full =
      insert_throws dl dr drawn_left drawn_right val weight heavier n vs holds full

  target_room : (n : Node) → Spacious n → (target val n).size < treap_nodes
  target_room (base t) s = s
  target_room (route v l r) (sl, sr) = elim (Bool-cases (leb_ℤ val v)) [
    | inl b ↦ rw b (target_room l sl)
    | inr b ↦ rw b (target_room r sr)
  ]

  -- In a tree that holds the values `vs`, with all weights above that of the control node, and in which
  -- no treap is full, `insert` of a value with which no two are equal returns, and the tree then holds
  -- the values with the new one inserted in order, and again no treap is full.
  pub insert-Spacious :
      Heavy n
      → Spacious n
      → IsStrict (insert_sorted val vs)
      → GrowsSpacious (insert_sorted val vs) (mrlock.insert dl dr val weight n)
  insert-Spacious heavy room strict =
      let (m, run, held, heavy', spacious) =
        insert-Fills dl dr drawn_left drawn_right val weight heavier n vs holds heavy
          (target_room n room) in
      (m, run, held, heavy', spacious strict room)
