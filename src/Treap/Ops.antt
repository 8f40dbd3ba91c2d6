-- ===== src/Treap/Ops.antt =====
-- The set operations of treap.cpp. A method that changes the treap returns the new one, and an
-- immutable method changes the copy that it makes.
use lock_free_search_tree.Base.{
  ℕ, zero, suc, ◌-◌, ◌==◌, Bool, true, false, ◌&&◌, not, none, some, List, [], ◌∷◌, if◌then◌else◌,
  leb_ℤ, ℤ, Outcome, ok, throw, out_of_fuel, out_of_range, logic_error, ◌>>=◌, ◌++◌,
}
use lock_free_search_tree.Treap.State.{
  treap_nodes, TreapIndex, is_null, Treap, new, node_at, replace_child, assign, move_node,
  create_new_node,
}
use lock_free_search_tree.Treap.Moves.{rounds, move_up, move_down, bst_insert, bst_find}

-- `insert`.
unfoldable pub insert : ℤ → ℤ → Treap → Outcome Treap
insert val weight t = if t.size == treap_nodes then throw out_of_range else do
  (index, t) ← create_new_node val weight t
  if t.size == 1 then ok (record t { root = index }) else do t ← bst_insert index t; move_up index t

-- The part of `remove` that moves the found node down and cuts it off from the tree.
unfoldable pub cut_off : ℕ → Treap → Outcome Treap
cut_off i t = do
  t ← move_down (some i) t
  n ← node_at (some i) t
  replace_child n.parent (some i) none t

-- What `remove` does with the node that it has found.
unfoldable pub remove_at : ℕ → Treap → Outcome Treap
remove_at i t = do
  t ← cut_off i t
  t ← move_node (some (t.size - 1)) (some i) t
  ok (record t { size = t.size - 1 })

-- `remove`.
unfoldable pub remove : ℤ → Treap → Outcome (Bool × Treap)
remove val t = do
  found ← bst_find val t
  elim found [ none ↦ ok (false, t) | some i ↦ do t ← remove_at i t; ok (true, t) ]

-- `immutableInsert`: the treap that it returns.
unfoldable pub immutable_insert : ℤ → ℤ → Treap → Outcome Treap
immutable_insert val weight t = insert val weight (assign new t)

-- `immutableRemove`: `*success`, and the treap that it returns.
unfoldable pub immutable_remove : ℤ → Treap → Outcome (Bool × Treap)
immutable_remove val t = remove val (assign new t)

-- `contains`.
unfoldable pub contains : ℤ → Treap → Outcome Bool
contains val t = do found ← bst_find val t; ok (not (is_null found))

-- `push_back` of an index that passes the test and is not null, on a stack whose top is first.
abbrev pub push_if : Bool → TreapIndex → List ℕ → List ℕ
push_if true (some i) stack = i ∷ stack
push_if true none stack = stack
push_if false i stack = stack

unfoldable pub range_loop : ℕ → ℤ → ℤ → List ℕ → List ℤ → Treap → Outcome (List ℤ)
range_loop zero low high stack values t = out_of_fuel
range_loop (suc f) low high [] values t = ok values
range_loop (suc f) low high (i ∷ stack) values t = do
  n ← node_at (some i) t
  let values = if leb_ℤ low n.val && leb_ℤ n.val high then values ++ n.val ∷ [] else values
  let stack = push_if (leb_ℤ low n.val) n.left stack
  let stack = push_if (leb_ℤ n.val high) n.right stack
  range_loop f low high stack values t

-- `rangeQuery`.
unfoldable pub range_query : ℤ → ℤ → Treap → Outcome (List ℤ)
range_query low high t = elim t.root [
  | none ↦ ok []
  | some i ↦ range_loop rounds low high (i ∷ []) [] t
]

-- `getSize`.
unfoldable pub get_size : Treap → ℕ
get_size t = t.size

unfoldable pub rightmost_loop : ℕ → TreapIndex → Treap → Outcome ℤ
rightmost_loop zero i t = out_of_fuel
rightmost_loop (suc f) i t = do
  n ← node_at i t
  elim n.right [ none ↦ ok n.val | some j ↦ rightmost_loop f (some j) t ]

-- `getMaxValue`.
unfoldable pub get_max_value : Treap → Outcome ℤ
get_max_value t = if t.size == 0 then throw logic_error else rightmost_loop rounds t.root t

-- `sequentialInsert`.
unfoldable pub sequential_insert : ℤ → ℤ → Treap → Outcome Treap
sequential_insert = insert

-- `sequentialRemove`.
unfoldable pub sequential_remove : ℤ → Treap → Outcome (Bool × Treap)
sequential_remove = remove

-- `getRoot`: the value of the root, a fault if the treap is empty.
unfoldable pub get_root : Treap → Outcome ℤ
get_root t = do n ← node_at t.root t; ok n.val
