-- ===== src/Treap/Bulk.antt =====
-- `transferNodesFrom`, `getMedianVal`, `merge` and `split` of treap.cpp.
use lock_free_search_tree.Base.{
  ℕ, zero, suc, ◌+◌, ◌-◌, ◌/◌, ◌%◌, ◌==◌, ltb, Bool, true, false, none, some, List, [], ◌∷◌,
  if◌then◌else◌, leb_ℤ, half, ◌+ℤ◌, get_elem?, ℤ, int_min, Outcome, ok, throw, out_of_fuel,
  out_of_range, logic_error, invalid_argument, ◌>>=◌,
}
use lock_free_search_tree.Treap.State.{
  treap_nodes, control_node, TreapIndex, is_null, same_index, Treap, TreapNode, new, node_at, write,
  set_parent, set_left, set_right, create_new_node,
}
use lock_free_search_tree.Treap.Moves.{rounds, move_up, move_down, bst_insert}

-- `TreapTransferInfo`.
pub record TransferInfo : Type 0 where
  pub is_left_child : Bool
  pub new_parent_index : TreapIndex
  pub original_index : ℕ

-- Hangs a new node below its new parent; the first node has none.
unfoldable pub attach : TransferInfo → TreapIndex → Treap → Outcome Treap
attach info index t = elim info.new_parent_index [
  | none ↦ ok t
  | some p ↦ do
    t ← set_parent index (some p) t
    if info.is_left_child then set_left (some p) index t else set_right (some p) index t
]

-- `push_back` of a child that is to be transferred.
abbrev pub push_child : Bool → TreapIndex → TreapIndex → List TransferInfo → List TransferInfo
push_child is_left index none stack = stack
push_child is_left index (some i) stack =
    record { is_left_child = is_left; new_parent_index = index; original_index = i } ∷ stack

-- `draws i` is the weight that the random engine draws for the new node `i`.
unfoldable pub transfer_loop :
    (draws : ℕ → ℤ) (other : Treap)
    → ℕ
    → List TransferInfo
    → TreapIndex
    → Treap
    → Outcome (TreapIndex × Treap)
transfer_loop draws other zero stack transfer_root t = out_of_fuel
transfer_loop draws other (suc f) [] transfer_root t = ok (transfer_root, t)
transfer_loop draws other (suc f) (info ∷ stack) transfer_root t = do
  n ← node_at (some info.original_index) other
  (index, t) ← create_new_node n.val (draws t.size) t
  t ← attach info index t
  let transfer_root = if is_null info.new_parent_index then index else transfer_root
  let stack = push_child true index n.left stack
  let stack = push_child false index n.right stack
  transfer_loop draws other f stack transfer_root t

-- `transferNodesFrom`: the new index of the transferred root, and the treap.
unfoldable pub transfer_nodes_from :
    (draws : ℕ → ℤ) → Treap → TreapIndex → Treap → Outcome (TreapIndex × Treap)
transfer_nodes_from draws other none t = throw invalid_argument
transfer_nodes_from draws other (some i) t =
    let info : TransferInfo = record {
      is_left_child = false;
      new_parent_index = none;
      original_index = i;
    } in
    transfer_loop draws other rounds (info ∷ []) none t

-- The values of the first `n` nodes of the array, in its order.
unfoldable pub collect : (n : ℕ) → ℕ → Treap → List ℤ
collect zero i t = []
collect (suc n) i t = (t.nodes i).val ∷ collect n (suc i) t

-- `std::sort`, as the list that it leaves.
unfoldable pub insert_ordered : ℤ → List ℤ → List ℤ
insert_ordered v [] = v ∷ []
insert_ordered v (x ∷ xs) = if leb_ℤ v x then v ∷ x ∷ xs else x ∷ insert_ordered v xs

unfoldable pub sort : List ℤ → List ℤ
sort [] = []
sort (x ∷ xs) = insert_ordered x (sort xs)

-- `values.at(i)`.
abbrev pub element : List ℤ → ℕ → Outcome ℤ
element values i = elim (get_elem? values i) [ none ↦ throw out_of_range | some v ↦ ok v ]

-- `(int)(a / 2.0) + (b / 2.0)`, as it is converted to `int`: the cast binds the first term alone.
-- Doubles hold the halves of 32-bit integers and their sums exactly.
unfoldable pub average : ℤ → ℤ → ℤ
average a b = half ((half a +ℤ half a) +ℤ b)

-- `getMedianVal`.
unfoldable pub get_median_val : Treap → Outcome ℤ
get_median_val t =
    if t.size == 0
    then throw logic_error
    else let values = sort (collect t.size 0 t) in
      if t.size % 2 == 0
      then (do
        a ← element values (t.size / 2 - 1)
        b ← element values (t.size / 2)
        ok (average a b))
      else element values (t.size / 2)

-- A treap with one side empty is copied, and its root set.
unfoldable pub transfer_whole : (draws : ℕ → ℤ) → Treap → Treap → Outcome Treap
transfer_whole draws other t = do
  (new_root, t) ← transfer_nodes_from draws other other.root t
  set_parent new_root none (record t { root = new_root })

-- The node that joins or splits treaps: it is lighter than every other.
abbrev pub control : ℤ → TreapIndex → TreapIndex → TreapNode
control v l r = record { val = v; weight = int_min; parent = none; left = l; right = r }

-- The control node above the two copies, as the root.
unfoldable pub join_roots : (left_root right_root : TreapIndex) → Treap → Outcome Treap
join_roots left_root right_root t = do
  l ← node_at left_root t
  r ← node_at right_root t
  t ← write (some control_node) (control (half (l.val +ℤ r.val)) left_root right_root) t
  t ← set_parent left_root (some control_node) t
  t ← set_parent right_root (some control_node) t
  ok (record t { root = some control_node })

-- The control node, a leaf, is cut off from its parent.
unfoldable pub cut_control : Treap → Outcome Treap
cut_control t = do
  n ← node_at (some control_node) t
  p ← node_at n.parent t
  if same_index p.left (some control_node)
      then set_left n.parent none t
      else set_right n.parent none t

-- The part of `merge` for two treaps that are not empty.
unfoldable pub merge_both : (draws : ℕ → ℤ) → Treap → Treap → Treap → Outcome Treap
merge_both draws left right t = do
  (left_root, t) ← transfer_nodes_from draws left left.root t
  (right_root, t) ← transfer_nodes_from draws right right.root t
  t ← join_roots left_root right_root t
  t ← move_down (some control_node) t
  cut_control t

-- `Treap::merge`.
unfoldable pub merge : (draws : ℕ → ℤ) → Treap → Treap → Outcome Treap
merge draws left right =
    if ltb treap_nodes (left.size + right.size)
    then throw invalid_argument
    else if left.size + right.size == 0
    then ok new
    else if is_null right.root
    then transfer_whole draws left new
    else if is_null left.root
    then transfer_whole draws right new
    else merge_both draws left right new

-- One half of a split: the nodes below a child of the control node.
unfoldable pub take_half : (draws : ℕ → ℤ) → Treap → TreapIndex → Outcome Treap
take_half draws working none = ok new
take_half draws working (some i) = do
  (root, t) ← transfer_nodes_from draws working (some i) new
  ok (record t { root = root })

-- `split`: the value, `*left` and `*right`. The two halves draw their weights one after the other.
unfoldable pub split : (draws_left draws_right : ℕ → ℤ) → Treap → Outcome (ℤ × Treap × Treap)
split draws_left draws_right t = if t.size == 0 then throw logic_error else do
  split_val ← get_median_val t
  working ← write (some control_node) (control split_val none none) t
  working ← bst_insert (some control_node) working
  working ← move_up (some control_node) working
  n ← node_at (some control_node) working
  left ← take_half draws_left working n.left
  right ← take_half draws_right working n.right
  ok (split_val, left, right)
