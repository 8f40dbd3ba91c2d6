-- ===== src/Treap/Moves.antt =====
-- The rotations of treap.cpp, `moveUp`, `moveDown`, `bstInsert` and `bstFind`.
use lock_free_search_tree.Base.{
  ℕ, zero, suc, Bool, true, false, ◌&&◌, none, some, if◌then◌else◌, ltb_ℤ, leb_ℤ, eqb_ℤ, ℤ, Outcome,
  ok, out_of_fuel, ◌>>=◌,
}
use lock_free_search_tree.Treap.State.{
  TreapIndex, is_null, same_index, Treap, node_at, set_parent, set_left, set_right,
  set_parent_unless_null, replace_child,
}

-- One round for each of the 65 nodes of the array, and one to stop.
abbrev pub rounds : ℕ
rounds = 66

-- `rightRotate`.
unfoldable pub right_rotate : TreapIndex → Treap → Outcome Treap
right_rotate index t = do
  n ← node_at index t
  let parent_index = n.parent
  let left_index = n.left
  l ← node_at left_index t
  let left_right_index = l.right
  t ← set_parent index left_index t
  t ← set_right left_index index t
  t ← set_parent left_index parent_index t
  t ← replace_child parent_index index left_index t
  t ← set_left index left_right_index t
  set_parent_unless_null left_right_index index t

-- `leftRotate`.
unfoldable pub left_rotate : TreapIndex → Treap → Outcome Treap
left_rotate index t = do
  n ← node_at index t
  let parent_index = n.parent
  let right_index = n.right
  r ← node_at right_index t
  let right_left_index = r.left
  t ← set_parent index right_index t
  t ← set_left right_index index t
  t ← set_parent right_index parent_index t
  t ← replace_child parent_index index right_index t
  t ← set_right index right_left_index t
  set_parent_unless_null right_left_index index t

-- The rotation of a round of `moveUp`, at the parent.
unfoldable pub rotate_up : TreapIndex → TreapIndex → Treap → Outcome Treap
rotate_up index parent_index t = do
  p ← node_at parent_index t
  if same_index index p.left then right_rotate parent_index t else left_rotate parent_index t

-- Whether `moveUp` stops: at the root, or at a parent whose weight is not larger.
unfoldable pub stays : TreapIndex → TreapIndex → Treap → Outcome Bool
stays index none t = ok true
stays index (some p) t = do
  n ← node_at index t
  m ← node_at (some p) t
  ok (leb_ℤ m.weight n.weight)

unfoldable pub move_up_loop : ℕ → TreapIndex → Treap → Outcome Treap
move_up_loop zero index t = out_of_fuel
move_up_loop (suc f) index t = do
  n ← node_at index t
  stop ← stays index n.parent t
  elim stop [ true ↦ ok t | false ↦ rotate_up index n.parent t >>= move_up_loop f index ]

-- `moveUp`.
unfoldable pub move_up : TreapIndex → Treap → Outcome Treap
move_up = move_up_loop rounds

-- The rotation of a round of `moveDown`, at a node that has a child.
unfoldable pub rotate_down : TreapIndex → TreapIndex → TreapIndex → Treap → Outcome Treap
rotate_down index (some l) (some r) t = do
  n ← node_at (some l) t
  m ← node_at (some r) t
  if ltb_ℤ n.weight m.weight then right_rotate index t else left_rotate index t
rotate_down index (some l) none t = right_rotate index t
rotate_down index none right_index t = left_rotate index t

unfoldable pub move_down_loop : ℕ → TreapIndex → Treap → Outcome Treap
move_down_loop zero index t = out_of_fuel
move_down_loop (suc f) index t = do
  n ← node_at index t
  elim (is_null n.left && is_null n.right) [
    | true ↦ ok t
    | false ↦ rotate_down index n.left n.right t >>= move_down_loop f index
  ]

-- `moveDown`.
unfoldable pub move_down : TreapIndex → Treap → Outcome Treap
move_down = move_down_loop rounds

unfoldable pub bst_insert_loop : ℕ → TreapIndex → TreapIndex → Treap → Outcome Treap
bst_insert_loop zero search index t = out_of_fuel
bst_insert_loop (suc f) search index t = do
  s ← node_at search t
  n ← node_at index t
  elim (ltb_ℤ n.val s.val) [
    | true ↦ elim s.left [
      | none ↦ set_left search index t >>= set_parent index search
      | some j ↦ bst_insert_loop f (some j) index t
    ]
    | false ↦ elim s.right [
      | none ↦ set_right search index t >>= set_parent index search
      | some j ↦ bst_insert_loop f (some j) index t
    ]
  ]

-- `bstInsert`.
unfoldable pub bst_insert : TreapIndex → Treap → Outcome Treap
bst_insert index t = bst_insert_loop rounds t.root index t

unfoldable pub bst_find_loop : ℕ → ℤ → TreapIndex → Treap → Outcome TreapIndex
bst_find_loop zero val search t = out_of_fuel
bst_find_loop (suc f) val none t = ok none
bst_find_loop (suc f) val (some i) t = do
  n ← node_at (some i) t
  elim (eqb_ℤ n.val val) [
    | true ↦ ok (some i)
    | false ↦ bst_find_loop f val (if ltb_ℤ val n.val then n.left else n.right) t
  ]

-- `bstFind`.
unfoldable pub bst_find : ℤ → Treap → Outcome TreapIndex
bst_find val t = bst_find_loop rounds val t.root t
