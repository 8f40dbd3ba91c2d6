-- ===== src/Treap/State.antt =====
-- The fields of class Treap (treap.h) and the functions of treap.cpp that handle single nodes.
-- The C++ index -1 (`NullNode`) is `none`; an access at it, or beyond the array, is a fault.
use lock_free_search_tree.Base.{
  ℕ, ◌+◌, Bool, true, false, Option, none, some, ◌==◌, leb, if◌then◌else◌, update, ℤ, pos, Outcome,
  ok, fault, ◌>>=◌,
}

-- `TREAP_NODES`: the most values that a treap holds.
abbrev pub treap_nodes : ℕ
treap_nodes = 64

-- `ControlNode`: the index of the extra node of the array.
abbrev pub control_node : ℕ
control_node = treap_nodes

abbrev pub TreapIndex : Type 0
TreapIndex = Option ℕ

abbrev pub is_null : TreapIndex → Bool
is_null none = true
is_null (some _) = false

-- `i == j` on indices.
abbrev pub same_index : TreapIndex → TreapIndex → Bool
same_index none none = true
same_index none (some j) = false
same_index (some i) none = false
same_index (some i) (some j) = i == j

pub record TreapNode : Type 0 where
  pub val : ℤ
  pub weight : ℤ
  pub parent : TreapIndex
  pub left : TreapIndex
  pub right : TreapIndex

-- The array of nodes is a function; `node_at` and `write` check its bounds.
pub record Treap : Type 0 where
  pub size : ℕ
  pub nodes : ℕ → TreapNode
  pub root : TreapIndex

-- An element of the array before anything was written to it. The C++ leaves its value and its
-- weight indeterminate; they are not read before `createNewNode` sets them.
abbrev pub blank : TreapNode
blank = record { val = pos 0; weight = pos 0; parent = none; left = none; right = none }

-- A treap that `Treap::New()` has just handed out.
abbrev pub new : Treap
new = record { size = 0; nodes = λ _. blank; root = none }

-- `nodes[i]` as a value.
unfoldable pub node_at : TreapIndex → Treap → Outcome TreapNode
node_at none t = fault
node_at (some i) t = if leb i control_node then ok (t.nodes i) else fault

-- `nodes[i] = n`.
unfoldable pub write : TreapIndex → TreapNode → Treap → Outcome Treap
write none n t = fault
write (some i) n t =
    if leb i control_node then ok (record t { nodes = update t.nodes i n }) else fault

-- `nodes[i].parent = p`.
unfoldable pub set_parent : TreapIndex → TreapIndex → Treap → Outcome Treap
set_parent i p t = do n ← node_at i t; write i (record n { parent = p }) t

-- `nodes[i].left = l`.
unfoldable pub set_left : TreapIndex → TreapIndex → Treap → Outcome Treap
set_left i l t = do n ← node_at i t; write i (record n { left = l }) t

-- `nodes[i].right = r`.
unfoldable pub set_right : TreapIndex → TreapIndex → Treap → Outcome Treap
set_right i r t = do n ← node_at i t; write i (record n { right = r }) t

-- The test for null before a child's parent is set.
unfoldable pub set_parent_unless_null : TreapIndex → TreapIndex → Treap → Outcome Treap
set_parent_unless_null none p t = ok t
set_parent_unless_null (some i) p t = set_parent (some i) p t

-- Puts `j` where `i` hangs below `p`: the root if `p` is null, and else the left child of `p` if
-- that is `i`, the right child if not.
unfoldable pub replace_child : TreapIndex → TreapIndex → TreapIndex → Treap → Outcome Treap
replace_child none i j t = ok (record t { root = j })
replace_child (some p) i j t = do
  n ← node_at (some p) t
  if same_index n.left i then set_left (some p) j t else set_right (some p) j t

-- `Treap::operator=`: every node, the size and the root.
unfoldable pub assign : Treap → Treap → Treap
assign self other = record { size = other.size; nodes = other.nodes; root = other.root }

-- `moveNode`.
unfoldable pub move_node : TreapIndex → TreapIndex → Treap → Outcome Treap
move_node src dst t = if same_index src dst then ok t else do
  n ← node_at src t
  t ← write dst n t
  t ← set_parent_unless_null n.left dst t
  t ← set_parent_unless_null n.right dst t
  replace_child n.parent src dst t

-- `createNewNode`; `weight` is what the random engine draws.
unfoldable pub create_new_node : ℤ → ℤ → Treap → Outcome (TreapIndex × Treap)
create_new_node val weight t = do
  let i = some t.size
  t ←
      write i (record { val = val; weight = weight; parent = none; left = none; right = none })
        (record t { size = t.size + 1 })
  ok (i, t)
