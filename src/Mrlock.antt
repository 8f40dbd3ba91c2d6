-- ===== src/Mrlock.antt =====
-- mrlocktree.h and mrlocktree.cpp: the search tree under one lock. Every operation holds the lock from
-- its first statement to its end, so that operations are functions of the tree. The nodes are owned by
-- their parents, and the pools of treaps are taken to be large enough.
mod Laws
mod Insert
mod Growth
mod Remove
mod Range
mod Refines
mod Destroy
mod Examples
use lock_free_search_tree.Base.{
  ℕ, zero, suc, ◌+◌, ◌/◌, Bool, true, false, ◌&&◌, not, List, [], ◌∷◌, ◌++◌, if◌then◌else◌, leb,
  leb_ℤ, ℤ, Outcome, ok, out_of_fuel, ◌>>=◌,
}
use lock_free_search_tree.Treap.State.{treap_nodes, Treap, new}
use lock_free_search_tree.Treap.Ops.{
  get_size, contains, range_query, immutable_insert, immutable_remove,
}
use lock_free_search_tree.Treap.Bulk.{merge, split}

-- `Node`: one with `isRoute` has its `val` and its children, any other has its treap.
pub data Node : Type 0 where
  base : Treap → Node
  route : ℤ → Node → Node → Node

-- `TreapSplitThreshold` and `TreapMergeThreshold`.
abbrev pub treap_split_threshold : ℕ
treap_split_threshold = treap_nodes

abbrev pub treap_merge_threshold : ℕ
treap_merge_threshold = treap_nodes / 2

-- The constructor.
abbrev pub initial : Node
initial = base new

-- The end of `insert`: a treap that has become too large is split.
unfoldable pub split_if_full : (draws_left draws_right : ℕ → ℤ) → Treap → Outcome Node
split_if_full draws_left draws_right t =
    if leb treap_split_threshold (get_size t)
    then split draws_left draws_right t >>= (λ (v, l, r). ok (route v (base l) (base r)))
    else ok (base t)

-- `insert`, with the weight of the new node and the weights of a split.
unfoldable pub insert : (draws_left draws_right : ℕ → ℤ) → (val weight : ℤ) → Node → Outcome Node
insert dl dr val weight (base t) = do t ← immutable_insert val weight t; split_if_full dl dr t
insert dl dr val weight (route v l r) = elim (leb_ℤ val v) [
  | true ↦ do l ← insert dl dr val weight l; ok (route v l r)
  | false ↦ do r ← insert dl dr val weight r; ok (route v l r)
]

abbrev pub is_base : Node → Bool
is_base (base _) = true
is_base (route _ _ _) = false

-- The end of `remove`: the children of `tempParent` are merged if both are small base nodes.
unfoldable pub merge_if_small : (draws : ℕ → ℤ) → ℤ → (l r : Node) → Outcome Node
merge_if_small draws v (base s) (base t) =
    if leb (get_size s + get_size t) treap_merge_threshold
    then merge draws s t >>= (λ u. ok (base u))
    else ok (route v (base s) (base t))
merge_if_small draws v (route x a b) r = ok (route v (route x a b) r)
merge_if_small draws v (base s) (route x a b) = ok (route v (base s) (route x a b))

-- The node `temp` has a `tempParent` from which a merge is tried, all others stay.
abbrev pub merge_at_parent : Bool → (draws : ℕ → ℤ) → ℤ → (l r : Node) → Outcome Node
merge_at_parent true draws v l r = merge_if_small draws v l r
merge_at_parent false draws v l r = ok (route v l r)

-- `remove`: `success`, and the tree.
unfoldable pub remove : (draws : ℕ → ℤ) → ℤ → Node → Outcome (Bool × Node)
remove draws val (base t) = do (success, t) ← immutable_remove val t; ok (success, base t)
remove draws val (route v l r) = elim (leb_ℤ val v) [
  | true ↦ do
    (success, m) ← remove draws val l
    n ← merge_at_parent (is_base l) draws v m r
    ok (success, n)
  | false ↦ do
    (success, m) ← remove draws val r
    n ← merge_at_parent (is_base r) draws v l m
    ok (success, n)
]

-- `lookup`.
unfoldable pub lookup : ℤ → Node → Outcome Bool
lookup val (base t) = contains val t
lookup val (route v l r) = elim (leb_ℤ val v) [ true ↦ lookup val l | false ↦ lookup val r ]

-- `push_back` of a child whose side of the route value is in the range.
abbrev pub push_if : Bool → Node → List Node → List Node
push_if true n stack = n ∷ stack
push_if false n stack = stack

unfoldable pub range_loop : ℕ → (low high : ℤ) → List Node → List ℤ → Outcome (List ℤ)
range_loop zero low high nodes result = out_of_fuel
range_loop (suc f) low high [] result = ok result
range_loop (suc f) low high (base t ∷ nodes) result = do
  values ← range_query low high t
  range_loop f low high nodes (result ++ values)
range_loop (suc f) low high (route v l r ∷ nodes) result =
    range_loop f low high (push_if (leb_ℤ v high) r (push_if (leb_ℤ low v) l nodes)) result

-- The number of nodes.
unfoldable pub node_count : Node → ℕ
node_count (base _) = 1
node_count (route _ l r) = suc (node_count l + node_count r)

-- `rangeQuery`: each turn of the loop takes one node off the vector, and none is put back.
unfoldable pub tree_range_query : (low high : ℤ) → Node → Outcome (List ℤ)
tree_range_query low high head = range_loop (suc (node_count head)) low high (head ∷ []) []

-- The children that are put on the stack of the destructor, the right one on top.
abbrev pub push_children : Node → List Node → List Node
push_children (base _) stack = stack
push_children (route _ l r) stack = r ∷ l ∷ stack

-- The loop of the destructor, with the nodes that it has deleted.
unfoldable pub destroy_loop : ℕ → List Node → List Node → Outcome (List Node)
destroy_loop zero stack deleted = out_of_fuel
destroy_loop (suc f) [] deleted = ok deleted
destroy_loop (suc f) (n ∷ stack) deleted =
    destroy_loop f (push_children n stack) (deleted ++ n ∷ [])

-- The destructor: one turn of the loop for each node.
unfoldable pub destroy : Node → Outcome (List Node)
destroy head = destroy_loop (suc (node_count head)) (head ∷ []) []
