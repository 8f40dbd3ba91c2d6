-- ===== src/Treap/HeapOrder.antt =====
-- `insert` and `remove` of treap.cpp, and the order of the weights: no node is lighter than its parent.
use lock_free_search_tree.Base.{
  ℕ, ◌<◌, ◌≡◌, ◌≢◌, sym, ap, List, arith, ℤ, Bool, Outcome, ok, length,
}
use lock_free_search_tree.Base.Sorted.{insert_sorted, member, remove_first}
use lock_free_search_tree.Treap.State.{treap_nodes, Treap}
use lock_free_search_tree.Treap.Ops.{insert, remove}
use lock_free_search_tree.Treap.Shape.{count, ne_of}
use lock_free_search_tree.Treap.Heap.{weight_of, IsHeap, IsHeap-same}
use lock_free_search_tree.Treap.Model.{Represents, IsHeaped, below_self}
use lock_free_search_tree.Treap.Insert.{with_node, with_node_ne, insert_kept}
use lock_free_search_tree.Treap.Remove.{remove_kept}

-- A new node behind the others leaves the order as it is.
with_node-IsHeap :
    (v w : ℤ) (t : Treap) (vs : List ℤ) (r : Represents t vs)
    → IsHeap (weight_of t) r.tree
    → IsHeap (weight_of (with_node v w t)) r.tree
with_node-IsHeap v w t vs r h =
    IsHeap-same (weight_of t) (weight_of (with_node v w t)) r.tree
      (λ a p. ap (λ n. n.weight) (with_node_ne v w t a (not_new a p))) h
  where
    not_new : (a : ℕ) → 0 < count a r.tree → a ≢ t.size
    not_new a p =
        ne_of (λ b. count b r.tree) a t.size p (omega (arith, r.is.exact t.size, below_self t.size))

-- Where an operation leads that returns a treap.
abbrev pub GivesHeap : List ℤ → Outcome Treap → Type 0
GivesHeap vs run = (u : Treap) × (run ≡ ok u) × IsHeaped u vs

-- On a well-formed treap that holds fewer than 64 values and in which no node is lighter than its
-- parent, `insert` returns a well-formed treap that holds these values with the new one inserted in
-- order, and in which no node is lighter than its parent.
pub insert-IsHeaped :
    (v w : ℤ) (t : Treap) (vs : List ℤ)
    → IsHeaped t vs
    → length vs < treap_nodes
    → GivesHeap (insert_sorted v vs) (insert v w t)
insert-IsHeaped v w t vs (r, ordered) h =
    let (u, run, held, k, heap) = insert_kept v w t vs r h in
    (u, run, (held, heap (weight_of u) (λ a. sym (k.weight a)) (kept u (λ a. k.weight a))))
  where
    kept :
        (u : Treap)
        → ((a : ℕ) → weight_of u a ≡ weight_of (with_node v w t) a)
        → IsHeap (weight_of u) r.tree
    kept u same =
        IsHeap-same (weight_of (with_node v w t)) (weight_of u) r.tree (λ a p. same a)
          (with_node-IsHeap v w t vs r ordered)

-- Where `remove` leads.
abbrev pub RemovesHeap : ℤ → List ℤ → Outcome (Bool × Treap) → Type 0
RemovesHeap v vs run = (u : Treap) × (run ≡ ok (member v vs, u)) × IsHeaped u (remove_first v vs)

-- On a well-formed treap in which no node is lighter than its parent, `remove` tells whether the value
-- was there, and leaves such a treap that holds the values without its first occurrence.
pub remove-IsHeaped :
    (v : ℤ) (t : Treap) (vs : List ℤ) → IsHeaped t vs → RemovesHeap v vs (remove v t)
remove-IsHeaped v t vs (r, ordered) =
    let (u, run, _, _, heap) = remove_kept v t vs r in (u, run, heap ordered)
