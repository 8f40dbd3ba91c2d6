-- ===== src/Treap/Weights.antt =====
-- `insert` and `remove` of treap.cpp, and the weights: that of every node is above that of the control
-- node, which `split` relies on.
use lock_free_search_tree.Base.{
  ℕ, ◌+◌, ◌<◌, ◌≡◌, ◌≢◌, List, arith, ℤ, ◌<ℤ◌, Bool, Outcome, ok, int_min, length,
}
use native.Mathlib.Decide.{ℕ_discrete}
use lock_free_search_tree.Base.Sorted.{insert_sorted, member, remove_first}
use lock_free_search_tree.Treap.State.{treap_nodes, Treap}
use lock_free_search_tree.Treap.Ops.{insert, remove}
use lock_free_search_tree.Treap.Model.{Weighted, Sound, Returns}
use lock_free_search_tree.Treap.Insert.{with_node, with_node_ne, with_node_self, insert_kept}
use lock_free_search_tree.Treap.Remove.{remove_kept}

below_next : (a n : ℕ) → a < n + 1 → a ≢ n → a < n
below_next a n h ne = omega (arith)

with_node-Weighted : (v w : ℤ) (t : Treap) → Weighted t → int_min <ℤ w → Weighted (with_node v w t)
with_node-Weighted v w t heavy hw a h = elim (ℕ_discrete a t.size) [
  | yes e ↦ rw (e, with_node_self v w t) hw
  | no ne ↦ rw (with_node_ne v w t a ne) (heavy a (below_next a t.size h ne))
]

-- On a well-formed treap that holds fewer than 64 values and whose weights are above that of the
-- control node, `insert` with such a weight returns a well-formed treap that holds these values with
-- the new one inserted in order, and whose weights are above that of the control node.
pub insert-Sound :
    (v w : ℤ) (t : Treap) (vs : List ℤ)
    → Sound t vs
    → int_min <ℤ w
    → length vs < treap_nodes
    → Returns (insert_sorted v vs) (insert v w t)
insert-Sound v w t vs (r, heavy) hw h =
    let (u, run, held, k, _) = insert_kept v w t vs r h in
    (u, run, (held, λ a m. rw (k.weight a) (with_node-Weighted v w t heavy hw a (rw k.size at m))))

-- Where `remove` leads.
abbrev pub RemovesSound : ℤ → List ℤ → Outcome (Bool × Treap) → Type 0
RemovesSound v vs run = (u : Treap) × (run ≡ ok (member v vs, u)) × Sound u (remove_first v vs)

-- On a well-formed treap whose weights are above that of the control node, `remove` tells whether the
-- value was there, and leaves such a treap that holds the values without its first occurrence.
pub remove-Sound : (v : ℤ) (t : Treap) (vs : List ℤ) → Sound t vs → RemovesSound v vs (remove v t)
remove-Sound v t vs (r, heavy) =
    let (u, run, held, w, _) = remove_kept v t vs r in (u, run, (held, w heavy))
