-- ===== src/Treap/Merge.antt =====
-- `merge` of two treaps that are not empty: the control node is put above copies of both, sinks, and is
-- cut off.
use lock_free_search_tree.Base.{
  ℕ, ◌+◌, ◌≤◌, ◌<◌, ◌≡◌, sym, ap, ◌∙◌, none, some, List, ◌++◌, arith, ℤ, Outcome, ok, ◌>>=◌, length,
}
use lock_free_search_tree.Base.Sorted.{IsSorted}
use lock_free_search_tree.Treap.State.{treap_nodes, control_node, Treap, replace_child}
use lock_free_search_tree.Treap.Moves.{move_down}
use lock_free_search_tree.Treap.Bulk.{cut_control}
use lock_free_search_tree.Treap.Shape.{
  Tree, leaf, node, Ctx, top, in_left, in_right, plug, parent_of, one_self, count, count-plug,
  inorder, before, after, close,
}
use lock_free_search_tree.Treap.Wiring.{node_at_lem, Keeps-trans, rehang}
use lock_free_search_tree.Treap.Focus.{Focus}
use lock_free_search_tree.Treap.MoveDown.{Sunk}
use lock_free_search_tree.Treap.Sifting.{move_down_lem}
use lock_free_search_tree.Treap.Values.{
  apart_unique, occurs, occurs-append, count-inorder, vals, vals-append, vals-Keeps, size,
  length-inorder, count_of_inorder,
}
use lock_free_search_tree.Treap.Place.{leaf_order}
use lock_free_search_tree.Treap.CutOff.{gap_order}
use lock_free_search_tree.Treap.Model.{Weighted, Returns, below}

-- The control node stands above two trees that are not empty and make up the whole treap.
pub record Joined (vs ws : List ℤ) (t : Treap) : Type 0 where
  pub left : Tree
  pub right : Tree
  pub focus : Focus t top (node left control_node right)
  pub left_values : vals t (inorder left) ≡ vs
  pub right_values : vals t (inorder right) ≡ ws
  pub exact : (a : ℕ) → count a left + count a right ≡ below a t.size
  pub fits : t.size ≤ treap_nodes
  pub filled : 0 < size left
  pub heavy : Weighted t

-- A leaf that is not the whole tree hangs below a node.
cut_run :
    (c : Ctx) (t u : Treap)
    → Focus t c (node leaf control_node leaf)
    → 1 < size (plug c (node leaf control_node leaf))
    → replace_child (parent_of c) (some control_node) none t ≡ ok u
    → cut_control t ≡ ok u
unfolding cut_control replace_child
cut_run top t u h more e = absurd (omega arith)
cut_run (in_left k r c) t u h more e = rw (node_at_lem control_node t h.shape.0, h.shape.1) e
cut_run (in_right l k c) t u h more e = rw (node_at_lem control_node t h.shape.0, h.shape.1) e

module _ (vs ws : List ℤ) (t : Treap) (j : Joined vs ws t) where
  module _ (u : Treap) (k : Sunk t top (node j.left control_node j.right) control_node u) where
    hole_out : occurs control_node (before k.ctx) ≡ 0
    hole_out = omega (
      arith,
      one_self control_node,
      k.focus.distinct control_node,
      count-plug control_node k.ctx leaf,
      count-inorder control_node (plug k.ctx leaf),
      ap (λ l. occurs control_node l) (leaf_order k.ctx),
      occurs-append control_node (before k.ctx) (after k.ctx),
    )

    sunk_sides : (inorder j.left ≡ before k.ctx) × (inorder j.right ≡ after k.ctx)
    sunk_sides =
        apart_unique control_node (inorder j.left) (inorder j.right) (before k.ctx) (after k.ctx)
          (omega (
            arith,
            one_self control_node,
            j.focus.distinct control_node,
            count-inorder control_node j.left,
          ))
          hole_out (sym k.order ∙ gap_order k.ctx control_node)

    rest_values : vals t (inorder (plug k.ctx leaf)) ≡ vs ++ ws
    rest_values =
        ap (vals t) (sym (leaf_order k.ctx))
        ∙ vals-append t (before k.ctx) (after k.ctx)
        ∙ rw (← sunk_sides.0, ← sunk_sides.1, j.left_values, j.right_values)

    rest_count : (a : ℕ) → count a (plug k.ctx leaf) ≡ below a t.size
    rest_count a = omega (
      arith,
      count-plug a k.ctx leaf,
      count-plug a k.ctx (node leaf control_node leaf),
      count_of_inorder a (plug k.ctx (node leaf control_node leaf))
          (node j.left control_node j.right) k.order,
      j.exact a,
    )

    sunk_size : 1 < size (plug k.ctx (node leaf control_node leaf))
    sunk_size = omega (
      arith,
      length-inorder (plug k.ctx (node leaf control_node leaf)),
      ap (λ (l : List ℕ). length l) k.order,
      length-inorder (node j.left control_node j.right),
      j.filled,
    )

  pub sink :
      IsSorted (vs ++ ws) → Returns (vs ++ ws) (move_down (some control_node) t >>= cut_control)
  sink sorted =
      let (u, run, k) = move_down_lem t top j.left control_node j.right j.focus in
      let (v, cut, r) =
        rehang u control_node none k.ctx k.focus.around (λ a. omega (arith, k.focus.distinct a))
          (omega (arith, one_self control_node, k.focus.distinct control_node)) in
      let (shape, root) = close v.nodes v.root k.ctx leaf r.around tt in
      let keeps = Keeps-trans t u v k.keeps r.keeps in
      let values : vals v (inorder (plug k.ctx leaf)) ≡ vs ++ ws =
        vals-Keeps t v (inorder (plug k.ctx leaf)) keeps ∙ rest_values u k in
      (
        v,
        ap (λ (m : Outcome Treap). m >>= cut_control) run
            ∙ cut_run k.ctx u v k.focus (sunk_size u k) cut,
        (
          record {
            tree = plug k.ctx leaf;
            is = record {
              root = root;
              shape = shape;
              exact = λ a. rest_count u k a ∙ ap (below a) (sym keeps.size);
              fits = omega (arith, keeps.size, j.fits);
              sorted = rw values sorted;
            };
            values = values;
          },
          λ a m. rw (keeps.weight a) (j.heavy a (omega (arith, keeps.size))),
        ),
      )
