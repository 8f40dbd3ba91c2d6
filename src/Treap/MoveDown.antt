-- ===== src/Treap/MoveDown.antt =====
-- `moveDown`: it ends with the node as a leaf, and leaves the order of the tree as it was.
use lock_free_search_tree.Base.{
  ℕ, zero, suc, ◌≤◌, ◌≡◌, refl, sym, ◌∙◌, inl, inr, true, false, ◌&&◌, none, some, arith,
  Bool-cases, ltb_ℤ, ℤ, ◌≤ℤ◌, Outcome, ok, ◌>>=◌,
}
use mathlib.Core.List.{append_assoc}
use lock_free_search_tree.Treap.State.{control_node, TreapIndex, is_null, Treap}
use lock_free_search_tree.Treap.Moves.{right_rotate, left_rotate, rotate_down, move_down_loop}
use lock_free_search_tree.Treap.Shape.{
  Tree, leaf, node, Ctx, in_left, in_right, plug, root_of, inorder,
}
use lock_free_search_tree.Treap.Wiring.{node_at_lem, Keeps, Keeps-refl, Keeps-trans}
use lock_free_search_tree.Treap.Focus.{Focus, zoom_in_left, zoom_in_right, inorder-plug_eq}
use lock_free_search_tree.Treap.Heap.{Over, IsHeapCtx, Sinking, sink_right_heap, sink_left_heap}
use lock_free_search_tree.Treap.RotateRight.{right_rotate_lem}
use lock_free_search_tree.Treap.RotateLeft.{left_rotate_lem}
use lock_free_search_tree.Treap.Values.{size}

-- The node `i` has become a leaf, and the order of the tree is that of before.
pub record Sunk (t : Treap) (c : Ctx) (x : Tree) (i : ℕ) (u : Treap) : Type 0 where
  pub ctx : Ctx
  pub focus : Focus u ctx (node leaf i leaf)
  pub keeps : Keeps t u
  pub order : inorder (plug ctx (node leaf i leaf)) ≡ inorder (plug c x)

abbrev pub Sinks : Treap → Ctx → Tree → ℕ → Outcome Treap → Type 0
Sinks t c x i run = (u : Treap) × (run ≡ ok u) × Sunk t c x i u

-- The same, with the order of the weights round the node, where it held without the node.
abbrev pub SinksHeap : Treap → Ctx → Tree → ℕ → Tree → Outcome Treap → Type 0
SinksHeap t c l i r run =
    (u : Treap) × (run ≡ ok u)
    × (s : Sunk t c (node l i r) i u) × ((w : ℕ → ℤ)
        → ((a : ℕ) → (t.nodes a).weight ≡ w a)
        → Sinking w c l r
        → IsHeapCtx w s.ctx)

Sunk-after :
    (t u v : Treap) (c d : Ctx) (x y : Tree) (i : ℕ)
    → Keeps t u
    → inorder (plug d y) ≡ inorder (plug c x)
    → Sunk u d y i v
    → Sunk t c x i v
Sunk-after t u v c d x y i k e m = record {
  ctx = m.ctx;
  focus = m.focus;
  keeps = Keeps-trans t u v k m.keeps;
  order = m.order ∙ e;
}

lt_of_test : (a b : ℤ) → ltb_ℤ a b ≡ true → a ≤ℤ b
lt_of_test a b h = ground arith

ge_of_test : (a b : ℤ) → ltb_ℤ a b ≡ false → b ≤ℤ a
ge_of_test a b h = ground arith

-- The child that goes up is not heavier than the other one.
module _ (t : Treap) (w : ℕ → ℤ) (j k : ℕ) (same : (a : ℕ) → (t.nodes a).weight ≡ w a) where
  chosen_left : ltb_ℤ (t.nodes j).weight (t.nodes k).weight ≡ true → w j ≤ℤ w k
  chosen_left e =
      rw (sym (same j), sym (same k)) (lt_of_test (t.nodes j).weight (t.nodes k).weight e)

  chosen_right : ltb_ℤ (t.nodes j).weight (t.nodes k).weight ≡ false → w k ≤ℤ w j
  chosen_right e =
      rw (sym (same j), sym (same k)) (ge_of_test (t.nodes j).weight (t.nodes k).weight e)

-- The loop serves every subtree for which the fuel `f` is enough.
abbrev pub Serves : ℕ → Type 0
Serves f =
    (t : Treap) (c : Ctx) (l : Tree) (i : ℕ) (r : Tree)
    → Focus t c (node l i r)
    → size (node l i r) ≤ f
    → SinksHeap t c l i r (move_down_loop f (some i) t)

module _ (f : ℕ) (t : Treap) (c : Ctx) (i : ℕ) (serves : Serves f) where
  sink_right :
      (a : Tree) (j : ℕ) (b r : Tree)
      → Focus t c (node (node a j b) i r)
      → size (node (node a j b) i r) ≤ suc f
      → ((w : ℕ → ℤ) → ((k : ℕ) → (t.nodes k).weight ≡ w k) → Over w j r)
      → SinksHeap t c (node a j b) i r (right_rotate (some i) t >>= move_down_loop f (some i))
  unfolding Sunk-after
  sink_right a j b r h fuel chosen =
      let (u, run, focus, keeps) = right_rotate_lem t c a j b i r h in
      let (v, rest, sunk, ordered) =
        serves u (in_right a j c) b i r (zoom_in_right focus) (omega arith) in
      (
        v,
        rw run rest,
        Sunk-after t u v c (in_right a j c) (node (node a j b) i r) (node b i r) i keeps
            (inorder-plug_eq c (node a j (node b i r)) (node (node a j b) i r) (simp append_assoc))
            sunk,
        λ w same h.
            ordered w (λ k. keeps.weight k ∙ same k)
              (sink_right_heap w c a j b r h (chosen w same)),
      )

  sink_left :
      (l a : Tree) (j : ℕ) (b : Tree)
      → Focus t c (node l i (node a j b))
      → size (node l i (node a j b)) ≤ suc f
      → ((w : ℕ → ℤ) → ((k : ℕ) → (t.nodes k).weight ≡ w k) → Over w j l)
      → SinksHeap t c l i (node a j b) (left_rotate (some i) t >>= move_down_loop f (some i))
  unfolding Sunk-after
  sink_left l a j b h fuel chosen =
      let (u, run, focus, keeps) = left_rotate_lem t c l i a j b h in
      let (v, rest, sunk, ordered) =
        serves u (in_left j b c) l i a (zoom_in_left focus) (omega arith) in
      (
        v,
        rw run rest,
        Sunk-after t u v c (in_left j b c) (node l i (node a j b)) (node l i a) i keeps
            (inorder-plug_eq c (node (node l i a) j b) (node l i (node a j b)) (simp append_assoc))
            sunk,
        λ w same h.
            ordered w (λ k. keeps.weight k ∙ same k) (sink_left_heap w c l a j b h (chosen w same)),
      )

  -- A node that has a child is rotated below one of them.
  sink_round :
      (l r : Tree)
      → Focus t c (node l i r)
      → size (node l i r) ≤ suc f
      → is_null (root_of l) && is_null (root_of r) ≡ false
      → SinksHeap t c l i r
          (rotate_down (some i) (root_of l) (root_of r) t >>= move_down_loop f (some i))
  unfolding rotate_down
  sink_round leaf leaf h fuel some_child = absurd (elim_false some_child)
    where
      elim_false : true ≡ false → ⊥
      elim_false e = cc
  sink_round (node a j b) leaf h fuel some_child = sink_right a j b leaf h fuel (λ w same. tt)
  sink_round leaf (node a j b) h fuel some_child = sink_left leaf a j b h fuel (λ w same. tt)
  sink_round (node a j b) (node a' j' b') h fuel some_child =
      let (_, _, _, _, (bound, _, _, _, _, _), (bound', _, _, _, _, _)) = h.shape in
      elim (Bool-cases (ltb_ℤ (t.nodes j).weight (t.nodes j').weight)) [
        | inl e ↦
            rw (node_at_lem j t bound, node_at_lem j' t bound', e)
              (sink_right a j b (node a' j' b') h fuel (λ w same. chosen_left t w j j' same e))
        | inr e ↦
            rw (node_at_lem j t bound, node_at_lem j' t bound', e)
              (sink_left (node a j b) a' j' b' h fuel (λ w same. chosen_right t w j j' same e))
      ]

module _ (f : ℕ) (t : Treap) (i : ℕ) (bound : i ≤ control_node) where
  down_stops :
      (t.nodes i).left ≡ none → (t.nodes i).right ≡ none → move_down_loop (suc f) (some i) t ≡ ok t
  unfolding move_down_loop
  down_stops e e' = ground (arith, node_at_lem i t bound)

  down_turns :
      (l r : TreapIndex)
      → (t.nodes i).left ≡ l
      → (t.nodes i).right ≡ r
      → is_null l && is_null r ≡ false
      → move_down_loop (suc f) (some i) t
        ≡ (rotate_down (some i) l r t >>= move_down_loop f (some i))
  unfolding move_down_loop
  down_turns l r e e' n = ground (arith, node_at_lem i t bound)

pub move_down_loop_lem : (f : ℕ) → Serves f
move_down_loop_lem zero t c l i r h fuel = absurd (omega arith)
move_down_loop_lem (suc f) t c leaf i leaf h fuel = (
  t,
  down_stops f t i h.shape.0 h.shape.2 h.shape.3,
  record { ctx = c; focus = h; keeps = Keeps-refl t; order = refl },
  λ w same s. s.0.0,
)
move_down_loop_lem (suc f) t c leaf i (node a j b) h fuel =
    rw (down_turns f t i h.shape.0 none (some j) h.shape.2 h.shape.3 refl)
      (sink_round f t c i (move_down_loop_lem f) leaf (node a j b) h fuel refl)
move_down_loop_lem (suc f) t c (node a j b) i r h fuel =
    rw (down_turns f t i h.shape.0 (some j) (root_of r) h.shape.2 h.shape.3 refl)
      (sink_round f t c i (move_down_loop_lem f) (node a j b) r h fuel refl)
