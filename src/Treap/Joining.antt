-- ===== src/Treap/Joining.antt =====
-- The writes of `merge` that put the control node above the copies of the two treaps.
use lock_free_search_tree.Base.{
  ℕ, ◌+◌, ◌≤◌, ◌<◌, ◌≡◌, ◌≢◌, refl, sym, ap, ◌∙◌, none, some, arith, half, ◌+ℤ◌, Outcome, ok,
  update,
}
use lock_free_search_tree.Treap.State.{
  treap_nodes, control_node, Treap, set_parent, set_parent_unless_null,
}
use lock_free_search_tree.Treap.Bulk.{control, join_roots}
use lock_free_search_tree.Treap.Shape.{
  Tree, leaf, node, root_of, one, count, inorder, Shape, Shape-frame,
}
use lock_free_search_tree.Treap.Wiring.{write_lem, node_at_lem, eq_ne, Keeps, Keeps-trans, reparent}
use lock_free_search_tree.Treap.Values.{vals, vals-Keeps}
use lock_free_search_tree.Treap.Model.{
  Weighted, below, below_pos, below-le, below-control, vals-frame_tree,
}
use lock_free_search_tree.Treap.Merge.{Joined}

-- Two trees in the array that make up its nodes.
pub record Pair (t : Treap) (x y : Tree) : Type 0 where
  pub left : Shape t.nodes none x
  pub right : Shape t.nodes none y
  pub exact : (a : ℕ) → count a x + count a y ≡ below a t.size
  pub fits : t.size ≤ treap_nodes
  pub heavy : Weighted t

join_run :
    (i j : ℕ) (t t₄ t₅ : Treap)
    → i ≤ control_node
    → j ≤ control_node
    → set_parent (some i) (some control_node) (record t {
      nodes =
          update t.nodes control_node
            (control (half ((t.nodes i).val +ℤ (t.nodes j).val)) (some i) (some j));
    })
      ≡ ok t₄
    → set_parent (some j) (some control_node) t₄ ≡ ok t₅
    → join_roots (some i) (some j) t ≡ ok (record t₅ { root = some control_node })
unfolding join_roots
join_run i j t t₄ t₅ hi hj e₄ e₅ = rw (
  node_at_lem i t hi,
  node_at_lem j t hj,
  write_lem control_node t (omega arith)
      (control (half ((t.nodes i).val +ℤ (t.nodes j).val)) (some i) (some j)),
  e₄,
  e₅,
)

top_le : (e n : ℕ) → n ≤ control_node → below e n + one e control_node ≤ 1
top_le e n h = ground arith

-- The array with the control node above the nodes `i` and `j`.
abbrev raised_control : Treap → ℕ → ℕ → Treap
raised_control t i j = record t {
  nodes =
      update t.nodes control_node
        (control (half ((t.nodes i).val +ℤ (t.nodes j).val)) (some i) (some j));
}

module _ (t : Treap) (a : Tree) (i : ℕ) (b c : Tree) (j : ℕ) (d : Tree)
    (h : Pair t (node a i b) (node c j d)) where
  small : (e : ℕ) → 0 < count e (node a i b) + count e (node c j d) → e < t.size
  small e p = below_pos e t.size (omega (arith, h.exact e))

  outer : count control_node (node a i b) + count control_node (node c j d) ≡ 0
  outer = h.exact control_node ∙ below-control t.size h.fits

  same : (e : ℕ) → e < t.size → (raised_control t i j).nodes e ≡ t.nodes e
  same e p = rw (eq_ne e control_node (less e (omega (arith, h.fits))))
    where
      less : (e : ℕ) → e < control_node → e ≢ control_node
      less e p q = omega arith

  at_most : (e : ℕ) → count e (node a i b) + count e (node c j d) ≤ 1
  at_most e = omega (arith, h.exact e, below-le e t.size)

  pub join_roots_lem :
      (u : Treap) × (join_roots (some i) (some j) t ≡ ok u)
      × Joined (vals t (inorder (node a i b))) (vals t (inorder (node c j d))) u
  unfolding set_parent_unless_null
  join_roots_lem =
      let x = node a i b in
      let y = node c j d in
      let t₃ = raised_control t i j in
      let left₃ : Shape t₃.nodes none x =
        Shape-frame t.nodes t₃.nodes none x h.left (λ e p. same e (small e (omega arith))) in
      let right₃ : Shape t₃.nodes none y =
        Shape-frame t.nodes t₃.nodes none y h.right (λ e p. same e (small e (omega arith))) in
      let (t₄, e₄, r₄) =
        reparent t₃ none (some control_node) x left₃ (λ e. omega (arith, at_most e)) in
      let right₄ : Shape t₄.nodes none y =
        Shape-frame t₃.nodes t₄.nodes none y right₃
          (λ e p. r₄.outside e (omega (arith, at_most e))) in
      let (t₅, e₅, r₅) =
        reparent t₄ none (some control_node) y right₄ (λ e. omega (arith, at_most e)) in
      let keeps : Keeps t₃ t₅ = Keeps-trans t₃ t₄ t₅ r₄.keeps r₅.keeps in
      let at_control : t₅.nodes control_node ≡ t₃.nodes control_node =
        r₅.outside control_node (omega (arith, outer))
        ∙ r₄.outside control_node (omega (arith, outer)) in
      let values : (z : Tree)
          → ((e : ℕ) → 0 < count e z → e < t.size)
          → vals t₅ (inorder z) ≡ vals t (inorder z) =
        λ z m.
          vals-Keeps t₃ t₅ (inorder z) keeps ∙ vals-frame_tree t t₃ z (λ e p. same e (m e p)) in
      (
        record t₅ { root = some control_node },
        join_run i j t t₄ t₅ h.left.0 h.right.0 e₄ e₅,
        record {
          left = x;
          right = y;
          focus = record {
            around = refl;
            shape = (
              omega arith,
              rw at_control,
              rw at_control,
              rw at_control,
              Shape-frame t₄.nodes t₅.nodes (some control_node) x r₄.shape
                  (λ e p. r₅.outside e (omega (arith, at_most e))),
              r₅.shape,
            );
            distinct = λ e. omega (arith, h.exact e, top_le e t.size h.fits);
          };
          left_values = values x (λ e p. small e (omega arith));
          right_values = values y (λ e p. small e (omega arith));
          exact = λ e. h.exact e ∙ ap (below e) (sym keeps.size);
          fits = omega (arith, keeps.size, h.fits);
          filled = omega arith;
          heavy = λ e m.
              let n : e < t.size = omega (arith, keeps.size) in
              rw (keeps.weight e, same e n) (h.heavy e n);
        },
      )

-- Where the control node is put above two trees.
abbrev pub Joins : Treap → Tree → Tree → Outcome Treap → Type 0
Joins t x y run = (u : Treap) × (run ≡ ok u) × Joined (vals t (inorder x)) (vals t (inorder y)) u

pub join_roots_at :
    (t : Treap) (x y : Tree) (i j : ℕ)
    → Pair t x y
    → root_of x ≡ some i
    → root_of y ≡ some j
    → Joins t x y (join_roots (some i) (some j) t)
join_roots_at t leaf y i j h e e' = absurd (ground arith)
join_roots_at t (node a k b) leaf i j h e e' = absurd (ground arith)
join_roots_at t (node a k b) (node c m d) i j h e e' =
    rw e at (rw e' at (join_roots_lem t a k b c m d h))
