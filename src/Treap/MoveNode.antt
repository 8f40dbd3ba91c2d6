-- ===== src/Treap/MoveNode.antt =====
-- `moveNode`: the tree is as before, with another index for one of its nodes.
use lock_free_search_tree.Base.{
  ℕ, ◌+◌, ◌≤◌, ◌<◌, ◌≡◌, ◌≢◌, refl, sym, ap, ◌∙◌, ◌⊎◌, inl, inr, some, arith, update, ok,
}
use lock_free_search_tree.Treap.State.{
  control_node, Treap, set_parent_unless_null, replace_child, move_node,
}
use lock_free_search_tree.Treap.Shape.{
  Tree, leaf, node, Ctx, top, in_left, in_right, plug, one, count, count_ctx, one_self, ne_of,
  Shape-frame, Around-frame,
}
use lock_free_search_tree.Treap.Wiring.{
  node_at_lem, write_lem, eq_self, eq_ne, Reparented, reparent, Rehung, rehang,
}
use lock_free_search_tree.Treap.Focus.{Focus}

-- A hole inside a tree that stands in a hole.
abbrev extend : Ctx → Ctx → Ctx
extend top d = d
extend (in_left k r c) d = in_left k r (extend c d)
extend (in_right l k c) d = in_right l k (extend c d)

plug-extend : (c d : Ctx) (x : Tree) → plug (extend c d) x ≡ plug d (plug c x)
plug-extend top d x = refl
plug-extend (in_left k r c) d x = plug-extend c d (node x k r)
plug-extend (in_right l k c) d x = plug-extend c d (node l k x)

-- Where an index stands in a tree.
pub record Found (a : ℕ) (x : Tree) : Type 0 where
  pub ctx : Ctx
  pub left : Tree
  pub right : Tree
  pub same : plug ctx (node left a right) ≡ x

Found-below : (a : ℕ) (x y : Tree) (d : Ctx) → plug d x ≡ y → Found a x → Found a y
Found-below a x y d e h = record {
  ctx = extend h.ctx d;
  left = h.left;
  right = h.right;
  same = plug-extend h.ctx d (node h.left a h.right) ∙ ap (plug d) h.same ∙ e;
}

place_cases : (m n a k : ℕ) → 0 < m + one a k + n → (a ≡ k) ⊎ ((0 < m) ⊎ (0 < n))
place_cases m n a k h = ground arith

-- An index that stands in a tree is found there.
pub find_index : (a : ℕ) (x : Tree) → 0 < count a x → Found a x
find_index a leaf h = absurd (omega arith)
find_index a (node l k r) h = elim (place_cases (count a l) (count a r) a k h) [
  | inl e ↦ record { ctx = top; left = l; right = r; same = rw e }
  | inr (inl p) ↦ Found-below a l (node l k r) (in_left k r top) refl (find_index a l p)
  | inr (inr p) ↦ Found-below a r (node l k r) (in_right l k top) refl (find_index a r p)
]

-- The treap after the copy of the node.
abbrev copied : ℕ → ℕ → Treap → Treap
copied m i t = record t { nodes = update t.nodes i (t.nodes m) }

-- The tree with `i` for `m`, and the values as they were.
pub record Renamed (t : Treap) (c : Ctx) (l : Tree) (m : ℕ) (r : Tree) (i : ℕ) (u : Treap)
    : Type 0 where
  pub focus : Focus u c (node l i r)
  pub val : (a : ℕ) → a ≢ i → (u.nodes a).val ≡ (t.nodes a).val
  pub val_new : (u.nodes i).val ≡ (t.nodes m).val
  pub weight : (a : ℕ) → a ≢ i → (u.nodes a).weight ≡ (t.nodes a).weight
  pub weight_new : (u.nodes i).weight ≡ (t.nodes m).weight
  pub size : u.size ≡ t.size

module _ (t : Treap) (c : Ctx) (l : Tree) (m : ℕ) (r : Tree) (i : ℕ) (h : Focus t c (node l m r))
    (bound : i ≤ control_node) (i≢m : i ≢ m) (out : count_ctx i c + count i l + count i r ≡ 0) where
  copied_ne : (a : ℕ) → a ≢ i → (copied m i t).nodes a ≡ t.nodes a
  copied_ne a p = rw (eq_ne a i p)

  copied_self : (copied m i t).nodes i ≡ t.nodes m
  copied_self = rw (eq_self i)

  -- What the later writes make of the array.
  module _ (t₂ t₃ t₄ : Treap) (r₂ : Reparented (copied m i t) (some i) l t₂)
      (r₃ : Reparented t₂ (some i) r t₃) (r₄ : Rehung t₃ (some i) c t₄) where
    renamed_self : t₄.nodes i ≡ t.nodes m
    renamed_self =
        r₄.outside i (omega arith)
        ∙ r₃.outside i (omega arith)
        ∙ r₂.outside i (omega arith)
        ∙ copied_self

    renamed-Focus : Focus t₄ c (node l i r)
    renamed-Focus =
        let (mbound, up, left, right, hl, hr) = h.shape in
        record {
          around = r₄.around;
          shape = (
            bound,
            rw renamed_self up,
            rw renamed_self left,
            rw renamed_self right,
            Shape-frame t₂.nodes t₄.nodes (some i) l r₂.shape λ a p.
                r₄.outside a (omega (arith, h.distinct a))
                ∙ r₃.outside a (omega (arith, h.distinct a)),
            Shape-frame t₃.nodes t₄.nodes (some i) r r₃.shape
                λ a p. r₄.outside a (omega (arith, h.distinct a)),
          );
          distinct = λ e. renamed_distinct e;
        }
      where
        swap_distinct :
            (k : ℕ → ℕ) → ((a : ℕ) → k a + one a m ≤ 1) → k i ≡ 0 → (e : ℕ) → k e + one e i ≤ 1
        swap_distinct k d z e = ground (arith, d e)

        renamed_distinct : (e : ℕ) → count_ctx e c + (count e l + one e i + count e r) ≤ 1
        renamed_distinct e = omega (
          arith,
          swap_distinct (λ a. count_ctx a c + count a l + count a r)
              (λ a. omega (arith, h.distinct a)) out e,
        )

    renamed : Renamed t c l m r i t₄
    renamed = record {
      focus = renamed-Focus;
      val =
          λ a p. r₄.keeps.val a ∙ r₃.keeps.val a ∙ r₂.keeps.val a ∙ ap (λ n. n.val) (copied_ne a p);
      val_new = ap (λ n. n.val) renamed_self;
      weight = λ a p.
          r₄.keeps.weight a
          ∙ r₃.keeps.weight a
          ∙ r₂.keeps.weight a
          ∙ ap (λ n. n.weight) (copied_ne a p);
      weight_new = ap (λ n. n.weight) renamed_self;
      size = r₄.keeps.size ∙ r₃.keeps.size ∙ r₂.keeps.size;
    }

  move_node_run :
      (t₂ t₃ t₄ : Treap)
      → set_parent_unless_null (t.nodes m).left (some i) (copied m i t) ≡ ok t₂
      → set_parent_unless_null (t.nodes m).right (some i) t₂ ≡ ok t₃
      → replace_child (t.nodes m).parent (some m) (some i) t₃ ≡ ok t₄
      → move_node (some m) (some i) t ≡ ok t₄
  unfolding move_node
  move_node_run t₂ t₃ t₄ e₂ e₃ e₄ =
      rw
        (
          eq_ne m i (λ e. i≢m (sym e)),
          node_at_lem m t h.shape.0,
          write_lem i t bound (t.nodes m),
          e₂,
          e₃,
        )
        e₄

  -- `moveNode` of a node of a well-formed treap to another index of the array that is not used in it
  -- returns a well-formed treap of the same shape, in which the node has its value and the new index;
  -- the values at all other indices and the size are as they were.
  pub move_node_lem : (u : Treap) × (move_node (some m) (some i) t ≡ ok u) × Renamed t c l m r i u
  move_node_lem =
      let (mbound, up, left, right, hl, hr) = h.shape in
      let t₁ = copied m i t in
      let (t₂, e₂, r₂) =
        reparent t₁ (some m) (some i) l
          (Shape-frame t.nodes t₁.nodes (some m) l hl
            (λ a p. copied_ne a (ne_of (λ b. count b l) a i p (omega (arith, out)))))
          (λ a. omega (arith, h.distinct a)) in
      let (t₃, e₃, r₃) =
        reparent t₂ (some m) (some i) r
          (Shape-frame t.nodes t₂.nodes (some m) r hr (λ a p.
            r₂.outside a (omega (arith, h.distinct a))
            ∙ copied_ne a (ne_of (λ b. count b r) a i p (omega (arith, out)))))
          (λ a. omega (arith, h.distinct a)) in
      let root : t₃.root ≡ t.root = r₃.root ∙ r₂.root in
      let (t₄, e₄, r₄) =
        rehang t₃ m (some i) c
          (rw root (
            Around-frame t.nodes t₃.nodes t.root (some m) c h.around λ a p.
              r₃.outside a (omega (arith, h.distinct a))
              ∙ r₂.outside a (omega (arith, h.distinct a))
              ∙ copied_ne a (ne_of (λ b. count_ctx b c) a i p (omega (arith, out)))))
          (λ a. omega (arith, h.distinct a)) (omega (arith, one_self m, h.distinct m)) in
      (
        t₄,
        move_node_run t₂ t₃ t₄ (ap (λ o. set_parent_unless_null o (some i) t₁) left ∙ e₂)
            (ap (λ o. set_parent_unless_null o (some i) t₂) right ∙ e₃)
            (ap (λ o. replace_child o (some m) (some i) t₃) up ∙ e₄),
        renamed t₂ t₃ t₄ r₂ r₃ r₄,
      )
