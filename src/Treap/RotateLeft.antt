-- ===== src/Treap/RotateLeft.antt =====
-- `leftRotate` is the rotation of the tree that the array holds.
use lock_free_search_tree.Base.{ℕ, ◌≡◌, ◌≢◌, sym, ◌∙◌, some, arith}
use lock_free_search_tree.Treap.State.{Treap}
use lock_free_search_tree.Treap.Moves.{left_rotate}
use lock_free_search_tree.Treap.Shape.{
  Tree, node, Ctx, root_of, parent_of, count, count_ctx, Shape-frame, Around-frame, one_self, ne_of,
}
use lock_free_search_tree.Treap.Wiring.{
  put_parent, put_left, put_right, node_at_lem, set_parent_lem, set_left_lem, set_right_lem, Keeps,
  Keeps-trans, Keeps-put_parent, Keeps-put_left, Keeps-put_right, put_parent_ne, put_left_ne,
  put_right_ne, put_parent_self, put_left_self, put_right_self, Reparented, reparent, Rehung,
  rehang,
}
use lock_free_search_tree.Treap.Focus.{Focus, Rotated}

module _ (t : Treap) (c : Ctx) (d : Tree) (k : ℕ) (b : Tree) (j : ℕ) (a : Tree) where
  -- The first three writes of `leftRotate`.
  abbrev turned_left : Treap
  turned_left = record t {
    nodes = put_parent j (parent_of c) (put_left j (some k) (put_parent k (some j) t.nodes));
  }

  Keeps-turned_left : Keeps t turned_left
  Keeps-turned_left =
      let t₁ : Treap = record t { nodes = put_parent k (some j) t.nodes } in
      let t₂ : Treap = record t { nodes = put_left j (some k) t₁.nodes } in
      Keeps-trans t t₂ turned_left
        (Keeps-trans t t₁ t₂ (Keeps-put_parent k (some j) t) (Keeps-put_left j (some k) t₁))
        (Keeps-put_parent j (parent_of c) t₂)

  turned_left_ne : (e : ℕ) → e ≢ j → e ≢ k → turned_left.nodes e ≡ t.nodes e
  turned_left_ne e p q = rw (
    put_parent_ne j (parent_of c) (put_left j (some k) (put_parent k (some j) t.nodes)) e p,
    put_left_ne j (some k) (put_parent k (some j) t.nodes) e p,
    put_parent_ne k (some j) t.nodes e q,
  )

  module _ (j≢k : j ≢ k) where
    turned_left_upper : turned_left.nodes k ≡ record (t.nodes k) { parent = some j }
    turned_left_upper =
        let k≢j : k ≢ j = λ e. j≢k (sym e) in
        rw
          (
            put_parent_ne j (parent_of c) (put_left j (some k) (put_parent k (some j) t.nodes)) k
                k≢j,
            put_left_ne j (some k) (put_parent k (some j) t.nodes) k k≢j,
          )
          (put_parent_self k (some j) t.nodes)

    turned_left_lower :
        turned_left.nodes j ≡ record (t.nodes j) { left = some k; parent = parent_of c }
    turned_left_lower = rw (
      put_parent_self j (parent_of c) (put_left j (some k) (put_parent k (some j) t.nodes)),
      put_left_self j (some k) (put_parent k (some j) t.nodes),
      put_parent_ne k (some j) t.nodes j j≢k,
    )

  -- What the later writes make of the array.
  module _ (h : Focus t c (node d k (node b j a))) (t₄ t₆ : Treap)
      (r₄ : Rehung turned_left (some j) c t₄)
      (r₆ : Reparented (record t₄ { nodes = put_right k (root_of b) t₄.nodes }) (some k) b t₆) where
    left_bottom : (e : ℕ) → e ≢ k → count e b ≡ 0 → t₆.nodes e ≡ t₄.nodes e
    left_bottom e p z = r₆.outside e z ∙ put_right_ne k (root_of b) t₄.nodes e p

    left_spared :
        (e : ℕ) → e ≢ j → e ≢ k → count e b ≡ 0 → count_ctx e c ≡ 0 → t₆.nodes e ≡ t.nodes e
    left_spared e p q z y = left_bottom e q z ∙ r₄.outside e y ∙ turned_left_ne e p q

    left_upper : j ≢ k → t₆.nodes k ≡ record (t.nodes k) { parent = some j; right = root_of b }
    left_upper j≢k = rw (
      r₆.outside k (omega (arith, one_self k, h.distinct k)),
      put_right_self k (root_of b) t₄.nodes,
      r₄.outside k (omega (arith, one_self k, h.distinct k)),
      turned_left_upper j≢k,
    )

    left_lower : j ≢ k → t₆.nodes j ≡ record (t.nodes j) { left = some k; parent = parent_of c }
    left_lower j≢k =
        rw
          (
            left_bottom j j≢k (omega (arith, one_self j, h.distinct j)),
            r₄.outside j (omega (arith, one_self j, h.distinct j)),
          )
          (turned_left_lower j≢k)

    left_Keeps : Keeps t t₆
    left_Keeps =
        let t₅ : Treap = record t₄ { nodes = put_right k (root_of b) t₄.nodes } in
        Keeps-trans t t₅ t₆
          (Keeps-trans t t₄ t₅ (Keeps-trans t turned_left t₄ Keeps-turned_left r₄.keeps)
            (Keeps-put_right k (root_of b) t₄))
          r₆.keeps

    left_Focus : j ≢ k → Focus t₆ c (node (node d k b) j a)
    left_Focus j≢k =
        let (bound, up, left, right, hd, (bound', up', left', right', hb, ha)) = h.shape in
        let upper = left_upper j≢k in
        let lower = left_lower j≢k in
        record {
          around = rw r₆.root (
              Around-frame t₄.nodes t₆.nodes t₄.root (some j) c r₄.around λ e p.
                left_bottom e
                  (ne_of (λ e. count_ctx e c) e k p (omega (arith, one_self k, h.distinct k)))
                  (omega (arith, h.distinct e)));
          shape = (
            bound',
            rw lower,
            rw lower,
            rw lower right',
            (
              bound,
              rw upper,
              rw upper left,
              rw upper,
              Shape-frame t.nodes t₆.nodes (some k) d hd λ e p.
                  left_spared e
                    (ne_of (λ e. count e d) e j p (omega (arith, one_self j, h.distinct j)))
                    (ne_of (λ e. count e d) e k p (omega (arith, one_self k, h.distinct k)))
                    (omega (arith, h.distinct e)) (omega (arith, h.distinct e)),
              r₆.shape,
            ),
            Shape-frame t.nodes t₆.nodes (some j) a ha λ e p.
                left_spared e
                  (ne_of (λ e. count e a) e j p (omega (arith, one_self j, h.distinct j)))
                  (ne_of (λ e. count e a) e k p (omega (arith, one_self k, h.distinct k)))
                  (omega (arith, h.distinct e)) (omega (arith, h.distinct e)),
          );
          distinct = λ e. omega (arith, h.distinct e);
        }

  -- On a node of a well-formed treap that has a right child, `leftRotate` returns a well-formed treap in
  -- which that child stands above the node, the subtree between them has changed sides, and all else,
  -- values and weights included, is as it was.
  pub left_rotate_lem :
      Focus t c (node d k (node b j a))
      → Rotated t c (node (node d k b) j a) (left_rotate (some k) t)
  unfolding left_rotate
  left_rotate_lem h =
      let (bound, up, left, right, hd, (bound', up', left', right', hb, ha)) = h.shape in
      let j≢k : j ≢ k =
        ne_of (λ e. count e (node b j a)) j k (omega (arith, one_self j))
          (omega (arith, one_self k, h.distinct k)) in
      let t₁ : Treap = record t { nodes = put_parent k (some j) t.nodes } in
      let t₂ : Treap = record t { nodes = put_left j (some k) t₁.nodes } in
      let (t₄, e₄, r₄) =
        rehang turned_left k (some j) c
          (Around-frame t.nodes turned_left.nodes t.root (some k) c h.around λ e p.
            turned_left_ne e
              (ne_of (λ e. count_ctx e c) e j p (omega (arith, one_self j, h.distinct j)))
              (ne_of (λ e. count_ctx e c) e k p (omega (arith, one_self k, h.distinct k))))
          (λ e. omega (arith, h.distinct e)) (omega (arith, one_self k, h.distinct k)) in
      let t₅ : Treap = record t₄ { nodes = put_right k (root_of b) t₄.nodes } in
      let (t₆, e₆, r₆) =
        reparent t₅ (some j) (some k) b
          (Shape-frame t.nodes t₅.nodes (some j) b hb λ e p.
            put_right_ne k (root_of b) t₄.nodes e
              (ne_of (λ e. count e b) e k p (omega (arith, one_self k, h.distinct k)))
            ∙ r₄.outside e (omega (arith, h.distinct e))
            ∙ turned_left_ne e
                (ne_of (λ e. count e b) e j p (omega (arith, one_self j, h.distinct j)))
                (ne_of (λ e. count e b) e k p (omega (arith, one_self k, h.distinct k))))
          (λ e. omega (arith, h.distinct e)) in
      (
        t₆,
        rw
            (
              node_at_lem k t bound,
              up,
              right,
              node_at_lem j t bound',
              left',
              set_parent_lem k t bound (some j),
              set_left_lem j t₁ bound' (some k),
              set_parent_lem j t₂ bound' (parent_of c),
              e₄,
              set_right_lem k t₄ bound (root_of b),
            )
            e₆,
        left_Focus h t₄ t₆ r₄ r₆ j≢k,
        left_Keeps h t₄ t₆ r₄ r₆,
      )
