-- ===== src/Treap/Focus.antt =====
-- A treap with a tree in focus, and what it is for a step to turn that tree into another.
use lock_free_search_tree.Base.{ℕ, ◌+◌, ◌≤◌, ◌≡◌, refl, ◌∙◌, arith, Outcome, ok}
use lock_free_search_tree.Treap.State.{Treap}
use lock_free_search_tree.Treap.Shape.{
  Tree, node, Ctx, in_left, in_right, plug, inorder, inorder-plug, root_of, parent_of, count,
  count_ctx, Shape, Around,
}
use lock_free_search_tree.Treap.Wiring.{Keeps, Keeps-refl, Keeps-trans}

-- The treap holds the tree `x` in the hole of `c`, with no index twice.
pub record Focus (t : Treap) (c : Ctx) (x : Tree) : Type 0 where
  pub around : Around t.nodes t.root (root_of x) c
  pub shape : Shape t.nodes (parent_of c) x
  pub distinct : (a : ℕ) → count_ctx a c + count a x ≤ 1

-- Where a rotation leads.
abbrev pub Rotated : Treap → Ctx → Tree → Outcome Treap → Type 0
Rotated t c x run = (u : Treap) × (run ≡ ok u) × Focus u c x × Keeps t u

-- A step that brings the node `i` to another place and leaves the order of the tree.
pub record Moved (t : Treap) (c : Ctx) (x : Tree) (i : ℕ) (u : Treap) : Type 0 where
  pub ctx : Ctx
  pub left : Tree
  pub right : Tree
  pub focus : Focus u ctx (node left i right)
  pub keeps : Keeps t u
  pub order : inorder (plug ctx (node left i right)) ≡ inorder (plug c x)

module _ {t : Treap} {c : Ctx} {x : Tree} {k : ℕ} {s : Tree} where
  pub zoom_out_left : Focus t (in_left k s c) x → Focus t c (node x k s)
  zoom_out_left h =
      let (bound, up, left, right, hs, hc) = h.around in
      record {
        around = hc;
        shape = (bound, up, left, right, h.shape, hs);
        distinct = λ a. omega (arith, h.distinct a);
      }

  pub zoom_out_right : Focus t (in_right s k c) x → Focus t c (node s k x)
  zoom_out_right h =
      let (bound, up, left, right, hs, hc) = h.around in
      record {
        around = hc;
        shape = (bound, up, left, right, hs, h.shape);
        distinct = λ a. omega (arith, h.distinct a);
      }

  pub zoom_in_left : Focus t c (node x k s) → Focus t (in_left k s c) x
  zoom_in_left h =
      let (bound, up, left, right, hx, hs) = h.shape in
      record {
        around = (bound, up, left, right, hs, h.around);
        shape = hx;
        distinct = λ a. omega (arith, h.distinct a);
      }

  pub zoom_in_right : Focus t c (node s k x) → Focus t (in_right s k c) x
  zoom_in_right h =
      let (bound, up, left, right, hs, hx) = h.shape in
      record {
        around = (bound, up, left, right, hs, h.around);
        shape = hx;
        distinct = λ a. omega (arith, h.distinct a);
      }

-- A tree with another order in the same hole.
pub inorder-plug_eq :
    (c : Ctx) (x y : Tree) → inorder x ≡ inorder y → inorder (plug c x) ≡ inorder (plug c y)
inorder-plug_eq c x y e = rw (inorder-plug c x, inorder-plug c y, e)

unfoldable pub Moved-refl :
    (t : Treap) (c : Ctx) (l : Tree) (i : ℕ) (r : Tree)
    → Focus t c (node l i r)
    → Moved t c (node l i r) i t
Moved-refl t c l i r h = record {
  ctx = c;
  left = l;
  right = r;
  focus = h;
  keeps = Keeps-refl t;
  order = refl;
}

-- A move after a step that keeps the values and the order.
unfoldable pub Moved-after :
    (t u v : Treap) (c d : Ctx) (x y : Tree) (i : ℕ)
    → Keeps t u
    → inorder (plug d y) ≡ inorder (plug c x)
    → Moved u d y i v
    → Moved t c x i v
Moved-after t u v c d x y i k e m = record {
  ctx = m.ctx;
  left = m.left;
  right = m.right;
  focus = m.focus;
  keeps = Keeps-trans t u v k m.keeps;
  order = m.order ∙ e;
}
