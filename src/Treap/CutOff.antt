-- ===== src/Treap/CutOff.antt =====
-- The first steps of `remove`: a node sinks to a leaf and is cut off.
use lock_free_search_tree.Base.{
  ℕ, ◌+◌, ◌≤◌, ◌<◌, ◌≡◌, refl, sym, ap, ◌∙◌, true, none, some, arith, eqb_ℤ, ℤ, Outcome, ok, ◌∷◌,
  ◌++◌,
}
use mathlib.Core.List.{append_assoc}
use lock_free_search_tree.Base.Sorted.{
  IsSorted, remove_first, remove_first-mid, IsSorted-remove_mid,
}
use lock_free_search_tree.Treap.State.{control_node, Treap, replace_child}
use lock_free_search_tree.Treap.Moves.{rounds, move_down}
use lock_free_search_tree.Treap.Ops.{cut_off}
use lock_free_search_tree.Treap.Shape.{
  Tree, leaf, node, Ctx, plug, root_of, one, count, count-plug, inorder, inorder-plug, before,
  after, Shape, close, reopen, one_self,
}
use lock_free_search_tree.Treap.Wiring.{node_at_lem, Keeps-trans, Rehung, rehang}
use lock_free_search_tree.Treap.Focus.{Focus}
use lock_free_search_tree.Treap.Heap.{
  weight_of, IsHeap, IsHeapCtx, IsHeap-same, plug-IsHeap, Below-leaf, open-Sinking,
}
use lock_free_search_tree.Treap.MoveDown.{Sunk, move_down_loop_lem}
use lock_free_search_tree.Treap.MoveNode.{Found, find_index}
use lock_free_search_tree.Treap.Place.{Focus-depth, leaf_order}
use lock_free_search_tree.Treap.Values.{vals, vals-append, vals-Keeps, count_of_inorder}
use lock_free_search_tree.Treap.Model.{below-le, IsTreap}

-- The tree `y` in the array, with the indices that are not `i`.
pub record Cut (t : Treap) (x : Tree) (i : ℕ) (u : Treap) (y : Tree) : Type 0 where
  pub shape : Shape u.nodes none y
  pub root : u.root ≡ root_of y
  pub counts : (a : ℕ) → count a y + one a i ≡ count a x
  pub size : u.size ≡ t.size
  pub weight : (a : ℕ) → (u.nodes a).weight ≡ (t.nodes a).weight

pub gap_order : (c : Ctx) (i : ℕ) → inorder (plug c (node leaf i leaf)) ≡ before c ++ i ∷ after c
gap_order c i = simp (inorder-plug c (node leaf i leaf), append_assoc)

eqb_self : (v : ℤ) → eqb_ℤ v v ≡ true
eqb_self v = ground arith

module _ (t : Treap) (x : Tree) (i : ℕ) (is : IsTreap t x) (here : 0 < count i x) where
  Focus-at : (f : Found i x) → Focus t f.ctx (node f.left i f.right)
  Focus-at f =
      let (around, shape) =
        reopen t.nodes t.root f.ctx (node f.left i f.right) (rw f.same is.shape)
          (rw f.same is.root) in
      record {
        around = around;
        shape = shape;
        distinct = λ a. omega (
          arith,
          count-plug a f.ctx (node f.left i f.right),
          ap (λ z. count a z) f.same,
          is.exact a,
          below-le a t.size,
        );
      }

  -- What the values are once the node is cut off.
  abbrev pub CutOff : Outcome Treap → Type 0
  CutOff run =
      (u : Treap) × (y : Tree) × (run ≡ ok u)
      × Cut t x i u y
      × IsSorted (vals u (inorder y))
      × (vals u (inorder y) ≡ remove_first (t.nodes i).val (vals t (inorder x)))
      × (IsHeap (weight_of t) x → IsHeap (weight_of u) y)

  module _ (f : Found i x) (u v : Treap) (k : Sunk t f.ctx (node f.left i f.right) i u)
      (r : Rehung u none k.ctx v) where
    cut_order : inorder x ≡ before k.ctx ++ i ∷ after k.ctx
    cut_order = sym (ap inorder f.same) ∙ sym k.order ∙ gap_order k.ctx i

    cut_values :
        vals t (inorder x) ≡ vals t (before k.ctx) ++ (t.nodes i).val ∷ vals t (after k.ctx)
    cut_values = ap (vals t) cut_order ∙ vals-append t (before k.ctx) (i ∷ after k.ctx)

    left_values : vals v (inorder (plug k.ctx leaf)) ≡ vals t (before k.ctx) ++ vals t (after k.ctx)
    left_values =
        vals-Keeps t v (inorder (plug k.ctx leaf)) (Keeps-trans t u v k.keeps r.keeps)
        ∙ ap (vals t) (sym (leaf_order k.ctx))
        ∙ vals-append t (before k.ctx) (after k.ctx)

    cut : Cut t x i v (plug k.ctx leaf)
    cut =
        let (shape, root) = close v.nodes v.root k.ctx leaf r.around tt in
        record {
          shape = shape;
          root = root;
          counts = λ a. omega (
            arith,
            count-plug a k.ctx leaf,
            count-plug a k.ctx (node leaf i leaf),
            count_of_inorder a (plug k.ctx (node leaf i leaf)) (plug f.ctx (node f.left i f.right))
                k.order,
            ap (λ z. count a z) f.same,
          );
          size = r.keeps.size ∙ k.keeps.size;
          weight = λ a. r.keeps.weight a ∙ k.keeps.weight a;
        }

    cut-IsHeap :
        (IsHeap (weight_of t) x → IsHeapCtx (weight_of t) k.ctx)
        → IsHeap (weight_of t) x
        → IsHeap (weight_of v) (plug k.ctx leaf)
    cut-IsHeap ordered h =
        let w = weight_of t in
        IsHeap-same w (weight_of v) (plug k.ctx leaf) (λ a _. r.keeps.weight a ∙ k.keeps.weight a)
          (plug-IsHeap w k.ctx leaf (ordered h) tt (Below-leaf w k.ctx))

    cut-IsSorted : IsSorted (vals v (inorder (plug k.ctx leaf)))
    cut-IsSorted = rw left_values (
        IsSorted-remove_mid (vals t (before k.ctx)) (t.nodes i).val (vals t (after k.ctx))
          (rw cut_values at is.sorted))

    cut-remove_first :
        vals v (inorder (plug k.ctx leaf)) ≡ remove_first (t.nodes i).val (vals t (inorder x))
    cut-remove_first =
        left_values
        ∙ sym (
            remove_first-mid (t.nodes i).val (vals t (before k.ctx)) (t.nodes i).val
              (vals t (after k.ctx)) (eqb_self (t.nodes i).val) (rw cut_values at is.sorted))
        ∙ ap (remove_first (t.nodes i).val) (sym cut_values)

  cut_off_run :
      (u v : Treap)
      → i ≤ control_node
      → move_down (some i) t ≡ ok u
      → replace_child (u.nodes i).parent (some i) none u ≡ ok v
      → cut_off i t ≡ ok v
  unfolding cut_off
  cut_off_run u v bound e e' = rw (e, node_at_lem i u bound) e'

  pub cut_off_lem : CutOff (cut_off i t)
  unfolding move_down
  cut_off_lem =
      let f = find_index i x here in
      let h = Focus-at f in
      let (t₁, e₁, s, ordered) =
        move_down_loop_lem rounds t f.ctx f.left i f.right h (omega (arith, Focus-depth h)) in
      let (t₂, e₂, r) =
        rehang t₁ i none s.ctx s.focus.around (λ a. omega (arith, s.focus.distinct a))
          (omega (arith, one_self i, s.focus.distinct i)) in
      (
        t₂,
        plug s.ctx leaf,
        cut_off_run t₁ t₂ s.focus.shape.0 e₁
            (ap (λ o. replace_child o (some i) none t₁) s.focus.shape.1 ∙ e₂),
        cut f t₁ t₂ s r,
        cut-IsSorted f t₁ t₂ s r,
        cut-remove_first f t₁ t₂ s r,
        cut-IsHeap f t₁ t₂ s r (λ w.
            ordered (weight_of t) (λ a. refl)
              (open-Sinking (weight_of t) f.ctx f.left i f.right (rw f.same w))),
      )
