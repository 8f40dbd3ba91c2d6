-- ===== src/Treap/Renaming.antt =====
-- The values of a treap in which `moveNode` gave one node another index.
use lock_free_search_tree.Base.{ℕ, ◌<◌, ◌≡◌, refl, sym, ap, ◌∙◌, arith, List, [], ◌∷◌, ◌++◌}
use mathlib.Core.List.{append_assoc}
use lock_free_search_tree.Treap.State.{Treap}
use lock_free_search_tree.Treap.Shape.{
  Tree, node, Ctx, plug, count, inorder, inorder-plug, before, after, one_self,
}
use lock_free_search_tree.Treap.MoveNode.{Renamed}
use lock_free_search_tree.Treap.Values.{vals, vals-append, occurs, occurs-append, count-inorder}

-- Values at indices where two arrays have the same.
vals_of_val :
    (t u : Treap) (xs : List ℕ)
    → ((a : ℕ) → 0 < occurs a xs → (u.nodes a).val ≡ (t.nodes a).val)
    → vals u xs ≡ vals t xs
vals_of_val t u [] same = refl
vals_of_val t u (x ∷ xs) same =
    rw (same x (omega (arith, one_self x)), vals_of_val t u xs (λ a h. same a (omega arith)))

pub node_order :
    (c : Ctx) (l : Tree) (k : ℕ) (r : Tree)
    → inorder (plug c (node l k r)) ≡ (before c ++ inorder l) ++ k ∷ (inorder r ++ after c)
node_order c l k r = simp (inorder-plug c (node l k r), append_assoc)

-- The values of a tree in which a node got another index.
module _ (t u : Treap) (c : Ctx) (l : Tree) (m : ℕ) (r : Tree) (i : ℕ) (n : Renamed t c l m r i u)
    (out : count i (plug c (node l m r)) ≡ 0) where
  ends_out :
      (xs ys : List ℕ)
      → inorder (plug c (node l m r)) ≡ xs ++ m ∷ ys
      → (occurs i xs ≡ 0) × (occurs i ys ≡ 0)
  ends_out xs ys e =
      let none_at : occurs i (xs ++ m ∷ ys) ≡ 0 =
        ap (λ z. occurs i z) (sym e) ∙ sym (count-inorder i (plug c (node l m r))) ∙ out in
      (
        omega (arith, none_at, occurs-append i xs (m ∷ ys)),
        omega (arith, none_at, occurs-append i xs (m ∷ ys)),
      )

  same_vals : (xs : List ℕ) → occurs i xs ≡ 0 → vals u xs ≡ vals t xs
  same_vals xs z = vals_of_val t u xs (λ a h. n.val a (λ e. clash a e h))
    where
      clash : (a : ℕ) → a ≡ i → 0 < occurs a xs → ⊥
      clash a e h = let p : 0 < occurs i xs = rw e at h in omega arith

  pub renamed_values :
      vals u (inorder (plug c (node l i r))) ≡ vals t (inorder (plug c (node l m r)))
  renamed_values =
      let xs = before c ++ inorder l in
      let ys = inorder r ++ after c in
      let (zx, zy) = ends_out xs ys (node_order c l m r) in
      rw (
        node_order c l i r,
        node_order c l m r,
        vals-append u xs (i ∷ ys),
        vals-append t xs (m ∷ ys),
        n.val_new,
        same_vals xs zx,
        same_vals ys zy,
      )
