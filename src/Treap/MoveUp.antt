-- ===== src/Treap/MoveUp.antt =====
-- `moveUp`: it ends, and leaves the order of the tree as it was.
use lock_free_search_tree.Base.{
  leb_ℤ→≤ℤ, ℕ, zero, suc, ◌≤◌, ◌<◌, ◌≡◌, refl, sym, ◌∙◌, inl, inr, true, false, none, some, arith,
  Bool-cases, leb_ℤ, ◌≤ℤ◌, Outcome, ok, List, ◌∷◌, ◌++◌, ℤ,
}
use mathlib.Core.List.{append_assoc}
use lock_free_search_tree.Treap.State.{same_index, Treap}
use lock_free_search_tree.Treap.Moves.{rotate_up, stays, move_up_loop}
use lock_free_search_tree.Treap.Shape.{
  Tree, leaf, node, Ctx, top, in_left, in_right, plug, root_of, count, inorder, one_self,
  apart_self,
}
use lock_free_search_tree.Treap.Wiring.{node_at_lem, eq_self, eq_ne}
use lock_free_search_tree.Treap.Focus.{
  Focus, Rotated, Moved, Moved-refl, Moved-after, zoom_out_left, zoom_out_right, inorder-plug_eq,
}
use lock_free_search_tree.Treap.Heap.{IsHeap, Below, Rising, plug-IsHeap, rise_left, rise_right}
use lock_free_search_tree.Treap.RotateRight.{right_rotate_lem}
use lock_free_search_tree.Treap.RotateLeft.{left_rotate_lem}

abbrev pub depth : Ctx → ℕ
depth top = 0
depth (in_left k r c) = suc (depth c)
depth (in_right l k c) = suc (depth c)

-- The node at `i` has no parent that is heavier.
abbrev pub NotLighter : Treap → ℕ → Ctx → Type 0
NotLighter t i top = Unit
NotLighter t i (in_left k r c) = (t.nodes k).weight ≤ℤ (t.nodes i).weight
NotLighter t i (in_right l k c) = (t.nodes k).weight ≤ℤ (t.nodes i).weight

not_child' : (i : ℕ) (x : Tree) → count i x ≡ 0 → same_index (some i) (root_of x) ≡ false
not_child' i leaf h = refl
not_child' i (node l k r) h = eq_ne i k (apart_self i k _ _ h)

rotate_up_left :
    (t : Treap) (c : Ctx) (l : Tree) (i : ℕ) (r : Tree) (k : ℕ) (s : Tree)
    → Focus t (in_left k s c) (node l i r)
    → Rotated t c (node l i (node r k s)) (rotate_up (some i) (some k) t)
unfolding rotate_up
rotate_up_left t c l i r k s h =
    let (bound, up, left, right, hs, hc) = h.around in
    let test : same_index (some i) (t.nodes k).left ≡ true = rw (left, eq_self i) in
    rw (node_at_lem k t bound, test) (right_rotate_lem t c l i r k s (zoom_out_left h))

rotate_up_right :
    (t : Treap) (c : Ctx) (l : Tree) (i : ℕ) (r : Tree) (k : ℕ) (s : Tree)
    → Focus t (in_right s k c) (node l i r)
    → Rotated t c (node (node s k l) i r) (rotate_up (some i) (some k) t)
unfolding rotate_up
rotate_up_right t c l i r k s h =
    let (bound, up, left, right, hs, hc) = h.around in
    let test : same_index (some i) (t.nodes k).left ≡ false =
      rw left (not_child' i s (omega (arith, one_self i, h.distinct i))) in
    rw (node_at_lem k t bound, test) (left_rotate_lem t c s k l i r (zoom_out_right h))

stays_lem :
    (t : Treap) (i k : ℕ) (h : i ≤ 64) (j : k ≤ 64)
    → stays (some i) (some k) t ≡ ok (leb_ℤ (t.nodes k).weight (t.nodes i).weight)
unfolding stays
stays_lem t i k h j = rw (node_at_lem i t h, node_at_lem k t j)

-- Where `moveUp` leads: the node is at the root or not lighter than its parent.
abbrev pub Raised : Treap → Ctx → Tree → ℕ → Outcome Treap → Type 0
Raised t c x i run = (u : Treap) × (run ≡ ok u) × (m : Moved t c x i u) × NotLighter u i m.ctx

-- The same, with the order of the weights: it is restored where the node alone was too light.
abbrev pub RaisedHeap : Treap → Ctx → Tree → Tree → ℕ → Outcome Treap → Type 0
RaisedHeap t c l r i run =
    (u : Treap) × (run ≡ ok u)
    × (m : Moved t c (node l i r) i u) × NotLighter u i m.ctx
    × ((w : ℕ → ℤ)
        → ((a : ℕ) → (t.nodes a).weight ≡ w a)
        → Rising w c l r
        → IsHeap w (node l i r)
        → IsHeap w (plug m.ctx (node m.left i m.right)))

NotLighter-Below :
    (t : Treap) (w : ℕ → ℤ) (c : Ctx) (l : Tree) (i : ℕ) (r : Tree)
    → ((a : ℕ) → (t.nodes a).weight ≡ w a)
    → NotLighter t i c
    → Below w c (node l i r)
NotLighter-Below t w top l i r e h = tt
NotLighter-Below t w (in_left k s c) l i r e h = rw (e k, e i) at h
NotLighter-Below t w (in_right s k c) l i r e h = rw (e k, e i) at h

settled-IsHeap :
    (t : Treap) (c : Ctx) (l : Tree) (i : ℕ) (r : Tree)
    → NotLighter t i c
    → (w : ℕ → ℤ) → ((a : ℕ) → (t.nodes a).weight ≡ w a)
    → Rising w c l r
    → IsHeap w (node l i r)
    → IsHeap w (plug c (node l i r))
settled-IsHeap t c l i r settled w e rising h =
    plug-IsHeap w c (node l i r) rising.0 h (NotLighter-Below t w c l i r e settled)

le_of_not : (a b : ℤ) → leb_ℤ a b ≡ false → b ≤ℤ a
le_of_not a b h = ground arith

-- A node that goes up is not heavier than its parent.
lighter :
    (t : Treap) (w : ℕ → ℤ) (i k : ℕ)
    → ((a : ℕ) → (t.nodes a).weight ≡ w a)
    → leb_ℤ (t.nodes k).weight (t.nodes i).weight ≡ false
    → w i ≤ℤ w k
lighter t w i k same e =
    rw (sym (same i), sym (same k)) (le_of_not (t.nodes k).weight (t.nodes i).weight e)

move_up_at_root :
    (f : ℕ) (t : Treap) (i : ℕ)
    → i ≤ 64
    → (t.nodes i).parent ≡ none
    → move_up_loop (suc f) (some i) t ≡ ok t
unfolding move_up_loop stays
move_up_at_root f t i h up = rw (node_at_lem i t h, up)

module _ (f : ℕ) (t : Treap) (i k : ℕ) (h : i ≤ 64) (j : k ≤ 64)
    (up : (t.nodes i).parent ≡ some k) where
  move_up_stops :
      leb_ℤ (t.nodes k).weight (t.nodes i).weight ≡ true → move_up_loop (suc f) (some i) t ≡ ok t
  unfolding move_up_loop
  move_up_stops e = rw (node_at_lem i t h, up, stays_lem t i k h j, e)

  move_up_turns :
      (u : Treap)
      → leb_ℤ (t.nodes k).weight (t.nodes i).weight ≡ false
      → rotate_up (some i) (some k) t ≡ ok u
      → move_up_loop (suc f) (some i) t ≡ move_up_loop f (some i) u
  unfolding move_up_loop
  move_up_turns u e r = rw (node_at_lem i t h, up, stays_lem t i k h j, e, up, r)

regroup :
    (x : List ℕ) (i : ℕ) (y : List ℕ) (k : ℕ) (z : List ℕ)
    → x ++ i ∷ (y ++ k ∷ z) ≡ (x ++ i ∷ y) ++ k ∷ z
regroup x i y k z = simp append_assoc

pub move_up_loop_lem :
    (f : ℕ) (t : Treap) (c : Ctx) (l : Tree) (i : ℕ) (r : Tree)
    → Focus t c (node l i r)
    → depth c < f
    → RaisedHeap t c l r i (move_up_loop f (some i) t)
unfolding Moved-refl Moved-after
move_up_loop_lem zero t c l i r h fuel = absurd (omega arith)
move_up_loop_lem (suc f) t top l i r h fuel = (
  t,
  move_up_at_root f t i h.shape.0 h.shape.1,
  Moved-refl t top l i r h,
  tt,
  settled-IsHeap t top l i r tt,
)
move_up_loop_lem (suc f) t (in_left k s c) l i r h fuel =
    let (bound, up, _, _, _, _) = h.around in
    elim (Bool-cases (leb_ℤ (t.nodes k).weight (t.nodes i).weight)) [
      | inl e ↦ (
        t,
        move_up_stops f t i k h.shape.0 bound h.shape.1 e,
        Moved-refl t (in_left k s c) l i r h,
        leb_ℤ→≤ℤ (t.nodes k).weight (t.nodes i).weight e,
        settled-IsHeap t (in_left k s c) l i r (leb_ℤ→≤ℤ (t.nodes k).weight (t.nodes i).weight e),
      )
      | inr e ↦
          let (u, run, focus, keeps) = rotate_up_left t c l i r k s h in
          let (v, rest, m, settled, ordered) =
            move_up_loop_lem f u c l i (node r k s) focus (omega arith) in
          (
            v,
            move_up_turns f t i k h.shape.0 bound h.shape.1 u e run ∙ rest,
            Moved-after t u v (in_left k s c) c (node l i r) (node l i (node r k s)) i keeps
                (inorder-plug_eq c (node l i (node r k s)) (node (node l i r) k s)
                  (regroup (inorder l) i (inorder r) k (inorder s)))
                m,
            settled,
            λ w same rising heap.
                let (rising', heap') =
                  rise_left w c l i r k s rising heap (lighter t w i k same e) in
                ordered w (λ a. keeps.weight a ∙ same a) rising' heap',
          )
    ]
move_up_loop_lem (suc f) t (in_right s k c) l i r h fuel =
    let (bound, up, _, _, _, _) = h.around in
    elim (Bool-cases (leb_ℤ (t.nodes k).weight (t.nodes i).weight)) [
      | inl e ↦ (
        t,
        move_up_stops f t i k h.shape.0 bound h.shape.1 e,
        Moved-refl t (in_right s k c) l i r h,
        leb_ℤ→≤ℤ (t.nodes k).weight (t.nodes i).weight e,
        settled-IsHeap t (in_right s k c) l i r (leb_ℤ→≤ℤ (t.nodes k).weight (t.nodes i).weight e),
      )
      | inr e ↦
          let (u, run, focus, keeps) = rotate_up_right t c l i r k s h in
          let (v, rest, m, settled, ordered) =
            move_up_loop_lem f u c (node s k l) i r focus (omega arith) in
          (
            v,
            move_up_turns f t i k h.shape.0 bound h.shape.1 u e run ∙ rest,
            Moved-after t u v (in_right s k c) c (node l i r) (node (node s k l) i r) i keeps
                (inorder-plug_eq c (node (node s k l) i r) (node s k (node l i r))
                  (sym (regroup (inorder s) k (inorder l) i (inorder r))))
                m,
            settled,
            λ w same rising heap.
                let (rising', heap') =
                  rise_right w c l i r k s rising heap (lighter t w i k same e) in
                ordered w (λ a. keeps.weight a ∙ same a) rising' heap',
          )
    ]
