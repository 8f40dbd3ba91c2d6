-- ===== src/Treap/Place.antt =====
-- `bstInsert` and `moveUp` together: a new node is put where its value belongs, and raised.
use lock_free_search_tree.Base.{
  ℕ, ◌+◌, ◌≤◌, ◌≡◌, sym, ap, ◌∙◌, none, some, arith, ℤ, Outcome, ok, ◌>>=◌, ◌++◌,
}
use mathlib.Core.List.{append-nil, append_assoc}
use lock_free_search_tree.Base.Sorted.{insert_sorted, insert_sorted-append}
use lock_free_search_tree.Treap.State.{Treap}
use lock_free_search_tree.Treap.Moves.{rounds, bst_insert, bst_insert_loop, move_up}
use lock_free_search_tree.Treap.Shape.{
  Tree, leaf, node, Ctx, top, in_left, in_right, plug, root_of, one, count, count-plug, close,
  inorder, inorder-plug, before, after, Shape,
}
use lock_free_search_tree.Treap.Wiring.{Keeps, Keeps-trans}
use lock_free_search_tree.Treap.Focus.{Focus}
use lock_free_search_tree.Treap.Heap.{IsHeap, open-IsHeap}
use lock_free_search_tree.Treap.MoveUp.{depth, NotLighter, move_up_loop_lem}
use lock_free_search_tree.Treap.Values.{
  vals, vals-append, vals-Keeps, size, size-le, count_of_inorder,
}
use lock_free_search_tree.Treap.Hang.{Fits}
use lock_free_search_tree.Treap.BstInsert.{Ready, bst_insert_loop_lem}

pub depth-le : (c : Ctx) (x : Tree) → depth c + size x ≤ size (plug c x)
depth-le top x = omega arith
depth-le (in_left k r c) x = omega (arith, depth-le c (node x k r))
depth-le (in_right l k c) x = omega (arith, depth-le c (node l k x))

pub Focus-depth : {t : Treap} {c : Ctx} {x : Tree} → Focus t c x → depth c + size x ≤ 65
Focus-depth {t} {c} {x} h = omega (
  arith,
  depth-le c x,
  size-le t.nodes none (plug c x) (close t.nodes t.root c x h.around h.shape).0
      (λ a. omega (arith, count-plug a c x, h.distinct a)),
)

pub leaf_order : (c : Ctx) → before c ++ after c ≡ inorder (plug c leaf)
leaf_order c = simp (inorder-plug c leaf, append-nil)

-- The node `i` stands at `place`, and in the order of the tree `x` it stands in the gap.
pub record Placed (t : Treap) (x : Tree) (i : ℕ) (u : Treap) : Type 0 where
  pub gap : Ctx
  pub same : plug gap leaf ≡ x
  pub fits : Fits t (t.nodes i).val gap
  pub place : Ctx
  pub left : Tree
  pub right : Tree
  pub focus : Focus u place (node left i right)
  pub order : inorder (plug place (node left i right)) ≡ inorder (plug gap (node leaf i leaf))
  pub settled : NotLighter u i place
  pub keeps : Keeps t u
  pub heap :
      (w : ℕ → ℤ)
      → ((a : ℕ) → (t.nodes a).weight ≡ w a)
      → IsHeap w x
      → IsHeap w (plug place (node left i right))

pub place :
    (t : Treap) (l : Tree) (s : ℕ) (r : Tree) (i : ℕ)
    → Ready t top (node l s r) i
    → (u : Treap) × ((bst_insert (some i) t >>= move_up (some i)) ≡ ok u)
      × Placed t (node l s r) i u
unfolding bst_insert move_up
place t l s r i h =
    let (u, run, hung) =
      bst_insert_loop_lem rounds t top l s r i h (omega (arith, Focus-depth h.focus)) in
    let (v, run', m, settled, ordered) =
      move_up_loop_lem rounds u hung.ctx leaf i leaf hung.focus
        (omega (arith, Focus-depth hung.focus)) in
    (
      v,
      ap (λ (m : Outcome Treap). m >>= move_up (some i))
            (ap (λ o. bst_insert_loop rounds o (some i) t) h.focus.around ∙ run)
          ∙ run',
      record {
        gap = hung.ctx;
        same = hung.same;
        fits = hung.fits;
        place = m.ctx;
        left = m.left;
        right = m.right;
        focus = m.focus;
        order = m.order;
        settled = settled;
        keeps = Keeps-trans t u v hung.keeps m.keeps;
        heap = λ w same whole.
            let (around, _, below) = open-IsHeap w hung.ctx leaf (rw hung.same whole) in
            ordered w (λ a. hung.keeps.weight a ∙ same a) (around, below, below) (tt, tt, tt, tt);
      },
    )

module _ (t : Treap) (x : Tree) (i : ℕ) (u : Treap) (p : Placed t x i u) where
  unfoldable pub grown : Tree
  grown = plug p.place (node p.left i p.right)

  -- The indices of the tree are those of before, and the new one.
  pub count-grown : (a : ℕ) → count a grown ≡ count a x + one a i
  unfolding grown
  count-grown a =
      count_of_inorder a grown (plug p.gap (node leaf i leaf)) p.order
      ∙ omega (
        arith,
        count-plug a p.gap (node leaf i leaf),
        count-plug a p.gap leaf,
        ap (λ y. count a y) p.same,
      )

  -- The values are those of before, with the new one inserted.
  pub vals-grown : vals u (inorder grown) ≡ insert_sorted (t.nodes i).val (vals t (inorder x))
  unfolding grown
  vals-grown =
      vals-Keeps t u (inorder grown) p.keeps
      ∙ ap (vals t) p.order
      ∙ ap (vals t) (inorder-plug p.gap (node leaf i leaf))
      ∙ (simp (append_assoc, vals-append))
      ∙ sym (
          insert_sorted-append (t.nodes i).val (vals t (before p.gap)) (vals t (after p.gap))
            p.fits.low p.fits.high)
      ∙ ap (insert_sorted (t.nodes i).val) (
          sym (vals-append t (before p.gap) (after p.gap))
          ∙ ap (vals t) (leaf_order p.gap ∙ ap inorder p.same))

  pub grown-IsHeap :
      (w : ℕ → ℤ) → ((a : ℕ) → (t.nodes a).weight ≡ w a) → IsHeap w x → IsHeap w grown
  unfolding grown
  grown-IsHeap = p.heap

  pub grown_held : Shape u.nodes none grown × (u.root ≡ root_of grown)
  unfolding grown
  grown_held = close u.nodes u.root p.place (node p.left i p.right) p.focus.around p.focus.shape
