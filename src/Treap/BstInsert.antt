-- ===== src/Treap/BstInsert.antt =====
-- `bstInsert`: it ends, and hangs the new node where its value belongs.
use lock_free_search_tree.Base.{
  ℕ, zero, suc, ◌≤◌, ◌≡◌, inl, inr, true, false, none, some, arith, Bool-cases, ltb_ℤ, ℤ, ◌≤ℤ◌,
  ◌<ℤ◌, Outcome, ◌>>=◌, [], ◌∷◌, ◌++◌, All,
}
use lock_free_search_tree.Base.Sorted.{IsSorted, IsSorted-split, All-append, All-imp}
use lock_free_search_tree.Treap.State.{
  control_node, TreapIndex, Treap, set_left, set_right, set_parent,
}
use lock_free_search_tree.Treap.Moves.{bst_insert_loop}
use lock_free_search_tree.Treap.Shape.{
  Tree, leaf, node, Ctx, in_left, in_right, root_of, inorder, before, after,
}
use lock_free_search_tree.Treap.Wiring.{node_at_lem}
use lock_free_search_tree.Treap.Focus.{Focus, zoom_in_left, zoom_in_right}
use lock_free_search_tree.Treap.Values.{vals, size, vals-append, vals-node}
use lock_free_search_tree.Treap.Hang.{IsFresh, Fits, Hung, Hangs, hang_left, hang_right}

-- What `bstInsert` needs at a node: a focus, a new node, sorted values, and the right place.
pub record Ready (t : Treap) (c : Ctx) (x : Tree) (i : ℕ) : Type 0 where
  pub focus : Focus t c x
  pub fresh : IsFresh t c x i
  pub sorted : IsSorted (vals t (inorder x))
  pub fits : Fits t (t.nodes i).val c

-- The rest of a round, when the child's index is known.
abbrev go_left : ℕ → ℕ → ℕ → TreapIndex → Treap → Outcome Treap
go_left f s i none t = set_left (some s) (some i) t >>= set_parent (some i) (some s)
go_left f s i (some j) t = bst_insert_loop f (some j) (some i) t

abbrev go_right : ℕ → ℕ → ℕ → TreapIndex → Treap → Outcome Treap
go_right f s i none t = set_right (some s) (some i) t >>= set_parent (some i) (some s)
go_right f s i (some j) t = bst_insert_loop f (some j) (some i) t

-- The loop serves every subtree for which the fuel `f` is enough.
abbrev pub Serves : ℕ → Type 0
Serves f =
    (t : Treap) (c : Ctx) (l : Tree) (s : ℕ) (r : Tree) (i : ℕ)
    → Ready t c (node l s r) i
    → size (node l s r) ≤ f
    → Hangs t c (node l s r) i (bst_insert_loop f (some s) (some i) t)

lt_of_test : (a b : ℤ) → ltb_ℤ a b ≡ true → a <ℤ b
lt_of_test a b h = ground arith

ge_of_test : (a b : ℤ) → ltb_ℤ a b ≡ false → b ≤ℤ a
ge_of_test a b h = ground arith

module _ (t : Treap) (c : Ctx) (l : Tree) (s : ℕ) (r : Tree) (i : ℕ)
    (h : Ready t c (node l s r) i) where
  split-IsSorted :
      IsSorted (vals t (inorder l))
      × IsSorted (vals t (inorder r))
      × All (λ x. x ≤ℤ (t.nodes s).val) (vals t (inorder l))
      × All (λ z. (t.nodes s).val ≤ℤ z) (vals t (inorder r))
  split-IsSorted =
      IsSorted-split (vals t (inorder l)) (t.nodes s).val (vals t (inorder r))
        (rw (vals-node t l s r) at h.sorted)

  -- The hole left of `s`, for a smaller value.
  left-Ready : ltb_ℤ (t.nodes i).val (t.nodes s).val ≡ true → Ready t (in_left s r c) l i
  left-Ready e =
      let (sl, sr, below, above) = split-IsSorted in
      let less : (t.nodes i).val <ℤ (t.nodes s).val =
        lt_of_test (t.nodes i).val (t.nodes s).val e in
      record {
        focus = zoom_in_left h.focus;
        fresh = record {
          bound = h.fresh.bound;
          left = h.fresh.left;
          right = h.fresh.right;
          out_ctx = omega (arith, h.fresh.out, h.fresh.out_ctx);
          out = omega (arith, h.fresh.out);
        };
        sorted = sl;
        fits = record {
          low = h.fits.low;
          high = (
            less,
            rw (vals-append t (inorder r) (after c)) (
                All-append (λ x. (t.nodes i).val <ℤ x) (vals t (inorder r)) (vals t (after c))
                  (All-imp (λ z. (t.nodes s).val ≤ℤ z) (λ x. (t.nodes i).val <ℤ x)
                    (vals t (inorder r)) (λ z k. omega (arith, less)) above)
                  h.fits.high),
          );
        };
      }

  -- The hole right of `s`, for a value that is not smaller.
  right-Ready : ltb_ℤ (t.nodes i).val (t.nodes s).val ≡ false → Ready t (in_right l s c) r i
  right-Ready e =
      let (sl, sr, below, above) = split-IsSorted in
      let more : (t.nodes s).val ≤ℤ (t.nodes i).val =
        ge_of_test (t.nodes i).val (t.nodes s).val e in
      record {
        focus = zoom_in_right h.focus;
        fresh = record {
          bound = h.fresh.bound;
          left = h.fresh.left;
          right = h.fresh.right;
          out_ctx = omega (arith, h.fresh.out, h.fresh.out_ctx);
          out = omega (arith, h.fresh.out);
        };
        sorted = sr;
        fits = record {
          low =
              rw
                (
                  vals-append t (before c ++ inorder l) (s ∷ []),
                  vals-append t (before c) (inorder l),
                )
                (All-append (λ x. x ≤ℤ (t.nodes i).val) (vals t (before c) ++ vals t (inorder l))
                  ((t.nodes s).val ∷ [])
                  (All-append (λ x. x ≤ℤ (t.nodes i).val) (vals t (before c)) (vals t (inorder l))
                    h.fits.low
                    (All-imp (λ x. x ≤ℤ (t.nodes s).val) (λ x. x ≤ℤ (t.nodes i).val)
                      (vals t (inorder l)) (λ z k. omega (arith, more)) below))
                  (more, tt));
          high = h.fits.high;
        };
      }

Hung-left :
    (t : Treap) (c : Ctx) (x : Tree) (s : ℕ) (r : Tree) (i : ℕ) (u : Treap)
    → Hung t (in_left s r c) x i u
    → Hung t c (node x s r) i u
Hung-left t c x s r i u h = record {
  ctx = h.ctx;
  focus = h.focus;
  same = h.same;
  fits = h.fits;
  keeps = h.keeps;
}

Hung-right :
    (t : Treap) (c : Ctx) (x : Tree) (s : ℕ) (l : Tree) (i : ℕ) (u : Treap)
    → Hung t (in_right l s c) x i u
    → Hung t c (node l s x) i u
Hung-right t c x s l i u h = record {
  ctx = h.ctx;
  focus = h.focus;
  same = h.same;
  fits = h.fits;
  keeps = h.keeps;
}

go_left_lem :
    (f : ℕ) (t : Treap) (c : Ctx) (l : Tree) (s : ℕ) (r : Tree) (i : ℕ)
    → Serves f
    → Ready t c (node l s r) i
    → ltb_ℤ (t.nodes i).val (t.nodes s).val ≡ true
    → size (node l s r) ≤ suc f
    → Hangs t c (node l s r) i (go_left f s i (root_of l) t)
go_left_lem f t c leaf s r i serves h e fuel =
    hang_left t c s r i h.focus h.fresh (left-Ready t c leaf s r i h e).fits
go_left_lem f t c (node l' j r') s r i serves h e fuel =
    let (u, run, hung) =
      serves t (in_left s r c) l' j r' i (left-Ready t c (node l' j r') s r i h e) (omega arith) in
    (u, run, Hung-left t c (node l' j r') s r i u hung)

go_right_lem :
    (f : ℕ) (t : Treap) (c : Ctx) (l : Tree) (s : ℕ) (r : Tree) (i : ℕ)
    → Serves f
    → Ready t c (node l s r) i
    → ltb_ℤ (t.nodes i).val (t.nodes s).val ≡ false
    → size (node l s r) ≤ suc f
    → Hangs t c (node l s r) i (go_right f s i (root_of r) t)
go_right_lem f t c l s leaf i serves h e fuel =
    hang_right t c s l i h.focus h.fresh (right-Ready t c l s leaf i h e).fits
go_right_lem f t c l s (node l' j r') i serves h e fuel =
    let (u, run, hung) =
      serves t (in_right l s c) l' j r' i (right-Ready t c l s (node l' j r') i h e)
        (omega arith) in
    (u, run, Hung-right t c (node l' j r') s l i u hung)

module _ (f : ℕ) (t : Treap) (s i : ℕ) (h : s ≤ control_node) (k : i ≤ control_node) where
  round_left :
      (o : TreapIndex)
      → (t.nodes s).left ≡ o
      → ltb_ℤ (t.nodes i).val (t.nodes s).val ≡ true
      → bst_insert_loop (suc f) (some s) (some i) t ≡ go_left f s i o t
  unfolding bst_insert_loop
  round_left none e b = ground (arith, node_at_lem s t h, node_at_lem i t k)
  round_left (some j) e b = ground (arith, node_at_lem s t h, node_at_lem i t k)

  round_right :
      (o : TreapIndex)
      → (t.nodes s).right ≡ o
      → ltb_ℤ (t.nodes i).val (t.nodes s).val ≡ false
      → bst_insert_loop (suc f) (some s) (some i) t ≡ go_right f s i o t
  unfolding bst_insert_loop
  round_right none e b = ground (arith, node_at_lem s t h, node_at_lem i t k)
  round_right (some j) e b = ground (arith, node_at_lem s t h, node_at_lem i t k)

pub bst_insert_loop_lem : (f : ℕ) → Serves f
bst_insert_loop_lem zero t c l s r i h fuel = absurd (omega arith)
bst_insert_loop_lem (suc f) t c l s r i h fuel =
    let (bound, up, left, right, _, _) = h.focus.shape in
    elim (Bool-cases (ltb_ℤ (t.nodes i).val (t.nodes s).val)) [
      | inl e ↦
          rw (round_left f t s i bound h.fresh.bound (root_of l) left e)
            (go_left_lem f t c l s r i (bst_insert_loop_lem f) h e fuel)
      | inr e ↦
          rw (round_right f t s i bound h.fresh.bound (root_of r) right e)
            (go_right_lem f t c l s r i (bst_insert_loop_lem f) h e fuel)
    ]
