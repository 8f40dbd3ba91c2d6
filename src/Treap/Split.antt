-- ===== src/Treap/Split.antt =====
-- `split`: the control node, put in and raised, becomes the root, and stands between the values up to
-- its own and those above it.
use lock_free_search_tree.Base.{
  ℕ, ◌+◌, ◌≤◌, ◌<◌, ◌≡◌, ◌≢◌, refl, sym, ap, ◌∙◌, none, some, false, throw, fault, out_of_fuel,
  List, ◌++◌, arith, ℤ, ◌≤ℤ◌, ◌<ℤ◌, All, Outcome, ok, ◌>>=◌, int_min, update, ◌==◌, length,
  length-append,
}
use lock_free_search_tree.Base.Sorted.{IsSorted, IsSorted-append}
use lock_free_search_tree.Treap.State.{treap_nodes, control_node, Treap}
use lock_free_search_tree.Treap.Moves.{bst_insert, move_up}
use lock_free_search_tree.Treap.Bulk.{control, get_median_val, take_half, split}
use lock_free_search_tree.Treap.Shape.{
  Tree, leaf, node, Ctx, top, in_left, in_right, plug, root_of, one, one_self, count, count-plug,
  inorder, before, after, Shape-frame, ne_of,
}
use lock_free_search_tree.Treap.Wiring.{write_lem, node_at_lem, eq_ne}
use lock_free_search_tree.Treap.Focus.{Focus}
use lock_free_search_tree.Treap.MoveUp.{NotLighter}
use lock_free_search_tree.Treap.Values.{
  apart_unique, vals, vals-append, vals-Keeps, occurs, occurs-append, count-inorder, size,
  size_of_exact, length-inorder,
}
use lock_free_search_tree.Treap.BstInsert.{Ready}
use lock_free_search_tree.Treap.Place.{Placed, place, leaf_order, grown, count-grown}
use lock_free_search_tree.Treap.CutOff.{gap_order}
use lock_free_search_tree.Treap.Model.{
  Weighted, Sound, below_pos, below-control, below-le, IsTreap, vals-frame_tree,
}
use lock_free_search_tree.Treap.Halves.{take_half_lem}

-- The treap with the control node outside of its tree.
abbrev with_control : ℤ → Treap → Treap
with_control v t = record t { nodes = update t.nodes control_node (control v none none) }

module _ (v : ℤ) (t : Treap) (x : Tree) (is : IsTreap t x) where
  control_out : count control_node x ≡ 0
  control_out = is.exact control_node ∙ below-control t.size is.fits

  with_control_same : (a : ℕ) → 0 < count a x → (with_control v t).nodes a ≡ t.nodes a
  with_control_same a p =
      rw (eq_ne a control_node (ne_of (λ b. count b x) a control_node p control_out))

  with_control-Ready : Ready (with_control v t) top x control_node
  with_control-Ready = record {
    focus = record {
      around = is.root;
      shape = Shape-frame t.nodes (with_control v t).nodes none x is.shape with_control_same;
      distinct = λ a. omega (arith, is.exact a, below-le a t.size);
    };
    fresh = record {
      bound = omega arith;
      left = refl;
      right = refl;
      out_ctx = refl;
      out = control_out;
    };
    sorted = rw (vals-frame_tree t (with_control v t) x with_control_same) is.sorted;
    fits = record { low = tt; high = tt };
  }

-- A node that is lighter than all others of its tree and has been raised is the root.
at_top :
    (u : Treap) (i : ℕ) (c : Ctx) (l r : Tree)
    → Focus u c (node l i r)
    → NotLighter u i c
    → ((k : ℕ)
        → k ≢ i
        → 0 < count k (plug c (node l i r))
        → (u.nodes i).weight <ℤ (u.nodes k).weight)
    → c ≡ top
at_top u i top l r h n heavy = refl
at_top u i (in_left k s c) l r h n heavy =
    let k≢i : k ≢ i = λ e. omega (arith, one_self i, h.distinct i, ap (one i) e) in
    absurd (
      omega (
        arith,
        n,
        heavy k k≢i (omega (arith, one_self k, count-plug k (in_left k s c) (node l i r))),
      ))
at_top u i (in_right s k c) l r h n heavy =
    let k≢i : k ≢ i = λ e. omega (arith, one_self i, h.distinct i, ap (one i) e) in
    absurd (
      omega (
        arith,
        n,
        heavy k k≢i (omega (arith, one_self k, count-plug k (in_right s k c) (node l i r))),
      ))

one_apart : (k i m : ℕ) → 0 < m + one k i → k ≢ i → 0 < m
one_apart k i m h n = ground arith

-- The halves of a sorted list at a value, in two treaps.
pub record Halves (v : ℤ) (vs : List ℤ) (l r : Treap) : Type 0 where
  pub low : List ℤ
  pub high : List ℤ
  pub whole : vs ≡ low ++ high
  pub up_to : All (λ x. x ≤ℤ v) low
  pub beyond : All (λ x. v <ℤ x) high
  pub left : Sound l low
  pub right : Sound r high

bind_ok :
    (m : Outcome Treap) (f : Treap → Outcome Treap) {u : Treap}
    → (m >>= f) ≡ ok u
    → (w : Treap) × (m ≡ ok w) × (f w ≡ ok u)
bind_ok (ok w) f e = (w, refl, e)
bind_ok (throw x) f e = cc
bind_ok fault f e = cc
bind_ok out_of_fuel f e = cc

not_empty : (n : ℕ) → 0 < n → (n == 0) ≡ false
not_empty n h = ground arith

-- Where `split` leads.
abbrev pub Splits : ℤ → List ℤ → Outcome (ℤ × Treap × Treap) → Type 0
Splits v vs run = (l r : Treap) × (run ≡ ok (v, l, r)) × Halves v vs l r

module _ (draws_left draws_right : ℕ → ℤ) (drawn_left : (a : ℕ) → int_min <ℤ draws_left a)
    (drawn_right : (a : ℕ) → int_min <ℤ draws_right a) (v : ℤ) (t : Treap) where
  split_run :
      (u l r : Treap) (x y : Tree)
      → 0 < t.size
      → get_median_val t ≡ ok v
      → (bst_insert (some control_node) (with_control v t) >>= move_up (some control_node)) ≡ ok u
      → (u.nodes control_node).left ≡ root_of x
      → (u.nodes control_node).right ≡ root_of y
      → take_half draws_left u (root_of x) ≡ ok l
      → take_half draws_right u (root_of y) ≡ ok r
      → split draws_left draws_right t ≡ ok (v, l, r)
  unfolding split
  split_run u l r x y pos median run left right el er =
      let (w, e₁, e₂) =
        bind_ok (bst_insert (some control_node) (with_control v t)) (move_up (some control_node))
          run in
      rw (
        not_empty t.size pos,
        median,
        write_lem control_node t (omega arith) (control v none none),
        e₁,
        e₂,
        node_at_lem control_node u (omega arith),
        left,
        el,
        right,
        er,
      )

  -- The parts of the tree on the two sides of the control node.
  split_at :
      (x : Tree) (u : Treap) (p : Placed (with_control v t) x control_node u)
      → IsTreap t x
      → Weighted t
      → p.place ≡ top
  unfolding grown
  split_at x u p is heavy = at_top u control_node p.place p.left p.right p.focus p.settled (λ k n h.
      let here : 0 < count k x =
        one_apart k control_node (count k x)
          (omega (arith, count-grown (with_control v t) x control_node u p k)) n in
      let weight : (u.nodes k).weight ≡ (t.nodes k).weight =
        p.keeps.weight k ∙ ap (λ m. m.weight) (with_control_same v t x is k here) in
      rw (p.keeps.weight control_node, weight)
        (heavy k (below_pos k t.size (omega (arith, is.exact k)))))

  -- The values on the two sides of the control node.
  module _ (x : Tree) (u : Treap) (p : Placed (with_control v t) x control_node u)
      (is : IsTreap t x) (at_root : p.place ≡ top) where
    low : List ℤ
    low = vals (with_control v t) (before p.gap)

    high : List ℤ
    high = vals (with_control v t) (after p.gap)

    whole : vals t (inorder x) ≡ low ++ high
    unfolding low high
    whole =
        sym (vals-frame_tree t (with_control v t) x (with_control_same v t x is))
        ∙ ap (vals (with_control v t)) (sym (leaf_order p.gap ∙ ap inorder p.same))
        ∙ vals-append (with_control v t) (before p.gap) (after p.gap)

    centred : Focus u top (node p.left control_node p.right)
    centred = rw at_root at p.focus

    gap_out : occurs control_node (before p.gap) ≡ 0
    gap_out = omega (
      arith,
      occurs-append control_node (before p.gap) (after p.gap),
      ap (occurs control_node) (leaf_order p.gap ∙ ap inorder p.same),
      count-inorder control_node x,
      control_out v t x is,
    )

    sides : (inorder p.left ≡ before p.gap) × (inorder p.right ≡ after p.gap)
    sides =
        apart_unique control_node (inorder p.left) (inorder p.right) (before p.gap) (after p.gap)
          (omega (
            arith,
            centred.distinct control_node,
            count-inorder control_node p.left,
            one_self control_node,
          ))
          gap_out ((rw at_root at p.order) ∙ gap_order p.gap control_node)

    low_values : vals u (inorder p.left) ≡ low
    unfolding low
    low_values =
        vals-Keeps (with_control v t) u (inorder p.left) p.keeps
        ∙ ap (vals (with_control v t)) sides.0

    high_values : vals u (inorder p.right) ≡ high
    unfolding high
    high_values =
        vals-Keeps (with_control v t) u (inorder p.right) p.keeps
        ∙ ap (vals (with_control v t)) sides.1

    sizes : size p.left + size p.right ≤ treap_nodes
    sizes = omega (
      arith,
      length-inorder p.left,
      length-inorder p.right,
      ap (λ (l : List ℕ). length l) sides.0,
      ap (λ (l : List ℕ). length l) sides.1,
      length-append {0} (before p.gap) (after p.gap),
      ap (λ (l : List ℕ). length l) (leaf_order p.gap ∙ ap inorder p.same),
      length-inorder x,
      size_of_exact t.size x is.exact,
      is.fits,
    )

    halves_IsSorted : IsSorted low × IsSorted high
    halves_IsSorted = IsSorted-append low high (rw whole at is.sorted)

    split_placed :
        0 < t.size
        → get_median_val t ≡ ok v
        → (bst_insert (some control_node) (with_control v t) >>= move_up (some control_node)) ≡ ok u
        → Splits v (vals t (inorder x)) (split draws_left draws_right t)
    unfolding low high
    split_placed pos median run =
        let (_, _, left, right, hl, hr) = centred.shape in
        let (sl, sr) = halves_IsSorted in
        let (l, el, l_Sound) =
          take_half_lem draws_left drawn_left u (some control_node) p.left hl (omega (arith, sizes))
            (rw low_values sl) in
        let (r, er, r_Sound) =
          take_half_lem draws_right drawn_right u (some control_node) p.right hr
            (omega (arith, sizes)) (rw high_values sr) in
        (
          l,
          r,
          split_run u l r p.left p.right pos median run left right el er,
          record {
            low = low;
            high = high;
            whole = whole;
            up_to = p.fits.low;
            beyond = p.fits.high;
            left = rw low_values at l_Sound;
            right = rw high_values at r_Sound;
          },
        )

  pub split_at_value :
      (vs : List ℤ)
      → Sound t vs
      → 0 < length vs
      → get_median_val t ≡ ok v
      → Splits v vs (split draws_left draws_right t)
  split_at_value vs (r, heavy) pos median = go r.tree r.is r.values
    where
      go :
          (x : Tree)
          → IsTreap t x
          → vals t (inorder x) ≡ vs
          → Splits v vs (split draws_left draws_right t)
      go leaf is e = absurd (omega (arith, ap {A = List ℤ} (λ l. length l) e))
      go (node l s r') is e =
          let (u, run, p) =
            place (with_control v t) l s r' control_node
              (with_control-Ready v t (node l s r') is) in
          rw e at (
            split_placed (node l s r') u p is (split_at (node l s r') u p is heavy)
              (omega (arith, size_of_exact t.size (node l s r') is.exact)) median run)
