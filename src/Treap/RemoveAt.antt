-- ===== src/Treap/RemoveAt.antt =====
-- `remove` when it has found the node: it is cut off, and the node with the last index takes its place.
use lock_free_search_tree.Base.{
  ℕ, ◌+◌, ◌-◌, ◌<◌, ◌≡◌, ◌≢◌, sym, ap, ◌∙◌, ◌⊎◌, inl, inr, some, arith, Outcome, ok,
}
use native.Mathlib.Decide.{ℕ_discrete}
use lock_free_search_tree.Base.Sorted.{IsSorted, remove_first}
use lock_free_search_tree.Treap.State.{Treap, move_node}
use lock_free_search_tree.Treap.Ops.{cut_off, remove_at}
use lock_free_search_tree.Treap.Shape.{
  Tree, node, plug, one, count, count_ctx, count-plug, inorder, close, reopen, one_self, one_ne,
}
use lock_free_search_tree.Treap.Wiring.{eq_self}
use lock_free_search_tree.Treap.Focus.{Focus}
use lock_free_search_tree.Treap.Heap.{weight_of, IsHeap, renamed-IsHeap}
use lock_free_search_tree.Treap.MoveNode.{Found, find_index, Renamed, move_node_lem}
use lock_free_search_tree.Treap.Renaming.{renamed_values}
use lock_free_search_tree.Treap.CutOff.{Cut, cut_off_lem}
use lock_free_search_tree.Treap.Values.{vals}
use lock_free_search_tree.Treap.Model.{
  below, below_pos, Weighted, below-le, IsTreap, Represents, IsHeaped,
}

below_last : (a n : ℕ) → 0 < n → below a (n - 1) + one a (n - 1) ≡ below a n
below_last a n h = ground arith

below_before : (n : ℕ) → 0 < n → below (n - 1) n ≡ 1
below_before n h = ground arith

eq_cases : (a b : ℕ) → (a ≡ b) ⊎ (a ≢ b)
eq_cases a b = ground arith

-- What `remove` leaves of a treap when it has found the node `i`.
module _ (t : Treap) (x : Tree) (i : ℕ) (is : IsTreap t x) (here : 0 < count i x) where
  abbrev pub Removed : Outcome Treap → Type 0
  Removed run =
      (u : Treap) × (run ≡ ok u)
      × Represents u (remove_first (t.nodes i).val (vals t (inorder x)))
      × (Weighted t → Weighted u)
      × (IsHeap (weight_of t) x → IsHeaped u (remove_first (t.nodes i).val (vals t (inorder x))))

  index_below : i < t.size
  index_below = below_pos i t.size (omega (arith, is.exact i))

  remove_at_run :
      (u v : Treap)
      → cut_off i t ≡ ok u
      → move_node (some (u.size - 1)) (some i) u ≡ ok v
      → remove_at i t ≡ ok (record v { size = v.size - 1 })
  unfolding remove_at
  remove_at_run u v e e' = rw (e, e')

  module _ (u : Treap) (y : Tree) (run : cut_off i t ≡ ok u) (c : Cut t x i u y)
      (sorted : IsSorted (vals u (inorder y)))
      (values : vals u (inorder y) ≡ remove_first (t.nodes i).val (vals t (inorder x)))
      (ordered : IsHeap (weight_of t) x → IsHeap (weight_of u) y) where
    move_node_self : i ≡ u.size - 1 → move_node (some (u.size - 1)) (some i) u ≡ ok u
    unfolding move_node
    move_node_self e = rw (← e, eq_self i)

    last-Represents :
        i ≡ u.size - 1
        → Represents
            (record u { size = u.size - 1 })
            (remove_first (t.nodes i).val (vals t (inorder x)))
    last-Represents e = record {
      tree = y;
      is = record {
        root = c.root;
        shape = c.shape;
        exact = λ a. omega (
          arith,
          c.counts a,
          is.exact a,
          below_last a t.size (omega (arith, index_below)),
          ap (one a) (e ∙ ap (λ z. z - 1) c.size),
          ap (λ z. below a (z - 1)) c.size,
        );
        fits = omega (arith, c.size, is.fits);
        sorted = sorted;
      };
      values = values;
    }

    -- The node had the last index.
    Removed-last : i ≡ u.size - 1 → Removed (remove_at i t)
    unfolding last-Represents
    Removed-last e = (
      record u { size = u.size - 1 },
      remove_at_run u u run (move_node_self e),
      last-Represents e,
      λ w a h. rw (c.weight a) (w a (omega (arith, c.size))),
      λ h. (last-Represents e, ordered h),
    )

    module _ (f : Found (u.size - 1) y) where
      last-Focus : Focus u f.ctx (node f.left (u.size - 1) f.right)
      last-Focus =
          let (around, shape) =
            reopen u.nodes u.root f.ctx (node f.left (u.size - 1) f.right) (rw f.same c.shape)
              (rw f.same c.root) in
          record {
            around = around;
            shape = shape;
            distinct = λ a. omega (
              arith,
              count-plug a f.ctx (node f.left (u.size - 1) f.right),
              ap (λ z. count a z) f.same,
              c.counts a,
              is.exact a,
              below-le a t.size,
            );
          }

      i_out : count i (plug f.ctx (node f.left (u.size - 1) f.right)) ≡ 0
      i_out =
          omega (
            arith,
            ap (λ z. count i z) f.same,
            c.counts i,
            is.exact i,
            below-le i t.size,
            one_self i,
          )

      module _ (v : Treap) (n : Renamed u f.ctx f.left (u.size - 1) f.right i v)
          (ne : i ≢ u.size - 1) where
        moved_tree : Tree
        moved_tree = plug f.ctx (node f.left i f.right)

        moved_exact : (a : ℕ) → count a moved_tree ≡ below a (v.size - 1)
        unfolding moved_tree
        moved_exact a = omega (
          arith,
          count-plug a f.ctx (node f.left i f.right),
          count-plug a f.ctx (node f.left (u.size - 1) f.right),
          ap (λ z. count a z) f.same,
          c.counts a,
          is.exact a,
          below_last a t.size (omega (arith, index_below)),
          ap (λ z. one a (z - 1)) c.size,
          ap (λ z. below a (z - 1)) (n.size ∙ c.size),
        )

        moved_values : vals v (inorder moved_tree) ≡ vals u (inorder y)
        unfolding moved_tree
        moved_values =
            renamed_values u v f.ctx f.left (u.size - 1) f.right i n i_out
            ∙ ap (λ z. vals u (inorder z)) f.same

        moved-Represents :
            Represents
              (record v { size = v.size - 1 })
              (remove_first (t.nodes i).val (vals t (inorder x)))
        unfolding moved_tree
        moved-Represents =
            let (shape, root) =
              close v.nodes v.root f.ctx (node f.left i f.right) n.focus.around n.focus.shape in
            record {
              tree = moved_tree;
              is = record {
                root = root;
                shape = shape;
                exact = moved_exact;
                fits = omega (arith, n.size, c.size, is.fits);
                sorted = rw moved_values sorted;
              };
              values = moved_values ∙ values;
            }

        moved_weight : Weighted t → Weighted (record v { size = v.size - 1 })
        moved_weight w a h = elim (ℕ_discrete a i) [
          | yes e ↦
              rw (e, n.weight_new, c.weight (u.size - 1))
                (w (u.size - 1) (omega (arith, c.size, index_below)))
          | no other ↦ rw (n.weight a other, c.weight a) (w a (omega (arith, n.size, c.size)))
        ]

        moved-IsHeaped :
            IsHeap (weight_of t) x
            → IsHeaped
                (record v { size = v.size - 1 })
                (remove_first (t.nodes i).val (vals t (inorder x)))
        unfolding moved-Represents moved_tree
        moved-IsHeaped h = (
          moved-Represents,
          renamed-IsHeap (weight_of u) (weight_of v) f.ctx f.left (u.size - 1) i f.right
              n.weight_new (λ a p. n.weight a (λ e. still_out a e p)) (rw f.same (ordered h)),
        )
          where
            still_out :
                (a : ℕ) → a ≡ i → 0 < count_ctx a f.ctx + (count a f.left + count a f.right) → ⊥
            still_out a e p =
                omega
                  (arith, rw e at p, i_out, count-plug i f.ctx (node f.left (u.size - 1) f.right))

    -- The node with the last index takes the place.
    Removed-other : i ≢ u.size - 1 → Removed (remove_at i t)
    Removed-other ne =
        let last : u.size - 1 ≡ t.size - 1 = ap (λ z. z - 1) c.size in
        let there : 0 < count (u.size - 1) y = omega (
          arith,
          c.counts (u.size - 1),
          is.exact (u.size - 1),
          one_ne (u.size - 1) i (λ e. ne (sym e)),
          below_before t.size (omega (arith, index_below)),
          ap (λ z. below z t.size) last,
        ) in
        let f = find_index (u.size - 1) y there in
        let (v, run', n) =
          move_node_lem u f.ctx f.left (u.size - 1) f.right i (last-Focus f)
            (omega (arith, index_below, is.fits)) ne
            (omega (arith, i_out f, count-plug i f.ctx (node f.left (u.size - 1) f.right))) in
        (
          record v { size = v.size - 1 },
          remove_at_run u v run run',
          moved-Represents f v n ne,
          moved_weight f v n ne,
          moved-IsHeaped f v n ne,
        )

  pub remove_at_lem : Removed (remove_at i t)
  remove_at_lem =
      let (u, y, run, c, sorted, values, ordered) = cut_off_lem t x i is here in
      elim (eq_cases i (u.size - 1)) [
        | inl e ↦ Removed-last u y run c sorted values ordered e
        | inr ne ↦ Removed-other u y run c sorted values ordered ne
      ]
