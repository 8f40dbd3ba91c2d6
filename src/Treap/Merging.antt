-- ===== src/Treap/Merging.antt =====
-- `merge`: the treap holds the values of the left treap and then those of the right one.
use lock_free_search_tree.Base.{
  ℕ, ◌+◌, ◌≤◌, ◌<◌, ◌≡◌, sym, ap, ◌∙◌, none, some, List, ◌++◌, arith, ℤ, ◌<ℤ◌, ok, ◌>>=◌, int_min,
  length,
}
use mathlib.Core.List.{append-nil}
use native.Mathlib.Decide.{dec_lt}
use lock_free_search_tree.Base.Sorted.{IsSorted}
use lock_free_search_tree.Treap.State.{treap_nodes, control_node, Treap, new}
use lock_free_search_tree.Treap.Moves.{move_down}
use lock_free_search_tree.Treap.Bulk.{
  transfer_nodes_from, transfer_whole, join_roots, cut_control, merge_both, merge,
}
use lock_free_search_tree.Treap.Shape.{Tree, leaf, node, count, inorder, Shape-frame}
use lock_free_search_tree.Treap.Values.{vals, size, size_of_exact}
use lock_free_search_tree.Treap.Model.{
  Returns, new-Sound, below, IsTreap, Represents, size-Represents, vals-frame_tree,
}
use lock_free_search_tree.Treap.Graft.{vals-Copies, within_bounds, within-append}
use lock_free_search_tree.Treap.Transfer.{Transferred, transfer_nodes_from_lem}
use lock_free_search_tree.Treap.Halves.{transfer_whole_lem, within-below}
use lock_free_search_tree.Treap.Merge.{Joined, sink}
use lock_free_search_tree.Treap.Joining.{Pair, join_roots_at}

module _ (draws : ℕ → ℤ) (drawn : (a : ℕ) → int_min <ℤ draws a) (left right : Treap) where
  -- The two copies, one behind the other.
  module _ (x y : Tree) (t₁ t₂ : Treap) (h₁ : Transferred draws left new x t₁)
      (h₂ : Transferred draws right t₁ y t₂) (fits : size x + size y ≤ treap_nodes) where
    first_size : t₁.size ≡ size x
    first_size = omega (arith, h₁.grown)

    both_size : t₂.size ≡ size x + size y
    both_size = omega (arith, h₂.grown, first_size)

    first_stays : (a : ℕ) → 0 < count a h₁.tree → t₂.nodes a ≡ t₁.nodes a
    first_stays a p =
        h₂.others a
          (omega (arith, within_bounds 0 (size x) a (omega (arith, h₁.exact a)), first_size))

    copies : Pair t₂ h₁.tree h₂.tree
    copies = record {
      left = Shape-frame t₁.nodes t₂.nodes none h₁.tree h₁.shape first_stays;
      right = h₂.shape;
      exact = λ a.
          (omega (
            arith,
            h₁.exact a,
            h₂.exact a,
            within-append 0 (size x) (size y) t₁.size a (omega (arith, first_size)),
            within-below (size x + size y) a,
          ))
          ∙ ap (below a) (sym both_size);
      fits = omega (arith, both_size);
      heavy = λ a m. elim (dec_lt a t₁.size) [
        | yes p ↦ rw (h₂.others a p, h₁.weights a (omega arith) p) (drawn a)
        | no p ↦ rw (h₂.weights a (omega arith) m) (drawn a)
      ];
    }

    first_values : vals t₂ (inorder h₁.tree) ≡ vals left (inorder x)
    first_values = vals-frame_tree t₁ t₂ h₁.tree first_stays ∙ vals-Copies left t₁ x h₁.tree h₁.copy

  merge_both_run :
      (t₁ t₂ t₃ : Treap) (i j : ℕ)
      → transfer_nodes_from draws left left.root new ≡ ok (some i, t₁)
      → transfer_nodes_from draws right right.root t₁ ≡ ok (some j, t₂)
      → join_roots (some i) (some j) t₂ ≡ ok t₃
      → merge_both draws left right new ≡ (move_down (some control_node) t₃ >>= cut_control)
  unfolding merge_both
  merge_both_run t₁ t₂ t₃ i j e₁ e₂ e₃ = rw (e₁, e₂, e₃)

  merge_trees :
      (a : Tree) (i : ℕ) (b c : Tree) (j : ℕ) (d : Tree)
      → IsTreap left (node a i b)
      → IsTreap right (node c j d)
      → left.size + right.size ≤ treap_nodes
      → IsSorted (vals left (inorder (node a i b)) ++ vals right (inorder (node c j d)))
      → Returns
          (vals left (inorder (node a i b)) ++ vals right (inorder (node c j d)))
          (merge_both draws left right new)
  merge_trees a i b c j d l r fits sorted =
      let x = node a i b in
      let y = node c j d in
      let sizes : size x + size y ≤ treap_nodes =
        omega (arith, size_of_exact left.size x l.exact, size_of_exact right.size y r.exact) in
      let (t₁, e₁, h₁) = transfer_nodes_from_lem draws left new none a i b l.shape (omega arith) in
      let (t₂, e₂, h₂) =
        transfer_nodes_from_lem draws right t₁ none c j d r.shape (omega (arith, h₁.grown)) in
      let pair = copies x y t₁ t₂ h₁ h₂ sizes in
      let (t₃, e₃, joined) = join_roots_at t₂ h₁.tree h₂.tree 0 t₁.size pair h₁.top h₂.top in
      let joined' : Joined (vals left (inorder x)) (vals right (inorder y)) t₃ =
        rw (first_values x y t₁ t₂ h₁ h₂ sizes, vals-Copies right t₂ y h₂.tree h₂.copy) at joined in
      rw
        (merge_both_run t₁ t₂ t₃ 0 t₁.size
          (ap (λ o. transfer_nodes_from draws left o new) l.root ∙ e₁)
          (ap (λ o. transfer_nodes_from draws right o t₁) r.root ∙ e₂) e₃)
        (sink (vals left (inorder x)) (vals right (inorder y)) t₃ joined' sorted)

  -- The ways of `merge`.
  merge_empty : left.size ≡ 0 → right.size ≡ 0 → merge draws left right ≡ ok new
  unfolding merge
  merge_empty e e' = ground arith

  merge_left :
      left.size + right.size ≤ treap_nodes
      → 0 < left.size
      → right.root ≡ none
      → merge draws left right ≡ transfer_whole draws left new
  unfolding merge
  merge_left fits pos e = ground arith

  merge_right :
      (j : ℕ)
      → left.size + right.size ≤ treap_nodes
      → 0 < right.size
      → right.root ≡ some j
      → left.root ≡ none
      → merge draws left right ≡ transfer_whole draws right new
  unfolding merge
  merge_right j fits pos e e' = ground arith

  merge_into :
      (i j : ℕ)
      → left.size + right.size ≤ treap_nodes
      → 0 < right.size
      → left.root ≡ some i
      → right.root ≡ some j
      → merge draws left right ≡ merge_both draws left right new
  unfolding merge
  merge_into i j fits pos e e' = ground arith

  -- Two well-formed treaps with at most 64 values together, none of the left larger than one of the
  -- right, are merged into a well-formed treap that holds the values of both.
  pub merge_lem :
      (vs ws : List ℤ)
      → Represents left vs
      → Represents right ws
      → length vs + length ws ≤ treap_nodes
      → IsSorted (vs ++ ws)
      → Returns (vs ++ ws) (merge draws left right)
  merge_lem vs ws l r fits sorted = go l.tree r.tree l.is r.is l.values r.values
    where
      room : left.size + right.size ≤ treap_nodes
      room = omega (arith, size-Represents left vs l, size-Represents right ws r)

      go :
          (x y : Tree)
          → IsTreap left x
          → IsTreap right y
          → vals left (inorder x) ≡ vs
          → vals right (inorder y) ≡ ws
          → Returns (vs ++ ws) (merge draws left right)
      go leaf leaf l' r' e e' = (
        new,
        merge_empty (sym (size_of_exact left.size leaf l'.exact))
            (sym (size_of_exact right.size leaf r'.exact)),
        rw (e' ∙ ap (λ z. z ++ ws) e) at new-Sound,
      )
      go (node a i b) leaf l' r' e e' =
          let p : 0 < left.size = omega (arith, size_of_exact left.size (node a i b) l'.exact) in
          rw (merge_left room p r'.root) (
            rw (sym (append-nil vs) ∙ ap (λ z. vs ++ z) e') at
              (transfer_whole_lem draws drawn left vs l (omega (arith, size-Represents left vs l))))
      go leaf (node c j d) l' r' e e' =
          let p : 0 < right.size = omega (arith, size_of_exact right.size (node c j d) r'.exact) in
          rw (merge_right j room p r'.root l'.root) (
            rw (ap (λ z. z ++ ws) e) at (
              transfer_whole_lem draws drawn right ws r
                (omega (arith, size-Represents right ws r))))
      go (node a i b) (node c j d) l' r' e e' =
          let p : 0 < right.size = omega (arith, size_of_exact right.size (node c j d) r'.exact) in
          rw (merge_into i j room p l'.root r'.root)
            (rw (e, e') at (merge_trees a i b c j d l' r' room (rw (e, e') sorted)))
