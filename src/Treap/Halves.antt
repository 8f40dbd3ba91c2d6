-- ===== src/Treap/Halves.antt =====
-- A copy that fills a new treap: `take_half` of `split`, and the treap that `merge` copies whole.
use lock_free_search_tree.Base.{
  ℕ, ◌≤◌, ◌<◌, ◌≡◌, refl, sym, ap, ◌∙◌, fun_ext, none, some, List, arith, ℤ, ◌<ℤ◌, ok, int_min,
  length,
}
use native.Mathlib.Decide.{ℕ_discrete}
use lock_free_search_tree.Base.Sorted.{IsSorted}
use lock_free_search_tree.Treap.State.{treap_nodes, control_node, TreapIndex, TreapNode, Treap, new}
use lock_free_search_tree.Treap.Bulk.{transfer_nodes_from, transfer_whole, take_half}
use lock_free_search_tree.Treap.Shape.{Tree, leaf, node, root_of, inorder, Shape}
use lock_free_search_tree.Treap.Wiring.{set_parent_lem, put_parent, put_parent_self, put_parent_ne}
use lock_free_search_tree.Treap.Values.{vals, size, size_of_exact}
use lock_free_search_tree.Treap.Model.{below, IsTreap, Represents, Sound, Returns, new-Sound}
use lock_free_search_tree.Treap.Graft.{vals-Copies, within}
use lock_free_search_tree.Treap.Transfer.{Transferred, transfer_nodes_from_lem}

pub within-below : (n a : ℕ) → within 0 n a ≡ below a n
within-below n a = ground arith

module _ (draws : ℕ → ℤ) (drawn : (a : ℕ) → int_min <ℤ draws a) (other : Treap) where
  Transferred-Sound :
      (x : Tree) (u : Treap)
      → Transferred draws other new x u
      → size x ≤ treap_nodes
      → IsSorted (vals other (inorder x))
      → Sound (record u { root = some 0 }) (vals other (inorder x))
  Transferred-Sound x u h fits sorted =
      let grown : u.size ≡ size x = omega (arith, h.grown) in
      (
        record {
          tree = h.tree;
          is = record {
            root = sym h.top;
            shape = h.shape;
            exact = λ a. h.exact a ∙ within-below (size x) a ∙ ap (below a) (sym grown);
            fits = omega arith;
            sorted = rw (vals-Copies other u x h.tree h.copy) sorted;
          };
          values = vals-Copies other u x h.tree h.copy;
        },
        λ a m. rw (h.weights a (omega arith) m) (drawn a),
      )

  pub take_half_lem :
      (q : TreapIndex) (x : Tree)
      → Shape other.nodes q x
      → size x ≤ treap_nodes
      → IsSorted (vals other (inorder x))
      → Returns (vals other (inorder x)) (take_half draws other (root_of x))
  unfolding take_half
  take_half_lem q leaf s fits sorted = (new, refl, new-Sound)
  take_half_lem q (node l k r) s fits sorted =
      let (u, run, h) = transfer_nodes_from_lem draws other new q l k r s (omega arith) in
      (record u { root = some 0 }, rw run, Transferred-Sound (node l k r) u h fits sorted)

  parent_stays : (f : ℕ → TreapNode) (i : ℕ) → (f i).parent ≡ none → put_parent i none f ≡ f
  parent_stays f i e = fun_ext (λ a. elim (ℕ_discrete a i) [
    | yes same ↦
        rw same (
          put_parent_self i none f ∙ ap {A = TreapIndex} (λ o. record (f i) { parent = o }) (sym e))
    | no other ↦ put_parent_ne i none f a other
  ])

  root_parent :
      (f : ℕ → TreapNode) (p : TreapIndex) (y : Tree) (i : ℕ)
      → Shape f p y
      → root_of y ≡ some i
      → (i ≤ control_node) × ((f i).parent ≡ p)
  root_parent f p leaf i s e = absurd (ground arith)
  root_parent f p (node l k r) i s e = let e' : k ≡ i = cc in (rw (← e') s.0, rw (← e') s.1)

  transfer_run :
      (u : Treap) (y : Tree)
      → transfer_nodes_from draws other other.root new ≡ ok (some 0, u)
      → Shape u.nodes none y
      → root_of y ≡ some 0
      → transfer_whole draws other new ≡ ok (record u { root = some 0 })
  unfolding transfer_whole
  transfer_run u y run s e =
      let (bound, parent) = root_parent u.nodes none y 0 s e in
      rw run (
        set_parent_lem 0 (record u { root = some 0 }) bound none
        ∙ ap (λ f. ok (record u { root = some 0; nodes = f })) (parent_stays u.nodes 0 parent))

  pub transfer_whole_lem :
      (vs : List ℤ)
      → Represents other vs
      → 0 < length vs
      → Returns vs (transfer_whole draws other new)
  transfer_whole_lem vs r h = go r.tree r.is r.values
    where
      go :
          (x : Tree)
          → IsTreap other x
          → vals other (inorder x) ≡ vs
          → Returns vs (transfer_whole draws other new)
      go leaf is e = absurd (omega (arith, ap {A = List ℤ} (λ l. length l) e))
      go (node l k r') is e =
          let fits : size (node l k r') ≤ treap_nodes =
            omega (arith, is.fits, size_of_exact other.size (node l k r') is.exact) in
          let (u, run, h) =
            transfer_nodes_from_lem draws other new none l k r' is.shape (omega arith) in
          (
            record u { root = some 0 },
            transfer_run u h.tree (ap (λ o. transfer_nodes_from draws other o new) is.root ∙ run)
                h.shape h.top,
            rw e at (Transferred-Sound (node l k r') u h fits is.sorted),
          )
