-- ===== src/Treap/Greatest.antt =====
-- `getMaxValue`: the walk to the right.
use lock_free_search_tree.Base.{
  ℕ, zero, suc, ◌≤◌, ◌<◌, ◌≡◌, ap, ◌∙◌, false, none, some, List, [], ◌∷◌, ◌++◌, arith, ℤ, length,
  Outcome, ok, ◌==◌,
}
use mathlib.Core.List.{append_assoc}
use lock_free_search_tree.Treap.State.{TreapIndex, Treap}
use lock_free_search_tree.Treap.Moves.{rounds}
use lock_free_search_tree.Treap.Ops.{rightmost_loop, get_max_value}
use lock_free_search_tree.Treap.Shape.{Tree, leaf, node, inorder, Shape}
use lock_free_search_tree.Treap.Wiring.{node_at_lem}
use lock_free_search_tree.Treap.Values.{vals, vals-node, size, size_of_exact}
use lock_free_search_tree.Treap.Model.{IsTreap, Represents, size-Represents}

-- Where the walk leads: to the last value.
abbrev pub Greatest : List ℤ → Outcome ℤ → Type 0
Greatest vs run = (v : ℤ) × (run ≡ ok v) × ((xs : List ℤ) × (vs ≡ xs ++ v ∷ []))

rightmost_end :
    (t : Treap) (f k : ℕ)
    → k ≤ 64
    → (t.nodes k).right ≡ none
    → rightmost_loop (suc f) (some k) t ≡ ok (t.nodes k).val
unfolding rightmost_loop
rightmost_end t f k bound e = rw (node_at_lem k t bound, e)

rightmost_next :
    (t : Treap) (f k j : ℕ)
    → k ≤ 64
    → (t.nodes k).right ≡ some j
    → rightmost_loop (suc f) (some k) t ≡ rightmost_loop f (some j) t
unfolding rightmost_loop
rightmost_next t f k j bound e = rw (node_at_lem k t bound, e)

rightmost :
    (f : ℕ) (t : Treap) (p : TreapIndex) (l : Tree) (k : ℕ) (r : Tree)
    → Shape t.nodes p (node l k r)
    → size (node l k r) ≤ f
    → Greatest (vals t (inorder (node l k r))) (rightmost_loop f (some k) t)
rightmost zero t p l k r s fuel = absurd (omega arith)
rightmost (suc f) t p l k leaf (bound, _, _, right, _, _) fuel =
    ((t.nodes k).val, rightmost_end t f k bound right, (vals t (inorder l), vals-node t l k leaf))
rightmost (suc f) t p l k (node l' j r') (bound, _, _, right, _, hr) fuel =
    let (v, run, (xs, e)) = rightmost f t (some k) l' j r' hr (omega arith) in
    (
      v,
      rightmost_next t f k j bound right ∙ run,
      (
        vals t (inorder l) ++ (t.nodes k).val ∷ xs,
        vals-node t l k (node l' j r')
            ∙ ap (λ z. vals t (inorder l) ++ (t.nodes k).val ∷ z) e
            ∙ simp append_assoc,
      ),
    )

max_walk :
    (t : Treap) (x : Tree)
    → IsTreap t x
    → 0 < t.size
    → Greatest (vals t (inorder x)) (get_max_value t)
unfolding get_max_value
max_walk t leaf is pos = absurd (omega (arith, size_of_exact t.size leaf is.exact))
max_walk t (node l k r) is pos =
    let (v, run, last) =
      rightmost rounds t none l k r is.shape
        (omega (arith, size_of_exact t.size (node l k r) is.exact, is.fits)) in
    (v, rw (not_zero t.size pos) (ap (λ o. rightmost_loop rounds o t) is.root ∙ run), last)
  where
    not_zero : (n : ℕ) → 0 < n → (n == 0) ≡ false
    not_zero n h = ground arith

-- On a well-formed treap that is not empty, `getMaxValue` returns the last of the sorted values.
pub get_max_value-last :
    (t : Treap) (vs : List ℤ) → Represents t vs → 0 < length vs → Greatest vs (get_max_value t)
get_max_value-last t vs r pos =
    rw r.values at (max_walk t r.tree r.is (omega (arith, size-Represents t vs r)))
