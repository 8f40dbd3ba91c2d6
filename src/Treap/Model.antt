-- ===== src/Treap/Model.antt =====
-- What a treap promises: its tree uses exactly the first `size` nodes of the array, and its values
-- are sorted from left to right.
use lock_free_search_tree.Base.{
  ◌<ℤ◌, int_min, Outcome, ok, ℕ, ◌≤◌, ◌<◌, ◌≡◌, refl, sym, ap, ◌∙◌, List, [], ◌∷◌, arith,
  if◌then◌else◌, ltb, ℤ, length,
}
use lock_free_search_tree.Base.Sorted.{IsSorted}
use lock_free_search_tree.Treap.State.{control_node, treap_nodes, Treap, new}
use lock_free_search_tree.Treap.Shape.{Tree, leaf, root_of, count, inorder, Shape, one_self}
use lock_free_search_tree.Treap.Heap.{weight_of, IsHeap}
use lock_free_search_tree.Treap.Values.{
  vals, size, occurs, count-inorder, length-vals, length-inorder, size_of_exact,
}

-- Whether an index lies below a bound, as a number.
abbrev pub below : ℕ → ℕ → ℕ
below a n = if ltb a n then 1 else 0

pub record IsTreap (t : Treap) (x : Tree) : Type 0 where
  pub root : t.root ≡ root_of x
  pub shape : Shape t.nodes (root_of leaf) x
  pub exact : (a : ℕ) → count a x ≡ below a t.size
  pub fits : t.size ≤ treap_nodes
  pub sorted : IsSorted (vals t (inorder x))

-- The treap holds the values `vs`, which are sorted.
pub record Represents (t : Treap) (vs : List ℤ) : Type 0 where
  pub tree : Tree
  pub is : IsTreap t tree
  pub values : vals t (inorder tree) ≡ vs

-- The same, and no node is lighter than its parent in the tree.
abbrev pub IsHeaped : Treap → List ℤ → Type 0
IsHeaped t vs = (r : Represents t vs) × IsHeap (weight_of t) r.tree

pub below-le : (a n : ℕ) → below a n ≤ 1
below-le a n = ground arith

pub below_self : (n : ℕ) → below n n ≡ 0
below_self n = ground arith

pub below_pos : (k n : ℕ) → 0 < below k n → k < n
below_pos k n h = ground arith

pub below-control : (n : ℕ) → n ≤ control_node → below control_node n ≡ 0
below-control n h = ground arith

pub new-Represents : Represents new []
new-Represents = record {
  tree = leaf;
  is = record {
    root = refl;
    shape = tt;
    exact = λ a. ground arith;
    fits = omega arith;
    sorted = tt;
  };
  values = refl;
}

-- Every node of the treap is heavier than the control node.
abbrev pub Weighted : Treap → Type 0
Weighted t = (a : ℕ) → a < t.size → int_min <ℤ (t.nodes a).weight

-- The treap holds the values `vs`, and its nodes are heavier than the control node.
abbrev pub Sound : Treap → List ℤ → Type 0
Sound t vs = Represents t vs × Weighted t

abbrev pub Returns : List ℤ → Outcome Treap → Type 0
Returns vs run = (u : Treap) × (run ≡ ok u) × Sound u vs

pub new-Sound : Sound new []
new-Sound = (new-Represents, λ a h. absurd (omega arith))

module _ (t : Treap) (vs : List ℤ) (r : Represents t vs) where
  pub size_of_tree : size r.tree ≡ t.size
  size_of_tree = size_of_exact t.size r.tree r.is.exact

  -- The size of a treap is the number of its values.
  pub size-Represents : t.size ≡ length vs
  size-Represents =
      sym size_of_tree
      ∙ sym (length-inorder r.tree)
      ∙ sym (length-vals t (inorder r.tree))
      ∙ ap (λ l. length l) r.values

  pub Represents-IsSorted : IsSorted vs
  Represents-IsSorted = rw r.values at r.is.sorted

-- Values at indices that two arrays share.
pub vals-frame :
    (t u : Treap) (xs : List ℕ)
    → ((a : ℕ) → 0 < occurs a xs → u.nodes a ≡ t.nodes a)
    → vals u xs ≡ vals t xs
vals-frame t u [] same = refl
vals-frame t u (x ∷ xs) same =
    rw (same x (occurs_head x xs), vals-frame t u xs (λ a h. same a (omega arith)))
  where
    occurs_head : (x : ℕ) (xs : List ℕ) → 0 < occurs x (x ∷ xs)
    occurs_head x xs = omega (arith, one_self x)

pub vals-frame_tree :
    (t u : Treap) (x : Tree)
    → ((a : ℕ) → 0 < count a x → u.nodes a ≡ t.nodes a)
    → vals u (inorder x) ≡ vals t (inorder x)
vals-frame_tree t u x same =
    vals-frame t u (inorder x) (λ a h. same a (omega (arith, count-inorder a x)))

pub new-IsHeaped : IsHeaped new []
unfolding new-Represents
new-IsHeaped = (new-Represents, tt)
