-- ===== src/Treap/Remove.antt =====
-- `remove`: the treap holds the sorted values with one occurrence of the value taken out.
use lock_free_search_tree.Base.{◌≡◌, sym, Bool, none, some, ℤ, Outcome, ok, List}
use lock_free_search_tree.Base.Sorted.{member, remove_first, remove_first-not_member}
use lock_free_search_tree.Treap.State.{TreapIndex, Treap}
use lock_free_search_tree.Treap.Moves.{bst_find}
use lock_free_search_tree.Treap.Ops.{remove}
use lock_free_search_tree.Treap.Shape.{Tree, inorder}
use lock_free_search_tree.Treap.Heap.{weight_of, IsHeap}
use lock_free_search_tree.Treap.Values.{vals}
use lock_free_search_tree.Treap.Model.{Weighted, IsTreap, Represents, IsHeaped}
use lock_free_search_tree.Treap.Find.{Answers, bst_find_lem}
use lock_free_search_tree.Treap.RemoveAt.{remove_at_lem}

-- Where `remove` leads.
abbrev pub Removes : ℤ → List ℤ → Outcome (Bool × Treap) → Type 0
Removes v vs run = (u : Treap) × (run ≡ ok (member v vs, u)) × Represents u (remove_first v vs)

-- The same, with the weights, and their order, if the tree `x` of before has it.
abbrev pub RemovesKept : ℤ → Treap → Tree → List ℤ → Outcome (Bool × Treap) → Type 0
RemovesKept v t x vs run =
    (u : Treap) × (run ≡ ok (member v vs, u))
    × Represents u (remove_first v vs)
    × (Weighted t → Weighted u)
    × (IsHeap (weight_of t) x → IsHeaped u (remove_first v vs))

remove_of_answer :
    (v : ℤ) (t : Treap) (x : Tree) (o : TreapIndex)
    → IsTreap t x
    → bst_find v t ≡ ok o
    → Answers t x v o
    → RemovesKept v t x (vals t (inorder x)) (remove v t)
unfolding remove
remove_of_answer v t x none is run a =
    let held : Represents t (remove_first v (vals t (inorder x))) = record {
      tree = x;
      is = is;
      values = sym (remove_first-not_member v (vals t (inorder x)) a);
    } in
    (t, rw (run, a), held, λ w. w, λ h. (held, h))
remove_of_answer v t x (some i) is run (e, here, m) =
    let (u, run', r, w, q) = remove_at_lem t x i is here in
    (u, rw (run, run', m), rw e at r, w, λ h. rw e at (q h))

pub remove_kept :
    (v : ℤ) (t : Treap) (vs : List ℤ) (r : Represents t vs) → RemovesKept v t r.tree vs (remove v t)
remove_kept v t vs r =
    let (o, run, a) = bst_find_lem t r.tree v r.is in
    rw r.values at (remove_of_answer v t r.tree o r.is run a)

-- On a well-formed treap, `remove` tells whether the value was one of those that the treap holds, and
-- leaves a well-formed treap that holds them without the first occurrence of that value.
pub remove-Represents :
    (v : ℤ) (t : Treap) (vs : List ℤ) → Represents t vs → Removes v vs (remove v t)
remove-Represents v t vs r = let (u, run, held, _, _) = remove_kept v t vs r in (u, run, held)
