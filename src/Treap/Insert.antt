-- ===== src/Treap/Insert.antt =====
-- `insert`: the treap holds the sorted values with the new one among them, or is full.
use lock_free_search_tree.Base.{
  ℕ, ◌+◌, ◌≤◌, ◌<◌, ◌≡◌, ◌≢◌, refl, sym, ap, ◌∙◌, none, some, arith, update, ℤ, Outcome, ok, throw,
  out_of_range, ◌>>=◌, List, ◌∷◌, [], length,
}
use mathlib.Core.Path.{subst}
use lock_free_search_tree.Base.Sorted.{insert_sorted, insert_sorted-IsSorted}
use lock_free_search_tree.Treap.State.{treap_nodes, control_node, Treap, create_new_node}
use lock_free_search_tree.Treap.Moves.{bst_insert, move_up}
use lock_free_search_tree.Treap.Ops.{insert}
use lock_free_search_tree.Treap.Shape.{
  Tree, leaf, node, top, one, count, inorder, Shape-frame, ne_of,
}
use lock_free_search_tree.Treap.Heap.{IsHeap}
use lock_free_search_tree.Treap.Wiring.{write_lem, eq_self, eq_ne, Keeps}
use lock_free_search_tree.Treap.Values.{vals, size_of_exact}
use lock_free_search_tree.Treap.BstInsert.{Ready}
use lock_free_search_tree.Treap.Place.{
  place, grown, count-grown, vals-grown, grown_held, grown-IsHeap,
}
use lock_free_search_tree.Treap.Model.{
  below, IsTreap, Represents, below-le, below_self, size-Represents, vals-frame_tree,
}

-- The treap with a new node behind the others.
abbrev pub with_node : ℤ → ℤ → Treap → Treap
with_node v w t = record t {
  size = t.size + 1;
  nodes =
      update t.nodes t.size
        (record { val = v; weight = w; parent = none; left = none; right = none });
}

pub create_new_node_lem :
    (v w : ℤ) (t : Treap)
    → t.size ≤ control_node
    → create_new_node v w t ≡ ok (some t.size, with_node v w t)
unfolding create_new_node
create_new_node_lem v w t h = rw (write_lem t.size (record t { size = t.size + 1 }) h)

-- The two ways of `insert` below the limit.
insert_first :
    (v w : ℤ) (t : Treap)
    → t.size ≡ 0
    → insert v w t ≡ ok (record (with_node v w t) { root = some t.size })
unfolding insert
insert_first v w t e = ground (arith, create_new_node_lem v w t)

insert_next :
    (v w : ℤ) (t : Treap)
    → t.size ≢ 0
    → t.size < treap_nodes
    → insert v w t ≡ (bst_insert (some t.size) (with_node v w t) >>= move_up (some t.size))
unfolding insert
insert_next v w t n h = ground (arith, create_new_node_lem v w t)

-- Where an operation leads that returns a treap.
abbrev pub Gives : List ℤ → Outcome Treap → Type 0
Gives vs run = (u : Treap) × (run ≡ ok u) × Represents u vs

-- The same, with the weights and the values of the larger array, and the order of the weights, if the
-- tree `x` of before has it.
abbrev pub Inserts : ℤ → ℤ → Treap → Tree → List ℤ → Outcome Treap → Type 0
Inserts v w t x vs run =
    (u : Treap) × (run ≡ ok u)
    × (held : Represents u vs) × Keeps (with_node v w t) u
    × ((q : ℕ → ℤ)
        → ((a : ℕ) → ((with_node v w t).nodes a).weight ≡ q a)
        → IsHeap q x
        → IsHeap q held.tree)

module _ (v w : ℤ) (t : Treap) where
  pub with_node_ne : (a : ℕ) → a ≢ t.size → (with_node v w t).nodes a ≡ t.nodes a
  with_node_ne a h = rw (eq_ne a t.size h)

  pub with_node_self :
      (with_node v w t).nodes t.size
      ≡ record { val = v; weight = w; parent = none; left = none; right = none }
  with_node_self = rw (eq_self t.size)

  with_node_same :
      (x : Tree) → IsTreap t x → (a : ℕ) → 0 < count a x → (with_node v w t).nodes a ≡ t.nodes a
  with_node_same x is a p =
      with_node_ne a
        (ne_of (λ b. count b x) a t.size p (omega (arith, is.exact t.size, below_self t.size)))

  -- The new node is not in the tree, which the larger array still holds.
  with_node-Ready :
      (x : Tree) → IsTreap t x → t.size < treap_nodes → Ready (with_node v w t) top x t.size
  with_node-Ready x is h =
      let out : count t.size x ≡ 0 = omega (arith, is.exact t.size, below_self t.size) in
      let same = with_node_same x is in
      record {
        focus = record {
          around = is.root;
          shape = Shape-frame t.nodes (with_node v w t).nodes none x is.shape same;
          distinct = λ a. omega (arith, is.exact a, below-le a t.size);
        };
        fresh = record {
          bound = omega arith;
          left = rw with_node_self;
          right = rw with_node_self;
          out_ctx = refl;
          out = out;
        };
        sorted = rw (vals-frame_tree t (with_node v w t) x same) is.sorted;
        fits = record { low = tt; high = tt };
      }

  below-suc : (a n : ℕ) → below a n + one a n ≡ below a (n + 1)
  below-suc a n = ground arith

  insert_leaf : IsTreap t leaf → t.size ≡ 0 → Inserts v w t leaf (v ∷ []) (insert v w t)
  insert_leaf is e = (
    record (with_node v w t) { root = some t.size },
    insert_first v w t e,
    record {
      tree = node leaf t.size leaf;
      is = record {
        root = refl;
        shape = (omega arith, rw with_node_self, rw with_node_self, rw with_node_self, tt, tt);
        exact = λ a. omega (arith, below-suc a t.size, is.exact a);
        fits = omega arith;
        sorted = (tt, tt);
      };
      values = rw with_node_self;
    },
    record { val = λ a. refl; weight = λ a. refl; size = refl },
    λ q same h. (tt, tt, tt, tt),
  )

  insert_node :
      (l : Tree) (s : ℕ) (r : Tree)
      → IsTreap t (node l s r)
      → t.size ≢ 0
      → t.size < treap_nodes
      → Inserts v w t (node l s r) (insert_sorted v (vals t (inorder (node l s r)))) (insert v w t)
  insert_node l s r is n h =
      let x = node l s r in
      let t₁ = with_node v w t in
      let ready = with_node-Ready x is h in
      let (u, run, p) = place t₁ l s r t.size ready in
      let (shape, root) = grown_held t₁ x t.size u p in
      let value : (t₁.nodes t.size).val ≡ v = rw with_node_self in
      let values : vals u (inorder (grown t₁ x t.size u p)) ≡ insert_sorted v (vals t (inorder x)) =
        vals-grown t₁ x t.size u p
        ∙ ap (λ z. insert_sorted z (vals t₁ (inorder x))) value
        ∙ ap (insert_sorted v) (vals-frame_tree t t₁ x (with_node_same x is)) in
      (
        u,
        insert_next v w t n h ∙ run,
        record {
          tree = grown t₁ x t.size u p;
          is = record {
            root = root;
            shape = shape;
            exact = λ a.
                count-grown t₁ x t.size u p a
                ∙ rw (is.exact a) (below-suc a t.size)
                ∙ ap (below a) (sym p.keeps.size);
            fits = omega (arith, p.keeps.size);
            sorted = rw values (insert_sorted-IsSorted v (vals t (inorder x)) is.sorted);
          };
          values = values;
        },
        p.keeps,
        grown-IsHeap t₁ x t.size u p,
      )

pub insert_kept :
    (v w : ℤ) (t : Treap) (vs : List ℤ)
    → (r : Represents t vs) → length vs < treap_nodes
    → Inserts v w t r.tree (insert_sorted v vs) (insert v w t)
unfolding insert_sorted
insert_kept v w t vs r h = go r.tree r.is r.values
  where
    go :
        (x : Tree)
        → IsTreap t x
        → vals t (inorder x) ≡ vs
        → Inserts v w t x (insert_sorted v vs) (insert v w t)
    go leaf is e =
        subst (λ z. Inserts v w t leaf (insert_sorted v z) (insert v w t)) e
          (insert_leaf v w t is (sym (size_of_exact t.size leaf is.exact)))
    go (node l s r') is e = rw e at (
        insert_node v w t l s r' is
          (λ z. omega (arith, size_of_exact t.size (node l s r') is.exact))
          (omega (arith, size-Represents t vs r)))

-- On a well-formed treap that holds fewer than 64 values, `insert` returns a well-formed treap that
-- holds these values with the new one inserted in order.
pub insert-Represents :
    (v w : ℤ) (t : Treap) (vs : List ℤ)
    → Represents t vs
    → length vs < treap_nodes
    → Gives (insert_sorted v vs) (insert v w t)
insert-Represents v w t vs r h =
    let (u, run, held, _, _) = insert_kept v w t vs r h in (u, run, held)

-- On a well-formed treap that holds 64 values, `insert` throws `out_of_range`.
pub insert_full :
    (v w : ℤ) (t : Treap) (vs : List ℤ)
    → Represents t vs
    → length vs ≡ treap_nodes
    → insert v w t ≡ throw out_of_range
unfolding insert
insert_full v w t vs r h = ground (arith, size-Represents t vs r)
