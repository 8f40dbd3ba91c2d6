-- ===== src/Treap/Wiring.antt =====
-- The single writes of the treap code: that they do not fault on nodes of the array, and what they
-- do to the tree that the array holds.
use lock_free_search_tree.Base.{
  ℕ, ◌+◌, ◌≤◌, ◌≡◌, ◌≢◌, refl, sym, ◌∙◌, true, false, some, arith, ◌==◌, leb, update, ok,
}
use lock_free_search_tree.Treap.State.{
  control_node, TreapIndex, same_index, TreapNode, Treap, node_at, write, set_parent, set_left,
  set_right, set_parent_unless_null, replace_child,
}
use lock_free_search_tree.Treap.Shape.{
  Tree, leaf, node, Ctx, top, in_left, in_right, root_of, parent_of, count, count_ctx, Shape,
  Around, Shape-frame, Around-frame, one_self, ne_of, apart_self,
}

pub leb-true : (i n : ℕ) → i ≤ n → leb i n ≡ true
leb-true i n h = ground arith

pub eq_self : (i : ℕ) → (i == i) ≡ true
eq_self i = ground arith

pub eq_ne : (i j : ℕ) → i ≢ j → (i == j) ≡ false
eq_ne i j h = ground arith

-- The array after a write of one field, which changes that node alone.
module _ (i : ℕ) (p : TreapIndex) (f : ℕ → TreapNode) where
  pub put_parent : ℕ → TreapNode
  put_parent = update f i (record (f i) { parent = p })

  pub put_left : ℕ → TreapNode
  put_left = update f i (record (f i) { left = p })

  pub put_right : ℕ → TreapNode
  put_right = update f i (record (f i) { right = p })

  pub put_parent_self : put_parent i ≡ record (f i) { parent = p }
  unfolding put_parent
  put_parent_self = rw (eq_self i)

  pub put_left_self : put_left i ≡ record (f i) { left = p }
  unfolding put_left
  put_left_self = rw (eq_self i)

  pub put_right_self : put_right i ≡ record (f i) { right = p }
  unfolding put_right
  put_right_self = rw (eq_self i)

  pub put_parent_ne : (a : ℕ) → a ≢ i → put_parent a ≡ f a
  unfolding put_parent
  put_parent_ne a h = rw (eq_ne a i h)

  pub put_left_ne : (a : ℕ) → a ≢ i → put_left a ≡ f a
  unfolding put_left
  put_left_ne a h = rw (eq_ne a i h)

  pub put_right_ne : (a : ℕ) → a ≢ i → put_right a ≡ f a
  unfolding put_right
  put_right_ne a h = rw (eq_ne a i h)

module _ (i : ℕ) (t : Treap) (bound : i ≤ control_node) where
  pub node_at_lem : node_at (some i) t ≡ ok (t.nodes i)
  unfolding node_at
  node_at_lem = rw (leb-true i control_node bound)

  pub write_lem :
      (n : TreapNode) → write (some i) n t ≡ ok (record t { nodes = update t.nodes i n })
  unfolding write
  write_lem n = rw (leb-true i control_node bound)

  pub set_parent_lem :
      (p : TreapIndex) → set_parent (some i) p t ≡ ok (record t { nodes = put_parent i p t.nodes })
  unfolding set_parent node_at write put_parent
  set_parent_lem p = rw (leb-true i control_node bound)

  pub set_left_lem :
      (p : TreapIndex) → set_left (some i) p t ≡ ok (record t { nodes = put_left i p t.nodes })
  unfolding set_left node_at write put_left
  set_left_lem p = rw (leb-true i control_node bound)

  pub set_right_lem :
      (p : TreapIndex) → set_right (some i) p t ≡ ok (record t { nodes = put_right i p t.nodes })
  unfolding set_right node_at write put_right
  set_right_lem p = rw (leb-true i control_node bound)

-- Values, weights and the size stay.
pub record Keeps (t u : Treap) : Type 0 where
  pub val : (a : ℕ) → (u.nodes a).val ≡ (t.nodes a).val
  pub weight : (a : ℕ) → (u.nodes a).weight ≡ (t.nodes a).weight
  pub size : u.size ≡ t.size

pub Keeps-refl : (t : Treap) → Keeps t t
Keeps-refl t = record { val = λ a. refl; weight = λ a. refl; size = refl }

pub Keeps-trans : (t u v : Treap) → Keeps t u → Keeps u v → Keeps t v
Keeps-trans t u v h k = record {
  val = λ a. k.val a ∙ h.val a;
  weight = λ a. k.weight a ∙ h.weight a;
  size = k.size ∙ h.size;
}

module _ (i : ℕ) (p : TreapIndex) (t : Treap) where
  pub Keeps-put_parent : Keeps t (record t { nodes = put_parent i p t.nodes })
  unfolding put_parent
  Keeps-put_parent = record { val = λ a. ground arith; weight = λ a. ground arith; size = refl }

  pub Keeps-put_left : Keeps t (record t { nodes = put_left i p t.nodes })
  unfolding put_left
  Keeps-put_left = record { val = λ a. ground arith; weight = λ a. ground arith; size = refl }

  pub Keeps-put_right : Keeps t (record t { nodes = put_right i p t.nodes })
  unfolding put_right
  Keeps-put_right = record { val = λ a. ground arith; weight = λ a. ground arith; size = refl }

-- What a change of parents below a node leaves: the tree hangs below its new parent, and nothing
-- outside it changed.
pub record Reparented (t : Treap) (p : TreapIndex) (x : Tree) (u : Treap) : Type 0 where
  pub shape : Shape u.nodes p x
  pub outside : (a : ℕ) → count a x ≡ 0 → u.nodes a ≡ t.nodes a
  pub root : u.root ≡ t.root
  pub keeps : Keeps t u

pub reparent :
    (t : Treap) (p q : TreapIndex) (x : Tree)
    → Shape t.nodes p x
    → ((a : ℕ) → count a x ≤ 1)
    → (u : Treap) × (set_parent_unless_null (root_of x) q t ≡ ok u) × Reparented t q x u
unfolding set_parent_unless_null
reparent t p q leaf s d =
    (t, refl, record { shape = tt; outside = λ a h. refl; root = refl; keeps = Keeps-refl t })
reparent t p q (node l k r) (bound, up, left, right, hl, hr) d =
    let g = put_parent k q t.nodes in
    let u : Treap = record t { nodes = g } in
    let self : g k ≡ record (t.nodes k) { parent = q } = put_parent_self k q t.nodes in
    (
      u,
      set_parent_lem k t bound q,
      record {
        shape = (
          bound,
          rw self,
          rw self left,
          rw self right,
          Shape-frame t.nodes g (some k) l hl (λ a h.
              put_parent_ne k q t.nodes a
                (ne_of (λ b. count b l) a k h (omega (arith, one_self k, d k)))),
          Shape-frame t.nodes g (some k) r hr (λ a h.
              put_parent_ne k q t.nodes a
                (ne_of (λ b. count b r) a k h (omega (arith, one_self k, d k)))),
        );
        outside = λ a h. put_parent_ne k q t.nodes a (λ e. apart_self a k _ _ h e);
        root = refl;
        keeps = Keeps-put_parent k q t;
      },
    )

-- What a change of the child in a hole leaves.
pub record Rehung (t : Treap) (j : TreapIndex) (c : Ctx) (u : Treap) : Type 0 where
  pub around : Around u.nodes u.root j c
  pub outside : (a : ℕ) → count_ctx a c ≡ 0 → u.nodes a ≡ t.nodes a
  pub keeps : Keeps t u

pub not_child : (i : ℕ) (x : Tree) → count i x ≡ 0 → same_index (root_of x) (some i) ≡ false
not_child i leaf h = refl
not_child i (node l k r) h = eq_ne k i (λ e. apart_self i k _ _ h (sym e))

pub rehang :
    (t : Treap) (i : ℕ) (j : TreapIndex) (c : Ctx)
    → Around t.nodes t.root (some i) c
    → ((a : ℕ) → count_ctx a c ≤ 1)
    → count_ctx i c ≡ 0
    → (u : Treap) × (replace_child (parent_of c) (some i) j t ≡ ok u) × Rehung t j c u
unfolding replace_child
rehang t i j top h d out = (
  record t { root = j },
  refl,
  record {
    around = refl;
    outside = λ a h. refl;
    keeps = record { val = λ a. refl; weight = λ a. refl; size = refl };
  },
)
rehang t i j (in_left k r c) (bound, up, left, right, hr, hc) d out =
    let g = put_left k j t.nodes in
    let u : Treap = record t { nodes = g } in
    let self : g k ≡ record (t.nodes k) { left = j } = put_left_self k j t.nodes in
    (
      u,
      rw (node_at_lem k t bound, left, eq_self i) (set_left_lem k t bound j),
      record {
        around = (
          bound,
          rw self up,
          rw self,
          rw self right,
          Shape-frame t.nodes g (some k) r hr (λ a h.
              put_left_ne k j t.nodes a
                (ne_of (λ b. count b r) a k h (omega (arith, one_self k, d k)))),
          Around-frame t.nodes g t.root (some k) c hc (λ a h.
              put_left_ne k j t.nodes a
                (ne_of (λ b. count_ctx b c) a k h (omega (arith, one_self k, d k)))),
        );
        outside = λ a h.
            put_left_ne k j t.nodes a (apart_self a k 0 (count a r + count_ctx a c) (omega arith));
        keeps = Keeps-put_left k j t;
      },
    )
rehang t i j (in_right l k c) (bound, up, left, right, hl, hc) d out =
    let g = put_right k j t.nodes in
    let u : Treap = record t { nodes = g } in
    let self : g k ≡ record (t.nodes k) { right = j } = put_right_self k j t.nodes in
    let other : same_index (t.nodes k).left (some i) ≡ false =
      rw left (not_child i l (omega arith)) in
    (
      u,
      rw (node_at_lem k t bound, other) (set_right_lem k t bound j),
      record {
        around = (
          bound,
          rw self up,
          rw self left,
          rw self,
          Shape-frame t.nodes g (some k) l hl (λ a h.
              put_right_ne k j t.nodes a
                (ne_of (λ b. count b l) a k h (omega (arith, one_self k, d k)))),
          Around-frame t.nodes g t.root (some k) c hc (λ a h.
              put_right_ne k j t.nodes a
                (ne_of (λ b. count_ctx b c) a k h (omega (arith, one_self k, d k)))),
        );
        outside = λ a h. put_right_ne k j t.nodes a (apart_self a k _ _ h);
        keeps = Keeps-put_right k j t;
      },
    )
