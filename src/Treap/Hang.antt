-- ===== src/Treap/Hang.antt =====
-- The writes of `bstInsert`: a new leaf below a node without a child on that side.
use lock_free_search_tree.Base.{
  ℕ, ◌+◌, ◌≤◌, ◌≡◌, ◌≢◌, refl, sym, ◌∙◌, none, some, arith, ℤ, ◌≤ℤ◌, ◌<ℤ◌, Outcome, ok, ◌>>=◌, All,
}
use lock_free_search_tree.Treap.State.{control_node, Treap, set_left, set_right, set_parent}
use lock_free_search_tree.Treap.Shape.{
  Tree, leaf, node, Ctx, in_left, in_right, plug, one, count, count_ctx, before, after, one_self,
  ne_of, apart_self, Shape-frame, Around-frame,
}
use lock_free_search_tree.Treap.Wiring.{
  put_parent, put_left, put_right, put_parent_self, put_left_self, put_right_self, put_parent_ne,
  put_left_ne, put_right_ne, set_parent_lem, set_left_lem, set_right_lem, Keeps, Keeps-trans,
  Keeps-put_parent, Keeps-put_left, Keeps-put_right,
}
use lock_free_search_tree.Treap.Focus.{Focus}
use lock_free_search_tree.Treap.Values.{vals}

-- A node of the array that is not in the tree, and has no children.
pub record IsFresh (t : Treap) (c : Ctx) (x : Tree) (i : ℕ) : Type 0 where
  pub bound : i ≤ control_node
  pub left : (t.nodes i).left ≡ none
  pub right : (t.nodes i).right ≡ none
  pub out_ctx : count_ctx i c ≡ 0
  pub out : count i x ≡ 0

-- The value `v` belongs into the hole.
pub record Fits (t : Treap) (v : ℤ) (c : Ctx) : Type 0 where
  pub low : All (λ x. x ≤ℤ v) (vals t (before c))
  pub high : All (λ x. v <ℤ x) (vals t (after c))

-- Where `bstInsert` leads: the tree is as before, but for the new leaf.
pub record Hung (t : Treap) (c : Ctx) (x : Tree) (i : ℕ) (u : Treap) : Type 0 where
  pub ctx : Ctx
  pub focus : Focus u ctx (node leaf i leaf)
  pub same : plug ctx leaf ≡ plug c x
  pub fits : Fits t (t.nodes i).val ctx
  pub keeps : Keeps t u

abbrev pub Hangs : Treap → Ctx → Tree → ℕ → Outcome Treap → Type 0
Hangs t c x i run = (u : Treap) × (run ≡ ok u) × Hung t c x i u

-- An index more in a hole, where it did not stand.
distinct_more : (m : ℕ → ℕ) (i : ℕ) → ((a : ℕ) → m a ≤ 1) → m i ≡ 0 → (e : ℕ) → m e + one e i ≤ 1
distinct_more m i d z e = ground (arith, d e)

module _ (t : Treap) (c : Ctx) (s : ℕ) (x : Tree) (i : ℕ) where
  -- The two writes at a node without a left child.
  abbrev pub hung_left : Treap
  hung_left = record t { nodes = put_parent i (some s) (put_left s (some i) t.nodes) }

  hang_left-Focus :
      Focus t c (node leaf s x)
      → IsFresh t c (node leaf s x) i
      → Focus hung_left (in_left s x c) (node leaf i leaf)
  hang_left-Focus h new =
      let (bound, up, left, right, _, hx) = h.shape in
      let t₂ = hung_left in
      let i≢s : i ≢ s = apart_self i s 0 (count i x) (omega (arith, new.out)) in
      let s≢i : s ≢ i = λ e. i≢s (sym e) in
      let same : (e : ℕ) → e ≢ s → e ≢ i → t₂.nodes e ≡ t.nodes e = λ e p q.
        put_parent_ne i (some s) (put_left s (some i) t.nodes) e q
        ∙ put_left_ne s (some i) t.nodes e p in
      let at_s : t₂.nodes s ≡ record (t.nodes s) { left = some i } =
        put_parent_ne i (some s) (put_left s (some i) t.nodes) s s≢i
        ∙ put_left_self s (some i) t.nodes in
      let at_i : t₂.nodes i ≡ record (t.nodes i) { parent = some s } = rw (
        put_parent_self i (some s) (put_left s (some i) t.nodes),
        put_left_ne s (some i) t.nodes i i≢s,
      ) in
      record {
        around = (
          bound,
          rw at_s up,
          rw at_s,
          rw at_s right,
          Shape-frame t.nodes t₂.nodes (some s) x hx λ e p.
              same e (ne_of (λ e. count e x) e s p (omega (arith, one_self s, h.distinct s)))
                (ne_of (λ e. count e x) e i p (omega (arith, new.out))),
          Around-frame t.nodes t₂.nodes t.root (some s) c h.around λ e p.
              same e (ne_of (λ e. count_ctx e c) e s p (omega (arith, one_self s, h.distinct s)))
                (ne_of (λ e. count_ctx e c) e i p new.out_ctx),
        );
        shape = (new.bound, rw at_i, rw at_i new.left, rw at_i new.right, tt, tt);
        distinct = λ e. omega (
          arith,
          distinct_more (λ e. count_ctx e (in_left s x c)) i (λ a. omega (arith, h.distinct a))
              (omega (arith, new.out, new.out_ctx)) e,
        );
      }

  pub hang_left :
      Focus t c (node leaf s x)
      → IsFresh t c (node leaf s x) i
      → Fits t (t.nodes i).val (in_left s x c)
      → Hangs t c (node leaf s x) i (set_left (some s) (some i) t >>= set_parent (some i) (some s))
  hang_left h new fits =
      let t₁ : Treap = record t { nodes = put_left s (some i) t.nodes } in
      (
        hung_left,
        rw (set_left_lem s t h.shape.0 (some i)) (set_parent_lem i t₁ new.bound (some s)),
        record {
          ctx = in_left s x c;
          focus = hang_left-Focus h new;
          same = refl;
          fits = fits;
          keeps =
              Keeps-trans t t₁ hung_left (Keeps-put_left s (some i) t)
                (Keeps-put_parent i (some s) t₁);
        },
      )

module _ (t : Treap) (c : Ctx) (s : ℕ) (x : Tree) (i : ℕ) where
  -- The two writes at a node without a right child.
  abbrev pub hung_right : Treap
  hung_right = record t { nodes = put_parent i (some s) (put_right s (some i) t.nodes) }

  hang_right-Focus :
      Focus t c (node x s leaf)
      → IsFresh t c (node x s leaf) i
      → Focus hung_right (in_right x s c) (node leaf i leaf)
  hang_right-Focus h new =
      let (bound, up, left, right, hx, _) = h.shape in
      let t₂ = hung_right in
      let i≢s : i ≢ s = apart_self i s (count i x) 0 (omega (arith, new.out)) in
      let s≢i : s ≢ i = λ e. i≢s (sym e) in
      let same : (e : ℕ) → e ≢ s → e ≢ i → t₂.nodes e ≡ t.nodes e = λ e p q.
        put_parent_ne i (some s) (put_right s (some i) t.nodes) e q
        ∙ put_right_ne s (some i) t.nodes e p in
      let at_s : t₂.nodes s ≡ record (t.nodes s) { right = some i } =
        put_parent_ne i (some s) (put_right s (some i) t.nodes) s s≢i
        ∙ put_right_self s (some i) t.nodes in
      let at_i : t₂.nodes i ≡ record (t.nodes i) { parent = some s } = rw (
        put_parent_self i (some s) (put_right s (some i) t.nodes),
        put_right_ne s (some i) t.nodes i i≢s,
      ) in
      record {
        around = (
          bound,
          rw at_s up,
          rw at_s left,
          rw at_s,
          Shape-frame t.nodes t₂.nodes (some s) x hx λ e p.
              same e (ne_of (λ e. count e x) e s p (omega (arith, one_self s, h.distinct s)))
                (ne_of (λ e. count e x) e i p (omega (arith, new.out))),
          Around-frame t.nodes t₂.nodes t.root (some s) c h.around λ e p.
              same e (ne_of (λ e. count_ctx e c) e s p (omega (arith, one_self s, h.distinct s)))
                (ne_of (λ e. count_ctx e c) e i p new.out_ctx),
        );
        shape = (new.bound, rw at_i, rw at_i new.left, rw at_i new.right, tt, tt);
        distinct = λ e. omega (
          arith,
          distinct_more (λ e. count_ctx e (in_right x s c)) i (λ a. omega (arith, h.distinct a))
              (omega (arith, new.out, new.out_ctx)) e,
        );
      }

  pub hang_right :
      Focus t c (node x s leaf)
      → IsFresh t c (node x s leaf) i
      → Fits t (t.nodes i).val (in_right x s c)
      → Hangs t c (node x s leaf) i (set_right (some s) (some i) t >>= set_parent (some i) (some s))
  hang_right h new fits =
      let t₁ : Treap = record t { nodes = put_right s (some i) t.nodes } in
      (
        hung_right,
        rw (set_right_lem s t h.shape.0 (some i)) (set_parent_lem i t₁ new.bound (some s)),
        record {
          ctx = in_right x s c;
          focus = hang_right-Focus h new;
          same = refl;
          fits = fits;
          keeps =
              Keeps-trans t t₁ hung_right (Keeps-put_right s (some i) t)
                (Keeps-put_parent i (some s) t₁);
        },
      )
