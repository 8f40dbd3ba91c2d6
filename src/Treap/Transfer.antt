-- ===== src/Treap/Transfer.antt =====
-- `transferNodesFrom` ends, and puts a copy of the subtree behind the nodes of the treap.
use lock_free_search_tree.Base.{
  Outcome, ℕ, zero, suc, ◌+◌, ◌-◌, ◌≤◌, ◌<◌, ◌≡◌, ◌≢◌, refl, sym, ap, ◌∙◌, Bool, true, false, none,
  some, List, [], ◌∷◌, arith, ℤ, ok,
}
use native.Mathlib.Decide.{dec_lt}
use lock_free_search_tree.Treap.State.{control_node, TreapIndex, TreapNode, Treap}
use lock_free_search_tree.Treap.Bulk.{
  TransferInfo, attach, push_child, transfer_loop, transfer_nodes_from,
}
use lock_free_search_tree.Treap.Shape.{Tree, leaf, node, root_of, count, Shape}
use lock_free_search_tree.Treap.Wiring.{
  node_at_lem, set_parent_lem, set_left_lem, set_right_lem, put_parent, put_left, put_right,
  put_parent_self, put_parent_ne, put_left_self, put_left_ne, put_right_self, put_right_ne,
}
use lock_free_search_tree.Treap.Values.{size}
use lock_free_search_tree.Treap.Insert.{
  with_node, with_node_self, with_node_ne, create_new_node_lem,
}
use lock_free_search_tree.Treap.Graft.{
  Copies, put_side, put_side-none, within, within_none, within-cons, Grafts, fill,
}

abbrev child : Bool → ℕ → ℕ → TransferInfo
child b p k = record { is_left_child = b; new_parent_index = some p; original_index = k }

-- The writes that hang the node `i` below `p`.
abbrev put_child : Bool → ℕ → ℕ → (ℕ → TreapNode) → ℕ → TreapNode
put_child true p i f = put_left p (some i) (put_parent i (some p) f)
put_child false p i f = put_right p (some i) (put_parent i (some p) f)

abbrev placed : Bool → ℕ → ℕ → Treap → Treap
placed b p i t = record t { nodes = put_child b p i t.nodes }

attach_lem :
    (b : Bool) (p i k : ℕ) (t : Treap)
    → p ≤ control_node
    → i ≤ control_node
    → attach (child b p k) (some i) t ≡ ok (placed b p i t)
unfolding attach
attach_lem true p i k t hp hi =
    rw (set_parent_lem i t hi (some p))
      (set_left_lem p (record t { nodes = put_parent i (some p) t.nodes }) hp (some i))
attach_lem false p i k t hp hi =
    rw (set_parent_lem i t hi (some p))
      (set_right_lem p (record t { nodes = put_parent i (some p) t.nodes }) hp (some i))

module _ (b : Bool) (p i : ℕ) (f : ℕ → TreapNode) (ne : i ≢ p) where
  put_child_new : put_child b p i f i ≡ record (f i) { parent = some p }
  put_child_new = elim b as (λ b. put_child b p i f i ≡ record (f i) { parent = some p }) [
    | true ↦ put_left_ne p (some i) (put_parent i (some p) f) i ne ∙ put_parent_self i (some p) f
    | false ↦ put_right_ne p (some i) (put_parent i (some p) f) i ne ∙ put_parent_self i (some p) f
  ]

  put_child_parent : put_child b p i f p ≡ put_side b (some i) (f p)
  put_child_parent = elim b as (λ b. put_child b p i f p ≡ put_side b (some i) (f p)) [
    | true ↦
        put_left_self p (some i) (put_parent i (some p) f)
        ∙ ap (put_side true (some i)) (put_parent_ne i (some p) f p (λ e. ne (sym e)))
    | false ↦
        put_right_self p (some i) (put_parent i (some p) f)
        ∙ ap (put_side false (some i)) (put_parent_ne i (some p) f p (λ e. ne (sym e)))
  ]

  put_child_ne : (a : ℕ) → a ≢ i → a ≢ p → put_child b p i f a ≡ f a
  put_child_ne a h k = elim b as (λ b. put_child b p i f a ≡ f a) [
    | true ↦ put_left_ne p (some i) (put_parent i (some p) f) a k ∙ put_parent_ne i (some p) f a h
    | false ↦ put_right_ne p (some i) (put_parent i (some p) f) a k ∙ put_parent_ne i (some p) f a h
  ]

ne_of_lt : (a i : ℕ) → a < i → a ≢ i
ne_of_lt a i h e = omega arith

module _ (draws : ℕ → ℤ) (other : Treap) where
  -- The new node for the node `k` of the other treap.
  abbrev copied : ℕ → Treap → Treap
  copied k t = with_node (other.nodes k).val (draws t.size) t

  transfer_step :
      (f : ℕ) (b : Bool) (p k : ℕ) (stack : List TransferInfo) (root : TreapIndex) (t : Treap)
      → k ≤ control_node
      → p ≤ control_node
      → t.size ≤ control_node
      → transfer_loop draws other (suc f) (child b p k ∷ stack) root t
        ≡ transfer_loop draws other f
            (push_child false
              (some t.size)
              (other.nodes k).right
              (push_child true (some t.size) (other.nodes k).left stack))
            root
            (placed b p t.size (copied k t))
  unfolding transfer_loop
  transfer_step f b p k stack root t hk hp hi = rw (
    node_at_lem k other hk,
    create_new_node_lem (other.nodes k).val (draws t.size) t hi,
    attach_lem b p t.size k (copied k t) hp hi,
  )

  graft_leaf : Grafts draws other leaf
  graft_leaf t b p q s hp room e = (
    t,
    record {
      tree = leaf;
      grown = omega arith;
      root = refl;
      others = λ a h n. refl;
      parent = put_side-none b (t.nodes p) e;
      shape = tt;
      exact = λ a. sym (within_none t.size a);
      copy = tt;
      weights = λ a h k. absurd (omega arith);
      run = λ f g stack root e. let e' : g ≡ f = omega arith in rw e';
    },
  )

  graft_node :
      (l : Tree) (k : ℕ) (r : Tree)
      → Grafts draws other l
      → Grafts draws other r
      → Grafts draws other (node l k r)
  graft_node l k r gl gr t b p q (hk, _, left, right, hl, hr) hp room e =
      let i = t.size in
      let t₁ = copied k t in
      let t₂ = placed b p i t₁ in
      let i≢p : i ≢ p = λ e. ne_of_lt p i hp (sym e) in
      let new : t₂.nodes i ≡ record {
        val = (other.nodes k).val;
        weight = draws i;
        parent = some p;
        left = none;
        right = none;
      } =
        put_child_new b p i t₁.nodes i≢p
        ∙ ap {A = TreapNode} (λ n. record n { parent = some p })
            (with_node_self (other.nodes k).val (draws i) t) in
      let at_p : t₂.nodes p ≡ put_side b (some i) (t.nodes p) =
        put_child_parent b p i t₁.nodes i≢p
        ∙ ap (put_side b (some i))
            (with_node_ne (other.nodes k).val (draws i) t p (λ e. i≢p (sym e))) in
      let others : (a : ℕ) → a < i → a ≢ p → t₂.nodes a ≡ t.nodes a = λ a h n.
        put_child_ne b p i t₁.nodes i≢p a (ne_of_lt a i h) n
        ∙ with_node_ne (other.nodes k).val (draws i) t a (ne_of_lt a i h) in
      let (u, h) =
        fill draws other t₂ i l r (some k) hl hr (omega arith) (omega arith) (rw new) (rw new) gr
          gl in
      (
        u,
        record {
          tree = node h.left i h.right;
          grown = omega (arith, h.grown);
          root = h.root;
          others = λ a m n. h.others a (omega arith) (ne_of_lt a i m) ∙ others a m n;
          parent = h.others p (omega arith) (λ e. i≢p (sym e)) ∙ at_p;
          shape = rw new at h.shape;
          exact = λ a. omega (arith, h.exact a, within-cons t.size (size r) (size l) a);
          copy = (h.copy_left, h.own_value ∙ rw new, h.copy_right);
          weights = λ a m n. elim (dec_lt i a) [
            | yes later ↦ h.weights a (omega arith) n
            | no first ↦ let e : a ≡ i = omega arith in rw e (h.own ∙ rw new)
          ];
          run = λ f g stack root e.
              let e' : g ≡ suc (size r + (size l + f)) = omega arith in
              rw e' (
                (rw (left, right) at
                  (transfer_step (size r + (size l + f)) b p k stack root t hk (omega arith)
                    (omega arith)))
                ∙ h.run f (size r + (size l + f)) stack root refl);
        },
      )

  graft : (x : Tree) → Grafts draws other x
  graft leaf = graft_leaf
  graft (node l k r) = graft_node l k r (graft l) (graft r)

  abbrev root_info : ℕ → TransferInfo
  root_info k = record { is_left_child = false; new_parent_index = none; original_index = k }

  first_step :
      (f k : ℕ) (t : Treap)
      → k ≤ control_node
      → t.size ≤ control_node
      → transfer_loop draws other (suc f) (root_info k ∷ []) none t
        ≡ transfer_loop draws other f
            (push_child false
              (some t.size)
              (other.nodes k).right
              (push_child true (some t.size) (other.nodes k).left []))
            (some t.size)
            (copied k t)
  unfolding transfer_loop attach
  first_step f k t hk hi =
      rw (node_at_lem k other hk, create_new_node_lem (other.nodes k).val (draws t.size) t hi)

  last_step :
      (f : ℕ) (root : TreapIndex) (t : Treap)
      → 0 < f
      → transfer_loop draws other f [] root t ≡ ok (root, t)
  unfolding transfer_loop
  last_step zero root t h = absurd (omega arith)
  last_step (suc f) root t h = refl

-- `u` is `t` with a copy of the tree `x` of `other` behind its nodes, whose root has no parent.
pub record Transferred (draws : ℕ → ℤ) (other t : Treap) (x : Tree) (u : Treap) : Type 0 where
  pub tree : Tree
  pub top : root_of tree ≡ some t.size
  pub grown : u.size ≡ t.size + size x
  pub root : u.root ≡ t.root
  pub others : (a : ℕ) → a < t.size → u.nodes a ≡ t.nodes a
  pub shape : Shape u.nodes none tree
  pub exact : (a : ℕ) → count a tree ≡ within t.size (size x) a
  pub copy : Copies other u x tree
  pub weights : (a : ℕ) → t.size ≤ a → a < u.size → (u.nodes a).weight ≡ draws a

-- Where a transfer leads.
abbrev pub Transfers :
    (draws : ℕ → ℤ) → Treap → Treap → Tree → Outcome (TreapIndex × Treap) → Type 0
Transfers draws other t x run =
    (u : Treap) × (run ≡ ok (some t.size, u)) × Transferred draws other t x u

-- For the root of a subtree of one treap, and another with room for it within its limit,
-- `transferNodesFrom` ends and returns the first free index; a copy of the subtree is rooted there, with
-- its structure and its value at each place, the indices that follow and weights that are drawn anew,
-- and the nodes of before are as they were.
pub transfer_nodes_from_lem :
    (draws : ℕ → ℤ) (other t : Treap) (q : TreapIndex) (l : Tree) (k : ℕ) (r : Tree)
    → Shape other.nodes q (node l k r)
    → t.size + size (node l k r) ≤ control_node
    → Transfers draws other t (node l k r) (transfer_nodes_from draws other (some k) t)
unfolding transfer_nodes_from
transfer_nodes_from_lem draws other t q l k r (hk, _, left, right, hl, hr) room =
    let i = t.size in
    let t₁ = copied draws other k t in
    let new : t₁.nodes i ≡ record {
      val = (other.nodes k).val;
      weight = draws i;
      parent = none;
      left = none;
      right = none;
    } =
      with_node_self (other.nodes k).val (draws i) t in
    let (u, h) =
      fill draws other t₁ i l r (some k) hl hr (omega arith) (omega arith) (rw new) (rw new)
        (graft draws other r) (graft draws other l) in
    let rest = 65 - (size r + size l) in
    (
      u,
      (rw (left, right) at (first_step draws other 65 k t hk (omega arith)))
          ∙ h.run rest 65 [] (some i) (omega arith)
          ∙ last_step draws other rest (some i) u (omega arith),
      record {
        tree = node h.left i h.right;
        top = refl;
        grown = omega (arith, h.grown);
        root = h.root;
        others = λ a m.
            h.others a (omega arith) (ne_of_lt a i m)
            ∙ with_node_ne (other.nodes k).val (draws i) t a (ne_of_lt a i m);
        shape = rw new at h.shape;
        exact = λ a. omega (arith, h.exact a, within-cons t.size (size r) (size l) a);
        copy = (h.copy_left, h.own_value ∙ rw new, h.copy_right);
        weights = λ a m n. elim (dec_lt i a) [
          | yes later ↦ h.weights a (omega arith) n
          | no first ↦ let e : a ≡ i = omega arith in rw e (h.own ∙ rw new)
        ];
      },
    )
