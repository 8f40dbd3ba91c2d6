-- ===== src/Treap/Graft.antt =====
-- `transferNodesFrom`: what the transfer of a subtree leaves, and the two children of one node.
use lock_free_search_tree.Base.{
  ℕ, suc, ◌+◌, ◌≤◌, ◌<◌, ◌≡◌, ◌≢◌, refl, ap, ◌∙◌, Bool, true, false, ◌&&◌, none, some, List, arith,
  if◌then◌else◌, ltb, leb, ℤ,
}
use native.Mathlib.Decide.{dec_lt}
use lock_free_search_tree.Treap.State.{control_node, TreapIndex, TreapNode, Treap}
use lock_free_search_tree.Treap.Bulk.{TransferInfo, push_child, transfer_loop}
use lock_free_search_tree.Treap.Shape.{
  Tree, leaf, node, root_of, one, count, inorder, Shape, Shape-frame, here_pos,
}
use lock_free_search_tree.Treap.Values.{vals, vals-node, size}

-- The child of a node on one side.
abbrev pub side : Bool → TreapNode → TreapIndex
side true n = n.left
side false n = n.right

abbrev pub put_side : Bool → TreapIndex → TreapNode → TreapNode
put_side true o n = record n { left = o }
put_side false o n = record n { right = o }

-- Whether an index is one of the `n` from `low` on, as a number.
abbrev pub within : ℕ → ℕ → ℕ → ℕ
within low n a = if leb low a && ltb a (low + n) then 1 else 0

pub within_none : (low a : ℕ) → within low 0 a ≡ 0
within_none low a = ground arith

pub within_bounds : (low n a : ℕ) → 0 < within low n a → (low ≤ a) × (a < low + n)
within_bounds low n a h = (ground arith, ground arith)

-- Two spans side by side.
pub within-append :
    (low m n k a : ℕ) → k ≡ low + m → within low m a + within k n a ≡ within low (m + n) a
within-append low m n k a e = ground arith

-- A span with its first index apart.
pub within-cons :
    (low m n a : ℕ) → one a low + within (low + 1) (m + n) a ≡ within low (suc (n + m)) a
within-cons low m n a = ground arith

pub put_side-none : (b : Bool) (n : TreapNode) → side b n ≡ none → n ≡ put_side b none n
put_side-none true n e = ap (λ o. put_side true o n) e
put_side-none false n e = ap (λ o. put_side false o n) e

-- The tree `y` of `u` is a copy of the tree `x` of `t`: the same structure, with the same value at each
-- place.
abbrev pub Copies : Treap → Treap → Tree → Tree → Type 0
Copies t u leaf leaf = Unit
Copies t u leaf (node l k r) = ⊥
Copies t u (node l k r) leaf = ⊥
Copies t u (node l k r) (node l' k' r') =
    Copies t u l l' × ((u.nodes k').val ≡ (t.nodes k).val) × Copies t u r r'

Copies-frame :
    (t u v : Treap) (x y : Tree)
    → ((a : ℕ) → 0 < count a y → v.nodes a ≡ u.nodes a)
    → Copies t u x y
    → Copies t v x y
Copies-frame t u v leaf leaf same h = tt
Copies-frame t u v leaf (node l k r) same h = h
Copies-frame t u v (node l k r) leaf same h = h
Copies-frame t u v (node l k r) (node l' k' r') same (hl, e, hr) = (
  Copies-frame t u v l l' (λ a h. same a (omega arith)) hl,
  ap (λ n. n.val) (same k' (here_pos k' _ _)) ∙ e,
  Copies-frame t u v r r' (λ a h. same a (omega arith)) hr,
)

-- The values of a copy are those of the tree, in their order.
pub vals-Copies :
    (t u : Treap) (x y : Tree) → Copies t u x y → vals u (inorder y) ≡ vals t (inorder x)
vals-Copies t u leaf leaf h = refl
vals-Copies t u leaf (node l k r) h = absurd h
vals-Copies t u (node l k r) leaf h = absurd h
vals-Copies t u (node l k r) (node l' k' r') (hl, e, hr) =
    rw
      (vals-node u l' k' r', vals-node t l k r, vals-Copies t u l l' hl, e, vals-Copies t u r r' hr)

-- `u` is `t` with a copy of the tree `x` of `other` behind its nodes, which hangs below the node `p`.
pub record Grafted (draws : ℕ → ℤ) (other t : Treap) (b : Bool) (p : ℕ) (x : Tree) (u : Treap)
    : Type 0 where
  pub tree : Tree
  pub grown : u.size ≡ t.size + size x
  pub root : u.root ≡ t.root
  pub others : (a : ℕ) → a < t.size → a ≢ p → u.nodes a ≡ t.nodes a
  pub parent : u.nodes p ≡ put_side b (root_of tree) (t.nodes p)
  pub shape : Shape u.nodes (some p) tree
  pub exact : (a : ℕ) → count a tree ≡ within t.size (size x) a
  pub copy : Copies other u x tree
  pub weights : (a : ℕ) → t.size ≤ a → a < u.size → (u.nodes a).weight ≡ draws a
  pub run :
      (f g : ℕ) (stack : List TransferInfo) (root : TreapIndex)
      → g ≡ size x + f
      → transfer_loop draws other g (push_child b (some p) (root_of x) stack) root t
        ≡ transfer_loop draws other f stack root u

-- A subtree that can be transferred to any treap with room for it.
abbrev pub Grafts : (ℕ → ℤ) → Treap → Tree → Type 0
Grafts draws other x =
    (t : Treap) (b : Bool) (p : ℕ) (q : TreapIndex)
    → Shape other.nodes q x
    → p < t.size
    → t.size + size x ≤ suc control_node
    → side b (t.nodes p) ≡ none
    → (u : Treap) × Grafted draws other t b p x u

-- The node `i` has got copies of the trees `l` and `r` as its children.
pub record Filled (draws : ℕ → ℤ) (other t : Treap) (i : ℕ) (l r : Tree) (u : Treap) : Type 0 where
  pub left : Tree
  pub right : Tree
  pub grown : u.size ≡ t.size + (size r + size l)
  pub root : u.root ≡ t.root
  pub others : (a : ℕ) → a < t.size → a ≢ i → u.nodes a ≡ t.nodes a
  pub own : (u.nodes i).weight ≡ (t.nodes i).weight
  pub shape : Shape u.nodes (t.nodes i).parent (node left i right)
  pub exact : (a : ℕ) → count a (node left i right) ≡ one a i + within t.size (size r + size l) a
  pub copy_left : Copies other u l left
  pub own_value : (u.nodes i).val ≡ (t.nodes i).val
  pub copy_right : Copies other u r right
  pub weights : (a : ℕ) → t.size ≤ a → a < u.size → (u.nodes a).weight ≡ draws a
  pub run :
      (f g : ℕ) (stack : List TransferInfo) (root : TreapIndex)
      → g ≡ size r + (size l + f)
      → transfer_loop draws other g
          (push_child false (some i) (root_of r) (push_child true (some i) (root_of l) stack))
          root
          t
        ≡ transfer_loop draws other f stack root u

module _ (draws : ℕ → ℤ) (other t : Treap) (i : ℕ) (l r : Tree) (q : TreapIndex)
    (hl : Shape other.nodes q l) (hr : Shape other.nodes q r) (old : i < t.size)
    (room : t.size + (size r + size l) ≤ suc control_node) (no_left : (t.nodes i).left ≡ none)
    (no_right : (t.nodes i).right ≡ none) where
  fill_rest :
      (t₁ : Treap)
      → Grafted draws other t false i r t₁
      → Grafts draws other l
      → (u : Treap) × Filled draws other t i l r u
  fill_rest t₁ gr grafts_left =
      let at_i : t₁.nodes i ≡ record (t.nodes i) { right = root_of gr.tree } = gr.parent in
      let (u, gl) =
        grafts_left t₁ true i q hl (omega (arith, gr.grown)) (omega (arith, gr.grown))
          (rw at_i no_left) in
      let apart : (a : ℕ) → 0 < count a gr.tree → (t.size ≤ a) × (a < t₁.size) = λ a h.
        let (low, high) = within_bounds t.size (size r) a (omega (arith, gr.exact a)) in
        (low, omega (arith, gr.grown)) in
      let same : (a : ℕ) → 0 < count a gr.tree → u.nodes a ≡ t₁.nodes a =
        λ a h. gl.others a (apart a h).1 (λ e. omega (arith, apart a h)) in
      let in_u : u.nodes i
          ≡ record (t.nodes i) { left = root_of gl.tree; right = root_of gr.tree } =
        gl.parent ∙ ap (λ n. put_side true (root_of gl.tree) n) at_i in
      (
        u,
        record {
          left = gl.tree;
          right = gr.tree;
          grown = omega (arith, gl.grown, gr.grown);
          root = gl.root ∙ gr.root;
          others = λ a h n. gl.others a (omega (arith, gr.grown)) n ∙ gr.others a h n;
          own = rw in_u;
          shape = (
            omega arith,
            rw in_u,
            rw in_u,
            rw in_u,
            gl.shape,
            Shape-frame t₁.nodes u.nodes (some i) gr.tree gr.shape same,
          );
          exact = λ a. omega (
            arith,
            gl.exact a,
            gr.exact a,
            within-append t.size (size r) (size l) t₁.size a gr.grown,
          );
          copy_left = gl.copy;
          own_value = rw in_u;
          copy_right = Copies-frame other t₁ u r gr.tree same gr.copy;
          weights = λ a h k. elim (dec_lt a t₁.size) [
            | yes p ↦ ap (λ n. n.weight) (gl.others a p (λ e. omega arith)) ∙ gr.weights a h p
            | no p ↦ gl.weights a (omega arith) k
          ];
          run = λ f g stack root e.
              gr.run (size l + f) g _ root e ∙ gl.run f (size l + f) stack root refl;
        },
      )

  pub fill :
      Grafts draws other r → Grafts draws other l → (u : Treap) × Filled draws other t i l r u
  fill grafts_right grafts_left =
      let (t₁, gr) = grafts_right t false i q hr old (omega arith) no_right in
      fill_rest t₁ gr grafts_left
