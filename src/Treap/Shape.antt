-- ===== src/Treap/Shape.antt =====
-- The tree that the array of a treap stands for: trees of indices, trees with a hole, and what it
-- is for the array to hold one.
use lock_free_search_tree.Base.{
  ℕ, ◌+◌, ◌≤◌, ◌<◌, ◌≡◌, ◌≢◌, none, some, List, [], ◌∷◌, ◌++◌, arith, ◌==◌, if◌then◌else◌,
}
use mathlib.Core.List.{append-nil, append_assoc}
use lock_free_search_tree.Treap.State.{control_node, TreapIndex, TreapNode}

pub data Tree : Type 0 where
  leaf : Tree
  node : Tree → ℕ → Tree → Tree

-- A tree with a hole, from the hole outwards: the hole is the left or the right child of a node.
pub data Ctx : Type 0 where
  top : Ctx
  in_left : ℕ → Tree → Ctx → Ctx
  in_right : Tree → ℕ → Ctx → Ctx

abbrev pub plug : Ctx → Tree → Tree
plug top x = x
plug (in_left k r c) x = plug c (node x k r)
plug (in_right l k c) x = plug c (node l k x)

abbrev pub root_of : Tree → TreapIndex
root_of leaf = none
root_of (node l k r) = some k

abbrev pub parent_of : Ctx → TreapIndex
parent_of top = none
parent_of (in_left k r c) = some k
parent_of (in_right l k c) = some k

-- The indices from left to right.
abbrev pub inorder : Tree → List ℕ
inorder leaf = []
inorder (node l k r) = inorder l ++ k ∷ inorder r

abbrev pub one : ℕ → ℕ → ℕ
one a k = if a == k then 1 else 0

-- How often an index stands in a tree, and round a hole.
abbrev pub count : ℕ → Tree → ℕ
count a leaf = 0
count a (node l k r) = count a l + one a k + count a r

abbrev pub count_ctx : ℕ → Ctx → ℕ
count_ctx a top = 0
count_ctx a (in_left k r c) = one a k + count a r + count_ctx a c
count_ctx a (in_right l k c) = count a l + one a k + count_ctx a c

-- The array `f` holds the tree below a node with parent `p`.
abbrev pub Shape : (ℕ → TreapNode) → TreapIndex → Tree → Type 0
Shape f p leaf = Unit
Shape f p (node l k r) =
    (k ≤ control_node)
    × ((f k).parent ≡ p)
    × ((f k).left ≡ root_of l)
    × ((f k).right ≡ root_of r)
    × Shape f (some k) l
    × Shape f (some k) r

-- The array `f` with the given root holds the tree round a hole, and `i` stands in the hole.
abbrev pub Around : (ℕ → TreapNode) → TreapIndex → TreapIndex → Ctx → Type 0
Around f root i top = root ≡ i
Around f root i (in_left k r c) =
    (k ≤ control_node)
    × ((f k).parent ≡ parent_of c)
    × ((f k).left ≡ i)
    × ((f k).right ≡ root_of r)
    × Shape f (some k) r
    × Around f root (some k) c
Around f root i (in_right l k c) =
    (k ≤ control_node)
    × ((f k).parent ≡ parent_of c)
    × ((f k).left ≡ root_of l)
    × ((f k).right ≡ i)
    × Shape f (some k) l
    × Around f root (some k) c

pub one_self : (k : ℕ) → one k k ≡ 1
one_self k = ground arith

pub one_ne : (a k : ℕ) → a ≢ k → one a k ≡ 0
one_ne a k h = ground arith

-- Indices that a measure tells apart.
pub ne_of : (measure : ℕ → ℕ) (a k : ℕ) → 0 < measure a → measure k ≡ 0 → a ≢ k
ne_of measure a k h z e = let positive : 0 < measure k = rw e at h in omega arith

-- The index of a node counts, whatever else does.
pub here_pos : (k m n : ℕ) → 0 < m + one k k + n
here_pos k m n = omega (arith, one_self k)

pub head_pos : (k m n : ℕ) → 0 < one k k + m + n
head_pos k m n = omega (arith, one_self k)

-- An index that does not count is not the node's own.
pub apart_self : (a k m n : ℕ) → m + one a k + n ≡ 0 → a ≢ k
apart_self a k m n h = ground arith

-- A change of the array that spares the indices of a tree keeps the tree.
pub Shape-frame :
    (f g : ℕ → TreapNode) (p : TreapIndex) (x : Tree)
    → Shape f p x
    → ((a : ℕ) → 0 < count a x → g a ≡ f a)
    → Shape g p x
Shape-frame f g p leaf h same = tt
Shape-frame f g p (node l k r) (bound, up, left, right, hl, hr) same =
    let e : g k ≡ f k = same k (here_pos k _ _) in
    (
      bound,
      rw e up,
      rw e left,
      rw e right,
      Shape-frame f g (some k) l hl (λ a h. same a (omega arith)),
      Shape-frame f g (some k) r hr (λ a h. same a (omega arith)),
    )

pub Around-frame :
    (f g : ℕ → TreapNode) (root i : TreapIndex) (c : Ctx)
    → Around f root i c
    → ((a : ℕ) → 0 < count_ctx a c → g a ≡ f a)
    → Around g root i c
Around-frame f g root i top h same = h
Around-frame f g root i (in_left k r c) (bound, up, left, right, hr, hc) same =
    let e : g k ≡ f k = same k (head_pos k _ _) in
    (
      bound,
      rw e up,
      rw e left,
      rw e right,
      Shape-frame f g (some k) r hr (λ a h. same a (omega arith)),
      Around-frame f g root (some k) c hc (λ a h. same a (omega arith)),
    )
Around-frame f g root i (in_right l k c) (bound, up, left, right, hl, hc) same =
    let e : g k ≡ f k = same k (here_pos k _ _) in
    (
      bound,
      rw e up,
      rw e left,
      rw e right,
      Shape-frame f g (some k) l hl (λ a h. same a (omega arith)),
      Around-frame f g root (some k) c hc (λ a h. same a (omega arith)),
    )

pub count-plug : (a : ℕ) (c : Ctx) (x : Tree) → count a (plug c x) ≡ count_ctx a c + count a x
count-plug a top x = omega arith
count-plug a (in_left k r c) x = omega (arith, count-plug a c (node x k r))
count-plug a (in_right l k c) x = omega (arith, count-plug a c (node l k x))

-- A whole tree is held by closing it round its hole, and a hole is opened again.
pub close :
    (f : ℕ → TreapNode) (root : TreapIndex) (c : Ctx) (x : Tree)
    → Around f root (root_of x) c
    → Shape f (parent_of c) x
    → Shape f none (plug c x) × (root ≡ root_of (plug c x))
close f root top x h s = (s, h)
close f root (in_left k r c) x (bound, up, left, right, hr, hc) s =
    close f root c (node x k r) hc (bound, up, left, right, s, hr)
close f root (in_right l k c) x (bound, up, left, right, hl, hc) s =
    close f root c (node l k x) hc (bound, up, left, right, hl, s)

pub reopen :
    (f : ℕ → TreapNode) (root : TreapIndex) (c : Ctx) (x : Tree)
    → Shape f none (plug c x)
    → root ≡ root_of (plug c x)
    → Around f root (root_of x) c × Shape f (parent_of c) x
reopen f root top x s h = (h, s)
reopen f root (in_left k r c) x s h =
    let (hc, (bound, up, left, right, hx, hr)) = reopen f root c (node x k r) s h in
    ((bound, up, left, right, hr, hc), hx)
reopen f root (in_right l k c) x s h =
    let (hc, (bound, up, left, right, hl, hx)) = reopen f root c (node l k x) s h in
    ((bound, up, left, right, hl, hc), hx)

-- What stands left and right of a hole.
abbrev pub before : Ctx → List ℕ
before top = []
before (in_left k r c) = before c
before (in_right l k c) = before c ++ inorder l ++ k ∷ []

abbrev pub after : Ctx → List ℕ
after top = []
after (in_left k r c) = k ∷ inorder r ++ after c
after (in_right l k c) = after c

pub inorder-plug : (c : Ctx) (x : Tree) → inorder (plug c x) ≡ before c ++ inorder x ++ after c
inorder-plug top x = simp (append-nil)
inorder-plug (in_left k r c) x = simp (inorder-plug c (node x k r), append_assoc)
inorder-plug (in_right l k c) x = simp (inorder-plug c (node l k x), append_assoc)
