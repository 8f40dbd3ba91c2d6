-- ===== src/Treap/Values.antt =====
-- The values that a tree in the array shows, from left to right, and how many nodes it can have.
use lock_free_search_tree.Base.{
  ℕ, zero, suc, ◌+◌, ◌≤◌, ◌<◌, ◌≡◌, refl, ap, ◌∙◌, sym, fun_ext, ◌⊎◌, inl, inr, some, List, [], ◌∷◌,
  ◌++◌, arith, if◌then◌else◌, ltb, ℤ, length, length-append,
}
use Prim.Native.Nat.{min}
use lock_free_search_tree.Treap.State.{control_node, TreapIndex, TreapNode, Treap}
use lock_free_search_tree.Treap.Shape.{
  Tree, leaf, node, one, count, inorder, Shape, here_pos, one_self,
}
use lock_free_search_tree.Treap.Wiring.{Keeps}

-- The values at a list of indices.
abbrev pub vals : Treap → List ℕ → List ℤ
vals t [] = []
vals t (a ∷ as') = (t.nodes a).val ∷ vals t as'

pub vals-append : (t : Treap) (xs ys : List ℕ) → vals t (xs ++ ys) ≡ vals t xs ++ vals t ys
vals-append t [] ys = refl
vals-append t (x ∷ xs) ys = rw (vals-append t xs ys)

pub vals-Keeps : (t u : Treap) (xs : List ℕ) → Keeps t u → vals u xs ≡ vals t xs
vals-Keeps t u [] k = refl
vals-Keeps t u (x ∷ xs) k = rw (k.val x, vals-Keeps t u xs k)

pub length-vals : (t : Treap) (xs : List ℕ) → length (vals t xs) ≡ length xs
length-vals t [] = refl
length-vals t (x ∷ xs) = ap suc (length-vals t xs)

-- The values of a node's tree.
pub vals-node :
    (t : Treap) (l : Tree) (k : ℕ) (r : Tree)
    → vals t (inorder (node l k r)) ≡ vals t (inorder l) ++ (t.nodes k).val ∷ vals t (inorder r)
vals-node t l k r = vals-append t (inorder l) (k ∷ inorder r)

abbrev pub occurs : ℕ → List ℕ → ℕ
occurs a [] = 0
occurs a (k ∷ ks) = one a k + occurs a ks

pub occurs-append : (a : ℕ) (xs ys : List ℕ) → occurs a (xs ++ ys) ≡ occurs a xs + occurs a ys
occurs-append a [] ys = omega arith
occurs-append a (x ∷ xs) ys = omega (arith, occurs-append a xs ys)

pub count-inorder : (a : ℕ) (x : Tree) → count a x ≡ occurs a (inorder x)
count-inorder a leaf = refl
count-inorder a (node l k r) =
    omega (arith, count-inorder a l, count-inorder a r, occurs-append a (inorder l) (k ∷ inorder r))

-- Trees of one order hold the same indices.
pub count_of_inorder : (a : ℕ) (x y : Tree) → inorder x ≡ inorder y → count a x ≡ count a y
count_of_inorder a x y e = count-inorder a x ∙ ap (λ l. occurs a l) e ∙ sym (count-inorder a y)

abbrev pub size : Tree → ℕ
size leaf = 0
size (node l k r) = suc (size l + size r)

pub length-inorder : (x : Tree) → length (inorder x) ≡ size x
length-inorder leaf = refl
length-inorder (node l k r) =
    omega (arith, length-append {0} (inorder l) (k ∷ inorder r), length-inorder l, length-inorder r)

sum_below : ℕ → (ℕ → ℕ) → ℕ
sum_below zero f = 0
sum_below (suc n) f = sum_below n f + f n

sum_below-add :
    (n : ℕ) (f g h : ℕ → ℕ)
    → ((a : ℕ) → f a ≡ g a + h a)
    → sum_below n f ≡ sum_below n g + sum_below n h
unfolding sum_below
sum_below-add zero f g h e = refl
sum_below-add (suc n) f g h e = omega (arith, sum_below-add n f g h e, e n)

sum_below-one : (n k : ℕ) → sum_below n (λ a. one a k) ≡ (if ltb k n then 1 else 0)
unfolding sum_below
sum_below-one zero k = ground arith
sum_below-one (suc n) k = ground (arith, sum_below-one n k)

sum_below-one_below : (n k : ℕ) → k < n → sum_below n (λ a. one a k) ≡ 1
sum_below-one_below n k h = ground (arith, sum_below-one n k)

sum_below-zero : (n : ℕ) → sum_below n (λ a. 0) ≡ 0
unfolding sum_below
sum_below-zero zero = refl
sum_below-zero (suc n) = omega (arith, sum_below-zero n)

-- The nodes of a tree whose indices all lie below `n`, counted index by index.
size-sum :
    (n : ℕ) (x : Tree) → ((a : ℕ) → 0 < count a x → a < n) → size x ≡ sum_below n (λ a. count a x)
size-sum n leaf h = sym (sum_below-zero n)
size-sum n (node l k r) h =
    let bound : k < n = h k (here_pos k (count k l) (count k r)) in
    omega (
      arith,
      size-sum n l (λ a p. h a (omega arith)),
      size-sum n r (λ a p. h a (omega arith)),
      sum_below-one_below n k bound,
      sum_below-add n (λ a. count a (node l k r)) (λ a. count a l + one a k) (λ a. count a r)
          (λ a. refl),
      sum_below-add n (λ a. count a l + one a k) (λ a. count a l) (λ a. one a k) (λ a. refl),
    )

sum_below-le : (n : ℕ) (f : ℕ → ℕ) → ((a : ℕ) → f a ≤ 1) → sum_below n f ≤ n
unfolding sum_below
sum_below-le zero f h = omega arith
sum_below-le (suc n) f h = omega (arith, sum_below-le n f h, h n)

pos_cases : (m n a k : ℕ) → 0 < m + one a k + n → (a ≡ k) ⊎ ((0 < m) ⊎ (0 < n))
pos_cases m n a k h = ground arith

-- An index in the tree is at most that of the control node.
pub count_bound :
    (f : ℕ → TreapNode) (p : TreapIndex) (x : Tree) (a : ℕ)
    → Shape f p x
    → 0 < count a x
    → a ≤ control_node
count_bound f p leaf a s h = absurd (omega arith)
count_bound f p (node l k r) a (bound, _, _, _, hl, hr) h =
    elim (pos_cases (count a l) (count a r) a k h) [
      | inl e ↦ rw e bound
      | inr (inl e) ↦ count_bound f (some k) l a hl e
      | inr (inr e) ↦ count_bound f (some k) r a hr e
    ]

-- A tree in the array has at most 65 nodes.
pub size-le :
    (f : ℕ → TreapNode) (p : TreapIndex) (x : Tree)
    → Shape f p x
    → ((a : ℕ) → count a x ≤ 1)
    → size x ≤ 65
size-le f p x s d = omega (
  arith,
  size-sum 65 x (λ a h. omega (arith, count_bound f p x a s h)),
  sum_below-le 65 (λ a. count a x) d,
)

sum_below-ltb : (n m : ℕ) → sum_below n (λ a. if ltb a m then 1 else 0) ≡ min n m
unfolding sum_below
sum_below-ltb zero m = omega arith
sum_below-ltb (suc n) m = ground (arith, sum_below-ltb n m)

-- A tree of exactly the indices below `m` has `m` nodes.
pub size_of_exact :
    (m : ℕ) (x : Tree) → ((a : ℕ) → count a x ≡ (if ltb a m then 1 else 0)) → size x ≡ m
size_of_exact m x e =
    size-sum m x (λ a h. ground (arith, e a))
    ∙ ap (sum_below m) (fun_ext e)
    ∙ sum_below-ltb m m
    ∙ omega arith

-- A list is taken apart in one way at an element that it holds once.
pub apart_unique :
    (k : ℕ) (xs ys xs' ys' : List ℕ)
    → occurs k xs ≡ 0
    → occurs k xs' ≡ 0
    → xs ++ k ∷ ys ≡ xs' ++ k ∷ ys'
    → (xs ≡ xs') × (ys ≡ ys')
apart_unique k [] ys [] ys' h h' e = (refl, cc)
apart_unique k [] ys (x ∷ xs') ys' h h' e =
    let e' : k ≡ x = cc in absurd (omega (arith, one_self k, ap (one k) e'))
apart_unique k (x ∷ xs) ys [] ys' h h' e =
    let e' : x ≡ k = cc in absurd (omega (arith, one_self k, ap (one k) e'))
apart_unique k (x ∷ xs) ys (x' ∷ xs') ys' h h' e =
    let (a, b) = apart_unique k xs ys xs' ys' (omega arith) (omega arith) (cc) in
    let e' : x ≡ x' = cc in (cc, b)
