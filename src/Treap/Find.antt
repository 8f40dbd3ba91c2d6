-- ===== src/Treap/Find.antt =====
-- `bstFind` and `contains`.
use lock_free_search_tree.Base.{
  ℕ, zero, suc, ◌+◌, ◌≤◌, ◌<◌, ◌≡◌, refl, sym, ap, ◌∙◌, pos_part, neg_part, inl, inr, Bool, true,
  false, ◌||◌, none, some, arith, Bool-cases, eqb_ℤ, ltb_ℤ, ℤ, ◌<ℤ◌, eq_of_parts, Outcome, ok,
  ◌>>=◌, List, ◌∷◌, not,
}
use lock_free_search_tree.Base.Sorted.{
  IsSorted, IsSorted-split, member, member-append, member_above, member_below, member_mid,
}
use lock_free_search_tree.Treap.State.{TreapIndex, is_null, Treap}
use lock_free_search_tree.Treap.Moves.{rounds, bst_find_loop, bst_find}
use lock_free_search_tree.Treap.Ops.{contains}
use lock_free_search_tree.Treap.Shape.{Tree, leaf, node, root_of, one_self, count, inorder, Shape}
use lock_free_search_tree.Treap.Wiring.{node_at_lem}
use lock_free_search_tree.Treap.Values.{vals, vals-node, size, size-le}
use lock_free_search_tree.Treap.Model.{IsTreap, Represents, below-le}

-- What a search that ended at an index tells.
abbrev pub Answers : Treap → Tree → ℤ → TreapIndex → Type 0
Answers t x v none = member v (vals t (inorder x)) ≡ false
Answers t x v (some i) =
    ((t.nodes i).val ≡ v) × (0 < count i x) × (member v (vals t (inorder x)) ≡ true)

abbrev pub Finds : Treap → Tree → ℤ → Outcome TreapIndex → Type 0
Finds t x v run = (o : TreapIndex) × (run ≡ ok o) × Answers t x v o

eq_of_test : (a b : ℤ) → eqb_ℤ a b ≡ true → a ≡ b
eq_of_test a b h = eq_of_parts a b (parts a b h)
  where
    parts : (a b : ℤ) → eqb_ℤ a b ≡ true → pos_part a + neg_part b ≡ pos_part b + neg_part a
    parts a b h = ground arith

IsSorted-parts :
    (t : Treap) (l : Tree) (s : ℕ) (r : Tree)
    → IsSorted (vals t (inorder (node l s r)))
    → IsSorted (vals t (inorder l)) × IsSorted (vals t (inorder r))
IsSorted-parts t l s r sorted =
    let (a, b, _, _) =
      IsSorted-split (vals t (inorder l)) (t.nodes s).val (vals t (inorder r))
        (rw (vals-node t l s r) at sorted) in
    (a, b)

lt_of_test : (a b : ℤ) → ltb_ℤ a b ≡ true → a <ℤ b
lt_of_test a b h = ground arith

gt_of_tests : (a b : ℤ) → eqb_ℤ b a ≡ false → ltb_ℤ a b ≡ false → b <ℤ a
gt_of_tests a b h k = ground arith

or_false : (b : Bool) → (b || false) ≡ b
or_false true = refl
or_false false = refl

module _ (t : Treap) (v : ℤ) (l : Tree) (s : ℕ) (r : Tree)
    (sorted : IsSorted (vals t (inorder (node l s r)))) (ne : eqb_ℤ (t.nodes s).val v ≡ false) where
  -- On the side to which the search does not go, the value does not stand.
  member-left :
      ltb_ℤ v (t.nodes s).val ≡ true
      → member v (vals t (inorder (node l s r))) ≡ member v (vals t (inorder l))
  unfolding member
  member-left lt =
      let (_, _, _, above) =
        IsSorted-split (vals t (inorder l)) (t.nodes s).val (vals t (inorder r))
          (rw (vals-node t l s r) at sorted) in
      rw
        (
          vals-node t l s r,
          member-append v (vals t (inorder l)) ((t.nodes s).val ∷ vals t (inorder r)),
          ne,
          member_above v (t.nodes s).val (vals t (inorder r)) (lt_of_test v (t.nodes s).val lt)
              above,
        )
        (or_false (member v (vals t (inorder l))))

  member-right :
      ltb_ℤ v (t.nodes s).val ≡ false
      → member v (vals t (inorder (node l s r))) ≡ member v (vals t (inorder r))
  unfolding member
  member-right ge =
      let (_, _, below, _) =
        IsSorted-split (vals t (inorder l)) (t.nodes s).val (vals t (inorder r))
          (rw (vals-node t l s r) at sorted) in
      rw (
        vals-node t l s r,
        member-append v (vals t (inorder l)) ((t.nodes s).val ∷ vals t (inorder r)),
        ne,
        member_below v (t.nodes s).val (vals t (inorder l)) (gt_of_tests v (t.nodes s).val ne ge)
            below,
      )

-- The answer below a child is the answer for the node.
Answers-up :
    (t : Treap) (v : ℤ) (x y : Tree)
    → ((a : ℕ) → count a x ≤ count a y)
    → member v (vals t (inorder y)) ≡ member v (vals t (inorder x))
    → (o : TreapIndex) → Answers t x v o
    → Answers t y v o
Answers-up t v x y le e none a = e ∙ a
Answers-up t v x y le e (some i) a = (a.0, omega (arith, le i, a.1), e ∙ a.2)

module _ (f : ℕ) (t : Treap) (v : ℤ) (s : ℕ) (bound : s ≤ 64) where
  find_here : eqb_ℤ (t.nodes s).val v ≡ true → bst_find_loop (suc f) v (some s) t ≡ ok (some s)
  unfolding bst_find_loop
  find_here e = ground (arith, node_at_lem s t bound)

  find_left :
      (o : TreapIndex)
      → (t.nodes s).left ≡ o
      → eqb_ℤ (t.nodes s).val v ≡ false
      → ltb_ℤ v (t.nodes s).val ≡ true
      → bst_find_loop (suc f) v (some s) t ≡ bst_find_loop f v o t
  unfolding bst_find_loop
  find_left o e ne lt = ground (arith, node_at_lem s t bound)

  find_right :
      (o : TreapIndex)
      → (t.nodes s).right ≡ o
      → eqb_ℤ (t.nodes s).val v ≡ false
      → ltb_ℤ v (t.nodes s).val ≡ false
      → bst_find_loop (suc f) v (some s) t ≡ bst_find_loop f v o t
  unfolding bst_find_loop
  find_right o e ne ge = ground (arith, node_at_lem s t bound)

pub bst_find_loop_lem :
    (f : ℕ) (t : Treap) (p : TreapIndex) (x : Tree) (v : ℤ)
    → Shape t.nodes p x
    → IsSorted (vals t (inorder x))
    → size x < f
    → Finds t x v (bst_find_loop f v (root_of x) t)
unfolding bst_find_loop member
bst_find_loop_lem zero t p x v h sorted fuel = absurd (omega arith)
bst_find_loop_lem (suc f) t p leaf v h sorted fuel = (none, refl, refl)
bst_find_loop_lem (suc f) t p (node l s r) v (bound, up, left, right, hl, hr) sorted fuel =
    let (sl, sr) = IsSorted-parts t l s r sorted in
    elim (Bool-cases (eqb_ℤ (t.nodes s).val v)) [
      | inl e ↦ (
        some s,
        find_here f t v s bound e,
        (
          eq_of_test (t.nodes s).val v e,
          omega (arith, one_self s),
          rw (vals-node t l s r)
              (member_mid v (vals t (inorder l)) (t.nodes s).val (vals t (inorder r)) e),
        ),
      )
      | inr ne ↦ elim (Bool-cases (ltb_ℤ v (t.nodes s).val)) [
        | inl lt ↦
            let (o, run, a) = bst_find_loop_lem f t (some s) l v hl sl (omega arith) in
            (
              o,
              find_left f t v s bound (root_of l) left ne lt ∙ run,
              Answers-up t v l (node l s r) (λ a. omega arith) (member-left t v l s r sorted ne lt)
                  o a,
            )
        | inr ge ↦
            let (o, run, a) = bst_find_loop_lem f t (some s) r v hr sr (omega arith) in
            (
              o,
              find_right f t v s bound (root_of r) right ne ge ∙ run,
              Answers-up t v r (node l s r) (λ a. omega arith) (member-right t v l s r sorted ne ge)
                  o a,
            )
      ]
    ]

pub bst_find_lem : (t : Treap) (x : Tree) (v : ℤ) → IsTreap t x → Finds t x v (bst_find v t)
unfolding bst_find
bst_find_lem t x v is =
    let (o, run, a) = bst_find_loop_lem rounds t none x v is.shape is.sorted (
      omega (
        arith,
        size-le t.nodes none x is.shape (λ a. omega (arith, is.exact a, below-le a t.size)),
      )) in
    (o, ap (λ i. bst_find_loop rounds v i t) is.root ∙ run, a)

contains_of_answer :
    (t : Treap) (x : Tree) (v : ℤ) (o : TreapIndex)
    → Answers t x v o
    → not (is_null o) ≡ member v (vals t (inorder x))
contains_of_answer t x v none a = sym a
contains_of_answer t x v (some i) a = sym a.2

-- On a well-formed treap, `contains` returns whether the value is one of those that the treap holds.
pub contains-member :
    (t : Treap) (vs : List ℤ) (v : ℤ) → Represents t vs → contains v t ≡ ok (member v vs)
unfolding contains
contains-member t vs v r =
    let (o, run, a) = bst_find_lem t r.tree v r.is in
    rw (run, ◌>>=◌) (ap ok (contains_of_answer t r.tree v o a) ∙ ap (λ l. ok (member v l)) r.values)
