-- ===== src/Treap/Range.antt =====
-- `rangeQuery`: the walk over the tree from its root.
use lock_free_search_tree.Base.{
  ℕ, zero, suc, ◌+◌, ◌≤◌, ◌≡◌, refl, sym, ap, ◌∙◌, inl, inr, Bool, true, false, ◌&&◌, none, some,
  List, [], ◌∷◌, ◌++◌, arith, Bool-cases, if◌then◌else◌, ◌-◌, ℤ, ◌≤ℤ◌, leb_ℤ, All, Outcome, ok,
}
use mathlib.Core.List.{append-nil, append_assoc}
use lock_free_search_tree.Base.Sorted.{IsSorted, IsSorted-split, between}
use lock_free_search_tree.Base.Counts.{times, times-append}
use lock_free_search_tree.Treap.State.{TreapIndex, Treap}
use lock_free_search_tree.Treap.Moves.{rounds}
use lock_free_search_tree.Treap.Ops.{push_if, range_loop, range_query}
use lock_free_search_tree.Treap.Shape.{Tree, leaf, node, root_of, inorder, Shape}
use lock_free_search_tree.Treap.Wiring.{node_at_lem}
use lock_free_search_tree.Treap.Values.{vals, vals-node, size, size_of_exact}
use lock_free_search_tree.Treap.Model.{IsTreap, Represents}

module _ (low high : ℤ) where
  pub between-append :
      (xs ys : List ℤ) → between low high (xs ++ ys) ≡ between low high xs ++ between low high ys
  unfolding between
  between-append [] ys = refl
  between-append (x ∷ xs) ys = elim (Bool-cases (leb_ℤ low x && leb_ℤ x high)) [
    | inl e ↦ rw (e, between-append xs ys)
    | inr e ↦ rw (e, between-append xs ys)
  ]

  beyond_high : (v x : ℤ) → leb_ℤ v high ≡ false → v ≤ℤ x → (leb_ℤ low x && leb_ℤ x high) ≡ false
  beyond_high v x h k = ground arith

  pub between-above :
      (v : ℤ) (xs : List ℤ) → leb_ℤ v high ≡ false → All (λ x. v ≤ℤ x) xs → between low high xs ≡ []
  unfolding between
  between-above v [] h k = refl
  between-above v (x ∷ xs) h k = rw (beyond_high v x h k.0) (between-above v xs h k.1)

  below_low : (v x : ℤ) → leb_ℤ low v ≡ false → x ≤ℤ v → (leb_ℤ low x && leb_ℤ x high) ≡ false
  below_low v x h k = ground arith

  pub between-below :
      (v : ℤ) (xs : List ℤ) → leb_ℤ low v ≡ false → All (λ x. x ≤ℤ v) xs → between low high xs ≡ []
  unfolding between
  between-below v [] h k = refl
  between-below v (x ∷ xs) h k = rw (below_low v x h k.0) (between-below v xs h k.1)

module _ (t : Treap) (low high : ℤ) where
  abbrev goes_left : ℕ → Bool
  goes_left k = leb_ℤ low (t.nodes k).val

  abbrev goes_right : ℕ → Bool
  goes_right k = leb_ℤ (t.nodes k).val high

  -- The values that the walk lists, in its order, and how many nodes it takes from the stack.
  listed : Tree → List ℤ
  listed leaf = []
  listed (node l k r) =
      let on_right = listed r in
      let on_left = listed l in
      (if goes_left k && goes_right k then (t.nodes k).val ∷ [] else [])
      ++ ((if goes_right k then on_right else []) ++ (if goes_left k then on_left else []))

  seen : Tree → ℕ
  seen leaf = 0
  seen (node l k r) =
      let on_right = seen r in
      let on_left = seen l in
      suc ((if goes_right k then on_right else 0) + (if goes_left k then on_left else 0))

  seen-le : (x : Tree) → seen x ≤ size x
  unfolding seen
  seen-le leaf = omega arith
  seen-le (node l k r) = ground (arith, seen-le l, seen-le r)

  -- The walk of a tree on the stack.
  abbrev Walks : Tree → Type 0
  Walks x =
      (f g : ℕ) (stack : List ℕ) (values : List ℤ)
      → f ≡ seen x + g
      → range_loop f low high (push_if true (root_of x) stack) values t
        ≡ range_loop g low high stack (values ++ listed x) t

  walk_if :
      (b : Bool) (x : Tree) (f g : ℕ) (stack : List ℕ) (values : List ℤ)
      → Walks x
      → f ≡ (if b then seen x else 0) + g
      → range_loop f low high (push_if b (root_of x) stack) values t
        ≡ range_loop g low high stack (values ++ (if b then listed x else [])) t
  walk_if true x f g stack values w e = w f g stack values e
  walk_if false x f g stack values w e = let e' : f ≡ g = omega arith in rw (append-nil values, e')

  add_if : (b : Bool) (values : List ℤ) (v : ℤ) → List ℤ
  add_if b values v = if b then values ++ v ∷ [] else values

  add_if_lem :
      (b : Bool) (values : List ℤ) (v : ℤ)
      → (if b then values ++ v ∷ [] else values) ≡ values ++ (if b then v ∷ [] else [])
  add_if_lem true values v = refl
  add_if_lem false values v = sym (append-nil values)

  loop_step :
      (f k : ℕ) (stack : List ℕ) (values : List ℤ) (l r : Tree)
      → k ≤ 64
      → (t.nodes k).left ≡ root_of l
      → (t.nodes k).right ≡ root_of r
      → range_loop (suc f) low high (k ∷ stack) values t
        ≡ range_loop f low high
            (push_if (goes_right k) (root_of r) (push_if (goes_left k) (root_of l) stack))
            (values ++ (if goes_left k && goes_right k then (t.nodes k).val ∷ [] else []))
            t
  unfolding range_loop
  loop_step f k stack values l r bound left right = rw (
    node_at_lem k t bound,
    left,
    right,
    add_if_lem (goes_left k && goes_right k) values (t.nodes k).val,
  )

  walk : (p : TreapIndex) (x : Tree) → Shape t.nodes p x → Walks x
  unfolding listed seen
  walk p leaf s f g stack values e = let e' : f ≡ g = omega arith in rw (append-nil values, e')
  walk p (node l k r) s zero g stack values e = absurd (omega arith)
  walk p (node l k r) (bound, _, left, right, hl, hr) (suc f) g stack values e =
      let here = if goes_left k && goes_right k then (t.nodes k).val ∷ [] else [] in
      loop_step f k stack values l r bound left right
      ∙ walk_if (goes_right k) r f ((if goes_left k then seen l else 0) + g)
          (push_if (goes_left k) (root_of l) stack) (values ++ here) (walk (some k) r hr)
          (omega arith)
      ∙ walk_if (goes_left k) l ((if goes_left k then seen l else 0) + g) g stack
          ((values ++ here) ++ (if goes_right k then listed r else [])) (walk (some k) l hl) refl
      ∙ ap (λ z. range_loop g low high stack z t) (simp (append_assoc))

  times_here :
      (v w : ℤ)
      → times w (if leb_ℤ low v && leb_ℤ v high then v ∷ [] else [])
        ≡ times w (between low high (v ∷ []))
  unfolding between
  times_here v w = refl

  side :
      (b : Bool) (x : Tree) (w : ℤ)
      → times w (listed x) ≡ times w (between low high (vals t (inorder x)))
      → (b ≡ false → between low high (vals t (inorder x)) ≡ [])
      → times w (if b then listed x else []) ≡ times w (between low high (vals t (inorder x)))
  side true x w e none_there = e
  side false x w e none_there = sym (ap (times w) (none_there refl))

  whole :
      (l : Tree) (k : ℕ) (r : Tree)
      → between low high (vals t (inorder (node l k r)))
        ≡ between low high (vals t (inorder l))
          ++ (between low high ((t.nodes k).val ∷ []) ++ between low high (vals t (inorder r)))
  whole l k r =
      ap (between low high) (vals-node t l k r)
      ∙ between-append low high (vals t (inorder l)) ((t.nodes k).val ∷ vals t (inorder r))
      ∙ ap (λ z. between low high (vals t (inorder l)) ++ z)
          (between-append low high ((t.nodes k).val ∷ []) (vals t (inorder r)))

  -- On a sorted tree the walk leaves out no value in the range.
  listed-times :
      (x : Tree) (w : ℤ)
      → IsSorted (vals t (inorder x))
      → times w (listed x) ≡ times w (between low high (vals t (inorder x)))
  unfolding listed between
  listed-times leaf w s = refl
  listed-times (node l k r) w s =
      let v = (t.nodes k).val in
      let (sl, sr, below, above) =
        IsSorted-split (vals t (inorder l)) v (vals t (inorder r)) (rw (vals-node t l k r) at s) in
      omega (
        arith,
        times-append w (if goes_left k && goes_right k then v ∷ [] else [])
            ((if goes_right k then listed r else []) ++ (if goes_left k then listed l else [])),
        times-append w (if goes_right k then listed r else [])
            (if goes_left k then listed l else []),
        times_here v w,
        side (goes_right k) r w (listed-times r w sr)
            (λ e. between-above low high v (vals t (inorder r)) e above),
        side (goes_left k) l w (listed-times l w sl)
            (λ e. between-below low high v (vals t (inorder l)) e below),
        ap (times w) (whole l k r),
        times-append w (between low high (vals t (inorder l)))
            (between low high (v ∷ []) ++ between low high (vals t (inorder r))),
        times-append w (between low high (v ∷ [])) (between low high (vals t (inorder r))),
      )

  -- What `range_query` lists: the values in the range, each as often as the treap holds it.
  abbrev pub Lists : List ℤ → Outcome (List ℤ) → Type 0
  Lists vs run =
      (ws : List ℤ) × (run ≡ ok ws) × ((w : ℤ) → times w ws ≡ times w (between low high vs))

  range_from : TreapIndex → Outcome (List ℤ)
  range_from root = elim root [ none ↦ ok [] | some i ↦ range_loop rounds low high (i ∷ []) [] t ]

  range_from_lem : (o : TreapIndex) → t.root ≡ o → range_query low high t ≡ range_from o
  unfolding range_query range_from
  range_from_lem o e = ap range_from e

  stop : (f : ℕ) (values : List ℤ) → range_loop (suc f) low high [] values t ≡ ok values
  unfolding range_loop
  stop f values = refl

  range_walk : (x : Tree) → IsTreap t x → Lists (vals t (inorder x)) (range_query low high t)
  unfolding range_from between
  range_walk leaf is = ([], range_from_lem none is.root, λ w. refl)
  range_walk (node l k r) is =
      let x = node l k r in
      let room : seen x + (suc (65 - seen x)) ≡ rounds =
        omega (arith, seen-le x, size_of_exact t.size x is.exact, is.fits) in
      (
        listed x,
        range_from_lem (some k) is.root
            ∙ walk none x is.shape rounds (suc (65 - seen x)) [] [] (sym room)
            ∙ stop (65 - seen x) (listed x),
        λ w. listed-times x w is.sorted,
      )

-- On a well-formed treap, `rangeQuery` returns, each as often as the treap holds it, the values from
-- `low` to `high`, in an order of its own.
pub range_query-between :
    (t : Treap) (low high : ℤ) (vs : List ℤ)
    → Represents t vs
    → Lists t low high vs (range_query low high t)
range_query-between t low high vs r = rw r.values at (range_walk t low high r.tree r.is)
