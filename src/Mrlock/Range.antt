-- ===== src/Mrlock/Range.antt =====
-- `rangeQuery` of mrlocktree.cpp.
use lock_free_search_tree.Base.{
  ℕ, suc, ◌+◌, ◌-◌, ◌≤◌, ◌≡◌, refl, sym, ap, ◌∙◌, Bool, true, false, List, [], ◌∷◌, ◌++◌, arith,
  if◌then◌else◌, leb_ℤ, ◌≤ℤ◌, ◌<ℤ◌, ℤ, All, Outcome, ok,
}
use mathlib.Core.List.{append-nil, append_assoc}
use lock_free_search_tree.Base.Sorted.{between, All-imp}
use lock_free_search_tree.Base.Counts.{times, times-append}
use lock_free_search_tree.Treap.State.{Treap}
use lock_free_search_tree.Treap.Ops.{range_query}
use lock_free_search_tree.Treap.Range.{
  between-append, between-above, between-below, Lists, range_query-between,
}
use lock_free_search_tree.Mrlock.{
  Node, base, route, push_if, range_loop, node_count, tree_range_query,
}
use lock_free_search_tree.Mrlock.Laws.{Holds}

module _ (low high : ℤ) where
  -- What `rangeQuery` lists: the values in the range, each as often as it stands among `vs`.
  abbrev pub ListsTree : List ℤ → Outcome (List ℤ) → Type 0
  ListsTree vs run =
      (ws : List ℤ) × (run ≡ ok ws) × ((w : ℤ) → times w ws ≡ times w (between low high vs))

  -- What the loop does with a node on the vector: it lists `listed` in `seen` turns.
  record Walk (n : Node) (vs : List ℤ) : Type 0 where
    listed : List ℤ
    seen : ℕ
    few : seen ≤ node_count n
    runs :
        (f g : ℕ) (nodes : List Node) (result : List ℤ)
        → f ≡ seen + g
        → range_loop f low high (n ∷ nodes) result ≡ range_loop g low high nodes (result ++ listed)
    same : (w : ℤ) → times w listed ≡ times w (between low high vs)

  base_step :
      (f : ℕ) (t : Treap) (values : List ℤ) (nodes : List Node) (result : List ℤ)
      → range_query low high t ≡ ok values
      → range_loop (suc f) low high (base t ∷ nodes) result
        ≡ range_loop f low high nodes (result ++ values)
  unfolding range_loop
  base_step f t values nodes result e = rw e

  route_step :
      (f : ℕ) (v : ℤ) (l r : Node) (nodes : List Node) (result : List ℤ)
      → range_loop (suc f) low high (route v l r ∷ nodes) result
        ≡ range_loop f low high (push_if (leb_ℤ v high) r (push_if (leb_ℤ low v) l nodes)) result
  unfolding range_loop
  route_step f v l r nodes result = refl

  Walk-base :
      (t : Treap) (vs : List ℤ) → Lists t low high vs (range_query low high t) → Walk (base t) vs
  unfolding node_count
  Walk-base t vs (ws, run, e) = record {
    listed = ws;
    seen = 1;
    few = omega arith;
    runs = λ f g nodes result e.
        ap (λ z. range_loop z low high (base t ∷ nodes) result) {y = suc g} (omega (arith, e))
        ∙ base_step g t ws nodes result run;
    same = e;
  }

  -- The walk of a child that may not be on the vector.
  Walk-if :
      (b : Bool) (n : Node) (vs : List ℤ) (w : Walk n vs)
      → (f g : ℕ) (nodes : List Node) (result : List ℤ) → f ≡ (if b then w.seen else 0) + g
      → range_loop f low high (push_if b n nodes) result
        ≡ range_loop g low high nodes (result ++ (if b then w.listed else []))
  Walk-if true n vs w f g nodes result e = w.runs f g nodes result e
  Walk-if false n vs w f g nodes result e =
      let e' : f ≡ g = omega arith in rw (append-nil result, e')

  side :
      (b : Bool) (n : Node) (vs : List ℤ) (w : Walk n vs) (x : ℤ)
      → (b ≡ false → between low high vs ≡ [])
      → times x (if b then w.listed else []) ≡ times x (between low high vs)
  side true n vs w x none_there = w.same x
  side false n vs w x none_there = sym (ap (times x) (none_there refl))

  few_if : (b : Bool) (m n : ℕ) → m ≤ n → (if b then m else 0) ≤ n
  few_if true m n h = h
  few_if false m n h = omega arith

  Walk-route :
      (v : ℤ) (l r : Node) (xs ys : List ℤ)
      → Walk l xs
      → Walk r ys
      → All (λ x. x ≤ℤ v) xs
      → All (λ y. v <ℤ y) ys
      → Walk (route v l r) (xs ++ ys)
  unfolding node_count
  Walk-route v l r xs ys wl wr up_to beyond =
      let bl = leb_ℤ low v in
      let br = leb_ℤ v high in
      let sl = if bl then wl.seen else 0 in
      let sr = if br then wr.seen else 0 in
      record {
        listed = (if br then wr.listed else []) ++ (if bl then wl.listed else []);
        seen = suc (sr + sl);
        few = omega (
          arith,
          few_if bl wl.seen (node_count l) wl.few,
          few_if br wr.seen (node_count r) wr.few,
        );
        runs = λ f g nodes result e.
            ap (λ z. range_loop z low high (route v l r ∷ nodes) result) {y = suc (sr + (sl + g))}
              (omega (arith, e))
            ∙ route_step (sr + (sl + g)) v l r nodes result
            ∙ Walk-if br r ys wr (sr + (sl + g)) (sl + g) (push_if bl l nodes) result refl
            ∙ Walk-if bl l xs wl (sl + g) g nodes (result ++ (if br then wr.listed else [])) refl
            ∙ ap (range_loop g low high nodes) (simp append_assoc);
        same = λ w. omega (
          arith,
          times-append w (if br then wr.listed else []) (if bl then wl.listed else []),
          side br r ys wr w (λ e.
              between-above low high v ys e
                (All-imp (λ y. v <ℤ y) (λ y. v ≤ℤ y) ys (λ y k. omega arith) beyond)),
          side bl l xs wl w (λ e. between-below low high v xs e up_to),
          ap (times w) (between-append low high xs ys),
          times-append w (between low high xs) (between low high ys),
        );
      }

  walk : (n : Node) (vs : List ℤ) → Holds n vs → Walk n vs
  walk (base t) vs h = Walk-base t vs (range_query-between t low high vs h)
  walk (route v l r) vs (xs, ys, e, hl, hr, up_to, beyond) =
      rw (sym e) at (Walk-route v l r xs ys (walk l xs hl) (walk r ys hr) up_to beyond)

  stop : (f : ℕ) (result : List ℤ) → range_loop (suc f) low high [] result ≡ ok result
  unfolding range_loop
  stop f result = refl

  -- In a tree that holds the values `vs`, `rangeQuery` returns, each as often as it stands among them,
  -- those from `low` to `high`.
  pub tree_range_query-between :
      (n : Node) (vs : List ℤ) → Holds n vs → ListsTree vs (tree_range_query low high n)
  unfolding tree_range_query
  tree_range_query-between n vs h =
      let w = walk n vs h in
      (
        w.listed,
        w.runs (suc (node_count n)) (suc (node_count n - w.seen)) [] [] (omega (arith, w.few))
            ∙ stop (node_count n - w.seen) w.listed,
        w.same,
      )
