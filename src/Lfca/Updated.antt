-- ===== src/Lfca/Updated.antt =====
-- One update of lfca.cpp, run alone: the search, the new base node and the tree with it.
use lock_free_search_tree.Base
use lock_free_search_tree.Base.{
  ℕ, zero, suc, ◌+◌, ◌≤◌, ◌<◌, ◌≡◌, ◌≢◌, refl, sym, ap, ◌∙◌, inl, inr, Bool, true, false,
  Bool-cases, none, some, ltb, leb, arith, List, [], ◌∷◌, ◌++◌, eqb_ℤ, ℤ, pos, ltb_ℤ, leb_ℤ, ◌≤ℤ◌,
  ◌<ℤ◌, ◌+ℤ◌, pos_part, neg_part, All, Outcome,
}
use mathlib.Core.Path.{subst}
use native.Mathlib.Decide.{dec_lt, ℕ_discrete}
use lock_free_search_tree.Base.Sorted.{member}
use lock_free_search_tree.Base.Sides.{goes_left, goes_right}
use lock_free_search_tree.Treap.State.{treap_nodes, Treap}
use lock_free_search_tree.Treap.Shape.{one, one_self}
use lock_free_search_tree.Treap.Wiring.{eq_self, eq_ne}
use lock_free_search_tree.Treap.Model.{Represents}
use lock_free_search_tree.Lfca.Memory.{uncontened, Ptr, Memory, returns, run}
use lock_free_search_tree.Lfca.Access.{is_range, is_route, set_node}
use lock_free_search_tree.Lfca.Find.{find_base_node}
use lock_free_search_tree.Lfca.Update.{Updater, do_update}
use lock_free_search_tree.Lfca.Layout.{Layout, base, route, height, child_of, Lays}
use lock_free_search_tree.Lfca.Lookup.{find_base, find_route}
use lock_free_search_tree.Lfca.Alone.{not_range, put_child, with_root}
use lock_free_search_tree.Lfca.Replace.{
  count, Stands, ChangesAt, Descends, descend, Kept, kept, Relays-left, Relays-right, left_apart,
}
use lock_free_search_tree.Lfca.Updating.{
  one_round, built, built_old, built_type, built_treap, built_parent, attempt_root, attempt_child,
}
use lock_free_search_tree.Lfca.Calm.{
  IsTree, Calm-at, quiet_high, quiet_low, Ready, Effect, Updates, lt_true, roomy,
}

one_cases : (a k : ℕ) (x y n : ℕ) → y ≤ x + one a k → (0 < x → a < n) → 0 < y → k ≡ n → a < n + 1
one_cases a k x y n h used p e = elim (dec_lt 0 x) [
  | yes q ↦ omega (arith, used q)
  | no q ↦ at_k a k n (omega arith) e
]
  where
    at_k : (a k n : ℕ) → 0 < one a k → k ≡ n → a < n + 1
    at_k a k n h e = ground arith

fresh_one : (a k x y : ℕ) → y ≤ x + one a k → x ≤ 1 → (a ≡ k → x ≡ 0) → y ≤ 1
fresh_one a k x y h le out = elim (ℕ_discrete a k) [
  | yes e ↦ at_k a k x y h (out e)
  | no ne ↦ apart_k a k x y h le ne
]
  where
    at_k : (a k x y : ℕ) → y ≤ x + one a k → x ≡ 0 → y ≤ 1
    at_k a k x y h z = ground arith

    apart_k : (a k x y : ℕ) → y ≤ x + one a k → x ≤ 1 → a ≢ k → y ≤ 1
    apart_k a k x y h le ne = ground arith

-- The memory with the new node holds the tree, of which the root is known.
Stands-IsTree :
    (m n : Memory) (p : Ptr) (x : Layout) (ws : List ℤ)
    → n.root ≡ p
    → n.node_count ≡ m.node_count + 1
    → ((a : ℕ) → count a x ≤ 1)
    → ((a : ℕ) → 0 < count a x → a < m.node_count)
    → (s : Stands n p none x m.node_count ws) → IsTree n s.layout ws
Stands-IsTree m n p x ws e more distinct used s = record {
  lays = subst (λ q. Lays n q s.layout ws) (sym e) s.lays;
  parents = s.parents;
  distinct = λ a.
      fresh_one a m.node_count (count a x) (count a s.layout) (s.counts a) (distinct a)
        (λ e. out a e);
  used = λ a h. omega (
    arith,
    more,
    one_cases a m.node_count (count a x) (count a s.layout) m.node_count (s.counts a) (used a) h
        refl,
  );
}
  where
    out : (a : ℕ) → a ≡ m.node_count → count a x ≡ 0
    out a e = elim (dec_lt 0 (count a x)) [
      | yes h ↦ absurd (omega (arith, used a h, e))
      | no h ↦ omega arith
    ]

module _ (f : ℕ) (weights : ℕ → ℕ → ℤ) (u : Updater) (i : ℤ) (m : Memory) (answer : Bool → Bool)
    (g : List ℤ → List ℤ) (effect : Effect u i (weights m.draws) answer g) where
  -- The new base node for a node `j` with the values `ws`.
  module _ (j : ℕ) (t t' : Treap) (ws : List ℤ) (plain : is_range (m.nodes j).type ≡ false)
      (at_j : (m.nodes j).treap ≡ some t) (old : j ≢ m.node_count)
      (node_room : ltb m.node_count m.node_limit ≡ true)
      (treap_room : ltb m.treap_count m.treap_limit ≡ true)
      (computed : u i (weights m.draws) t ≡ Base.ok (answer (member i ws), t'))
      (held : Represents t' (g ws)) where
    abbrev made : Memory
    made =
        built (suc f) weights u i uncontened m j t t' (answer (member i ws)) plain at_j old
          node_room treap_room computed

    new-Lays :
        (n : Memory)
        → n.nodes m.node_count ≡ made.nodes m.node_count
        → Lays n (some m.node_count) (base m.node_count) (g ws)
    new-Lays n same = (
      refl,
      ap (λ z. is_route z.type) same
          ∙ ap is_route (
              built_type (suc f) weights u i uncontened m j t t' (answer (member i ws)) plain at_j
                old node_room treap_room computed),
      (
        t',
        ap (λ z. z.treap) same
            ∙ built_treap (suc f) weights u i uncontened m j t t' (answer (member i ws)) plain at_j
                old node_room treap_room computed,
        held,
      ),
    )

    made_old : (a : ℕ) → a ≢ m.node_count → made.nodes a ≡ m.nodes a
    made_old =
        built_old (suc f) weights u i uncontened m j t t' (answer (member i ws)) plain at_j old
          node_room treap_room computed

  -- The tree is one base node.
  update_base :
      (j : ℕ) (vs : List ℤ)
      → Ready m (base j) vs
      → Updates (answer (member i vs)) (g vs) (run (do_update (suc f) weights u i) m)
  unfolding do_update
  update_base j vs r =
      let (at_root, is, (t, at_j, held)) = r.tree.lays in
      let (free, low, high, (t₀, at_j', room)) = r.calm in
      let plain = not_range m (m.nodes j) free in
      let same : t₀ ≡ t = cc in
      let size : t.size < treap_nodes = rw same at room in
      let (t', computed, held') = effect t vs held size in
      let old : j ≢ m.node_count =
        λ e. omega (arith, r.tree.used j (omega (arith, one_self j)), e) in
      let room_n = lt_true m.node_count m.node_limit r.node_room in
      let room_t = lt_true m.treap_count m.treap_limit r.treap_room in
      let n =
        with_root (some m.node_count)
          (made j t t' vs plain at_j old room_n room_t computed held') in
      (
        n,
        base m.node_count,
        one_round (suc f) weights u i f j t (answer (member i vs)) uncontened m n
            (ap (λ p. run (find_base_node (suc f) p i) m) at_root ∙ find_base m i f j is) at_j
            (roomy t.size size) free
            (attempt_root (suc f) weights u i uncontened m j t t' (answer (member i vs)) plain at_j
              old room_n room_t computed r.tree.parents at_root (quiet_high (m.nodes j).stat high)
              (quiet_low (m.nodes j).stat low)),
        Stands-IsTree m n (some m.node_count) (base j) (g vs) refl refl r.tree.distinct r.tree.used
            (record {
              layout = base m.node_count;
              lays = new-Lays j t t' vs plain at_j old room_n room_t computed held' n refl;
              parents =
                  built_parent (suc f) weights u i uncontened m j t t' (answer (member i vs)) plain
                    at_j old room_n room_t computed
                  ∙ r.tree.parents;
              counts = λ a. omega arith;
            }),
      )

  -- The root is a route node, and the search goes on at one of its sides.
  module _ (j : ℕ) (l r : Layout) (vs : List ℤ) (ready : Ready m (route j l r) vs)
      (local : ChangesAt i g) where
    abbrev Below : (b : Bool) (z : Layout) (zs : List ℤ) → (up : ℕ) → Type 0
    Below b z zs up =
        (n : Memory) × (run (do_update (suc f) weights u i) m ≡ returns (answer (member i vs)) n)
        × (n.root ≡ m.root)
        × (n.node_count ≡ m.node_count + 1)
        × ((a : ℕ) → 0 < count a (route j l r) → a ≢ up → n.nodes a ≡ m.nodes a)
        × Stands n (child_of b (n.nodes j)) (some j) z m.node_count (g zs)
        × Kept m i g local n j b

    update-Below :
        (b : Bool) (z : Layout) (zs : List ℤ)
        → leb_ℤ i (m.nodes j).key ≡ b
        → ((a : ℕ) → count a z + one a j ≤ count a (route j l r))
        → member i zs ≡ member i vs
        → (d : Descends m i g local f j b z zs) → Below b z zs d.up
    unfolding do_update
    update-Below b z zs test part known d =
        let (free, low, high, (t₀, at_j', room)) =
          Calm-at m (route j l r) d.goal ready.calm (omega (arith, d.goal_in, part d.goal))
            d.is_base in
        let plain = not_range m (m.nodes d.goal) free in
        let same : t₀ ≡ d.treap = cc in
        let size : d.treap.size < treap_nodes = rw same at room in
        let (t', computed, held') = effect d.treap d.values d.held size in
        let k = m.node_count in
        let fresh : (a : ℕ) → 0 < count a (route j l r) → a ≢ k =
          λ a h e. omega (arith, ready.tree.used a h, e) in
        let old = fresh d.goal (omega (arith, d.goal_in, part d.goal)) in
        let ne = fresh d.up (omega (arith, d.inside, part d.up)) in
        let room_n = lt_true m.node_count m.node_limit ready.node_room in
        let room_t = lt_true m.treap_count m.treap_limit ready.treap_room in
        let made' =
          made d.goal d.treap t' d.values plain d.at_goal old room_n room_t computed held' in
        let keeps =
          made_old d.goal d.treap t' d.values plain d.at_goal old room_n room_t computed held' in
        let n = set_node d.up (put_child d.side (some k) (made'.nodes d.up)) made' in
        let frame : (a : ℕ) → 0 < count a (route j l r) → a ≢ d.up → n.nodes a ≡ m.nodes a =
          λ a h a≢up. rw (eq_ne a d.up a≢up) (keeps a (fresh a h)) in
        let put : n.nodes d.up ≡ put_child d.side (some k) (m.nodes d.up) =
          rw (eq_self d.up) (ap (put_child d.side (some k)) (keeps d.up ne)) in
        let at_k : n.nodes k ≡ made'.nodes k = rw (eq_ne k d.up (λ e. ne (sym e))) in
        (
          n,
          one_round (suc f) weights u i f d.goal d.treap (answer (member i d.values)) uncontened m n
                (ap (λ p. run (find_base_node (suc f) p i) m) ready.tree.lays.0
                  ∙ find_route m i f j b ready.tree.lays.1 test
                  ∙ d.found)
                d.at_goal (roomy d.treap.size size) free
                (attempt_child (suc f) weights u i uncontened m d.goal d.treap t'
                  (answer (member i d.values)) plain d.at_goal old room_n room_t computed d.up
                  d.side d.parent ne d.slot d.alone (quiet_high (m.nodes d.goal).stat high)
                  (quiet_low (m.nodes d.goal).stat low))
              ∙ ap (λ c. returns (answer c) n) (d.same ∙ known),
          refl,
          refl,
          frame,
          d.relay n k (λ a h a≢up. frame a (omega (arith, part a)) a≢up) put
              (new-Lays d.goal d.treap t' d.values plain d.at_goal old room_n room_t computed held'
                n at_k)
              (ap (λ z. z.parent) at_k
                ∙ built_parent (suc f) weights u i uncontened m d.goal d.treap t'
                    (answer (member i d.values)) plain d.at_goal old room_n room_t computed
                ∙ d.parent),
          kept m i g local n j k d.up d.side b d.own
              (λ j≢up. frame j (omega (arith, one_self j)) j≢up) put,
        )

    update_route :
        height l ≤ f
        → height r ≤ f
        → Updates (answer (member i vs)) (g vs) (run (do_update (suc f) weights u i) m)
    update_route fuel_l fuel_r =
        let (at_root, is, (xs, ys, whole, hl, hr, up_to, beyond)) = ready.tree.lays in
        let distinct = ready.tree.distinct in
        elim (Bool-cases (leb_ℤ i (m.nodes j).key)) [
          | inl b ↦
              let d =
                descend m i g local f j true l xs hl ready.tree.parents.0
                  (λ a. omega (arith, distinct a)) (λ a h e. absurd (cc)) fuel_l in
              let (n, run', root, more, frame, below, kept') =
                update-Below true l xs b (λ a. omega arith)
                  (goes_left i (m.nodes j).key xs ys b beyond ∙ ap (member i) (sym whole)) d in
              let whole' =
                Relays-left m i g local f j l r vs xs ys is whole hl hr up_to beyond
                  ready.tree.parents.0 ready.tree.parents.1 distinct b d n m.node_count frame below
                  kept' none in
              (
                n,
                whole'.layout,
                run',
                Stands-IsTree m n (some j) (route j l r) (g vs) (root ∙ at_root) more distinct
                    ready.tree.used whole',
              )
          | inr b ↦
              let d =
                descend m i g local f j false r ys hr ready.tree.parents.1
                  (λ a. omega (arith, distinct a))
                  (λ a h e. left_apart m i g local j l r xs a hl distinct h) fuel_r in
              let (n, run', root, more, frame, below, kept') =
                update-Below false r ys b (λ a. omega arith)
                  (goes_right i (m.nodes j).key xs ys b up_to ∙ ap (member i) (sym whole)) d in
              let whole' =
                Relays-right m i g local f j l r vs xs ys is whole hl hr up_to beyond
                  ready.tree.parents.0 ready.tree.parents.1 distinct b d n m.node_count frame below
                  kept' none in
              (
                n,
                whole'.layout,
                run',
                Stands-IsTree m n (some j) (route j l r) (g vs) (root ∙ at_root) more distinct
                    ready.tree.used whole',
              )
        ]

pub do_update_lem :
    (f : ℕ) (weights : ℕ → ℕ → ℤ) (u : Updater) (i : ℤ) (m : Memory) (answer : Bool → Bool)
    → (g : List ℤ → List ℤ) → Effect u i (weights m.draws) answer g
    → ChangesAt i g
    → (x : Layout) (vs : List ℤ) → Ready m x vs
    → height x ≤ f
    → Updates (answer (member i vs)) (g vs) (run (do_update f weights u i) m)
do_update_lem zero weights u i m answer g effect local (base j) vs r fuel = absurd (omega arith)
do_update_lem zero weights u i m answer g effect local (route j a b) vs r fuel =
    absurd (omega arith)
do_update_lem (suc f) weights u i m answer g effect local (base j) vs r fuel =
    update_base f weights u i m answer g effect j vs r
do_update_lem (suc f) weights u i m answer g effect local (route j a b) vs r fuel =
    update_route f weights u i m answer g effect j a b vs r local (omega arith) (omega arith)
