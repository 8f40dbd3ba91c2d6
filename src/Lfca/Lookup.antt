-- ===== src/Lfca/Lookup.antt =====
-- `lookup` of lfca.cpp in a memory that no other thread changes.
use lock_free_search_tree.Base
use lock_free_search_tree.Base.{
  ℕ, zero, suc, ◌+◌, ◌≤◌, ◌≡◌, refl, sym, ap, ◌∙◌, inl, inr, Bool, true, false, Bool-cases, some,
  List, ◌++◌, arith, ℤ, leb_ℤ, Outcome,
}
use lock_free_search_tree.Base.Sorted.{member}
use lock_free_search_tree.Treap.State.{Treap}
use lock_free_search_tree.Treap.Ops.{contains}
use lock_free_search_tree.Treap.Model.{Represents}
use lock_free_search_tree.Treap.Find.{contains-member}
use lock_free_search_tree.Lfca.Memory.{Ptr, Memory, Program, ret, ◌>>=◌, Ended, returns, run}
use lock_free_search_tree.Lfca.Access.{is_route, load, treap_of, load_treap, lift}
use lock_free_search_tree.Lfca.Find.{load_root, load_child, find_base_node}
use lock_free_search_tree.Lfca.Update.{lookup}
use lock_free_search_tree.Lfca.Layout.{Layout, base, route, height, child_of, Lays, run-bind}
use lock_free_search_tree.Base.Sides.{goes_left, goes_right}

-- Where the search for a value ends: at a base node whose treap has the value if the tree has it.
abbrev pub Reaches : Memory → ℤ → List ℤ → Ended Ptr → Type 0
Reaches m i vs run =
    (j : ℕ) × (t : Treap) × (ws : List ℤ) × (run ≡ returns (some j) m)
    × ((m.nodes j).treap ≡ some t)
    × Represents t ws
    × (member i ws ≡ member i vs)

module _ (m : Memory) (i : ℤ) where
  -- What `find_base_node` does with a node, by its type and its key.
  next : ℕ → ℕ → Bool → ℤ → Program Ptr
  next f j is_route_node key = elim is_route_node [
    | true ↦ load_child (leb_ℤ i key) (some j) >>= (λ n. find_base_node f n i)
    | false ↦ ret (some j)
  ]

  find_next :
      (f j : ℕ) (b : Bool)
      → is_route (m.nodes j).type ≡ b
      → run (find_base_node (suc f) (some j) i) m ≡ run (next f j b (m.nodes j).key) m
  unfolding run find_base_node load next
  find_next f j b e = ap (λ b. run (next f j b (m.nodes j).key) m) e

  pub find_base :
      (f j : ℕ)
      → is_route (m.nodes j).type ≡ false
      → run (find_base_node (suc f) (some j) i) m ≡ returns (some j) m
  unfolding run next
  find_base f j e = find_next f j false e

  load_child_run :
      (b : Bool) (j : ℕ) → run (load_child b (some j)) m ≡ returns (child_of b (m.nodes j)) m
  unfolding run load
  load_child_run true j = refl
  load_child_run false j = refl

  pub find_route :
      (f j : ℕ) (b : Bool)
      → is_route (m.nodes j).type ≡ true
      → leb_ℤ i (m.nodes j).key ≡ b
      → run (find_base_node (suc f) (some j) i) m
        ≡ run (find_base_node f (child_of b (m.nodes j)) i) m
  unfolding next
  find_route f j b e e' =
      find_next f j true e
      ∙ run-bind (load_child (leb_ℤ i (m.nodes j).key) (some j)) (λ n. find_base_node f n i) m m
          (child_of (leb_ℤ i (m.nodes j).key) (m.nodes j))
          (load_child_run (leb_ℤ i (m.nodes j).key) j)
      ∙ ap (λ b. run (find_base_node f (child_of b (m.nodes j)) i) m) e'

  Reaches-along :
      (xs vs : List ℤ) (r s : Ended Ptr)
      → member i xs ≡ member i vs
      → s ≡ r
      → Reaches m i xs r
      → Reaches m i vs s
  Reaches-along xs vs r s e e' (j, t, ws, run', at_j, held, same) =
      (j, t, ws, e' ∙ run', at_j, held, same ∙ e)

  find_base_node-Reaches :
      (f : ℕ) (p : Ptr) (x : Layout) (vs : List ℤ)
      → Lays m p x vs
      → height x ≤ f
      → Reaches m i vs (run (find_base_node f p i) m)
  find_base_node-Reaches zero p (base j) vs h fuel = absurd (omega arith)
  find_base_node-Reaches zero p (route j l r) vs h fuel = absurd (omega arith)
  find_base_node-Reaches (suc f) p (base j) vs (e, is, (t, at_j, held)) fuel =
      (j, t, vs, rw e (find_base f j is), at_j, held, refl)
  find_base_node-Reaches (suc f) p (route j l r) vs (e, is, (xs, ys, whole, hl, hr, up_to, beyond))
        fuel =
      elim (Bool-cases (leb_ℤ i (m.nodes j).key)) [
        | inl b ↦
            Reaches-along xs vs (run (find_base_node f (m.nodes j).left i) m)
              (run (find_base_node (suc f) p i) m)
              (goes_left i (m.nodes j).key xs ys b beyond ∙ ap (member i) (sym whole))
              (rw e (find_route f j true is b))
              (find_base_node-Reaches f (m.nodes j).left l xs hl (omega arith))
        | inr b ↦
            Reaches-along ys vs (run (find_base_node f (m.nodes j).right i) m)
              (run (find_base_node (suc f) p i) m)
              (goes_right i (m.nodes j).key xs ys b up_to ∙ ap (member i) (sym whole))
              (rw e (find_route f j false is b))
              (find_base_node-Reaches f (m.nodes j).right r ys hr (omega arith))
      ]

  end_run :
      (j : ℕ) (t : Treap) (b : Bool)
      → (m.nodes j).treap ≡ some t
      → contains i t ≡ Base.ok b
      → run (load_treap (some j) >>= (λ t. lift (contains i t))) m ≡ returns b m
  unfolding run load_treap load
  end_run j t b e e' =
      ap (λ o. run (treap_of o >>= (λ t. lift (contains i t))) m) e ∙ ap (λ o. run (lift o) m) e'

-- In a memory that holds a tree with the values `vs`, behind its root and ordered along its routes,
-- `lookup`, run alone with fuel for the height of the tree, returns whether the value is one of them,
-- and leaves the memory as it was.
pub lookup-alone :
    (f : ℕ) (weights : ℕ → ℕ → ℤ) (m : Memory) (i : ℤ) (x : Layout) (vs : List ℤ)
    → Lays m m.root x vs
    → height x ≤ f
    → run (lookup f weights i) m ≡ returns (member i vs) m
unfolding run lookup load_root
lookup-alone f weights m i x vs h fuel =
    let (j, t, ws, found, at_j, held, same) = find_base_node-Reaches m i f m.root x vs h fuel in
    run-bind (find_base_node f m.root i) (λ b. load_treap b >>= (λ t. lift (contains i t))) m m
      (some j) found
    ∙ end_run m i j t (member i ws) at_j (contains-member t ws i held)
    ∙ ap (λ b. returns b m) same
