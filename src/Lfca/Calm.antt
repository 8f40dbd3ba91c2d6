-- ===== src/Lfca/Calm.antt =====
-- Memories of lfca.cpp in which no adaptation is due, and what an update makes of them.
use lock_free_search_tree.Base
use lock_free_search_tree.Base.{
  ℕ, zero, suc, ◌+◌, ◌≤◌, ◌<◌, ◌≡◌, ◌≢◌, refl, sym, ap, ◌∙◌, inl, inr, Bool, true, false,
  Bool-cases, none, some, ltb, leb, arith, List, [], ◌∷◌, ◌++◌, eqb_ℤ, ℤ, pos, ltb_ℤ, leb_ℤ, ◌≤ℤ◌,
  ◌<ℤ◌, ◌+ℤ◌, pos_part, neg_part, All, Outcome,
}
use native.Mathlib.Decide.{dec_lt}
use lock_free_search_tree.Base.Sorted.{member}
use lock_free_search_tree.Treap.State.{treap_nodes, Treap}
use lock_free_search_tree.Treap.Shape.{one}
use lock_free_search_tree.Treap.Model.{Represents}
use lock_free_search_tree.Lfca.Memory.{uncontened, Node, Memory, Ended, returns, run}
use lock_free_search_tree.Lfca.Access.{high_cont, low_cont, is_route, adjusted_stat}
use lock_free_search_tree.Lfca.Update.{Updater}
use lock_free_search_tree.Lfca.Layout.{Layout, base, route, Lays}
use lock_free_search_tree.Lfca.Alone.{Replaceable}
use lock_free_search_tree.Lfca.Replace.{count, Parents}

-- A base node that can be replaced, is not full, and is not due to be split or joined.
abbrev pub CalmNode : Memory → Node → Type 0
CalmNode m n =
    Replaceable m n
    × (low_cont <ℤ n.stat)
    × (n.stat ≤ℤ high_cont)
    × ((t : Treap) × (n.treap ≡ some t) × (t.size < treap_nodes))

abbrev pub Calm : Memory → Layout → Type 0
Calm m (base i) = CalmNode m (m.nodes i)
Calm m (route i l r) = (is_route (m.nodes i).type ≡ true) × Calm m l × Calm m r

one_eq : (a i : ℕ) → 0 < one a i → a ≡ i
one_eq a i h = ground arith

pub Calm-at :
    (m : Memory) (x : Layout) (a : ℕ)
    → Calm m x
    → 0 < count a x
    → is_route (m.nodes a).type ≡ false
    → CalmNode m (m.nodes a)
Calm-at m (base i) a c h is = rw (one_eq a i h) c
Calm-at m (route i l r) a (ri, cl, cr) h is = elim (dec_lt 0 (count a l)) [
  | yes p ↦ Calm-at m l a cl p is
  | no not_left ↦ elim (dec_lt 0 (count a r)) [
    | yes p ↦ Calm-at m r a cr p is
    | no not_right ↦ clash (one_eq a i (omega arith))
  ]
]
  where
    clash : a ≡ i → CalmNode m (m.nodes a)
    clash e =
        let both : true ≡ false = sym ri ∙ ap (λ z. is_route (m.nodes z).type) (sym e) ∙ is in
        absurd (cc)

-- The counter after an update without contention stays within its limits.
pub quiet_high :
    (s : ℤ) → s ≤ℤ high_cont → ltb_ℤ high_cont (adjusted_stat s uncontened (pos 0)) ≡ false
unfolding adjusted_stat ◌+ℤ◌
quiet_high s h = ground arith

pub quiet_low :
    (s : ℤ) → low_cont <ℤ s → ltb_ℤ (adjusted_stat s uncontened (pos 0)) low_cont ≡ false
unfolding adjusted_stat ◌+ℤ◌
quiet_low s h = ground arith

-- The memory holds, behind its root, the tree `x` with the values `vs`: its base nodes know their
-- parents, and each of its nodes has been handed out and stands in it once.
pub record IsTree (m : Memory) (x : Layout) (vs : List ℤ) : Type 0 where
  pub lays : Lays m m.root x vs
  pub parents : Parents m none x
  pub distinct : (a : ℕ) → count a x ≤ 1
  pub used : (a : ℕ) → 0 < count a x → a < m.node_count

-- A memory that holds a tree, whose base nodes are calm, and with room in the pools.
pub record Ready (m : Memory) (x : Layout) (vs : List ℤ) : Type 0 where
  pub tree : IsTree m x vs
  pub calm : Calm m x
  pub node_room : m.node_count < m.node_limit
  pub treap_room : m.treap_count < m.treap_limit

-- What an update function does with the values of a treap: it changes them as `g` does, and its result
-- depends on whether the value is among them.
abbrev pub Effect : Updater → ℤ → (ℕ → ℤ) → (Bool → Bool) → (List ℤ → List ℤ) → Type 0
Effect u i draws answer g =
    (t : Treap) (ws : List ℤ)
    → Represents t ws
    → t.size < treap_nodes
    → (t' : Treap) × (u i draws t ≡ Base.ok (answer (member i ws), t')) × Represents t' (g ws)

-- Where an update leads: to a tree with the changed values, whose base nodes know their parents.
abbrev pub Updates : Bool → List ℤ → Ended Bool → Type 0
Updates res ws run = (n : Memory) × (y : Layout) × (run ≡ returns res n) × IsTree n y ws

pub lt_true : (a b : ℕ) → a < b → ltb a b ≡ true
lt_true a b h = ground arith

pub roomy : (n : ℕ) → n < treap_nodes → leb treap_nodes n ≡ false
roomy n h = ground arith
