-- ===== src/Lfca/Update.antt =====
-- `do_update` and the public operations of lfca.cpp.
use lock_free_search_tree.Base
use lock_free_search_tree.Base.{
  ℕ, zero, suc, Bool, true, false, Option, none, some, if◌then◌else◌, leb, List, ℤ, Outcome,
}
use lock_free_search_tree.Treap.State.{Treap, treap_nodes, new}
use lock_free_search_tree.Treap.Ops.{get_size, contains, immutable_insert, immutable_remove}
use lock_free_search_tree.Lfca.Memory.{
  ContentionInfo, contended, uncontened, normal, blank, Program, ret, out_of_fuel, ◌>>=◌, ◌>>◌,
  modify,
}
use lock_free_search_tree.Lfca.Access.{
  load, load_treap, store, new_node, new_treap, lift, try_replace, is_replaceable, new_stat,
}
use lock_free_search_tree.Lfca.Find.{load_root, find_base_node}
use lock_free_search_tree.Lfca.Adapt.{high_contention_adaptation, adapt_if_needed}
use lock_free_search_tree.Lfca.Range.{all_in_range, help_if_needed}

-- A function that `do_update` takes: `*result` and the new treap, of the value, the stream of weights
-- and the treap.
abbrev pub Updater : Type 0
Updater = ℤ → (ℕ → ℤ) → Treap → Outcome (Bool × Treap)

-- `*result = true`: an insert that does not throw succeeds.
abbrev pub always : Outcome Treap → Outcome (Bool × Treap)
always (Base.ok t) = Base.ok (true, t)
always (Base.throw e) = Base.throw e
always Base.fault = Base.fault
always Base.out_of_fuel = Base.out_of_fuel

-- `treap_insert`.
unfoldable pub treap_insert : Updater
treap_insert val draws t = always (immutable_insert val (draws 0) t)

-- `treap_remove`.
unfoldable pub treap_remove : Updater
treap_remove val draws t = immutable_remove val t

module _ (f : ℕ) (weights : ℕ → ℕ → ℤ) where
  -- The loop of `do_update`.
  unfoldable pub update_loop : ℕ → ContentionInfo → Updater → ℤ → Program Bool
  update_loop zero info u i = out_of_fuel
  update_loop (suc g) info u i = do
    root ← load_root
    base ← find_base_node f root i
    t ← load_treap base
    elim (leb treap_nodes (get_size t)) [
      | true ↦ do high_contention_adaptation f weights base; update_loop g info u i
      | false ↦ do
        replaceable ← is_replaceable base
        replaced ← elim replaceable [
          | false ↦ ret none
          | true ↦ do
            newb ← new_node blank
            parent ← load base (λ n. n.parent)
            store newb (λ n. record n { type = normal; parent = parent })
            t ← load_treap base
            d ← new_treap
            (res, t) ← lift (u i (weights d) t)
            stat ← new_stat base info
            store newb (λ n. record n { treap = some t; stat = stat })
            done ← try_replace base newb
            if done then (do adapt_if_needed f weights newb; ret (some res)) else ret none
        ]
        elim replaced [
          | some res ↦ ret res
          | none ↦ do
            help_if_needed (λ lo hi s. all_in_range f g lo hi (some s)) base
            update_loop g contended u i
        ]
    ]

  -- `do_update`.
  unfoldable pub do_update : Updater → ℤ → Program Bool
  do_update u i = update_loop f uncontened u i

  -- `insert`.
  unfoldable pub insert : ℤ → Program (Unit {0})
  insert i = do _ ← do_update treap_insert i; ret tt

  -- `remove`.
  unfoldable pub remove : ℤ → Program Bool
  remove i = do_update treap_remove i

  -- `lookup`.
  unfoldable pub lookup : ℤ → Program Bool
  lookup i = do
    root ← load_root
    base ← find_base_node f root i
    t ← load_treap base
    lift (contains i t)

  -- `rangeQuery`.
  unfoldable pub range_query : (lo hi : ℤ) → Program (List ℤ)
  range_query lo hi = all_in_range f f lo hi none

-- The constructor `LfcaTree()`.
unfoldable pub construct : Program (Unit {0})
construct = do
  root_node ← new_node (record blank { type = normal })
  _ ← new_treap
  store root_node (λ n. record n { treap = some new })
  modify (λ m. record m { root = root_node })
