-- ===== src/Lfca/Range.antt =====
-- The range query of lfca.cpp, and the help that a thread gives to others. `f` is the fuel of a search;
-- the fuel of `all_in_range` counts its turns, `goto`s and calls of itself.
use lock_free_search_tree.Base.{
  ℕ, zero, suc, ◌==◌, Bool, true, false, ◌&&◌, not, Option, none, some, List, [], ◌∷◌, ◌++◌,
  if◌then◌else◌, leb_ℤ, ℤ,
}
use lock_free_search_tree.Treap.State.{same_index, is_null}
use lock_free_search_tree.Treap.Ops.{get_size, get_max_value, range_query}
use lock_free_search_tree.Lfca.Memory.{
  NodeType, route, normal, join_main, join_neighbor, range, Ptr, Neighbor, aborted, joined, Program,
  ret, step, fault, out_of_fuel, ◌>>=◌, ◌>>◌, modify,
}
use lock_free_search_tree.Lfca.Access.{
  is_range, is_set, is_preparing, load, load_treap, load_result, store, exchange_preparing,
  new_node, new_storage, lift, try_replace, is_replaceable,
}
use lock_free_search_tree.Lfca.Find.{load_root, find_base_stack, find_next_base_stack, replace_top}
use lock_free_search_tree.Lfca.Adapt.{complete_join}
use lock_free_search_tree.Base.{update}

-- `new_range_base`.
unfoldable pub new_range_base : Ptr → (lo hi : ℤ) → ℕ → Program Ptr
new_range_base b lo hi s = do
  copy ← load b (λ n. n)
  new_base ← new_node copy
  store new_base (λ n. record n { lo = lo; hi = hi; storage = some s })
  ret new_base

abbrev pub is_join_main : NodeType → Bool
is_join_main route = false
is_join_main normal = false
is_join_main join_main = true
is_join_main _ = false

abbrev pub is_join_neighbor : NodeType → Bool
is_join_neighbor join_neighbor = true
is_join_neighbor range = false
is_join_neighbor _ = false

-- `neigh2 > ABORTED`.
abbrev pub is_joined : Neighbor → Bool
is_joined (joined _) = true
is_joined _ = false

-- A value of `result` that is followed: `*result.load()`.
abbrev pub the_result : Option (List ℤ) → Program (List ℤ)
the_result none = fault
the_result (some r) = ret r

-- `my_s->result.compare_exchange_strong(NOT_SET, res)`.
unfoldable pub exchange_result : ℕ → List ℤ → Program Bool
exchange_result s res =
    step
      (λ m. if is_set (m.storages s).result then m else record m {
        storages = update m.storages s (record (m.storages s) { result = some res });
      })
      (λ m. ret (not (is_set (m.storages s).result)))

-- `my_s->more_than_one_base.store(true)`.
unfoldable pub set_more_than_one : ℕ → Program (Unit {0})
set_more_than_one s = modify (λ m. record m {
  storages = update m.storages s (record (m.storages s) { more_than_one_base = true });
})

-- The results of the base nodes, one after the other.
unfoldable pub collect_results : (lo hi : ℤ) → List Ptr → Program (List ℤ)
collect_results lo hi [] = ret []
collect_results lo hi (b ∷ bs) = do
  t ← load_treap b
  r ← lift (range_query lo hi t)
  rs ← collect_results lo hi bs
  ret (r ++ rs)

abbrev pub more_than_one : List Ptr → Bool
more_than_one (_ ∷ _ ∷ _) = true
more_than_one _ = false

-- The end of `all_in_range`: the values are stored as the result unless another thread did so.
unfoldable pub finish : (lo hi : ℤ) → ℕ → List Ptr → Program (List ℤ)
finish lo hi my_s bases = do
  res ← collect_results lo hi bases
  exchanged ← exchange_result my_s res
  (if exchanged && more_than_one bases then set_more_than_one my_s else ret tt)
  r ← load_result (some my_s)
  the_result r

-- Whether the base node is the last one that can hold values of the range.
unfoldable pub is_last : ℤ → Ptr → Program Bool
is_last hi b = do
  t ← load_treap b
  if get_size t == 0 then ret false else do m ← lift (get_max_value t); ret (leb_ℤ hi m)

-- `help_if_needed`, of the `all_in_range` that it calls.
unfoldable pub help_if_needed : (ℤ → ℤ → ℕ → Program (List ℤ)) → Ptr → Program (Unit {0})
help_if_needed all_in_range n = do
  type ← load n (λ n. n.type)
  n ← (if is_join_neighbor type then load n (λ n. n.main_node) else ret n)
  type ← load n (λ n. n.type)
  elim (is_join_main type) [
    | true ↦ do
      neigh2 ← load n (λ n. n.neigh2)
      elim (is_preparing neigh2) [
        | true ↦ do _ ← exchange_preparing n aborted; ret tt
        | false ↦ do
          neigh2 ← load n (λ n. n.neigh2)
          if is_joined neigh2 then complete_join n else ret tt
      ]
    | false ↦ elim (is_range type) [
      | false ↦ ret tt
      | true ↦ do
        (lo, hi, storage) ← load n (λ n. (n.lo, n.hi, n.storage))
        r ← load_result storage
        elim (is_set r) [
          | true ↦ ret tt
          | false ↦ elim storage [ none ↦ fault | some s ↦ do _ ← all_in_range lo hi s; ret tt ]
        ]
    ]
  ]

module _ (f : ℕ) where
  -- The three functions are `all_in_range` at its labels: its start or `find_first`, the `while` loop,
  -- and `find_next_base_node`. `bases` is the vector `done`.
  unfoldable mutual
    pub all_in_range : ℕ → (lo hi : ℤ) → Option ℕ → Program (List ℤ)
    all_in_range zero lo hi help_s = out_of_fuel
    all_in_range (suc g) lo hi (some s) = do
      root ← load_root
      (b, stack) ← find_base_stack f root lo
      (type, storage) ← load b (λ n. (n.type, n.storage))
      elim (is_range type && same_index storage (some s)) [
        | true ↦ gather g lo hi s b stack []
        | false ↦ do r ← load_result (some s); the_result r
      ]
    all_in_range (suc g) lo hi none = do
      root ← load_root
      (b, stack) ← find_base_stack f root lo
      replaceable ← is_replaceable b
      elim replaceable [
        | true ↦ do
          my_s ← new_storage
          n ← new_range_base b lo hi my_s
          replaced ← try_replace b n
          elim replaced [
            | false ↦ all_in_range g lo hi none
            | true ↦ do stack ← replace_top stack n; gather g lo hi my_s b stack []
          ]
        | false ↦ do
          (type, b_lo, b_hi, storage) ← load b (λ n. (n.type, n.lo, n.hi, n.storage))
          elim (is_range type && leb_ℤ hi b_hi) [
            | true ↦ all_in_range g b_lo b_hi storage
            | false ↦ do
              help_if_needed (λ lo hi s. all_in_range g lo hi (some s)) b
              all_in_range g lo hi none
          ]
      ]

    pub gather : ℕ → (lo hi : ℤ) → (my_s : ℕ) → Ptr → List Ptr → List Ptr → Program (List ℤ)
    gather zero lo hi my_s b stack bases = out_of_fuel
    gather (suc g) lo hi my_s b stack bases = do
      last ← is_last hi b
      elim last [
        | true ↦ finish lo hi my_s (bases ++ b ∷ [])
        | false ↦ find_next g lo hi my_s stack stack (bases ++ b ∷ [])
      ]

    pub find_next :
        ℕ → (lo hi : ℤ) → (my_s : ℕ) → (stack backup bases : List Ptr) → Program (List ℤ)
    find_next zero lo hi my_s stack backup bases = out_of_fuel
    find_next (suc g) lo hi my_s stack backup bases = do
      (b, stack) ← find_next_base_stack f stack
      elim (is_null b) [
        | true ↦ finish lo hi my_s bases
        | false ↦ do
          r ← load_result (some my_s)
          elim (is_set r) [
            | true ↦ do r ← load_result (some my_s); the_result r
            | false ↦ do
              (type, storage) ← load b (λ n. (n.type, n.storage))
              elim (is_range type && same_index storage (some my_s)) [
                | true ↦ gather g lo hi my_s b stack bases
                | false ↦ do
                  replaceable ← is_replaceable b
                  elim replaceable [
                    | true ↦ do
                      n ← new_range_base b lo hi my_s
                      replaced ← try_replace b n
                      elim replaced [
                        | true ↦ do stack ← replace_top stack n; gather g lo hi my_s b stack bases
                        | false ↦ find_next g lo hi my_s backup backup bases
                      ]
                    | false ↦ do
                      help_if_needed (λ lo hi s. all_in_range g lo hi (some s)) b
                      find_next g lo hi my_s backup backup bases
                  ]
              ]
          ]
      ]
