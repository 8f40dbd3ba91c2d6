-- ===== src/Lfca/Access.antt =====
-- Loads, stores, compare-and-swaps and allocations of lfca.cpp, and its small helpers.
use lock_free_search_tree.Base
use lock_free_search_tree.Base.{
  ℕ, zero, suc, ◌+◌, ◌==◌, ltb, Bool, true, false, ◌&&◌, ◌||◌, Option, none, some, List, [], ◌∷◌,
  if◌then◌else◌, update, ℤ, pos, negsuc, ltb_ℤ, leb_ℤ, ◌+ℤ◌, Outcome, out_of_range,
}
use lock_free_search_tree.Treap.State.{Treap, same_index}
use lock_free_search_tree.Lfca.Memory.{
  ContentionInfo, contended, uncontened, noinfo, NodeType, route, normal, join_main, join_neighbor,
  range, Ptr, Neighbor, preparing, aborted, joined, Node, blank_storage, Memory, Program, ret, step,
  throw, fault, out_of_fuel, ◌>>=◌, read, modify,
}

-- CONT_CONTRIB, LOW_CONT_CONTRIB, RANGE_CONTRIB, HIGH_CONT, LOW_CONT.
abbrev pub cont_contrib : ℤ
cont_contrib = pos 250

abbrev pub minus_low_cont_contrib : ℤ
minus_low_cont_contrib = negsuc 0

abbrev pub minus_range_contrib : ℤ
minus_range_contrib = negsuc 99

abbrev pub high_cont : ℤ
high_cont = pos 1000

abbrev pub low_cont : ℤ
low_cont = negsuc 999

abbrev pub is_route : NodeType → Bool
is_route route = true
is_route _ = false

abbrev pub is_range : NodeType → Bool
is_range route = false
is_range range = true
is_range _ = false

abbrev pub is_set : Option (List ℤ) → Bool
is_set none = false
is_set (some _) = true

-- A pointer that is followed must not be null.
abbrev pub non_null : Ptr → Program ℕ
non_null none = fault
non_null (some p) = ret p

-- One load from the node behind a pointer: a field, or fields that no thread changes.
unfoldable pub load : {A : Type 0} → Ptr → (Node → A) → Program A
load none field = fault
load (some p) field = read (λ m. field (m.nodes p))

abbrev pub set_node : ℕ → Node → Memory → Memory
set_node p n m = record m { nodes = update m.nodes p n }

-- A store into the node behind a pointer.
unfoldable pub store : Ptr → (Node → Node) → Program (Unit {0})
store none change = fault
store (some p) change = modify (λ m. set_node p (change (m.nodes p)) m)

-- `compare_exchange_strong` on a field of a node that holds a pointer: whether it was exchanged.
unfoldable pub exchange :
    Ptr → (Node → Ptr) → (Ptr → Node → Node) → (expected new : Ptr) → Program Bool
exchange none field put expected new = fault
exchange (some p) field put expected new =
    step
      (λ m.
        if same_index (field (m.nodes p)) expected then set_node p (put new (m.nodes p)) m else m)
      (λ m. ret (same_index (field (m.nodes p)) expected))

abbrev pub put_left : Ptr → Node → Node
put_left l n = record n { left = l }

abbrev pub put_right : Ptr → Node → Node
put_right r n = record n { right = r }

abbrev pub put_join_id : Ptr → Node → Node
put_join_id j n = record n { join_id = j }

abbrev pub is_preparing : Neighbor → Bool
is_preparing preparing = true
is_preparing _ = false

-- `neigh2.compare_exchange_strong(PREPARING, new)`.
unfoldable pub exchange_preparing : Ptr → Neighbor → Program Bool
exchange_preparing none new = fault
exchange_preparing (some p) new =
    step
      (λ m.
        if is_preparing (m.nodes p).neigh2
        then set_node p (record (m.nodes p) { neigh2 = new }) m
        else m)
      (λ m. ret (is_preparing (m.nodes p).neigh2))

-- `root.compare_exchange_strong(expected, new)`.
unfoldable pub exchange_root : (expected new : Ptr) → Program Bool
exchange_root expected new =
    step (λ m. if same_index m.root expected then record m { root = new } else m)
      (λ m. ret (same_index m.root expected))

-- `node::New()` and `*newElement = n`: the counter moves on also when the pool is used up.
unfoldable pub new_node : Node → Program Ptr
new_node n =
    step
      (λ m.
        if ltb m.node_count m.node_limit
        then record m { nodes = update m.nodes m.node_count n; node_count = m.node_count + 1 }
        else record m { node_count = m.node_count + 1 })
      (λ m. if ltb m.node_count m.node_limit then ret (some m.node_count) else throw out_of_range)

-- `rs::New()`.
unfoldable pub new_storage : Program ℕ
new_storage =
    step
      (λ m.
        if ltb m.storage_count m.storage_limit
        then record m {
          storages = update m.storages m.storage_count blank_storage;
          storage_count = m.storage_count + 1;
        }
        else record m { storage_count = m.storage_count + 1 })
      (λ m. if ltb m.storage_count m.storage_limit then ret m.storage_count else throw out_of_range)

-- The `Treap::New()` of a treap operation, and the stream of weights that the operation draws.
unfoldable pub new_treap : Program ℕ
new_treap =
    step (λ m. record m { treap_count = m.treap_count + 1; draws = m.draws + 1 })
      (λ m. if ltb m.treap_count m.treap_limit then ret m.draws else throw out_of_range)

-- The result of a treap operation in a program.
abbrev pub lift : {A : Type 0} → Outcome A → Program A
lift (Base.ok a) = ret a
lift (Base.throw e) = throw e
lift Base.fault = fault
lift Base.out_of_fuel = out_of_fuel

-- `n->data`, which a base node has.
abbrev pub treap_of : Option Treap → Program Treap
treap_of none = fault
treap_of (some t) = ret t

unfoldable pub load_treap : Ptr → Program Treap
load_treap n = do t ← load n (λ n. n.treap); treap_of t

-- `n->storage->result.load()`, and the whole of a result set's flag.
unfoldable pub load_result : Option ℕ → Program (Option (List ℤ))
load_result none = fault
load_result (some s) = read (λ m. (m.storages s).result)

unfoldable pub load_more_than_one : Option ℕ → Program Bool
load_more_than_one none = fault
load_more_than_one (some s) = read (λ m. (m.storages s).more_than_one_base)

-- `try_replace`.
unfoldable pub try_replace : (b new : Ptr) → Program Bool
try_replace b new_b = do
  p ← load b (λ n. n.parent)
  elim p [
    | none ↦ exchange_root b new_b
    | some q ↦ do
      l ← load (some q) (λ n. n.left)
      if same_index l b then exchange (some q) (λ n. n.left) put_left b new_b else do
        r ← load (some q) (λ n. n.right)
        if same_index r b then exchange (some q) (λ n. n.right) put_right b new_b else ret false
  ]

abbrev pub is_aborted : Neighbor → Bool
is_aborted preparing = false
is_aborted aborted = true
is_aborted _ = false

abbrev pub is_finished : Neighbor → Bool
is_finished preparing = false
is_finished (joined _) = false
is_finished _ = true

-- `is_replaceable`.
unfoldable pub is_replaceable : Ptr → Program Bool
is_replaceable n = do
  type ← load n (λ n. n.type)
  elim type [
    | route ↦ ret false
    | normal ↦ ret true
    | join_main ↦ do neigh2 ← load n (λ n. n.neigh2); ret (is_aborted neigh2)
    | join_neighbor ↦ do
      main ← load n (λ n. n.main_node)
      neigh2 ← load main (λ n. n.neigh2)
      ret (is_finished neigh2)
    | range ↦ do s ← load n (λ n. n.storage); r ← load_result s; ret (is_set r)
  ]

-- `range_sub` in `new_stat`, negated.
unfoldable pub minus_range_sub : Ptr → Program ℤ
minus_range_sub n = do
  (type, s) ← load n (λ n. (n.type, n.storage))
  elim (is_range type) [
    | true ↦ do more ← load_more_than_one s; ret (if more then minus_range_contrib else pos 0)
    | false ↦ ret (pos 0)
  ]

-- `new_stat`, of the node's `stat` and of `range_sub` negated.
unfoldable pub adjusted_stat : ℤ → ContentionInfo → ℤ → ℤ
adjusted_stat stat contended sub =
    if leb_ℤ stat high_cont then (stat +ℤ cont_contrib) +ℤ sub else stat
adjusted_stat stat uncontened sub =
    if leb_ℤ low_cont stat then (stat +ℤ minus_low_cont_contrib) +ℤ sub else stat
adjusted_stat stat noinfo sub = stat

-- `new_stat`.
unfoldable pub new_stat : Ptr → ContentionInfo → Program ℤ
new_stat n info = do
  sub ← minus_range_sub n
  stat ← load n (λ n. n.stat)
  ret (adjusted_stat stat info sub)
