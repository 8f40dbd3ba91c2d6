-- ===== src/Lfca/Adapt.antt =====
-- The contention adaptation of lfca.cpp: joins of a base node with its neighbour, and splits. `f` is
-- the fuel of each loop, `weights` the streams that the treap operations draw from.
use lock_free_search_tree.Base.{
  ℕ, ◌+◌, Bool, true, false, not, none, some, if◌then◌else◌, ltb, ltb_ℤ, ℤ,
}
use lock_free_search_tree.Treap.State.{treap_nodes, same_index, is_null}
use lock_free_search_tree.Treap.Ops.{get_size}
use lock_free_search_tree.Treap.Bulk.{merge, split}
use lock_free_search_tree.Lfca.Memory.{
  noinfo, route, normal, join_main, join_neighbor, Ptr, Neighbor, preparing, done, aborted, joined,
  Node, blank, Program, ret, fault, ◌>>=◌, ◌>>◌,
}
use lock_free_search_tree.Lfca.Access.{
  high_cont, low_cont, load, load_treap, store, exchange, put_left, put_right, put_join_id,
  exchange_preparing, exchange_root, new_node, new_treap, lift, try_replace, is_replaceable,
  new_stat,
}
use lock_free_search_tree.Lfca.Find.{load_child, leftmost, rightmost, not_found, found, parent_of}

-- `m->neigh2.store(s)`.
abbrev pub put_neigh2 : Neighbor → Node → Node
put_neigh2 s n = record n { neigh2 = s }

-- A failed join: ABORTED is stored, and null returned.
unfoldable pub abort_join : Ptr → Program Ptr
abort_join m = do store m (put_neigh2 aborted); ret none

-- `compare_exchange_strong` on the `left` or the `right` of a node.
abbrev pub exchange_child : Bool → Ptr → (expected new : Ptr) → Program Bool
exchange_child true p = exchange p (λ n. n.left) put_left
exchange_child false p = exchange p (λ n. n.right) put_right

-- `join_id.store(nullptr)` on a grandparent that is not null.
unfoldable pub unlock : Ptr → Program (Unit {0})
unlock none = ret tt
unlock (some p) = store (some p) (put_join_id none)

-- `gparent != nullptr && !gparent->join_id.compare_exchange_strong(nullptr, m)`, negated.
unfoldable pub lock : Ptr → Ptr → Program Bool
lock none m = ret true
lock (some g) m = exchange (some g) (λ n. n.join_id) put_join_id none m

-- The address of a node that was just allocated.
abbrev pub joined_to : Ptr → Neighbor
joined_to none = preparing
joined_to (some p) = joined p

module _ (f : ℕ) (weights : ℕ → ℕ → ℤ) where
  -- The end of `secure_join`: the merged neighbour, published by the exchange of PREPARING.
  unfoldable pub publish_join : Bool → (m n1 gparent : Ptr) → Program Ptr
  publish_join left m n1 gparent = do
    parent ← load m (λ n. n.parent)
    store m (λ n. record n { gparent = gparent })
    otherb ← load_child (not left) parent
    store m (λ n. record n { otherb = otherb })
    store m (λ n. record n { neigh1 = n1 })
    n1_parent ← load n1 (λ n. n.parent)
    copy ← load n1 (λ n. n)
    new_neigh2 ← new_node copy
    let joinedp = if same_index otherb n1 then gparent else n1_parent
    store new_neigh2 (λ n. record n { type = join_neighbor; parent = joinedp; main_node = m })
    a ← load_treap m
    b ← load_treap n1
    d ← new_treap
    merged ← lift (if left then merge (weights d) a b else merge (weights d) b a)
    store new_neigh2 (λ n. record n { treap = some merged })
    published ← exchange_preparing m (joined_to new_neigh2)
    elim published [
      | true ↦ ret m
      | false ↦ do unlock gparent; store parent (put_join_id none); abort_join m
    ]

  -- The part of `secure_join` that takes the `join_id` of the parent and of the grandparent.
  unfoldable pub lock_parents : Bool → (m n1 : Ptr) → Program Ptr
  lock_parents left m n1 = do
    parent ← load m (λ n. n.parent)
    locked ← exchange parent (λ n. n.join_id) put_join_id none m
    elim locked [
      | false ↦ abort_join m
      | true ↦ do
        g ← parent_of f parent
        elim g [
          | not_found ↦ do store parent (put_join_id none); abort_join m
          | found gparent ↦ do
            both ← lock gparent m
            elim both [
              | true ↦ publish_join left m n1 gparent
              | false ↦ do store parent (put_join_id none); abort_join m
            ]
        ]
    ]

  -- The part of `secure_join` that puts `m` in the place of `b` and `n1` in the place of `n0`.
  unfoldable pub replace_both : Bool → (b n0 : Ptr) → Program Ptr
  replace_both left b n0 = do
    copy ← load b (λ n. n)
    m ← new_node copy
    store m (λ n. record n { type = join_main })
    parent ← load b (λ n. n.parent)
    replaced ← exchange_child left parent b m
    elim replaced [
      | false ↦ ret none
      | true ↦ do
        copy ← load n0 (λ n. n)
        n1 ← new_node copy
        store n1 (λ n. record n { type = join_neighbor; main_node = m })
        replaced ← try_replace n0 n1
        elim replaced [ true ↦ lock_parents left m n1 | false ↦ abort_join m ]
    ]

  -- `secure_join`.
  unfoldable pub secure_join : Ptr → Bool → Program Ptr
  secure_join b left = do
    parent ← load b (λ n. n.parent)
    sibling ← load_child (not left) parent
    n0 ← (if left then leftmost f sibling else rightmost f sibling)
    replaceable ← is_replaceable n0
    elim replaceable [
      | false ↦ ret none
      | true ↦ do
        x ← load_treap b
        y ← load_treap n0
        elim (ltb treap_nodes (get_size x + get_size y)) [
          | true ↦ ret none
          | false ↦ replace_both left b n0
        ]
    ]

-- The pointer in `neigh2` when it is used as one: PREPARING is the null pointer, and ABORTED must not
-- be followed.
abbrev pub joined_node : Neighbor → Program Ptr
joined_node preparing = ret none
joined_node (joined p) = ret (some p)
joined_node _ = fault

-- The part of `complete_join` that takes the parent out of the tree.
unfoldable pub splice : (m replacement : Ptr) → Program (Unit {0})
splice m replacement = do
  parent ← load m (λ n. n.parent)
  gparent ← load m (λ n. n.gparent)
  elim (is_null gparent) [
    | true ↦ do _ ← exchange_root parent replacement; ret tt
    | false ↦ do
      l ← load_child true gparent
      elim (same_index l parent) [
        | true ↦ do
          _ ← exchange_child true gparent parent replacement
          _ ← exchange gparent (λ n. n.join_id) put_join_id m none
          ret tt
        | false ↦ do
          r ← load_child false gparent
          elim (same_index r parent) [
            | true ↦ do
              _ ← exchange_child false gparent parent replacement
              _ ← exchange gparent (λ n. n.join_id) put_join_id m none
              ret tt
            | false ↦ ret tt
          ]
      ]
  ]

abbrev pub is_done : Neighbor → Bool
is_done preparing = false
is_done done = true
is_done _ = false

-- `complete_join`.
unfoldable pub complete_join : Ptr → Program (Unit {0})
complete_join m = do
  neigh2 ← load m (λ n. n.neigh2)
  elim (is_done neigh2) [
    | true ↦ ret tt
    | false ↦ do
      n2 ← joined_node neigh2
      neigh1 ← load m (λ n. n.neigh1)
      _ ← try_replace neigh1 n2
      parent ← load m (λ n. n.parent)
      store parent (λ n. record n { valid = false })
      otherb ← load m (λ n. n.otherb)
      splice m (if same_index otherb neigh1 then n2 else otherb)
      store m (put_neigh2 done)
  ]

module _ (f : ℕ) (weights : ℕ → ℕ → ℤ) where
  -- A join that is completed if it was secured.
  unfoldable pub join : Ptr → Bool → Program (Unit {0})
  join b left = do
    m ← secure_join f weights b left
    elim m [ none ↦ ret tt | some p ↦ complete_join (some p) ]

  -- `low_contention_adaptation`.
  unfoldable pub low_contention_adaptation : Ptr → Program (Unit {0})
  low_contention_adaptation b = do
    parent ← load b (λ n. n.parent)
    elim parent [
      | none ↦ ret tt
      | some p ↦ do
        l ← load_child true (some p)
        elim (same_index l b) [
          | true ↦ join b true
          | false ↦ do
            r ← load_child false (some p)
            elim (same_index r b) [ true ↦ join b false | false ↦ ret tt ]
        ]
    ]

  -- `high_contention_adaptation`.
  unfoldable pub high_contention_adaptation : Ptr → Program (Unit {0})
  high_contention_adaptation b = do
    t ← load_treap b
    elim (ltb (get_size t) 2) [
      | true ↦ ret tt
      | false ↦ do
        r ← new_node (record blank { type = route })
        d ← new_treap
        e ← new_treap
        (split_val, left_treap, right_treap) ← lift (split (weights d) (weights e) t)
        left_node ← new_node (record blank { type = normal; parent = r; treap = some left_treap })
        right_node ← new_node (record blank { type = normal; parent = r; treap = some right_treap })
        store r (λ n. record n { key = split_val; left = left_node; right = right_node })
        _ ← try_replace b r
        ret tt
    ]

  -- `adapt_if_needed`.
  unfoldable pub adapt_if_needed : Ptr → Program (Unit {0})
  adapt_if_needed b = do
    replaceable ← is_replaceable b
    elim replaceable [
      | false ↦ ret tt
      | true ↦ do
        stat ← new_stat b noinfo
        elim (ltb_ℤ high_cont stat) [
          | true ↦ high_contention_adaptation b
          | false ↦ do
            stat ← new_stat b noinfo
            elim (ltb_ℤ stat low_cont) [ true ↦ low_contention_adaptation b | false ↦ ret tt ]
        ]
    ]
