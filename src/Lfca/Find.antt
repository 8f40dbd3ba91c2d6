-- ===== src/Lfca/Find.antt =====
-- The searches of lfca.cpp. A stack is a list whose top is its first element; a loop has fuel, since
-- other threads can make the path that it follows longer for ever.
use lock_free_search_tree.Base.{
  ℕ, zero, suc, Bool, true, false, ◌&&◌, not, none, some, List, [], ◌∷◌, if◌then◌else◌, ℤ, ltb_ℤ,
  leb_ℤ,
}
use lock_free_search_tree.Treap.State.{same_index}
use lock_free_search_tree.Lfca.Memory.{Ptr, Program, ret, fault, out_of_fuel, ◌>>=◌, read}
use lock_free_search_tree.Lfca.Access.{is_route, load}

-- `root.load()`.
unfoldable pub load_root : Program Ptr
load_root = read (λ m. m.root)

-- The loop of `leftmost`.
unfoldable pub leftmost : ℕ → Ptr → Program Ptr
leftmost zero temp = out_of_fuel
leftmost (suc f) temp = do
  l ← load temp (λ n. n.left)
  elim l [ none ↦ ret temp | some q ↦ leftmost f (some q) ]

-- The loop of `rightmost`.
unfoldable pub rightmost : ℕ → Ptr → Program Ptr
rightmost zero temp = out_of_fuel
rightmost (suc f) temp = do
  r ← load temp (λ n. n.right)
  elim r [ none ↦ ret temp | some q ↦ rightmost f (some q) ]

-- `left.load()` if the test holds, `right.load()` otherwise.
abbrev pub load_child : Bool → Ptr → Program Ptr
load_child true n = load n (λ n. n.left)
load_child false n = load n (λ n. n.right)

-- `find_base_node`.
unfoldable pub find_base_node : ℕ → Ptr → ℤ → Program Ptr
find_base_node zero n i = out_of_fuel
find_base_node (suc f) n i = do
  (type, key) ← load n (λ n. (n.type, n.key))
  elim (is_route type) [
    | true ↦ do n ← load_child (leb_ℤ i key) n; find_base_node f n i
    | false ↦ ret n
  ]

-- The second loop of `find_base_stack`: the base node, and the stack with it on top.
unfoldable pub find_base_stack_loop : ℕ → Ptr → ℤ → List Ptr → Program (Ptr × List Ptr)
find_base_stack_loop zero n i s = out_of_fuel
find_base_stack_loop (suc f) n i s = do
  (type, key) ← load n (λ n. (n.type, n.key))
  elim (is_route type) [
    | true ↦ do l ← load_child (ltb_ℤ i key) n; find_base_stack_loop f l i (n ∷ s)
    | false ↦ ret (n, n ∷ s)
  ]

-- `find_base_stack`, which empties the stack first.
unfoldable pub find_base_stack : ℕ → Ptr → ℤ → Program (Ptr × List Ptr)
find_base_stack f n i = find_base_stack_loop f n i []

-- `leftmost_and_stack`.
unfoldable pub leftmost_and_stack : ℕ → Ptr → List Ptr → Program (Ptr × List Ptr)
leftmost_and_stack zero n s = out_of_fuel
leftmost_and_stack (suc f) n s = do
  type ← load n (λ n. n.type)
  elim (is_route type) [
    | true ↦ do l ← load_child true n; leftmost_and_stack f l (n ∷ s)
    | false ↦ ret (n, n ∷ s)
  ]

-- `replace_top`; popping an empty stack is undefined.
unfoldable pub replace_top : List Ptr → Ptr → Program (List Ptr)
replace_top [] n = fault
replace_top (_ ∷ s) n = ret (n ∷ s)

-- The loop of `find_next_base_stack`, with `t` on top of the stack, over what is below.
unfoldable pub climb : ℕ → ℤ → Ptr → List Ptr → Program (Ptr × List Ptr)
climb f limit t [] = do
  valid ← load t (λ n. n.valid)
  key ← load t (λ n. n.key)
  elim (valid && ltb_ℤ limit key) [
    | true ↦ do r ← load_child false t; leftmost_and_stack f r (t ∷ [])
    | false ↦ ret (none, [])
  ]
climb f limit t (u ∷ s) = do
  valid ← load t (λ n. n.valid)
  key ← load t (λ n. n.key)
  elim (valid && ltb_ℤ limit key) [
    | true ↦ do r ← load_child false t; leftmost_and_stack f r (t ∷ u ∷ s)
    | false ↦ climb f limit u s
  ]

-- `find_next_base_stack`: the node or null, and the stack.
unfoldable pub find_next_base_stack : ℕ → List Ptr → Program (Ptr × List Ptr)
find_next_base_stack f [] = fault
find_next_base_stack f (base ∷ []) = ret (none, [])
find_next_base_stack f (base ∷ t ∷ s) = do
  l ← load t (λ n. n.left)
  elim (same_index l base) [
    | true ↦ do r ← load_child false t; leftmost_and_stack f r (t ∷ s)
    | false ↦ do limit ← load t (λ n. n.key); climb f limit t s
  ]

-- What `parent_of` returns: NOT_FOUND, or a node or null.
pub data Parent : Type 0 where
  not_found : Parent
  found : Ptr → Parent

unfoldable pub parent_loop : ℕ → ℤ → Ptr → (prev curr : Ptr) → Program Parent
parent_loop zero key n prev curr = out_of_fuel
parent_loop (suc f) key n prev curr = do
  (type, curr_key) ← load curr (λ n. (n.type, n.key))
  elim (not (same_index curr n) && is_route type) [
    | true ↦ do next ← load_child (ltb_ℤ key curr_key) curr; parent_loop f key n curr next
    | false ↦ ret (if is_route type then found prev else not_found)
  ]

-- `parent_of`.
unfoldable pub parent_of : ℕ → Ptr → Program Parent
parent_of f n = do curr ← load_root; key ← load n (λ n. n.key); parent_loop f key n none curr
