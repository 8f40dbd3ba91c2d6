-- ===== src/Lfca/Alone.antt =====
-- The steps of lfca.cpp, run by one thread alone: each with the memory in which the run goes on.
use lock_free_search_tree.Base
use lock_free_search_tree.Base.{
  ℕ, suc, ◌+◌, ◌≡◌, ◌⊎◌, inl, inr, refl, ap, ◌∙◌, Bool, true, false, Option, none, some, update,
  ltb, if◌then◌else◌, arith, ◌==◌, ℤ, pos, Outcome, out_of_range,
}
use lock_free_search_tree.Treap.State.{Treap, same_index}
use lock_free_search_tree.Lfca.Memory.{
  ContentionInfo, NodeType, route, normal, join_main, join_neighbor, range, Ptr, Node, Memory,
  Program, ret, throw, ◌>>=◌, run,
}
use lock_free_search_tree.Lfca.Access.{
  load, store, set_node, exchange, exchange_root, put_left, put_right, new_node, new_treap, lift,
  treap_of, load_treap, load_result, load_more_than_one, is_set, is_aborted, is_finished,
  minus_range_contrib, try_replace, is_replaceable, is_range, minus_range_sub, new_stat,
  adjusted_stat,
}
use lock_free_search_tree.Lfca.Layout.{child_of}

abbrev pub put_child : Bool → Ptr → Node → Node
put_child true p n = put_left p n
put_child false p n = put_right p n

-- The memory with one more node, and with one more treap.
abbrev pub with_new : Node → Memory → Memory
with_new n m = record m { nodes = update m.nodes m.node_count n; node_count = m.node_count + 1 }

abbrev pub with_treap : Memory → Memory
with_treap m = record m { treap_count = m.treap_count + 1; draws = m.draws + 1 }

abbrev pub with_root : Ptr → Memory → Memory
with_root p m = record m { root = p }

-- `is_replaceable`, by the type of the node.
by_type : ℕ → NodeType → Program Bool
by_type n type = elim type [
  | route ↦ ret false
  | normal ↦ ret true
  | join_main ↦ do neigh2 ← load (some n) (λ n. n.neigh2); ret (is_aborted neigh2)
  | join_neighbor ↦ do
    main ← load (some n) (λ n. n.main_node)
    neigh2 ← load main (λ n. n.neigh2)
    ret (is_finished neigh2)
  | range ↦ do s ← load (some n) (λ n. n.storage); r ← load_result s; ret (is_set r)
]

range_part : Bool → Option ℕ → Program ℤ
range_part b s = elim b [
  | true ↦ do more ← load_more_than_one s; ret (if more then minus_range_contrib else pos 0)
  | false ↦ ret (pos 0)
]

-- `try_replace`, by the parent of the node.
by_parent : (b new : Ptr) → Ptr → Program Bool
by_parent b new p = elim p [
  | none ↦ exchange_root b new
  | some q ↦ do
    l ← load (some q) (λ n. n.left)
    if same_index l b then exchange (some q) (λ n. n.left) put_left b new else do
      r ← load (some q) (λ n. n.right)
      if same_index r b then exchange (some q) (λ n. n.right) put_right b new else ret false
]

same_self : (j : ℕ) (o : Ptr) → o ≡ some j → same_index o (some j) ≡ true
same_self j none e = absurd (cc)
same_self j (some k) e = ground arith

-- The left pointer of the parent, and the right one.
from_left : (s : ℕ) (b new : Ptr) → Bool → Program Bool
from_left s b new is_left = if is_left then exchange (some s) (λ n. n.left) put_left b new else do
  r ← load (some s) (λ n. n.right)
  if same_index r b then exchange (some s) (λ n. n.right) put_right b new else ret false

from_right : (s : ℕ) (b new : Ptr) → Bool → Program Bool
from_right s b new is_right =
    if is_right then exchange (some s) (λ n. n.right) put_right b new else ret false

-- A base node that can be replaced: a normal one, one of a join that was aborted, or the neighbour of a
-- join that was aborted or is done.
abbrev pub Replaceable : Memory → Node → Type 0
Replaceable m n =
    (n.type ≡ normal)
    ⊎ (((n.type ≡ join_main) × (is_aborted n.neigh2 ≡ true))
        ⊎ ((n.type ≡ join_neighbor)
            × ((p : ℕ) × (n.main_node ≡ some p) × (is_finished (m.nodes p).neigh2 ≡ true))))

pub not_range : (m : Memory) (n : Node) → Replaceable m n → is_range n.type ≡ false
not_range m n (inl e) = ap is_range e
not_range m n (inr (inl (e, _))) = ap is_range e
not_range m n (inr (inr (e, _))) = ap is_range e

module _ {A : Type 0} where
  pub then_load :
      {B : Type 0} (j : ℕ) (field : Node → B) (f : B → Program A) (m : Memory)
      → run (load (some j) field >>= f) m ≡ run (f (field (m.nodes j))) m
  unfolding run load
  then_load j field f m = refl

  pub then_store :
      (j : ℕ) (change : Node → Node) (f : Unit {0} → Program A) (m : Memory)
      → run (store (some j) change >>= f) m ≡ run (f tt) (set_node j (change (m.nodes j)) m)
  unfolding run store
  then_store j change f m = refl

  pub then_new_node :
      (n : Node) (f : Ptr → Program A) (m : Memory)
      → ltb m.node_count m.node_limit ≡ true
      → run (new_node n >>= f) m ≡ run (f (some m.node_count)) (with_new n m)
  unfolding run new_node
  then_new_node n f m e =
      ap
        (λ b.
          run ((if b then ret (some m.node_count) else throw out_of_range) >>= f)
            (if b then with_new n m else record m { node_count = m.node_count + 1 }))
        e

  pub then_new_treap :
      (f : ℕ → Program A) (m : Memory)
      → ltb m.treap_count m.treap_limit ≡ true
      → run (new_treap >>= f) m ≡ run (f m.draws) (with_treap m)
  unfolding run new_treap
  then_new_treap f m e =
      ap (λ b. run ((if b then ret m.draws else throw out_of_range) >>= f) (with_treap m)) e

  pub then_lift :
      {B : Type 0} (o : Outcome B) (a : B) (f : B → Program A) (m : Memory)
      → o ≡ Base.ok a
      → run (lift o >>= f) m ≡ run (f a) m
  then_lift o a f m e = ap (λ o. run (lift o >>= f) m) e

  pub then_load_treap :
      (j : ℕ) (t : Treap) (f : Treap → Program A) (m : Memory)
      → (m.nodes j).treap ≡ some t
      → run (load_treap (some j) >>= f) m ≡ run (f t) m
  unfolding run load_treap load
  then_load_treap j t f m e = ap (λ o. run (treap_of o >>= f) m) e

  pub then_exchange :
      (p : ℕ) (field : Node → Ptr) (put : Ptr → Node → Node) (expected new : Ptr)
      → (f : Bool → Program A) (m : Memory) → same_index (field (m.nodes p)) expected ≡ true
      → run (exchange (some p) field put expected new >>= f) m
        ≡ run (f true) (set_node p (put new (m.nodes p)) m)
  unfolding run exchange
  then_exchange p field put expected new f m e =
      ap (λ b. run (f b) (if b then set_node p (put new (m.nodes p)) m else m)) e

  pub then_exchange_root :
      (expected new : Ptr) (f : Bool → Program A) (m : Memory)
      → same_index m.root expected ≡ true
      → run (exchange_root expected new >>= f) m ≡ run (f true) (with_root new m)
  unfolding run exchange_root
  then_exchange_root expected new f m e = ap (λ b. run (f b) (if b then with_root new m else m)) e

  replace_by_type :
      (j : ℕ) (type : NodeType) (f : Bool → Program A) (m : Memory)
      → (m.nodes j).type ≡ type
      → run (is_replaceable (some j) >>= f) m ≡ run (by_type j type >>= f) m
  unfolding run is_replaceable load by_type
  replace_by_type j type f m e = ap (λ type. run (by_type j type >>= f) m) e

  finished_main :
      (p : Ptr) (k : ℕ) (f : Bool → Program A) (m : Memory)
      → p ≡ some k
      → is_finished (m.nodes k).neigh2 ≡ true
      → run (load p (λ n. n.neigh2) >>= (λ neigh2. ret (is_finished neigh2)) >>= f) m
        ≡ run (f true) m
  unfolding run load
  finished_main p k f m e e' =
      ap (λ p. run (load p (λ n. n.neigh2) >>= (λ neigh2. ret (is_finished neigh2)) >>= f) m) e
      ∙ ap (λ b. run (f b) m) e'

  -- `is_replaceable` of a node that can be replaced.
  pub then_is_replaceable :
      (j : ℕ) (f : Bool → Program A) (m : Memory)
      → Replaceable m (m.nodes j)
      → run (is_replaceable (some j) >>= f) m ≡ run (f true) m
  unfolding run load by_type
  then_is_replaceable j f m (inl e) = replace_by_type j normal f m e
  then_is_replaceable j f m (inr (inl (e, is))) =
      replace_by_type j join_main f m e ∙ ap (λ b. run (f b) m) is
  then_is_replaceable j f m (inr (inr (e, (k, main, is)))) =
      replace_by_type j join_neighbor f m e ∙ finished_main (m.nodes j).main_node k f m main is

  -- `new_stat` of a node that is no range base.
  pub then_new_stat :
      (j : ℕ) (info : ContentionInfo) (f : ℤ → Program A) (m : Memory)
      → is_range (m.nodes j).type ≡ false
      → run (new_stat (some j) info >>= f) m
        ≡ run (f (adjusted_stat (m.nodes j).stat info (pos 0))) m
  unfolding run new_stat minus_range_sub load range_part
  then_new_stat j info f m e =
      ap
        (λ is.
          run
            ((range_part is (m.nodes j).storage >>= (λ sub.
                load (some j) (λ n. n.stat) >>= (λ stat. ret (adjusted_stat stat info sub))))
              >>= f)
            m)
        e

  replace_by_parent :
      (j : ℕ) (new p : Ptr) (f : Bool → Program A) (m : Memory)
      → (m.nodes j).parent ≡ p
      → run (try_replace (some j) new >>= f) m ≡ run (by_parent (some j) new p >>= f) m
  unfolding run try_replace load by_parent
  replace_by_parent j new p f m e = ap (λ p. run (by_parent (some j) new p >>= f) m) e

  -- `try_replace` of a node that its parent, or the root, points to.
  pub then_replace_root :
      (j : ℕ) (new : Ptr) (f : Bool → Program A) (m : Memory)
      → (m.nodes j).parent ≡ none
      → m.root ≡ some j
      → run (try_replace (some j) new >>= f) m ≡ run (f true) (with_root new m)
  unfolding by_parent
  then_replace_root j new f m e e' =
      replace_by_parent j new none f m e
      ∙ then_exchange_root (some j) new f m (same_self j m.root e')

  replace_by_left :
      (s : ℕ) (b new : Ptr) (is_left : Bool) (f : Bool → Program A) (m : Memory)
      → same_index (m.nodes s).left b ≡ is_left
      → run (by_parent b new (some s) >>= f) m ≡ run (from_left s b new is_left >>= f) m
  unfolding run load by_parent from_left
  replace_by_left s b new is_left f m e = ap (λ c. run (from_left s b new c >>= f) m) e

  replace_by_right :
      (s : ℕ) (b new : Ptr) (is_right : Bool) (f : Bool → Program A) (m : Memory)
      → same_index (m.nodes s).right b ≡ is_right
      → run (from_left s b new false >>= f) m ≡ run (from_right s b new is_right >>= f) m
  unfolding run load from_left from_right
  replace_by_right s b new is_right f m e = ap (λ c. run (from_right s b new c >>= f) m) e

  pub then_replace_child :
      (j s : ℕ) (side : Bool) (new : Ptr) (f : Bool → Program A) (m : Memory)
      → (m.nodes j).parent ≡ some s
      → child_of side (m.nodes s) ≡ some j
      → (side ≡ false → same_index (m.nodes s).left (some j) ≡ false)
      → run (try_replace (some j) new >>= f) m
        ≡ run (f true) (set_node s (put_child side new (m.nodes s)) m)
  unfolding from_left from_right
  then_replace_child j s true new f m e e' alone =
      let is_left = same_self j (m.nodes s).left e' in
      replace_by_parent j new (some s) f m e
      ∙ replace_by_left s (some j) new true f m is_left
      ∙ then_exchange s (λ n. n.left) put_left (some j) new f m is_left
  then_replace_child j s false new f m e e' alone =
      let is_right = same_self j (m.nodes s).right e' in
      replace_by_parent j new (some s) f m e
      ∙ replace_by_left s (some j) new false f m (alone refl)
      ∙ replace_by_right s (some j) new true f m is_right
      ∙ then_exchange s (λ n. n.right) put_right (some j) new f m is_right
