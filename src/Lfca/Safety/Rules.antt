-- ===== src/Lfca/Safety/Rules.antt =====
-- The steps of lfca.cpp are safe, and programs of safe steps are.
use lock_free_search_tree.Base.{
  ℕ, ◌+◌, ◌<◌, ◌≡◌, refl, ap, ◌∙◌, Bool, true, false, none, some, List, ℤ, arith, if◌then◌else◌,
  update, ltb, ◌==◌, out_of_range,
}
use lock_free_search_tree.Treap.State.{same_index}
use lock_free_search_tree.Lfca.Memory.{
  Ptr, Node, Memory, Program, ret, step, throw, fault, out_of_fuel, ◌>>=◌, blank_storage, Neighbor,
  ResultStorage,
}
use lock_free_search_tree.Lfca.Access.{
  is_preparing, load, store, set_node, exchange, put_left, put_right, put_join_id,
  exchange_preparing, exchange_root, new_node, new_treap, new_storage,
}
use lock_free_search_tree.Lfca.Find.{load_root}
use lock_free_search_tree.Lfca.Safety.{Plain, AllPlain, Follows, Keeps, Safe}

pub Keeps-bind :
    {A B : Type 0} (Q : A → Type 0) (R : B → Type 0) (p : Program A) (f : A → Program B)
    → Keeps Q p
    → ((a : A) → Q a → Keeps R (f a))
    → Keeps R (p >>= f)
Keeps-bind Q R (ret a) f h k = k a h
Keeps-bind Q R (step g c) f h k =
    λ m i. let (j, w, rest) = h m i in (j, w, Keeps-bind Q R (c m) f rest k)
Keeps-bind Q R (throw e) f h k = tt
Keeps-bind Q R fault f h k = tt
Keeps-bind Q R out_of_fuel f h k = tt

pub Safe-bind :
    {A B : Type 0} (p : Program A) (f : A → Program B)
    → Safe p
    → ((a : A) → Safe (f a))
    → Safe (p >>= f)
Safe-bind p f h k = Keeps-bind (λ _. Unit) (λ _. Unit) p f h (λ a _. k a)

pub Safe-elim :
    {A : Type 0} (b : Bool) (p q : Program A)
    → Safe p
    → Safe q
    → Safe (elim b [ true ↦ p | false ↦ q ])
Safe-elim true p q hp hq = hp
Safe-elim false p q hp hq = hq

pub Follows-refl : (m : Memory) → Follows m m
Follows-refl m = record {
  node_count = omega arith;
  storage_count = omega arith;
  treap_count = omega arith;
  node_limit = refl;
  storage_limit = refl;
  treap_limit = refl;
  result = λ s r h e. e;
}

pub load-Keeps :
    {A : Type 0} (Q : A → Type 0) (p : Ptr) (field : Node → A)
    → ((n : Node) → Plain n → Q (field n))
    → Keeps Q (load p field)
unfolding load
load-Keeps Q none field h = tt
load-Keeps Q (some p) field h = λ m i. (i, Follows-refl m, h (m.nodes p) (i p))

pub load-Safe : {A : Type 0} (p : Ptr) (field : Node → A) → Safe (load p field)
load-Safe p field = load-Keeps (λ _. Unit) p field (λ n i. tt)

if-Plain : (b : Bool) (x y : Node) → Plain x → Plain y → Plain (if b then x else y)
if-Plain true x y hx hy = hx
if-Plain false x y hx hy = hy

pub update-Plain :
    (f : ℕ → Node) (p : ℕ) (n : Node)
    → ((q : ℕ) → Plain (f q))
    → Plain n
    → (q : ℕ) → Plain (update f p n q)
update-Plain f p n i h q = if-Plain (q == p) n (f q) h (i q)

nodes-Follows : (m : Memory) (f : ℕ → Node) → Follows m (record m { nodes = f })
nodes-Follows m f = record {
  node_count = omega arith;
  storage_count = omega arith;
  treap_count = omega arith;
  node_limit = refl;
  storage_limit = refl;
  treap_limit = refl;
  result = λ s r h e. e;
}

-- A node that is changed or left as it is.
pub write-Safe :
    (p : ℕ) (n : Node) (m : Memory)
    → AllPlain m
    → Plain n
    → AllPlain (set_node p n m) × Follows m (set_node p n m)
write-Safe p n m i h = (update-Plain m.nodes p n i h, nodes-Follows m _)

if-Safe :
    (b : Bool) (m x y : Memory)
    → AllPlain x × Follows m x
    → AllPlain y × Follows m y
    → AllPlain (if b then x else y) × Follows m (if b then x else y)
if-Safe true m x y hx hy = hx
if-Safe false m x y hx hy = hy

pub store-Safe :
    (p : Ptr) (change : Node → Node)
    → ((n : Node) → Plain n → Plain (change n))
    → Safe (store p change)
unfolding store
store-Safe none change h = tt
store-Safe (some p) change h =
    λ m i. let (a, b) = write-Safe p (change (m.nodes p)) m i (h (m.nodes p) (i p)) in (a, b, tt)

pub exchange-Safe :
    (p : Ptr) (field : Node → Ptr) (put : Ptr → Node → Node) (expected new : Ptr)
    → ((q : Ptr) (n : Node) → Plain n → Plain (put q n))
    → Safe (exchange p field put expected new)
unfolding exchange
exchange-Safe none field put expected new h = tt
exchange-Safe (some p) field put expected new h = λ m i.
    let (a, b) =
      if-Safe (same_index (field (m.nodes p)) expected) m _ _
        (write-Safe p (put new (m.nodes p)) m i (h new (m.nodes p) (i p))) (i, Follows-refl m) in
    (a, b, tt)

pub exchange_left-Safe :
    (p expected new : Ptr) → Safe (exchange p (λ n. n.left) put_left expected new)
exchange_left-Safe p expected new = exchange-Safe p (λ n. n.left) put_left expected new (λ q n h. h)

pub exchange_right-Safe :
    (p expected new : Ptr) → Safe (exchange p (λ n. n.right) put_right expected new)
exchange_right-Safe p expected new =
    exchange-Safe p (λ n. n.right) put_right expected new (λ q n h. h)

pub exchange_join_id-Safe :
    (p expected new : Ptr) → Safe (exchange p (λ n. n.join_id) put_join_id expected new)
exchange_join_id-Safe p expected new =
    exchange-Safe p (λ n. n.join_id) put_join_id expected new (λ q n h. h)

pub exchange_preparing-Safe : (p : Ptr) (new : Neighbor) → Safe (exchange_preparing p new)
unfolding exchange_preparing
exchange_preparing-Safe none new = tt
exchange_preparing-Safe (some p) new = λ m i.
    let (a, b) =
      if-Safe (is_preparing (m.nodes p).neigh2) m _ _
        (write-Safe p (record (m.nodes p) { neigh2 = new }) m i (i p)) (i, Follows-refl m) in
    (a, b, tt)

root-Follows : (m : Memory) (p : Ptr) → Follows m (record m { root = p })
root-Follows m p = record {
  node_count = omega arith;
  storage_count = omega arith;
  treap_count = omega arith;
  node_limit = refl;
  storage_limit = refl;
  treap_limit = refl;
  result = λ s r h e. e;
}

pub exchange_root-Safe : (expected new : Ptr) → Safe (exchange_root expected new)
unfolding exchange_root
exchange_root-Safe expected new = λ m i.
    let (a, b) =
      if-Safe (same_index m.root expected) m _ _ (i, root-Follows m new) (i, Follows-refl m) in
    (a, b, tt)

pub load_root-Safe : Safe load_root
unfolding load_root
load_root-Safe = λ m i. (i, Follows-refl m, tt)

-- The end of an allocation.
given : {A : Type 0} (b : Bool) (a : A) → Safe (if b then ret a else throw out_of_range)
given true a = tt
given false a = tt

pub new_node-Safe : (n : Node) → Plain n → Safe (new_node n)
unfolding new_node
new_node-Safe n h = λ m i.
    let (a, b) =
      if-Safe (ltb m.node_count m.node_limit) m _ _
        (update-Plain m.nodes m.node_count n i h, counted m (update m.nodes m.node_count n))
        (i, counted m m.nodes) in
    (a, b, given (ltb m.node_count m.node_limit) (some m.node_count))
  where
    counted :
        (m : Memory) (f : ℕ → Node)
        → Follows m (record m { nodes = f; node_count = m.node_count + 1 })
    counted m f = record {
      node_count = omega arith;
      storage_count = omega arith;
      treap_count = omega arith;
      node_limit = refl;
      storage_limit = refl;
      treap_limit = refl;
      result = λ s r h e. e;
    }

pub new_treap-Safe : Safe new_treap
unfolding new_treap
new_treap-Safe = λ m i. (
  i,
  record {
    node_count = omega arith;
    storage_count = omega arith;
    treap_count = omega arith;
    node_limit = refl;
    storage_limit = refl;
    treap_limit = refl;
    result = λ s r h e. e;
  },
  given (ltb m.treap_count m.treap_limit) m.draws,
)

-- A new result set leaves those that were handed out.
older : (f : ℕ → ResultStorage) (k s : ℕ) (x : ResultStorage) → s < k → update f k x s ≡ f s
older f k s x h = ground arith

pub new_storage-Safe : Safe new_storage
unfolding new_storage
new_storage-Safe = λ m i.
    let (a, b) =
      if-Safe (ltb m.storage_count m.storage_limit) m _ _
        (
          i,
          counted m (update m.storages m.storage_count blank_storage) (λ s r h e.
              ap (λ z. z.result) (older m.storages m.storage_count s blank_storage h) ∙ e),
        )
        (i, counted m m.storages (λ s r h e. e)) in
    (a, b, given (ltb m.storage_count m.storage_limit) m.storage_count)
  where
    counted :
        (m : Memory) (f : ℕ → ResultStorage)
        → ((s : ℕ) (r : List ℤ)
            → s < m.storage_count
            → (m.storages s).result ≡ some r
            → (f s).result ≡ some r)
        → Follows m (record m { storages = f; storage_count = m.storage_count + 1 })
    counted m f h = record {
      node_count = omega arith;
      storage_count = omega arith;
      treap_count = omega arith;
      node_limit = refl;
      storage_limit = refl;
      treap_limit = refl;
      result = h;
    }
