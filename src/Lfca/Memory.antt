-- ===== src/Lfca/Memory.antt =====
-- The data of lfca.h, the memory that the threads share, and programs over it that are made of
-- atomic steps. A node or a result set is named by its index in the preallocated pool.
use lock_free_search_tree.Base.{ℕ, Bool, true, false, Option, none, List, ℤ, pos, Exception}
use lock_free_search_tree.Treap.State.{Treap}

pub data ContentionInfo : Type 0 where
  contended uncontened noinfo : ContentionInfo

pub data NodeType : Type 0 where
  route normal join_main join_neighbor range : NodeType

-- A `node *`: `none` is the null pointer.
abbrev pub Ptr : Type 0
Ptr = Option ℕ

-- A value of `neigh2`: the marks PREPARING, DONE and ABORTED, or a node.
pub data Neighbor : Type 0 where
  preparing done aborted : Neighbor
  joined : ℕ → Neighbor

-- `rs`; a result of `none` is NOT_SET.
pub record ResultStorage : Type 0 where
  pub result : Option (List ℤ)
  pub more_than_one_base : Bool

-- `node`. A treap is never changed once a node holds it, so the node holds its value.
pub record Node : Type 0 where
  pub key : ℤ
  pub left : Ptr
  pub right : Ptr
  pub valid : Bool
  pub join_id : Ptr
  pub treap : Option Treap
  pub stat : ℤ
  pub parent : Ptr
  pub neigh1 : Ptr
  pub neigh2 : Neighbor
  pub gparent : Ptr
  pub otherb : Ptr
  pub main_node : Ptr
  pub lo : ℤ
  pub hi : ℤ
  pub storage : Option ℕ
  pub type : NodeType

-- A node of the pool with its initializers. C++ leaves `type` indeterminate; every use of a new node
-- sets it first.
abbrev pub blank : Node
blank = record {
  key = pos 0;
  left = none;
  right = none;
  valid = true;
  join_id = none;
  treap = none;
  stat = pos 0;
  parent = none;
  neigh1 = none;
  neigh2 = preparing;
  gparent = none;
  otherb = none;
  main_node = none;
  lo = pos 0;
  hi = pos 0;
  storage = none;
  type = normal;
}

abbrev pub blank_storage : ResultStorage
blank_storage = record { result = none; more_than_one_base = false }

-- The shared memory: the root, the pools with the numbers of elements handed out and allocated, and
-- the number of streams of weights drawn.
pub record Memory : Type 0 where
  pub root : Ptr
  pub nodes : ℕ → Node
  pub node_count : ℕ
  pub node_limit : ℕ
  pub storages : ℕ → ResultStorage
  pub storage_count : ℕ
  pub storage_limit : ℕ
  pub treap_count : ℕ
  pub treap_limit : ℕ
  pub draws : ℕ

-- What a thread is about to do: a step changes the memory at once, and what follows depends on the
-- memory that it found.
pub data Program (A : Type 0) : Type 0 where
  ret : A → Program A
  step : (Memory → Memory) → (Memory → Program A) → Program A
  throw : Exception → Program A
  fault : Program A
  out_of_fuel : Program A

infixl 5 ◌>>=◌ ◌>>◌
abbrev pub ◌>>=◌ : {A B : Type 0} → Program A → (A → Program B) → Program B
ret a >>= f = f a
step g k >>= f = step g (λ m. k m >>= f)
throw e >>= f = throw e
fault >>= f = fault
out_of_fuel >>= f = out_of_fuel

abbrev pub ◌>>◌ : {B : Type 0} → Program (Unit {0}) → Program B → Program B
m >> k = m >>= λ _. k

-- A step that only reads.
abbrev pub read : {A : Type 0} → (Memory → A) → Program A
read g = step (λ m. m) (λ m. ret (g m))

-- A step that only writes.
abbrev pub modify : (Memory → Memory) → Program (Unit {0})
modify g = step g (λ m. ret tt)

-- What a run without interference leads to.
pub data Ended (A : Type 0) : Type 0 where
  returns : A → Memory → Ended A
  throws : Exception → Ended A
  faults : Ended A
  exhausted : Ended A

unfoldable pub run : {A : Type 0} → Program A → Memory → Ended A
run (ret a) m = returns a m
run (step g k) m = run (k m) (g m)
run (throw e) m = throws e
run fault m = faults
run out_of_fuel m = exhausted
