-- ===== src/Lfca/Safety.antt =====
-- What the steps of every thread on the shared memory of lfca.cpp respect, whatever other threads do
-- between them.
pub mod Rules
pub mod Steps
pub mod Search
pub mod Joins
pub mod Queries
pub mod Updates
use lock_free_search_tree.Base.{ℕ, ◌≤◌, ◌<◌, ◌≡◌, Bool, true, false, Option, some, List, ℤ}
use lock_free_search_tree.Lfca.Memory.{Node, Memory, Program, ret, step, throw, fault, out_of_fuel}
use lock_free_search_tree.Lfca.Access.{is_range}
use lock_free_search_tree.Lfca.Stats.{InBounds}

-- A node that is no range base, and whose statistics are in their bounds.
abbrev pub Plain : Node → Type 0
Plain n = (is_range n.type ≡ false) × InBounds n.stat

-- Every node of the memory is plain.
abbrev pub AllPlain : Memory → Type 0
AllPlain m = (p : ℕ) → Plain (m.nodes p)

-- The memory `n` can come after `m`: the counters, which do not wrap around here, have not gone back, the
-- limits are the same, and a result that was set in a result set that was handed out is still there.
pub record Follows (m n : Memory) : Type 0 where
  pub node_count : m.node_count ≤ n.node_count
  pub storage_count : m.storage_count ≤ n.storage_count
  pub treap_count : m.treap_count ≤ n.treap_count
  pub node_limit : n.node_limit ≡ m.node_limit
  pub storage_limit : n.storage_limit ≡ m.storage_limit
  pub treap_limit : n.treap_limit ≡ m.treap_limit
  pub result :
      (s : ℕ) (r : List ℤ)
      → s < m.storage_count
      → (m.storages s).result ≡ some r
      → (n.storages s).result ≡ some r

-- Every step of the program, in a memory of plain nodes, leads to one of plain nodes that follows
-- it; and what the program returns satisfies `Q`.
abbrev pub Keeps : {A : Type 0} → (A → Type 0) → Program A → Type 0
Keeps Q (ret a) = Q a
Keeps Q (step g k) = (m : Memory) → AllPlain m → AllPlain (g m) × Follows m (g m) × Keeps Q (k m)
Keeps Q (throw e) = Unit
Keeps Q fault = Unit
Keeps Q out_of_fuel = Unit

abbrev pub Safe : {A : Type 0} → Program A → Type 0
Safe p = Keeps (λ _. Unit) p
