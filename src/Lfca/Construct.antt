-- ===== src/Lfca/Construct.antt =====
-- The constructor of lfca.cpp, run by one thread alone.
use lock_free_search_tree.Base.{inl, ℕ, ◌+◌, ◌<◌, ◌≤◌, ◌≡◌, refl, ◌∙◌, some, [], arith}
use lock_free_search_tree.Treap.State.{new}
use lock_free_search_tree.Treap.Shape.{one}
use lock_free_search_tree.Treap.Wiring.{eq_self}
use lock_free_search_tree.Treap.Model.{new-Represents}
use lock_free_search_tree.Lfca.Memory.{normal, Node, blank, Memory, Ended, returns, run}
use lock_free_search_tree.Lfca.Access.{set_node}
use lock_free_search_tree.Lfca.Update.{construct}
use lock_free_search_tree.Lfca.Layout.{base}
use lock_free_search_tree.Lfca.Alone.{
  with_new, with_treap, with_root, then_new_node, then_new_treap, then_store,
}
use lock_free_search_tree.Lfca.Calm.{Ready, lt_true}

abbrev root_node : Node
root_node = record blank { type = normal }

module _ (m : Memory) where
  -- The memory before the root is stored.
  abbrev filled : Memory
  filled =
      let m₂ = with_treap (with_new root_node m) in
      set_node m.node_count (record (m₂.nodes m.node_count) { treap = some new }) m₂

  abbrev pub constructed : Memory
  constructed = with_root (some m.node_count) filled

  at_root : constructed.nodes m.node_count ≡ record root_node { treap = some new }
  at_root = rw (eq_self m.node_count)

  below_next : (a k : ℕ) → 0 < one a k → a < k + 1
  below_next a k h = ground arith

  one_le : (a k : ℕ) → one a k ≤ 1
  one_le a k = ground arith

  construct_run :
      m.node_count < m.node_limit
      → m.treap_count < m.treap_limit
      → run construct m ≡ returns tt constructed
  unfolding construct run
  construct_run nodes treaps =
      then_new_node root_node _ m (lt_true m.node_count m.node_limit nodes)
      ∙ then_new_treap _ (with_new root_node m) (lt_true m.treap_count m.treap_limit treaps)
      ∙ then_store m.node_count _ _ (with_treap (with_new root_node m))

  constructed-Ready :
      m.node_count + 1 < m.node_limit
      → m.treap_count + 1 < m.treap_limit
      → Ready constructed (base m.node_count) []
  constructed-Ready nodes treaps = record {
    tree = record {
      lays = (refl, rw at_root, (new, rw at_root, new-Represents));
      parents = rw at_root;
      distinct = λ a. one_le a m.node_count;
      used = λ a h. below_next a m.node_count h;
    };
    calm = (
      inl (rw at_root),
      rw at_root (omega arith),
      rw at_root (omega arith),
      (new, rw at_root, omega arith),
    );
    node_room = nodes;
    treap_room = treaps;
  }

-- Where the constructor leads: to a tree without values that is ready for an update.
abbrev pub Constructs : Memory → Ended (Unit {0}) → Type 0
Constructs m run = (n : Memory) × (run ≡ returns tt n) × Ready n (base m.node_count) []

-- With room in the pools for two nodes and two treaps, the constructor, run alone, returns, and the
-- memory then holds a tree of one base node without values, which is ready for an update.
pub construct-Ready :
    (m : Memory)
    → m.node_count + 1 < m.node_limit
    → m.treap_count + 1 < m.treap_limit
    → Constructs m (run construct m)
construct-Ready m nodes treaps =
    (constructed m, construct_run m (omega arith) (omega arith), constructed-Ready m nodes treaps)
