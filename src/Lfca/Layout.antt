-- ===== src/Lfca/Layout.antt =====
-- The tree that the shared memory of lfca.cpp stands for, and runs of one thread alone.
use lock_free_search_tree.Base.{
  ℕ, suc, Bool, ◌≡◌, true, false, some, List, ◌++◌, ℤ, ◌≤ℤ◌, ◌<ℤ◌, All,
}
use Prim.Native.Nat.{max}
use lock_free_search_tree.Treap.State.{Treap}
use lock_free_search_tree.Treap.Model.{Represents}
use lock_free_search_tree.Lfca.Memory.{
  Ptr, Node, Memory, Program, ret, step, throw, fault, out_of_fuel, ◌>>=◌, returns, run,
}
use lock_free_search_tree.Lfca.Access.{is_route}

-- The nodes of a tree, by their indices.
pub data Layout : Type 0 where
  base : ℕ → Layout
  route : ℕ → Layout → Layout → Layout

abbrev pub height : Layout → ℕ
height (base i) = 1
height (route i l r) = suc (max (height l) (height r))

-- The pointer of a node to its left or its right.
abbrev pub child_of : Bool → Node → Ptr
child_of true n = n.left
child_of false n = n.right

-- The memory has the tree behind the pointer, and its treaps hold the values `vs`: those on the left
-- of a route node are not larger than its key, and those on its right are larger.
abbrev pub Lays : Memory → Ptr → Layout → List ℤ → Type 0
Lays m p (base i) vs =
    (p ≡ some i)
    × (is_route (m.nodes i).type ≡ false)
    × ((t : Treap) × ((m.nodes i).treap ≡ some t) × Represents t vs)
Lays m p (route i l r) vs =
    (p ≡ some i)
    × (is_route (m.nodes i).type ≡ true)
    × ((xs ys : List ℤ) × (vs ≡ xs ++ ys)
        × Lays m (m.nodes i).left l xs
        × Lays m (m.nodes i).right r ys
        × All (λ x. x ≤ℤ (m.nodes i).key) xs
        × All (λ y. (m.nodes i).key <ℤ y) ys)

-- A run goes on where its first part ended.
pub run-bind :
    {A B : Type 0} (p : Program A) (f : A → Program B) (m k : Memory) (a : A)
    → run p m ≡ returns a k
    → run (p >>= f) m ≡ run (f a) k
unfolding run
run-bind (ret b) f m k a e = let e₁ : b ≡ a = cc in let e₂ : m ≡ k = cc in rw (e₁, e₂)
run-bind (step g h) f m k a e = run-bind (h m) f (g m) k a e
run-bind (throw x) f m k a e = absurd (cc)
run-bind fault f m k a e = absurd (cc)
run-bind out_of_fuel f m k a e = absurd (cc)
