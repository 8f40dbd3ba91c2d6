-- ===== src/Mrlock/Destroy.antt =====
-- The destructor of mrlocktree.cpp.
use lock_free_search_tree.Base.{
  ℕ, suc, ◌+◌, ◌≡◌, refl, ap, ◌∙◌, List, [], ◌∷◌, ◌++◌, arith, length, length-append, ok,
}
use mathlib.Core.List.{append_assoc}
use lock_free_search_tree.Mrlock.{Node, base, route, node_count, destroy_loop, destroy}

-- The nodes of the tree, each once: a node, those on its right, those on its left.
pub nodes : Node → List Node
nodes (base t) = base t ∷ []
nodes (route v l r) = route v l r ∷ (nodes r ++ nodes l)

length-nodes : (n : Node) → length (nodes n) ≡ node_count n
unfolding nodes node_count
length-nodes (base t) = refl
length-nodes (route v l r) =
    omega (arith, length-nodes l, length-nodes r, length-append {0} (nodes r) (nodes l))

destroy_node :
    (n : Node) (f g : ℕ) (stack deleted : List Node)
    → f ≡ node_count n + g
    → destroy_loop f (n ∷ stack) deleted ≡ destroy_loop g stack (deleted ++ nodes n)
unfolding nodes node_count destroy_loop
destroy_node (base t) f g stack deleted e = let e' : f ≡ suc g = omega arith in rw e'
destroy_node (route v l r) f g stack deleted e =
    let m = node_count r + (node_count l + g) in
    let e' : f ≡ suc m = omega arith in
    ap (λ z. destroy_loop z (route v l r ∷ stack) deleted) e'
    ∙ destroy_node r m (node_count l + g) (l ∷ stack) (deleted ++ route v l r ∷ []) refl
    ∙ destroy_node l (node_count l + g) g stack ((deleted ++ route v l r ∷ []) ++ nodes r) refl
    ∙ ap (destroy_loop g stack) (simp append_assoc)

-- The destructor ends and deletes the nodes of the tree in the order of `nodes`: each once, and so as
-- many as the tree has.
pub destroy-nodes : (n : Node) → (destroy n ≡ ok (nodes n)) × (length (nodes n) ≡ node_count n)
unfolding destroy destroy_loop
destroy-nodes n = (destroy_node n (suc (node_count n)) 1 [] [] (omega arith), length-nodes n)
