-- ===== src/Treap/Sifting.antt =====
-- `moveUp` and `moveDown` of treap.cpp as they are called: their loops end on every tree.
use lock_free_search_tree.Base.{ℕ, arith, some}
use lock_free_search_tree.Treap.State.{Treap}
use lock_free_search_tree.Treap.Moves.{rounds, move_up, move_down}
use lock_free_search_tree.Treap.Shape.{Tree, node, Ctx}
use lock_free_search_tree.Treap.Focus.{Focus}
use lock_free_search_tree.Treap.MoveUp.{Raised, move_up_loop_lem}
use lock_free_search_tree.Treap.MoveDown.{Sinks, move_down_loop_lem}
use lock_free_search_tree.Treap.Place.{Focus-depth}

-- On a node of a well-formed treap, `moveUp` ends and returns a well-formed treap with the same
-- indices and values from left to right, in which the node is at the root or not lighter than its
-- parent.
pub move_up_lem :
    (t : Treap) (c : Ctx) (l : Tree) (i : ℕ) (r : Tree)
    → Focus t c (node l i r)
    → Raised t c (node l i r) i (move_up (some i) t)
unfolding move_up
move_up_lem t c l i r h =
    let (u, run, m, settled, _) =
      move_up_loop_lem rounds t c l i r h (omega (arith, Focus-depth h)) in
    (u, run, m, settled)

-- On a node of a well-formed treap, `moveDown` ends and returns a well-formed treap with the same
-- indices and values from left to right, in which the node has no child.
pub move_down_lem :
    (t : Treap) (c : Ctx) (l : Tree) (i : ℕ) (r : Tree)
    → Focus t c (node l i r)
    → Sinks t c (node l i r) i (move_down (some i) t)
unfolding move_down
move_down_lem t c l i r h =
    let (u, run, sunk, _) = move_down_loop_lem rounds t c l i r h (omega (arith, Focus-depth h)) in
    (u, run, sunk)
