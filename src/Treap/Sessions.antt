-- ===== src/Treap/Sessions.antt =====
-- The order of the weights and sequences of calls of treap.cpp, at small treaps.
use lock_free_search_tree.Base.{List, [], ◌∷◌, arith, ℤ, pos, negsuc}
use lock_free_search_tree.Base.Sorted.{insert_sorted}
use lock_free_search_tree.Treap.State.{new}
use lock_free_search_tree.Treap.Ops.{insert, remove}
use lock_free_search_tree.Treap.Model.{new-IsHeaped}
use lock_free_search_tree.Treap.HeapOrder.{GivesHeap, RemovesHeap, insert-IsHeaped, remove-IsHeaped}
use lock_free_search_tree.Treap.Session.{Call, perform, answer, play, Agrees, session-Agrees}

-- 5 with the weight 9.
abbrev one : GivesHeap (insert_sorted (pos 5) []) (insert (pos 5) (pos 9) new)
one = insert-IsHeaped (pos 5) (pos 9) new [] new-IsHeaped (omega arith)

abbrev values : List ℤ
values = insert_sorted (negsuc 2) (insert_sorted (pos 5) [])

-- -3 with the weight 4 rises above it.
abbrev two : GivesHeap values (insert (negsuc 2) (pos 4) one.0)
unfolding insert_sorted
two = insert-IsHeaped (negsuc 2) (pos 4) one.0 (insert_sorted (pos 5) []) one.2 (omega arith)

insert-IsHeaped_example : GivesHeap values (insert (negsuc 2) (pos 4) one.0)
unfolding insert_sorted
insert-IsHeaped_example =
    insert-IsHeaped (negsuc 2) (pos 4) one.0 (insert_sorted (pos 5) []) one.2 (omega arith)

remove-IsHeaped_example : RemovesHeap (negsuc 2) values (remove (negsuc 2) two.0)
remove-IsHeaped_example = remove-IsHeaped (negsuc 2) two.0 values two.2

abbrev calls : List Call
calls =
    Call.insert (pos 5) (pos 9)
    ∷ Call.insert (negsuc 2) (pos 4)
    ∷ Call.contains (pos 5)
    ∷ Call.remove (pos 5)
    ∷ Call.remove (pos 5)
    ∷ []

session-Agrees_example : Agrees (play perform calls new) (play answer calls [])
session-Agrees_example = session-Agrees calls
