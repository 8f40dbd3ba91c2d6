-- ===== src/Lfca/Safety/Search.antt =====
-- The searches of lfca.cpp are safe.
use lock_free_search_tree.Base.{
  ℕ, zero, suc, Bool, true, false, ◌&&◌, not, none, some, List, [], ◌∷◌, ℤ, ltb_ℤ, leb_ℤ,
}
use lock_free_search_tree.Treap.State.{same_index}
use lock_free_search_tree.Lfca.Memory.{Ptr}
use lock_free_search_tree.Lfca.Access.{is_route}
use lock_free_search_tree.Lfca.Find.{
  load_child, leftmost, rightmost, find_base_node, find_base_stack_loop, find_base_stack,
  leftmost_and_stack, replace_top, climb, find_next_base_stack, parent_loop, parent_of,
}
use lock_free_search_tree.Lfca.Safety.{Safe}
use lock_free_search_tree.Lfca.Safety.Rules.{Safe-bind, Safe-elim, load-Safe, load_root-Safe}
use lock_free_search_tree.Lfca.Safety.Steps.{Safe-ptr}

pub load_child-Safe : (b : Bool) (n : Ptr) → Safe (load_child b n)
load_child-Safe true n = load-Safe n (λ n. n.left)
load_child-Safe false n = load-Safe n (λ n. n.right)

pub leftmost-Safe : (f : ℕ) (n : Ptr) → Safe (leftmost f n)
unfolding leftmost
leftmost-Safe zero n = tt
leftmost-Safe (suc f) n =
    Safe-bind _ _ (load-Safe n (λ n. n.left)) λ l. Safe-ptr l _ _ tt λ q. leftmost-Safe f (some q)

pub rightmost-Safe : (f : ℕ) (n : Ptr) → Safe (rightmost f n)
unfolding rightmost
rightmost-Safe zero n = tt
rightmost-Safe (suc f) n =
    Safe-bind _ _ (load-Safe n (λ n. n.right)) λ r. Safe-ptr r _ _ tt λ q. rightmost-Safe f (some q)

pub find_base_node-Safe : (f : ℕ) (n : Ptr) (i : ℤ) → Safe (find_base_node f n i)
unfolding find_base_node
find_base_node-Safe zero n i = tt
find_base_node-Safe (suc f) n i = Safe-bind _ _ (load-Safe n (λ n. (n.type, n.key))) λ (type, key).
    Safe-elim (is_route type) _ _
      (Safe-bind _ _ (load_child-Safe (leb_ℤ i key) n) λ l. find_base_node-Safe f l i) tt

find_base_stack_loop-Safe :
    (f : ℕ) (n : Ptr) (i : ℤ) (s : List Ptr) → Safe (find_base_stack_loop f n i s)
unfolding find_base_stack_loop
find_base_stack_loop-Safe zero n i s = tt
find_base_stack_loop-Safe (suc f) n i s =
    Safe-bind _ _ (load-Safe n (λ n. (n.type, n.key))) λ (type, key).
      Safe-elim (is_route type) _ _
        (Safe-bind _ _ (load_child-Safe (ltb_ℤ i key) n)
          λ l. find_base_stack_loop-Safe f l i (n ∷ s))
        tt

pub find_base_stack-Safe : (f : ℕ) (n : Ptr) (i : ℤ) → Safe (find_base_stack f n i)
unfolding find_base_stack
find_base_stack-Safe f n i = find_base_stack_loop-Safe f n i []

leftmost_and_stack-Safe : (f : ℕ) (n : Ptr) (s : List Ptr) → Safe (leftmost_and_stack f n s)
unfolding leftmost_and_stack
leftmost_and_stack-Safe zero n s = tt
leftmost_and_stack-Safe (suc f) n s = Safe-bind _ _ (load-Safe n (λ n. n.type)) λ type.
    Safe-elim (is_route type) _ _
      (Safe-bind _ _ (load_child-Safe true n) λ l. leftmost_and_stack-Safe f l (n ∷ s)) tt

pub replace_top-Safe : (s : List Ptr) (n : Ptr) → Safe (replace_top s n)
unfolding replace_top
replace_top-Safe [] n = tt
replace_top-Safe (_ ∷ s) n = tt

climb-Safe : (f : ℕ) (limit : ℤ) (t : Ptr) (s : List Ptr) → Safe (climb f limit t s)
unfolding climb
climb-Safe f limit t [] = Safe-bind _ _ (load-Safe t (λ n. n.valid)) λ valid.
    Safe-bind _ _ (load-Safe t (λ n. n.key)) λ key.
      Safe-elim (valid && ltb_ℤ limit key) _ _
        (Safe-bind _ _ (load_child-Safe false t) λ r. leftmost_and_stack-Safe f r (t ∷ [])) tt
climb-Safe f limit t (u ∷ s) = Safe-bind _ _ (load-Safe t (λ n. n.valid)) λ valid.
    Safe-bind _ _ (load-Safe t (λ n. n.key)) λ key.
      Safe-elim (valid && ltb_ℤ limit key) _ _
        (Safe-bind _ _ (load_child-Safe false t) λ r. leftmost_and_stack-Safe f r (t ∷ u ∷ s))
        (climb-Safe f limit u s)

pub find_next_base_stack-Safe : (f : ℕ) (s : List Ptr) → Safe (find_next_base_stack f s)
unfolding find_next_base_stack
find_next_base_stack-Safe f [] = tt
find_next_base_stack-Safe f (base ∷ []) = tt
find_next_base_stack-Safe f (base ∷ t ∷ s) = Safe-bind _ _ (load-Safe t (λ n. n.left)) λ l.
    Safe-elim (same_index l base) _ _
      (Safe-bind _ _ (load_child-Safe false t) λ r. leftmost_and_stack-Safe f r (t ∷ s))
      (Safe-bind _ _ (load-Safe t (λ n. n.key)) λ limit. climb-Safe f limit t s)

parent_loop-Safe : (f : ℕ) (key : ℤ) (n prev curr : Ptr) → Safe (parent_loop f key n prev curr)
unfolding parent_loop
parent_loop-Safe zero key n prev curr = tt
parent_loop-Safe (suc f) key n prev curr =
    Safe-bind _ _ (load-Safe curr (λ n. (n.type, n.key))) λ (type, curr_key).
      Safe-elim (not (same_index curr n) && is_route type) _ _
        (Safe-bind _ _ (load_child-Safe (ltb_ℤ key curr_key) curr)
          λ next. parent_loop-Safe f key n curr next)
        tt

pub parent_of-Safe : (f : ℕ) (n : Ptr) → Safe (parent_of f n)
unfolding parent_of
parent_of-Safe f n =
    Safe-bind _ _ load_root-Safe
      λ curr. Safe-bind _ _ (load-Safe n (λ n. n.key)) λ key. parent_loop-Safe f key n none curr
