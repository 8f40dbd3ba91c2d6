-- ===== src/Lfca/Safety/Queries.antt =====
-- The range queries of lfca.cpp and the help to other threads are safe.
use lock_free_search_tree.Base.{
  ℕ, zero, suc, ◌==◌, ◌&&◌, Option, none, some, List, [], ◌∷◌, ◌++◌, ℤ, leb_ℤ,
}
use lock_free_search_tree.Treap.State.{same_index, is_null}
use lock_free_search_tree.Treap.Ops.{get_size, get_max_value, range_query}
use lock_free_search_tree.Lfca.Memory.{aborted, Ptr, Program}
use lock_free_search_tree.Lfca.Access.{is_range, is_set, is_preparing}
use lock_free_search_tree.Lfca.Range.{
  new_range_base, is_join_main, is_join_neighbor, is_joined, collect_results, more_than_one, finish,
  is_last, help_if_needed, all_in_range, gather, find_next,
}
use lock_free_search_tree.Lfca.Safety.{Safe}
use lock_free_search_tree.Lfca.Safety.Rules.{
  Safe-bind, Safe-elim, load-Safe, store-Safe, exchange_preparing-Safe, new_node-Safe,
  new_storage-Safe, load_root-Safe,
}
use lock_free_search_tree.Lfca.Safety.Steps.{
  Safe-if, Safe-ptr, lift-Safe, load_treap-Safe, load_result-Safe, the_result-Safe,
  exchange_result-Safe, set_more_than_one-Safe, try_replace-Safe, is_replaceable-Safe,
}
use lock_free_search_tree.Lfca.Safety.Search.{
  find_base_stack-Safe, replace_top-Safe, find_next_base_stack-Safe,
}
use lock_free_search_tree.Lfca.Safety.Joins.{Safe-copy, complete_join-Safe}

new_range_base-Safe : (b : Ptr) (lo hi : ℤ) (s : ℕ) → Safe (new_range_base b lo hi s)
unfolding new_range_base
new_range_base-Safe b lo hi s = Safe-copy b _ λ copy plain.
    Safe-bind _ _ (new_node-Safe copy plain)
      λ new_base. Safe-bind _ _ (store-Safe new_base _ (λ n h. h)) λ _. tt

collect_results-Safe : (lo hi : ℤ) (bases : List Ptr) → Safe (collect_results lo hi bases)
unfolding collect_results
collect_results-Safe lo hi [] = tt
collect_results-Safe lo hi (b ∷ bs) = Safe-bind _ _ (load_treap-Safe b) λ t.
    Safe-bind _ _ (lift-Safe (range_query lo hi t))
      λ r. Safe-bind _ _ (collect_results-Safe lo hi bs) λ rs. tt

finish-Safe : (lo hi : ℤ) (my_s : ℕ) (bases : List Ptr) → Safe (finish lo hi my_s bases)
unfolding finish
finish-Safe lo hi my_s bases = Safe-bind _ _ (collect_results-Safe lo hi bases) λ res.
    Safe-bind _ _ (exchange_result-Safe my_s res) λ exchanged.
      Safe-bind _ _
        (Safe-if (exchanged && more_than_one bases) _ _ (set_more_than_one-Safe my_s) tt)
        λ _. Safe-bind _ _ (load_result-Safe (some my_s)) λ r. the_result-Safe r

is_last-Safe : (hi : ℤ) (b : Ptr) → Safe (is_last hi b)
unfolding is_last
is_last-Safe hi b =
    Safe-bind _ _ (load_treap-Safe b)
      λ t. Safe-if (get_size t == 0) _ _ tt (Safe-bind _ _ (lift-Safe (get_max_value t)) λ m. tt)

pub help_if_needed-Safe :
    (all : ℤ → ℤ → ℕ → Program (List ℤ)) (n : Ptr)
    → ((lo hi : ℤ) (s : ℕ) → Safe (all lo hi s))
    → Safe (help_if_needed all n)
unfolding help_if_needed
help_if_needed-Safe all n h = Safe-bind _ _ (load-Safe n (λ n. n.type)) λ type.
    Safe-bind _ _ (Safe-if (is_join_neighbor type) _ _ (load-Safe n (λ n. n.main_node)) tt) λ n.
      Safe-bind _ _ (load-Safe n (λ n. n.type)) λ type.
        Safe-elim (is_join_main type) _ _
          (Safe-bind _ _ (load-Safe n (λ n. n.neigh2)) λ neigh2.
            Safe-elim (is_preparing neigh2) _ _
              (Safe-bind _ _ (exchange_preparing-Safe n aborted) λ _. tt)
              (Safe-bind _ _ (load-Safe n (λ n. n.neigh2))
                λ neigh2. Safe-if (is_joined neigh2) _ _ (complete_join-Safe n) tt))
          (Safe-elim (is_range type) _ _
            (Safe-bind _ _ (load-Safe n (λ n. (n.lo, n.hi, n.storage))) λ (lo, hi, storage).
              Safe-bind _ _ (load_result-Safe storage) λ r.
                Safe-elim (is_set r) _ _ tt
                  (Safe-ptr storage _ _ tt λ s. Safe-bind _ _ (h lo hi s) λ _. tt))
            tt)

module _ (f : ℕ) where
  mutual
    unfolding all_in_range

    pub all_in_range-Safe :
        (g : ℕ) (lo hi : ℤ) (help_s : Option ℕ) → Safe (all_in_range f g lo hi help_s)
    all_in_range-Safe zero lo hi help_s = tt
    all_in_range-Safe (suc g) lo hi (some s) = Safe-bind _ _ load_root-Safe λ root.
        Safe-bind _ _ (find_base_stack-Safe f root lo) λ (b, stack).
          Safe-bind _ _ (load-Safe b (λ n. (n.type, n.storage))) λ (type, storage).
            Safe-elim (is_range type && same_index storage (some s)) _ _
              (gather-Safe g lo hi s b stack [])
              (Safe-bind _ _ (load_result-Safe (some s)) λ r. the_result-Safe r)
    all_in_range-Safe (suc g) lo hi none = Safe-bind _ _ load_root-Safe λ root.
        Safe-bind _ _ (find_base_stack-Safe f root lo) λ (b, stack).
          Safe-bind _ _ (is_replaceable-Safe b) λ replaceable.
            Safe-elim replaceable _ _
              (Safe-bind _ _ new_storage-Safe λ my_s.
                Safe-bind _ _ (new_range_base-Safe b lo hi my_s) λ n.
                  Safe-bind _ _ (try_replace-Safe b n) λ replaced.
                    Safe-elim replaced _ _
                      (Safe-bind _ _ (replace_top-Safe stack n)
                        λ stack. gather-Safe g lo hi my_s b stack [])
                      (all_in_range-Safe g lo hi none))
              (Safe-bind _ _ (load-Safe b (λ n. (n.type, n.lo, n.hi, n.storage)))
                λ (type, b_lo, b_hi, storage).
                  Safe-elim (is_range type && leb_ℤ hi b_hi) _ _
                    (all_in_range-Safe g b_lo b_hi storage)
                    (Safe-bind _ _
                      (help_if_needed-Safe _ b (λ lo hi s. all_in_range-Safe g lo hi (some s)))
                      λ _. all_in_range-Safe g lo hi none))

    gather-Safe :
        (g : ℕ) (lo hi : ℤ) (my_s : ℕ) (b : Ptr) (stack bases : List Ptr)
        → Safe (gather f g lo hi my_s b stack bases)
    gather-Safe zero lo hi my_s b stack bases = tt
    gather-Safe (suc g) lo hi my_s b stack bases = Safe-bind _ _ (is_last-Safe hi b) λ last.
        Safe-elim last _ _ (finish-Safe lo hi my_s (bases ++ b ∷ []))
          (find_next-Safe g lo hi my_s stack stack (bases ++ b ∷ []))

    find_next-Safe :
        (g : ℕ) (lo hi : ℤ) (my_s : ℕ) (stack backup bases : List Ptr)
        → Safe (find_next f g lo hi my_s stack backup bases)
    find_next-Safe zero lo hi my_s stack backup bases = tt
    find_next-Safe (suc g) lo hi my_s stack backup bases =
        Safe-bind _ _ (find_next_base_stack-Safe f stack) λ (b, stack).
          Safe-elim (is_null b) _ _ (finish-Safe lo hi my_s bases) (
            Safe-bind _ _ (load_result-Safe (some my_s)) λ r.
              Safe-elim (is_set r) _ _
                (Safe-bind _ _ (load_result-Safe (some my_s)) λ r. the_result-Safe r)
                (Safe-bind _ _ (load-Safe b (λ n. (n.type, n.storage))) λ (type, storage).
                  Safe-elim (is_range type && same_index storage (some my_s)) _ _
                    (gather-Safe g lo hi my_s b stack bases)
                    (Safe-bind _ _ (is_replaceable-Safe b) λ replaceable.
                      Safe-elim replaceable _ _
                        (Safe-bind _ _ (new_range_base-Safe b lo hi my_s) λ n.
                          Safe-bind _ _ (try_replace-Safe b n) λ replaced.
                            Safe-elim replaced _ _
                              (Safe-bind _ _ (replace_top-Safe stack n)
                                λ stack. gather-Safe g lo hi my_s b stack bases)
                              (find_next-Safe g lo hi my_s backup backup bases))
                        (Safe-bind _ _
                          (help_if_needed-Safe _ b (λ lo hi s. all_in_range-Safe g lo hi (some s)))
                          λ _. find_next-Safe g lo hi my_s backup backup bases))))
