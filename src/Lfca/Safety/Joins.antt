-- ===== src/Lfca/Safety/Joins.antt =====
-- The contention adaptation of lfca.cpp is safe.
use lock_free_search_tree.Base.{
  ℕ, ◌+◌, Bool, true, false, not, none, some, if◌then◌else◌, ltb, ltb_ℤ, ℤ, refl,
}
use lock_free_search_tree.Treap.State.{treap_nodes, same_index, is_null}
use lock_free_search_tree.Treap.Ops.{get_size}
use lock_free_search_tree.Treap.Bulk.{merge, split}
use lock_free_search_tree.Lfca.Memory.{
  noinfo, Ptr, Neighbor, preparing, done, aborted, joined, Node, Program, ◌>>=◌,
}
use lock_free_search_tree.Lfca.Access.{high_cont, low_cont, load, store, put_join_id}
use lock_free_search_tree.Lfca.Find.{Parent, not_found, found}
use lock_free_search_tree.Lfca.Adapt.{
  put_neigh2, abort_join, exchange_child, unlock, lock, joined_to, publish_join, lock_parents,
  replace_both, secure_join, joined_node, splice, is_done, complete_join, join,
  low_contention_adaptation, high_contention_adaptation, adapt_if_needed,
}
use lock_free_search_tree.Lfca.Stats.{zero-InBounds}
use lock_free_search_tree.Lfca.Safety.{Plain, Safe}
use lock_free_search_tree.Lfca.Safety.Rules.{
  Keeps-bind, Safe-bind, Safe-elim, load-Keeps, load-Safe, store-Safe, exchange_left-Safe,
  exchange_right-Safe, exchange_join_id-Safe, exchange_preparing-Safe, exchange_root-Safe,
  new_node-Safe, new_treap-Safe,
}
use lock_free_search_tree.Lfca.Safety.Steps.{
  Safe-if, Safe-ptr, lift-Safe, load_treap-Safe, try_replace-Safe, is_replaceable-Safe,
  new_stat-Safe,
}
use lock_free_search_tree.Lfca.Safety.Search.{
  load_child-Safe, leftmost-Safe, rightmost-Safe, parent_of-Safe,
}

-- A copy of a node, and what is done with it.
pub Safe-copy :
    {A : Type 0} (p : Ptr) (f : Node → Program A)
    → ((n : Node) → Plain n → Safe (f n))
    → Safe (load p (λ n. n) >>= f)
Safe-copy p f h = Keeps-bind Plain (λ _. Unit) _ f (load-Keeps Plain p (λ n. n) (λ n i. i)) h

abort_join-Safe : (m : Ptr) → Safe (abort_join m)
unfolding abort_join
abort_join-Safe m = Safe-bind _ _ (store-Safe m (put_neigh2 aborted) (λ n h. h)) λ _. tt

exchange_child-Safe : (b : Bool) (p expected new : Ptr) → Safe (exchange_child b p expected new)
exchange_child-Safe true p expected new = exchange_left-Safe p expected new
exchange_child-Safe false p expected new = exchange_right-Safe p expected new

unlock-Safe : (p : Ptr) → Safe (unlock p)
unfolding unlock
unlock-Safe none = tt
unlock-Safe (some p) = store-Safe (some p) (put_join_id none) (λ n h. h)

lock-Safe : (g m : Ptr) → Safe (lock g m)
unfolding lock
lock-Safe none m = tt
lock-Safe (some g) m = exchange_join_id-Safe (some g) none m

release-Safe : (p m : Ptr) → Safe (store p (put_join_id none) >>= λ _. abort_join m)
release-Safe p m = Safe-bind _ _ (store-Safe p (put_join_id none) (λ n h. h)) λ _. abort_join-Safe m

module _ (f : ℕ) (weights : ℕ → ℕ → ℤ) where
  publish_join-Safe :
      (left : Bool) (m n1 gparent : Ptr) → Safe (publish_join f weights left m n1 gparent)
  unfolding publish_join
  publish_join-Safe left m n1 gparent = Safe-bind _ _ (load-Safe m (λ n. n.parent)) λ parent.
      Safe-bind _ _ (store-Safe m _ (λ n h. h)) λ _.
        Safe-bind _ _ (load_child-Safe (not left) parent) λ otherb.
          Safe-bind _ _ (store-Safe m _ (λ n h. h)) λ _.
            Safe-bind _ _ (store-Safe m _ (λ n h. h)) λ _.
              Safe-bind _ _ (load-Safe n1 (λ n. n.parent)) λ n1_parent. Safe-copy n1 _ λ copy plain.
                Safe-bind _ _ (new_node-Safe copy plain) λ new_neigh2.
                  Safe-bind _ _ (store-Safe new_neigh2 _ (λ n h. (refl, h.1))) λ _.
                    Safe-bind _ _ (load_treap-Safe m) λ a. Safe-bind _ _ (load_treap-Safe n1) λ b.
                      Safe-bind _ _ new_treap-Safe λ d.
                        Safe-bind _ _
                          (lift-Safe
                            (if left then merge (weights d) a b else merge (weights d) b a))
                          λ merged. Safe-bind _ _ (store-Safe new_neigh2 _ (λ n h. h)) λ _.
                            Safe-bind _ _ (exchange_preparing-Safe m (joined_to new_neigh2))
                              λ published.
                                Safe-elim published _ _ tt
                                  (Safe-bind _ _ (unlock-Safe gparent) λ _. release-Safe parent m)

  Safe-parent :
      {A : Type 0} (g : Parent) (a : Program A) (k : Ptr → Program A)
      → Safe a
      → ((p : Ptr) → Safe (k p))
      → Safe (elim g [ not_found ↦ a | found p ↦ k p ])
  Safe-parent not_found a k h i = h
  Safe-parent (found p) a k h i = i p

  lock_parents-Safe : (left : Bool) (m n1 : Ptr) → Safe (lock_parents f weights left m n1)
  unfolding lock_parents
  lock_parents-Safe left m n1 = Safe-bind _ _ (load-Safe m (λ n. n.parent)) λ parent.
      Safe-bind _ _ (exchange_join_id-Safe parent none m) λ locked.
        Safe-elim locked _ _
          (Safe-bind _ _ (parent_of-Safe f parent) λ g.
            Safe-parent g _ _ (release-Safe parent m) λ gparent.
              Safe-bind _ _ (lock-Safe gparent m) λ both.
                Safe-elim both _ _ (publish_join-Safe left m n1 gparent) (release-Safe parent m))
          (abort_join-Safe m)

  replace_both-Safe : (left : Bool) (b n0 : Ptr) → Safe (replace_both f weights left b n0)
  unfolding replace_both
  replace_both-Safe left b n0 = Safe-copy b _ λ copy plain.
      Safe-bind _ _ (new_node-Safe copy plain) λ m.
        Safe-bind _ _ (store-Safe m _ (λ n h. (refl, h.1))) λ _.
          Safe-bind _ _ (load-Safe b (λ n. n.parent)) λ parent.
            Safe-bind _ _ (exchange_child-Safe left parent b m) λ replaced.
              Safe-elim replaced _ _
                (Safe-copy n0 _ λ copy plain. Safe-bind _ _ (new_node-Safe copy plain) λ n1.
                  Safe-bind _ _ (store-Safe n1 _ (λ n h. (refl, h.1))) λ _.
                    Safe-bind _ _ (try_replace-Safe n0 n1) λ replaced.
                      Safe-elim replaced _ _ (lock_parents-Safe left m n1) (abort_join-Safe m))
                tt

  secure_join-Safe : (b : Ptr) (left : Bool) → Safe (secure_join f weights b left)
  unfolding secure_join
  secure_join-Safe b left = Safe-bind _ _ (load-Safe b (λ n. n.parent)) λ parent.
      Safe-bind _ _ (load_child-Safe (not left) parent) λ sibling.
        Safe-bind _ _ (Safe-if left _ _ (leftmost-Safe f sibling) (rightmost-Safe f sibling)) λ n0.
          Safe-bind _ _ (is_replaceable-Safe n0) λ replaceable.
            Safe-elim replaceable _ _
              (Safe-bind _ _ (load_treap-Safe b) λ x. Safe-bind _ _ (load_treap-Safe n0) λ y.
                Safe-elim (ltb treap_nodes (get_size x + get_size y)) _ _ tt
                  (replace_both-Safe left b n0))
              tt

joined_node-Safe : (n : Neighbor) → Safe (joined_node n)
joined_node-Safe preparing = tt
joined_node-Safe done = tt
joined_node-Safe aborted = tt
joined_node-Safe (joined p) = tt

splice-Safe : (m replacement : Ptr) → Safe (splice m replacement)
unfolding splice
splice-Safe m replacement = Safe-bind _ _ (load-Safe m (λ n. n.parent)) λ parent.
    Safe-bind _ _ (load-Safe m (λ n. n.gparent)) λ gparent.
      Safe-elim (is_null gparent) _ _
        (Safe-bind _ _ (exchange_root-Safe parent replacement) λ _. tt)
        (Safe-bind _ _ (load_child-Safe true gparent) λ l.
          Safe-elim (same_index l parent) _ _
            (Safe-bind _ _ (exchange_child-Safe true gparent parent replacement)
              λ _. Safe-bind _ _ (exchange_join_id-Safe gparent m none) λ _. tt)
            (Safe-bind _ _ (load_child-Safe false gparent) λ r.
              Safe-elim (same_index r parent) _ _
                (Safe-bind _ _ (exchange_child-Safe false gparent parent replacement)
                  λ _. Safe-bind _ _ (exchange_join_id-Safe gparent m none) λ _. tt)
                tt))

pub complete_join-Safe : (m : Ptr) → Safe (complete_join m)
unfolding complete_join
complete_join-Safe m = Safe-bind _ _ (load-Safe m (λ n. n.neigh2)) λ neigh2.
    Safe-elim (is_done neigh2) _ _ tt (
      Safe-bind _ _ (joined_node-Safe neigh2) λ n2.
        Safe-bind _ _ (load-Safe m (λ n. n.neigh1)) λ neigh1.
          Safe-bind _ _ (try_replace-Safe neigh1 n2) λ _.
            Safe-bind _ _ (load-Safe m (λ n. n.parent)) λ parent.
              Safe-bind _ _ (store-Safe parent _ (λ n h. h)) λ _.
                Safe-bind _ _ (load-Safe m (λ n. n.otherb)) λ otherb.
                  Safe-bind _ _ (splice-Safe m (if same_index otherb neigh1 then n2 else otherb))
                    λ _. store-Safe m (put_neigh2 done) (λ n h. h))

module _ (f : ℕ) (weights : ℕ → ℕ → ℤ) where
  join-Safe : (b : Ptr) (left : Bool) → Safe (join f weights b left)
  unfolding join
  join-Safe b left =
      Safe-bind _ _ (secure_join-Safe f weights b left)
        λ m. Safe-ptr m _ _ tt λ p. complete_join-Safe (some p)

  low_contention_adaptation-Safe : (b : Ptr) → Safe (low_contention_adaptation f weights b)
  unfolding low_contention_adaptation
  low_contention_adaptation-Safe b = Safe-bind _ _ (load-Safe b (λ n. n.parent)) λ parent.
      Safe-ptr parent _ _ tt λ p. Safe-bind _ _ (load_child-Safe true (some p)) λ l.
        Safe-elim (same_index l b) _ _ (join-Safe b true) (
          Safe-bind _ _ (load_child-Safe false (some p))
            λ r. Safe-elim (same_index r b) _ _ (join-Safe b false) tt)

  pub high_contention_adaptation-Safe : (b : Ptr) → Safe (high_contention_adaptation f weights b)
  unfolding high_contention_adaptation
  high_contention_adaptation-Safe b = Safe-bind _ _ (load_treap-Safe b) λ t.
      Safe-elim (ltb (get_size t) 2) _ _ tt (
        Safe-bind _ _ (new_node-Safe _ (refl, zero-InBounds)) λ r. Safe-bind _ _ new_treap-Safe λ d.
          Safe-bind _ _ new_treap-Safe λ e.
            Safe-bind _ _ (lift-Safe (split (weights d) (weights e) t))
              λ (split_val, left_treap, right_treap).
                Safe-bind _ _ (new_node-Safe _ (refl, zero-InBounds)) λ left_node.
                  Safe-bind _ _ (new_node-Safe _ (refl, zero-InBounds)) λ right_node.
                    Safe-bind _ _ (store-Safe r _ (λ n h. h))
                      λ _. Safe-bind _ _ (try_replace-Safe b r) λ _. tt)

  pub adapt_if_needed-Safe : (b : Ptr) → Safe (adapt_if_needed f weights b)
  unfolding adapt_if_needed
  adapt_if_needed-Safe b = Safe-bind _ _ (is_replaceable-Safe b) λ replaceable.
      Safe-elim replaceable _ _
        (Safe-bind _ _ (new_stat-Safe b noinfo) λ stat.
          Safe-elim (ltb_ℤ high_cont stat) _ _ (high_contention_adaptation-Safe b) (
            Safe-bind _ _ (new_stat-Safe b noinfo)
              λ stat. Safe-elim (ltb_ℤ stat low_cont) _ _ (low_contention_adaptation-Safe b) tt))
        tt
