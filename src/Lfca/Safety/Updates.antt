-- ===== src/Lfca/Safety/Updates.antt =====
-- The public operations of lfca.cpp are safe.
use lock_free_search_tree.Base.{ℕ, zero, suc, Bool, Option, none, some, leb, ℤ, refl}
use lock_free_search_tree.Treap.State.{treap_nodes}
use lock_free_search_tree.Treap.Ops.{get_size, contains}
use lock_free_search_tree.Lfca.Memory.{ContentionInfo, contended, uncontened, Program}
use lock_free_search_tree.Lfca.Update.{
  Updater, treap_insert, treap_remove, update_loop, do_update, insert, remove, lookup, range_query,
}
use lock_free_search_tree.Lfca.Stats.{InBounds, zero-InBounds}
use lock_free_search_tree.Lfca.Safety.{Safe}
use lock_free_search_tree.Lfca.Safety.Rules.{
  Keeps-bind, Safe-bind, Safe-elim, load-Safe, store-Safe, new_node-Safe, new_treap-Safe,
  load_root-Safe,
}
use lock_free_search_tree.Lfca.Safety.Steps.{
  Safe-if, lift-Safe, load_treap-Safe, try_replace-Safe, is_replaceable-Safe, new_stat-Keeps,
}
use lock_free_search_tree.Lfca.Safety.Search.{find_base_node-Safe}
use lock_free_search_tree.Lfca.Safety.Joins.{high_contention_adaptation-Safe, adapt_if_needed-Safe}
use lock_free_search_tree.Lfca.Safety.Queries.{all_in_range-Safe, help_if_needed-Safe}

Safe-answer :
    {A : Type 0} (o : Option Bool) (k : Bool → Program A) (p : Program A)
    → ((b : Bool) → Safe (k b))
    → Safe p
    → Safe (elim o [ some b ↦ k b | none ↦ p ])
Safe-answer none k p hk hp = hp
Safe-answer (some b) k p hk hp = hk b

module _ (f : ℕ) (weights : ℕ → ℕ → ℤ) where
  update_loop-Safe :
      (g : ℕ) (info : ContentionInfo) (u : Updater) (i : ℤ)
      → Safe (update_loop f weights g info u i)
  unfolding update_loop
  update_loop-Safe zero info u i = tt
  update_loop-Safe (suc g) info u i = Safe-bind _ _ load_root-Safe λ root.
      Safe-bind _ _ (find_base_node-Safe f root i) λ base. Safe-bind _ _ (load_treap-Safe base) λ t.
        Safe-elim (leb treap_nodes (get_size t)) _ _
          (Safe-bind _ _ (high_contention_adaptation-Safe f weights base)
            λ _. update_loop-Safe g info u i)
          (Safe-bind _ _ (is_replaceable-Safe base) λ replaceable.
            Safe-bind _ _
              (Safe-elim replaceable _ _
                (Safe-bind _ _ (new_node-Safe _ (refl, zero-InBounds)) λ newb.
                  Safe-bind _ _ (load-Safe base (λ n. n.parent)) λ parent.
                    Safe-bind _ _ (store-Safe newb _ (λ n h. (refl, h.1))) λ _.
                      Safe-bind _ _ (load_treap-Safe base) λ t. Safe-bind _ _ new_treap-Safe λ d.
                        Safe-bind _ _ (lift-Safe (u i (weights d) t)) λ (res, t).
                          Keeps-bind InBounds (λ _. Unit) _ _ (new_stat-Keeps base info)
                            λ stat bounds.
                              Safe-bind _ _ (store-Safe newb _ (λ n h. (h.0, bounds))) λ _.
                                Safe-bind _ _ (try_replace-Safe base newb) λ replaced.
                                  Safe-if replaced _ _
                                    (Safe-bind _ _ (adapt_if_needed-Safe f weights newb) λ _. tt)
                                    tt)
                tt)
              λ replaced.
                Safe-answer replaced _ _ (λ res. tt)
                  (Safe-bind _ _
                    (help_if_needed-Safe _ base (λ lo hi s. all_in_range-Safe f g lo hi (some s)))
                    λ _. update_loop-Safe g contended u i))

  pub insert-Safe : (i : ℤ) → Safe (insert f weights i)
  unfolding insert do_update
  insert-Safe i = Safe-bind _ _ (update_loop-Safe f uncontened treap_insert i) λ _. tt

  pub remove-Safe : (i : ℤ) → Safe (remove f weights i)
  unfolding remove do_update
  remove-Safe i = update_loop-Safe f uncontened treap_remove i

  pub lookup-Safe : (i : ℤ) → Safe (lookup f weights i)
  unfolding lookup
  lookup-Safe i = Safe-bind _ _ load_root-Safe λ root.
      Safe-bind _ _ (find_base_node-Safe f root i)
        λ base. Safe-bind _ _ (load_treap-Safe base) λ t. lift-Safe (contains i t)

  pub range_query-Safe : (lo hi : ℤ) → Safe (range_query f weights lo hi)
  unfolding range_query
  range_query-Safe lo hi = all_in_range-Safe f f lo hi none
