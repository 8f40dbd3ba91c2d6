-- ===== src/Lfca/Updating.antt =====
-- `do_update` of lfca.cpp in a memory that no other thread changes, where no adaptation is due.
use lock_free_search_tree.Base
use lock_free_search_tree.Base.{
  inl, ℕ, suc, ◌+◌, ◌≤◌, ◌<◌, ◌≡◌, ◌≢◌, refl, sym, ap, ◌∙◌, Bool, true, false, Option, none, some,
  update, ltb, leb, if◌then◌else◌, arith, ◌==◌, List, ℤ, pos, ltb_ℤ, ◌≤ℤ◌, ◌<ℤ◌, ◌+ℤ◌, pos_part,
  neg_part, Outcome,
}
use lock_free_search_tree.Treap.State.{treap_nodes, Treap, same_index}
use lock_free_search_tree.Treap.Ops.{get_size}
use lock_free_search_tree.Lfca.Memory.{
  ContentionInfo, noinfo, contended, normal, Ptr, blank, Memory, Program, ret, ◌>>=◌, ◌>>◌, returns,
  run,
}
use lock_free_search_tree.Lfca.Access.{
  is_range, high_cont, low_cont, load, store, set_node, new_node, new_treap, lift, load_treap,
  try_replace, is_replaceable, new_stat, adjusted_stat,
}
use lock_free_search_tree.Lfca.Find.{load_root, find_base_node}
use lock_free_search_tree.Lfca.Adapt.{
  high_contention_adaptation, low_contention_adaptation, adapt_if_needed,
}
use lock_free_search_tree.Lfca.Range.{all_in_range, help_if_needed}
use lock_free_search_tree.Lfca.Update.{Updater, update_loop}
use lock_free_search_tree.Treap.Wiring.{eq_self, eq_ne}
use lock_free_search_tree.Lfca.Layout.{child_of, run-bind}
use lock_free_search_tree.Lfca.Alone.{
  Replaceable, with_new, with_treap, then_load, then_store, then_new_node, then_new_treap,
  then_lift, then_load_treap, then_is_replaceable, then_new_stat, with_root, put_child,
  then_replace_root, then_replace_child,
}

module _ (f : ℕ) (weights : ℕ → ℕ → ℤ) where
  by_low : ℕ → Bool → Program (Unit {0})
  by_low k is_low = elim is_low [
    | true ↦ low_contention_adaptation f weights (some k)
    | false ↦ ret tt
  ]

  by_high : ℕ → Bool → Program (Unit {0})
  by_high k is_high = elim is_high [
    | true ↦ high_contention_adaptation f weights (some k)
    | false ↦ do stat ← new_stat (some k) noinfo; by_low k (ltb_ℤ stat low_cont)
  ]

  -- A node that is neither contended nor idle is left as it is.
  adapt_quiet :
      (k : ℕ) (m : Memory)
      → (m.nodes k).type ≡ normal
      → ltb_ℤ high_cont (m.nodes k).stat ≡ false
      → ltb_ℤ (m.nodes k).stat low_cont ≡ false
      → run (adapt_if_needed f weights (some k)) m ≡ returns tt m
  unfolding adapt_if_needed adjusted_stat run by_high by_low
  adapt_quiet k m e high low =
      then_is_replaceable k _ m (inl e)
      ∙ then_new_stat k noinfo _ m (ap is_range e)
      ∙ ap (λ b. run (by_high k b) m) high
      ∙ then_new_stat k noinfo _ m (ap is_range e)
      ∙ ap (λ b. run (by_low k b) m) low

  module _ (u : Updater) (i : ℤ) where
    -- The part of the loop that makes a new base node and tries to put it in the place of the old one.
    pub attempt : ContentionInfo → Ptr → Program (Option Bool)
    attempt info base = do
      newb ← new_node blank
      parent ← load base (λ n. n.parent)
      store newb (λ n. record n { type = normal; parent = parent })
      t ← load_treap base
      d ← new_treap
      (res, t) ← lift (u i (weights d) t)
      stat ← new_stat base info
      store newb (λ n. record n { treap = some t; stat = stat })
      done ← try_replace base newb
      if done then (do adapt_if_needed f weights newb; ret (some res)) else ret none

    after : ℕ → Ptr → Option Bool → Program Bool
    after g base replaced = elim replaced [
      | some res ↦ ret res
      | none ↦ do
        help_if_needed (λ lo hi s. all_in_range f g lo hi (some s)) base
        update_loop f weights g contended u i
    ]

    by_size : ℕ → ContentionInfo → Ptr → Bool → Program Bool
    by_size g info base is_full = elim is_full [
      | true ↦ do high_contention_adaptation f weights base; update_loop f weights g info u i
      | false ↦ do
        replaceable ← is_replaceable base
        replaced ← elim replaceable [ false ↦ ret none | true ↦ attempt info base ]
        after g base replaced
    ]

    -- One round of the loop that succeeds.
    pub one_round :
        (g j : ℕ) (t : Treap) (res : Bool) (info : ContentionInfo) (m n : Memory)
        → run (find_base_node f m.root i) m ≡ returns (some j) m
        → (m.nodes j).treap ≡ some t
        → leb treap_nodes t.size ≡ false
        → Replaceable m (m.nodes j)
        → run (attempt info (some j)) m ≡ returns (some res) n
        → run (update_loop f weights (suc g) info u i) m ≡ returns res n
    unfolding update_loop load_root get_size run by_size after attempt
    one_round g j t res info m n found at_j room plain done =
        run-bind (find_base_node f m.root i) _ m m (some j) found
        ∙ then_load_treap j t _ m at_j
        ∙ ap (λ b. run (by_size g info (some j) b) m) room
        ∙ then_is_replaceable j _ m plain
        ∙ run-bind (attempt info (some j)) (after g (some j)) m n (some res) done

    -- The memories that the attempt goes through.
    module _ (info : ContentionInfo) (m : Memory) (j : ℕ) (t t' : Treap) (res : Bool)
        (plain : is_range (m.nodes j).type ≡ false) (at_j : (m.nodes j).treap ≡ some t)
        (old : j ≢ m.node_count) (node_room : ltb m.node_count m.node_limit ≡ true)
        (treap_room : ltb m.treap_count m.treap_limit ≡ true)
        (computed : u i (weights m.draws) t ≡ Base.ok (res, t')) where
      abbrev typed : Memory
      typed =
          let m₁ = with_new blank m in
          set_node m.node_count
            (record (m₁.nodes m.node_count) { type = normal; parent = (m₁.nodes j).parent }) m₁

      abbrev pub built : Memory
      built =
          let m₃ = with_treap typed in
          set_node m.node_count
            (record (m₃.nodes m.node_count) {
              treap = some t';
              stat = adjusted_stat (m₃.nodes j).stat info (pos 0);
            })
            m₃

      typed_old : (a : ℕ) → a ≢ m.node_count → typed.nodes a ≡ m.nodes a
      typed_old a ne = rw (eq_ne a m.node_count ne)

      pub built_old : (a : ℕ) → a ≢ m.node_count → built.nodes a ≡ m.nodes a
      built_old a ne = rw (eq_ne a m.node_count ne)

      pub built_type : (built.nodes m.node_count).type ≡ normal
      built_type = rw (eq_self m.node_count)

      pub built_treap : (built.nodes m.node_count).treap ≡ some t'
      built_treap = rw (eq_self m.node_count)

      pub built_parent : (built.nodes m.node_count).parent ≡ (m.nodes j).parent
      built_parent = rw (eq_self m.node_count, eq_ne j m.node_count old)

      built_stat : (built.nodes m.node_count).stat ≡ adjusted_stat (m.nodes j).stat info (pos 0)
      built_stat = rw (eq_self m.node_count, eq_ne j m.node_count old)

      finish : Program (Option Bool)
      finish = do
        done ← try_replace (some j) (some m.node_count)
        if done
            then (do adapt_if_needed f weights (some m.node_count); ret (some res))
            else ret none

      attempt_run : run (attempt info (some j)) m ≡ run finish built
      unfolding attempt finish
      attempt_run =
          then_new_node blank _ m node_room
          ∙ then_load j (λ n. n.parent) _ (with_new blank m)
          ∙ then_store m.node_count _ _ (with_new blank m)
          ∙ then_load_treap j t _ typed (ap (λ n. n.treap) (typed_old j old) ∙ at_j)
          ∙ then_new_treap _ typed treap_room
          ∙ then_lift (u i (weights m.draws) t) (res, t') _ (with_treap typed) computed
          ∙ then_new_stat j info _ (with_treap typed)
              (ap (λ n. is_range n.type) (typed_old j old) ∙ plain)
          ∙ then_store m.node_count _ _ (with_treap typed)

      abbrev settle : Program (Option Bool)
      settle = do adapt_if_needed f weights (some m.node_count); ret (some res)

      -- The end of the attempt, in the memory in which the new node has replaced the old one.
      settled :
          (n : Memory)
          → n.nodes m.node_count ≡ built.nodes m.node_count
          → ltb_ℤ high_cont (adjusted_stat (m.nodes j).stat info (pos 0)) ≡ false
          → ltb_ℤ (adjusted_stat (m.nodes j).stat info (pos 0)) low_cont ≡ false
          → run settle n ≡ returns (some res) n
      unfolding run
      settled n same high low =
          let stat = ap (λ z. z.stat) same ∙ built_stat in
          run-bind (adapt_if_needed f weights (some m.node_count)) _ n n tt (
            adapt_quiet m.node_count n (ap (λ z. z.type) same ∙ built_type)
              (ap (λ a. ltb_ℤ high_cont a) stat ∙ high) (ap (λ a. ltb_ℤ a low_cont) stat ∙ low))

      pub attempt_root :
          (m.nodes j).parent ≡ none
          → m.root ≡ some j
          → ltb_ℤ high_cont (adjusted_stat (m.nodes j).stat info (pos 0)) ≡ false
          → ltb_ℤ (adjusted_stat (m.nodes j).stat info (pos 0)) low_cont ≡ false
          → run (attempt info (some j)) m ≡ returns (some res) (with_root (some m.node_count) built)
      unfolding finish
      attempt_root up at_root high low =
          attempt_run
          ∙ then_replace_root j (some m.node_count) _ built
              (ap (λ n. n.parent) (built_old j old) ∙ up) at_root
          ∙ settled (with_root (some m.node_count) built) refl high low

      abbrev pub hung : ℕ → Bool → Memory
      hung s side = set_node s (put_child side (some m.node_count) (built.nodes s)) built

      pub attempt_child :
          (s : ℕ) (side : Bool)
          → (m.nodes j).parent ≡ some s
          → s ≢ m.node_count
          → child_of side (m.nodes s) ≡ some j
          → (side ≡ false → same_index (m.nodes s).left (some j) ≡ false)
          → ltb_ℤ high_cont (adjusted_stat (m.nodes j).stat info (pos 0)) ≡ false
          → ltb_ℤ (adjusted_stat (m.nodes j).stat info (pos 0)) low_cont ≡ false
          → run (attempt info (some j)) m ≡ returns (some res) (hung s side)
      unfolding finish
      attempt_child s side up ne slot alone high low =
          let at_s = built_old s ne in
          attempt_run
          ∙ then_replace_child j s side (some m.node_count) _ built
              (ap (λ n. n.parent) (built_old j old) ∙ up) (ap (child_of side) at_s ∙ slot)
              (λ e. ap (λ n. same_index n.left (some j)) at_s ∙ alone e)
          ∙ settled (hung s side) (rw (eq_ne m.node_count s (λ e. ne (sym e)))) high low
