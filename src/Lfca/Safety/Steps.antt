-- ===== src/Lfca/Safety/Steps.antt =====
-- The small helpers of lfca.cpp are safe.
use lock_free_search_tree.Base.{
  ℕ, suc, ◌+◌, ◌≤◌, ◌<◌, ◌≡◌, refl, sym, ap, ◌∙◌, Bool, true, false, Option, none, some, List, ℤ,
  arith, pos, if◌then◌else◌, update, ltb, not, Outcome, ◌==◌, ◌≢◌,
}
use mathlib.Core.Bool.{true≢false}
use lock_free_search_tree.Base
use lock_free_search_tree.Treap.State.{Treap, same_index}
use lock_free_search_tree.Lfca.Memory.{
  ContentionInfo, route, normal, join_main, join_neighbor, range, NodeType, Ptr, Memory, Program,
  ResultStorage,
}
use lock_free_search_tree.Lfca.Access.{
  is_range, is_set, lift, treap_of, load_treap, load_result, load_more_than_one, try_replace,
  is_replaceable, minus_range_sub, new_stat,
}
use lock_free_search_tree.Lfca.Range.{the_result, exchange_result, set_more_than_one}
use lock_free_search_tree.Base.{◌⊎◌, inl, inr}
use lock_free_search_tree.Lfca.Access.{minus_range_contrib}
use lock_free_search_tree.Lfca.Stats.{InBounds, adjusted_stat-InBounds}
use lock_free_search_tree.Lfca.Memory.{ret, step, throw, fault, out_of_fuel}
use lock_free_search_tree.Lfca.Safety.Rules.{load-Keeps, Keeps-bind}
use lock_free_search_tree.Lfca.Safety.{Keeps, AllPlain, Follows, Safe}
use lock_free_search_tree.Lfca.Safety.Rules.{
  Safe-bind, Follows-refl, load-Safe, exchange_left-Safe, exchange_right-Safe, exchange_root-Safe,
}

pub Safe-if :
    {A : Type 0} (b : Bool) (p q : Program A) → Safe p → Safe q → Safe (if b then p else q)
Safe-if true p q hp hq = hp
Safe-if false p q hp hq = hq

-- What is returned may be forgotten.
Keeps-weaken : {A : Type 0} (Q : A → Type 0) (p : Program A) → Keeps Q p → Safe p
Keeps-weaken Q (ret a) h = tt
Keeps-weaken Q (step g k) h = λ m i. let (a, b, c) = h m i in (a, b, Keeps-weaken Q (k m) c)
Keeps-weaken Q (throw e) h = tt
Keeps-weaken Q fault h = tt
Keeps-weaken Q out_of_fuel h = tt

pub lift-Safe : {A : Type 0} (o : Outcome A) → Safe (lift o)
lift-Safe (Base.ok a) = tt
lift-Safe (Base.throw e) = tt
lift-Safe Base.fault = tt
lift-Safe Base.out_of_fuel = tt

treap_of-Safe : (t : Option Treap) → Safe (treap_of t)
treap_of-Safe none = tt
treap_of-Safe (some t) = tt

pub load_treap-Safe : (n : Ptr) → Safe (load_treap n)
unfolding load_treap
load_treap-Safe n = Safe-bind _ _ (load-Safe n (λ n. n.treap)) treap_of-Safe

pub load_result-Safe : (s : Option ℕ) → Safe (load_result s)
unfolding load_result
load_result-Safe none = tt
load_result-Safe (some s) = λ m i. (i, Follows-refl m, tt)

load_more_than_one-Safe : (s : Option ℕ) → Safe (load_more_than_one s)
unfolding load_more_than_one
load_more_than_one-Safe none = tt
load_more_than_one-Safe (some s) = λ m i. (i, Follows-refl m, tt)

pub the_result-Safe : (r : Option (List ℤ)) → Safe (the_result r)
the_result-Safe none = tt
the_result-Safe (some r) = tt

-- The storages of a memory that change so that results stay.
storages-Follows :
    (m : Memory) (f : ℕ → ResultStorage)
    → ((s : ℕ) (r : List ℤ) → (m.storages s).result ≡ some r → (f s).result ≡ some r)
    → Follows m (record m { storages = f })
storages-Follows m f h = record {
  node_count = omega arith;
  storage_count = omega arith;
  treap_count = omega arith;
  node_limit = refl;
  storage_limit = refl;
  treap_limit = refl;
  result = λ s r _ e. h s r e;
}

-- A result that is set where none was.
set-result :
    (f : ℕ → ResultStorage) (k s : ℕ) (x : ResultStorage) (r : List ℤ)
    → is_set (f k).result ≡ false
    → (f s).result ≡ some r
    → (update f k x s).result ≡ some r
set-result f k s x r h e = rw (update_ne f k s x (differ f k s r h e)) e
  where
    differ :
        (f : ℕ → ResultStorage) (k s : ℕ) (r : List ℤ)
        → is_set (f k).result ≡ false
        → (f s).result ≡ some r
        → s ≢ k
    differ f k s r h e j =
        let g : (f k).result ≡ some r = rw j at e in absurd (true≢false (sym (ap is_set g) ∙ h))

    update_ne : (f : ℕ → ResultStorage) (k s : ℕ) (x : ResultStorage) → s ≢ k → update f k x s ≡ f s
    update_ne f k s x h = ground arith

unless-Safe :
    (b : Bool) (m x : Memory)
    → AllPlain m
    → (b ≡ false → AllPlain x × Follows m x)
    → AllPlain (if b then m else x) × Follows m (if b then m else x)
unless-Safe true m x i h = (i, Follows-refl m)
unless-Safe false m x i h = h refl

pub exchange_result-Safe : (s : ℕ) (res : List ℤ) → Safe (exchange_result s res)
unfolding exchange_result
exchange_result-Safe s res = λ m i.
    let (a, b) = unless-Safe (is_set (m.storages s).result) m _ i λ h. (
      i,
      storages-Follows m _
          (λ t r e. set-result m.storages s t (record (m.storages s) { result = some res }) r h e),
    ) in
    (a, b, tt)

-- A flag that is set in a result set.
set-flag :
    (f : ℕ → ResultStorage) (k s : ℕ) (x : ResultStorage) (r : List ℤ)
    → x.result ≡ (f k).result
    → (f s).result ≡ some r
    → (update f k x s).result ≡ some r
set-flag f k s x r h e = ground arith

pub set_more_than_one-Safe : (s : ℕ) → Safe (set_more_than_one s)
unfolding set_more_than_one
set_more_than_one-Safe s = λ m i. (
  i,
  storages-Follows m _ (λ t r e.
      set-flag m.storages s t (record (m.storages s) { more_than_one_base = true }) r refl e),
  tt,
)

pub Safe-ptr :
    {A : Type 0} (p : Ptr) (a : Program A) (f : ℕ → Program A)
    → Safe a
    → ((q : ℕ) → Safe (f q))
    → Safe (elim p [ none ↦ a | some q ↦ f q ])
Safe-ptr none a f h k = h
Safe-ptr (some q) a f h k = k q

Safe-type :
    {A : Type 0} (t : NodeType) (a b c d e : Program A)
    → Safe a
    → Safe b
    → Safe c
    → Safe d
    → Safe e
    → Safe (elim t [ route ↦ a | normal ↦ b | join_main ↦ c | join_neighbor ↦ d | range ↦ e ])
Safe-type route a b c d e ha hb hc hd he = ha
Safe-type normal a b c d e ha hb hc hd he = hb
Safe-type join_main a b c d e ha hb hc hd he = hc
Safe-type join_neighbor a b c d e ha hb hc hd he = hd
Safe-type range a b c d e ha hb hc hd he = he

pub try_replace-Safe : (b new : Ptr) → Safe (try_replace b new)
unfolding try_replace
try_replace-Safe b new = Safe-bind _ _ (load-Safe b (λ n. n.parent)) λ p.
    Safe-ptr p _ _ (exchange_root-Safe b new) λ q.
      Safe-bind _ _ (load-Safe (some q) (λ n. n.left)) λ l.
        Safe-if (same_index l b) _ _ (exchange_left-Safe (some q) b new) (
          Safe-bind _ _ (load-Safe (some q) (λ n. n.right))
            λ r. Safe-if (same_index r b) _ _ (exchange_right-Safe (some q) b new) tt)

pub is_replaceable-Safe : (n : Ptr) → Safe (is_replaceable n)
unfolding is_replaceable
is_replaceable-Safe n = Safe-bind _ _ (load-Safe n (λ n. n.type)) λ type.
    Safe-type type _ _ _ _ _ tt tt (Safe-bind _ _ (load-Safe n (λ n. n.neigh2)) λ _. tt)
      (Safe-bind _ _ (load-Safe n (λ n. n.main_node))
        λ main. Safe-bind _ _ (load-Safe main (λ n. n.neigh2)) λ _. tt)
      (Safe-bind _ _ (load-Safe n (λ n. n.storage)) λ s. Safe-bind _ _ (load_result-Safe s) λ _. tt)

-- A value of `range_sub`, negated.
abbrev pub RangeSub : ℤ → Type 0
RangeSub sub = (sub ≡ pos 0) ⊎ (sub ≡ minus_range_contrib)

Keeps-elim :
    {A : Type 0} (Q : A → Type 0) (b : Bool) (p q : Program A)
    → Keeps Q p
    → Keeps Q q
    → Keeps Q (elim b [ true ↦ p | false ↦ q ])
Keeps-elim Q true p q hp hq = hp
Keeps-elim Q false p q hp hq = hq

range_sub : (b : Bool) → RangeSub (if b then minus_range_contrib else pos 0)
range_sub true = inr refl
range_sub false = inl refl

minus_range_sub-Keeps : (n : Ptr) → Keeps RangeSub (minus_range_sub n)
unfolding minus_range_sub
minus_range_sub-Keeps n =
    Keeps-bind (λ _. Unit) RangeSub _ _ (load-Safe n (λ n. (n.type, n.storage)))
      λ (type, s) _.
        Keeps-elim RangeSub (is_range type) _ _
          (Keeps-bind (λ _. Unit) RangeSub _ _ (load_more_than_one-Safe s) λ more _. range_sub more)
          (inl refl)

pub new_stat-Keeps : (n : Ptr) (info : ContentionInfo) → Keeps InBounds (new_stat n info)
unfolding new_stat
new_stat-Keeps n info = Keeps-bind RangeSub InBounds _ _ (minus_range_sub-Keeps n) λ sub a.
    Keeps-bind InBounds InBounds _ _ (load-Keeps InBounds n (λ n. n.stat) (λ n h. h.1))
      λ stat h. adjusted_stat-InBounds stat info sub h a

pub new_stat-Safe : (n : Ptr) (info : ContentionInfo) → Safe (new_stat n info)
new_stat-Safe n info = Keeps-weaken InBounds _ (new_stat-Keeps n info)
