-- ===== src/Lfca/Threads/Laws.antt =====
-- What holds of the shared memory of lfca.cpp under every interleaving of the threads.
use lock_free_search_tree.Base.{
  ℕ, ◌<◌, ◌≡◌, ◌∙◌, Bool, true, false, some, List, [], ◌∷◌, ℤ, arith, update, if◌then◌else◌, ◌==◌,
}
use lock_free_search_tree.Lfca.Memory.{Memory, Program, ret, step, throw, fault, out_of_fuel}
use lock_free_search_tree.Lfca.Access.{is_range}
use lock_free_search_tree.Lfca.Stats.{InBounds}
use lock_free_search_tree.Lfca.Safety.{AllPlain, Follows, Safe}
use lock_free_search_tree.Lfca.Safety.Rules.{Safe-bind, Follows-refl}
use lock_free_search_tree.Lfca.Safety.Updates.{
  insert-Safe, remove-Safe, lookup-Safe, range_query-Safe,
}
use lock_free_search_tree.Lfca.Threads.{
  Call, insert_call, remove_call, lookup_call, range_call, call, thread, System, take, play, start,
}

call-Safe : (f : ℕ) (weights : ℕ → ℕ → ℤ) (c : Call) → Safe (call f weights c)
unfolding call
call-Safe f weights (insert_call i) = insert-Safe f weights i
call-Safe f weights (remove_call i) = Safe-bind _ _ (remove-Safe f weights i) λ _. tt
call-Safe f weights (lookup_call i) = Safe-bind _ _ (lookup-Safe f weights i) λ _. tt
call-Safe f weights (range_call lo hi) = Safe-bind _ _ (range_query-Safe f weights lo hi) λ _. tt

thread-Safe : (f : ℕ) (weights : ℕ → ℕ → ℤ) (cs : List Call) → Safe (thread f weights cs)
unfolding thread
thread-Safe f weights [] = tt
thread-Safe f weights (c ∷ cs) = Safe-bind _ _ (call-Safe f weights c) λ _. thread-Safe f weights cs

Follows-trans : (l m n : Memory) → Follows l m → Follows m n → Follows l n
Follows-trans l m n a b = record {
  node_count = omega (arith, a.node_count, b.node_count);
  storage_count = omega (arith, a.storage_count, b.storage_count);
  treap_count = omega (arith, a.treap_count, b.treap_count);
  node_limit = b.node_limit ∙ a.node_limit;
  storage_limit = b.storage_limit ∙ a.storage_limit;
  treap_limit = b.treap_limit ∙ a.treap_limit;
  result = λ s r h e. b.result s r (omega (arith, a.storage_count)) (a.result s r h e);
}

-- What every thread has still to do is safe, and every node is plain.
record AllSafe (s : System) : Type 0 where
  threads : (j : ℕ) → Safe (s.threads j)
  plain : AllPlain s.memory

start-AllSafe :
    (f : ℕ) (weights : ℕ → ℕ → ℤ) (calls : ℕ → List Call) (m : Memory)
    → AllPlain m
    → AllSafe (start f weights calls m)
start-AllSafe f weights calls m h = record {
  threads = λ j. thread-Safe f weights (calls j);
  plain = h;
}

update-Safe :
    (ts : ℕ → Program (Unit {0})) (j : ℕ) (p : Program (Unit {0}))
    → ((i : ℕ) → Safe (ts i))
    → Safe p
    → (i : ℕ) → Safe (update ts j p i)
update-Safe ts j p h k i = if-Safe (i == j) p (ts i) k (h i)
  where
    if-Safe : (b : Bool) (p q : Program (Unit {0})) → Safe p → Safe q → Safe (if b then p else q)
    if-Safe true p q hp hq = hp
    if-Safe false p q hp hq = hq

take-AllSafe :
    (j : ℕ) (p : Program (Unit {0})) (s : System)
    → Safe p
    → AllSafe s
    → AllSafe (take j p s) × Follows s.memory (take j p s).memory
take-AllSafe j (step g k) s h a =
    let (plain, follows, rest) = h s.memory a.plain in
    (
      record { threads = update-Safe s.threads j (k s.memory) a.threads rest; plain = plain },
      follows,
    )
take-AllSafe j (ret x) s h a = (a, Follows-refl s.memory)
take-AllSafe j (throw e) s h a = (a, Follows-refl s.memory)
take-AllSafe j fault s h a = (a, Follows-refl s.memory)
take-AllSafe j out_of_fuel s h a = (a, Follows-refl s.memory)

play-AllSafe :
    (js : List ℕ) (s : System)
    → AllSafe s
    → AllSafe (play js s) × Follows s.memory (play js s).memory
unfolding play
play-AllSafe [] s a = (a, Follows-refl s.memory)
play-AllSafe (j ∷ js) s a =
    let (b, w) = take-AllSafe j (s.threads j) s (a.threads j) a in
    let (c, v) = play-AllSafe js (take j (s.threads j) s) b in (c, Follows-trans s.memory _ _ w v)

module _ (f : ℕ) (weights : ℕ → ℕ → ℤ) (calls : ℕ → List Call) (m : Memory)
    (plain : AllPlain m) where
  played : (js : List ℕ) → AllSafe (play js (start f weights calls m))
  played js = (play-AllSafe js _ (start-AllSafe f weights calls m plain)).0

  -- Threads make any calls of the public operations, with any fuel, on a memory in which no node has the type `range`
  -- and the statistics of every node are from -1101 to 1250, and their steps are interleaved in any
  -- order. Then the result of a result set that was handed
  -- out, once it is set, stays the same whatever steps come later.
  pub result-kept :
      (js later : List ℕ) (s : ℕ) (r : List ℤ)
      → s < (play js (start f weights calls m)).memory.storage_count
      → ((play js (start f weights calls m)).memory.storages s).result ≡ some r
      → ((play later (play js (start f weights calls m))).memory.storages s).result ≡ some r
  result-kept js later s r h e = (play-AllSafe later _ (played js)).1.result s r h e

  -- Threads make any calls of the public operations, with any fuel, on a memory in which no node has the type `range`
  -- and the statistics of every node are from -1101 to 1250, and their steps are interleaved in any
  -- order. Then no node ever has that type.
  pub never_range :
      (js : List ℕ) (p : ℕ)
      → is_range ((play js (start f weights calls m)).memory.nodes p).type ≡ false
  never_range js p = ((played js).plain p).0

  -- Threads make any calls of the public operations, with any fuel, on a memory in which no node has the type `range`
  -- and the statistics of every node are from -1101 to 1250, and their steps are interleaved in any
  -- order. Then the statistics of every node stay from -1101
  -- to 1250.
  pub stat-InBounds :
      (js : List ℕ) (p : ℕ) → InBounds ((play js (start f weights calls m)).memory.nodes p).stat
  stat-InBounds js p = ((played js).plain p).1
