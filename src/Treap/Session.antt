-- ===== src/Treap/Session.antt =====
-- Sequences of calls of `insert`, `remove` and `contains` of treap.cpp, on a new treap, against a sorted
-- list of at most 64 integers.
use lock_free_search_tree.Base.{
  ℕ, ◌≤◌, ◌≡◌, inl, inr, Bool, true, false, Bool-cases, List, [], ◌∷◌, ◌<◌, ◌==◌, if◌then◌else◌,
  arith, ℤ, length, Outcome, Exception, ok, throw, out_of_range, ◌>>=◌,
}
use lock_free_search_tree.Base.Sorted.{insert_sorted, member, remove_first}
use lock_free_search_tree.Treap.State.{treap_nodes, Treap, new}
use lock_free_search_tree.Treap.Ops as ops
use lock_free_search_tree.Treap.Model.{IsHeaped, new-IsHeaped, size-Represents}
use lock_free_search_tree.Treap.Insert.{insert_full}
use lock_free_search_tree.Treap.Find.{contains-member}
use lock_free_search_tree.Treap.HeapOrder.{insert-IsHeaped, remove-IsHeaped}

-- A call, with the weight that `insert` draws.
pub data Call : Type 0 where
  insert : (val weight : ℤ) → Call
  remove : (val : ℤ) → Call
  contains : (val : ℤ) → Call

-- The calls on the treap, and what they answer: `insert` answers nothing, here `true`.
abbrev pub perform : Call → Treap → Outcome (Bool × Treap)
perform (Call.insert val weight) t = ops.insert val weight t >>= (λ u. ok (true, u))
perform (Call.remove val) t = ops.remove val t
perform (Call.contains val) t = ops.contains val t >>= (λ b. ok (b, t))

-- The same calls on the list, which takes 64 values.
abbrev pub answer : Call → List ℤ → Outcome (Bool × List ℤ)
answer (Call.insert val weight) vs =
    if length vs == treap_nodes then throw out_of_range else ok (true, insert_sorted val vs)
answer (Call.remove val) vs = ok (member val vs, remove_first val vs)
answer (Call.contains val) vs = ok (member val vs, vs)

-- A sequence of calls, up to the first that throws.
abbrev pub play :
    {S : Type 0} → (Call → S → Outcome (Bool × S)) → List Call → S → Outcome (List Bool × S)
play f [] s = ok ([], s)
play f (c ∷ cs) s = f c s >>= (λ (b, s'). play f cs s' >>= (λ (bs, s''). ok (b ∷ bs, s'')))

-- Both return the same answers, and a well-formed treap for the values in which no node is lighter than
-- its parent; or both throw the same.
pub data Agrees {A : Type 0} : Outcome (A × Treap) → Outcome (A × List ℤ) → Type 0 where
  returns : (a : A) (t : Treap) (vs : List ℤ) → IsHeaped t vs → Agrees (ok (a, t)) (ok (a, vs))
  throws : (e : Exception) → Agrees (throw e) (throw e)

Agrees-bind :
    {A B : Type 0} {m : Outcome (A × Treap)} {n : Outcome (A × List ℤ)}
    (f : A × Treap → Outcome (B × Treap)) (g : A × List ℤ → Outcome (B × List ℤ))
    → Agrees m n
    → ((a : A) (t : Treap) (vs : List ℤ) → IsHeaped t vs → Agrees (f (a, t)) (g (a, vs)))
    → Agrees (m >>= f) (n >>= g)
Agrees-bind f g (returns a t vs h) k = k a t vs h
Agrees-bind f g (throws e) k = throws e

full_of_test : (n : ℕ) → (n == treap_nodes) ≡ true → n ≡ treap_nodes
full_of_test n e = ground arith

room_of_test : (n : ℕ) → (n == treap_nodes) ≡ false → n ≤ treap_nodes → n < treap_nodes
room_of_test n e h = ground arith

step : (c : Call) (t : Treap) (vs : List ℤ) → IsHeaped t vs → Agrees (perform c t) (answer c vs)
step (Call.insert val weight) t vs h = elim (Bool-cases (length vs == treap_nodes)) [
  | inl e ↦
      rw (e, insert_full val weight t vs h.0 (full_of_test (length vs) e)) (throws out_of_range)
  | inr e ↦
      let (u, run, held) =
        insert-IsHeaped val weight t vs h
          (room_of_test (length vs) e (omega (arith, h.0.is.fits, size-Represents t vs h.0))) in
      rw (e, run) (returns true u (insert_sorted val vs) held)
]
step (Call.remove val) t vs h =
    let (u, run, held) = remove-IsHeaped val t vs h in
    rw run (returns (member val vs) u (remove_first val vs) held)
step (Call.contains val) t vs h = rw (contains-member t vs val h.0) (returns (member val vs) t vs h)

steps :
    (cs : List Call) (t : Treap) (vs : List ℤ)
    → IsHeaped t vs
    → Agrees (play perform cs t) (play answer cs vs)
steps [] t vs h = returns [] t vs h
steps (c ∷ cs) t vs h = Agrees-bind _ _ (step c t vs h) (λ b u ws held.
    Agrees-bind _ _ (steps cs u ws held) (λ bs v xs held'. returns (b ∷ bs) v xs held'))

-- Any sequence of calls of `insert`, `remove` and `contains` on a new treap gives the answers of a sorted
-- list that takes 64 values, whatever weights are drawn. An `insert` into the full treap throws
-- `out_of_range`, which ends the sequence; no other call throws, and none faults. If none has thrown,
-- the treap is well formed at the end and holds the values of the list, and no node is lighter than its
-- parent.
pub session-Agrees : (cs : List Call) → Agrees (play perform cs new) (play answer cs [])
session-Agrees cs = steps cs new [] new-IsHeaped
