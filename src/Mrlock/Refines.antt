-- ===== src/Mrlock/Refines.antt =====
-- The tree of mrlocktree.cpp against its contract: a set of integers, as a sorted list without equal
-- elements, through any sequence of calls.
use lock_free_search_tree.Base.{
  ℕ, ◌≡◌, refl, inl, inr, Bool, true, false, Bool-cases, List, [], ◌∷◌, arith, ℤ, ◌<ℤ◌, ltb_ℤ,
  eqb_ℤ, ◌||◌, int_min, Outcome, ◌>>=◌, ok,
}
use lock_free_search_tree.Base.Sorted.{
  insert_sorted, insert_sorted-All, member, remove_first, remove_first-All, All-imp,
}
use lock_free_search_tree.Treap.Model.{new-Represents}
use lock_free_search_tree.Treap.Balance.{IsStrict}
use lock_free_search_tree.Mrlock.{Node, initial}
use lock_free_search_tree.Mrlock as mrlock
use lock_free_search_tree.Mrlock.Laws.{Holds, lookup-member}
use lock_free_search_tree.Mrlock.Insert.{Heavy, Spacious}
use lock_free_search_tree.Mrlock.Growth.{insert-Spacious}
use lock_free_search_tree.Mrlock.Remove.{remove-Holds}

lt_of_test : (a b : ℤ) → ltb_ℤ a b ≡ true → a <ℤ b
lt_of_test a b h = ground arith

gt_of_tests : (a b : ℤ) → ltb_ℤ a b ≡ false → eqb_ℤ b a ≡ false → b <ℤ a
gt_of_tests a b h k = ground arith

or_parts : (a b : Bool) → (a || b) ≡ false → (a ≡ false) × (b ≡ false)
or_parts false b h = (refl, h)
or_parts true b h = (h, absurd (cc))

insert_sorted-IsStrict :
    (v : ℤ) (xs : List ℤ) → IsStrict xs → member v xs ≡ false → IsStrict (insert_sorted v xs)
unfolding insert_sorted member
insert_sorted-IsStrict v [] s h = (tt, tt)
insert_sorted-IsStrict v (x ∷ xs) s h =
    let (ne, out) = or_parts (eqb_ℤ x v) (member v xs) h in
    elim (Bool-cases (ltb_ℤ v x)) [
      | inl e ↦
          let lt = lt_of_test v x e in
          rw e ((lt, All-imp (λ z. x <ℤ z) (λ z. v <ℤ z) xs (λ z k. omega (arith, lt)) s.0), s)
      | inr e ↦ rw e (
        insert_sorted-All (λ z. x <ℤ z) v xs (gt_of_tests v x e ne) s.0,
        insert_sorted-IsStrict v xs s.1 out,
      )
    ]

remove_first-IsStrict : (v : ℤ) (xs : List ℤ) → IsStrict xs → IsStrict (remove_first v xs)
unfolding remove_first
remove_first-IsStrict v [] s = tt
remove_first-IsStrict v (x ∷ xs) s = elim (Bool-cases (eqb_ℤ x v)) [
  | inl e ↦ rw e s.1
  | inr e ↦ rw e (remove_first-All (λ z. x <ℤ z) v xs s.0, remove_first-IsStrict v xs s.1)
]

-- A call of `insert`, `remove` or `lookup`, with the weights that it draws.
pub data Call : Type 0 where
  insert : (draws_left draws_right : ℕ → ℤ) → (val weight : ℤ) → Call
  remove : (draws : ℕ → ℤ) → (val : ℤ) → Call
  lookup : (val : ℤ) → Call

-- The calls on the tree, and what they answer: `insert` answers nothing, here `true`.
abbrev pub perform : Call → Node → Outcome (Bool × Node)
perform (Call.insert dl dr val weight) n = mrlock.insert dl dr val weight n >>= (λ m. ok (true, m))
perform (Call.remove draws val) n = mrlock.remove draws val n
perform (Call.lookup val) n = mrlock.lookup val n >>= (λ b. ok (b, n))

abbrev pub perform_all : List Call → Node → Outcome (List Bool × Node)
perform_all [] n = ok ([], n)
perform_all (c ∷ cs) n =
    perform c n >>= (λ (b, m). perform_all cs m >>= (λ (bs, k). ok (b ∷ bs, k)))

-- The same calls on the set.
abbrev pub answer : Call → List ℤ → Bool × List ℤ
answer (Call.insert dl dr val weight) vs = (true, insert_sorted val vs)
answer (Call.remove draws val) vs = (member val vs, remove_first val vs)
answer (Call.lookup val) vs = (member val vs, vs)

abbrev pub answer_all : List Call → List ℤ → List Bool × List ℤ
answer_all [] vs = ([], vs)
answer_all (c ∷ cs) vs =
    let rest = answer_all cs (answer c vs).1 in ((answer c vs).0 ∷ rest.0, rest.1)

-- The weights lie above that of the control node, and a value that is inserted is new.
abbrev pub Allowed : Call → List ℤ → Type 0
Allowed (Call.insert dl dr val weight) vs =
    ((a : ℕ) → int_min <ℤ dl a)
    × ((a : ℕ) → int_min <ℤ dr a)
    × (int_min <ℤ weight)
    × (member val vs ≡ false)
Allowed (Call.remove draws val) vs = (a : ℕ) → int_min <ℤ draws a
Allowed (Call.lookup val) vs = Unit

abbrev pub AllAllowed : List Call → List ℤ → Type 0
AllAllowed [] vs = Unit
AllAllowed (c ∷ cs) vs = Allowed c vs × AllAllowed cs (answer c vs).1

-- The tree holds the set, and can take any value.
abbrev pub Stores : Node → List ℤ → Type 0
Stores n vs = Holds n vs × Heavy n × Spacious n × IsStrict vs

abbrev pub Steps : Call → List ℤ → Outcome (Bool × Node) → Type 0
Steps c vs run = (m : Node) × (run ≡ ok ((answer c vs).0, m)) × Stores m (answer c vs).1

step : (c : Call) (n : Node) (vs : List ℤ) → Stores n vs → Allowed c vs → Steps c vs (perform c n)
step (Call.insert dl dr val weight) n vs (h, heavy, room, strict) (hl, hr, hw, new) =
    let strict' = insert_sorted-IsStrict val vs strict new in
    let (m, run, held, heavy', room') =
      insert-Spacious dl dr hl hr val weight hw n vs h heavy room strict' in
    (m, rw run, (held, heavy', room', strict'))
step (Call.remove draws val) n vs (h, heavy, room, strict) drawn =
    let (m, run, held, heavy', room') = remove-Holds draws drawn val n vs h heavy in
    (m, run, (held, heavy', room' room, remove_first-IsStrict val vs strict))
step (Call.lookup val) n vs (h, heavy, room, strict) _ =
    (n, rw (lookup-member val n vs h), (h, heavy, room, strict))

pub initial-Stores : Stores initial []
initial-Stores = (new-Represents, (λ a h. absurd (omega arith)), omega arith, tt)

abbrev pub AllSteps : List Call → List ℤ → Outcome (List Bool × Node) → Type 0
AllSteps cs vs run =
    (m : Node) × (run ≡ ok ((answer_all cs vs).0, m)) × Stores m (answer_all cs vs).1

steps :
    (cs : List Call) (n : Node) (vs : List ℤ)
    → Stores n vs
    → AllAllowed cs vs
    → AllSteps cs vs (perform_all cs n)
steps [] n vs s _ = (n, refl, s)
steps (c ∷ cs) n vs s (a, as') =
    let (m, run, s') = step c n vs s a in
    let (k, run', s'') = steps cs m (answer c vs).1 s' as' in (k, rw (run, run'), s'')

-- Through any sequence of calls of `insert`, `remove` and `lookup` on a new tree, in which the weights
-- drawn are above that of the control node and each value inserted is one that the tree does not hold
-- then, the tree answers as a set does: no call throws or faults, and at the end the tree holds the
-- values of the set, in order along its routes, no treap is full, and the weights are above that of the
-- control node.
pub perform_all-refines :
    (cs : List Call) → AllAllowed cs [] → AllSteps cs [] (perform_all cs initial)
perform_all-refines cs allowed = steps cs initial [] initial-Stores allowed

-- The answers alone.
abbrev pub answers : Outcome (List Bool × Node) → Outcome (List Bool)
answers run = run >>= (λ (bs, _). ok bs)

-- Take two trees that hold the values of the same set, in order along their routes, with no treap full
-- and all weights above that of the control node. A sequence of calls of `insert`, `remove` and
-- `lookup`, in which the weights drawn are above that of the control node and each value inserted is one
-- that the set does not hold then, gives the same answers on both, also where their routes and treaps
-- differ.
pub perform_all-agree :
    (cs : List Call) (n k : Node) (vs : List ℤ)
    → Stores n vs
    → Stores k vs
    → AllAllowed cs vs
    → answers (perform_all cs n) ≡ answers (perform_all cs k)
perform_all-agree cs n k vs s s' allowed =
    let (m, run, _) = steps cs n vs s allowed in
    let (m', run', _) = steps cs k vs s' allowed in rw (run, run')
