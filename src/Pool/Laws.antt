-- ===== src/Pool/Laws.antt =====
-- What the calls of `New` after a `Preallocate` of preallocatable.h return.
use lock_free_search_tree.Base.{
  ℕ, zero, suc, ◌+◌, ◌%◌, ◌<◌, ◌≤◌, ◌≡◌, refl, ap, ◌∙◌, true, if◌then◌else◌, ltb, arith, ok, throw,
  out_of_range,
}
use lock_free_search_tree.Pool.{Pool, preallocate, after_new, new, after_calls, int_half}

-- The pool of `n` elements after `k` calls.
abbrev used : (n k : ℕ) → Pool
used n k = record { is_preallocated = true; num_preallocated = n; current_element_index = k }

small : (k : ℕ) → k < int_half → (k + 1) % 4294967296 ≡ suc k
small k h = omega arith

after_calls-used : (n k : ℕ) → k ≤ int_half → after_calls k (used n 0) ≡ used n k
unfolding after_calls after_new
after_calls-used n zero h = refl
after_calls-used n (suc k) h =
    ap (λ p. after_new p) (after_calls-used n k (omega arith))
    ∙ ap (λ i. used n i) (small k (omega arith))

new-used :
    (n k : ℕ) → k < int_half → new (used n k) ≡ (if ltb k n then ok k else throw out_of_range)
unfolding new
new-used n k h = ground arith

preallocate-used : (n : ℕ) (p q : Pool) → preallocate n p ≡ ok q → q ≡ used n 0
unfolding preallocate
preallocate-used n p q h = ground arith

-- After `Preallocate(n)` has returned, call number `k` of `New` (counted from 0, and for a `k` that
-- an int holds) returns element `k` when `k` is below `n`
-- and throws `out_of_range` from then on.
pub new-after_calls :
    (n k : ℕ) (p q : Pool)
    → preallocate n p ≡ ok q
    → k < int_half
    → new (after_calls k q) ≡ (if ltb k n then ok k else throw out_of_range)
new-after_calls n k p q h small =
    rw (preallocate-used n p q h, after_calls-used n k (omega arith)) (new-used n k small)
