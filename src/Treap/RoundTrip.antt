-- ===== src/Treap/RoundTrip.antt =====
-- `merge` after `split`.
use lock_free_search_tree.Base.{
  ℕ, ◌+◌, ◌≤◌, ◌<◌, ◌≡◌, sym, ap, List, arith, ℤ, ◌<ℤ◌, int_min, length, length-append, Outcome, ok,
}
use lock_free_search_tree.Treap.State.{treap_nodes, Treap}
use lock_free_search_tree.Treap.Bulk.{merge, split}
use lock_free_search_tree.Treap.Model.{Sound, Returns, size-Represents, Represents-IsSorted}
use lock_free_search_tree.Treap.Balance.{split_lem}
use lock_free_search_tree.Treap.Merging.{merge_lem}

-- Where the two calls lead, with the weights that `merge` draws.
abbrev pub Rejoins : (draws : ℕ → ℤ) → List ℤ → Outcome (ℤ × Treap × Treap) → Type 0
Rejoins draws vs run = (v : ℤ) × (l r : Treap) × (run ≡ ok (v, l, r)) × Returns vs (merge draws l r)

-- `split` of a well-formed treap that is not empty, all weights above that of the control node,
-- returns two treaps, and `merge` of these returns a treap that holds the values of the first.
pub merge-split :
    (draws draws_left draws_right : ℕ → ℤ)
    → ((a : ℕ) → int_min <ℤ draws a)
    → ((a : ℕ) → int_min <ℤ draws_left a)
    → ((a : ℕ) → int_min <ℤ draws_right a)
    → (t : Treap) (vs : List ℤ) → Sound t vs
    → 0 < length vs
    → Rejoins draws vs (split draws_left draws_right t)
merge-split draws dl dr drawn drawn_left drawn_right t vs sound pos =
    let (v, _, (l, r, run, h)) = split_lem dl dr drawn_left drawn_right t vs sound pos in
    let sorted = rw h.whole at (Represents-IsSorted t vs sound.0) in
    let fits : length vs ≤ treap_nodes =
      omega (arith, size-Represents t vs sound.0, sound.0.is.fits) in
    let sizes : length h.low + length h.high ≤ 64 =
      omega (arith, fits, length-append {0} h.low h.high, ap (λ (z : List ℤ). length z) h.whole) in
    (
      v,
      l,
      r,
      run,
      rw (sym h.whole) at (merge_lem draws drawn l r h.low h.high h.left.0 h.right.0 sizes sorted),
    )
