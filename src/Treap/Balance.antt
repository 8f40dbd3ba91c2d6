-- ===== src/Treap/Balance.antt =====
-- `split` at the median: it returns, and parts distinct values evenly.
use lock_free_search_tree.Base.{
  ℕ, zero, suc, ◌+◌, ◌≤◌, ◌<◌, ◌≡◌, sym, ap, ◌∙◌, some, List, [], ◌∷◌, ◌++◌, arith, ℤ, ◌≤ℤ◌, ◌<ℤ◌,
  int_min, All, get_elem?, length, length-append, Outcome, ok,
}
use native.Mathlib.Decide.{dec_lt}
use lock_free_search_tree.Base.Sorted.{All-split}
use lock_free_search_tree.Treap.State.{Treap}
use lock_free_search_tree.Treap.Bulk.{split}
use lock_free_search_tree.Treap.Model.{Sound, size-Represents}
use lock_free_search_tree.Treap.Median.{
  Middle, odd, even, get_elem?-some, get_median_val_lem, IsHalf-between,
}
use lock_free_search_tree.Treap.Split.{Halves, Splits, split_at_value}

-- The values are sorted and no two are equal.
abbrev pub IsStrict : List ℤ → Type 0
IsStrict [] = Unit
IsStrict (x ∷ xs) = All (λ y. x <ℤ y) xs × IsStrict xs

pub IsStrict-append : (xs ys : List ℤ) → IsStrict (xs ++ ys) → IsStrict xs × IsStrict ys
IsStrict-append [] ys h = (tt, h)
IsStrict-append (x ∷ xs) ys h =
    let (a, b) = IsStrict-append xs ys h.1 in (((All-split (λ z. x <ℤ z) xs ys h.0).0, a), b)

All-get {ℓ} :
    {A : Type 0} (P : A → Type ℓ) (xs : List A) (i : ℕ) (a : A)
    → All P xs
    → get_elem? xs i ≡ some a
    → P a
All-get P [] i a h e = absurd (cc)
All-get P (x ∷ xs) zero a h e = let e' : x ≡ a = cc in rw e' at h.0
All-get P (x ∷ xs) (suc i) a h e = All-get P xs i a h.1 e

strict_lt :
    (vs : List ℤ) (i j : ℕ) (a b : ℤ)
    → IsStrict vs
    → get_elem? vs i ≡ some a
    → get_elem? vs j ≡ some b
    → i < j
    → a <ℤ b
strict_lt [] i j a b s ea eb h = absurd (cc)
strict_lt (x ∷ xs) i zero a b s ea eb h = absurd (omega arith)
strict_lt (x ∷ xs) zero (suc j) a b s ea eb h =
    let e : x ≡ a = cc in rw e at (All-get (λ y. x <ℤ y) xs j b s.0 eb)
strict_lt (x ∷ xs) (suc i) (suc j) a b s ea eb h = strict_lt xs i j a b s.1 ea eb (omega arith)

get-low :
    (P : ℤ → Type 0) (xs ys : List ℤ) (i : ℕ) (a : ℤ)
    → All P xs
    → get_elem? (xs ++ ys) i ≡ some a
    → i < length xs
    → P a
get-low P [] ys i a h e m = absurd (omega arith)
get-low P (x ∷ xs) ys zero a h e m = let e' : x ≡ a = cc in rw e' at h.0
get-low P (x ∷ xs) ys (suc i) a h e m = get-low P xs ys i a h.1 e (omega arith)

get-high :
    (P : ℤ → Type 0) (xs ys : List ℤ) (i : ℕ) (a : ℤ)
    → All P ys
    → get_elem? (xs ++ ys) i ≡ some a
    → length xs ≤ i
    → P a
get-high P [] ys i a h e m = All-get P ys i a h e
get-high P (x ∷ xs) ys zero a h e m = absurd (omega arith)
get-high P (x ∷ xs) ys (suc i) a h e m = get-high P xs ys i a h e (omega arith)

module _ (v : ℤ) (vs : List ℤ) (l r : Treap) (h : Halves v vs l r) where
  whole_at : (i : ℕ) (a : ℤ) → get_elem? vs i ≡ some a → get_elem? (h.low ++ h.high) i ≡ some a
  whole_at i a e = ap (λ z. get_elem? z i) (sym h.whole) ∙ e

  sizes : length vs ≡ length h.low + length h.high
  sizes = ap (λ (z : List ℤ). length z) h.whole ∙ length-append {0} h.low h.high

  stands_low : (i : ℕ) (a : ℤ) → get_elem? vs i ≡ some a → a ≤ℤ v → i < length h.low
  stands_low i a e le = elim (dec_lt i (length h.low)) [
    | yes p ↦ p
    | no n ↦ absurd (
        omega (
          arith,
          le,
          get-high (λ x. v <ℤ x) h.low h.high i a h.beyond (whole_at i a e) (omega arith),
        ))
  ]

  -- The low half ends before any index whose value is larger than the limit.
  ends_low : (i : ℕ) → ((a : ℤ) → get_elem? vs i ≡ some a → v <ℤ a) → length h.low ≤ i
  ends_low i beyond = elim (dec_lt i (length h.low)) [
    | yes p ↦
        let (a, e) = get_elem?-some vs i (omega (arith, sizes)) in
        absurd (
          omega
            (arith, beyond a e, get-low (λ x. x ≤ℤ v) h.low h.high i a h.up_to (whole_at i a e) p))
    | no n ↦ omega arith
  ]

  abbrev pub Even : Type 0
  Even = (length h.high ≤ length h.low) × (length h.low ≤ length h.high + 2)

  pub halves_even : IsStrict vs → Middle vs v → Even
  halves_even s (odd k n at_k) =
      let low = stands_low k v at_k (omega arith) in
      let high = ends_low (k + 1) (λ a e. strict_lt vs k (k + 1) v a s at_k e (omega arith)) in
      (omega (arith, sizes), omega (arith, sizes))
  halves_even s (even k a b n at_k at_next half_a ha hv) =
      let (av, vb) =
        IsHalf-between a b half_a v ha hv
          (strict_lt vs k (k + 1) a b s at_k at_next (omega arith)) in
      let low = stands_low k a at_k av in
      let high = ends_low (k + 2) (λ c at_c.
        let bc = strict_lt vs (k + 1) (k + 2) b c s at_next at_c (omega arith) in
        omega (arith, vb, bc)) in
      (omega (arith, sizes), omega (arith, sizes))

-- Where `split` leads: to the halves at the value that `getMedianVal` computes.
abbrev pub SplitsAtMedian : List ℤ → Outcome (ℤ × Treap × Treap) → Type 0
SplitsAtMedian vs run = (v : ℤ) × Middle vs v × Splits v vs run

-- The same, with halves of nearly the same size.
abbrev pub SplitsEvenly : List ℤ → Outcome (ℤ × Treap × Treap) → Type 0
SplitsEvenly vs run =
    (v : ℤ) × (l r : Treap) × (run ≡ ok (v, l, r))
    × Halves v vs l r
    × (r.size ≤ l.size)
    × (l.size ≤ r.size + 2)

module _ (draws_left draws_right : ℕ → ℤ) (drawn_left : (a : ℕ) → int_min <ℤ draws_left a)
    (drawn_right : (a : ℕ) → int_min <ℤ draws_right a) (t : Treap) (vs : List ℤ)
    (sound : Sound t vs) (pos : 0 < length vs) where
  -- `split` of a well-formed treap that is not empty, all weights above that of the control node,
  -- returns a value and two such treaps: the left one holds the first values, those up to that value,
  -- and the right one the others, which are larger. The value is the one in the middle of the sorted
  -- values if their number is odd. If it is even, and `a` and `b` are the two in the middle, it is half
  -- of `2 * h + b`, rounded towards zero, where `h` is half of `a`, rounded towards zero.
  pub split_lem : SplitsAtMedian vs (split draws_left draws_right t)
  split_lem =
      let (v, run, m) = get_median_val_lem t vs sound.0 pos in
      (v, m, split_at_value draws_left draws_right drawn_left drawn_right v t vs sound pos run)

  -- `split` of a well-formed treap that is not empty, all weights above that of the control node, and
  -- in which no two values are equal, returns two treaps at a limit: the left one holds the values up
  -- to it, the right one the others. The right one has at most as many values as the left one, and the
  -- left one at most two more than the right one.
  pub split_even : IsStrict vs → SplitsEvenly vs (split draws_left draws_right t)
  split_even strict =
      let (v, m, (l, r, run, h)) = split_lem in
      let (a, b) = halves_even v vs l r h strict m in
      let left = size-Represents l h.low h.left.0 in
      let right = size-Represents r h.high h.right.0 in (v, l, r, run, h, omega arith, omega arith)
