-- ===== src/Treap/Median.antt =====
-- `getMedianVal` on the sorted values.
use lock_free_search_tree.Base.{
  ℕ, zero, suc, ◌+◌, ◌-◌, ◌*◌, ◌/◌, ◌%◌, ◌<◌, ◌≤◌, ◌≡◌, refl, ◌∙◌, ◌⊎◌, inl, inr, List, [], ◌∷◌,
  arith, true, false, Bool-cases, ◌==◌, some, ℤ, ◌≤ℤ◌, ◌<ℤ◌, ◌+ℤ◌, +ℤ_parts, pos, negsuc, pos_part,
  neg_part, half, get_elem?, length, Outcome, ok,
}
use lock_free_search_tree.Treap.State.{Treap}
use lock_free_search_tree.Treap.Bulk.{collect, sort, element, average, get_median_val}
use lock_free_search_tree.Treap.Model.{Represents, size-Represents}
use lock_free_search_tree.Treap.Sorting.{sort-collect}

pub get_elem?-some {ℓ} :
    {A : Type ℓ} (xs : List A) (i : ℕ) → i < length xs → (a : A) × (get_elem? xs i ≡ some a)
get_elem?-some [] i h = absurd (omega arith)
get_elem?-some (x ∷ xs) zero h = (x, refl)
get_elem?-some (x ∷ xs) (suc i) h = get_elem?-some xs i (omega arith)

-- `h` is half of `a`, rounded towards zero.
abbrev pub IsHalf : ℤ → ℤ → Type 0
IsHalf h a =
    (2 * pos_part h ≤ pos_part a)
    × (pos_part a ≤ 2 * pos_part h + 1)
    × (2 * neg_part h ≤ neg_part a)
    × (neg_part a ≤ 2 * neg_part h + 1)

half-IsHalf : (a : ℤ) → IsHalf (half a) a
unfolding half
half-IsHalf (pos n) = ground arith
half-IsHalf (negsuc n) = ground arith

-- What `getMedianVal` computes from sorted values: the value in the middle, or a value from the two in
-- the middle, `a` and `b`. Of these, `a` is first made even, by a rounding towards zero; half of the sum
-- with `b` is rounded towards zero again.
pub data Middle (vs : List ℤ) (v : ℤ) : Type 0 where
  odd : (k : ℕ) → length vs ≡ 2 * k + 1 → get_elem? vs k ≡ some v → Middle vs v
  even :
      (k : ℕ) (a b : ℤ)
      → length vs ≡ 2 * k + 2
      → get_elem? vs k ≡ some a
      → get_elem? vs (k + 1) ≡ some b
      → (h : ℤ) → IsHalf h a
      → IsHalf v (h +ℤ h +ℤ b)
      → Middle vs v

average-IsHalf : (a b : ℤ) → IsHalf (average a b) (half a +ℤ half a +ℤ b)
unfolding average
average-IsHalf a b = half-IsHalf (half a +ℤ half a +ℤ b)

element-some : (vs : List ℤ) (i : ℕ) (v : ℤ) → get_elem? vs i ≡ some v → element vs i ≡ ok v
element-some vs i v e = rw (element, e)

median_odd :
    (t : Treap) (vs : List ℤ) (k : ℕ) (v : ℤ)
    → sort (collect t.size 0 t) ≡ vs
    → t.size ≡ 2 * k + 1
    → get_elem? vs k ≡ some v
    → get_median_val t ≡ ok v
unfolding get_median_val
median_odd t vs k v same e at_k =
    let not_zero : (t.size == 0) ≡ false = ground arith in
    let not_even : (t.size % 2 == 0) ≡ false = ground arith in
    let half_size : t.size / 2 ≡ k = omega arith in
    rw (not_zero, not_even, same, half_size, element-some vs k v at_k)

median_even :
    (t : Treap) (vs : List ℤ) (k : ℕ) (a b : ℤ)
    → sort (collect t.size 0 t) ≡ vs
    → t.size ≡ 2 * k + 2
    → get_elem? vs k ≡ some a
    → get_elem? vs (k + 1) ≡ some b
    → get_median_val t ≡ ok (average a b)
unfolding get_median_val
median_even t vs k a b same e at_k at_next =
    let not_zero : (t.size == 0) ≡ false = ground arith in
    let is_even : (t.size % 2 == 0) ≡ true = ground arith in
    let half_size : t.size / 2 ≡ k + 1 = omega arith in
    let before : k + 1 - 1 ≡ k = omega arith in
    rw (
      not_zero,
      is_even,
      same,
      half_size,
      before,
      element-some vs k a at_k,
      element-some vs (k + 1) b at_next,
    )

parity : (n : ℕ) → 0 < n → ((k : ℕ) × (n ≡ 2 * k + 1)) ⊎ ((k : ℕ) × (n ≡ 2 * k + 2))
parity n h = elim (Bool-cases (n % 2 == 1)) [
  | inl e ↦ inl (n / 2, ground arith)
  | inr e ↦ inr (n / 2 - 1, ground arith)
]

abbrev pub FindsMiddle : List ℤ → Outcome ℤ → Type 0
FindsMiddle vs run = (v : ℤ) × (run ≡ ok v) × Middle vs v

-- On a well-formed treap that is not empty, `getMedianVal` returns the value in the middle of the
-- sorted values if their number is odd. If it is even, and `a` and `b` are the two in the middle, it
-- returns half of `2 * h + b`, rounded towards zero, where `h` is half of `a`, rounded towards zero:
-- for 3 and 3 that is 2, not their average.
pub get_median_val_lem :
    (t : Treap) (vs : List ℤ) → Represents t vs → 0 < length vs → FindsMiddle vs (get_median_val t)
get_median_val_lem t vs r not_empty =
    let same = sort-collect t vs r in
    let size = size-Represents t vs r in
    elim (parity (length vs) not_empty) [
      | inl (k, e) ↦
          let (v, at_k) = get_elem?-some vs k (omega arith) in
          (v, median_odd t vs k v same (size ∙ e) at_k, odd k e at_k)
      | inr (k, e) ↦
          let (a, at_k) = get_elem?-some vs k (omega arith) in
          let (b, at_next) = get_elem?-some vs (k + 1) (omega arith) in
          (
            average a b,
            median_even t vs k a b same (size ∙ e) at_k at_next,
            even k a b e at_k at_next (half a) (half-IsHalf a) (average-IsHalf a b),
          )
    ]

-- Between different integers `a` and `b` the value that is computed stays.
parts_between :
    (a b h s v : ℤ)
    → pos_part s + neg_part h + neg_part h + neg_part b
      ≡ neg_part s + pos_part h + pos_part h + pos_part b
    → IsHalf h a
    → IsHalf v s
    → a <ℤ b
    → (a ≤ℤ v) × (v ≤ℤ b)
parts_between a b h s v e (p, q, p', q') (x, y, x', y') lt = (ground arith, ground arith)

sum_parts :
    (h b : ℤ)
    → pos_part (h +ℤ h +ℤ b) + neg_part h + neg_part h + neg_part b
      ≡ neg_part (h +ℤ h +ℤ b) + pos_part h + pos_part h + pos_part b
sum_parts h b = omega (arith, +ℤ_parts h h, +ℤ_parts (h +ℤ h) b)

pub IsHalf-between :
    (a b h v : ℤ) → IsHalf h a → IsHalf v (h +ℤ h +ℤ b) → a <ℤ b → (a ≤ℤ v) × (v ≤ℤ b)
IsHalf-between a b h v ha hv lt = parts_between a b h (h +ℤ h +ℤ b) v (sum_parts h b) ha hv lt
