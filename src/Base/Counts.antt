-- ===== src/Base/Counts.antt =====
-- How often an integer stands in a list: lists of the same counts, and sorted ones.
use Prim.Native.Nat.{ℕ, ◌+◌, ◌<◌}
use mathlib.Core.Path.{◌≡◌, refl, ap, ◌∙◌}
use mathlib.Core.Logic.{inl, inr}
use mathlib.Core.List.{List, [], ◌∷◌, ◌++◌}
use native.Mathlib.Omega.{arith}
use lock_free_search_tree.Base.Tests.{if◌then◌else◌, Bool-cases}
use lock_free_search_tree.Base.Lists.{All}
use lock_free_search_tree.Base.Ints.{ℤ, eqb_ℤ, ◌≤ℤ◌, eq_of_parts}
use lock_free_search_tree.Base.Sorted.{IsSorted}

-- Whether two integers are equal, as a number.
abbrev pub hit : ℤ → ℤ → ℕ
hit v x = if eqb_ℤ x v then 1 else 0

abbrev pub times : ℤ → List ℤ → ℕ
times v [] = 0
times v (x ∷ xs) = hit v x + times v xs

pub hit_self : (v : ℤ) → hit v v ≡ 1
hit_self v = ground arith

pub times-append : (v : ℤ) (xs ys : List ℤ) → times v (xs ++ ys) ≡ times v xs + times v ys
times-append v [] ys = omega arith
times-append v (x ∷ xs) ys = omega (arith, times-append v xs ys)

-- What all elements have in common holds of a value that occurs.
hit_le : (y x v : ℤ) → 0 < hit v x → y ≤ℤ x → y ≤ℤ v
hit_le y x v h k = ground arith

le_of_times : (y v : ℤ) (xs : List ℤ) → All (λ x. y ≤ℤ x) xs → 0 < times v xs → y ≤ℤ v
le_of_times y v [] h p = absurd (omega arith)
le_of_times y v (x ∷ xs) h p = elim (Bool-cases (eqb_ℤ x v)) [
  | inl e ↦ hit_le y x v (rw e (omega arith)) h.0
  | inr e ↦ le_of_times y v xs h.1 (let q : 0 < 0 + times v xs = rw e at p in omega arith)
]

head_le : (y v : ℤ) (ys : List ℤ) → IsSorted (y ∷ ys) → 0 < times v (y ∷ ys) → y ≤ℤ v
head_le y v ys s p = le_of_times y v (y ∷ ys) (omega arith, s.0) p

-- Sorted lists of the same counts are equal.
pub sorted_unique :
    (xs ys : List ℤ) → IsSorted xs → IsSorted ys → ((v : ℤ) → times v xs ≡ times v ys) → xs ≡ ys
sorted_unique [] [] sx sy same = refl
sorted_unique [] (y ∷ ys) sx sy same = absurd (omega (arith, same y, hit_self y))
sorted_unique (x ∷ xs) [] sx sy same = absurd (omega (arith, same x, hit_self x))
sorted_unique (x ∷ xs) (y ∷ ys) sx sy same =
    let xy = head_le x y xs sx (omega (arith, same y, hit_self y)) in
    let yx = head_le y x ys sy (omega (arith, same x, hit_self x)) in
    let e : x ≡ y = eq_of_parts x y (omega (arith, xy, yx)) in
    ap (λ z. z ∷ xs) e
    ∙ ap (λ l. y ∷ l) (sorted_unique xs ys sx.1 sy.1 (λ v. omega (arith, same v, ap (hit v) e)))
