-- ===== src/Treap/Sorting.antt =====
-- `std::sort` on the values of the array: the sorted values that the treap holds.
use lock_free_search_tree.Base.{
  ℕ, zero, suc, ◌+◌, ◌<◌, ◌≡◌, refl, sym, ap, ◌∙◌, ◌⊎◌, inl, inr, List, [], ◌∷◌, ◌++◌, arith,
  Bool-cases, false, ℤ, ◌≤ℤ◌, leb_ℤ, leb_ℤ→≤ℤ, All,
}
use lock_free_search_tree.Base.Sorted.{IsSorted, All-imp}
use lock_free_search_tree.Base.Counts.{times, times-append, sorted_unique}
use lock_free_search_tree.Treap.State.{Treap}
use lock_free_search_tree.Treap.Bulk.{collect, insert_ordered, sort}
use lock_free_search_tree.Treap.Shape.{one, one_self, inorder}
use lock_free_search_tree.Treap.Values.{vals, vals-append, occurs, occurs-append, count-inorder}
use lock_free_search_tree.Treap.Model.{below, Represents}
use lock_free_search_tree.Treap.Graft.{within}

times-insert_ordered : (v w : ℤ) (xs : List ℤ) → times v (insert_ordered w xs) ≡ times v (w ∷ xs)
unfolding insert_ordered
times-insert_ordered v w [] = refl
times-insert_ordered v w (x ∷ xs) = elim (Bool-cases (leb_ℤ w x)) [
  | inl e ↦ rw e
  | inr e ↦ rw e (omega (arith, times-insert_ordered v w xs))
]

times-sort : (v : ℤ) (xs : List ℤ) → times v (sort xs) ≡ times v xs
unfolding sort
times-sort v [] = refl
times-sort v (x ∷ xs) = omega (arith, times-insert_ordered v x (sort xs), times-sort v xs)

All-insert_ordered :
    (P : ℤ → Type 0) (v : ℤ) (xs : List ℤ) → P v → All P xs → All P (insert_ordered v xs)
unfolding insert_ordered
All-insert_ordered P v [] p h = (p, tt)
All-insert_ordered P v (x ∷ xs) p h = elim (Bool-cases (leb_ℤ v x)) [
  | inl e ↦ rw e (p, h)
  | inr e ↦ rw e (h.0, All-insert_ordered P v xs p h.1)
]

le_of_not_le : (a b : ℤ) → leb_ℤ a b ≡ false → b ≤ℤ a
le_of_not_le a b h = ground arith

insert_ordered-IsSorted : (v : ℤ) (xs : List ℤ) → IsSorted xs → IsSorted (insert_ordered v xs)
unfolding insert_ordered
insert_ordered-IsSorted v [] h = (tt, tt)
insert_ordered-IsSorted v (x ∷ xs) h = elim (Bool-cases (leb_ℤ v x)) [
  | inl e ↦
      let le = leb_ℤ→≤ℤ v x e in
      rw e ((le, All-imp (λ z. x ≤ℤ z) (λ z. v ≤ℤ z) xs (λ z k. omega (arith, le)) h.0), h)
  | inr e ↦ rw e (
    All-insert_ordered (λ z. x ≤ℤ z) v xs (le_of_not_le v x e) h.0,
    insert_ordered-IsSorted v xs h.1,
  )
]

sort-IsSorted : (xs : List ℤ) → IsSorted (sort xs)
unfolding sort
sort-IsSorted [] = tt
sort-IsSorted (x ∷ xs) = insert_ordered-IsSorted x (sort xs) (sort-IsSorted xs)

-- The indices from `i` on.
abbrev indices : ℕ → ℕ → List ℕ
indices zero i = []
indices (suc n) i = i ∷ indices n (suc i)

collect-indices : (n i : ℕ) (t : Treap) → collect n i t ≡ vals t (indices n i)
unfolding collect
collect-indices zero i t = refl
collect-indices (suc n) i t = rw (collect-indices n (suc i) t)

within-suc : (i n a : ℕ) → one a i + within (suc i) n a ≡ within i (suc n) a
within-suc i n a = ground arith

occurs-indices : (a n i : ℕ) → occurs a (indices n i) ≡ within i n a
occurs-indices a zero i = ground arith
occurs-indices a (suc n) i = omega (arith, occurs-indices a n (suc i), within-suc i n a)

-- A list is taken apart at an index that occurs.
abbrev Apart : ℕ → List ℕ → Type 0
Apart k ks = (xs ys : List ℕ) × (ks ≡ xs ++ k ∷ ys)

occurs_cases : (k a m : ℕ) → 0 < one k a + m → (k ≡ a) ⊎ (0 < m)
occurs_cases k a m h = ground arith

apart : (k : ℕ) (ks : List ℕ) → 0 < occurs k ks → Apart k ks
apart k [] h = absurd (omega arith)
apart k (a ∷ ks) h = elim (occurs_cases k a (occurs k ks) h) [
  | inl e ↦ ([], ks, ap (λ z. z ∷ ks) (sym e))
  | inr p ↦ let (xs, ys, e) = apart k ks p in (a ∷ xs, ys, ap (λ l. a ∷ l) e)
]

-- Lists in which every index occurs equally often show every value equally often.
pub times_of_occurs :
    (t : Treap) (v : ℤ) (xs ys : List ℕ)
    → ((a : ℕ) → occurs a xs ≡ occurs a ys)
    → times v (vals t xs) ≡ times v (vals t ys)
times_of_occurs t v [] [] same = refl
times_of_occurs t v [] (y ∷ ys) same = absurd (omega (arith, same y, one_self y))
times_of_occurs t v (x ∷ xs) ys same =
    let (as', bs, e) = apart x ys (omega (arith, same x, one_self x)) in
    omega (
      arith,
      times_of_occurs t v xs (as' ++ bs) (λ a.
          omega
            (arith, same a, ap (occurs a) e, occurs-append a as' (x ∷ bs), occurs-append a as' bs)),
      ap (λ l. times v (vals t l)) e,
      ap (times v) (vals-append t as' (x ∷ bs)),
      times-append v (vals t as') (vals t (x ∷ bs)),
      ap (times v) (vals-append t as' bs),
      times-append v (vals t as') (vals t bs),
    )

-- The values of the array, sorted, are those that the treap holds.
pub sort-collect : (t : Treap) (vs : List ℤ) → Represents t vs → sort (collect t.size 0 t) ≡ vs
sort-collect t vs r =
    sorted_unique (sort (collect t.size 0 t)) (vals t (inorder r.tree))
      (sort-IsSorted (collect t.size 0 t)) r.is.sorted
      (λ v.
        times-sort v (collect t.size 0 t)
        ∙ ap (times v) (collect-indices t.size 0 t)
        ∙ times_of_occurs t v (indices t.size 0) (inorder r.tree) (λ a.
          occurs-indices a t.size 0
          ∙ within-below t.size a
          ∙ sym (r.is.exact a)
          ∙ count-inorder a r.tree))
    ∙ r.values
  where
    within-below : (n a : ℕ) → within 0 n a ≡ below a n
    within-below n a = ground arith
