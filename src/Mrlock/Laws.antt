-- ===== src/Mrlock/Laws.antt =====
-- What the search of mrlocktree.cpp finds.
use lock_free_search_tree.Base.{
  ◌≡◌, sym, ap, ◌∙◌, inl, inr, Bool, true, false, List, ◌++◌, Bool-cases, leb_ℤ, ◌≤ℤ◌, ◌<ℤ◌, ℤ, All,
  Outcome, ok,
}
use lock_free_search_tree.Base.Sorted.{member}
use lock_free_search_tree.Base.Sides.{goes_left, goes_right}
use lock_free_search_tree.Treap.Model.{Represents}
use lock_free_search_tree.Treap.Find.{contains-member}
use lock_free_search_tree.Mrlock.{Node, base, route, lookup}

-- The tree holds the values `vs`, from left to right: those on the left of a route value are not larger
-- than it, and those on its right are larger.
abbrev pub Holds : Node → List ℤ → Type 0
Holds (base t) vs = Represents t vs
Holds (route v l r) vs =
    (xs ys : List ℤ) × (vs ≡ xs ++ ys)
    × Holds l xs
    × Holds r ys
    × All (λ x. x ≤ℤ v) xs
    × All (λ y. v <ℤ y) ys

abbrev choose : Bool → ℤ → (l r : Node) → Outcome Bool
unfolding lookup
choose b val l r = elim b [ true ↦ lookup val l | false ↦ lookup val r ]

lookup-route :
    (val v : ℤ) (l r : Node) (b : Bool)
    → leb_ℤ val v ≡ b
    → lookup val (route v l r) ≡ choose b val l r
unfolding lookup
lookup-route val v l r b e = ap (λ c. choose c val l r) e

-- In a tree that holds the values `vs` and keeps its routes in order, `lookup` returns whether the
-- value is one of them.
pub lookup-member :
    (val : ℤ) (n : Node) (vs : List ℤ) → Holds n vs → lookup val n ≡ ok (member val vs)
unfolding lookup
lookup-member val (base t) vs h = contains-member t vs val h
lookup-member val (route v l r) vs (xs, ys, e, hl, hr, below, above) =
    elim (Bool-cases (leb_ℤ val v)) [
      | inl b ↦
          lookup-route val v l r true b
          ∙ lookup-member val l xs hl
          ∙ ap ok (goes_left val v xs ys b above ∙ ap (member val) (sym e))
      | inr b ↦
          lookup-route val v l r false b
          ∙ lookup-member val r ys hr
          ∙ ap ok (goes_right val v xs ys b below ∙ ap (member val) (sym e))
    ]
