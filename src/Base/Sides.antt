-- ===== src/Base/Sides.antt =====
-- Lists in two parts at a limit: a value is a member of the part on its side of the limit.
use mathlib.Core.Path.{◌≡◌, refl, sym}
use mathlib.Core.Bool.{Bool, true, false, ◌||◌}
use mathlib.Core.List.{List, [], ◌∷◌, ◌++◌}
use native.Mathlib.Omega.{arith}
use lock_free_search_tree.Base.Lists.{All}
use lock_free_search_tree.Base.Ints.{ℤ, eqb_ℤ, leb_ℤ, leb_ℤ→≤ℤ, ◌≤ℤ◌, ◌<ℤ◌}
use lock_free_search_tree.Base.Sorted.{member, member-append, member_below}

or_false : (b : Bool) → (b || false) ≡ b
or_false true = refl
or_false false = refl

ne_of_lt : (a b y : ℤ) → a ≤ℤ b → b <ℤ y → eqb_ℤ y a ≡ false
ne_of_lt a b y h k = ground arith

pub none_above : (a b : ℤ) (ys : List ℤ) → a ≤ℤ b → All (λ y. b <ℤ y) ys → member a ys ≡ false
unfolding member
none_above a b [] h k = refl
none_above a b (y ∷ ys) h k =
    let apart : eqb_ℤ y a ≡ false = ne_of_lt a b y h k.0 in rw apart (none_above a b ys h k.1)

pub goes_left :
    (val v : ℤ) (xs ys : List ℤ)
    → leb_ℤ val v ≡ true
    → All (λ y. v <ℤ y) ys
    → member val xs ≡ member val (xs ++ ys)
goes_left val v xs ys h a = sym (
    rw (member-append val xs ys, none_above val v ys (leb_ℤ→≤ℤ val v h) a)
      (or_false (member val xs)))

pub goes_right :
    (val v : ℤ) (xs ys : List ℤ)
    → leb_ℤ val v ≡ false
    → All (λ x. x ≤ℤ v) xs
    → member val ys ≡ member val (xs ++ ys)
goes_right val v xs ys h a =
    sym (rw (member-append val xs ys, member_below val v xs (lt val v h) a))
  where
    lt : (a b : ℤ) → leb_ℤ a b ≡ false → b <ℤ a
    lt a b h = ground arith

lt_apart : (a y : ℤ) → y <ℤ a → eqb_ℤ y a ≡ false
lt_apart a y h = ground arith

pub none_below : (a : ℤ) (xs : List ℤ) → All (λ x. x <ℤ a) xs → member a xs ≡ false
unfolding member
none_below a [] h = refl
none_below a (x ∷ xs) h = let e : eqb_ℤ x a ≡ false = lt_apart a x h.0 in rw e (none_below a xs h.1)
