-- ===== src/Base/Sorted.antt =====
-- Sorted lists of integers: what the treaps promise, and the reference for their operations.
use lock_free_search_tree.Base.{
  suc, ◌≡◌, refl, sym, ap, ◌∙◌, eq_of_parts, inl, inr, Bool, true, false, ◌&&◌, ◌||◌, List, [], ◌∷◌,
  ◌++◌, arith, if◌then◌else◌, Bool-cases, ℤ, ◌≤ℤ◌, ◌<ℤ◌, ltb_ℤ, leb_ℤ, eqb_ℤ, All, length, ◌≤◌,
}

abbrev pub IsSorted : List ℤ → Type 0
IsSorted [] = Unit
IsSorted (x ∷ xs) = All (λ y. x ≤ℤ y) xs × IsSorted xs

-- Insertion behind the values that are not larger.
unfoldable pub insert_sorted : ℤ → List ℤ → List ℤ
insert_sorted v [] = v ∷ []
insert_sorted v (x ∷ xs) = if ltb_ℤ v x then v ∷ x ∷ xs else x ∷ insert_sorted v xs

-- Whether a value stands in a list.
unfoldable pub member : ℤ → List ℤ → Bool
member v [] = false
member v (x ∷ xs) = eqb_ℤ x v || member v xs

-- The list without the first occurrence of a value.
unfoldable pub remove_first : ℤ → List ℤ → List ℤ
remove_first v [] = []
remove_first v (x ∷ xs) = if eqb_ℤ x v then xs else x ∷ remove_first v xs

-- The values of a list from `low` to `high`.
unfoldable pub between : ℤ → ℤ → List ℤ → List ℤ
between low high [] = []
between low high (x ∷ xs) =
    if leb_ℤ low x && leb_ℤ x high then x ∷ between low high xs else between low high xs

pub All-append {ℓ κ} :
    {A : Type ℓ} (P : A → Type κ) (xs ys : List A) → All P xs → All P ys → All P (xs ++ ys)
All-append P [] ys hx hy = hy
All-append P (x ∷ xs) ys hx hy = (hx.0, All-append P xs ys hx.1 hy)

pub All-split {ℓ κ} :
    {A : Type ℓ} (P : A → Type κ) (xs ys : List A) → All P (xs ++ ys) → All P xs × All P ys
All-split P [] ys h = (tt, h)
All-split P (x ∷ xs) ys h = let (a, b) = All-split P xs ys h.1 in ((h.0, a), b)

pub All-imp {ℓ κ μ} :
    {A : Type ℓ} (P : A → Type κ) (Q : A → Type μ) (xs : List A)
    → ((a : A) → P a → Q a)
    → All P xs
    → All Q xs
All-imp P Q [] f h = tt
All-imp P Q (x ∷ xs) f h = (f x h.0, All-imp P Q xs f h.1)

-- A sorted list is taken apart at an element.
pub IsSorted-split :
    (xs : List ℤ) (y : ℤ) (ys : List ℤ)
    → IsSorted (xs ++ y ∷ ys)
    → IsSorted xs × IsSorted ys × All (λ x. x ≤ℤ y) xs × All (λ z. y ≤ℤ z) ys
IsSorted-split [] y ys h = (tt, h.1, tt, h.0)
IsSorted-split (x ∷ xs) y ys h =
    let (a, b, c, d) = IsSorted-split xs y ys h.1 in
    let (below, above) = All-split (λ z. x ≤ℤ z) xs (y ∷ ys) h.0 in ((below, a), b, (above.0, c), d)

pub IsSorted-join :
    (xs : List ℤ) (y : ℤ) (ys : List ℤ)
    → IsSorted xs
    → IsSorted ys
    → All (λ x. x ≤ℤ y) xs
    → All (λ z. y ≤ℤ z) ys
    → IsSorted (xs ++ y ∷ ys)
IsSorted-join [] y ys a b c d = (d, b)
IsSorted-join (x ∷ xs) y ys a b c d = (
  All-append (λ z. x ≤ℤ z) xs (y ∷ ys) a.0
      (c.0, All-imp (λ z. y ≤ℤ z) (λ z. x ≤ℤ z) ys (λ z h. omega (arith, c.0)) d),
  IsSorted-join xs y ys a.1 b c.1 d,
)

pub IsSorted-append : (xs ys : List ℤ) → IsSorted (xs ++ ys) → IsSorted xs × IsSorted ys
IsSorted-append [] ys h = (tt, h)
IsSorted-append (x ∷ xs) ys h =
    let (a, b) = IsSorted-append xs ys h.1 in (((All-split (λ z. x ≤ℤ z) xs ys h.0).0, a), b)

lt_false : (a b : ℤ) → b ≤ℤ a → ltb_ℤ a b ≡ false
lt_false a b h = ground arith

lt_true : (a b : ℤ) → a <ℤ b → ltb_ℤ a b ≡ true
lt_true a b h = ground arith

insert_sorted_front : (v : ℤ) (ys : List ℤ) → All (λ y. v <ℤ y) ys → insert_sorted v ys ≡ v ∷ ys
unfolding insert_sorted
insert_sorted_front v [] h = refl
insert_sorted_front v (y ∷ ys) h = rw (lt_true v y h.0)

-- Where a value is inserted.
pub insert_sorted-append :
    (v : ℤ) (xs ys : List ℤ)
    → All (λ x. x ≤ℤ v) xs
    → All (λ y. v <ℤ y) ys
    → insert_sorted v (xs ++ ys) ≡ xs ++ v ∷ ys
unfolding insert_sorted
insert_sorted-append v [] ys h k = insert_sorted_front v ys k
insert_sorted-append v (x ∷ xs) ys h k = rw (lt_false v x h.0, insert_sorted-append v xs ys h.1 k)

pub insert_sorted-All :
    (P : ℤ → Type 0) (v : ℤ) (xs : List ℤ) → P v → All P xs → All P (insert_sorted v xs)
unfolding insert_sorted
insert_sorted-All P v [] p h = (p, tt)
insert_sorted-All P v (x ∷ xs) p h = elim (Bool-cases (ltb_ℤ v x)) [
  | inl e ↦ rw e (p, h)
  | inr e ↦ rw e (h.0, insert_sorted-All P v xs p h.1)
]

-- A value that belongs on one side of a list is inserted there.
pub insert_sorted-left :
    (v : ℤ) (xs ys : List ℤ)
    → All (λ y. v <ℤ y) ys
    → insert_sorted v (xs ++ ys) ≡ insert_sorted v xs ++ ys
unfolding insert_sorted
insert_sorted-left v [] ys h = insert_sorted_front v ys h
insert_sorted-left v (x ∷ xs) ys h = elim (Bool-cases (ltb_ℤ v x)) [
  | inl e ↦ rw e
  | inr e ↦ rw e (ap (λ l. x ∷ l) (insert_sorted-left v xs ys h))
]

pub insert_sorted-right :
    (v : ℤ) (xs ys : List ℤ)
    → All (λ x. x ≤ℤ v) xs
    → insert_sorted v (xs ++ ys) ≡ xs ++ insert_sorted v ys
unfolding insert_sorted
insert_sorted-right v [] ys h = refl
insert_sorted-right v (x ∷ xs) ys h =
    rw (lt_false v x h.0) (ap (λ l. x ∷ l) (insert_sorted-right v xs ys h.1))

le_of_lt : (a b : ℤ) → ltb_ℤ a b ≡ true → a ≤ℤ b
le_of_lt a b h = ground arith

le_of_not_lt : (a b : ℤ) → ltb_ℤ a b ≡ false → b ≤ℤ a
le_of_not_lt a b h = ground arith

-- Insertion keeps a list sorted.
pub insert_sorted-IsSorted : (v : ℤ) (xs : List ℤ) → IsSorted xs → IsSorted (insert_sorted v xs)
unfolding insert_sorted
insert_sorted-IsSorted v [] h = (tt, tt)
insert_sorted-IsSorted v (x ∷ xs) h = elim (Bool-cases (ltb_ℤ v x)) [
  | inl e ↦
      let le = le_of_lt v x e in
      rw e ((le, All-imp (λ z. x ≤ℤ z) (λ z. v ≤ℤ z) xs (λ z k. omega (arith, le)) h.0), h)
  | inr e ↦ rw e (
    insert_sorted-All (λ z. x ≤ℤ z) v xs (le_of_not_lt v x e) h.0,
    insert_sorted-IsSorted v xs h.1,
  )
]

pub length-insert_sorted : (v : ℤ) (xs : List ℤ) → length (insert_sorted v xs) ≡ suc (length xs)
unfolding insert_sorted
length-insert_sorted v [] = refl
length-insert_sorted v (x ∷ xs) = elim (Bool-cases (ltb_ℤ v x)) [
  | inl e ↦ rw e
  | inr e ↦ rw e (ap suc (length-insert_sorted v xs))
]

pub member-append : (v : ℤ) (xs ys : List ℤ) → member v (xs ++ ys) ≡ (member v xs || member v ys)
unfolding member
member-append v [] ys = refl
member-append v (x ∷ xs) ys = ground (arith, member-append v xs ys)

-- A value beyond all values of a list does not stand in it.
pub member_above : (v y : ℤ) (zs : List ℤ) → v <ℤ y → All (λ z. y ≤ℤ z) zs → member v zs ≡ false
unfolding member
member_above v y [] h a = refl
member_above v y (z ∷ zs) h a =
    let apart : eqb_ℤ z v ≡ false = ne_of_lt v y z h a.0 in rw apart (member_above v y zs h a.1)
  where
    ne_of_lt : (v y z : ℤ) → v <ℤ y → y ≤ℤ z → eqb_ℤ z v ≡ false
    ne_of_lt v y z h k = ground arith

pub member_below : (v y : ℤ) (zs : List ℤ) → y <ℤ v → All (λ z. z ≤ℤ y) zs → member v zs ≡ false
unfolding member
member_below v y [] h a = refl
member_below v y (z ∷ zs) h a =
    let apart : eqb_ℤ z v ≡ false = ne_of_lt v y z h a.0 in rw apart (member_below v y zs h a.1)
  where
    ne_of_lt : (v y z : ℤ) → y <ℤ v → z ≤ℤ y → eqb_ℤ z v ≡ false
    ne_of_lt v y z h k = ground arith

pub member_mid :
    (v : ℤ) (xs : List ℤ) (y : ℤ) (ys : List ℤ) → eqb_ℤ y v ≡ true → member v (xs ++ y ∷ ys) ≡ true
unfolding member
member_mid v [] y ys e = rw e
member_mid v (x ∷ xs) y ys e = ground (arith, member_mid v xs y ys e)

-- Equal values may change places.
shift_equal :
    (xs : List ℤ) (y : ℤ) (ys : List ℤ)
    → All (λ x. x ≤ℤ y) xs
    → All (λ x. y ≤ℤ x) xs
    → xs ++ y ∷ ys ≡ y ∷ (xs ++ ys)
shift_equal [] y ys h k = refl
shift_equal (x ∷ xs) y ys h k =
    let same : x ≡ y = eq_of_parts x y (omega (arith, h.0, k.0)) in
    rw (shift_equal xs y ys h.1 k.1, same)

parts_of_test : (a b : ℤ) → eqb_ℤ a b ≡ true → (a ≤ℤ b) × (b ≤ℤ a)
parts_of_test a b h = (ground arith, ground arith)

-- In a sorted list it does not matter which occurrence of a value goes.
pub remove_first-mid :
    (v : ℤ) (xs : List ℤ) (y : ℤ) (ys : List ℤ)
    → eqb_ℤ y v ≡ true
    → IsSorted (xs ++ y ∷ ys)
    → remove_first v (xs ++ y ∷ ys) ≡ xs ++ ys
unfolding remove_first
remove_first-mid v [] y ys e s = rw e
remove_first-mid v (x ∷ xs) y ys e s = elim (Bool-cases (eqb_ℤ x v)) [
  | inl d ↦
      let (low, rest) = All-split (λ z. x ≤ℤ z) xs (y ∷ ys) s.0 in
      let (xv, vx) = parts_of_test x v d in
      let (yv, vy) = parts_of_test y v e in
      let same : x ≡ y = eq_of_parts x y (omega arith) in
      let (_, _, below, _) = IsSorted-split xs y ys s.1 in
      rw d (
        shift_equal xs y ys below
          (All-imp (λ z. x ≤ℤ z) (λ z. y ≤ℤ z) xs (λ z k. omega (arith, yv, vx)) low)
        ∙ ap (λ z. z ∷ (xs ++ ys)) (sym same))
  | inr d ↦ rw d (ap (λ l. x ∷ l) (remove_first-mid v xs y ys e s.1))
]

pub remove_first-not_member : (v : ℤ) (xs : List ℤ) → member v xs ≡ false → remove_first v xs ≡ xs
unfolding remove_first member
remove_first-not_member v [] h = refl
remove_first-not_member v (x ∷ xs) h = ground (arith, remove_first-not_member v xs)

pub IsSorted-remove_mid :
    (xs : List ℤ) (y : ℤ) (ys : List ℤ) → IsSorted (xs ++ y ∷ ys) → IsSorted (xs ++ ys)
IsSorted-remove_mid [] y ys s = s.1
IsSorted-remove_mid (x ∷ xs) y ys s =
    let (low, rest) = All-split (λ z. x ≤ℤ z) xs (y ∷ ys) s.0 in
    (All-append (λ z. x ≤ℤ z) xs ys low rest.1, IsSorted-remove_mid xs y ys s.1)

pub remove_first-left :
    (v : ℤ) (xs ys : List ℤ)
    → member v ys ≡ false
    → remove_first v (xs ++ ys) ≡ remove_first v xs ++ ys
unfolding remove_first
remove_first-left v [] ys h = remove_first-not_member v ys h
remove_first-left v (x ∷ xs) ys h = elim (Bool-cases (eqb_ℤ x v)) [
  | inl e ↦ rw e
  | inr e ↦ rw e (ap (λ l. x ∷ l) (remove_first-left v xs ys h))
]

pub remove_first-right :
    (v : ℤ) (xs ys : List ℤ)
    → member v xs ≡ false
    → remove_first v (xs ++ ys) ≡ xs ++ remove_first v ys
unfolding remove_first member
remove_first-right v [] ys h = refl
remove_first-right v (x ∷ xs) ys h = ground (arith, remove_first-right v xs ys)

pub remove_first-All : (P : ℤ → Type 0) (v : ℤ) (xs : List ℤ) → All P xs → All P (remove_first v xs)
unfolding remove_first
remove_first-All P v [] h = tt
remove_first-All P v (x ∷ xs) h = elim (Bool-cases (eqb_ℤ x v)) [
  | inl e ↦ rw e h.1
  | inr e ↦ rw e (h.0, remove_first-All P v xs h.1)
]

pub length-remove_first : (v : ℤ) (xs : List ℤ) → length (remove_first v xs) ≤ length xs
unfolding remove_first
length-remove_first v [] = omega arith
length-remove_first v (x ∷ xs) = ground (arith, length-remove_first v xs)

-- Sorted lists, the second beyond a limit that the first does not pass.
pub IsSorted-concat :
    (v : ℤ) (xs ys : List ℤ)
    → IsSorted xs
    → IsSorted ys
    → All (λ x. x ≤ℤ v) xs
    → All (λ y. v <ℤ y) ys
    → IsSorted (xs ++ ys)
IsSorted-concat v [] ys sx sy low high = sy
IsSorted-concat v (x ∷ xs) ys sx sy low high = (
  All-append (λ z. x ≤ℤ z) xs ys sx.0
      (All-imp (λ z. v <ℤ z) (λ z. x ≤ℤ z) ys (λ z k. omega (arith, low.0)) high),
  IsSorted-concat v xs ys sx.1 sy low.1 high,
)
