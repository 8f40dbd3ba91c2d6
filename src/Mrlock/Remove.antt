-- ===== src/Mrlock/Remove.antt =====
-- `remove` of mrlocktree.cpp: small siblings are merged.
use lock_free_search_tree.Base.{
  ℕ, ◌+◌, ◌≤◌, ◌≡◌, refl, sym, ap, ◌∙◌, inl, inr, Bool, true, false, List, ◌++◌, arith, Bool-cases,
  leb, leb_ℤ, leb_ℤ→≤ℤ, ◌≤ℤ◌, ◌<ℤ◌, ℤ, int_min, length-append, Outcome, ◌>>=◌, ok,
}
use lock_free_search_tree.Base.Sorted.{
  member, member_below, remove_first, remove_first-left, remove_first-right, remove_first-All,
  length-remove_first, IsSorted-concat,
}
use lock_free_search_tree.Treap.State.{Treap, assign}
use lock_free_search_tree.Treap.Ops.{remove, immutable_remove, get_size}
use lock_free_search_tree.Treap.Bulk.{merge}
use lock_free_search_tree.Treap.Model.{size-Represents, Represents-IsSorted}
use lock_free_search_tree.Treap.Weights.{remove-Sound}
use lock_free_search_tree.Treap.Merging.{merge_lem}
use lock_free_search_tree.Mrlock.{
  Node, base, route, is_base, treap_merge_threshold, merge_if_small, merge_at_parent,
}
use lock_free_search_tree.Mrlock as mrlock
use lock_free_search_tree.Mrlock.Laws.{Holds}
use lock_free_search_tree.Base.Sides.{none_above, goes_left, goes_right}
use lock_free_search_tree.Mrlock.Insert.{Heavy, Spacious}

immutable_remove_lem : (v : ℤ) (t : Treap) → immutable_remove v t ≡ remove v t
unfolding immutable_remove assign
immutable_remove_lem v t = refl

-- Where the merge leads: to the same values.
abbrev Settles : List ℤ → Node → Outcome Node → Type 0
Settles ws n run = (m : Node) × (run ≡ ok m) × Holds m ws × Heavy m × (Spacious n → Spacious m)

-- Where `remove` leads.
abbrev pub Drops : ℤ → List ℤ → Node → Outcome (Bool × Node) → Type 0
Drops val vs n run =
    (m : Node) × (run ≡ ok (member val vs, m))
    × Holds m (remove_first val vs)
    × Heavy m
    × (Spacious n → Spacious m)

module _ (draws : ℕ → ℤ) (drawn : (a : ℕ) → int_min <ℤ draws a) where
  stays :
      (v : ℤ) (l r : Node) (ws : List ℤ)
      → Holds (route v l r) ws
      → Heavy (route v l r)
      → Settles ws (route v l r) (ok (route v l r))
  stays v l r ws h heavy = (route v l r, refl, h, heavy, λ s. s)

  merged_run :
      (v : ℤ) (s t u : Treap)
      → leb (s.size + t.size) treap_merge_threshold ≡ true
      → merge draws s t ≡ ok u
      → merge_if_small draws v (base s) (base t) ≡ ok (base u)
  unfolding merge_if_small get_size
  merged_run v s t u e run = rw (e, run)

  apart_run :
      (v : ℤ) (s t : Treap)
      → leb (s.size + t.size) treap_merge_threshold ≡ false
      → merge_if_small draws v (base s) (base t) ≡ ok (route v (base s) (base t))
  unfolding merge_if_small get_size
  apart_run v s t e = rw e

  le_of_leb : (n : ℕ) → leb n 32 ≡ true → n ≤ 32
  le_of_leb n e = ground arith

  merge_bases :
      (v : ℤ) (s t : Treap) (ws : List ℤ)
      → Holds (route v (base s) (base t)) ws
      → Heavy (route v (base s) (base t))
      → Settles ws (route v (base s) (base t)) (merge_if_small draws v (base s) (base t))
  merge_bases v s t ws (xs, ys, e, hs, ht, low, high) (ws', wt) =
      elim (Bool-cases (leb (s.size + t.size) 32)) [
        | inl small ↦
            let left = size-Represents s xs hs in
            let right = size-Represents t ys ht in
            let small' : s.size + t.size ≤ 32 = le_of_leb (s.size + t.size) small in
            let (u, run, sound) = merge_lem draws drawn s t xs ys hs ht (omega arith) (
              IsSorted-concat v xs ys (Represents-IsSorted s xs hs) (Represents-IsSorted t ys ht)
                low high) in
            (
              base u,
              merged_run v s t u small run,
              rw (sym e) at sound.0,
              sound.1,
              λ room. omega (arith, size-Represents u (xs ++ ys) sound.0, length-append {0} xs ys),
            )
        | inr large ↦
            rw (apart_run v s t large)
              (stays v (base s) (base t) ws (xs, ys, e, hs, ht, low, high) (ws', wt))
      ]

  settle :
      (v : ℤ) (l r : Node) (ws : List ℤ)
      → Holds (route v l r) ws
      → Heavy (route v l r)
      → Settles ws (route v l r) (merge_if_small draws v l r)
  unfolding merge_if_small
  settle v (base s) (base t) ws h heavy = merge_bases v s t ws h heavy
  settle v (base s) (route x a b) ws h heavy = stays v (base s) (route x a b) ws h heavy
  settle v (route x a b) r ws h heavy = stays v (route x a b) r ws h heavy

  settle_at :
      (b : Bool) (v : ℤ) (l r : Node) (ws : List ℤ)
      → Holds (route v l r) ws
      → Heavy (route v l r)
      → Settles ws (route v l r) (merge_at_parent b draws v l r)
  settle_at true v l r ws h heavy = settle v l r ws h heavy
  settle_at false v l r ws h heavy = stays v l r ws h heavy

  module _ (val : ℤ) where
    abbrev removes : Node → Outcome (Bool × Node)
    removes n = mrlock.remove draws val n

    choose : Bool → ℤ → (l r : Node) → Outcome (Bool × Node)
    unfolding mrlock.remove
    choose b v l r = elim b [
      | true ↦ do
        (success, m) ← removes l
        n ← merge_at_parent (is_base l) draws v m r
        ok (success, n)
      | false ↦ do
        (success, m) ← removes r
        n ← merge_at_parent (is_base r) draws v l m
        ok (success, n)
    ]

    remove-route :
        (v : ℤ) (l r : Node) (b : Bool) → leb_ℤ val v ≡ b → removes (route v l r) ≡ choose b v l r
    unfolding mrlock.remove choose
    remove-route v l r b e = ap (λ c. choose c v l r) e

    base_run :
        (t u : Treap) (b : Bool) → remove val t ≡ ok (b, u) → removes (base t) ≡ ok (b, base u)
    unfolding mrlock.remove
    base_run t u b run = rw (immutable_remove_lem val t, run)

    left_run :
        (v : ℤ) (l r m n : Node) (s : Bool)
        → leb_ℤ val v ≡ true
        → removes l ≡ ok (s, m)
        → merge_at_parent (is_base l) draws v m r ≡ ok n
        → removes (route v l r) ≡ ok (s, n)
    unfolding choose
    left_run v l r m n s e run run' = remove-route v l r true e ∙ rw (run, run')

    right_run :
        (v : ℤ) (l r m n : Node) (s : Bool)
        → leb_ℤ val v ≡ false
        → removes r ≡ ok (s, m)
        → merge_at_parent (is_base r) draws v l m ≡ ok n
        → removes (route v l r) ≡ ok (s, n)
    unfolding choose
    right_run v l r m n s e run run' = remove-route v l r false e ∙ rw (run, run')

    gt_of_leb : (v : ℤ) → leb_ℤ val v ≡ false → v <ℤ val
    gt_of_leb v e = ground arith

    remove-Drops : (n : Node) (vs : List ℤ) → Holds n vs → Heavy n → Drops val vs n (removes n)
    remove-Drops (base t) vs h heavy =
        let (u, run, sound) = remove-Sound val t vs (h, heavy) in
        (
          base u,
          base_run t u (member val vs) run,
          sound.0,
          sound.1,
          λ room. omega (
            arith,
            size-Represents t vs h,
            size-Represents u (remove_first val vs) sound.0,
            length-remove_first val vs,
          ),
        )
    remove-Drops (route v l r) vs (xs, ys, e, hl, hr, up_to, beyond) (heavy_l, heavy_r) =
        elim (Bool-cases (leb_ℤ val v)) [
          | inl b ↦
              let (m, run, holds, heavy, spacious) = remove-Drops l xs hl heavy_l in
              let e' : remove_first val vs ≡ remove_first val xs ++ ys =
                ap (remove_first val) e
                ∙ remove_first-left val xs ys (none_above val v ys (leb_ℤ→≤ℤ val v b) beyond) in
              let (n, run', settled_holds, settled_heavy, room_left) =
                settle_at (is_base l) v m r (remove_first val vs)
                  (
                    remove_first val xs,
                    ys,
                    e',
                    holds,
                    hr,
                    remove_first-All (λ x. x ≤ℤ v) val xs up_to,
                    beyond,
                  )
                  (heavy, heavy_r) in
              (
                n,
                left_run v l r m n (member val xs) b run run'
                    ∙ ap (λ s. ok (s, n))
                        (goes_left val v xs ys b beyond ∙ ap (member val) (sym e)),
                settled_holds,
                settled_heavy,
                λ room. room_left (spacious room.0, room.1),
              )
          | inr b ↦
              let (m, run, holds, heavy, spacious) = remove-Drops r ys hr heavy_r in
              let e' : remove_first val vs ≡ xs ++ remove_first val ys =
                ap (remove_first val) e
                ∙ remove_first-right val xs ys (member_below val v xs (gt_of_leb v b) up_to) in
              let (n, run', settled_holds, settled_heavy, room_left) =
                settle_at (is_base r) v l m (remove_first val vs)
                  (
                    xs,
                    remove_first val ys,
                    e',
                    hl,
                    holds,
                    up_to,
                    remove_first-All (λ y. v <ℤ y) val ys beyond,
                  )
                  (heavy_l, heavy) in
              (
                n,
                right_run v l r m n (member val ys) b run run'
                    ∙ ap (λ s. ok (s, n))
                        (goes_right val v xs ys b up_to ∙ ap (member val) (sym e)),
                settled_holds,
                settled_heavy,
                λ room. room_left (room.0, spacious room.1),
              )
        ]

-- In a tree that holds the values `vs`, with all weights above that of the control node, `remove`
-- returns whether the value is one of them, and the tree then holds them without the first occurrence
-- of that value. If no treap was full, none is.
pub remove-Holds :
    (draws : ℕ → ℤ)
    → ((a : ℕ) → int_min <ℤ draws a)
    → (val : ℤ) (n : Node) (vs : List ℤ) → Holds n vs
    → Heavy n
    → Drops val vs n (mrlock.remove draws val n)
remove-Holds draws drawn val n vs h heavy = remove-Drops draws drawn val n vs h heavy
