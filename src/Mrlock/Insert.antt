-- ===== src/Mrlock/Insert.antt =====
-- `insert` of mrlocktree.cpp: a base node that becomes full is split.
use lock_free_search_tree.Base.{
  ℕ, ◌+◌, ◌≤◌, ◌<◌, ◌≡◌, refl, sym, ap, ◌∙◌, inl, inr, Bool, true, false, List, ◌++◌, arith,
  Bool-cases, if◌then◌else◌, leb, leb_ℤ, leb_ℤ→≤ℤ, ◌≤ℤ◌, ◌<ℤ◌, ℤ, int_min, length, length-append,
  Outcome, ◌>>=◌, ok, throw, out_of_range,
}
use lock_free_search_tree.Base.Sorted.{
  insert_sorted, insert_sorted-All, insert_sorted-left, insert_sorted-right, All-imp,
  length-insert_sorted,
}
use lock_free_search_tree.Treap.State.{treap_nodes, Treap, assign}
use lock_free_search_tree.Treap.Ops.{insert, immutable_insert, get_size}
use lock_free_search_tree.Treap.Bulk.{split}
use lock_free_search_tree.Treap.Model.{Weighted, Sound, size-Represents}
use lock_free_search_tree.Treap.Insert.{insert_full}
use lock_free_search_tree.Treap.Weights.{insert-Sound}
use lock_free_search_tree.Treap.Split.{Halves}
use lock_free_search_tree.Treap.Balance.{IsStrict, IsStrict-append, split_lem, halves_even}
use lock_free_search_tree.Mrlock.{Node, base, route, split_if_full}
use lock_free_search_tree.Mrlock as mrlock
use lock_free_search_tree.Mrlock.Laws.{Holds}

-- The weights in all treaps of the tree are above that of the control node.
abbrev pub Heavy : Node → Type 0
Heavy (base t) = Weighted t
Heavy (route v l r) = Heavy l × Heavy r

-- No treap of the tree is full.
abbrev pub Spacious : Node → Type 0
Spacious (base t) = t.size < treap_nodes
Spacious (route v l r) = Spacious l × Spacious r

-- The treap of the base node at which the search for a value ends.
abbrev pub target : ℤ → Node → Treap
target val (base t) = t
target val (route v l r) =
    let on_left = target val l in
    let on_right = target val r in if leb_ℤ val v then on_left else on_right

-- Where `insert` leads: the values, and, if none are equal, room in every treap.
abbrev pub Fills : List ℤ → Node → Outcome Node → Type 0
Fills ws n run =
    (m : Node) × (run ≡ ok m) × Holds m ws × Heavy m × (IsStrict ws → Spacious n → Spacious m)

immutable_insert_lem : (v w : ℤ) (t : Treap) → immutable_insert v w t ≡ insert v w t
unfolding immutable_insert assign
immutable_insert_lem v w t = refl

module _ (dl dr : ℕ → ℤ) (drawn_left : (a : ℕ) → int_min <ℤ dl a)
    (drawn_right : (a : ℕ) → int_min <ℤ dr a) where
  full_run :
      (t : Treap) (v : ℤ) (l r : Treap)
      → leb treap_nodes t.size ≡ true
      → split dl dr t ≡ ok (v, l, r)
      → split_if_full dl dr t ≡ ok (route v (base l) (base r))
  unfolding split_if_full get_size
  full_run t v l r e run = rw (e, run)

  roomy_run : (t : Treap) → leb treap_nodes t.size ≡ false → split_if_full dl dr t ≡ ok (base t)
  unfolding split_if_full get_size
  roomy_run t e = rw e

  le_of_leb : (n : ℕ) → leb treap_nodes n ≡ true → treap_nodes ≤ n
  le_of_leb n e = ground arith

  lt_of_leb : (n : ℕ) → leb treap_nodes n ≡ false → n < treap_nodes
  lt_of_leb n e = ground arith

  -- The halves of a full treap.
  pair-Holds :
      (v : ℤ) (ws : List ℤ) (l r : Treap)
      → Halves v ws l r
      → Holds (route v (base l) (base r)) ws × Heavy (route v (base l) (base r))
  pair-Holds v ws l r h =
      ((h.low, h.high, h.whole, h.left.0, h.right.0, h.up_to, h.beyond), (h.left.1, h.right.1))

  -- The base node at which the search has ended.
  fill :
      (ws : List ℤ) (n u : Treap)
      → Sound u ws
      → u.size ≡ n.size + 1
      → n.size < treap_nodes
      → Fills ws (base n) (split_if_full dl dr u)
  fill ws n u sound grown room = elim (Bool-cases (leb treap_nodes u.size)) [
    | inl e ↦
        let size = size-Represents u ws sound.0 in
        let (v, mid, (l, r, run, h)) =
          split_lem dl dr drawn_left drawn_right u ws sound (omega (arith, le_of_leb u.size e)) in
        let (holds, heavy) = pair-Holds v ws l r h in
        (
          route v (base l) (base r),
          full_run u v l r e run,
          holds,
          heavy,
          λ strict spacious.
              let (a, b) = halves_even v ws l r h strict mid in
              spread v ws l r h (omega (arith, size)) a b,
        )
    | inr e ↦ (base u, roomy_run u e, sound.0, sound.1, λ strict spacious. lt_of_leb u.size e)
  ]
    where
      spread :
          (v : ℤ) (ws : List ℤ) (l r : Treap) (h : Halves v ws l r)
          → length ws ≤ treap_nodes
          → length h.high ≤ length h.low
          → length h.low ≤ length h.high + 2
          → Spacious (route v (base l) (base r))
      spread v ws l r h fits a b =
          let total : length ws ≡ length h.low + length h.high =
            ap (λ (z : List ℤ). length z) h.whole ∙ length-append {0} h.low h.high in
          (
            omega (arith, size-Represents l h.low h.left.0),
            omega (arith, size-Represents r h.high h.right.0),
          )

  module _ (val weight : ℤ) (heavier : int_min <ℤ weight) where
    abbrev pub inserts : Node → Outcome Node
    inserts n = mrlock.insert dl dr val weight n

    base_run : (t u : Treap) → insert val weight t ≡ ok u → inserts (base t) ≡ split_if_full dl dr u
    unfolding mrlock.insert
    base_run t u run = rw (immutable_insert_lem val weight t, run)

    choose : Bool → ℤ → (l r : Node) → Outcome Node
    unfolding mrlock.insert
    choose b v l r = elim b [
      | true ↦ inserts l >>= (λ l. ok (route v l r))
      | false ↦ inserts r >>= (λ r. ok (route v l r))
    ]

    insert-route :
        (v : ℤ) (l r : Node) (b : Bool) → leb_ℤ val v ≡ b → inserts (route v l r) ≡ choose b v l r
    unfolding mrlock.insert choose
    insert-route v l r b e = ap (λ c. choose c v l r) e

    left_run :
        (v : ℤ) (l r m : Node)
        → leb_ℤ val v ≡ true
        → inserts l ≡ ok m
        → inserts (route v l r) ≡ ok (route v m r)
    unfolding choose
    left_run v l r m e run = insert-route v l r true e ∙ ap (λ o. o >>= (λ l. ok (route v l r))) run

    right_run :
        (v : ℤ) (l r m : Node)
        → leb_ℤ val v ≡ false
        → inserts r ≡ ok m
        → inserts (route v l r) ≡ ok (route v l m)
    unfolding choose
    right_run v l r m e run =
        insert-route v l r false e ∙ ap (λ o. o >>= (λ r. ok (route v l r))) run

    gt_of_leb : (v : ℤ) → leb_ℤ val v ≡ false → v <ℤ val
    gt_of_leb v e = ground arith

    pub insert-Fills :
        (n : Node) (vs : List ℤ)
        → Holds n vs
        → Heavy n
        → (target val n).size < treap_nodes
        → Fills (insert_sorted val vs) n (inserts n)
    insert-Fills (base t) vs h heavy room =
        let size = size-Represents t vs h in
        let (u, run, sound) = insert-Sound val weight t vs (h, heavy) heavier (omega arith) in
        let grown : u.size ≡ t.size + 1 =
          size-Represents u (insert_sorted val vs) sound.0
          ∙ length-insert_sorted val vs
          ∙ omega arith in
        rw (base_run t u run) (fill (insert_sorted val vs) t u sound grown room)
    insert-Fills (route v l r) vs (xs, ys, e, hl, hr, up_to, beyond) (heavy_l, heavy_r) room =
        elim (Bool-cases (leb_ℤ val v)) [
          | inl b ↦
              let le = leb_ℤ→≤ℤ val v b in
              let (m, run, holds, heavy, spacious) = insert-Fills l xs hl heavy_l (rw b at room) in
              let e' : insert_sorted val vs ≡ insert_sorted val xs ++ ys =
                ap (insert_sorted val) e
                ∙ insert_sorted-left val xs ys
                    (All-imp (λ y. v <ℤ y) (λ y. val <ℤ y) ys (λ y k. omega (arith, le)) beyond) in
              (
                route v m r,
                left_run v l r m b run,
                (
                  insert_sorted val xs,
                  ys,
                  e',
                  holds,
                  hr,
                  insert_sorted-All (λ x. x ≤ℤ v) val xs le up_to,
                  beyond,
                ),
                (heavy, heavy_r),
                λ strict room'. (
                  spacious (IsStrict-append (insert_sorted val xs) ys (rw e' at strict)).0 room'.0,
                  room'.1,
                ),
              )
          | inr b ↦
              let gt = gt_of_leb v b in
              let (m, run, holds, heavy, spacious) = insert-Fills r ys hr heavy_r (rw b at room) in
              let e' : insert_sorted val vs ≡ xs ++ insert_sorted val ys =
                ap (insert_sorted val) e
                ∙ insert_sorted-right val xs ys
                    (All-imp (λ x. x ≤ℤ v) (λ x. x ≤ℤ val) xs (λ x k. omega (arith, gt)) up_to) in
              (
                route v l m,
                right_run v l r m b run,
                (
                  xs,
                  insert_sorted val ys,
                  e',
                  hl,
                  holds,
                  up_to,
                  insert_sorted-All (λ y. v <ℤ y) val ys gt beyond,
                ),
                (heavy_l, heavy),
                λ strict room'. (
                  room'.0,
                  spacious (IsStrict-append xs (insert_sorted val ys) (rw e' at strict)).1 room'.1,
                ),
              )
        ]

    -- A full base node: the exception of its treap leaves `insert`.
    pub insert_throws :
        (n : Node) (vs : List ℤ)
        → Holds n vs
        → (target val n).size ≡ treap_nodes
        → inserts n ≡ throw out_of_range
    unfolding mrlock.insert choose
    insert_throws (base t) vs h full = rw (
      immutable_insert_lem val weight t,
      insert_full val weight t vs h (sym (size-Represents t vs h) ∙ full),
    )
    insert_throws (route v l r) vs (xs, ys, e, hl, hr, _, _) full =
        elim (Bool-cases (leb_ℤ val v)) [
          | inl b ↦
              insert-route v l r true b
              ∙ ap (λ o. o >>= (λ l. ok (route v l r))) (insert_throws l xs hl (rw b at full))
          | inr b ↦
              insert-route v l r false b
              ∙ ap (λ o. o >>= (λ r. ok (route v l r))) (insert_throws r ys hr (rw b at full))
        ]
