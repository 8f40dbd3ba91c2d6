-- ===== src/Lfca/Replace.antt =====
-- The search of lfca.cpp, and the tree with another base node where it ends.
use lock_free_search_tree.Base.{
  ℕ, zero, suc, ◌+◌, ◌≤◌, ◌<◌, ◌≡◌, ◌≢◌, refl, sym, ap, ◌∙◌, inl, inr, Bool, true, false, not,
  Bool-cases, some, List, ◌++◌, arith, ℤ, leb_ℤ, leb_ℤ→≤ℤ, ◌==◌, ◌≤ℤ◌, ◌<ℤ◌, All,
}
use lock_free_search_tree.Base.Sorted.{All-imp, member}
use lock_free_search_tree.Base.Sides.{goes_left, goes_right}
use lock_free_search_tree.Treap.State.{Treap, same_index}
use native.Mathlib.Decide.{ℕ_discrete}
use lock_free_search_tree.Treap.Shape.{one, one_self, ne_of}
use lock_free_search_tree.Treap.Model.{Represents}
use lock_free_search_tree.Lfca.Memory.{Ptr, Memory, Node, returns, run}
use lock_free_search_tree.Lfca.Access.{is_route}
use lock_free_search_tree.Lfca.Find.{find_base_node}
use lock_free_search_tree.Lfca.Layout.{Layout, base, route, height, child_of, Lays}
use lock_free_search_tree.Lfca.Alone.{put_child}
use lock_free_search_tree.Lfca.Lookup.{find_base, find_route}

-- How often an index stands in a tree.
abbrev pub count : ℕ → Layout → ℕ
count a (base i) = one a i
count a (route i l r) = count a l + one a i + count a r

-- The base nodes know their parents.
abbrev pub Parents : Memory → Ptr → Layout → Type 0
Parents m q (base i) = (m.nodes i).parent ≡ q
Parents m q (route i l r) = Parents m (some i) l × Parents m (some i) r

-- A change of a list at a value, which leaves alone what lies on one side of it.
pub record ChangesAt (i : ℤ) (g : List ℤ → List ℤ) : Type 1 where
  pub left : (xs ys : List ℤ) → All (λ y. i <ℤ y) ys → g (xs ++ ys) ≡ g xs ++ ys
  pub right : (xs ys : List ℤ) → All (λ x. x <ℤ i) xs → g (xs ++ ys) ≡ xs ++ g ys
  pub keeps : (P : ℤ → Type 0) (xs : List ℤ) → P i → All P xs → All P (g xs)

pub Lays-frame :
    (m n : Memory) (p : Ptr) (x : Layout) (vs : List ℤ)
    → ((a : ℕ) → 0 < count a x → n.nodes a ≡ m.nodes a)
    → Lays m p x vs
    → Lays n p x vs
Lays-frame m n p (base i) vs same (e, is, (t, at_i, held)) =
    let at = same i (omega (arith, one_self i)) in (e, rw at is, (t, rw at at_i, held))
Lays-frame m n p (route i l r) vs same (e, is, (xs, ys, whole, hl, hr, up_to, beyond)) =
    let at = same i (omega (arith, one_self i)) in
    (
      e,
      rw at is,
      (
        xs,
        ys,
        whole,
        rw at (Lays-frame m n (m.nodes i).left l xs (λ a h. same a (omega arith)) hl),
        rw at (Lays-frame m n (m.nodes i).right r ys (λ a h. same a (omega arith)) hr),
        rw at up_to,
        rw at beyond,
      ),
    )

pub Parents-frame :
    (m n : Memory) (q : Ptr) (x : Layout)
    → ((a : ℕ) → 0 < count a x → n.nodes a ≡ m.nodes a)
    → Parents m q x
    → Parents n q x
Parents-frame m n q (base i) same h = rw (same i (omega (arith, one_self i))) h
Parents-frame m n q (route i l r) same (hl, hr) = (
  Parents-frame m n (some i) l (λ a h. same a (omega arith)) hl,
  Parents-frame m n (some i) r (λ a h. same a (omega arith)) hr,
)

-- The tree `y`, which has come from `x` with the node `k`, stands behind the pointer `p`.
pub record Stands (n : Memory) (p q : Ptr) (x : Layout) (k : ℕ) (vs : List ℤ) : Type 0 where
  pub layout : Layout
  pub lays : Lays n p layout vs
  pub parents : Parents n q layout
  pub counts : (a : ℕ) → count a layout ≤ count a x + one a k

-- The pointer to a tree is to one of its nodes.
pub head_of :
    (m : Memory) (p : Ptr) (x : Layout) (vs : List ℤ)
    → Lays m p x vs
    → (a : ℕ) × (p ≡ some a) × (0 < count a x)
head_of m p (base i) vs h = (i, h.0, omega (arith, one_self i))
head_of m p (route i l r) vs h = (i, h.0, omega (arith, one_self i))

module _ (m : Memory) (i : ℤ) (g : List ℤ → List ℤ) (local : ChangesAt i g) where
  -- The search below one of the pointers of the node `s₀`, and what becomes of the tree there when the
  -- base node at its end is exchanged for the node `k`.
  pub record Descends (f s₀ : ℕ) (b₀ : Bool) (x : Layout) (vs : List ℤ) : Type 0 where
    pub goal : ℕ
    pub up : ℕ
    pub side : Bool
    pub found : run (find_base_node f (child_of b₀ (m.nodes s₀)) i) m ≡ returns (some goal) m
    pub inside : 0 < count up x + one up s₀
    pub goal_in : 0 < count goal x
    pub parent : (m.nodes goal).parent ≡ some up
    pub slot : child_of side (m.nodes up) ≡ some goal
    pub own : up ≡ s₀ → side ≡ b₀
    pub alone : side ≡ false → same_index (m.nodes up).left (some goal) ≡ false
    pub is_base : is_route (m.nodes goal).type ≡ false
    pub treap : Treap
    pub values : List ℤ
    pub at_goal : (m.nodes goal).treap ≡ some treap
    pub held : Represents treap values
    pub same : member i values ≡ member i vs
    pub relay :
        (n : Memory) (k : ℕ)
        → ((a : ℕ) → 0 < count a x + one a s₀ → a ≢ up → n.nodes a ≡ m.nodes a)
        → n.nodes up ≡ put_child side (some k) (m.nodes up)
        → Lays n (some k) (base k) (g values)
        → (n.nodes k).parent ≡ some up
        → Stands n (child_of b₀ (n.nodes s₀)) (some s₀) x k (g vs)

  child_put : (b : Bool) (p : Ptr) (n : Node) → child_of b (put_child b p n) ≡ p
  child_put true p n = refl
  child_put false p n = refl

  descend_base :
      (f s₀ : ℕ) (b₀ : Bool) (j : ℕ) (vs : List ℤ)
      → Lays m (child_of b₀ (m.nodes s₀)) (base j) vs
      → (m.nodes j).parent ≡ some s₀
      → (b₀ ≡ false → same_index (m.nodes s₀).left (some j) ≡ false)
      → Descends (suc f) s₀ b₀ (base j) vs
  descend_base f s₀ b₀ j vs (e, is, (t, at_j, held)) up other = record {
    goal = j;
    up = s₀;
    side = b₀;
    found = rw e (find_base m i f j is);
    inside = omega (arith, one_self s₀);
    goal_in = omega (arith, one_self j);
    parent = up;
    slot = e;
    own = λ e. refl;
    alone = other;
    is_base = is;
    treap = t;
    values = vs;
    at_goal = at_j;
    held = held;
    same = refl;
    relay = λ n k same put new parent. record {
      layout = base k;
      lays = rw (put, child_put b₀ (some k) (m.nodes s₀)) new;
      parents = parent;
      counts = λ a. omega arith;
    };
  }

  -- What a node that the search passes keeps: all but the pointer that the search took.
  abbrev pub Kept : (n : Memory) (j : ℕ) (b : Bool) → Type 0
  Kept n j b =
      ((n.nodes j).type ≡ (m.nodes j).type)
      × ((n.nodes j).key ≡ (m.nodes j).key)
      × (child_of (not b) (n.nodes j) ≡ child_of (not b) (m.nodes j))

  put_type : (b : Bool) (p : Ptr) (n : Node) → (put_child b p n).type ≡ n.type
  put_type true p n = refl
  put_type false p n = refl

  put_key : (b : Bool) (p : Ptr) (n : Node) → (put_child b p n).key ≡ n.key
  put_key true p n = refl
  put_key false p n = refl

  put_other :
      (b : Bool) (p : Ptr) (n : Node) → child_of (not b) (put_child b p n) ≡ child_of (not b) n
  put_other true p n = refl
  put_other false p n = refl

  pub kept :
      (n : Memory) (j k up : ℕ) (side b : Bool)
      → (up ≡ j → side ≡ b)
      → (j ≢ up → n.nodes j ≡ m.nodes j)
      → n.nodes up ≡ put_child side (some k) (m.nodes up)
      → Kept n j b
  kept n j k up side b own same put = elim (ℕ_discrete j up) [
    | yes e ↦
        let at : n.nodes j ≡ put_child b (some k) (m.nodes j) =
          ap n.nodes e ∙ put ∙ (rw (own (sym e), e)) in
        (
          ap (λ z. z.type) at ∙ put_type b (some k) (m.nodes j),
          ap (λ z. z.key) at ∙ put_key b (some k) (m.nodes j),
          ap (child_of (not b)) at ∙ put_other b (some k) (m.nodes j),
        )
    | no ne ↦
        let at = same ne in (ap (λ z. z.type) at, ap (λ z. z.key) at, ap (child_of (not b)) at)
  ]

  -- The tree below a node of the search, put together again.
  module _ (f j : ℕ) (l r : Layout) (vs xs ys : List ℤ) (is : is_route (m.nodes j).type ≡ true)
      (whole : vs ≡ xs ++ ys) (hl : Lays m (m.nodes j).left l xs)
      (hr : Lays m (m.nodes j).right r ys) (up_to : All (λ x. x ≤ℤ (m.nodes j).key) xs)
      (beyond : All (λ y. (m.nodes j).key <ℤ y) ys) (parents_l : Parents m (some j) l)
      (parents_r : Parents m (some j) r) (distinct : (a : ℕ) → count a (route j l r) ≤ 1) where
    abbrev pub Relays : (b : Bool) (z : Layout) (zs : List ℤ) → Descends f j b z zs → Type 0
    Relays b z zs d =
        (n : Memory) (k : ℕ)
        → ((a : ℕ) → 0 < count a (route j l r) → a ≢ d.up → n.nodes a ≡ m.nodes a)
        → Stands n (child_of b (n.nodes j)) (some j) z k (g zs)
        → Kept n j b
        → (q : Ptr) → Stands n (some j) q (route j l r) k (g vs)

    pub Relays-left :
        leb_ℤ i (m.nodes j).key ≡ true → (d : Descends f j true l xs) → Relays true l xs d
    Relays-left b d n k same left (type, key, other) q =
        let le = leb_ℤ→≤ℤ i (m.nodes j).key b in
        let frame : (a : ℕ) → 0 < count a r → n.nodes a ≡ m.nodes a = λ a h.
          same a (omega arith)
            (ne_of (λ c. count c r) a d.up h (omega (arith, d.inside, distinct d.up))) in
        let right = Lays-frame m n (m.nodes j).right r ys frame hr in
        record {
          layout = route j left.layout r;
          lays = (
            refl,
            rw type is,
            (
              g xs,
              ys,
              ap g whole
                  ∙ local.left xs ys (
                      All-imp (λ y. (m.nodes j).key <ℤ y) (λ y. i <ℤ y) ys
                        (λ y h. omega (arith, le)) beyond),
              left.lays,
              rw other right,
              rw key (local.keeps (λ x. x ≤ℤ (m.nodes j).key) xs le up_to),
              rw key beyond,
            ),
          );
          parents = (left.parents, Parents-frame m n (some j) r frame parents_r);
          counts = λ a. omega (arith, left.counts a);
        }

    pub gt_of_leb : (a b : ℤ) → leb_ℤ a b ≡ false → b <ℤ a
    gt_of_leb a b e = ground arith

    pub Relays-right :
        leb_ℤ i (m.nodes j).key ≡ false → (d : Descends f j false r ys) → Relays false r ys d
    Relays-right b d n k same right (type, key, other) q =
        let gt = gt_of_leb i (m.nodes j).key b in
        let frame : (a : ℕ) → 0 < count a l → n.nodes a ≡ m.nodes a = λ a h.
          same a (omega arith)
            (ne_of (λ c. count c l) a d.up h (omega (arith, d.inside, distinct d.up))) in
        let left = Lays-frame m n (m.nodes j).left l xs frame hl in
        record {
          layout = route j l right.layout;
          lays = (
            refl,
            rw type is,
            (
              xs,
              g ys,
              ap g whole
                  ∙ local.right xs ys (
                      All-imp (λ x. x ≤ℤ (m.nodes j).key) (λ x. x <ℤ i) xs
                        (λ x h. omega (arith, gt)) up_to),
              rw other left,
              right.lays,
              rw key up_to,
              rw key (local.keeps (λ y. (m.nodes j).key <ℤ y) ys gt beyond),
            ),
          );
          parents = (Parents-frame m n (some j) l frame parents_l, right.parents);
          counts = λ a. omega (arith, right.counts a);
        }

    module _ (s₀ : ℕ) (b₀ : Bool) (e : child_of b₀ (m.nodes s₀) ≡ some j)
        (apart_s₀ : (a : ℕ) → count a (route j l r) + one a s₀ ≤ 1) where
      -- The search has passed the node `j`.
      pass :
          (b : Bool) (z : Layout) (zs : List ℤ)
          → leb_ℤ i (m.nodes j).key ≡ b
          → ((a : ℕ) → count a z + one a j ≤ count a (route j l r))
          → member i zs ≡ member i vs
          → (d : Descends f j b z zs) → Relays b z zs d
          → Descends (suc f) s₀ b₀ (route j l r) vs
      pass b z zs test part known d relays =
          let outside : count s₀ (route j l r) ≡ 0 = omega (arith, apart_s₀ s₀, one_self s₀) in
          let up≢s₀ =
            ne_of (λ a. count a (route j l r)) d.up s₀ (omega (arith, d.inside, part d.up))
              outside in
          record {
            goal = d.goal;
            up = d.up;
            side = d.side;
            found = rw e (find_route m i f j b is test) ∙ d.found;
            inside = omega (arith, d.inside, part d.up);
            goal_in = omega (arith, d.goal_in, part d.goal);
            parent = d.parent;
            slot = d.slot;
            own = λ e. absurd (up≢s₀ e);
            alone = d.alone;
            is_base = d.is_base;
            treap = d.treap;
            values = d.values;
            at_goal = d.at_goal;
            held = d.held;
            same = d.same ∙ known;
            relay = λ n k same put new parent.
                let stays : n.nodes s₀ ≡ m.nodes s₀ =
                  same s₀ (omega (arith, one_self s₀)) (λ e. up≢s₀ (sym e)) in
                rw (stays, e)
                  (relays n k (λ a h ne. same a (omega arith) ne)
                    (d.relay n k (λ a h ne. same a (omega (arith, part a)) ne) put new parent)
                    (kept n j k d.up d.side b d.own (same j (omega (arith, one_self j))) put)
                    (some s₀));
          }

  apart : (a b : ℕ) → a ≢ b → (a == b) ≡ false
  apart a b ne = ground arith

  -- A node of the right subtree does not stand in the left pointer.
  pub left_apart :
      (j : ℕ) (l r : Layout) (xs : List ℤ) (a : ℕ)
      → Lays m (m.nodes j).left l xs
      → ((a : ℕ) → count a (route j l r) ≤ 1)
      → 0 < count a r
      → same_index (m.nodes j).left (some a) ≡ false
  left_apart j l r xs a h distinct there =
      let (c, e, in_l) = head_of m (m.nodes j).left l xs h in
      rw e (apart c a (ne_of (λ b. count b l) c a in_l (omega (arith, distinct a))))

  pub descend :
      (f s₀ : ℕ) (b₀ : Bool) (x : Layout) (vs : List ℤ)
      → Lays m (child_of b₀ (m.nodes s₀)) x vs
      → Parents m (some s₀) x
      → ((a : ℕ) → count a x + one a s₀ ≤ 1)
      → ((a : ℕ) → 0 < count a x → b₀ ≡ false → same_index (m.nodes s₀).left (some a) ≡ false)
      → height x ≤ f
      → Descends f s₀ b₀ x vs
  descend zero s₀ b₀ (base j) vs h up distinct other fuel = absurd (omega arith)
  descend zero s₀ b₀ (route j l r) vs h up distinct other fuel = absurd (omega arith)
  descend (suc f) s₀ b₀ (base j) vs h up distinct other fuel =
      descend_base f s₀ b₀ j vs h up (other j (omega (arith, one_self j)))
  descend (suc f) s₀ b₀ (route j l r) vs (e, is, (xs, ys, whole, hl, hr, low, high)) (ul, ur)
        distinct other fuel =
      elim (Bool-cases (leb_ℤ i (m.nodes j).key)) [
        | inl b ↦
            let d =
              descend f j true l xs hl ul (λ a. omega (arith, distinct a)) (λ a h e. absurd (cc))
                (omega arith) in
            pass f j l r vs xs ys is whole hl hr low high ul ur (λ a. omega (arith, distinct a)) s₀
              b₀ e distinct true l xs b (λ a. omega arith)
              (goes_left i (m.nodes j).key xs ys b high ∙ ap (member i) (sym whole)) d
              (Relays-left f j l r vs xs ys is whole hl hr low high ul ur
                (λ a. omega (arith, distinct a)) b d)
        | inr b ↦
            let d =
              descend f j false r ys hr ur (λ a. omega (arith, distinct a))
                (λ a h e. left_apart j l r xs a hl (λ a. omega (arith, distinct a)) h)
                (omega arith) in
            pass f j l r vs xs ys is whole hl hr low high ul ur (λ a. omega (arith, distinct a)) s₀
              b₀ e distinct false r ys b (λ a. omega arith)
              (goes_right i (m.nodes j).key xs ys b low ∙ ap (member i) (sym whole)) d
              (Relays-right f j l r vs xs ys is whole hl hr low high ul ur
                (λ a. omega (arith, distinct a)) b d)
      ]
