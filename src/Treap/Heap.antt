-- ===== src/Treap/Heap.antt =====
-- The order of the weights of treap.cpp: no node is lighter than its parent. `moveUp` restores it above
-- a node that may be too light.
use lock_free_search_tree.Base.{ℕ, ◌+◌, ◌<◌, ◌≡◌, arith, ℤ, ◌≤ℤ◌}
use lock_free_search_tree.Treap.State.{Treap}
use lock_free_search_tree.Treap.Shape.{
  Tree, leaf, node, Ctx, top, in_left, in_right, plug, count, count_ctx, one_self,
}

abbrev pub weight_of : Treap → ℕ → ℤ
weight_of t a = (t.nodes a).weight

-- The root of the tree, if it has one, is not lighter than `k`.
abbrev pub Over : (ℕ → ℤ) → ℕ → Tree → Type 0
Over w k leaf = Unit
Over w k (node l j r) = w k ≤ℤ w j

-- No node of the tree is lighter than its parent.
abbrev pub IsHeap : (ℕ → ℤ) → Tree → Type 0
IsHeap w leaf = Unit
IsHeap w (node l k r) = Over w k l × Over w k r × IsHeap w l × IsHeap w r

-- The root of a tree in the hole is not lighter than the node above the hole.
abbrev pub Below : (ℕ → ℤ) → Ctx → Tree → Type 0
Below w top x = Unit
Below w (in_left k r c) x = Over w k x
Below w (in_right l k c) x = Over w k x

-- No node around the hole is lighter than its parent.
abbrev pub IsHeapCtx : (ℕ → ℤ) → Ctx → Type 0
IsHeapCtx w top = Unit
IsHeapCtx w (in_left k r c) = Over w k r × IsHeap w r × Below w c (node leaf k leaf) × IsHeapCtx w c
IsHeapCtx w (in_right l k c) =
    Over w k l × IsHeap w l × Below w c (node leaf k leaf) × IsHeapCtx w c

-- The node in focus may be lighter than its parent, but no other node is.
abbrev pub Rising : (ℕ → ℤ) → Ctx → Tree → Tree → Type 0
Rising w c l r = IsHeapCtx w c × Below w c l × Below w c r

-- Without the node in focus, no node is lighter than the one above it.
abbrev pub Sinking : (ℕ → ℤ) → Ctx → Tree → Tree → Type 0
Sinking w c l r = Rising w c l r × IsHeap w l × IsHeap w r

module _ (w : ℕ → ℤ) where
  pub Over-trans : (j k : ℕ) (x : Tree) → w j ≤ℤ w k → Over w k x → Over w j x
  Over-trans j k leaf h o = tt
  Over-trans j k (node l i r) h o = omega (arith, h, o)

  pub Below-trans :
      (c : Ctx) (k : ℕ) (x : Tree) → Below w c (node leaf k leaf) → Over w k x → Below w c x
  Below-trans top k x h o = tt
  Below-trans (in_left j r c) k x h o = Over-trans j k x h o
  Below-trans (in_right l j c) k x h o = Over-trans j k x h o

  -- The root of a tree alone counts.
  pub Below-root :
      (c : Ctx) (k : ℕ) (l r l' r' : Tree) → Below w c (node l k r) → Below w c (node l' k r')
  Below-root top k l r l' r' h = tt
  Below-root (in_left j s c) k l r l' r' h = h
  Below-root (in_right s j c) k l r l' r' h = h

  pub plug-IsHeap :
      (c : Ctx) (x : Tree) → IsHeapCtx w c → IsHeap w x → Below w c x → IsHeap w (plug c x)
  plug-IsHeap top x hc h b = h
  plug-IsHeap (in_left k r c) x (o, hr, up, hc) h b =
      plug-IsHeap c (node x k r) hc (b, o, h, hr) (Below-root c k leaf leaf x r up)
  plug-IsHeap (in_right l k c) x (o, hl, up, hc) h b =
      plug-IsHeap c (node l k x) hc (o, b, hl, h) (Below-root c k leaf leaf l x up)

  pub open-IsHeap :
      (c : Ctx) (x : Tree) → IsHeap w (plug c x) → IsHeapCtx w c × IsHeap w x × Below w c x
  open-IsHeap top x h = (tt, h, tt)
  open-IsHeap (in_left k r c) x h =
      let (hc, (b, o, hx, hr), up) = open-IsHeap c (node x k r) h in
      ((o, hr, Below-root c k x r leaf leaf up, hc), hx, b)
  open-IsHeap (in_right l k c) x h =
      let (hc, (o, b, hl, hx), up) = open-IsHeap c (node l k x) h in
      ((o, hl, Below-root c k l x leaf leaf up, hc), hx, b)

  -- A rotation raises the node `i`, which is lighter than its parent `k`.
  pub rise_left :
      (c : Ctx) (l : Tree) (i : ℕ) (r : Tree) (k : ℕ) (s : Tree)
      → Rising w (in_left k s c) l r
      → IsHeap w (node l i r)
      → w i ≤ℤ w k
      → Rising w c l (node r k s) × IsHeap w (node l i (node r k s))
  rise_left c l i r k s ((o, hs, up, hc), bl, br) (ol, _, hl, hr) lt = (
    (hc, Below-trans c k l up bl, Below-root c k leaf leaf r s up),
    (ol, lt, hl, (br, o, hr, hs)),
  )

  pub rise_right :
      (c : Ctx) (l : Tree) (i : ℕ) (r : Tree) (k : ℕ) (s : Tree)
      → Rising w (in_right s k c) l r
      → IsHeap w (node l i r)
      → w i ≤ℤ w k
      → Rising w c (node s k l) r × IsHeap w (node (node s k l) i r)
  rise_right c l i r k s ((o, hs, up, hc), bl, br) (_, or, hl, hr) lt = (
    (hc, Below-root c k leaf leaf s l up, Below-trans c k r up br),
    (lt, or, (o, bl, hs, hl), hr),
  )

  pub Below-leaf : (c : Ctx) → Below w c leaf
  Below-leaf top = tt
  Below-leaf (in_left k r c) = tt
  Below-leaf (in_right l k c) = tt

  -- A rotation sinks the node `i` below its child `j`, which is not heavier than the other one.
  pub sink_right_heap :
      (c : Ctx) (a : Tree) (j : ℕ) (b r : Tree)
      → Sinking w c (node a j b) r
      → Over w j r
      → Sinking w (in_right a j c) b r
  sink_right_heap c a j b r ((hc, up, _), (oa, ob, ha, hb), hr) chosen =
      (((oa, ha, Below-root c j a b leaf leaf up, hc), ob, chosen), hb, hr)

  pub sink_left_heap :
      (c : Ctx) (l a : Tree) (j : ℕ) (b : Tree)
      → Sinking w c l (node a j b)
      → Over w j l
      → Sinking w (in_left j b c) l a
  sink_left_heap c l a j b ((hc, _, up), hl, (oa, ob, ha, hb)) chosen =
      (((ob, hb, Below-root c j a b leaf leaf up, hc), chosen, oa), hl, ha)

  -- In a heap any node can be taken out of the order.
  pub open-Sinking :
      (c : Ctx) (l : Tree) (i : ℕ) (r : Tree) → IsHeap w (plug c (node l i r)) → Sinking w c l r
  open-Sinking c l i r h =
      let (hc, (ol, or, hl, hr), up) = open-IsHeap c (node l i r) h in
      let above = Below-root c i l r leaf leaf up in
      ((hc, Below-trans c i l above ol, Below-trans c i r above or), hl, hr)

-- The weights of the indices in the tree matter alone.
Over-frame :
    (w w' : ℕ → ℤ) (k k' : ℕ) (x : Tree)
    → w' k' ≡ w k
    → ((a : ℕ) → 0 < count a x → w' a ≡ w a)
    → Over w k x
    → Over w' k' x
Over-frame w w' k k' leaf e same h = tt
Over-frame w w' k k' (node l j r) e same h =
    let e' : w' j ≡ w j = same j (omega (arith, one_self j)) in rw (e, e') h

pub IsHeap-same :
    (w w' : ℕ → ℤ) (x : Tree) → ((a : ℕ) → 0 < count a x → w' a ≡ w a) → IsHeap w x → IsHeap w' x
IsHeap-same w w' leaf same h = tt
IsHeap-same w w' (node l k r) same (ol, or, hl, hr) =
    let e : w' k ≡ w k = same k (omega (arith, one_self k)) in
    (
      Over-frame w w' k k l e (λ a p. same a (omega (arith, p))) ol,
      Over-frame w w' k k r e (λ a p. same a (omega (arith, p))) or,
      IsHeap-same w w' l (λ a p. same a (omega (arith, p))) hl,
      IsHeap-same w w' r (λ a p. same a (omega (arith, p))) hr,
    )

IsHeap-frame :
    (w w' : ℕ → ℤ) (k k' : ℕ) (l r : Tree)
    → w' k' ≡ w k
    → ((a : ℕ) → 0 < count a l + count a r → w' a ≡ w a)
    → IsHeap w (node l k r)
    → IsHeap w' (node l k' r)
IsHeap-frame w w' k k' l r e same (ol, or, hl, hr) = (
  Over-frame w w' k k' l e (λ a p. same a (omega (arith, p))) ol,
  Over-frame w w' k k' r e (λ a p. same a (omega (arith, p))) or,
  IsHeap-same w w' l (λ a p. same a (omega (arith, p))) hl,
  IsHeap-same w w' r (λ a p. same a (omega (arith, p))) hr,
)

pub Below-frame :
    (w w' : ℕ → ℤ) (c : Ctx) (l : Tree) (k k' : ℕ) (r : Tree)
    → w' k' ≡ w k
    → ((a : ℕ) → 0 < count_ctx a c → w' a ≡ w a)
    → Below w c (node l k r)
    → Below w' c (node l k' r)
Below-frame w w' top l k k' r e same h = tt
Below-frame w w' (in_left j s c) l k k' r e same h =
    let e' : w' j ≡ w j = same j (omega (arith, one_self j)) in rw (e, e') h
Below-frame w w' (in_right s j c) l k k' r e same h =
    let e' : w' j ≡ w j = same j (omega (arith, one_self j)) in rw (e, e') h

pub IsHeapCtx-frame :
    (w w' : ℕ → ℤ) (c : Ctx)
    → ((a : ℕ) → 0 < count_ctx a c → w' a ≡ w a)
    → IsHeapCtx w c
    → IsHeapCtx w' c
IsHeapCtx-frame w w' top same h = tt
IsHeapCtx-frame w w' (in_left k r c) same (o, hr, up, hc) =
    let e : w' k ≡ w k = same k (omega (arith, one_self k)) in
    (
      Over-frame w w' k k r e (λ a p. same a (omega (arith, p))) o,
      IsHeap-same w w' r (λ a p. same a (omega (arith, p))) hr,
      Below-frame w w' c leaf k k leaf e (λ a p. same a (omega (arith, p))) up,
      IsHeapCtx-frame w w' c (λ a p. same a (omega (arith, p))) hc,
    )
IsHeapCtx-frame w w' (in_right l k c) same (o, hl, up, hc) =
    let e : w' k ≡ w k = same k (omega (arith, one_self k)) in
    (
      Over-frame w w' k k l e (λ a p. same a (omega (arith, p))) o,
      IsHeap-same w w' l (λ a p. same a (omega (arith, p))) hl,
      Below-frame w w' c leaf k k leaf e (λ a p. same a (omega (arith, p))) up,
      IsHeapCtx-frame w w' c (λ a p. same a (omega (arith, p))) hc,
    )

-- A node of the tree moves to another index, and takes its weight along.
pub renamed-IsHeap :
    (w w' : ℕ → ℤ) (c : Ctx) (l : Tree) (k k' : ℕ) (r : Tree)
    → w' k' ≡ w k
    → ((a : ℕ) → 0 < count_ctx a c + (count a l + count a r) → w' a ≡ w a)
    → IsHeap w (plug c (node l k r))
    → IsHeap w' (plug c (node l k' r))
renamed-IsHeap w w' c l k k' r e same h =
    let (hc, hx, up) = open-IsHeap w c (node l k r) h in
    plug-IsHeap w' c (node l k' r) (IsHeapCtx-frame w w' c (λ a p. same a (omega (arith, p))) hc)
      (IsHeap-frame w w' k k' l r e (λ a p. same a (omega (arith, p))) hx)
      (Below-frame w w' c l k k' r e (λ a p. same a (omega (arith, p))) up)
