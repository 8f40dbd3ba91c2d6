-- ===== src/Lfca/Stats.antt =====
-- The statistics of the base nodes of lfca.cpp.
use lock_free_search_tree.Base.{
  leb_ℤ→≤ℤ, ◌⊎◌, inl, inr, ◌≡◌, pos, negsuc, ℤ, ◌≤ℤ◌, ◌+ℤ◌, +ℤ_parts, refl, arith, leb_ℤ,
  if◌then◌else◌, Bool, true, false,
}
use lock_free_search_tree.Lfca.Memory.{ContentionInfo, contended, uncontened, noinfo}
use lock_free_search_tree.Lfca.Access.{adjusted_stat, minus_range_contrib, high_cont, low_cont}

-- From LOW_CONT - LOW_CONT_CONTRIB - RANGE_CONTRIB up to HIGH_CONT + CONT_CONTRIB.
abbrev pub InBounds : ℤ → Type 0
InBounds stat = (negsuc 1100 ≤ℤ stat) × (stat ≤ℤ pos 1250)

pub zero-InBounds : InBounds (pos 0)
zero-InBounds = (omega arith, omega arith)

raised :
    (s a : ℤ)
    → InBounds s
    → s ≤ℤ pos 1000
    → (a ≡ pos 0) ⊎ (a ≡ negsuc 99)
    → InBounds ((s +ℤ pos 250) +ℤ a)
raised s a (l, u) h (inl e) = rw e (
  omega (arith, +ℤ_parts s (pos 250), +ℤ_parts (s +ℤ pos 250) (pos 0)),
  omega (arith, +ℤ_parts s (pos 250), +ℤ_parts (s +ℤ pos 250) (pos 0)),
)
raised s a (l, u) h (inr e) = rw e (
  omega (arith, +ℤ_parts s (pos 250), +ℤ_parts (s +ℤ pos 250) (negsuc 99)),
  omega (arith, +ℤ_parts s (pos 250), +ℤ_parts (s +ℤ pos 250) (negsuc 99)),
)

lowered :
    (s a : ℤ)
    → InBounds s
    → negsuc 999 ≤ℤ s
    → (a ≡ pos 0) ⊎ (a ≡ negsuc 99)
    → InBounds ((s +ℤ negsuc 0) +ℤ a)
lowered s a (l, u) h (inl e) = rw e (
  omega (arith, +ℤ_parts s (negsuc 0), +ℤ_parts (s +ℤ negsuc 0) (pos 0)),
  omega (arith, +ℤ_parts s (negsuc 0), +ℤ_parts (s +ℤ negsuc 0) (pos 0)),
)
lowered s a (l, u) h (inr e) = rw e (
  omega (arith, +ℤ_parts s (negsuc 0), +ℤ_parts (s +ℤ negsuc 0) (negsuc 99)),
  omega (arith, +ℤ_parts s (negsuc 0), +ℤ_parts (s +ℤ negsuc 0) (negsuc 99)),
)

when : (b : Bool) (x y : ℤ) → (b ≡ true → InBounds x) → InBounds y → InBounds (if b then x else y)
when true x y h k = h refl
when false x y h k = k

-- A statistic from -1101 to 1250 stays in these bounds, whatever the contention was and whether or not
-- the contribution of a range query is taken off.
pub adjusted_stat-InBounds :
    (stat : ℤ) (info : ContentionInfo) (sub : ℤ)
    → InBounds stat
    → (sub ≡ pos 0) ⊎ (sub ≡ minus_range_contrib)
    → InBounds (adjusted_stat stat info sub)
unfolding adjusted_stat
adjusted_stat-InBounds stat contended sub h o =
    when (leb_ℤ stat high_cont) _ stat (λ e. raised stat sub h (leb_ℤ→≤ℤ stat high_cont e) o) h
adjusted_stat-InBounds stat uncontened sub h o =
    when (leb_ℤ low_cont stat) _ stat (λ e. lowered stat sub h (leb_ℤ→≤ℤ low_cont stat e) o) h
adjusted_stat-InBounds stat noinfo sub h o = h
