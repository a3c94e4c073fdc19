-- ===== src/Aggregator/Stats/Filter.antt =====
-- The outlier filter: what it keeps, that it never empties a list, and that the order of the
-- readings does not matter.
use mathlib.Core.List.Sublist
use argos_fx.Prelude.{
  ◌/◌, ◌%◌, ◌≡◌, ◌<◌, refl, Bool, true, false, List, [], ◌∷◌, arith, length, get_or, All, count_p,
  Perm, Sublist, if◌then◌else◌, ◌==◌, Bool-cases, ◌⊎◌, inl, inr, keep, length-keep, All-keep,
  keep-sublist, keep-perm, length-perm, count_p-pos, leb, ◌||◌, not,
}
use argos_fx.Prelude.Sort.{sort, length-sort, All-sort, sort-count}
use argos_fx.Float.{Double, IsIeee, IsRate, IsPositive, float_less}
use argos_fx.Aggregator.Stats.{middle, median, within, drop_outliers, filter_outliers}
use argos_fx.Aggregator.Stats.Bounds.{get_or-All, median-perm}

if-perm {ℓ} :
    {A : Type ℓ} (t : Bool) {ws xs ys zs : List A}
    → Perm ws xs
    → Perm ys zs
    → Perm (if t then ws else ys) (if t then xs else zs)
if-perm true p q = p
if-perm false p q = q

module _ {F : Type 0} ⦃d : Double F⦄ (values : List F) (tolerance : F) where
  abbrev kept : List F
  kept = keep (within (median values).0 tolerance) values

  -- The branches of the filter: all the values, or those within the tolerance, if there are any.
  filter_cases :
      (filter_outliers values tolerance ≡ values)
      ⊎ ((filter_outliers values tolerance ≡ kept) × (0 < length kept))
  unfolding filter_outliers drop_outliers
  filter_cases = elim (Bool-cases (leb (length values) 2 || d.le tolerance d.nought)) [
    | inl e ↦ inl (rw (e, if◌then◌else◌))
    | inr e ↦ elim (Bool-cases (not (median values).1 || d.eq (median values).0 d.nought)) [
      | inl f ↦ inl (rw (e, f, if◌then◌else◌))
      | inr f ↦ elim (Bool-cases (length kept == 0)) [
        | inl g ↦ inl (rw (e, f, g, if◌then◌else◌))
        | inr g ↦ inr (rw (e, f, g, if◌then◌else◌), ground arith)
      ]
    ]
  ]

  -- Of a list that is not empty the filter returns, on every branch, a part of the values in their
  -- order, and never drops all of them.
  pub filter_outliers-sublist :
      0 < length values
      → Sublist (filter_outliers values tolerance) values
        × (0 < length (filter_outliers values tolerance))
  filter_outliers-sublist some_values = elim filter_cases [
    | inl e ↦ rw e (Sublist.refl values, some_values)
    | inr (e, some_kept) ↦ rw e (keep-sublist _ values, some_kept)
  ]

  -- What holds of all the values holds of those that are kept.
  pub All-filter_outliers {κ} :
      (P : F → Type κ) → All P values → All P (filter_outliers values tolerance)
  All-filter_outliers P h = elim filter_cases [
    | inl e ↦ rw e h
    | inr (e, _) ↦ rw e (All-keep _ P values h)
  ]

module _ {F : Type 0} ⦃d : Double F⦄ (laws : IsIeee F) where
  open laws use {sub_self, abs-nought, nought-div, le-nought, eq_nought}

  -- A rate is within any positive tolerance of itself.
  within_self : (m tolerance : F) → IsRate m → IsPositive tolerance → within m tolerance m ≡ true
  unfolding within
  within_self m tolerance h p =
      rw (within, sub_self m h, abs-nought, nought-div m h) (le-nought tolerance p).0

  -- With an odd number of rates the median is one of them.
  middle_odd : (l : List F) → length l % 2 ≡ 1 → middle l ≡ get_or l (length l / 2) d.nought
  unfolding middle
  middle_odd l odd = ground arith

  median_nonempty : (l : List F) → 0 < length l → median l ≡ (middle (sort float_less l), true)
  unfolding median
  median_nonempty [] h = absurd (omega arith)
  median_nonempty (x ∷ xs) h = refl

  -- With an odd number of rates, three or more, and a positive tolerance, the filter keeps exactly
  -- the values within the tolerance of the median, and these are not none: the median is one of
  -- the values, so the loop never ends with an empty list.
  pub filter_outliers_odd :
      (values : List F) (tolerance : F)
      → All IsRate values
      → length values % 2 ≡ 1
      → 2 < length values
      → IsPositive tolerance
      → (filter_outliers values tolerance ≡ keep (within (median values).0 tolerance) values)
        × (0 < length (keep (within (median values).0 tolerance) values))
  unfolding filter_outliers drop_outliers
  filter_outliers_odd values tolerance h odd long p =
      let l = sort float_less values in
      let size : length l ≡ length values = length-sort float_less values in
      let m = get_or l (length l / 2) d.nought in
      let med : median values ≡ (m, true) =
        rw (median_nonempty values (omega arith), middle_odd l (rw size odd)) in
      let rate : IsRate m =
        get_or-All IsRate d.nought l (length l / 2) (All-sort float_less IsRate values h)
          (omega (arith, size)) in
      let there : 0 < count_p (within m tolerance) l =
        count_p-pos (within m tolerance) d.nought l (length l / 2) (omega (arith, size))
          (within_self m tolerance rate p) in
      let kept : 0 < length (keep (within m tolerance) values) = omega (
        arith,
        there,
        length-keep (within m tolerance) values,
        sort-count float_less (within m tolerance) values,
      ) in
      rw med (ground (arith, le-nought tolerance p, eq_nought m rate.0, kept), kept)

  -- Of positive values in another order the filter returns the same values, in some order.
  pub filter_outliers-perm :
      (xs ys : List F) (tolerance : F)
      → Perm xs ys
      → All IsPositive xs
      → Perm (filter_outliers xs tolerance) (filter_outliers ys tolerance)
  unfolding filter_outliers drop_outliers
  filter_outliers-perm xs ys tolerance p h =
      let test = within (median ys).0 tolerance in
      let kept = keep-perm test xs ys p in
      rw (length-perm xs ys p, median-perm laws xs ys p h, length-perm _ _ kept)
        (if-perm (leb (length ys) 2 || d.le tolerance d.nought) p (
          if-perm (not (median ys).1 || d.eq (median ys).0 d.nought) p
            (if-perm (length (keep test ys) == 0) p kept)))
