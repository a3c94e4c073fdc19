-- ===== src/Aggregator/Stats/Bounds.antt =====
-- The median against its defining property: it lies in the middle of the values, whatever their
-- order, and both of the indices that `Median` reads are in range.
use mathlib.Core.List.Perm
use argos_fx.Prelude.{
  ℕ, zero, suc, ◌+◌, ◌-◌, ◌*◌, ◌/◌, ◌%◌, ◌≡◌, ◌≤◌, ◌<◌, refl, true, List, [], ◌∷◌, arith, length,
  get_or, All, All-map_pred, count_p, Perm, if◌then◌else◌, ◌==◌, Bool-cases, inl, inr, ==_iff,
  IsSorted, IsSorted-map,
}
use argos_fx.Prelude.Sort.{sort, length-sort, All-sort, sort-count}
use argos_fx.Prelude.Sorted.{sort-IsSorted, sort_congr}
use argos_fx.Float.{Double, IsIeee, IsPositive, float_less, ◌≼◌, ◌≺◌}
use argos_fx.Float.Laws.{float_less-IsStrict, le_of_not_less}
use argos_fx.Aggregator.Stats.{middle, median}

module _ {ℓ κ} {A : Type ℓ} (P : A → Type κ) (dflt : A) where
  pub get_or-All : (l : List A) (i : ℕ) → All P l → i < length l → P (get_or l i dflt)
  get_or-All [] i _ h = absurd (omega arith)
  get_or-All (x ∷ xs) zero (p, _) h = p
  get_or-All (x ∷ xs) (suc i) (_, ps) h = get_or-All xs i ps (omega arith)

module _ {F : Type 0} ⦃d : Double F⦄ where
  -- A rate whose double does not overflow.
  abbrev pub IsModest : F → Type 0
  IsModest v = (d.nought ≺ v) × (v ≺ d.inf) × (d.add v v ≺ d.inf)

  abbrev Ascending : List F → Type 0
  Ascending = IsSorted ◌≼◌

module _ {F : Type 0} ⦃d : Double F⦄ (laws : IsIeee F) where
  open laws use {le_refl, le_trans, le-mid, mid-le}

  sort-Ascending : (xs : List F) → All IsModest xs → Ascending (sort float_less xs)
  sort-Ascending xs h =
      IsSorted-map (λ a b p q. le_of_not_less laws b a q.0 p.0) _
        (All-sort float_less IsModest xs h)
        (sort-IsSorted (float_less-IsStrict laws) xs (All-map_pred (λ v p. p.0) xs h))

  get_or_mono :
      (l : List F) (i j : ℕ)
      → Ascending l
      → All IsModest l
      → i ≤ j
      → j < length l
      → get_or l i d.nought ≼ get_or l j d.nought
  get_or_mono [] i j s h p q = absurd (omega arith)
  get_or_mono (x ∷ xs) zero zero s (h, _) p q = le_refl x h.0
  get_or_mono (x ∷ xs) zero (suc j) (b, _) h p q =
      get_or-All (λ v. x ≼ v) d.nought xs j b (omega arith)
  get_or_mono (x ∷ xs) (suc i) zero s h p q = absurd (omega arith)
  get_or_mono (x ∷ xs) (suc i) (suc j) (_, s) (_, h) p q =
      get_or_mono xs i j s h (omega arith) (omega arith)

  -- The middle value lies between the two places around the middle.
  middle_between :
      (l : List F)
      → Ascending l
      → All IsModest l
      → 0 < length l
      → (get_or l ((length l - 1) / 2) d.nought ≼ middle l)
        × (middle l ≼ get_or l (length l / 2) d.nought)
  unfolding middle
  middle_between l s h nonempty =
      let n = length l in
      let x = get_or l ((n - 1) / 2) d.nought in
      let y = get_or l (n / 2) d.nought in
      let p : IsModest x = get_or-All IsModest d.nought l ((n - 1) / 2) h (omega arith) in
      let q : IsModest y = get_or-All IsModest d.nought l (n / 2) h (omega arith) in
      let up : x ≼ y = get_or_mono l ((n - 1) / 2) (n / 2) s h (omega arith) (omega arith) in
      elim (Bool-cases (n % 2 == 0)) [
        | inl even ↦
            let places : (n - 1) / 2 ≡ n / 2 - 1 = omega (arith, (==_iff _ _).0 even) in
            rw (even, if◌then◌else◌, ← places)
              (le-mid x y (p.0, p.1) (q.0, q.1) up, mid-le x y (p.0, p.1) (q.0, q.1) up q.2)
        | inr odd ↦ rw (odd, if◌then◌else◌) (up, le_refl y q.0)
      ]

  count-le :
      (m : F) (l : List F) (i : ℕ)
      → Ascending l
      → i < length l
      → get_or l i d.nought ≼ m
      → i + 1 ≤ count_p (λ v. d.le v m) l
  count-le m [] i s p h = absurd (omega arith)
  count-le m (x ∷ xs) zero s p h = ground arith
  count-le m (x ∷ xs) (suc i) (b, s) p h = ground (
    arith,
    le_trans x (get_or xs i d.nought) m (get_or-All (λ v. x ≼ v) d.nought xs i b (omega arith)) h,
    count-le m xs i s,
  )

  count_below :
      (m x : F) (l : List F) → m ≼ x → All (λ v. x ≼ v) l → count_p (λ v. d.le m v) l ≡ length l
  count_below m x [] h _ = refl
  count_below m x (y ∷ l) h (k, ks) =
      rw (le_trans m x y h k) (omega (arith, count_below m x l h ks))

  count-ge :
      (m : F) (l : List F) (i : ℕ)
      → Ascending l
      → i < length l
      → m ≼ get_or l i d.nought
      → length l ≤ count_p (λ v. d.le m v) l + i
  count-ge m [] i s p h = absurd (omega arith)
  count-ge m (x ∷ xs) zero (b, s) p h = rw h (omega (arith, count_below m x xs h b))
  count-ge m (x ∷ xs) (suc i) (b, s) p h = omega (arith, count-ge m xs i s (omega arith) h)

  middle_counts :
      (l : List F)
      → Ascending l
      → All IsModest l
      → 0 < length l
      → (length l ≤ 2 * count_p (λ v. d.le v (middle l)) l)
        × (length l ≤ 2 * count_p (λ v. d.le (middle l) v) l)
  middle_counts l s h nonempty =
      let n = length l in
      let (low, high) = middle_between l s h nonempty in
      let below = count-le (middle l) l ((n - 1) / 2) s (omega arith) low in
      let above = count-ge (middle l) l (n / 2) s (omega arith) high in
      (omega (arith, below), omega (arith, above))

  -- Of a non-empty list of rates that do not overflow when doubled, at least half of the values are
  -- at most the median and at least half are at least the median.
  pub median_middle :
      (xs : List F)
      → All IsModest xs
      → 0 < length xs
      → ((median xs).1 ≡ true)
        × (length xs ≤ 2 * count_p (λ v. d.le v (median xs).0) xs)
        × (length xs ≤ 2 * count_p (λ v. d.le (median xs).0 v) xs)
  unfolding median
  median_middle [] h nonempty = absurd (omega arith)
  median_middle (x ∷ xs) h nonempty =
      let l = sort float_less (x ∷ xs) in
      let m = middle l in
      let size : length l ≡ suc (length xs) = length-sort float_less (x ∷ xs) in
      let (below, above) =
        middle_counts l (sort-Ascending (x ∷ xs) h) (All-sort float_less IsModest (x ∷ xs) h)
          (omega (arith, size)) in
      (
        refl,
        omega (arith, below, size, sort-count float_less (λ v. d.le v m) (x ∷ xs)),
        omega (arith, above, size, sort-count float_less (λ v. d.le m v) (x ∷ xs)),
      )

  -- The median of at least one rate, all between two bounds and none so large that its double
  -- overflows, lies between these bounds.
  pub median_bounds :
      (lo hi : F) (xs : List F)
      → All (λ v. IsModest v × (lo ≼ v) × (v ≼ hi)) xs
      → 0 < length xs
      → (lo ≼ (median xs).0) × ((median xs).0 ≼ hi)
  unfolding median
  median_bounds lo hi [] h nonempty = absurd (omega arith)
  median_bounds lo hi (x ∷ xs) h nonempty =
      let l = sort float_less (x ∷ xs) in
      let n = length l in
      let size : n ≡ suc (length xs) = length-sort float_less (x ∷ xs) in
      let modest : All IsModest (x ∷ xs) = All-map_pred (λ v p. p.0) (x ∷ xs) h in
      let in_bounds = λ (i : ℕ) (p : i < n).
        get_or-All (λ v. IsModest v × (lo ≼ v) × (v ≼ hi)) d.nought l i
          (All-sort float_less (λ v. IsModest v × (lo ≼ v) × (v ≼ hi)) (x ∷ xs) h) p in
      let (low, high) =
        middle_between l (sort-Ascending (x ∷ xs) modest)
          (All-sort float_less IsModest (x ∷ xs) modest) (omega (arith, size)) in
      (
        le_trans _ _ _ (in_bounds ((n - 1) / 2) (omega (arith, size))).1 low,
        le_trans _ _ _ high (in_bounds (n / 2) (omega (arith, size))).2,
      )

  -- The median of positive rates does not depend on their order.
  pub median-perm : (xs ys : List F) → Perm xs ys → All IsPositive xs → median xs ≡ median ys
  unfolding median
  median-perm [] [] p h = refl
  median-perm [] (y ∷ ys) p h = cc (Perm.nil-eq p)
  median-perm (x ∷ xs) [] p h = cc (Perm.eq-nil p)
  median-perm (x ∷ xs) (y ∷ ys) p h =
      rw (sort_congr (float_less-IsStrict laws) laws.is_set (x ∷ xs) (y ∷ ys) p h)
