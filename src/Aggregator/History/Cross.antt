-- ===== src/Aggregator/History/Cross.antt =====
-- internal/aggregator/aggregator.go: where the points of `crossHistory` come from.
use argos_fx.Prelude.{
  ℕ, ◌≡◌, refl, sym, ap, false, ◌||◌, Bool-cases, ◌⊎◌, inl, inr, List, [], ◌∷◌, map, some,
  Option-cases, All, All-map_pred, Sublist, arith, ℕ_discrete, if◌then◌else◌,
}
use mathlib.Core.List.Sublist
use mathlib.Core.List.{nil-sublist}
use argos_fx.Clock.{Time}
use argos_fx.Assoc.{get, put, get-put}
use argos_fx.Float.{Double}
use argos_fx.Store.{HistoryPoint}
use argos_fx.Aggregator.History.{unix, by_second, cross_points, cross_history}

-- Some item of the list has the property.
abbrev pub Has : {A : Type 0} → (A → Type 0) → List A → Type 0
Has P [] = ⊥
Has P (x ∷ xs) = P x ⊎ Has P xs

Has-map_pred :
    {A : Type 0} {P Q : A → Type 0} (f : (a : A) → P a → Q a) (xs : List A) → Has P xs → Has Q xs
Has-map_pred f [] h = h
Has-map_pred f (x ∷ xs) (inl h) = inl (f x h)
Has-map_pred f (x ∷ xs) (inr h) = inr (Has-map_pred f xs h)

module _ {F : Type 0} ⦃d : Double F⦄ where
  by_second_from :
      (k : ℕ) (f : F) (ps : List (HistoryPoint F)) (m : List (ℕ × F))
      → get ℕ_discrete k (by_second ps m) ≡ some f
      → Has (λ q. (unix q.fetched_at ≡ k) × (q.rate ≡ f)) ps ⊎ (get ℕ_discrete k m ≡ some f)
  unfolding by_second
  by_second_from k f [] m h = inr h
  by_second_from k f (q ∷ ps) m h =
      elim (by_second_from k f ps (put ℕ_discrete (unix q.fetched_at) q.rate m) h) [
        | inl later ↦ inl (inr later)
        | inr now ↦ ground (arith, get-put ℕ_discrete (unix q.fetched_at) k q.rate m)
      ]

  -- The point is the quotient of one of each side, seen in the same second, neither of them zero.
  abbrev pub IsQuotient : HistoryPoint F → HistoryPoint F → HistoryPoint F → Type 0
  IsQuotient r p q =
      (unix q.fetched_at ≡ unix p.fetched_at)
      × (r.fetched_at ≡ p.fetched_at)
      × (r.rate ≡ d.div p.rate q.rate)
      × (d.eq q.rate d.nought ≡ false)
      × (d.eq p.rate d.nought ≡ false)

  abbrev pub IsCrossed : List (HistoryPoint F) → List (HistoryPoint F) → HistoryPoint F → Type 0
  IsCrossed from_side to_side r = Has (λ p. Has (IsQuotient r p) from_side) to_side

  quotients :
      (from_side : List (HistoryPoint F)) (p : HistoryPoint F) (f : F)
      → get ℕ_discrete (unix p.fetched_at) (by_second from_side []) ≡ some f
      → (d.eq f d.nought || d.eq p.rate d.nought) ≡ false
      → Has (IsQuotient (record { fetched_at = p.fetched_at; rate = d.div p.rate f }) p) from_side
  unfolding get
  quotients from_side p f e rate = elim (by_second_from (unix p.fetched_at) f from_side [] e) [
    | inl h ↦
        Has-map_pred
          (λ q k. (k.0, refl, ap (d.div p.rate) (sym k.1), rw k.1 (ground arith), ground arith))
          from_side h
    | inr h ↦ absurd (ground arith)
  ]

  abbrev pub times : List (HistoryPoint F) → List Time
  times = map λ p. p.fetched_at

  cross_points-IsCrossed :
      (from_side to_side : List (HistoryPoint F))
      → All (IsCrossed from_side to_side) (cross_points (by_second from_side []) to_side)
        × Sublist (times (cross_points (by_second from_side []) to_side)) (times to_side)
  unfolding cross_points
  cross_points-IsCrossed from_side [] = (tt, nil-sublist [])
  cross_points-IsCrossed from_side (p ∷ ps) =
      let (crossed, sub) = cross_points-IsCrossed from_side ps in
      let by_t = by_second from_side [] in
      let skip = All-map_pred (λ r h. inr h) (cross_points by_t ps) crossed in
      elim (Option-cases (get ℕ_discrete (unix p.fetched_at) by_t)) [
        | inl e ↦ rw (cross_points, e) (skip, Sublist.cons p.fetched_at sub)
        | inr (f, e) ↦ elim (Bool-cases (d.eq f d.nought || d.eq p.rate d.nought)) [
          | inl zero ↦
              rw (cross_points, e, zero, if◌then◌else◌) (skip, Sublist.cons p.fetched_at sub)
          | inr rate ↦
              rw (cross_points, e, rate, if◌then◌else◌)
                ((inl (quotients from_side p f e rate), skip), Sublist.cons-cons p.fetched_at sub)
        ]
      ]

  -- Every point of a cross history is the quotient of a point of the second currency and of a point
  -- of the first that was seen in the same second, both with a rate that is not zero, and has the
  -- time of the former; the points come in the order of the second currency's.
  pub cross_history-IsCrossed :
      (from_side to_side : List (HistoryPoint F))
      → All (IsCrossed from_side to_side) (cross_history from_side to_side)
        × Sublist (times (cross_history from_side to_side)) (times to_side)
  unfolding cross_history
  cross_history-IsCrossed from_side to_side = cross_points-IsCrossed from_side to_side
