-- ===== src/Aggregator/Compute/Names.antt =====
-- internal/aggregator/aggregator.go: of which currencies a result is.
use argos_fx.Prelude.{
  ◌≡◌, ◌∙◌, refl, sym, ap, true, Bool-cases, inl, inr, ◌||◌, arith, if◌then◌else◌,
}
use argos_fx.Text.{Text, to_upper, is_empty}
use argos_fx.Text.Laws.{to_upper_idem}
use argos_fx.Clock.{Time}
use argos_fx.Error.{ok-inj, ok}
use argos_fx.Float.{Double}
use argos_fx.Store.{text_eq}
use argos_fx.Store.Yields.{
  Yields, Yields-return, Yields-fail, Yields-of_outcome, Yields-bind, Yields-any,
}
use argos_fx.Aggregator.Types.{Config, Result}
use argos_fx.Aggregator.Direct.{compute_direct, direct_result}
use argos_fx.Aggregator.Compute.{
  compute, compute_upper, compute_pair, compute_cross, cross_result, identity, invert_to,
  inverse_of,
}

module _ {F : Type 0} where
  -- The result is of this pair.
  pub record IsOf (from to : Text) (r : Result F) : Type 0 where
    pub from_is : r.from ≡ from
    pub to_is : r.to ≡ to

module _ {F : Type 0} ⦃d : Double F⦄ (cfg : Config F) where
  compute_direct-IsOf :
      (quote : Text) (since : Time)
      → Yields (IsOf cfg.base (to_upper quote)) (compute_direct cfg quote since)
  unfolding compute_direct direct_result
  compute_direct-IsOf quote since = Yields-any _ _ _ λ read. Yields-any _ _ _ λ _.
      Yields-any _ _ _ λ providers.
        Yields-any _ _ _
          λ age. Yields-any _ _ _ λ t. Yields-return _ _ (record { from_is = refl; to_is = refl })

  compute_cross-IsOf :
      (from to : Text) (since : Time) → Yields (IsOf from to) (compute_cross cfg from to since)
  unfolding compute_cross cross_result
  compute_cross-IsOf from to since = Yields-any _ _ _ λ a. Yields-any _ _ _ λ b.
      Yields-any _ _ _ λ _.
        Yields-any _ _ _
          λ t. Yields-any _ _ _ λ t'. Yields-return _ _ (record { from_is = refl; to_is = refl })

  invert-IsOf :
      (r q : Result F) (from to : Text)
      → r.to ≡ from
      → to_upper to ≡ to
      → invert_to r to ≡ ok q
      → IsOf from to q
  unfolding invert_to inverse_of
  invert-IsOf r q from to a b h = elim (Bool-cases (d.eq r.rate d.nought)) [
    | inl e ↦ absurd cc (rw (e, if◌then◌else◌) at h)
    | inr e ↦
        let same = ok-inj (rw (e, if◌then◌else◌) at h) in
        record {
          from_is = sym (ap (λ (q : Result F). q.from) same) ∙ a;
          to_is = sym (ap (λ (q : Result F). q.to) same) ∙ b;
        }
  ]

  text_eq→≡ : (s t : Text) → text_eq s t ≡ true → s ≡ t
  text_eq→≡ s t h = ground arith

  compute_pair-IsOf :
      (from to : Text) (since : Time)
      → to_upper from ≡ from
      → to_upper to ≡ to
      → Yields (IsOf from to) (compute_pair cfg from to since)
  unfolding compute_pair
  compute_pair-IsOf from to since p q = elim (Bool-cases (text_eq from cfg.base)) [
    | inl e ↦
        rw (e, if◌then◌else◌, text_eq→≡ from cfg.base e) (rw q at (compute_direct-IsOf to since))
    | inr e ↦ elim (Bool-cases (text_eq to cfg.base)) [
      | inl k ↦
          rw (e, k, if◌then◌else◌)
            (Yields-bind _ _ _ _ (compute_direct-IsOf from since)
              λ r h. Yields-of_outcome _ _ λ a i. invert-IsOf r a from to (h.to_is ∙ p) q i)
      | inr k ↦ rw (e, k, if◌then◌else◌) (compute_cross-IsOf from to since)
    ]
  ]

  compute_upper-IsOf :
      (from to : Text)
      → to_upper from ≡ from
      → to_upper to ≡ to
      → Yields (IsOf from to) (compute_upper cfg from to)
  unfolding compute_upper identity
  compute_upper-IsOf from to p q = elim (Bool-cases (is_empty from || is_empty to)) [
    | inl e ↦ rw (e, if◌then◌else◌) (Yields-fail _ _)
    | inr e ↦ elim (Bool-cases (text_eq from to)) [
      | inl k ↦
          rw (e, k, if◌then◌else◌)
            (Yields-any _ _ _
              λ t. Yields-return _ _ (record { from_is = refl; to_is = text_eq→≡ from to k }))
      | inr k ↦ rw (e, k, if◌then◌else◌) (Yields-any _ _ _ λ t. compute_pair-IsOf from to _ p q)
    ]
  ]

  -- A rate that is computed is of the two currencies that were asked for, in upper case.
  pub compute-IsOf :
      (from to : Text) → Yields (IsOf (to_upper from) (to_upper to)) (compute cfg from to)
  unfolding compute
  compute-IsOf from to =
      compute_upper-IsOf (to_upper from) (to_upper to) (to_upper_idem from) (to_upper_idem to)
