-- ===== src/Float/Laws.antt =====
-- The order that `sort.Float64s` uses is a strict total one on the positive values.
use argos_fx.Prelude.{◌≡◌, true, false, arith}
use argos_fx.Prelude.Sorted.{IsStrict}
use argos_fx.Float.{Double, IsIeee, IsPositive, float_less, ◌≼◌}

module _ {F : Type 0} ⦃d : Double F⦄ (laws : IsIeee F) where
  open laws use {eq_refl, lt-eq-not-le, le_trans, le_total, le_antisymm}

  -- On positive values the order is that of `<=`.
  pub le_of_not_less : (x y : F) → IsPositive x → IsPositive y → float_less x y ≡ false → y ≼ x
  unfolding float_less
  le_of_not_less x y p q h = ground (arith, eq_refl x p, lt-eq-not-le x y p q)

  pub not_le_of_less :
      (x y : F) → IsPositive x → IsPositive y → float_less x y ≡ true → d.le y x ≡ false
  unfolding float_less
  not_le_of_less x y p q h = ground (arith, eq_refl x p, lt-eq-not-le x y p q)

  less_of_not-le :
      (x y : F) → IsPositive x → IsPositive y → d.le y x ≡ false → float_less x y ≡ true
  unfolding float_less
  less_of_not-le x y p q h = ground (arith, eq_refl x p, lt-eq-not-le x y p q)

  less_false_of_le : (x y : F) → IsPositive x → IsPositive y → y ≼ x → float_less x y ≡ false
  unfolding float_less
  less_false_of_le x y p q h = ground (arith, eq_refl x p, lt-eq-not-le x y p q)

  float_less_trans :
      (x y z : F)
      → IsPositive x
      → IsPositive y
      → IsPositive z
      → float_less x y ≡ true
      → float_less y z ≡ true
      → d.le z x ≡ false
  float_less_trans x y z p q r h k =
      ground (
        arith,
        not_le_of_less x y p q h,
        not_le_of_less y z q r k,
        le_trans y z x,
        le_total y z q r,
      )

  pub float_less-IsStrict : IsStrict {A = F} IsPositive float_less
  float_less-IsStrict = record {
    asymm = λ x y p q h.
        less_false_of_le y x q p (ground (arith, not_le_of_less x y p q h, le_total x y p q));
    trans = λ x y z p q r h k. less_of_not-le x z p r (float_less_trans x y z p q r h k);
    connected =
        λ x y p q h k. le_antisymm x y p q (le_of_not_less y x q p k) (le_of_not_less x y p q h);
  }
