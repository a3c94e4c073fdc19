-- ===== src/Float.antt =====
-- What the program does with a `float64`: an interface, since Go's floats are not part of the
-- repository. `IsIeee` lists the facts of IEEE 754 that the theorems use, each for the values it
-- holds for: NaN is unordered, and zero has two signs, so the order is a total one on the positive
-- values only.
pub mod Fixed
pub mod Laws
use argos_fx.Prelude.Int.{ℤ}
use argos_fx.Prelude.{◌≡◌, ◌⊎◌, Bool, true, false, not, ◌&&◌, ◌||◌}

pub record Double (F : Type 0) : Type 0 where
  -- the constants 0, 1.0, 2, 100.0, 0.9 and 1e-12
  pub nought : F
  pub one : F
  pub two : F
  pub hundred : F
  pub nine_tenths : F
  pub tiny : F
  -- +Inf
  pub inf : F
  pub add : F → F → F
  pub sub : F → F → F
  pub mul : F → F → F
  pub div : F → F → F
  -- `math.Abs`
  pub abs : F → F
  -- `Duration.Seconds`
  pub seconds : ℤ → F
  -- the conversions `float64(n)` and `int64(x)`
  pub of_int : ℤ → F
  pub to_int : F → ℤ
  -- `<`, `<=` and `==`
  pub lt : F → F → Bool
  pub le : F → F → Bool
  pub eq : F → F → Bool

module _ {F : Type 0} ⦃d : Double F⦄ where
  infix 4 ◌≼◌ ◌≺◌
  abbrev pub ◌≼◌ : F → F → Type 0
  x ≼ y = d.le x y ≡ true

  abbrev pub ◌≺◌ : F → F → Type 0
  x ≺ y = d.lt x y ≡ true

  abbrev pub IsPositive : F → Type 0
  IsPositive x = d.nought ≺ x

  -- A rate that a provider can quote: neither NaN, zero, negative nor infinite.
  abbrev pub IsRate : F → Type 0
  IsRate x = (d.nought ≺ x) × (x ≺ d.inf)

  -- The `<` of `sort.Float64s`, which puts NaN first.
  unfoldable pub float_less : F → F → Bool
  float_less x y = d.lt x y || (not (d.eq x x) && d.eq y y)

pub record IsIeee (F : Type 0) ⦃d : Double F⦄ : Type 0 where
  pub is_set : IsSet F
  pub nought_refl : d.nought ≼ d.nought
  -- a positive value is not NaN, and the two orders agree on positive values
  pub eq_refl : (x : F) → IsPositive x → d.eq x x ≡ true
  pub lt-eq-not-le : (x y : F) → IsPositive x → IsPositive y → d.lt x y ≡ not (d.le y x)
  pub le_refl : (x : F) → IsPositive x → x ≼ x
  pub le_trans : (x y z : F) → x ≼ y → y ≼ z → x ≼ z
  pub le_total : (x y : F) → IsPositive x → IsPositive y → (x ≼ y) ⊎ (y ≼ x)
  pub le_antisymm : (x y : F) → IsPositive x → IsPositive y → x ≼ y → y ≼ x → x ≡ y
  pub le-nought : (x : F) → IsPositive x → (d.nought ≼ x) × (d.le x d.nought ≡ false)
  pub eq_nought : (x : F) → IsPositive x → d.eq x d.nought ≡ false
  -- the midpoint of two rates lies between them; above, if their sum does not overflow
  pub le-mid : (x y : F) → IsRate x → IsRate y → x ≼ y → x ≼ d.div (d.add x y) d.two
  pub mid-le :
      (x y : F) → IsRate x → IsRate y → x ≼ y → d.add y y ≺ d.inf → d.div (d.add x y) d.two ≼ y
  -- a rate is at no distance from itself
  pub sub_self : (x : F) → IsRate x → d.sub x x ≡ d.nought
  pub abs-nought : d.abs d.nought ≡ d.nought
  pub nought-div : (x : F) → IsRate x → d.div d.nought x ≡ d.nought
  pub nought-lt-two : d.nought ≺ d.two
  pub nought-lt-tiny : d.nought ≺ d.tiny
