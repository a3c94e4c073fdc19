-- ===== src/Float/Fixed.antt =====
-- The laws of `IsIeee` can be met: signed fixed-point numbers, in units of 1e-12, with one large
-- number for infinity. Tests and examples run on them.
use argos_fx.Prelude.{ℕ, ◌+◌, ◌*◌, ◌/◌, ◌^◌, ◌&&◌, ◌≡◌, ap, arith}
use argos_fx.Prelude.Int.{ℤ, pos, negsuc, pos_part, neg_part, ltb_ℤ, leb_ℤ, ◌+ℤ◌, ◌-ℤ◌}
use argos_fx.Float.{Double, IsIeee, IsRate, ◌≼◌, ◌≺◌}

abbrev pub Fixed : Type 0
Fixed = ℤ

abbrev pub scale : ℕ
scale = 10 ^ 12

-- `n` micro-units.
abbrev pub micro : ℕ → Fixed
micro n = pos (n * 10 ^ 6)

abbrev size : ℤ → ℕ
size a = pos_part a + neg_part a

abbrev with_sign : ℤ → ℤ → ℕ → ℤ
with_sign (pos a) (pos b) n = pos n
with_sign (negsuc a) (negsuc b) n = pos n
with_sign a b n = pos 0 -ℤ pos n

instance abbrev pub fixed_double : Double Fixed
fixed_double = record {
  nought = pos 0;
  one = pos scale;
  two = pos (2 * scale);
  hundred = pos (100 * scale);
  nine_tenths = pos (9 * 10 ^ 11);
  tiny = pos 1;
  inf = pos (10 ^ 40);
  add = ◌+ℤ◌;
  sub = ◌-ℤ◌;
  mul = λ a b. with_sign a b (size a * size b / scale);
  div = λ a b. with_sign a b (size a * scale / size b);
  abs = λ a. pos (size a);
  seconds = λ t. with_sign t (pos 1) (size t * 1000);
  of_int = λ n. with_sign n (pos 1) (size n * scale);
  to_int = λ a. with_sign a (pos 1) (size a / scale);
  lt = ltb_ℤ;
  le = leb_ℤ;
  eq = λ a b. leb_ℤ a b && leb_ℤ b a;
}

-- A rate is a number of units, and not a negative one.
le-mid :
    (x y : Fixed)
    → IsRate x
    → IsRate y
    → x ≼ y
    → x ≼ fixed_double.div (fixed_double.add x y) fixed_double.two
le-mid (pos a) (pos b) p q h = ground arith
le-mid x y p q h = ground arith

mid-le :
    (x y : Fixed)
    → IsRate x
    → IsRate y
    → x ≼ y
    → fixed_double.add y y ≺ fixed_double.inf
    → fixed_double.div (fixed_double.add x y) fixed_double.two ≼ y
mid-le (pos a) (pos b) p q h k = ground arith
mid-le x y p q h k = ground arith

nought-div : (x : Fixed) → IsRate x → fixed_double.div fixed_double.nought x ≡ fixed_double.nought
nought-div (pos a) p = ap pos (omega arith)
nought-div (negsuc a) p = ground arith

pub Fixed-IsIeee : IsIeee Fixed
Fixed-IsIeee = record {
  is_set = hlevel;
  nought_refl = ground arith;
  eq_refl = ground arith;
  lt-eq-not-le = ground arith;
  le_refl = ground arith;
  le_trans = ground arith;
  le_total = ground arith;
  le_antisymm = ground arith;
  le-nought = ground arith;
  eq_nought = ground arith;
  le-mid = le-mid;
  mid-le = mid-le;
  sub_self = ground arith;
  abs-nought = ground arith;
  nought-div = nought-div;
  nought-lt-two = ground arith;
  nought-lt-tiny = ground arith;
}
