-- ===== src/Text/Laws.antt =====
-- The order of texts, and upper case.
use argos_fx.Prelude.{ℕ, ◌≡◌, refl, true, false, [], ◌∷◌, arith}
use argos_fx.Prelude.Sorted.{IsStrict}
use argos_fx.Text.{Text, text_less, upper_code, to_upper}

abbrev pub Any : Text → Type 0
Any _ = Unit {0}

text_less_asymm : (s t : Text) → text_less s t ≡ true → text_less t s ≡ false
unfolding text_less
text_less_asymm [] [] h = cc
text_less_asymm [] (d ∷ t) h = refl
text_less_asymm (c ∷ s) [] h = cc
text_less_asymm (c ∷ s) (d ∷ t) h = ground (arith, text_less_asymm s t)

text_less_trans :
    (s t u : Text) → text_less s t ≡ true → text_less t u ≡ true → text_less s u ≡ true
unfolding text_less
text_less_trans [] [] u h k = cc
text_less_trans [] (d ∷ t) [] h k = cc
text_less_trans [] (d ∷ t) (e ∷ u) h k = refl
text_less_trans (c ∷ s) [] u h k = cc
text_less_trans (c ∷ s) (d ∷ t) [] h k = cc
text_less_trans (c ∷ s) (d ∷ t) (e ∷ u) h k = ground (arith, text_less_trans s t u)

text_less_connected : (s t : Text) → text_less s t ≡ false → text_less t s ≡ false → s ≡ t
unfolding text_less
text_less_connected [] [] h k = refl
text_less_connected [] (d ∷ t) h k = cc
text_less_connected (c ∷ s) [] h k = cc
text_less_connected (c ∷ s) (d ∷ t) h k = ground (arith, text_less_connected s t)

pub text_less-IsStrict : IsStrict Any text_less
text_less-IsStrict = record {
  asymm = λ x y _ _. text_less_asymm x y;
  trans = λ x y z _ _ _. text_less_trans x y z;
  connected = λ x y _ _. text_less_connected x y;
}

pub upper_code_idem : (c : ℕ) → upper_code (upper_code c) ≡ upper_code c
unfolding upper_code
upper_code_idem c = ground arith

pub to_upper_idem : (s : Text) → to_upper (to_upper s) ≡ to_upper s
unfolding to_upper
to_upper_idem [] = refl
to_upper_idem (c ∷ s) = cc (upper_code_idem c, to_upper_idem s)
