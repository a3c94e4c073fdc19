-- ===== src/Http/Bases.antt =====
-- internal/httpapi/httpapi.go: the rates that `ratesFromBase` collects.
use argos_fx.Prelude.{
  ◌≡◌, refl, Bool, true, false, Bool-cases, inl, inr, List, [], ◌∷◌, Option, none, some, arith, any,
  if◌then◌else◌,
}
use argos_fx.Text.{Text, text_discrete}
use argos_fx.Assoc.{get, put, get-put}
use argos_fx.Error.{Outcome, ok, err}
use argos_fx.Float.{Double}
use argos_fx.Store.{text_eq}
use argos_fx.Aggregator.Types.{Config, Result}
use argos_fx.Http.Types.{Server, Library, SingleRateResponse}
use argos_fx.Http.Site.{Site, H, pure, ◌>>=◌}
use argos_fx.Http.Rates.{
  Collected, add_rate, nothing_yet, base_result, base_found, base_step, base_loop, is_allowed,
  allowed_codes,
}

-- What the value of an effect has.
record Gives {F A : Type 0} (P : A → Type 0) (m : H F A) : Type 0 where
  gives : (site : Site F) → P (m site).0

module _ {F B : Type 0} (P : B → Type 0) where
  Gives-pure : (b : B) → P b → Gives {F = F} P (pure b)
  unfolding pure
  Gives-pure b p = record { gives = λ site. p }

  Gives-bind :
      {A : Type 0} (m : H F A) (f : A → H F B) → ((a : A) → Gives P (f a)) → Gives P (m >>= f)
  unfolding ◌>>=◌
  Gives-bind m f g = record { gives = λ site. (g (m site).0).gives (m site).1 }

  Gives-then :
      {A : Type 0} (Q : A → Type 0) (m : H F A) (f : A → H F B)
      → Gives Q m
      → ((a : A) → Q a → Gives P (f a))
      → Gives P (m >>= f)
  unfolding ◌>>=◌
  Gives-then Q m f p g = record { gives = λ site. (g (m site).0 (p.gives site)).gives (m site).1 }

  Gives-if :
      (t : Bool) (m n : H F B)
      → (t ≡ true → Gives P m)
      → (t ≡ false → Gives P n)
      → Gives P (if t then m else n)
  Gives-if true m n p q = p refl
  Gives-if false m n p q = q refl

module _ {F : Type 0} ⦃d : Double F⦄ (lib : Library F) (s : Server F) (cfg : Config F)
    (base : Text) where
  abbrev HasBase : Collected F → Type 0
  HasBase acc = get text_discrete base acc.out ≡ some d.one

  put_base :
      (code : Text) (acc : Collected F)
      → text_eq code base ≡ true
      → HasBase (record acc { out = put text_discrete code d.one acc.out })
  put_base code acc e = rw (get-put text_discrete code base d.one acc.out) (ground arith)

  -- Other rates leave that of the base alone.
  add_rate-HasBase :
      (code : Text) (r freshness : F) (used : List Text) (acc : Collected F)
      → text_eq code base ≡ false
      → HasBase acc
      → HasBase (add_rate code r freshness used acc)
  unfolding add_rate
  add_rate-HasBase code r freshness used acc other has =
      rw (get-put text_discrete code base r acc.out) (ground arith)

  base_result-HasBase :
      (code : Text) (acc : Collected F) (r : Outcome (Result F))
      → text_eq code base ≡ false
      → HasBase acc
      → Gives HasBase (base_result lib s base code acc r)
  unfolding base_result
  base_result-HasBase code acc (err e) other has = Gives-pure _ acc has
  base_result-HasBase code acc (ok res) other has = Gives-bind _ _ _ λ t. Gives-bind _ _ _ λ u.
      Gives-pure _ _
        (add_rate-HasBase code res.rate res.freshness_seconds res.providers_used acc other has)

  base_found-HasBase :
      (code : Text) (acc : Collected F) (v : Option (SingleRateResponse F))
      → text_eq code base ≡ false
      → HasBase acc
      → Gives HasBase (base_found lib s cfg base code acc v)
  unfolding base_found
  base_found-HasBase code acc (some v) other has =
      Gives-pure _ _
        (add_rate-HasBase code v.rate v.freshness_seconds v.providers_used acc other has)
  base_found-HasBase code acc none other has =
      Gives-bind _ _ _ λ r. base_result-HasBase code acc r other has

  base_step-HasBase :
      (code : Text) (acc : Collected F)
      → HasBase acc
      → Gives HasBase (base_step lib s cfg base code acc)
  unfolding base_step
  base_step-HasBase code acc has =
      Gives-if _ (text_eq code base) _ _ (λ e. Gives-pure _ _ (put_base code acc e))
        (λ e. Gives-bind _ _ _ λ body. base_found-HasBase code acc _ e has)

  base_loop-keeps :
      (code_list : List Text) (acc : Collected F)
      → HasBase acc
      → Gives HasBase (base_loop lib s cfg base code_list acc)
  unfolding base_loop
  base_loop-keeps [] acc has = Gives-pure _ acc has
  base_loop-keeps (code ∷ rest) acc has =
      Gives-then _ HasBase _ _ (base_step-HasBase code acc has) (base_loop-keeps rest)

  first-HasBase :
      (code : Text) (acc : Collected F)
      → text_eq code base ≡ true
      → Gives HasBase (base_step lib s cfg base code acc)
  unfolding base_step
  first-HasBase code acc e =
      Gives-if _ (text_eq code base) _ _ (λ _. Gives-pure _ _ (put_base code acc e))
        (λ f. absurd cc)

  base_loop-HasBase :
      (code_list : List Text) (acc : Collected F)
      → any (text_eq base) code_list ≡ true
      → Gives HasBase (base_loop lib s cfg base code_list acc)
  unfolding base_loop
  base_loop-HasBase [] acc h = absurd (ground arith)
  base_loop-HasBase (code ∷ rest) acc h = elim (Bool-cases (text_eq code base)) [
    | inl e ↦ Gives-then _ HasBase _ _ (first-HasBase code acc e) (base_loop-keeps rest)
    | inr e ↦ Gives-bind _ _ _ λ acc'. base_loop-HasBase rest acc' (ground arith)
  ]

  -- Whatever the cache, the database and the libraries do: among the rates that are collected for
  -- an allowed base, the rate of the base itself is one.
  pub base_loop-one :
      (site : Site F)
      → is_allowed s base ≡ true
      → get text_discrete base (base_loop lib s cfg base (allowed_codes s) nothing_yet site).0.out
        ≡ some d.one
  unfolding is_allowed
  base_loop-one site allowed = (base_loop-HasBase s.currencies nothing_yet allowed).gives site
