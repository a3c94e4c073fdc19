-- ===== src/Http/Honest/Handlers.antt =====
-- internal/httpapi/httpapi.go: every handler stores only bodies that belong to their keys.
use argos_fx.Prelude.{
  ◌≡◌, refl, true, Bool-cases, inl, inr, List, [], ◌∷◌, Option, none, some, All, any, arith,
  if◌then◌else◌,
}
use argos_fx.Text.{Text, to_upper, byte_length}
use argos_fx.Error.{Outcome, ok, err}
use argos_fx.Float.{Double}
use argos_fx.Store.{World, M, text_eq}
use argos_fx.Store.ReadOnly.{IsReadOnly}
use argos_fx.Store.Yields.{Yields}
use argos_fx.Config.Allowed.{IsCode}
use argos_fx.Aggregator.Types.{Config, Result}
use argos_fx.Aggregator.Compute.{compute}
use argos_fx.Aggregator.Compute.Names.{IsOf, compute-IsOf}
use argos_fx.Aggregator.Compute.Effects.{compute-IsReadOnly, all_currencies-IsReadOnly}
use argos_fx.Http.Types.{Server, Library, SingleRateResponse}
use argos_fx.Http.Site.{H, ◌>>=◌, run}
use argos_fx.Http.Along.{
  Steps, IsAlong, along_rules, IsAlong-pure, IsAlong-run, IsAlong-if, IsAlong-bind, IsAlong-now,
}
use argos_fx.Http.Honest.{KeepsWritten, IsAlong-cache_lookup, IsAlong-cache_store}
use argos_fx.Http.Honest.Keys.{of_pair, of_all}
use argos_fx.Http.Rates.{
  Collected, all_rates_from, all_rates_cached, all_rates_computed, base_result, base_found,
  base_step, base_loop, rate_result, rate_found, rates_response,
}

pub any-IsCode :
    (code : Text) (l : List Text) → All IsCode l → any (text_eq code) l ≡ true → IsCode code
any-IsCode code [] _ h = absurd cc h
any-IsCode code (c ∷ l) (p, ps) h = elim (Bool-cases (text_eq code c)) [
  | inl e ↦ let same : code ≡ c = ground arith in rw same p
  | inr e ↦ any-IsCode code l ps (rw (e, if◌then◌else◌) at h)
]

module _ {F : Type 0} ⦃d : Double F⦄ (computed : Text → Text → Result F → Type 0) where
  -- What `Compute` returns may be answered.
  abbrev pub IsSource : Config F → Type 0
  IsSource cfg =
      (from to : Text) (w : World F) (res : Result F)
      → (compute cfg from to w).0 ≡ ok res
      → computed from to res

  -- A result for the pair, which may be answered.
  abbrev pub IsResult : Text → Text → Result F → Type 0
  IsResult from to res = IsOf from to res × computed from to res

  pub compute-IsResult :
      (cfg : Config F) (from to : Text)
      → IsSource cfg
      → to_upper from ≡ from
      → to_upper to ≡ to
      → Yields (IsResult from to) (compute cfg from to)
  compute-IsResult cfg from to source p q = record {
    at_success = λ w res h.
        (rw (p, q) at ((compute-IsOf cfg from to).at_success w res h), source from to w res h);
  }

module _ {F : Type 0} ⦃d : Double F⦄ (lib : Library F) (s : Server F)
    (computed : Text → Text → Result F → Type 0) ⦃steps : Steps (KeepsWritten lib computed)⦄ where
  -- What the store answers is known to the rest.
  IsHonest-run :
      {A B : Type 0} (P : A → Type 0) (m : M F A) (f : Outcome A → H F B)
      → IsReadOnly m
      → Yields P m
      → ((r : Outcome A) → ((a : A) → r ≡ ok a → P a) → IsAlong (KeepsWritten lib computed) (f r))
      → IsAlong (KeepsWritten lib computed) (run m >>= f)
  unfolding KeepsWritten run ◌>>=◌
  IsHonest-run P m f p q r = record {
    keeps = λ s h. (r (m s.world).0 (q.at_success s.world)).keeps _ h;
  }

  rate_result-IsHonest :
      (from to : Text) (r : Outcome (Result F))
      → byte_length from ≡ 3
      → ((res : Result F) → r ≡ ok res → IsResult computed from to res)
      → IsAlong (KeepsWritten lib computed) (rate_result lib s from to r)
  unfolding rate_result
  rate_result-IsHonest from to (err e) p h = IsAlong-pure _
  rate_result-IsHonest from to (ok res) p h =
      let (of, known) = h res refl in
      IsAlong-bind _ _ IsAlong-now λ t.
        IsAlong-bind _ _
          (IsAlong-cache_store lib computed _ _ λ body e. of_pair from to res t p of known e)
          λ body. IsAlong-pure _

  pub rate_found-IsHonest :
      (cfg : Config F) (from to : Text) (found : Option Text)
      → IsSource computed cfg
      → IsCode from
      → IsCode to
      → IsAlong (KeepsWritten lib computed) (rate_found lib s cfg from to found)
  unfolding rate_found
  rate_found-IsHonest cfg from to (some body) source p q = IsAlong-pure _
  rate_found-IsHonest cfg from to none source (p, up) (q, uq) =
      IsHonest-run (IsResult computed from to) _ _ (compute-IsReadOnly cfg from to)
        (compute-IsResult computed cfg from to source up uq)
        λ r h. rate_result-IsHonest from to r p h

  base_result-IsHonest :
      (base code : Text) (acc : Collected F) (r : Outcome (Result F))
      → byte_length base ≡ 3
      → ((res : Result F) → r ≡ ok res → IsResult computed base code res)
      → IsAlong (KeepsWritten lib computed) (base_result lib s base code acc r)
  unfolding base_result
  base_result-IsHonest base code acc (err e) p h = IsAlong-pure _
  base_result-IsHonest base code acc (ok res) p h =
      let (of, known) = h res refl in
      IsAlong-bind _ _ IsAlong-now λ t.
        IsAlong-bind _ _
          (IsAlong-cache_store lib computed _ _ λ body e. of_pair base code res t p of known e)
          λ body. IsAlong-pure _

  base_found-IsHonest :
      (cfg : Config F) (base code : Text) (acc : Collected F) (v : Option (SingleRateResponse F))
      → IsSource computed cfg
      → IsCode base
      → IsCode code
      → IsAlong (KeepsWritten lib computed) (base_found lib s cfg base code acc v)
  unfolding base_found
  base_found-IsHonest cfg base code acc (some v) source p q = IsAlong-pure _
  base_found-IsHonest cfg base code acc none source (p, up) (q, uq) =
      IsHonest-run (IsResult computed base code) _ _ (compute-IsReadOnly cfg base code)
        (compute-IsResult computed cfg base code source up uq)
        λ r h. base_result-IsHonest base code acc r p h

  base_step-IsHonest :
      (cfg : Config F) (base code : Text) (acc : Collected F)
      → IsSource computed cfg
      → IsCode base
      → IsCode code
      → IsAlong (KeepsWritten lib computed) (base_step lib s cfg base code acc)
  unfolding base_step
  base_step-IsHonest cfg base code acc source p q = IsAlong-if _ _ _ (IsAlong-pure _) (
      IsAlong-bind _ _ (IsAlong-cache_lookup lib computed _)
        λ body. base_found-IsHonest cfg base code acc _ source p q)

  pub base_loop-IsHonest :
      (cfg : Config F) (base : Text) (code_list : List Text) (acc : Collected F)
      → IsSource computed cfg
      → IsCode base
      → All IsCode code_list
      → IsAlong (KeepsWritten lib computed) (base_loop lib s cfg base code_list acc)
  unfolding base_loop
  base_loop-IsHonest cfg base [] acc source p _ = IsAlong-pure _
  base_loop-IsHonest cfg base (code ∷ rest) acc source p (q, qs) =
      IsAlong-bind _ _ (base_step-IsHonest cfg base code acc source p q)
        λ acc'. base_loop-IsHonest cfg base rest acc' source p qs

  all_rates_computed-IsHonest :
      (cfg : Config F) (code_list : List Text)
      → IsAlong (KeepsWritten lib computed) (all_rates_computed lib s cfg code_list)
  unfolding all_rates_computed rates_response
  all_rates_computed-IsHonest cfg code_list =
      IsAlong-bind _ _ (IsAlong-run _ (all_currencies-IsReadOnly cfg code_list)) λ results.
        IsAlong-bind _ _ IsAlong-now λ t.
          IsAlong-bind _ _ (IsAlong-cache_store lib computed _ _ λ body e. of_all _ refl e)
            λ body. IsAlong-pure _

  pub all_rates_from-IsHonest :
      (cfg : Config F) (code_list : List Text)
      → IsAlong (KeepsWritten lib computed) (all_rates_from lib s cfg code_list)
  unfolding all_rates_from all_rates_cached
  all_rates_from-IsHonest cfg [] = search along_rules depth 12
  all_rates_from-IsHonest cfg (c ∷ code_list) =
      IsAlong-bind _ _ (IsAlong-cache_lookup lib computed _) (cached (c ∷ code_list))
    where
      cached :
          (code_list : List Text) (found : Option Text)
          → IsAlong (KeepsWritten lib computed) (all_rates_cached lib s cfg code_list found)
      cached code_list (some body) = IsAlong-pure _
      cached code_list none = all_rates_computed-IsHonest cfg code_list
