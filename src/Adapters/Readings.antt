-- ===== src/Adapters/Readings.antt =====
-- internal/provider/adapters: the readings that every adapter returns are of the pairs it was asked
-- for, whatever the network answers.
use mathlib.Core.Path.{subst}
use argos_fx.Prelude.{
  ℕ, ◌+◌, ◌≡◌, refl, Bool, true, false, Bool-cases, inl, inr, List, [], ◌∷◌, Option-cases, map, All,
  All-map_pred, Sublist, arith, if◌then◌else◌,
}
use mathlib.Core.List.Sublist
use argos_fx.Text.{Text, codes, text_discrete, to_upper}
use argos_fx.Clock.{Time}
use argos_fx.Assoc.{get}
use argos_fx.Error.{ok-inj, Error, Outcome, ok, err}
use argos_fx.Float.{Double}
use argos_fx.Store.{text_eq}
use Prim.Native.String.{String}
use argos_fx.Config
use argos_fx.Provider
use argos_fx.Provider.{Reading}
use argos_fx.Adapters.{
  Net, ◌>>=◌, require, equal_fold, or_text, latest_readings, Frankfurter, MoneyConvert, Yahoo,
  frankfurter_fetch, money_convert_fetch, yahoo_quote, yahoo_quotes, yahoo_fetch, new_from_config,
}

-- What a value has if there is one.
record Ensures {A : Type 0} (P : A → Type 0) (m : Outcome A) : Type 0 where
  holds : (a : A) → m ≡ ok a → P a

module _ {B : Type 0} (P : B → Type 0) where
  Ensures-bind :
      {A : Type 0} (m : Outcome A) (f : A → Outcome B)
      → ((a : A) → m ≡ ok a → Ensures P (f a))
      → Ensures P (m >>= f)
  unfolding ◌>>=◌
  Ensures-bind (ok a) f g = g a refl
  Ensures-bind (err e) f g = record { holds = λ b h. absurd cc }

  Ensures-ok : (b : B) → P b → Ensures P (ok b)
  Ensures-ok b p = record { holds = λ a h. subst P (ok-inj h) p }

  Ensures-err : (e : Error) → Ensures P (err e)
  Ensures-err e = record { holds = λ a h. absurd cc }

require-ok : (t : Bool) (s : String) (u : Unit {0}) → require t s ≡ ok u → t ≡ true
require-ok true s u h = refl
require-ok false s u h = absurd cc

equal_fold-to_upper : (s t : Text) → equal_fold s t ≡ true → to_upper s ≡ to_upper t
unfolding equal_fold
equal_fold-to_upper s t h = ground arith

module _ {F : Type 0} where
  -- The readings are of the base, in upper case, and their quotes are some of those asked for, in
  -- upper case and in their order.
  abbrev pub IsAnswer : Text → List Text → List (Reading F) → Type 0
  IsAnswer base quotes rs =
      All (λ r. r.base ≡ to_upper base) rs × Sublist (map (λ r. r.quote) rs) (map to_upper quotes)

  latest_readings-IsAnswer :
      (base date : Text) (t : Time) (rates : List (Text × F)) (quotes : List Text)
      → IsAnswer base quotes (latest_readings base date t rates quotes)
  unfolding latest_readings
  latest_readings-IsAnswer base date t rates [] = (tt, Sublist.refl [])
  latest_readings-IsAnswer base date t rates (q ∷ qs) =
      let (bases, quotes) = latest_readings-IsAnswer base date t rates qs in
      elim (Option-cases (get text_discrete (to_upper q) rates)) [
        | inl e ↦ rw (latest_readings, e) (bases, Sublist.cons _ quotes)
        | inr (rate, e) ↦ rw (latest_readings, e) ((refl, bases), Sublist.cons-cons _ quotes)
      ]

module _ {F : Type 0} ⦃d : Double F⦄ where
  -- One reading for each quote.
  abbrev pub IsWhole : Text → List Text → List (Reading F) → Type 0
  IsWhole from quotes rs =
      All (λ r. (r.base ≡ to_upper from) × (d.eq r.rate d.nought ≡ false)) rs
      × (map (λ r. r.quote) rs ≡ map to_upper quotes)

module _ {F : Type 0} ⦃d : Double F⦄ (net : Net F) (n : ℕ) (base : Text) where
  abbrev from : Text
  from = or_text base (codes "USD")

  frankfurter-IsAnswer :
      (f : Frankfurter) (quotes : List Text)
      → Ensures (IsAnswer from quotes) (frankfurter_fetch net f n base quotes)
  unfolding frankfurter_fetch
  frankfurter-IsAnswer f [] = Ensures-ok _ [] (tt, Sublist.refl [])
  frankfurter-IsAnswer f (q ∷ qs) = Ensures-bind _ _ _ λ out _. Ensures-bind _ _ _ λ u same.
      let equal = equal_fold-to_upper out.base from (require-ok _ _ u same) in
      let (bases, kept) =
        latest_readings-IsAnswer out.base out.date (net.clock n) out.rates (q ∷ qs) in
      Ensures-ok _ _ (rw (← equal) bases, kept)

  money_convert-IsAnswer :
      (m : MoneyConvert) (quotes : List Text)
      → Ensures (IsAnswer from quotes) (money_convert_fetch net m n base quotes)
  unfolding money_convert_fetch
  money_convert-IsAnswer m [] = Ensures-ok _ [] (tt, Sublist.refl [])
  money_convert-IsAnswer m (q ∷ qs) = Ensures-bind _ _ _ λ out _. Ensures-bind _ _ _ λ u same.
      let equal = equal_fold-to_upper out.base from (require-ok _ _ u same) in
      let (bases, kept) = latest_readings-IsAnswer out.base [] (net.clock n) out.rates (q ∷ qs) in
      Ensures-ok _ _ (rw (← equal) bases, kept)

  -- A reading of the pair.
  record IsQuote (from q : Text) (r : Reading F) : Type 0 where
    same_base : r.base ≡ to_upper from
    same_quote : r.quote ≡ to_upper q
    nonzero : d.eq r.rate d.nought ≡ false

  yahoo_quote-IsQuote :
      (y : Yahoo) (k : ℕ) (from q : Text) → Ensures (IsQuote from q) (yahoo_quote net y n k from q)
  unfolding yahoo_quote
  yahoo_quote-IsQuote y k from q = Ensures-bind _ _ _ λ out _. Ensures-bind _ _ _ λ u _.
      Ensures-bind _ _ _ λ first _. Ensures-bind _ _ _ λ v nonzero. Ensures-ok _ _ (record {
        same_base = refl;
        same_quote = refl;
        nonzero = ground (arith, require-ok _ _ v nonzero);
      })

  yahoo_quotes-IsWhole :
      (y : Yahoo) (k : ℕ) (from : Text) (quotes : List Text)
      → Ensures (IsWhole from quotes) (yahoo_quotes net y n k from quotes)
  unfolding yahoo_quotes
  yahoo_quotes-IsWhole y k from [] = Ensures-ok _ [] (tt, refl)
  yahoo_quotes-IsWhole y k from (q ∷ qs) = Ensures-bind _ _ _ λ r e. Ensures-bind _ _ _ λ rs es.
      let first = (yahoo_quote-IsQuote y k from q).holds r e in
      let (kept, whole) = (yahoo_quotes-IsWhole y (k + 1) from qs).holds rs es in
      Ensures-ok _ _ (((first.same_base, first.nonzero), kept), cc (first.same_quote, whole))

  -- If Yahoo's adapter succeeds it returns one reading for every currency that was asked for, in
  -- their order and of the base, all in upper case, and no rate is zero.
  pub yahoo_fetch-IsWhole :
      (y : Yahoo) (quotes : List Text) (rs : List (Reading F))
      → yahoo_fetch net y n base quotes ≡ ok rs
      → IsWhole from quotes rs
  unfolding yahoo_fetch
  yahoo_fetch-IsWhole y quotes rs h = (yahoo_quotes-IsWhole y 0 from quotes).holds rs h

  yahoo-IsAnswer :
      (y : Yahoo) (quotes : List Text)
      → Ensures (IsAnswer from quotes) (yahoo_fetch net y n base quotes)
  yahoo-IsAnswer y quotes = record {
    holds = λ rs h.
        let (kept, whole) = yahoo_fetch-IsWhole y quotes rs h in
        (All-map_pred (λ r k. k.0) rs kept, rw whole (Sublist.refl _));
  }

  abbrev Answers : Provider.Provider F → Type 0
  Answers prov = (quotes : List Text) → Ensures (IsAnswer from quotes) (prov.fetch n base quotes)

  new_from_config-Answers : (p : Config.Provider) → Ensures Answers (new_from_config net p)
  unfolding new_from_config
  new_from_config-Answers p = elim (Bool-cases (text_eq p.kind (codes "frankfurter"))) [
    | inl e ↦
        rw (new_from_config, e, if◌then◌else◌) (Ensures-ok _ _ (λ q. frankfurter-IsAnswer _ q))
    | inr e ↦ elim (Bool-cases (text_eq p.kind (codes "moneyconvert"))) [
      | inl f ↦
          rw (new_from_config, e, f, if◌then◌else◌)
            (Ensures-ok _ _ (λ q. money_convert-IsAnswer _ q))
      | inr f ↦ elim (Bool-cases (text_eq p.kind (codes "yahoo"))) [
        | inl g ↦
            rw (new_from_config, e, f, g, if◌then◌else◌) (Ensures-ok _ _ (λ q. yahoo-IsAnswer _ q))
        | inr g ↦ rw (new_from_config, e, f, g, if◌then◌else◌) (Ensures-err _ _)
      ]
    ]
  ]

  -- Whatever the network answers: when a provider that NewFromConfig made succeeds, every reading
  -- is of the base that was asked for, which is USD when none was, and the currencies of the
  -- readings are some of those asked for, in their order; all are in upper case.
  pub new_from_config-IsAnswer :
      (p : Config.Provider) (prov : Provider.Provider F) (quotes : List Text)
      (rs : List (Reading F))
      → new_from_config net p ≡ ok prov
      → prov.fetch n base quotes ≡ ok rs
      → IsAnswer from quotes rs
  new_from_config-IsAnswer p prov quotes rs made fetched =
      ((new_from_config-Answers p).holds prov made quotes).holds rs fetched
