-- ===== src/Http/Quiet.antt =====
-- Effects of handlers that leave the tables as they are and call no provider.
use argos_fx.Prelude.{arith, ◌≡◌, refl, ◌∙◌, Bool, true, false, Option, none, some, if◌then◌else◌}
use argos_fx.Text.{Text}
use argos_fx.Metrics.{Metrics}
use argos_fx.Store.{M}
use argos_fx.Store.ReadOnly.{IsReadOnly}
use argos_fx.Http.Along.{Steps, IsAlong}
use argos_fx.Http.Types.{Json, Library}
use argos_fx.Http.Site.{Site, H, ◌>>=◌, pure, run, now, with_metrics, cache_lookup, cache_store}

module _ {F : Type 0} where
  -- The tables and the calls of the providers' APIs are the same.
  pub record SameTables (s s' : Site F) : Type 0 where
    pub same_db : s'.world.db ≡ s.world.db
    pub same_clock : s'.world.clock ≡ s.world.clock
    pub same_fetches : s'.world.fetches ≡ s.world.fetches

  SameTables-refl : (s : Site F) → SameTables s s
  SameTables-refl s = record { same_db = refl; same_clock = refl; same_fetches = refl }

  SameTables-trans : {r s t : Site F} → SameTables r s → SameTables s t → SameTables r t
  SameTables-trans p q = record {
    same_db = q.same_db ∙ p.same_db;
    same_clock = q.same_clock ∙ p.same_clock;
    same_fetches = q.same_fetches ∙ p.same_fetches;
  }

  pub record IsQuiet {A : Type 0} (m : H F A) : Type 0 where
    pub keeps : (s : Site F) → SameTables s (m s).1

module _ {F A : Type 0} where
  pub IsQuiet-pure : (a : A) → IsQuiet {F = F} (pure a)
  unfolding pure
  IsQuiet-pure a = record { keeps = SameTables-refl }

  pub IsQuiet-run : (m : M F A) → IsReadOnly m → IsQuiet (run m)
  unfolding run
  IsQuiet-run m p = record {
    keeps = λ s.
        let k = p.keeps s.world in
        record { same_db = k.same_db; same_clock = k.same_clock; same_fetches = k.same_fetches };
  }

  pub IsQuiet-if : (t : Bool) (m n : H F A) → IsQuiet m → IsQuiet n → IsQuiet (if t then m else n)
  IsQuiet-if true m n p q = p
  IsQuiet-if false m n p q = q

module _ {F A B : Type 0} where
  pub IsQuiet-bind :
      (m : H F A) (f : A → H F B) → IsQuiet m → ((a : A) → IsQuiet (f a)) → IsQuiet (m >>= f)
  unfolding ◌>>=◌
  IsQuiet-bind m f p q = record {
    keeps = λ s. SameTables-trans (p.keeps s) ((q (m s).0).keeps (m s).1);
  }

  pub IsQuiet-option :
      (o : Option A) (m : H F B) (f : A → H F B)
      → IsQuiet m
      → ((a : A) → IsQuiet (f a))
      → IsQuiet (elim o [ none ↦ m | some a ↦ f a ])
  IsQuiet-option none m f p q = p
  IsQuiet-option (some a) m f p q = q a

module _ {F : Type 0} where
  pub IsQuiet-now : IsQuiet {F = F} now
  unfolding now
  IsQuiet-now = record {
    keeps = λ s. record { same_db = refl; same_clock = refl; same_fetches = refl };
  }

  pub IsQuiet-with_metrics : (f : Metrics F → Metrics F) → IsQuiet (with_metrics f)
  unfolding with_metrics
  IsQuiet-with_metrics f = record {
    keeps = λ s. record { same_db = refl; same_clock = refl; same_fetches = refl };
  }

  pub IsQuiet-cache_lookup : (key : Text) → IsQuiet {F = F} (cache_lookup key)
  unfolding cache_lookup now
  IsQuiet-cache_lookup key = record {
    keeps = λ s. record { same_db = refl; same_clock = refl; same_fetches = refl };
  }

  pub IsQuiet-cache_store :
      (lib : Library F) (key : Text) (v : Json F) → IsQuiet (cache_store lib key v)
  unfolding cache_store now
  IsQuiet-cache_store lib key v = record { keeps = λ s. ground arith }

  instance pub same_tables : Steps (SameTables {F = F})
  unfolding run now with_metrics
  same_tables = record {
    stays = SameTables-refl;
    goes_on = SameTables-trans;
    reads = λ m p. (IsQuiet-run m p).keeps;
    ticks = IsQuiet-now.keeps;
    counts = λ f. (IsQuiet-with_metrics f).keeps;
  }

  pub of_along : {A : Type 0} {m : H F A} → IsAlong SameTables m → IsQuiet m
  of_along p = record { keeps = p.keeps }

pub ruleset quiet_rules = (
  IsQuiet-pure, IsQuiet-run, IsQuiet-if, IsQuiet-bind, IsQuiet-now, IsQuiet-with_metrics,
  IsQuiet-cache_lookup, IsQuiet-cache_store,
)
