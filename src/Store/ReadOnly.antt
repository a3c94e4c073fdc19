-- ===== src/Store/ReadOnly.antt =====
-- Effects that change no data: the tables, the calls of the providers' APIs and the metrics.
use argos_fx.Prelude.{◌≡◌, refl, ◌∙◌, Bool, true, false, Bool-cases, inl, inr, List, if◌then◌else◌}
use argos_fx.Text.{Text}
use argos_fx.Clock.{Time, Duration}
use argos_fx.Error.{Error, Outcome, ok, err}
use argos_fx.Store.Tables.{Db, ProviderRow, ReadingRow}
use argos_fx.Store.Monad.{
  World, M, ◌>>=◌, return, fail, of_outcome, map_outcome, attempt, query, now, arrange, after,
}
use argos_fx.Store.Readings.{latest_readings_per_provider}
use argos_fx.Store.Providers.{list_providers, scan_providers}
use argos_fx.Store.History
use argos_fx.Float.{Double}

module _ {F : Type 0} where
  pub record SameData (w w' : World F) : Type 0 where
    pub same_db : w'.db ≡ w.db
    pub same_clock : w'.clock ≡ w.clock
    pub same_fetches : w'.fetches ≡ w.fetches
    pub same_metrics : w'.metrics ≡ w.metrics

  pub SameData-refl : (w : World F) → SameData w w
  SameData-refl w = record {
    same_db = refl;
    same_clock = refl;
    same_fetches = refl;
    same_metrics = refl;
  }

  pub SameData-trans : {u v w : World F} → SameData u v → SameData v w → SameData u w
  SameData-trans p q = record {
    same_db = q.same_db ∙ p.same_db;
    same_clock = q.same_clock ∙ p.same_clock;
    same_fetches = q.same_fetches ∙ p.same_fetches;
    same_metrics = q.same_metrics ∙ p.same_metrics;
  }

module _ {F A : Type 0} where
  pub record IsReadOnly (m : M F A) : Type 0 where
    pub keeps : (w : World F) → SameData w (m w).1

  pub IsReadOnly-return : (a : A) → IsReadOnly (return a)
  unfolding return
  IsReadOnly-return a = record { keeps = SameData-refl }

  pub IsReadOnly-fail : (e : Error) → IsReadOnly (fail e)
  unfolding fail
  IsReadOnly-fail e = record { keeps = SameData-refl }

  pub IsReadOnly-of_outcome : (r : Outcome A) → IsReadOnly (of_outcome r)
  unfolding of_outcome
  IsReadOnly-of_outcome r = record { keeps = SameData-refl }

  pub IsReadOnly-map_outcome :
      (g : Outcome A → Outcome A) (m : M F A) → IsReadOnly m → IsReadOnly (map_outcome g m)
  unfolding map_outcome
  IsReadOnly-map_outcome g m p = record { keeps = p.keeps }

  pub IsReadOnly-if :
      (t : Bool) (m n : M F A) → IsReadOnly m → IsReadOnly n → IsReadOnly (if t then m else n)
  IsReadOnly-if true m n p q = p
  IsReadOnly-if false m n p q = q

  -- A statement that only reads.
  pub IsReadOnly-query : (f : Db F → Outcome A) → IsReadOnly (query λ db. (f db, db))
  unfolding query
  IsReadOnly-query f = record {
    keeps = λ w. elim (Bool-cases (w.broken w.queries)) [
      | inl e ↦
          rw (e, if◌then◌else◌)
            (record { same_db = refl; same_clock = refl; same_fetches = refl; same_metrics = refl })
      | inr e ↦
          rw (e, if◌then◌else◌)
            (record { same_db = refl; same_clock = refl; same_fetches = refl; same_metrics = refl })
    ];
  }

module _ {F A : Type 0} where
  pub IsReadOnly-attempt : (m : M F A) → IsReadOnly m → IsReadOnly (attempt m)
  unfolding attempt
  IsReadOnly-attempt m p = record { keeps = p.keeps }

module _ {F A B : Type 0} where
  after-SameData :
      (f : A → M F B) (w : World F) (r : Outcome A × World F)
      → ((a : A) → IsReadOnly (f a))
      → SameData w r.1
      → SameData w (after f r).1
  after-SameData f w (ok a, w') q s = SameData-trans s ((q a).keeps w')
  after-SameData f w (err e, w') q s = s

  pub IsReadOnly-bind :
      (m : M F A) (f : A → M F B)
      → IsReadOnly m
      → ((a : A) → IsReadOnly (f a))
      → IsReadOnly (m >>= f)
  unfolding ◌>>=◌
  IsReadOnly-bind m f p q = record { keeps = λ w. after-SameData f w (m w) q (p.keeps w) }

module _ {F : Type 0} where
  pub IsReadOnly-now : IsReadOnly {F = F} now
  unfolding now
  IsReadOnly-now = record {
    keeps =
        λ w. record { same_db = refl; same_clock = refl; same_fetches = refl; same_metrics = refl };
  }

  pub IsReadOnly-arrange : (rows : List (ReadingRow F)) → IsReadOnly (arrange rows)
  unfolding arrange
  IsReadOnly-arrange rows = record { keeps = SameData-refl }

pub ruleset read_rules = (
  IsReadOnly-return, IsReadOnly-fail, IsReadOnly-of_outcome, IsReadOnly-map_outcome,
  IsReadOnly-attempt, IsReadOnly-if, IsReadOnly-query, IsReadOnly-bind, IsReadOnly-now,
  IsReadOnly-arrange,
)

module _ {F : Type 0} where
  pub latest_readings-IsReadOnly :
      (quote : Text) (since : Time) → IsReadOnly {F = F} (latest_readings_per_provider quote since)
  unfolding latest_readings_per_provider
  latest_readings-IsReadOnly quote since = search read_rules

  scan_providers-IsReadOnly : (rows : List ProviderRow) → IsReadOnly {F = F} (scan_providers rows)
  unfolding scan_providers
  scan_providers-IsReadOnly rows = record { keeps = SameData-refl }

  pub list_providers-IsReadOnly : IsReadOnly {F = F} list_providers
  unfolding list_providers
  list_providers-IsReadOnly = search (read_rules, scan_providers-IsReadOnly)

  pub history-IsReadOnly :
      ⦃d : Double F⦄ (quote : Text) (start end : Time) (step : Duration)
      → IsReadOnly {F = F} (History.history quote start end step)
  unfolding History.history
  history-IsReadOnly quote start end step = search read_rules
