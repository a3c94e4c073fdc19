-- ===== src/Http/Along.antt =====
-- Relations between the states before and after an effect of a handler: those that hold along the
-- reads of the store, the clock and the metrics hold along what is composed of these.
use argos_fx.Prelude.{Bool, true, false, if◌then◌else◌}
use argos_fx.Metrics.{Metrics}
use argos_fx.Store.{M}
use argos_fx.Store.ReadOnly.{IsReadOnly}
use argos_fx.Http.Site.{Site, H, ◌>>=◌, pure, run, now, with_metrics}

module _ {F : Type 0} where
  pub record Steps (R : Site F → Site F → Type 0) : Type 1 where
    pub stays : (s : Site F) → R s s
    pub goes_on : {r s t : Site F} → R r s → R s t → R r t
    pub reads : {A : Type 0} (m : M F A) → IsReadOnly m → (s : Site F) → R s (run m s).1
    pub ticks : (s : Site F) → R s (now s).1
    pub counts : (f : Metrics F → Metrics F) (s : Site F) → R s (with_metrics f s).1

  pub record IsAlong (R : Site F → Site F → Type 0) {A : Type 0} (m : H F A) : Type 0 where
    pub keeps : (s : Site F) → R s (m s).1

module _ {F : Type 0} {R : Site F → Site F → Type 0} ⦃steps : Steps R⦄ where
  pub IsAlong-pure : {A : Type 0} (a : A) → IsAlong R (pure a)
  unfolding pure
  IsAlong-pure a = record { keeps = steps.stays }

  pub IsAlong-run : {A : Type 0} (m : M F A) → IsReadOnly m → IsAlong R (run m)
  IsAlong-run m p = record { keeps = steps.reads m p }

  pub IsAlong-if :
      {A : Type 0} (t : Bool) (m n : H F A)
      → IsAlong R m
      → IsAlong R n
      → IsAlong R (if t then m else n)
  IsAlong-if true m n p q = p
  IsAlong-if false m n p q = q

  pub IsAlong-bind :
      {A B : Type 0} (m : H F A) (f : A → H F B)
      → IsAlong R m
      → ((a : A) → IsAlong R (f a))
      → IsAlong R (m >>= f)
  unfolding ◌>>=◌
  IsAlong-bind m f p q = record {
    keeps = λ s. steps.goes_on (p.keeps s) ((q (m s).0).keeps (m s).1);
  }

  pub IsAlong-now : IsAlong R now
  IsAlong-now = record { keeps = steps.ticks }

  pub IsAlong-with_metrics : (f : Metrics F → Metrics F) → IsAlong R (with_metrics f)
  IsAlong-with_metrics f = record { keeps = steps.counts f }

pub ruleset along_rules =
    (IsAlong-pure, IsAlong-run, IsAlong-if, IsAlong-bind, IsAlong-now, IsAlong-with_metrics)
