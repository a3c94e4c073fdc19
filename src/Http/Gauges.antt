-- ===== src/Http/Gauges.antt =====
-- internal/httpapi/httpapi.go: the gauges of the usage that a request of the metrics refreshes.
use argos_fx.Prelude.{
  ℕ, ◌+◌, ◌≡◌, ◌≢◌, refl, ap, ◌∙◌, false, List, [], ◌∷◌, Option, none, some, arith, ite, All,
  if◌then◌else◌, if_pos, if_neg,
}
use argos_fx.Prelude.Int.{ℤ}
use argos_fx.Prelude.Pairwise.{IsPairwise}
use argos_fx.Text.{Text, codes, text_discrete}
use argos_fx.Clock.{Time, day_of}
use argos_fx.Float.{Double}
use argos_fx.Metrics.{Metrics, set_labeled, labeled_value}
use argos_fx.Metrics.Laws.{labeled_value-set_labeled}
use argos_fx.Cache.{Cache}
use argos_fx.Store.{World, Provider, UsageRow, usage_today, usage_count, query}
use argos_fx.Http.Types.{Library}
use argos_fx.Http.Site.{Site, pure, run, ◌>>=◌, with_metrics}
use argos_fx.Http.Status.{provider_label, of_count, limit_gauge, refresh_provider, refresh_all}

abbrev pub used_gauge : Text
used_gauge = codes "argosfx_budget_used_today"

abbrev limit_name : Text
limit_name = codes "argosfx_budget_limit"

limit_name-used_gauge : limit_name ≢ used_gauge
limit_name-used_gauge e = absurd cc

module _ {F : Type 0} ⦃d : Double F⦄ (lib : Library F) (t : Time) where
  abbrev with_limit : Text → Option ℤ → Metrics F → Metrics F
  with_limit label none m = m
  with_limit label (some n) m = set_labeled limit_name label (d.of_int n) m

  -- The gauges of one provider, when the database answers.
  abbrev shown : List UsageRow → Provider → Metrics F → Metrics F
  shown usage p m =
      let label = provider_label lib p.name in
      let m' = set_labeled used_gauge label (of_count 0) m in
      with_limit label p.calls_per_day
        (set_labeled used_gauge label (of_count (usage_count p.id (day_of t) usage)) m')

  abbrev at : World F → ℕ → Metrics F → Option (Cache Text) → Site F
  at w n m c = record { world = record w { queries = n; metrics = some m }; cache = c }

  limit_gauge-with_limit :
      (w : World F) (n : ℕ) (label : Text) (o : Option ℤ) (m : Metrics F) (c : Option (Cache Text))
      → limit_gauge lib label o (at w n m c) ≡ (tt, at w n (with_limit label o m) c)
  unfolding limit_gauge with_metrics pure
  limit_gauge-with_limit w n label none m c = refl
  limit_gauge-with_limit w n label (some v) m c = refl

  refresh_provider-shown :
      (w : World F) (n : ℕ) (m : Metrics F) (c : Option (Cache Text)) (p : Provider)
      → w.broken n ≡ false
      → refresh_provider lib t p (at w n m c) ≡ (tt, at w (n + 1) (shown w.db.usage p m) c)
  unfolding refresh_provider ◌>>=◌ run with_metrics usage_today query
  refresh_provider-shown w n m c p answers =
      rw (answers, if◌then◌else◌)
        (limit_gauge-with_limit w (n + 1) (provider_label lib p.name) p.calls_per_day _ c)

  abbrev shown_all : List UsageRow → List Provider → Metrics F → Metrics F
  shown_all usage [] m = m
  shown_all usage (p ∷ ps) m = shown_all usage ps (shown usage p m)

  refresh_all_end : (e : ℕ) (site : Site F) → refresh_all lib t [] e site ≡ (e, site)
  unfolding refresh_all pure
  refresh_all_end e site = refl

  refresh_all_step :
      (p : Provider) (ps : List Provider) (e : ℕ) (site : Site F)
      → refresh_all lib t (p ∷ ps) e site
        ≡ refresh_all lib t ps (if p.enabled then e + 1 else e) (refresh_provider lib t p site).1
  unfolding refresh_all ◌>>=◌
  refresh_all_step p ps e site = refl

  refresh_all-shown :
      (w : World F) (ps : List Provider) (e n : ℕ) (m : Metrics F) (c : Option (Cache Text))
      → ((k : ℕ) → w.broken k ≡ false)
      → (k : ℕ) × ((refresh_all lib t ps e (at w n m c)).1 ≡ at w k (shown_all w.db.usage ps m) c)
  refresh_all-shown w [] e n m c answers = (n, rw (refresh_all_end e) refl)
  refresh_all-shown w (p ∷ ps) e n m c answers =
      let first = refresh_provider-shown w n m c p (answers n) in
      let e' = if p.enabled then e + 1 else e in
      let (k, rest) = refresh_all-shown w ps e' (n + 1) (shown w.db.usage p m) c answers in
      (k, rw (refresh_all_step p ps e, first) rest)

  with_limit-used :
      (k label : Text) (o : Option ℤ) (m : Metrics F)
      → labeled_value used_gauge k (with_limit label o m) ≡ labeled_value used_gauge k m
  with_limit-used k label none m = refl
  with_limit-used k label (some v) m =
      labeled_value-set_labeled limit_name label used_gauge k (d.of_int v) m
      ∙ if_neg (text_discrete limit_name used_gauge) limit_name-used_gauge _ _

  set_used :
      (k label : Text) (v : F) (m : Metrics F)
      → labeled_value used_gauge k (set_labeled used_gauge label v m)
        ≡ ite (text_discrete label k) v (labeled_value used_gauge k m)
  set_used k label v m =
      labeled_value-set_labeled used_gauge label used_gauge k v m
      ∙ if_pos (text_discrete used_gauge used_gauge) refl _ _

  shown-used :
      (usage : List UsageRow) (p : Provider) (k : Text) (m : Metrics F)
      → labeled_value used_gauge k (shown usage p m)
        ≡ ite
            (text_discrete (provider_label lib p.name) k)
            (of_count (usage_count p.id (day_of t) usage))
            (labeled_value used_gauge k m)
  shown-used usage p k m =
      let label = provider_label lib p.name in
      rw (with_limit-used k label p.calls_per_day, set_used k label, set_used k label)
        (ground arith)

  shown_all-other :
      (usage : List UsageRow) (ps : List Provider) (k : Text) (m : Metrics F)
      → All (λ p. provider_label lib p.name ≢ k) ps
      → labeled_value used_gauge k (shown_all usage ps m) ≡ labeled_value used_gauge k m
  shown_all-other usage [] k m _ = refl
  shown_all-other usage (p ∷ ps) k m (other, others) =
      shown_all-other usage ps k (shown usage p m) others
      ∙ shown-used usage p k m
      ∙ if_neg (text_discrete (provider_label lib p.name) k) other _ _

  -- The gauge of every provider shows its calls of the day.
  abbrev pub IsShown : List UsageRow → Metrics F → Provider → Type 0
  IsShown usage m p =
      labeled_value used_gauge (provider_label lib p.name) m
      ≡ of_count (usage_count p.id (day_of t) usage)

  abbrev pub HasOtherLabel : Provider → Provider → Type 0
  HasOtherLabel p q = provider_label lib q.name ≢ provider_label lib p.name

  shown_all-IsShown :
      (usage : List UsageRow) (ps : List Provider) (m : Metrics F)
      → IsPairwise HasOtherLabel ps
      → All (IsShown usage (shown_all usage ps m)) ps
  shown_all-IsShown usage [] m _ = tt
  shown_all-IsShown usage (p ∷ ps) m (others, distinct) =
      let label = provider_label lib p.name in
      (
        shown_all-other usage ps label (shown usage p m) others
            ∙ shown-used usage p label m
            ∙ if_pos (text_discrete label label) refl _ _,
        shown_all-IsShown usage ps (shown usage p m) distinct,
      )

  -- When the driver answers and the providers have different labels, the loop of the refresh ends
  -- with every provider's gauge showing the calls that are counted for it on the day.
  pub refresh_all-IsShown :
      (w : World F) (ps : List Provider) (e : ℕ) (m : Metrics F) (c : Option (Cache Text))
      → ((k : ℕ) → w.broken k ≡ false)
      → IsPairwise HasOtherLabel ps
      → (m' : Metrics F) × ((refresh_all lib t ps e
            (record { world = record w { metrics = some m }; cache = c })).1.world.metrics
          ≡ some m')
        × All (IsShown w.db.usage m') ps
  refresh_all-IsShown w ps e m c answers distinct =
      let (k, same) = refresh_all-shown w ps e w.queries m c answers in
      (
        shown_all w.db.usage ps m,
        ap (λ (site : Site F). site.world.metrics) same,
        shown_all-IsShown w.db.usage ps m distinct,
      )
