-- ===== src/Aggregator/Direct.antt =====
-- internal/aggregator/aggregator.go: `computeDirect`, the rate of one currency against the base.
pub mod Rate
use argos_fx.Prelude.{
  ℕ, ◌+◌, Bool, true, false, ◌&&◌, List, [], ◌∷◌, ◌++◌, map, Option, none, some, length, get_elem?,
  ltb, ◌==◌, if◌then◌else◌, any, ℕ_discrete,
}
use argos_fx.Prelude.Int.{ℤ, pos, ltb_ℤ}
use argos_fx.Prelude.Sort.{sort}
use argos_fx.Text.{Text, text_discrete, text_less, to_upper}
use argos_fx.Clock.{Time, sub_time}
use argos_fx.Error.{Outcome, in_context, insufficient_providers}
use argos_fx.Assoc.{get, put}
use argos_fx.Float.{Double}
use argos_fx.Store.{
  Provider, Reading, M, ◌>>=◌, ◌>>◌, return, fail, map_outcome, now, latest_readings_per_provider,
  list_providers, text_eq,
}
use argos_fx.Aggregator.Types.{Config, Source, Result}
use argos_fx.Aggregator.Stats.{median, filter_outliers}

unfoldable pub contains : List Text → Text → Bool
contains [] v = false
contains (x ∷ xs) v = if text_eq x v then true else contains xs v

unfoldable pub add_names : List Provider → List (ℕ × Text) → List (ℕ × Text)
unfolding put ℕ_discrete
add_names [] m = m
add_names (p ∷ ps) m = add_names ps (put ℕ_discrete p.id p.name m)

-- The map from the ids of the providers to their names.
unfoldable pub name_by_id : List Provider → List (ℕ × Text)
unfolding add_names
name_by_id providers = add_names providers []

-- `nameByID[id]`, empty for an id that is missing.
abbrev pub name_of : List (ℕ × Text) → ℕ → Text
name_of names id = elim (get ℕ_discrete id names) [ none ↦ [] | some name ↦ name ]

module _ {F : Type 0} ⦃d : Double F⦄ where
  -- `indexOf`, from the index `i` on; `none` is -1.
  unfoldable pub index_from : ℕ → List F → F → Option ℕ
  index_from i [] target = none
  index_from i (v ∷ vs) target =
      if d.lt (d.abs (d.sub v target)) d.tiny then some i else index_from (i + 1) vs target

  unfoldable pub index_of : List F → F → Option ℕ
  unfolding index_from
  index_of values target = index_from 0 values target

  -- The newest time of the readings, the zero time for none.
  unfoldable pub newest : List (Reading F) → Time → Time
  newest [] freshness = freshness
  newest (r ∷ rs) freshness =
      newest rs (if ltb freshness r.fetched_at then r.fetched_at else freshness)

  unfoldable pub source_of : List (ℕ × Text) → Reading F → Source F
  source_of names r = record {
    provider_id = r.provider_id;
    provider_name = name_of names r.provider_id;
    rate = r.rate;
    fetched_at = r.fetched_at;
    provider_ts = r.provider_ts;
  }

  unfoldable pub add_sources :
      List (ℕ × Text) → List (Reading F) → List (Text × Source F) → List (Text × Source F)
  unfolding put source_of
  add_sources names [] m = m
  add_sources names (r ∷ rs) m =
      add_sources names rs (put text_discrete (name_of names r.provider_id) (source_of names r) m)

  -- What one value of the filtered list adds to `providersUsed`. An index past the end of
  -- `providerIDs` would be a panic; the two lists have one length.
  unfoldable pub add_used : List (ℕ × Text) → List F → List ℕ → F → List Text → List Text
  unfolding index_of contains get ℕ_discrete
  add_used names values provider_ids v used = elim (index_of values v) [
    | none ↦ used
    | some idx ↦ elim (get_elem? provider_ids idx) [
      | none ↦ used
      | some pid ↦ elim (get ℕ_discrete pid names) [
        | none ↦ used
        | some name ↦ if contains used name then used else used ++ (name ∷ [])
      ]
    ]
  ]

  unfoldable pub used_names : List (ℕ × Text) → List F → List ℕ → List F → List Text → List Text
  unfolding add_used
  used_names names values provider_ids [] used = used
  used_names names values provider_ids (v ∷ vs) used =
      used_names names values provider_ids vs (add_used names values provider_ids v used)

  -- `ageSec`: the clock is read only if there is a reading.
  unfoldable pub age_seconds : Time → M F F
  age_seconds freshness =
      if freshness == 0
      then return d.nought
      else do t ← now; return (d.seconds (sub_time t freshness))

  abbrev pub rates : List (Reading F) → List F
  rates = map λ r. r.rate

  -- What `computeDirect` computes from what it has read.
  unfoldable pub direct_result :
      Config F → Text → List (Reading F) → List ℕ → List Provider → F → Time → Result F
  unfolding name_by_id used_names add_sources
  direct_result cfg quote readings provider_ids providers age t =
      let names = name_by_id providers in
      let values = rates readings in
      let filtered = filter_outliers values (d.div cfg.outlier_tolerance_pct d.hundred) in
      let med = (median filtered).0 in
      record {
        from = cfg.base;
        to = to_upper quote;
        rate = med;
        freshness_seconds = age;
        providers_used = sort text_less (used_names names values provider_ids filtered []);
        sources = add_sources names readings [];
        median_from = d.one;
        median_to = med;
        computed_at = t;
      }

  unfoldable pub compute_direct : Config F → Text → Time → M F (Result F)
  compute_direct cfg quote since = do
    (readings, provider_ids) ←
        map_outcome (in_context "read latest readings") (latest_readings_per_provider quote since)
    (if ltb_ℤ (pos (length readings)) cfg.min_providers
        then fail (insufficient_providers (length readings) cfg.min_providers)
        else return tt)
    providers ← list_providers
    age ← age_seconds (newest readings 0)
    t ← now
    return (direct_result cfg quote readings provider_ids providers age t)
