-- ===== src/Config/Defaults.antt =====
-- internal/config/config.go: what the defaults give.
use argos_fx.Prelude.{◌≡◌, refl, false, arith, Bool-cases, inl, inr, if◌then◌else◌}
use argos_fx.Prelude.Int.{ℤ, pos, ◌<ℤ◌}
use argos_fx.Float.{Double, IsIeee}
use argos_fx.Config.{
  Config, apply_defaults, or_default, load, validate, after_validate, after_parse,
}
use argos_fx.Error.{Outcome, ok, err, in_context}

module _ {F : Type 0} ⦃d : Double F⦄ where
  -- Every number that has a default is positive; the tolerance is at least not zero or less.
  pub record IsComplete (c : Config F) : Type 0 where
    pub ttl : pos 0 <ℤ c.cache.compute_ttl_seconds
    pub http_max_age : pos 0 <ℤ c.cache.http_cache_max_age_sec
    pub tolerance : d.le c.aggregator.outlier_tolerance_pct d.nought ≡ false
    pub min_providers : pos 0 <ℤ c.aggregator.min_providers
    pub max_age : pos 0 <ℤ c.aggregator.max_age_seconds
    pub retention : pos 0 <ℤ c.aggregator.retention_days

or_default_id : (n m : ℤ) → pos 0 <ℤ n → or_default n m ≡ n
or_default_id n m h = ground arith

module _ {F : Type 0} ⦃d : Double F⦄ (laws : IsIeee F) where
  -- The defaults leave no number unset: afterwards every one of them is positive.
  pub apply_defaults-IsComplete : (c : Config F) → IsComplete (apply_defaults c)
  unfolding apply_defaults
  apply_defaults-IsComplete c = record {
    ttl = ground arith;
    http_max_age = ground arith;
    tolerance = elim (Bool-cases (d.le c.aggregator.outlier_tolerance_pct d.nought)) [
      | inl h ↦ rw (h, if◌then◌else◌) ((laws.le-nought d.two laws.nought-lt-two).1)
      | inr h ↦ rw (h, if◌then◌else◌) h
    ];
    min_providers = ground arith;
    max_age = ground arith;
    retention = ground arith;
  }

module _ {F : Type 0} ⦃d : Double F⦄ where
  -- A configuration in which every number is set is left as it is.
  pub apply_defaults_id : (c : Config F) → IsComplete c → apply_defaults c ≡ c
  unfolding apply_defaults
  apply_defaults_id c p = rw (
    or_default_id c.cache.compute_ttl_seconds (pos 60) p.ttl,
    or_default_id c.cache.http_cache_max_age_sec c.cache.compute_ttl_seconds p.http_max_age,
    p.tolerance,
    if◌then◌else◌,
    or_default_id c.aggregator.min_providers (pos 1) p.min_providers,
    or_default_id c.aggregator.max_age_seconds (pos 86400) p.max_age,
    or_default_id c.aggregator.retention_days (pos 365) p.retention,
  )

module _ {F : Type 0} where
  after_validate_ok :
      (c c' : Config F) (r : Outcome (Unit {0}))
      → after_validate c' r ≡ ok c
      → (c' ≡ c) × (r ≡ ok tt)
  after_validate_ok c c' (ok _) h = (ground arith, refl)
  after_validate_ok c c' (err e) h = absurd (ground arith)

module _ {F : Type 0} ⦃d : Double F⦄ (laws : IsIeee F) where
  after_parse_ok :
      (r : Outcome (Config F)) (c : Config F)
      → after_parse (in_context "parse config" r) ≡ ok c
      → IsComplete c × (validate c ≡ ok tt)
  after_parse_ok (err e) c h = absurd (ground arith)
  after_parse_ok (ok c₀) c h =
      let (same, valid) =
        after_validate_ok c (apply_defaults c₀) (validate (apply_defaults c₀)) h in
      rw (← same) (apply_defaults-IsComplete laws c₀, valid)

  -- A configuration that `Load` returns passes `Validate`, its four counts and times with a default
  -- and the age for HTTP caches are positive, and its tolerance is not zero or less.
  pub load-IsComplete :
      {B : Type 0} (file : Outcome B) (unmarshal : B → Outcome (Config F)) (c : Config F)
      → load file unmarshal ≡ ok c
      → IsComplete c × (validate c ≡ ok tt)
  unfolding load
  load-IsComplete (err e) unmarshal c h = absurd (ground arith)
  load-IsComplete (ok b) unmarshal c h = after_parse_ok (unmarshal b) c h

module _ {F : Type 0} ⦃d : Double F⦄ where
  parsed-IsValid :
      (r : Outcome (Config F)) (c : Config F)
      → after_parse (in_context "parse config" r) ≡ ok c
      → validate c ≡ ok tt
  parsed-IsValid (err e) c h = absurd (ground arith)
  parsed-IsValid (ok c₀) c h =
      let (same, valid) =
        after_validate_ok c (apply_defaults c₀) (validate (apply_defaults c₀)) h in
      rw (← same) valid

  -- A configuration that `Load` returns passes `Validate`.
  pub load-IsValid :
      {B : Type 0} (file : Outcome B) (unmarshal : B → Outcome (Config F)) (c : Config F)
      → load file unmarshal ≡ ok c
      → validate c ≡ ok tt
  unfolding load
  load-IsValid (err e) unmarshal c h = absurd (ground arith)
  load-IsValid (ok b) unmarshal c h = parsed-IsValid (unmarshal b) c h
