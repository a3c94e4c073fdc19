-- ===== src/Config.antt =====
-- internal/config/config.go: the settings, their defaults and their validation, and the list of
-- currencies. The reading of the file, the YAML library and the environment are not part of the
-- repository: what they give is an argument.
mod Codes
pub mod Defaults
pub mod Valid
pub mod Allowed
unfoldable pub use Codes.*
use argos_fx.Prelude.{Bool, true, false, List, [], ◌∷◌, Option, if◌then◌else◌}
use argos_fx.Prelude.Int.{ℤ, pos, leb_ℤ}
use argos_fx.Text.{Text, is_empty}
use argos_fx.Clock.{Duration, seconds_duration}
use argos_fx.Error.{message, Outcome, ok, err, in_context}
use argos_fx.Float.{Double}
use argos_fx.Store.{Settings, text_eq}

pub record Server : Type 0 where
  pub listen : Text

pub record Cache : Type 0 where
  pub compute_ttl_seconds : ℤ
  pub http_cache_max_age_sec : ℤ

pub record Aggregator (F : Type 0) : Type 0 where
  pub outlier_tolerance_pct : F
  pub min_providers : ℤ
  pub max_age_seconds : ℤ
  pub retention_days : ℤ

-- `Extra` is never read.
pub record Provider : Type 0 where
  pub name : Text
  pub kind : Text
  pub config : Settings
  pub priority : ℤ
  pub calls_per_day : Option ℤ
  pub schedule_cron : Text
  pub enabled : Bool

pub record Config (F : Type 0) : Type 0 where
  pub server : Server
  pub cache : Cache
  pub aggregator : Aggregator F
  pub providers : List Provider

-- `if n <= 0 { n = m }`.
abbrev pub or_default : ℤ → ℤ → ℤ
or_default n m = if leb_ℤ n (pos 0) then m else n

module _ {F : Type 0} ⦃d : Double F⦄ where
  unfoldable pub apply_defaults : Config F → Config F
  apply_defaults c =
      let ttl = or_default c.cache.compute_ttl_seconds (pos 60) in
      let a = c.aggregator in
      record c {
        cache = record {
          compute_ttl_seconds = ttl;
          http_cache_max_age_sec = or_default c.cache.http_cache_max_age_sec ttl;
        };
        aggregator = record {
          outlier_tolerance_pct =
              if d.le a.outlier_tolerance_pct d.nought then d.two else a.outlier_tolerance_pct;
          min_providers = or_default a.min_providers (pos 1);
          max_age_seconds = or_default a.max_age_seconds (pos 86400);
          retention_days = or_default a.retention_days (pos 365);
        };
      }

-- The loop of `Validate`, with the map `seen` as a function.
unfoldable pub check_providers : (Text → Bool) → List Provider → Outcome (Unit {0})
check_providers seen [] = ok tt
check_providers seen (p ∷ ps) =
    let rest = check_providers (λ q. if text_eq p.name q then true else seen q) ps in
    if is_empty p.name
    then err (message "providers[%d]: name is required")
    else if is_empty p.kind
    then err (message "providers[%d] (%s): type is required")
    else if seen p.name
    then err (message "providers[%d] (%s): duplicate name")
    else rest

module _ {F : Type 0} where
  unfoldable pub validate : Config F → Outcome (Unit {0})
  unfolding check_providers
  validate c =
      if is_empty c.server.listen
      then err (message "server.listen is required")
      else check_providers (λ _. false) c.providers

  abbrev after_validate : Config F → Outcome (Unit {0}) → Outcome (Config F)
  after_validate c (ok _) = ok c
  after_validate c (err e) = err e

module _ {F : Type 0} ⦃d : Double F⦄ where
  abbrev after_parse : Outcome (Config F) → Outcome (Config F)
  after_parse (ok c) = let c' = apply_defaults c in after_validate c' (validate c')
  after_parse (err e) = err e

  abbrev after_read : {B : Type 0} → (B → Outcome (Config F)) → Outcome B → Outcome (Config F)
  after_read unmarshal (ok b) = after_parse (in_context "parse config" (unmarshal b))
  after_read unmarshal (err e) = err e

  -- `Load`, of what reading the file gives.
  unfoldable pub load : {B : Type 0} → Outcome B → (B → Outcome (Config F)) → Outcome (Config F)
  unfolding apply_defaults validate
  load file unmarshal = after_read unmarshal (in_context "read config" file)

unfoldable pub compute_ttl : Cache → Duration
compute_ttl c = seconds_duration c.compute_ttl_seconds

unfoldable pub http_max_age : Cache → Duration
http_max_age c = seconds_duration c.http_cache_max_age_sec

module _ {F : Type 0} where
  unfoldable pub max_age : Aggregator F → Duration
  max_age a = seconds_duration a.max_age_seconds

unfoldable pub is_enabled : Provider → Bool
is_enabled p = p.enabled
