-- ===== src/Tests/Configs.antt =====
-- A configuration that sets little, and a list of currencies.
use argos_fx.Prelude.{◌≡◌, refl, ◌↔◌, ◌⊎◌, true, false, [], ◌∷◌, none, All}
use argos_fx.Prelude.Int.{pos}
use argos_fx.Text.{Text, codes, is_empty, to_upper, trim_space, split, byte_length, text_discrete}
use argos_fx.Error.{ok}
use argos_fx.Float.Fixed.{Fixed, micro, fixed_double, Fixed-IsIeee}
use argos_fx.Config.{
  Config, Provider, Currencies, apply_defaults, validate, load, load_currencies, usd, comma, clean,
}
use argos_fx.Config.Valid.{IsNamed, IsDistinct, validate_iff}
use argos_fx.Config.Defaults.{IsComplete, load-IsComplete}
use argos_fx.Config.Allowed.{IsCode, IsAllowed, IsBlank, load_currencies_ok}

abbrev named : Text → Provider
named name = record {
  name = name;
  kind = name;
  config = none;
  priority = pos 0;
  calls_per_day = none;
  schedule_cron = [];
  enabled = true;
}

abbrev bare : Config Fixed
bare = record {
  server = record { listen = codes ":8080" };
  cache = record { compute_ttl_seconds = pos 0; http_cache_max_age_sec = pos 30 };
  aggregator = record {
    outlier_tolerance_pct = micro 0;
    min_providers = pos 2;
    max_age_seconds = pos 0;
    retention_days = pos 0;
  };
  providers = named (codes "yahoo") ∷ named (codes "frankfurter") ∷ [];
}

validate_iff_example : (validate bare ≡ ok tt) ↔ (
    (is_empty bare.server.listen ≡ false) × All IsNamed bare.providers × IsDistinct bare.providers)
validate_iff_example = validate_iff bare

load-IsComplete_example :
    IsComplete (apply_defaults bare) × (validate (apply_defaults bare) ≡ ok tt)
unfolding load apply_defaults validate text_discrete
load-IsComplete_example =
    load-IsComplete Fixed-IsIeee (ok (codes "listen: :8080")) (λ _. ok bare) (apply_defaults bare)
      refl

abbrev listed : Currencies
listed = record { allowed = usd ∷ codes "BRL" ∷ codes "EUR" ∷ [] }

load_currencies_ok_example :
    IsAllowed usd listed.allowed
    × All IsCode listed.allowed
    × All
        (λ piece. IsBlank piece ⊎ IsAllowed (clean piece) listed.allowed)
        (split comma (trim_space (codes " eur, Brl,,")))
unfolding load_currencies trim_space split to_upper byte_length text_discrete
load_currencies_ok_example = load_currencies_ok (codes " eur, Brl,,") listed refl
