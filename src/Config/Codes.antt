-- ===== src/Config/Codes.antt =====
-- internal/config/config.go: `LoadCurrencies`. The set of codes is a list without repetition.
use argos_fx.Prelude.{ℕ, List, [], ◌∷◌, any, ◌==◌, if◌then◌else◌}
use argos_fx.Text.{Text, codes, is_empty, to_upper, trim_space, split, byte_length}
use argos_fx.Error.{message, Outcome, ok, err}
use argos_fx.Store.{text_eq}

pub record Currencies : Type 0 where
  pub allowed : List Text

abbrev pub usd : Text
usd = codes "USD"

abbrev pub comma : ℕ
comma = b','

-- `out.Allowed[code] = struct{}{}`.
unfoldable pub allow : Text → List Text → List Text
allow code allowed = if any (text_eq code) allowed then allowed else code ∷ allowed

-- `strings.TrimSpace(strings.ToUpper(code))`.
abbrev pub clean : Text → Text
clean piece = trim_space (to_upper piece)

-- The loop over the pieces.
unfoldable pub allow_all : List Text → List Text → Outcome (List Text)
unfolding allow
allow_all [] allowed = ok allowed
allow_all (piece ∷ pieces) allowed =
    let code = clean piece in
    let next = if is_empty code then allowed else allow code allowed in
    let rest = allow_all pieces next in
    if is_empty code
    then rest
    else if byte_length code == 3
    then rest
    else err (message "invalid currency code %q (must be 3 letters)")

-- If USD is not there, it is added.
abbrev pub with_usd : Outcome (List Text) → Outcome Currencies
with_usd (ok allowed) = ok (record { allowed = allow usd allowed })
with_usd (err e) = err e

-- `LoadCurrencies`, of the value of ARGOSFX_CURRENCIES, empty if it is not set.
unfoldable pub load_currencies : Text → Outcome Currencies
unfolding allow_all
load_currencies value =
    let raw = trim_space value in
    if is_empty raw
    then err (message "ARGOSFX_CURRENCIES env var is required")
    else with_usd (allow_all (split comma raw) [])
