-- ===== src/Adapters.antt =====
-- internal/provider/adapters: the providers of rates that the program knows, and the registry that
-- makes them from the configuration.
mod Network
mod Latest
mod Chart
pub mod Readings
unfoldable pub use Network.*
unfoldable pub use Latest.*
unfoldable pub use Chart.*
use argos_fx.Prelude.{ℕ, List, Option, none, some, if◌then◌else◌}
use argos_fx.Text.{Text, codes, text_discrete}
use argos_fx.Assoc.{get}
use argos_fx.Error.{message, Outcome, ok, err}
use argos_fx.Float.{Double}
use argos_fx.Store.{Setting, text, other, Settings, text_eq}
use argos_fx.Config
use argos_fx.Provider

abbrev text_or : Text → Option Setting → Text
text_or fallback none = fallback
text_or fallback (some (text s)) = s
text_or fallback (some other) = fallback

unfoldable pub string_config : Settings → Text → Text → Text
string_config none key fallback = fallback
string_config (some m) key fallback = text_or fallback (get text_discrete key m)

module _ {F : Type 0} ⦃d : Double F⦄ (net : Net F) where
  -- A provider's name is its type's, whatever its name in the configuration is.
  abbrev pub named :
      Text → (ℕ → Text → List Text → Outcome (List (Provider.Reading F))) → Provider.Provider F
  named name fetch = record { name = name; kind = name; fetch = fetch }

  -- `NewFromConfig`.
  unfoldable pub new_from_config : Config.Provider → Outcome (Provider.Provider F)
  unfolding string_config new_frankfurter new_money_convert new_yahoo
  new_from_config p =
      let base_url = string_config p.config (codes "base_url") in
      if text_eq p.kind (codes "frankfurter")
      then ok (
          named (codes "frankfurter") (
            frankfurter_fetch net
              (new_frankfurter (base_url (codes "https://api.frankfurter.app")))))
      else if text_eq p.kind (codes "moneyconvert")
      then ok (
          named (codes "moneyconvert") (
            money_convert_fetch net (
              new_money_convert (base_url (codes "https://cdn.moneyconvert.net"))
                (string_config p.config (codes "api_key") (codes "")))))
      else if text_eq p.kind (codes "yahoo")
      then ok (
          named (codes "yahoo")
            (yahoo_fetch net (new_yahoo (base_url (codes "https://query2.finance.yahoo.com")))))
      else err (message "unknown provider type %q")
