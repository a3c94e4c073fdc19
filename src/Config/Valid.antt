-- ===== src/Config/Valid.antt =====
-- internal/config/config.go: what `Validate` accepts.
use argos_fx.Prelude.{
  ◌≡◌, ◌≢◌, refl, ◌↔◌, Bool, true, false, List, [], ◌∷◌, All, arith, if◌then◌else◌,
}
use argos_fx.Text.{Text, is_empty}
use argos_fx.Error.{ok}
use argos_fx.Store.{text_eq}
use argos_fx.Config.{Config, Provider, check_providers, validate}

-- A provider with a name and a type.
abbrev pub IsNamed : Provider → Type 0
IsNamed p = (is_empty p.name ≡ false) × (is_empty p.kind ≡ false)

-- No two providers have the same name.
abbrev pub IsDistinct : List Provider → Type 0
IsDistinct [] = Unit
IsDistinct (p ∷ ps) = All (λ q. p.name ≢ q.name) ps × IsDistinct ps

abbrev IsUnseen : (Text → Bool) → Provider → Type 0
IsUnseen seen p = seen p.name ≡ false

abbrev see : Text → (Text → Bool) → Text → Bool
see name seen q = if text_eq name q then true else seen q

IsUnseen-see :
    (name : Text) (seen : Text → Bool) (ps : List Provider)
    → All (IsUnseen (see name seen)) ps ↔ (All (λ q. name ≢ q.name) ps × All (IsUnseen seen) ps)
IsUnseen-see name seen [] = (λ _. (tt, tt), λ _. tt)
IsUnseen-see name seen (p ∷ ps) = ground (arith, IsUnseen-see name seen ps)

-- What the loop accepts, when some names have been seen.
check_providers_iff :
    (seen : Text → Bool) (ps : List Provider)
    → (check_providers seen ps ≡ ok tt) ↔ (All IsNamed ps × All (IsUnseen seen) ps × IsDistinct ps)
unfolding check_providers
check_providers_iff seen [] = (λ _. (tt, tt, tt), λ _. refl)
check_providers_iff seen (p ∷ ps) =
    ground (arith, IsUnseen-see p.name seen ps, check_providers_iff (see p.name seen) ps)

All-IsUnseen : (ps : List Provider) → All (IsUnseen (λ _. false)) ps
All-IsUnseen [] = tt
All-IsUnseen (p ∷ ps) = (refl, All-IsUnseen ps)

module _ {F : Type 0} (c : Config F) where
  -- `Validate` accepts a configuration exactly when the server has an address to listen on, every
  -- provider has a name and a type, and no two providers have the same name.
  pub validate_iff :
      (validate c ≡ ok tt)
      ↔ ((is_empty c.server.listen ≡ false) × All IsNamed c.providers × IsDistinct c.providers)
  unfolding validate
  validate_iff =
      ground (arith, All-IsUnseen c.providers, check_providers_iff (λ _. false) c.providers)
