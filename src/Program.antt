-- ===== src/Program.antt =====
-- cmd/argosfx/main.go: the whole program. After the start, polls of the registered jobs, requests of
-- the API and the daily removal of old readings run one after the other, in any order.
pub mod Budgets
mod Ids
pub mod Whole
pub mod Honest
use argos_fx.Prelude.{List, [], ◌∷◌}
use argos_fx.Float.{Double}
use argos_fx.Config
use argos_fx.Scheduler.{run_with_timeout}
use argos_fx.Http.{Server, Library, Call, handle}
use argos_fx.Http.Site.{Site}
use argos_fx.Start.{Started, prune_daily}

-- An item of a list.
pub data Member {ℓ} {A : Type ℓ} (x : A) : List A → Type ℓ where
  here : {xs : List A} → Member x (x ∷ xs)
  there : {y : A} {xs : List A} → Member x xs → Member x (y ∷ xs)

module _ {F : Type 0} ⦃d : Double F⦄ (lib : Library F) (server : Server F) (cfg : Config.Config F)
    (started : List (Started F)) (site : Site F) where
  -- The states that the program reaches from a state with these registered polls.
  pub data Runs : Site F → Type 0 where
    idle : Runs site
    poll :
        (j : Started F) {s : Site F}
        → Member j started
        → Runs s
        → Runs (record s { world = (run_with_timeout j.job s.world).1 })
    request : (call : Call) {s : Site F} → Runs s → Runs (handle lib server call s).1
    removal : {s : Site F} → Runs s → Runs (record s { world = (prune_daily cfg s.world).1 })
