-- ===== src/Start/Main/Serves.antt =====
-- cmd/argosfx/main.go: when `main` gets to the listening, and with what.
use argos_fx.Prelude.{
  some, ◌≡◌, ◌∙◌, refl, sym, ap, Bool, false, not, Bool-cases, inl, inr, List, [], ◌∷◌,
  if◌then◌else◌,
}
use argos_fx.Text.{Text, codes}
use argos_fx.Error.{Outcome, ok, err}
use argos_fx.Float.{Double}
use argos_fx.Store.{World, M, ◌>>=◌, after, return, attempt}
use argos_fx.Store.Migrate.{Opening, migrations_fs, open_store}
use argos_fx.Store.Migrate.Works.{open_store-works}
use argos_fx.Aggregator.Types.{usd}
use argos_fx.Config
use argos_fx.Config.{Currencies, is_enabled, load, load_currencies}
use argos_fx.Provider
use argos_fx.Scheduler.{Schedule}
use argos_fx.Adapters.{Net, new_from_config}
use argos_fx.Start.{
  Started, env_or, quote_codes, start_made, start_provider, start_providers, server_of,
  response_cache,
}
use argos_fx.Start.Main.{
  Host, Cron, serving, Running, is_healthcheck, opening_of, world_of, takes, running_of, main,
  main_loaded, main_configured, main_opened,
}

module _ {F : Type 0} ⦃d : Double F⦄ (net : Net F) (accepts : Schedule → Bool)
    (code_list : List Text) where
  -- An effect that does not fail.
  abbrev IsFine : Outcome (List (Started F)) × World F → Type 0
  IsFine out = (polls : List (Started F)) × (out.0 ≡ ok polls)

  start_made-IsFine :
      (pc : Config.Provider) (made : Outcome (Provider.Provider F)) (started : List (Started F))
      (w : World F)
      → IsFine (start_made net accepts code_list pc made started w)
  unfolding start_made ◌>>=◌ attempt return
  start_made-IsFine pc (err e) started w = (_, refl)
  start_made-IsFine pc (ok prov) started w = (_, refl)

  start_provider-IsFine :
      (pc : Config.Provider) (started : List (Started F)) (w : World F)
      → IsFine (start_provider net accepts code_list pc started w)
  unfolding start_provider return
  start_provider-IsFine pc started w = elim (Bool-cases (not (is_enabled pc))) [
    | inl e ↦ rw (e, if◌then◌else◌) (started, refl)
    | inr e ↦ rw (e, if◌then◌else◌) (start_made-IsFine pc (new_from_config net pc) started w)
  ]

  after-IsFine :
      (f : List (Started F) → M F (List (Started F))) (out : Outcome (List (Started F)) × World F)
      → IsFine out
      → ((polls : List (Started F)) (w : World F) → IsFine (f polls w))
      → IsFine (after f out)
  after-IsFine f (ok polls, w) h p = p polls w
  after-IsFine f (err e, w) h p = absurd cc (h.1)

  pub start_providers-IsFine :
      (pcs : List Config.Provider) (started : List (Started F)) (w : World F)
      → IsFine (start_providers net accepts code_list pcs started w)
  unfolding start_providers ◌>>=◌ return
  start_providers-IsFine [] started w = (started, refl)
  start_providers-IsFine (pc ∷ pcs) started w =
      after-IsFine _ _ (start_provider-IsFine pc started w) (start_providers-IsFine pcs)

module _ {F : Type 0} ⦃d : Double F⦄ (host : Host F) where
  abbrev pub loaded : Outcome (Config.Config F)
  loaded =
      load (host.read_file (env_or host.config_path (codes "/etc/argosfx/config.yaml")))
        host.unmarshal

  abbrev pub opened : Outcome (Unit {0}) × Opening F
  opened = open_store (migrations_fs F) (opening_of host)

module _ {F : Type 0} ⦃d : Double F⦄ (net : Net F) (cron : Cron) (host : Host F) where
  abbrev pub registered : Config.Config F → Currencies → Outcome (List (Started F)) × World F
  registered cfg currencies =
      start_providers net (takes cron) (quote_codes currencies usd) cfg.providers []
        (world_of host (opened host).1)

  -- What has succeeded when the program listens.
  pub record IsServing (r : Running F) : Type 0 where
    pub no_check : is_healthcheck host.args ≡ false
    pub configured : loaded host ≡ ok r.config
    pub currencies : Currencies
    pub allowed : load_currencies host.currencies ≡ ok currencies
    pub opens : (opened host).0 ≡ ok tt
    pub polls : (registered r.config currencies).0 ≡ ok r.polls
    pub world : r.site.world ≡ (registered r.config currencies).1
    pub server : r.server ≡ server_of r.config currencies
    pub cache : r.site.cache ≡ some (response_cache r.config)

serving-inj : {F : Type 0} {r q : Running F} → serving r ≡ serving q → r ≡ q
serving-inj h = cc

module _ {F : Type 0} ⦃d : Double F⦄ (net : Net F) (cron : Cron) (host : Host F) where
  -- What the last part of the start puts into the program.
  record IsFrom (cfg : Config.Config F) (currencies : Currencies)
      (out : Outcome (List (Started F)) × World F) (r : Running F) : Type 0 where
    config : r.config ≡ cfg
    polls : out.0 ≡ ok r.polls
    world : r.site.world ≡ out.1
    server : r.server ≡ server_of cfg currencies
    cache : r.site.cache ≡ some (response_cache cfg)

  running-IsFrom :
      (cfg : Config.Config F) (currencies : Currencies) (out : Outcome (List (Started F)) × World F)
      (r : Running F)
      → running_of net cron host cfg currencies out ≡ serving r
      → IsFrom cfg currencies out r
  running-IsFrom cfg currencies (err e, w) r h = absurd cc h
  running-IsFrom cfg currencies (ok started, w) r h =
      let e = serving-inj h in
      record {
        config = sym (ap (λ (r : Running F). r.config) e);
        polls = ap (λ (r : Running F). ok r.polls) e;
        world = sym (ap (λ (r : Running F). r.site.world) e);
        server = sym (ap (λ (r : Running F). r.server) e);
        cache = sym (ap (λ (r : Running F). r.site.cache) e);
      }

  abbrev Opens : Config.Config F → Currencies → Outcome (Unit {0}) × Opening F → Running F → Type 0
  Opens cfg currencies out r =
      (out.0 ≡ ok tt)
      × IsFrom cfg currencies
          (start_providers net (takes cron) (quote_codes currencies usd) cfg.providers []
            (world_of host out.1))
          r

  main_opened_lem :
      (cfg : Config.Config F) (currencies : Currencies) (out : Outcome (Unit {0}) × Opening F)
      (r : Running F)
      → main_opened net cron host cfg currencies out ≡ serving r
      → Opens cfg currencies out r
  unfolding main_opened
  main_opened_lem cfg currencies (err e, o) r h = absurd cc h
  main_opened_lem cfg currencies (ok tt, o) r h = (refl, running-IsFrom cfg currencies _ r h)

  main_configured_lem :
      (cfg : Config.Config F) (c : Outcome Currencies) (r : Running F)
      → main_configured net cron host cfg c ≡ serving r
      → (currencies : Currencies) × (c ≡ ok currencies) × Opens cfg currencies (opened host) r
  unfolding main_configured
  main_configured_lem cfg (err e) r h = absurd cc h
  main_configured_lem cfg (ok currencies) r h =
      (currencies, refl, main_opened_lem cfg currencies _ r h)

  main_loaded_lem :
      (l : Outcome (Config.Config F)) (r : Running F)
      → main_loaded net cron host l ≡ serving r
      → (cfg : Config.Config F) × (l ≡ ok cfg)
        × ((currencies : Currencies) × (load_currencies host.currencies ≡ ok currencies)
            × Opens cfg currencies (opened host) r)
  unfolding main_loaded
  main_loaded_lem (err e) r h = absurd cc h
  main_loaded_lem (ok cfg) r h =
      (cfg, refl, main_configured_lem cfg (load_currencies host.currencies) r h)

  -- If `main` gets to the listening, the configuration and the list of currencies were accepted,
  -- the database was opened, and the polls are those that the loop over the providers registered.
  pub main-IsServing : (r : Running F) → main net cron host ≡ serving r → IsServing net cron host r
  unfolding main
  main-IsServing r h = elim (Bool-cases (is_healthcheck host.args)) [
    | inl e ↦ absurd cc (rw (e, if◌then◌else◌) at h)
    | inr e ↦
        let (cfg, l, (currencies, c, (o, from))) =
          main_loaded_lem (loaded host) r (rw (e, if◌then◌else◌) at h) in
        record {
          no_check = e;
          configured = l ∙ ap ok (sym from.config);
          currencies = currencies;
          allowed = c;
          opens = o;
          polls = rw from.config (from.polls);
          world = rw from.config (from.world);
          server = rw from.config (from.server);
          cache = rw from.config (from.cache);
        }
  ]

  running_of-serves :
      (cfg : Config.Config F) (currencies : Currencies) (out : Outcome (List (Started F)) × World F)
      (polls : List (Started F))
      → out.0 ≡ ok polls
      → (r : Running F) × (running_of net cron host cfg currencies out ≡ serving r)
  running_of-serves cfg currencies (err e, w) polls h = absurd cc h
  running_of-serves cfg currencies (ok started, w) polls h = (_, refl)

  main_opened-serves :
      (cfg : Config.Config F) (currencies : Currencies) (out : Outcome (Unit {0}) × Opening F)
      → out.0 ≡ ok tt
      → (r : Running F) × (main_opened net cron host cfg currencies out ≡ serving r)
  unfolding main_opened
  main_opened-serves cfg currencies (err e, o) h = absurd cc h
  main_opened-serves cfg currencies (ok tt, o) h =
      let fine =
        start_providers-IsFine net (takes cron) (quote_codes currencies usd) cfg.providers []
          (world_of host o) in
      running_of-serves cfg currencies _ fine.0 fine.1

  -- If the program is not started with --healthcheck, the configuration and the list of currencies
  -- are accepted and no call of the driver ever fails, `main` gets to the listening, on any database
  -- file.
  pub main-serves :
      (cfg : Config.Config F) (currencies : Currencies)
      → is_healthcheck host.args ≡ false
      → loaded host ≡ ok cfg
      → load_currencies host.currencies ≡ ok currencies
      → host.broken ≡ (λ n. false)
      → (r : Running F) × (main net cron host ≡ serving r)
  unfolding main main_loaded main_configured
  main-serves cfg currencies no_check l c works =
      let (r, e) =
        main_opened-serves cfg currencies (opened host)
          (open_store-works (opening_of host) works) in
      (r, rw (no_check, l, c, if◌then◌else◌) e)
