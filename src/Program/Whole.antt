-- ===== src/Program/Whole.antt =====
-- cmd/argosfx/main.go: the program from `main` on, on a database file that no provider was stored in.
use argos_fx.Prelude.{ℕ, ◌+◌, ◌≡◌, ◌≤◌, ap}
use argos_fx.Prelude.Int.{pos}
use argos_fx.Clock.{day_of}
use argos_fx.Float.{Double}
use argos_fx.Store.{Db, usage_count}
use argos_fx.Store.Sound.{IsSound, new_db}
use argos_fx.Store.Migrate.Opened.{Lives, open_store-rows}
use argos_fx.Config.Defaults.{load-IsValid}
use argos_fx.Config.Valid.{validate_iff}
use argos_fx.Adapters.{Net}
use argos_fx.Http.{Library}
use argos_fx.Http.Site.{Site}
use argos_fx.Start.{Started, quote_codes}
use argos_fx.Start.Main.{Host, Cron, Running, serving, main, opening_of, world_of, takes}
use argos_fx.Start.Main.Serves.{main-IsServing, opened}
use argos_fx.Program.{Member, Runs}
use argos_fx.Program.Budgets.{program-budget}
use argos_fx.Aggregator.Types.{usd}

module _ {F : Type 0} ⦃d : Double F⦄ (net : Net F) (cron : Cron) (host : Host F)
    (lib : Library F) where
  -- The program listens, on a database file in which earlier starts left no rows: however its
  -- polls, requests and removals follow each other on one day, and whatever fails, the calls that
  -- are counted for each registered provider with a positive limit stay within that limit, and
  -- the tables are sound.
  pub main-budget :
      (r : Running F) (s : Started F) (n day : ℕ) (site : Site F)
      → Lives new_db (opening_of host).file
      → main net cron host ≡ serving r
      → Member s r.polls
      → s.job.calls_per_day ≡ pos (n + 1)
      → ((t : ℕ) → day_of (r.site.world.clock t) ≡ day)
      → Runs lib r.server r.config r.polls r.site site
      → (usage_count s.job.provider_id day site.world.db.usage ≤ n + 1) × IsSound site.world.db
  main-budget r s n day site fresh starts member limit one_day runs =
      let serves = main-IsServing net cron host r starts in
      let valid = load-IsValid _ _ r.config serves.configured in
      program-budget net (takes cron) (quote_codes serves.currencies usd) lib r.server r.config
        (opened host).1.last_rowid (world_of host (opened host).1) r.site.cache r.polls s n day site
        (ap (λ (db : Db F). record db { last_rowid = (opened host).1.last_rowid })
          (open_store-rows new_db (opening_of host) fresh))
        ((validate_iff r.config).0 valid).2 serves.polls member limit (rw (← serves.world) one_day)
        (rw (← serves.world) runs)
