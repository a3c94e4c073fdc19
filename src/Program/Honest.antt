-- ===== src/Program/Honest.antt =====
-- cmd/argosfx/main.go: the rates that the running program answers with.
use argos_fx.Prelude.{◌≡◌, List, some, All}
use argos_fx.Error.{ok}
use argos_fx.Store.{World}
use argos_fx.Aggregator.Types.{Result}
use argos_fx.Aggregator.Types as Types
use argos_fx.Aggregator.Compute.{compute}
use argos_fx.Text.{Text, to_upper}
use argos_fx.Float.{Double}
use argos_fx.Cache.{new_cache}
use argos_fx.Config
use argos_fx.Config.Allowed.{IsCode, load_currencies_ok}
use argos_fx.Adapters.{Net}
use argos_fx.Http.{Library, Server, single_rate, new_server}
use argos_fx.Http.Site.{Site}
use argos_fx.Http.Honest.{AreWritten, KeepsWritten, keeps_written}
use argos_fx.Http.Honest.Handlers.{IsSource}
use argos_fx.Http.Honest.Calls.{handle-IsHonest}
use argos_fx.Http.Honest.Pairs.{IsHonestAnswer, single_rate-IsHonestAnswer}
use argos_fx.Start.{Started, server_of, response_cache}
use argos_fx.Start.Main.{Host, Cron, Running, serving, main}
use argos_fx.Start.Main.Serves.{main-IsServing}
use argos_fx.Program.{Runs, idle, poll, request, removal}

module _ {F : Type 0} ⦃d : Double F⦄ (server : Server F) where
  -- The server has an aggregator, whose `Compute` returns the result in some state of the database.
  pub record IsComputed (from to : Text) (res : Result F) : Type 0 where
    pub config : Types.Config F
    pub configured : server.agg ≡ some config
    pub world : World F
    pub returned : (compute config from to world).0 ≡ ok res

  sources_here : (cfg : Types.Config F) → server.agg ≡ some cfg → IsSource IsComputed cfg
  sources_here cfg e from to w res h = record {
    config = cfg;
    configured = e;
    world = w;
    returned = h;
  }

module _ {F : Type 0} ⦃d : Double F⦄ (lib : Library F) (server : Server F) (cfg : Config.Config F)
    (started : List (Started F)) where
  Runs-AreWritten :
      {site site' : Site F}
      → All IsCode server.currencies
      → AreWritten lib (IsComputed server) site.cache
      → Runs lib server cfg started site site'
      → AreWritten lib (IsComputed server) site'.cache
  unfolding KeepsWritten
  Runs-AreWritten ps w idle = w
  Runs-AreWritten ps w (poll j m runs) = Runs-AreWritten ps w runs
  Runs-AreWritten ps w (request call runs) =
      (handle-IsHonest lib server (IsComputed server) (sources_here server)
          ⦃steps = keeps_written lib (IsComputed server)⦄ call ps).keeps
        _ (Runs-AreWritten ps w runs)
  Runs-AreWritten ps w (removal runs) = Runs-AreWritten ps w runs

module _ {F : Type 0} ⦃d : Double F⦄ (net : Net F) (cron : Cron) (host : Host F)
    (lib : Library F) where
  nothing_written :
      (server : Server F) (cfg : Config.Config F)
      → AreWritten lib (IsComputed server) (some (response_cache cfg))
  unfolding AreWritten response_cache new_cache
  nothing_written server cfg = tt

  -- The program listens, and polls, requests and removals have followed each other in any order:
  -- an answer to a request for the rate of a pair with the status 200, also one from the cache, is
  -- empty or the encoded rate of a result that `Compute` of the server's aggregator returns, in some
  -- state of the database, for the pair that was asked for, in upper case.
  pub main-answers :
      (r : Running F) (site : Site F) (base quote : Text)
      → main net cron host ≡ serving r
      → Runs lib r.server r.config r.polls r.site site
      → IsHonestAnswer lib
          (IsComputed r.server)
          (to_upper base)
          (to_upper quote)
          (single_rate lib r.server base quote site).0
  unfolding server_of new_server
  main-answers r site base quote starts runs =
      let serves = main-IsServing net cron host r starts in
      let known : All IsCode r.server.currencies =
        rw (serves.server)
          (load_currencies_ok host.currencies serves.currencies serves.allowed).1 in
      let empty : AreWritten lib (IsComputed r.server) r.site.cache =
        rw (serves.cache) (nothing_written r.server r.config) in
      single_rate-IsHonestAnswer lib r.server (IsComputed r.server) base quote site
        (sources_here r.server) known
        (Runs-AreWritten lib r.server r.config r.polls known empty runs)
