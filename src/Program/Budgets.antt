-- ===== src/Program/Budgets.antt =====
-- cmd/argosfx/main.go: what holds while the program runs: the budgets of a day and the tables.
use argos_fx.Prelude.{
  ℕ, ◌+◌, ◌≡◌, ◌≤◌, refl, ◌∙◌, Bool, not, Bool-cases, inl, inr, List, [], arith, Option, sym,
  if◌then◌else◌, ℕ_discrete,
}
use argos_fx.Prelude.Int.{pos, leb_ℤ}
use argos_fx.Prelude.Pairwise.{IsPairwise}
use argos_fx.Text.{Text}
use argos_fx.Cache.{Cache}
use argos_fx.Clock.{day_of}
use argos_fx.Error.{ok-inj, ok}
use argos_fx.Float.{Double}
use argos_fx.Store.{
  World, usage_count, attempt, ◌>>=◌, return, now, query, prune_older_than, prune_older_than_sql,
}
use argos_fx.Store.Sound.{Reach, IsSound, Reach-IsSound, new_db}
use argos_fx.Store.Writing.{
  IsWriting, IsWriting-same, IsWriting-bind, IsWriting-attempt, IsWriting-prune,
}
use argos_fx.Aggregator.History.{prune}
use argos_fx.Config
use argos_fx.Config.Valid.{IsDistinct}
use argos_fx.Scheduler.{Schedule, run_with_timeout, run_with_timeout-world}
use argos_fx.Scheduler.Budget.{IsWithin, run_once-IsWithin, other-IsWithin}
use argos_fx.Scheduler.Tables.{IsWriting-run_once}
use argos_fx.Http.{Server, Library, Call, handle}
use argos_fx.Http.Site.{Site}
use argos_fx.Http.Effects.{handle-SameTables}
use argos_fx.Adapters.{Net}
use argos_fx.Start.{Started, prune_daily, start_providers}
use argos_fx.Start.Jobs.{new-Goes}
use argos_fx.Program.{Member, Runs, idle, poll, request, removal}
use argos_fx.Program.Ids.{HasOtherId, IsServed-IsPairwise, same_poll, IsPairwise-map_pred}

usage_count-nil : (provider day : ℕ) → usage_count provider day [] ≡ 0
unfolding usage_count
usage_count-nil provider day = refl

module _ {F : Type 0} where
  -- The daily removal counts no call and leaves the clock.
  removal-same :
      ⦃d : Double F⦄ (cfg : Config.Config F) (w : World F)
      → ((prune_daily cfg w).1.clock ≡ w.clock) × ((prune_daily cfg w).1.db.usage ≡ w.db.usage)
  unfolding prune_daily prune prune_older_than prune_older_than_sql ◌>>=◌ attempt return now query
  removal-same cfg w = elim (Bool-cases (not (leb_ℤ cfg.aggregator.retention_days (pos 0)))) [
    | inl e ↦ elim (Bool-cases (w.broken w.queries)) [
      | inl f ↦ rw (e, f, if◌then◌else◌) (refl, refl)
      | inr f ↦ rw (e, f, if◌then◌else◌) (refl, refl)
    ]
    | inr e ↦ rw (e, if◌then◌else◌) (refl, refl)
  ]

  removal-IsWriting : ⦃d : Double F⦄ (cfg : Config.Config F) → IsWriting (prune_daily cfg)
  unfolding prune_daily prune now return
  removal-IsWriting cfg = elim (Bool-cases (not (leb_ℤ cfg.aggregator.retention_days (pos 0)))) [
    | inl e ↦
        rw (e, if◌then◌else◌)
          (IsWriting-bind _ _
            (IsWriting-attempt _
              (IsWriting-bind _ _ (IsWriting-same _ (λ w. refl)) (λ t. IsWriting-prune _)))
            (λ _. IsWriting-same _ (λ w. refl)))
    | inr e ↦ rw (e, if◌then◌else◌) (IsWriting-same _ (λ w. refl))
  ]

module _ {F : Type 0} ⦃d : Double F⦄ (lib : Library F) (server : Server F) (cfg : Config.Config F)
    (started : List (Started F)) (distinct : IsPairwise HasOtherId started) (s : Started F)
    (member : Member s started) (n : ℕ) (limit : s.job.calls_per_day ≡ pos (n + 1)) (day : ℕ) where
  -- The tables are the program's, and the calls of the poll's provider are within its limit.
  record IsKept (site : Site F) : Type 0 where
    reached : Reach site.world.db
    budget : IsWithin s.job n limit day site.world

  poll-IsKept :
      (j : Started F) (site : Site F)
      → Member j started
      → IsKept site
      → IsKept (record site { world = (run_with_timeout j.job site.world).1 })
  poll-IsKept j site m k = rw run_with_timeout-world (record {
    reached = (IsWriting-run_once j.job).reaches site.world k.reached;
    budget = elim (ℕ_discrete j.job.provider_id s.job.provider_id) [
      | yes e ↦
          rw (same_poll j s m member distinct e)
            (run_once-IsWithin s.job n limit day site.world k.budget)
      | no e ↦ other-IsWithin s.job n limit day j.job site.world e k.budget
    ];
  })

  removal-IsKept :
      (site : Site F)
      → IsKept site
      → IsKept (record site { world = (prune_daily cfg site.world).1 })
  removal-IsKept site k =
      let (clock, usage) = removal-same cfg site.world in
      record {
        reached = (removal-IsWriting cfg).reaches site.world k.reached;
        budget = record {
          same_day = λ t. rw clock (k.budget.same_day t);
          within = rw usage k.budget.within;
        };
      }

  request-IsKept :
      (call : Call) (site : Site F) → IsKept site → IsKept (handle lib server call site).1
  request-IsKept call site k =
      let same = handle-SameTables lib server call site in
      record {
        reached = rw same.same_db k.reached;
        budget = record {
          same_day = λ t. rw same.same_clock (k.budget.same_day t);
          within = rw same.same_db k.budget.within;
        };
      }

  Runs-IsKept :
      {site site' : Site F} → IsKept site → Runs lib server cfg started site site' → IsKept site'
  Runs-IsKept k idle = k
  Runs-IsKept k (poll j m runs) = poll-IsKept j _ m (Runs-IsKept k runs)
  Runs-IsKept k (request call runs) = request-IsKept call _ (Runs-IsKept k runs)
  Runs-IsKept k (removal runs) = removal-IsKept _ (Runs-IsKept k runs)

module _ {F : Type 0} ⦃d : Double F⦄ (net : Net F) (accepts : Schedule → Bool)
    (code_list : List Text) (lib : Library F) (server : Server F) (cfg : Config.Config F) where
  -- The program on a new database, with providers of distinct names: however its polls, requests
  -- and removals follow each other on one day, and whatever fails, the calls that are counted for
  -- each registered provider with a positive limit stay within that limit, and the tables are
  -- sound.
  pub program-budget :
      (rowid : ℕ) (w : World F) (cache : Option (Cache Text)) (started : List (Started F))
      (s : Started F) (n day : ℕ) (site : Site F)
      → w.db ≡ record new_db { last_rowid = rowid }
      → IsDistinct cfg.providers
      → (start_providers net accepts code_list cfg.providers [] w).0 ≡ ok started
      → Member s started
      → s.job.calls_per_day ≡ pos (n + 1)
      → ((t : ℕ)
          → day_of ((start_providers net accepts code_list cfg.providers [] w).1.clock t) ≡ day)
      → Runs lib server cfg started
          (record {
            world = (start_providers net accepts code_list cfg.providers [] w).1;
            cache = cache;
          })
          site
      → (usage_count s.job.provider_id day site.world.db.usage ≤ n + 1) × IsSound site.world.db
  program-budget rowid w cache started s n day site new names starts member limit one_day runs =
      let goes = new-Goes net accepts code_list cfg.providers rowid w new names in
      let same : goes.polls ≡ started = ok-inj (sym goes.succeeds ∙ starts) in
      let sound = Reach-IsSound _ goes.starting.reached in
      let served = rw same at goes.starting.served in
      let kept =
        Runs-IsKept lib server cfg started
          (IsServed-IsPairwise served (IsPairwise-map_pred (λ p q h. h.0) _ sound.providers_differ))
          s member n limit day
          (record {
            reached = goes.starting.reached;
            budget = record {
              same_day = one_day;
              within = rw (goes.starting.unused, usage_count-nil) (omega arith);
            };
          })
          runs in
      (kept.budget.within, Reach-IsSound _ kept.reached)
