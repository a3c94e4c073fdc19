-- ===== src/Start/Jobs.antt =====
-- cmd/argosfx/main.go: the polls that a start on a new database registers, and their rows.
use argos_fx.Prelude.{
  ℕ, ◌<◌, ◌≡◌, ◌∙◌, ap, refl, Bool, not, Bool-cases, inl, inr, List, [], ◌∷◌, ◌++◌, none, arith,
  All, if◌then◌else◌,
}
use argos_fx.Text.{Text}
use argos_fx.Error.{Outcome, ok, err}
use argos_fx.Float.{Double}
use argos_fx.Store.{
  World, M, ◌>>=◌, after, return, attempt, find_provider, provider_row, ProviderRow, Db,
}
use argos_fx.Store.Sound.{new_db, Reach, created}
use argos_fx.Store.Writing.{IsWriting-upsert_provider}
use argos_fx.Config
use argos_fx.Config.{is_enabled}
use argos_fx.Config.Valid.{IsDistinct}
use argos_fx.Provider
use argos_fx.Scheduler.{Schedule}
use argos_fx.Adapters.{Net, new_from_config}
use argos_fx.Start.{
  Started, deref_int, stored_provider, job_of, add_job, start_made, start_provider, start_providers,
}
use argos_fx.Start.Rows.{unknown-append, All-unknown, row_of, IsNew, upsert-IsNew}

module _ {F : Type 0} where
  -- Each poll has a row of its own, in the order of the rows, with its limit of calls.
  pub data IsServed : List (Started F) → List ProviderRow → Type 0 where
    nothing : IsServed [] []
    passed :
        (row : ProviderRow) {started : List (Started F)} {rows : List ProviderRow}
        → IsServed started rows
        → IsServed started (rows ++ (row ∷ []))
    registered :
        (s : Started F) (row : ProviderRow) {started : List (Started F)} {rows : List ProviderRow}
        → row.id ≡ s.job.provider_id
        → deref_int row.calls_per_day ≡ s.job.calls_per_day
        → IsServed started rows
        → IsServed (started ++ (s ∷ [])) (rows ++ (row ∷ []))

  -- What holds before the providers that are left.
  pub record IsStarting (left : List Config.Provider) (started : List (Started F)) (db : Db F)
      : Type 0 where
    pub numbered : 0 < db.next_provider
    pub unknown : All (λ pc. find_provider pc.name db.providers ≡ none) left
    pub differ : IsDistinct left
    pub served : IsServed started db.providers
    pub reached : Reach db
    pub unused : db.usage ≡ []

module _ {F : Type 0} ⦃d : Double F⦄ (net : Net F) (accepts : Schedule → Bool)
    (code_list : List Text) where
  -- An effect that goes on with a list of polls.
  pub record Goes (left : List Config.Provider) (out : Outcome (List (Started F)) × World F)
      : Type 0 where
    pub polls : List (Started F)
    pub succeeds : out.0 ≡ ok polls
    pub starting : IsStarting left polls out.1.db

  same-IsStarting :
      (pc : Config.Provider) (left : List Config.Provider) (started : List (Started F))
      (w w' : World F)
      → w'.db ≡ w.db
      → IsStarting (pc ∷ left) started w.db
      → IsStarting left started w'.db
  same-IsStarting pc left started w w' same s = rw same (record {
    numbered = s.numbered;
    unknown = s.unknown.1;
    differ = s.differ.1;
    served = s.served;
    reached = s.reached;
    unused = s.unused;
  })

  added-IsStarting :
      (pc : Config.Provider) (left : List Config.Provider) (started polls : List (Started F))
      (w w' : World F)
      → IsStarting (pc ∷ left) started w.db
      → IsNew (stored_provider pc) w w'
      → IsServed polls (w.db.providers ++ (row_of (stored_provider pc) w ∷ []))
      → Reach w'.db
      → IsStarting left polls w'.db
  unfolding stored_provider provider_row
  added-IsStarting pc left started polls w w' s new served reached = record {
    numbered = rw new.next (omega arith);
    unknown = rw new.providers (
        unknown-append pc.name left w.db.providers (row_of (stored_provider pc) w) refl s.differ.0
          s.unknown.1);
    differ = s.differ.1;
    served = rw new.providers served;
    reached = reached;
    unused = new.same_usage ∙ s.unused;
  }

  -- The job is added if the driver and the cron library let it.
  add_job-IsServed :
      (pc : Config.Provider) (prov : Provider.Provider F) (n : ℕ) (started : List (Started F))
      (row : ProviderRow) (rows : List ProviderRow)
      → row.id ≡ n
      → row.calls_per_day ≡ pc.calls_per_day
      → IsServed started rows
      → IsServed (add_job net accepts code_list pc prov (ok n) started) (rows ++ (row ∷ []))
  unfolding add_job
  add_job-IsServed pc prov n started row rows id calls served =
      elim (Bool-cases (accepts (job_of net accepts code_list pc prov n).schedule)) [
        | inl e ↦ rw (e, if◌then◌else◌) (registered _ row id (ap deref_int calls) served)
        | inr e ↦ rw (e, if◌then◌else◌) (passed row served)
      ]

  start_made-Goes :
      (pc : Config.Provider) (made : Outcome (Provider.Provider F)) (left : List Config.Provider)
      (started : List (Started F)) (w : World F)
      → IsStarting (pc ∷ left) started w.db
      → Goes left (start_made net accepts code_list pc made started w)
  unfolding start_made ◌>>=◌ attempt return stored_provider provider_row add_job
  start_made-Goes pc (err e) left started w s = record {
    polls = started;
    succeeds = refl;
    starting = same-IsStarting pc left started w w refl s;
  }
  start_made-Goes pc (ok prov) left started w s =
      let row = stored_provider pc in
      elim (upsert-IsNew row w s.numbered s.unknown.0) [
        | inl (failed, same) ↦ record {
          polls = _;
          succeeds = refl;
          starting = rw (failed, same) (same-IsStarting pc left started w w refl s);
        }
        | inr (stored, new) ↦ record {
          polls = _;
          succeeds = refl;
          starting = rw stored (
              added-IsStarting pc left started _ w _ s new
                (add_job-IsServed pc prov _ started (row_of row w) _ refl refl s.served)
                ((IsWriting-upsert_provider row).reaches w s.reached));
        }
      ]

  start_provider-Goes :
      (pc : Config.Provider) (left : List Config.Provider) (started : List (Started F))
      (w : World F)
      → IsStarting (pc ∷ left) started w.db
      → Goes left (start_provider net accepts code_list pc started w)
  unfolding start_provider return
  start_provider-Goes pc left started w s = elim (Bool-cases (not (is_enabled pc))) [
    | inl e ↦
        rw (e, if◌then◌else◌)
          (record {
            polls = started;
            succeeds = refl;
            starting = same-IsStarting pc left started w w refl s;
          })
    | inr e ↦ rw (e, if◌then◌else◌) (start_made-Goes pc (new_from_config net pc) left started w s)
  ]

  Goes-after :
      (left : List Config.Provider) (out : Outcome (List (Started F)) × World F)
      (f : List (Started F) → M F (List (Started F)))
      → Goes left out
      → ((polls : List (Started F)) (w : World F)
          → IsStarting left polls w.db
          → Goes [] (f polls w))
      → Goes [] (after f out)
  Goes-after left (ok polls, w) f g next =
      let same : g.polls ≡ polls = cc (g.succeeds) in next polls w (rw (← same) g.starting)
  Goes-after left (err e, w) f g next = absurd cc (g.succeeds)

  start_providers-Goes :
      (pcs : List Config.Provider) (started : List (Started F)) (w : World F)
      → IsStarting pcs started w.db
      → Goes [] (start_providers net accepts code_list pcs started w)
  unfolding start_providers ◌>>=◌ return
  start_providers-Goes [] started w s = record { polls = started; succeeds = refl; starting = s }
  start_providers-Goes (pc ∷ pcs) started w s =
      let first = start_provider-Goes pc pcs started w s in
      Goes-after pcs _ _ first (start_providers-Goes pcs)

  pub new-Goes :
      (pcs : List Config.Provider) (rowid : ℕ) (w : World F)
      → w.db ≡ record new_db { last_rowid = rowid }
      → IsDistinct pcs
      → Goes [] (start_providers net accepts code_list pcs [] w)
  new-Goes pcs rowid w new distinct = start_providers-Goes pcs [] w (
      rw new (record {
        numbered = omega arith;
        unknown = All-unknown pcs;
        differ = distinct;
        served = nothing;
        reached = created rowid;
        unused = refl;
      }))

  -- On a new database, whatever row the connection has inserted last, with providers of distinct
  -- names: whatever fails, the start registers its polls, each with the id and the limit of calls
  -- of a row of its own, in the order of the rows.
  pub start_providers-IsServed :
      (pcs : List Config.Provider) (rowid : ℕ) (w : World F)
      → w.db ≡ record new_db { last_rowid = rowid }
      → IsDistinct pcs
      → (started : List (Started F)) × ((start_providers net accepts code_list pcs [] w).0
          ≡ ok started)
        × IsServed started (start_providers net accepts code_list pcs [] w).1.db.providers
  start_providers-IsServed pcs rowid w new distinct =
      let goes = new-Goes pcs rowid w new distinct in
      (goes.polls, goes.succeeds, goes.starting.served)
