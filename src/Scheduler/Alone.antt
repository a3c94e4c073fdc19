-- ===== src/Scheduler/Alone.antt =====
-- A poll that nothing interrupts, step by step, is one poll.
use argos_fx.Prelude.{
  ℕ, ◌≡◌, refl, Bool, true, false, List, [], ◌∷◌, Option, none, some, if◌then◌else◌,
}
use argos_fx.Error.{Outcome, ok, err, in_context}
use argos_fx.Store.{
  World, M, ◌>>=◌, return, fail, map_outcome, attempt, now, after, increment_usage,
}
use argos_fx.Provider
use argos_fx.Scheduler.Run.{
  ProviderJob, budget_allowed, fetch_readings, record_success, record_error, insert_all,
  store_fetched, after_fetch, fetch_and_store, run_once,
}
use argos_fx.Scheduler.Overlap.{
  Phase, fetching, storing, begin_poll, fetched, go_on, store_alone, from_phase, poll_alone,
}

module _ {F : Type 0} (j : ProviderJob F) where
  abbrev finish : M F (Unit {0})
  finish = do
    t ← now
    _ ← map_outcome (in_context "increment usage") (increment_usage j.provider_id t)
    record_success j.provider.name

  counted_end :
      (r : Outcome (Unit {0}) × World F)
      → after
          (λ x. return tt)
          (after
            (λ x. record_success j.provider.name >>= λ y. return {A = Option (Phase F)} none)
            r)
        ≡ after (λ x. record_success j.provider.name) r
  unfolding ◌>>=◌ record_success return
  counted_end (ok x, w) = refl
  counted_end (err e, w) = refl

  stored_one :
      (rs : List (Provider.Reading F)) (r : Outcome (Unit {0}) × World F)
      → ((w : World F) → store_alone j rs w ≡ store_fetched j rs w)
      → after (λ p. store_alone j rs) (after (λ x. return (some (storing rs))) r)
        ≡ after (λ x. finish) (after (λ x. insert_all j.provider_id rs) r)
  unfolding return store_fetched ◌>>=◌
  stored_one rs (ok x, w) same = same w
  stored_one rs (err e, w) same = refl

  store_alone-store_fetched :
      (rs : List (Provider.Reading F)) (w : World F) → store_alone j rs w ≡ store_fetched j rs w
  unfolding store_alone go_on store_fetched insert_all ◌>>=◌ return now
  store_alone-store_fetched [] w = counted_end _
  store_alone-store_fetched (r ∷ rs) w = stored_one rs _ (store_alone-store_fetched rs)

  fetched-after_fetch :
      (o : Outcome (List (Provider.Reading F))) (w : World F)
      → after (from_phase j) (fetched j o w) ≡ after_fetch j o w
  unfolding fetched after_fetch ◌>>=◌ return record_error fail
  fetched-after_fetch (ok rs) w = store_alone-store_fetched rs w
  fetched-after_fetch (err e) w = refl

  fetch_alone : (w : World F) → (go_on j fetching >>= from_phase j) w ≡ fetch_and_store j w
  unfolding go_on fetch_and_store ◌>>=◌ attempt fetch_readings
  fetch_alone w = fetched-after_fetch _ _

  if_alone :
      (b : Bool) (w : World F)
      → (if b then go_on j fetching >>= from_phase j else return tt) w
        ≡ (if b then fetch_and_store j else return tt) w
  if_alone true w = fetch_alone w
  if_alone false w = refl

  begun_alone :
      (r : Outcome ℕ × World F)
      → after
          (λ b. if b then go_on j fetching >>= from_phase j else return tt)
          (after (λ used. return (budget_allowed used j.calls_per_day)) r)
        ≡ after
            (λ used. if budget_allowed used j.calls_per_day then fetch_and_store j else return tt)
            r
  unfolding return
  begun_alone (ok used, w) = if_alone (budget_allowed used j.calls_per_day) w
  begun_alone (err e, w) = refl

  -- A poll that runs alone, statement by statement, does what RunOnce does, in every world.
  pub poll_alone-run_once : (w : World F) → poll_alone j w ≡ run_once j w
  unfolding poll_alone begin_poll run_once ◌>>=◌ now return
  poll_alone-run_once w = begun_alone _
