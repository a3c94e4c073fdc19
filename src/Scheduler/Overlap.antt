-- ===== src/Scheduler/Overlap.antt =====
-- internal/scheduler/manager.go: polls of one provider that overlap. The cron library starts every
-- poll in a goroutine of its own, also while an earlier one runs. A poll goes on by statements of the
-- database and calls of the API, and between two of them other polls go on.
use argos_fx.Prelude.{
  ℕ, ◌≡◌, ◌≢◌, ◌<◌, true, Bool, List, [], ◌∷◌, ◌++◌, Option, none, some, length, if◌then◌else◌,
}
use argos_fx.Error.{wrap, Outcome, ok, err, in_context}
use argos_fx.Store.{
  World, M, ◌>>=◌, ◌>>◌, return, fail, map_outcome, attempt, now, insert_reading, increment_usage,
  usage_today,
}
use argos_fx.Provider
use argos_fx.Scheduler.Run.{
  ProviderJob, budget_allowed, fetch_readings, record_success, record_error, reading_of,
}

-- Where a poll stands that the budget allowed: before the fetch, or with readings to store.
pub data Phase (F : Type 0) : Type 0 where
  fetching : Phase F
  storing : List (Provider.Reading F) → Phase F

module _ {F : Type 0} (j : ProviderJob F) where
  -- The reading of the usage and the test of the budget.
  unfoldable pub begin_poll : M F Bool
  begin_poll = do
    t ← now
    used ← map_outcome (in_context "read usage") (usage_today j.provider_id t)
    return (budget_allowed used j.calls_per_day)

  unfoldable pub fetched : Outcome (List (Provider.Reading F)) → M F (Option (Phase F))
  fetched (ok readings) = return (some (storing readings))
  fetched (err e) = record_error j.provider.name >> fail (wrap "fetch" e)

  -- The next call of the API or statement of a poll, and where the poll stands then, unless it has
  -- ended.
  unfoldable pub go_on : Phase F → M F (Option (Phase F))
  unfolding fetched
  go_on fetching = attempt (fetch_readings j) >>= fetched
  go_on (storing (r ∷ rs)) =
      map_outcome (in_context "insert reading") (insert_reading (reading_of j.provider_id r))
      >> return (some (storing rs))
  go_on (storing []) = do
    t ← now
    _ ← map_outcome (in_context "increment usage") (increment_usage j.provider_id t)
    _ ← record_success j.provider.name
    return none

  -- A poll that nothing interrupts, from its readings on.
  unfoldable pub store_alone : List (Provider.Reading F) → M F (Unit {0})
  unfolding go_on
  store_alone [] = go_on (storing []) >> return tt
  store_alone (r ∷ rs) = go_on (storing (r ∷ rs)) >> store_alone rs

  abbrev pub from_phase : Option (Phase F) → M F (Unit {0})
  from_phase none = return tt
  from_phase (some fetching) = return tt
  from_phase (some (storing rs)) = store_alone rs

  unfoldable pub poll_alone : M F (Unit {0})
  unfolding begin_poll store_alone
  poll_alone = do allowed ← begin_poll; if allowed then go_on fetching >>= from_phase else return tt

-- The world and where the polls stand that run.
pub record Overlap (F : Type 0) : Type 0 where
  pub world : World F
  pub running : List (Phase F)

abbrev pub next_phase {ℓ} : {A : Type ℓ} → Outcome (Option A) → List A
next_phase (ok (some p)) = p ∷ []
next_phase (ok none) = []
next_phase (err e) = []

-- At most `cap` polls of the job run at a time.
pub data Overlaps {F : Type 0} (j : ProviderJob F) (cap : ℕ) (s : Overlap F)
    : Overlap F → Type 0 where
  none_yet : Overlaps j cap s s
  begun :
      {t : Overlap F}
      → length t.running < cap
      → (begin_poll j t.world).0 ≡ ok true
      → Overlaps j cap s t
      → Overlaps j cap s
          (record { world = (begin_poll j t.world).1; running = fetching ∷ t.running })
  passed_over :
      {t : Overlap F}
      → (begin_poll j t.world).0 ≢ ok true
      → Overlaps j cap s t
      → Overlaps j cap s (record t { world = (begin_poll j t.world).1 })
  gone_on :
      {t : Overlap F} (xs ys : List (Phase F)) (p : Phase F)
      → t.running ≡ xs ++ (p ∷ ys)
      → Overlaps j cap s t
      → Overlaps j cap s (record {
        world = (go_on j p t.world).1;
        running = xs ++ (next_phase (go_on j p t.world).0 ++ ys);
      })
