-- ===== src/Scheduler/Budget.antt =====
-- The budget of a day, whatever fails and however polls follow each other.
use argos_fx.Prelude.{ℕ, ◌+◌, ◌≡◌, ◌≢◌, ◌≤◌, inl, inr, arith}
use argos_fx.Prelude.Int.{pos}
use argos_fx.Clock.{day_of}
use argos_fx.Store.{World, usage_count}
use argos_fx.Scheduler.Run.{ProviderJob, budget_allowed, run_once}
use argos_fx.Scheduler.Calls.{run_once-cases, run_once-clock}

-- A number of polls in a row, of this job and of jobs of other providers.
pub data Polls {F : Type 0} (j : ProviderJob F) (w : World F) : World F → Type 0 where
  none_yet : Polls j w w
  poll : {w' : World F} → Polls j w w' → Polls j w (run_once j w').1
  other :
      {w' : World F} (i : ProviderJob F)
      → i.provider_id ≢ j.provider_id
      → Polls j w w'
      → Polls j w (run_once i w').1

module _ {F : Type 0} (j : ProviderJob F) (n : ℕ) (limit : j.calls_per_day ≡ pos (n + 1)) where
  -- If the calls of the day that the clock shows are within the job's positive limit, they are so
  -- after a poll, whatever the API and the database do.
  pub run_once-budget :
      (w : World F)
      → usage_count j.provider_id (day_of (w.clock w.ticks)) w.db.usage ≤ n + 1
      → usage_count j.provider_id (day_of (w.clock w.ticks)) (run_once j w).1.db.usage ≤ n + 1
  unfolding budget_allowed
  run_once-budget w before = elim (run_once-cases j.provider_id (day_of (w.clock w.ticks)) j w) [
    | inl same ↦ let le = same.count_le in omega arith
    | inr (under, more) ↦ let le = more.count_le in ground arith
  ]

  pub record IsWithin (d : ℕ) (w : World F) : Type 0 where
    pub same_day : (t : ℕ) → day_of (w.clock t) ≡ d
    pub within : usage_count j.provider_id d w.db.usage ≤ n + 1

  pub run_once-IsWithin : (d : ℕ) (w : World F) → IsWithin d w → IsWithin d (run_once j w).1
  run_once-IsWithin d w p =
      let day = p.same_day w.ticks in
      let before : usage_count j.provider_id (day_of (w.clock w.ticks)) w.db.usage ≤ n + 1 =
        rw day p.within in
      let kept = run_once-budget w before in
      record { same_day = λ t. rw (run_once-clock 0 0 j w) (p.same_day t); within = rw day at kept }

  pub other-IsWithin :
      (d : ℕ) (i : ProviderJob F) (w : World F)
      → i.provider_id ≢ j.provider_id
      → IsWithin d w
      → IsWithin d (run_once i w).1
  other-IsWithin d i w different p = record {
    same_day = λ t. rw (run_once-clock 0 0 i w) (p.same_day t);
    within =
        let before = p.within in
        elim (run_once-cases j.provider_id d i w) [
          | inl same ↦ let le = same.count_le in omega arith
          | inr (under, more) ↦ let le = more.count_le in ground arith
        ];
  }

  Polls-IsWithin : (d : ℕ) {w w' : World F} → IsWithin d w → Polls j w w' → IsWithin d w'
  Polls-IsWithin d p none_yet = p
  Polls-IsWithin d p (poll polls) = run_once-IsWithin d _ (Polls-IsWithin d p polls)
  Polls-IsWithin d p (other i different polls) =
      other-IsWithin d i _ different (Polls-IsWithin d p polls)

  -- However many polls follow each other on one day, one after the other, of this job and of jobs
  -- of other providers, and whatever fails: if the calls that are counted for the provider on that
  -- day are within the job's positive limit, they stay within it.
  pub Polls-budget :
      (d : ℕ) (w w' : World F)
      → ((t : ℕ) → day_of (w.clock t) ≡ d)
      → usage_count j.provider_id d w.db.usage ≤ n + 1
      → Polls j w w'
      → usage_count j.provider_id d w'.db.usage ≤ n + 1
  Polls-budget d w w' one_day before polls =
      (Polls-IsWithin d (record { same_day = one_day; within = before }) polls).within
