-- ===== src/Scheduler/Excess.antt =====
-- By how much polls that overlap can exceed the budget of a day.
use argos_fx.Prelude.{
  ℕ, ◌+◌, ◌≡◌, ◌≤◌, ◌<◌, ap, refl, true, Bool-cases, inl, inr, List, [], ◌∷◌, ◌++◌, Option, none,
  some, length, arith, if◌then◌else◌,
}
use argos_fx.Prelude.Int.{pos}
use argos_fx.Clock.{day_of}
use argos_fx.Error.{ok-inj, Outcome, ok, err}
use argos_fx.Store.{
  World, M, ◌>>=◌, return, fail, map_outcome, attempt, now, query, after, usage_today, usage_count,
}
use argos_fx.Provider
use argos_fx.Scheduler.Run.{
  ProviderJob, budget_allowed, fetch_readings, record_success, record_error,
}
use argos_fx.Scheduler.Calls.{
  own, IsAdding, IsAdding-bind, IsAdding-same, IsAdding-insert, IsAdding-increment,
}
use argos_fx.Scheduler.Overlap.{
  Phase, fetching, storing, begin_poll, fetched, go_on, Overlap, next_phase, Overlaps, none_yet,
  begun, passed_over, gone_on,
}

length-next_phase : {A : Type 0} (o : Outcome (Option A)) → length (next_phase o) ≤ 1
length-next_phase (ok (some p)) = omega arith
length-next_phase (ok none) = omega arith
length-next_phase (err e) = omega arith

-- An effect after which a poll has ended.
record IsLast {F A : Type 0} (m : M F (Option A)) : Type 0 where
  last : (w : World F) → next_phase (m w).0 ≡ []

after-last :
    {F A B : Type 0} (f : B → M F (Option A)) (r : Outcome B × World F)
    → ((b : B) → IsLast (f b))
    → next_phase (after f r).0 ≡ []
after-last f (ok b, w) p = (p b).last w
after-last f (err e, w) p = refl

IsLast-bind :
    {F A B : Type 0} (m : M F B) (f : B → M F (Option A))
    → ((b : B) → IsLast (f b))
    → IsLast (m >>= f)
unfolding ◌>>=◌
IsLast-bind m f p = record { last = λ w. after-last f (m w) p }

IsLast-none : {F A : Type 0} → IsLast {F = F} {A = A} (return none)
unfolding return
IsLast-none = record { last = λ w. refl }

module _ {F : Type 0} (j : ProviderJob F) (e : ℕ) where
  go_on-IsLast : IsLast (go_on j (storing []))
  unfolding go_on
  go_on-IsLast = IsLast-bind _ _ λ t. IsLast-bind _ _ λ u. IsLast-bind _ _ λ v. IsLast-none

  fetched-IsAdding :
      (r : Outcome (List (Provider.Reading F))) → IsAdding j.provider_id e 0 (fetched j r)
  unfolding fetched return record_error fail
  fetched-IsAdding (ok rs) = IsAdding-same _ _ _ (λ w. refl) (λ w. refl)
  fetched-IsAdding (err x) =
      IsAdding-bind _ _ 0 0 0 _ _ (omega arith) (IsAdding-same _ _ _ (λ w. refl) (λ w. refl))
        (λ u. IsAdding-same _ _ _ (λ w. refl) (λ w. refl))

  fetching-IsAdding : IsAdding j.provider_id e 0 (go_on j fetching)
  unfolding go_on attempt fetch_readings
  fetching-IsAdding =
      IsAdding-bind _ _ 0 0 0 _ _ (omega arith) (IsAdding-same _ _ _ (λ w. refl) (λ w. refl))
        fetched-IsAdding

  insert-IsAdding :
      (r : Provider.Reading F) (rs : List (Provider.Reading F))
      → IsAdding j.provider_id e 0 (go_on j (storing (r ∷ rs)))
  unfolding go_on return
  insert-IsAdding r rs =
      IsAdding-bind _ _ 0 0 0 _ _ (omega arith) (IsAdding-insert _ _ j.provider_id r)
        (λ u. IsAdding-same _ _ _ (λ w. refl) (λ w. refl))

  count-IsAdding : IsAdding j.provider_id e 1 (go_on j (storing []))
  unfolding go_on now record_success return
  count-IsAdding =
      IsAdding-bind _ _ 0 1 1 _ _ (omega arith) (IsAdding-same _ _ _ (λ w. refl) (λ w. refl)) λ t.
        IsAdding-bind _ _ (own j.provider_id j.provider_id) 0 1 _ _ (ground arith)
          (IsAdding-increment _ _ j.provider_id t)
          λ u.
            IsAdding-bind _ _ 0 0 0 _ _ (omega arith) (IsAdding-same _ _ _ (λ w. refl) (λ w. refl))
              λ v. IsAdding-same _ _ _ (λ w. refl) (λ w. refl)

  -- A step of a poll counts a call only if the poll ends with it.
  go_on-count :
      (p : Phase F) (w : World F)
      → ((go_on j p w).1.clock ≡ w.clock)
        × (usage_count j.provider_id e (go_on j p w).1.db.usage
              + length (next_phase (go_on j p w).0)
            ≤ usage_count j.provider_id e w.db.usage + 1)
  go_on-count fetching w =
      let a = fetching-IsAdding.adds w in
      let le = a.count_le in
      let one = length-next_phase (go_on j fetching w).0 in (a.same_clock, omega arith)
  go_on-count (storing (r ∷ rs)) w =
      let a = (insert-IsAdding r rs).adds w in
      let le = a.count_le in
      let one = length-next_phase (go_on j (storing (r ∷ rs)) w).0 in (a.same_clock, omega arith)
  go_on-count (storing []) w =
      let a = count-IsAdding.adds w in
      let le = a.count_le in (a.same_clock, rw (go_on-IsLast.last w) (omega arith))

length-split :
    {A : Type 0} (xs ys zs : List A)
    → length (xs ++ (ys ++ zs)) ≡ length xs + (length ys + length zs)
length-split [] [] zs = omega arith
length-split [] (y ∷ ys) zs = let l = length-split [] ys zs in omega arith
length-split (x ∷ xs) ys zs = let l = length-split xs ys zs in omega arith

module _ {F : Type 0} (j : ProviderJob F) (n : ℕ) (limit : j.calls_per_day ≡ pos (n + 1)) where
  abbrev used_on : ℕ → World F → ℕ
  used_on e w = usage_count j.provider_id e w.db.usage

  allowed_below : (u : ℕ) → budget_allowed u j.calls_per_day ≡ true → u ≤ n
  unfolding budget_allowed
  allowed_below u = rw limit (ground arith)

  -- What the first two statements leave, and what they found if the poll goes on.
  begin_poll-count :
      (e : ℕ) (w : World F)
      → day_of (w.clock w.ticks) ≡ e
      → ((begin_poll j w).1.clock ≡ w.clock)
        × (used_on e (begin_poll j w).1 ≡ used_on e w)
        × ((begin_poll j w).0 ≡ ok true → used_on e w ≤ n)
  unfolding begin_poll ◌>>=◌ now map_outcome usage_today query return budget_allowed
  begin_poll-count e w today = elim (Bool-cases (w.broken w.queries)) [
    | inl h ↦ rw (h, if◌then◌else◌) (refl, refl, λ k. absurd cc)
    | inr h ↦ rw (h, if◌then◌else◌) (refl, refl, λ k. rw (← today) (allowed_below _ (ok-inj k)))
  ]

  module _ (cap e : ℕ) where
    -- The calls that are counted and those under way.
    record IsBounded (s : Overlap F) : Type 0 where
      same_day : (t : ℕ) → day_of (s.world.clock t) ≡ e
      bounded : used_on e s.world + length s.running ≤ n + cap

    begun-IsBounded :
        (s : Overlap F)
        → length s.running < cap
        → (begin_poll j s.world).0 ≡ ok true
        → IsBounded s
        → IsBounded (record { world = (begin_poll j s.world).1; running = fetching ∷ s.running })
    begun-IsBounded s room allowed b =
        let (clock, used, below) = begin_poll-count e s.world (b.same_day s.world.ticks) in
        let le = below allowed in
        record { same_day = λ t. rw clock (b.same_day t); bounded = rw used (omega arith) }

    passed_over-IsBounded :
        (s : Overlap F) → IsBounded s → IsBounded (record s { world = (begin_poll j s.world).1 })
    passed_over-IsBounded s b =
        let (clock, used, below) = begin_poll-count e s.world (b.same_day s.world.ticks) in
        record { same_day = λ t. rw clock (b.same_day t); bounded = rw used b.bounded }

    gone_on-IsBounded :
        (s : Overlap F) (xs ys : List (Phase F)) (p : Phase F)
        → s.running ≡ xs ++ (p ∷ ys)
        → IsBounded s
        → IsBounded (record {
          world = (go_on j p s.world).1;
          running = xs ++ (next_phase (go_on j p s.world).0 ++ ys);
        })
    gone_on-IsBounded s xs ys p split b =
        let (clock, count) = go_on-count j e p s.world in
        let before = b.bounded in
        let parts = length-split xs (p ∷ []) ys in
        let after_it = length-split xs (next_phase (go_on j p s.world).0) ys in
        let same : length s.running ≡ length (xs ++ (p ∷ ys)) = ap length split in
        record { same_day = λ t. rw clock (b.same_day t); bounded = omega arith }

    Overlaps-IsBounded : {s t : Overlap F} → IsBounded s → Overlaps j cap s t → IsBounded t
    Overlaps-IsBounded b none_yet = b
    Overlaps-IsBounded b (begun room allowed o) =
        begun-IsBounded _ room allowed (Overlaps-IsBounded b o)
    Overlaps-IsBounded b (passed_over refused o) = passed_over-IsBounded _ (Overlaps-IsBounded b o)
    Overlaps-IsBounded b (gone_on xs ys p split o) =
        gone_on-IsBounded _ xs ys p split (Overlaps-IsBounded b o)

  -- However the statements and the calls of overlapping polls of one job alternate on one day, and
  -- whatever fails: if at most a number of polls run at a time, and none runs at first, when the
  -- counted calls are within the positive limit, then the calls that are counted exceed the limit by
  -- less than that number.
  pub Overlaps-budget :
      (cap e : ℕ) (w : World F) (t : Overlap F)
      → ((k : ℕ) → day_of (w.clock k) ≡ e)
      → usage_count j.provider_id e w.db.usage ≤ n + 1
      → 0 < cap
      → Overlaps j cap (record { world = w; running = [] }) t
      → usage_count j.provider_id e t.world.db.usage ≤ n + cap
  Overlaps-budget cap e w t one_day before some_poll o =
      let b = Overlaps-IsBounded cap e (record { same_day = one_day; bounded = omega arith }) o in
      let le = b.bounded in omega arith
