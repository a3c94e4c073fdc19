-- ===== src/Scheduler/Calls.antt =====
-- What the steps of a poll add to the calls that are counted.
use argos_fx.Prelude.{
  ℕ, ◌+◌, ◌≡◌, ◌≤◌, ◌∙◌, refl, ◌⊎◌, inl, inr, true, Bool-cases, List, [], ◌∷◌, arith, if◌then◌else◌,
  ◌==◌,
}
use argos_fx.Clock.{Time, day_of}
use argos_fx.Error.{Outcome, ok, err, in_context}
use argos_fx.Store.{
  Db, World, M, ◌>>=◌, return, fail, map_outcome, attempt, now, query, after, insert_reading,
  insert_reading_sql, bind_rate, increment_usage, increment_sql, usage_today, usage_count,
}
use argos_fx.Provider
use argos_fx.Scheduler.Run.{
  ProviderJob, budget_allowed, run_once, fetch_and_store, after_fetch, store_fetched, insert_all,
  fetch_readings, record_success, record_error, reading_of,
}
use argos_fx.Scheduler.Usage.{usage_count-bump_usage}

-- What a poll of the provider `p` adds to the calls of `q` at most.
abbrev pub own : ℕ → ℕ → ℕ
own q p = if q == p then 1 else 0

-- The calls of the provider `q` on the day `e` go up by `n` at most, and the clock goes on.
module _ {F : Type 0} (q e : ℕ) where
  abbrev pub count : World F → ℕ
  count w = usage_count q e w.db.usage

  pub record Adds (n : ℕ) (w w' : World F) : Type 0 where
    pub same_clock : w'.clock ≡ w.clock
    pub count_le : count w' ≤ count w + n

  pub record IsAdding {A : Type 0} (n : ℕ) (m : M F A) : Type 0 where
    pub adds : (w : World F) → Adds n w (m w).1

  after-Adds :
      {A B : Type 0} (a b c : ℕ) (f : A → M F B) (w : World F) (r : Outcome A × World F)
      → a + b ≤ c
      → ((x : A) → IsAdding b (f x))
      → Adds a w r.1
      → Adds c w (after f r).1
  after-Adds a b c f w (ok x, w') h p s =
      let t = (p x).adds w' in
      let le = s.count_le in
      let le' = t.count_le in
      record { same_clock = t.same_clock ∙ s.same_clock; count_le = omega arith }
  after-Adds a b c f w (err x, w') h p s =
      let le = s.count_le in record { same_clock = s.same_clock; count_le = omega arith }

  pub IsAdding-bind :
      {A B : Type 0} (a b c : ℕ) (m : M F A) (f : A → M F B)
      → a + b ≤ c
      → IsAdding a m
      → ((x : A) → IsAdding b (f x))
      → IsAdding c (m >>= f)
  unfolding ◌>>=◌
  IsAdding-bind a b c m f le p s = record { adds = λ w. after-Adds a b c f w (m w) le s (p.adds w) }

  -- An effect that does not come near the usage.
  pub IsAdding-same :
      {A : Type 0} (m : M F A)
      → ((w : World F) → (m w).1.clock ≡ w.clock)
      → ((w : World F) → (m w).1.db.usage ≡ w.db.usage)
      → IsAdding 0 m
  IsAdding-same m p u = record {
    adds = λ w. record { same_clock = p w; count_le = rw (u w) (omega arith) };
  }

  pub IsAdding-query :
      {A : Type 0} (n : ℕ) (f : Db F → Outcome A × Db F)
      → ((db : Db F) → usage_count q e (f db).1.usage ≤ usage_count q e db.usage + n)
      → IsAdding n (query f)
  unfolding query
  IsAdding-query n f p = record {
    adds = λ w. elim (Bool-cases (w.broken w.queries)) [
      | inl h ↦ rw (h, if◌then◌else◌) (record { same_clock = refl; count_le = omega arith })
      | inr h ↦ rw (h, if◌then◌else◌) (record { same_clock = refl; count_le = p w.db })
    ];
  }

  pub IsAdding-map_outcome :
      {A : Type 0} (n : ℕ) (g : Outcome A → Outcome A) (m : M F A)
      → IsAdding n m
      → IsAdding n (map_outcome g m)
  unfolding map_outcome
  IsAdding-map_outcome n g m p = record { adds = p.adds }

  pub IsAdding-insert :
      (p : ℕ) (r : Provider.Reading F)
      → IsAdding 0 (map_outcome (in_context "insert reading") (insert_reading (reading_of p r)))
  unfolding insert_reading bind_rate insert_reading_sql
  IsAdding-insert p r = IsAdding-map_outcome 0 _ _ (
      IsAdding-bind 0 0 0 _ _ (omega arith) (IsAdding-same _ (λ w. refl) (λ w. refl))
        λ null. IsAdding-query 0 _ λ db. ground arith)

  IsAdding-insert_all : (p : ℕ) (rs : List (Provider.Reading F)) → IsAdding 0 (insert_all p rs)
  unfolding insert_all return
  IsAdding-insert_all p [] = IsAdding-same _ (λ w. refl) (λ w. refl)
  IsAdding-insert_all p (r ∷ rs) =
      IsAdding-bind 0 0 0 _ _ (omega arith) (IsAdding-insert p r) (λ _. IsAdding-insert_all p rs)

  pub IsAdding-increment :
      (p : ℕ) (t : Time)
      → IsAdding
          (own q p)
          (map_outcome (in_context "increment usage") (increment_usage {F = F} p t))
  unfolding increment_usage increment_sql
  IsAdding-increment p t =
      IsAdding-map_outcome _ _ _
        (IsAdding-query _ _ λ db. ground (arith, usage_count-bump_usage p q (day_of t) e db.usage))

  IsAdding-store_fetched :
      (j : ProviderJob F) (rs : List (Provider.Reading F))
      → IsAdding (own q j.provider_id) (store_fetched j rs)
  unfolding store_fetched now record_success
  IsAdding-store_fetched j rs =
      let n = own q j.provider_id in
      let record_it = IsAdding-same (record_success j.provider.name) (λ w. refl) (λ w. refl) in
      IsAdding-bind 0 n n _ _ (omega arith) (IsAdding-insert_all j.provider_id rs) λ _.
        IsAdding-bind 0 n n _ _ (omega arith) (IsAdding-same _ (λ w. refl) (λ w. refl)) λ t.
          IsAdding-bind n 0 n _ _ (omega arith) (IsAdding-increment j.provider_id t) λ _. record_it

  IsAdding-after_fetch :
      (j : ProviderJob F) (r : Outcome (List (Provider.Reading F)))
      → IsAdding (own q j.provider_id) (after_fetch j r)
  unfolding after_fetch record_error fail
  IsAdding-after_fetch j (ok rs) = IsAdding-store_fetched j rs
  IsAdding-after_fetch j (err x) =
      IsAdding-bind 0 0 (own q j.provider_id) _ _ (omega arith)
        (IsAdding-same _ (λ w. refl) (λ w. refl)) (λ _. IsAdding-same _ (λ w. refl) (λ w. refl))

  IsAdding-fetch_and_store :
      (j : ProviderJob F) → IsAdding (own q j.provider_id) (fetch_and_store j)
  unfolding fetch_and_store attempt fetch_readings
  IsAdding-fetch_and_store j =
      let n = own q j.provider_id in
      IsAdding-bind 0 n n _ _ (omega arith) (IsAdding-same _ (λ w. refl) (λ w. refl))
        (IsAdding-after_fetch j)

  -- A poll leaves the usage as it is, or the budget allows it and it adds a call at most.
  pub run_once-cases :
      (j : ProviderJob F) (w : World F)
      → Adds 0 w (run_once j w).1
        ⊎ ((budget_allowed
                (usage_count j.provider_id (day_of (w.clock w.ticks)) w.db.usage)
                j.calls_per_day
              ≡ true)
            × Adds (own q j.provider_id) w (run_once j w).1)
  unfolding run_once ◌>>=◌ now usage_today query return
  run_once-cases j w =
      let w' : World F = record w { ticks = w.ticks + 1; queries = w.queries + 1 } in
      let used = usage_count j.provider_id (day_of (w.clock w.ticks)) w.db.usage in
      let fetch : Adds (own q j.provider_id) w' (fetch_and_store j w').1 =
        (IsAdding-fetch_and_store j).adds w' in
      let stay : Adds 0 w w' = record { same_clock = refl; count_le = omega arith } in
      elim (Bool-cases (w.broken w.queries)) [
        | inl h ↦ inl (rw (h, if◌then◌else◌) stay)
        | inr h ↦ elim (Bool-cases (budget_allowed used j.calls_per_day)) [
          | inl under ↦ inr (
            under,
            rw (h, if◌then◌else◌, under)
                (record { same_clock = fetch.same_clock; count_le = fetch.count_le }),
          )
          | inr over ↦ inl (rw (h, if◌then◌else◌, over) stay)
        ]
      ]

  pub run_once-clock : (j : ProviderJob F) (w : World F) → (run_once j w).1.clock ≡ w.clock
  run_once-clock j w = elim (run_once-cases j w) [
    | inl same ↦ same.same_clock
    | inr (_, more) ↦ more.same_clock
  ]
