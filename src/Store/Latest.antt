-- ===== src/Store/Latest.antt =====
-- internal/store/store.go: which rows `LatestReadingsPerProvider` finds.
use argos_fx.Prelude.{
  ℕ, ◌≡◌, ◌≤◌, ◌<◌, refl, true, Bool-cases, ◌⊎◌, inl, inr, List, [], ◌∷◌, none, some, Option-cases,
  arith, All, All-keep_test, All-map_pred, keep, count_p, length, leb, ◌==◌, if◌then◌else◌,
}
use argos_fx.Text.{Text}
use argos_fx.Store.Tables.{ReadingRow}
use argos_fx.Store.Readings.{text_eq, in_group, max_fetched, is_latest, latest_rows}

module _ {F : Type 0} where
  -- The maximum, 0 for no row.
  abbrev top : List (ReadingRow F) → ℕ
  top rows = elim (max_fetched rows) [ none ↦ 0 | some m ↦ m ]

  top_grows : (r : ReadingRow F) (rows : List (ReadingRow F)) → top rows ≤ top (r ∷ rows)
  unfolding max_fetched
  top_grows r rows = ground arith

  top_first : (r : ReadingRow F) (rows : List (ReadingRow F)) → r.fetched_at ≤ top (r ∷ rows)
  unfolding max_fetched
  top_first r rows = ground arith

  -- No row is newer than the maximum.
  below_top : (rows : List (ReadingRow F)) → All (λ r. r.fetched_at ≤ top rows) rows
  below_top [] = tt
  below_top (r ∷ rows) =
      let grows = top_grows r rows in
      (top_first r rows, All-map_pred (λ s h. omega arith) rows (below_top rows))

  -- A limit that no row is older than is a limit for the maximum.
  above_limit :
      (since m : ℕ) (rows : List (ReadingRow F))
      → All (λ r. leb since r.fetched_at ≡ true) rows
      → max_fetched rows ≡ some m
      → since ≤ m
  unfolding max_fetched
  above_limit since m [] _ h = absurd (ground arith)
  above_limit since m (r ∷ rows) (p, ps) h = elim (Option-cases (max_fetched rows)) [
    | inl e ↦ ground arith
    | inr (k, e) ↦ let le = above_limit since k rows ps e in ground arith
  ]

  top_cases :
      (r : ReadingRow F) (rows : List (ReadingRow F)) (m : ℕ)
      → max_fetched (r ∷ rows) ≡ some m
      → (r.fetched_at ≡ m) ⊎ (max_fetched rows ≡ some m)
  unfolding max_fetched
  top_cases r rows m h = elim (Option-cases (max_fetched rows)) [
    | inl e ↦ ground arith
    | inr (k, e) ↦ ground arith
  ]

  none-nil : (rows : List (ReadingRow F)) → max_fetched rows ≡ none → length rows ≡ 0
  unfolding max_fetched
  none-nil [] h = refl
  none-nil (r ∷ rows) h =
      absurd (elim (Option-cases (max_fetched rows)) [
        | inl e ↦ ground arith
        | inr (k, e) ↦ ground arith
      ])

module _ {F : Type 0} (rows : List (ReadingRow F)) (quote : Text) (since : ℕ) where
  -- The group that a row is compared with.
  abbrev pub group : ℕ → List (ReadingRow F)
  group p = keep (in_group p quote since) rows

  is_latest-top :
      (r : ReadingRow F)
      → is_latest rows quote since r ≡ true
      → (text_eq r.quote quote ≡ true) × (max_fetched (group r.provider_id) ≡ some r.fetched_at)
  unfolding is_latest
  is_latest-top r h = elim (Option-cases (max_fetched (group r.provider_id))) [
    | inl e ↦ ground arith
    | inr (m, e) ↦ ground arith
  ]

  is_latest_intro :
      (r : ReadingRow F) (p : ℕ)
      → in_group p quote since r ≡ true
      → max_fetched (group p) ≡ some r.fetched_at
      → (is_latest rows quote since r ≡ true) × ((r.provider_id == p) ≡ true)
  unfolding is_latest in_group
  is_latest_intro r p inside h =
      let same : r.provider_id ≡ p = ground arith in
      let h' : max_fetched (group r.provider_id) ≡ some r.fetched_at = rw same h in
      (ground arith, ground arith)

  in_group-fresh :
      (p : ℕ) (r : ReadingRow F) → in_group p quote since r ≡ true → leb since r.fetched_at ≡ true
  unfolding in_group
  in_group-fresh p r h = ground arith

  newest :
      (r : ReadingRow F)
      → is_latest rows quote since r ≡ true
      → (text_eq r.quote quote ≡ true)
        × (since ≤ r.fetched_at)
        × All (λ s. s.fetched_at ≤ r.fetched_at) (group r.provider_id)
  newest r h =
      let (same_quote, e) = is_latest-top r h in
      let own = group r.provider_id in
      let fresh = All-map_pred (in_group-fresh r.provider_id) own (All-keep_test _ rows) in
      let is_top : top own ≡ r.fetched_at = rw (top, e) in
      (same_quote, above_limit since _ own fresh e, rw is_top at (below_top own))

  -- Every row that the query finds is of the currency, is not older than the limit, and is as new
  -- as every row of its provider that is both.
  pub latest_rows_newest :
      All
        (λ r.
          (text_eq r.quote quote ≡ true)
          × (since ≤ r.fetched_at)
          × All (λ s. s.fetched_at ≤ r.fetched_at) (group r.provider_id))
        (latest_rows rows quote since)
  unfolding latest_rows
  latest_rows_newest = All-map_pred newest (latest_rows rows quote since) (All-keep_test _ rows)

  abbrev pub of_provider : ℕ → List (ReadingRow F) → ℕ
  of_provider p = count_p λ r. r.provider_id == p

  count_grows :
      (p : ℕ) (r : ReadingRow F) (l : List (ReadingRow F))
      → of_provider p (keep (is_latest rows quote since) l)
        ≤ of_provider p (keep (is_latest rows quote since) (r ∷ l))
  count_grows p r l = elim (Bool-cases (is_latest rows quote since r)) [
    | inl e ↦ rw (e, if◌then◌else◌) (omega arith)
    | inr e ↦ rw (e, if◌then◌else◌) (omega arith)
  ]

  found :
      (p m : ℕ) (l : List (ReadingRow F))
      → max_fetched (group p) ≡ some m
      → max_fetched (keep (in_group p quote since) l) ≡ some m
      → 0 < of_provider p (keep (is_latest rows quote since) l)
  unfolding max_fetched
  found p m [] is_top h = absurd (ground arith)
  found p m (r ∷ l) is_top h = elim (Bool-cases (in_group p quote since r)) [
    | inl e ↦ elim (top_cases r (keep (in_group p quote since) l) m (rw (e, if◌then◌else◌) at h)) [
      | inl same ↦
          let (latest, own) = is_latest_intro r p e (rw same is_top) in
          rw (latest, if◌then◌else◌, own) (omega arith)
      | inr later ↦ omega (arith, count_grows p r l, found p m l is_top later)
    ]
    | inr e ↦ omega (arith, count_grows p r l, found p m l is_top (rw (e, if◌then◌else◌) at h))
  ]

  -- Every provider that has a row of the currency, not older than the limit, is in the answer.
  pub latest_rows_found :
      (p : ℕ) → 0 < length (group p) → 0 < of_provider p (latest_rows rows quote since)
  unfolding latest_rows
  latest_rows_found p some_row = elim (Option-cases (max_fetched (group p))) [
    | inl e ↦ absurd (omega (arith, none-nil (group p) e))
    | inr (m, e) ↦ found p m rows e e
  ]
