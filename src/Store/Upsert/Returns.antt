-- ===== src/Store/Upsert/Returns.antt =====
-- internal/store/store.go: what `UpsertProvider` returns, and what `GetProviderByName` reads
-- after it.
use argos_fx.Prelude.{
  ℕ, ◌<◌, ◌≡◌, ◌≢◌, refl, ◌∙◌, ap, sym, false, Bool-cases, inl, inr, List, [], ◌∷◌, ◌++◌, none,
  some, Option-cases, arith, All, ◌==◌, if◌then◌else◌,
}
use argos_fx.Text.{Text}
use argos_fx.Clock.{rfc3339}
use argos_fx.Error.{ok}
use argos_fx.Store.Tables.{Db, Provider, ProviderRow, Settings}
use argos_fx.Store.Monad.{World, ◌>>=◌, return, now, query}
use argos_fx.Store.Providers.{
  update_row, provider_row, upsert_provider, upsert_sql, find_provider, config_json, config_text,
  select_id, scan_provider, get_provider_by_name,
}
use argos_fx.Store.Sound.{IsSound}
use argos_fx.Store.Upsert.{find-update, upsert-HasSettings}

module _ {F : Type 0} where
  -- What is stored of the provider's settings.
  abbrev pub json_of : Provider → World F → Text
  json_of p w = config_text (w.marshal_config p.config)

  abbrev stamp_of : World F → ℕ
  stamp_of w = rfc3339 (w.clock w.ticks)

  -- A provider that is read back: its settings are what the decoder makes of the text that they
  -- were encoded to.
  pub record IsStored (w : World F) (p q : Provider) : Type 0 where
    pub same_name : q.name ≡ p.name
    pub same_kind : q.kind ≡ p.kind
    pub decoded : q.config ≡ w.unmarshal_config (json_of p w)
    pub same_priority : q.priority ≡ p.priority
    pub same_calls : q.calls_per_day ≡ p.calls_per_day
    pub same_cron : q.schedule_cron ≡ p.schedule_cron
    pub same_enabled : q.enabled ≡ p.enabled

  -- What an effect leaves of the environment, with these tables.
  record Leaves (db : Db F) (w w' : World F) : Type 0 where
    tables : w'.db ≡ db
    decoder : w'.unmarshal_config ≡ w.unmarshal_config
    driver : w'.broken ≡ w.broken

  upsert_provider-Leaves :
      (p : Provider) (w : World F)
      → w.broken ≡ (λ n. false)
      → Leaves (upsert_sql (stamp_of w) (json_of p w) p w.db).1 w (upsert_provider p w).1
  unfolding upsert_provider config_json ◌>>=◌ now query return select_id upsert_sql
  upsert_provider-Leaves p w works = elim (Option-cases (find_provider p.name w.db.providers)) [
    | inl e ↦ elim (Bool-cases (w.db.next_provider == 0)) [
      | inl z ↦
          rw (works, if◌then◌else◌, upsert_sql, e, z, if◌then◌else◌)
            (record { tables = refl; decoder = refl; driver = refl })
      | inr z ↦
          rw (works, if◌then◌else◌, upsert_sql, e, z, if◌then◌else◌)
            (record { tables = refl; decoder = refl; driver = refl })
    ]
    | inr (old, e) ↦ elim (Bool-cases (w.db.last_rowid == 0)) [
      | inl z ↦
          rw (works, if◌then◌else◌, upsert_sql, e, z, if◌then◌else◌)
            (record { tables = refl; decoder = refl; driver = refl })
      | inr z ↦
          rw (works, if◌then◌else◌, upsert_sql, e, z, if◌then◌else◌)
            (record { tables = refl; decoder = refl; driver = refl })
    ]
  ]

  get_found :
      (name : Text) (w : World F) (row : ProviderRow) (unmarshal : Text → Settings)
      → w.broken ≡ (λ n. false)
      → w.unmarshal_config ≡ unmarshal
      → find_provider name w.db.providers ≡ some row
      → (get_provider_by_name name w).0 ≡ ok (scan_provider unmarshal row)
  unfolding get_provider_by_name ◌>>=◌ query
  get_found name w row unmarshal works same found = rw (works, if◌then◌else◌, found, same) refl

  -- When the driver answers, `GetProviderByName` after `UpsertProvider` returns the provider: with
  -- its name, kind, priority, limit of calls, expression and whether it is enabled, with the
  -- settings that the decoder makes of the text that they were encoded to, or of {} if they could
  -- not be encoded, and with the id of the row of that name, or the next id if there was none.
  pub upsert_provider-get :
      (p : Provider) (w : World F)
      → w.broken ≡ (λ n. false)
      → (q : Provider) × ((get_provider_by_name p.name (upsert_provider p w).1).0 ≡ ok q)
        × IsStored w p q
        × (q.id ≡ (elim (find_provider p.name w.db.providers) [
          | none ↦ w.db.next_provider
          | some old ↦ old.id
        ]))
  unfolding scan_provider
  upsert_provider-get p w works =
      let after = upsert_provider-Leaves p w works in
      let (row, found, settings, id, created) =
        upsert-HasSettings (stamp_of w) (json_of p w) p w.db in
      (
        scan_provider w.unmarshal_config row,
        get_found p.name (upsert_provider p w).1 row w.unmarshal_config (after.driver ∙ works)
            after.decoder (rw (after.tables) found),
        record {
          same_name = settings.same_name;
          same_kind = settings.same_kind;
          decoded = rw (settings.same_config) refl;
          same_priority = settings.same_priority;
          same_calls = settings.same_calls;
          same_cron = settings.same_cron;
          same_enabled = settings.same_enabled;
        },
        id,
      )

find-append_some :
    (name : Text) (ps : List ProviderRow) (q row : ProviderRow)
    → find_provider name ps ≡ some row
    → find_provider name (ps ++ (q ∷ [])) ≡ some row
unfolding find_provider
find-append_some name [] q row h = absurd (ground arith)
find-append_some name (p ∷ ps) q row h = ground (arith, find-append_some name ps q row)

find-below :
    (n : ℕ) (name : Text) (ps : List ProviderRow) (row : ProviderRow)
    → All (λ p. p.id < n) ps
    → find_provider name ps ≡ some row
    → row.id < n
unfolding find_provider
find-below n name [] row _ h = absurd (ground arith)
find-below n name (p ∷ ps) row (below, rest) h = ground (arith, find-below n name ps row rest)

module _ {F : Type 0} where
  returns_new :
      (p : Provider) (w : World F)
      → w.broken ≡ (λ n. false)
      → (w.db.next_provider == 0) ≡ false
      → find_provider p.name w.db.providers ≡ none
      → (upsert_provider p w).0 ≡ ok w.db.next_provider
  unfolding upsert_provider config_json ◌>>=◌ now query return upsert_sql
  returns_new p w works nonzero new =
      rw (works, if◌then◌else◌, upsert_sql, new, nonzero, if◌then◌else◌) refl

  returns_last :
      (q : Provider) (w : World F) (row : ProviderRow) (n : ℕ)
      → w.broken ≡ (λ n. false)
      → w.db.last_rowid ≡ n
      → (n == 0) ≡ false
      → find_provider q.name w.db.providers ≡ some row
      → (upsert_provider q w).0 ≡ ok n
  unfolding upsert_provider config_json ◌>>=◌ now query return upsert_sql
  returns_last q w row n works last nonzero known =
      rw (works, if◌then◌else◌, upsert_sql, known, last, nonzero, if◌then◌else◌) refl

  abbrev added : Provider → World F → ProviderRow
  added p w = provider_row w.db.next_provider (stamp_of w) (json_of p w) p

  upsert_sql-new :
      (p : Provider) (w : World F)
      → find_provider p.name w.db.providers ≡ none
      → ((upsert_sql (stamp_of w) (json_of p w) p w.db).1.providers
          ≡ w.db.providers ++ (added p w ∷ []))
        × ((upsert_sql (stamp_of w) (json_of p w) p w.db).1.last_rowid ≡ w.db.next_provider)
  unfolding upsert_sql
  upsert_sql-new p w new = rw (upsert_sql, new) (refl, refl)

  -- The driver answers, a first provider is not in the sound tables, whose next id is positive,
  -- and a second one is: if `UpsertProvider` is called for the first and then for the second,
  -- both calls return the new id of the first, which is not the id of the second.
  pub upsert_provider-stale :
      (p q : Provider) (w : World F) (row : ProviderRow)
      → w.broken ≡ (λ n. false)
      → IsSound w.db
      → 0 < w.db.next_provider
      → find_provider p.name w.db.providers ≡ none
      → find_provider q.name w.db.providers ≡ some row
      → ((upsert_provider p w).0 ≡ ok w.db.next_provider)
        × ((upsert_provider q (upsert_provider p w).1).0 ≡ ok w.db.next_provider)
        × (row.id ≢ w.db.next_provider)
  upsert_provider-stale p q w row works sound some_id new known =
      let nonzero : (w.db.next_provider == 0) ≡ false = ground arith in
      let left = upsert_provider-Leaves p w works in
      let (rows, last) = upsert_sql-new p w new in
      let still = find-append_some q.name w.db.providers (added p w) row known in
      let below = find-below _ q.name w.db.providers row sound.provider_ids known in
      (
        returns_new p w works nonzero new,
        returns_last q (upsert_provider p w).1 row _ (left.driver ∙ works)
            (ap (λ db. db.last_rowid) left.tables ∙ last) nonzero (rw (left.tables, rows) still),
        λ e. absurd (omega arith),
      )

module _ {F : Type 0} where
  returns_own :
      (p : Provider) (w : World F) (n : ℕ)
      → w.broken ≡ (λ n. false)
      → w.db.last_rowid ≡ 0
      → (w.db.next_provider == 0) ≡ false
      → (elim (find_provider p.name w.db.providers) [
        | none ↦ w.db.next_provider
        | some old ↦ old.id
      ])
        ≡ n
      → (upsert_provider p w).0 ≡ ok n
  unfolding upsert_provider config_json ◌>>=◌ now query return upsert_sql select_id update_row
      provider_row
  returns_own p w n works last nonzero h =
      elim (Option-cases (find_provider p.name w.db.providers)) [
        | inl e ↦
            rw (works, if◌then◌else◌, upsert_sql, e, nonzero, if◌then◌else◌) (ap ok (rw e at h))
        | inr (old, e) ↦
            let found = find-update (stamp_of w) (json_of p w) p w.db.providers old e in
            rw (works, if◌then◌else◌, upsert_sql, e, last, if◌then◌else◌, found) (ap ok (rw e at h))
      ]

  -- When the driver answers, the connection has inserted nothing and the next id is positive,
  -- `UpsertProvider` returns the id of the provider that `GetProviderByName` finds after it.
  pub upsert_provider-id :
      (p : Provider) (w : World F)
      → w.broken ≡ (λ n. false)
      → w.db.last_rowid ≡ 0
      → 0 < w.db.next_provider
      → (q : Provider) × ((get_provider_by_name p.name (upsert_provider p w).1).0 ≡ ok q)
        × ((upsert_provider p w).0 ≡ ok q.id)
  upsert_provider-id p w works last some_id =
      let (q, found, stored, id) = upsert_provider-get p w works in
      (q, found, returns_own p w q.id works last (ground arith) (sym id))
