-- ===== src/Store/Sound.antt =====
-- The tables stay sound under every statement of the program.
use argos_fx.Prelude.{
  Bool, ◌&&◌, ℕ, ◌<◌, ◌≡◌, ◌≢◌, refl, true, Bool-cases, inl, inr, List, [], ◌∷◌, ◌++◌, none,
  Option-cases, arith, All, All-append, All-keep, All-map_pred, any, ◌==◌, if◌then◌else◌, ltb, not,
}
use argos_fx.Prelude.Pairwise.{IsPairwise, IsPairwise-append_one, IsPairwise-keep}
use argos_fx.Text.{Text}
use argos_fx.Clock.{Time, rfc3339}
use argos_fx.Store.Tables.{Db, Provider, ProviderRow, Reading, ReadingRow}
use argos_fx.Store.Providers.{
  upsert_sql, find_provider, update_named, update_row, provider_row, name_eq,
}
use argos_fx.Store.Readings.{insert_reading_sql, reading_row, prune_older_than_sql}
use argos_fx.Store.Usage.{increment_sql}

abbrev IsBefore : ProviderRow → ProviderRow → Type 0
IsBefore p q = (p.id < q.id) × (p.name ≢ q.name)

module _ {F : Type 0} where
  abbrev IsKnown : List ProviderRow → ReadingRow F → Type 0
  IsKnown ps r = any (λ p. p.id == r.provider_id) ps ≡ true

  -- The ids of each table are unused from its counter on and increase down the table, no two
  -- providers have one name, and every reading is of a provider in the table.
  pub record IsSound (db : Db F) : Type 0 where
    pub provider_ids : All (λ (p : ProviderRow). p.id < db.next_provider) db.providers
    pub providers_differ : IsPairwise IsBefore db.providers
    pub reading_ids : All (λ (r : ReadingRow F). r.id < db.next_reading) db.readings
    pub readings_increase : IsPairwise (λ (r s : ReadingRow F). r.id < s.id) db.readings
    pub providers_known : All (IsKnown db.providers) db.readings

  insert-IsSound :
      (null : Bool) (r : Reading F) (db : Db F)
      → IsSound db
      → IsSound (insert_reading_sql null r db).1
  unfolding insert_reading_sql reading_row
  insert-IsSound null r db s =
      elim (Bool-cases (not null && any (λ p. p.id == r.provider_id) db.providers)) [
        | inl e ↦
            let known : any (λ p. p.id == r.provider_id) db.providers ≡ true = ground arith in
            rw (e, if◌then◌else◌)
              (record {
                provider_ids = s.provider_ids;
                providers_differ = s.providers_differ;
                reading_ids =
                    All-append _ db.readings _
                      (All-map_pred (λ x h. omega arith) db.readings s.reading_ids)
                      (omega arith, tt);
                readings_increase =
                    IsPairwise-append_one _ db.readings _ s.readings_increase s.reading_ids;
                providers_known = All-append _ db.readings _ s.providers_known (known, tt);
              })
        | inr e ↦ rw (e, if◌then◌else◌) s
      ]

  prune-IsSound : (t : Time) (db : Db F) → IsSound db → IsSound (prune_older_than_sql t db).1
  unfolding prune_older_than_sql
  prune-IsSound t db s =
      let keeps = λ (r : ReadingRow F). not (ltb r.fetched_at (rfc3339 t)) in
      record {
        provider_ids = s.provider_ids;
        providers_differ = s.providers_differ;
        reading_ids = All-keep keeps _ db.readings s.reading_ids;
        readings_increase = IsPairwise-keep _ keeps db.readings s.readings_increase;
        providers_known = All-keep keeps _ db.readings s.providers_known;
      }

-- A provider that is not found has a new name.
find_provider-none :
    (name : Text) (ps : List ProviderRow)
    → find_provider name ps ≡ none
    → All (λ p. p.name ≢ name) ps
unfolding find_provider
find_provider-none name [] h = tt
find_provider-none name (p ∷ ps) h = elim (Bool-cases (name_eq p.name name)) [
  | inl e ↦ absurd (ground arith)
  | inr e ↦ (ground arith, find_provider-none name ps (ground arith))
]

any-append :
    (x : ℕ) (ps : List ProviderRow) (q : ProviderRow)
    → any (λ p. p.id == x) ps ≡ true
    → any (λ p. p.id == x) (ps ++ (q ∷ [])) ≡ true
any-append x [] q h = absurd (ground arith)
any-append x (p ∷ ps) q h = ground (arith, any-append x ps q)

All-both :
    (n : ℕ) (name : Text) (ps : List ProviderRow)
    → All (λ p. p.id < n) ps
    → All (λ p. p.name ≢ name) ps
    → All (λ p. (p.id < n) × (p.name ≢ name)) ps
All-both n name [] _ _ = tt
All-both n name (p ∷ ps) (h, hs) (k, ks) = ((h, k), All-both n name ps hs ks)

module _ (name : Text) (stamp : ℕ) (json : Text) (p : Provider) where
  abbrev updated : List ProviderRow → List ProviderRow
  updated = update_named name (update_row stamp json p)

  update-All :
      {P : ProviderRow → Type 0} (ps : List ProviderRow)
      → ((q : ProviderRow) → P q → P (update_row stamp json p q))
      → All P ps
      → All P (updated ps)
  unfolding update_named
  update-All [] g _ = tt
  update-All (q ∷ ps) g (h, hs) = elim (Bool-cases (name_eq q.name name)) [
    | inl e ↦ rw (e, if◌then◌else◌) (g q h, hs)
    | inr e ↦ rw (e, if◌then◌else◌) (h, update-All ps g hs)
  ]

  update-IsPairwise :
      (ps : List ProviderRow) → IsPairwise IsBefore ps → IsPairwise IsBefore (updated ps)
  unfolding update_named update_row provider_row
  update-IsPairwise [] _ = tt
  update-IsPairwise (q ∷ ps) (h, hs) = elim (Bool-cases (name_eq q.name name)) [
    | inl e ↦ rw (e, if◌then◌else◌) (h, hs)
    | inr e ↦ rw (e, if◌then◌else◌) (update-All ps (λ r k. k) h, update-IsPairwise ps hs)
  ]

  update-any :
      (x : ℕ) (ps : List ProviderRow) → any (λ q. q.id == x) (updated ps) ≡ any (λ q. q.id == x) ps
  unfolding update_named update_row provider_row
  update-any x [] = refl
  update-any x (q ∷ ps) = ground (arith, update-any x ps)

module _ {F : Type 0} where
  upsert-IsSound :
      (stamp : ℕ) (json : Text) (p : Provider) (db : Db F)
      → IsSound db
      → IsSound (upsert_sql stamp json p db).1
  unfolding upsert_sql provider_row update_row
  upsert-IsSound stamp json p db s = elim (Option-cases (find_provider p.name db.providers)) [
    | inl e ↦
        let new = provider_row db.next_provider stamp json p in
        rw (upsert_sql, e)
          (record {
            provider_ids =
                All-append _ db.providers _
                  (All-map_pred (λ x h. omega arith) db.providers s.provider_ids) (omega arith, tt);
            providers_differ = IsPairwise-append_one _ db.providers new s.providers_differ (
                All-both db.next_provider p.name db.providers s.provider_ids
                  (find_provider-none p.name db.providers e));
            reading_ids = s.reading_ids;
            readings_increase = s.readings_increase;
            providers_known =
                All-map_pred (λ r h. any-append r.provider_id db.providers new h) db.readings
                  s.providers_known;
          })
    | inr (row, e) ↦
        rw (upsert_sql, e)
          (record {
            provider_ids =
                update-All p.name stamp json p db.providers (λ q h. h)
                  (All-map_pred (λ x h. omega arith) db.providers s.provider_ids);
            providers_differ =
                update-IsPairwise p.name stamp json p db.providers s.providers_differ;
            reading_ids = s.reading_ids;
            readings_increase = s.readings_increase;
            providers_known =
                All-map_pred
                  (λ r h. rw (update-any p.name stamp json p r.provider_id db.providers) h)
                  db.readings s.providers_known;
          })
  ]

  -- A new database, on a connection that has inserted nothing.
  abbrev pub new_db : Db F
  new_db = record {
    providers = [];
    readings = [];
    usage = [];
    next_provider = 1;
    next_reading = 1;
    last_rowid = 0;
  }

  -- The databases that sequences of the program's writes lead to, from a new one, in which the
  -- connection may have recorded a migration.
  pub data Reach : Db F → Type 0 where
    created : (rowid : ℕ) → Reach (record new_db { last_rowid = rowid })
    insert :
        (null : Bool) (r : Reading F) {db : Db F}
        → Reach db
        → Reach (insert_reading_sql null r db).1
    upsert :
        (stamp : ℕ) (json : Text) (p : Provider) {db : Db F}
        → Reach db
        → Reach (upsert_sql stamp json p db).1
    increment : (provider day : ℕ) {db : Db F} → Reach db → Reach (increment_sql provider day db).1
    prune : (cutoff : Time) {db : Db F} → Reach db → Reach (prune_older_than_sql cutoff db).1

  -- Whatever sequence of the program's writes has run, those that fail included: the ids of the two
  -- tables increase and are below their counters, no two providers have one name, and every reading
  -- is of a provider in the table.
  pub Reach-IsSound : (db : Db F) → Reach db → IsSound db
  unfolding increment_sql
  Reach-IsSound _ (created rowid) = record {
    provider_ids = tt;
    providers_differ = tt;
    reading_ids = tt;
    readings_increase = tt;
    providers_known = tt;
  }
  Reach-IsSound _ (insert null r {db} w) = insert-IsSound null r db (Reach-IsSound db w)
  Reach-IsSound _ (upsert stamp json p {db} w) = upsert-IsSound stamp json p db (Reach-IsSound db w)
  Reach-IsSound _ (increment provider day {db} w) =
      let s = Reach-IsSound db w in
      record {
        provider_ids = s.provider_ids;
        providers_differ = s.providers_differ;
        reading_ids = s.reading_ids;
        readings_increase = s.readings_increase;
        providers_known = s.providers_known;
      }
  Reach-IsSound _ (prune cutoff {db} w) = prune-IsSound cutoff db (Reach-IsSound db w)
