-- ===== src/Store/Upsert.antt =====
-- internal/store/store.go: what the statement of `UpsertProvider` stores.
pub mod Returns
use argos_fx.Prelude.{
  ℕ, ◌+◌, ◌≡◌, refl, Bool, true, false, not, Bool-cases, inl, inr, List, [], ◌∷◌, ◌++◌, none, some,
  Option-cases, arith, ◌==◌, if◌then◌else◌,
}
use argos_fx.Text.{Text}
use argos_fx.Error.{ok}
use argos_fx.Store.Tables.{Db, Provider, ProviderRow}
use argos_fx.Store.Monad.{World, ◌>>=◌, return, now, query}
use argos_fx.Store.Providers.{
  upsert_provider, upsert_sql, find_provider, update_named, update_row, provider_row, name_eq,
  bool_to_int,
}

-- The row holds the provider, with this text of its settings.
pub record HasSettings (p : Provider) (json : Text) (row : ProviderRow) : Type 0 where
  pub same_name : row.name ≡ p.name
  pub same_kind : row.kind ≡ p.kind
  pub same_config : row.config_json ≡ json
  pub same_priority : row.priority ≡ p.priority
  pub same_calls : row.calls_per_day ≡ p.calls_per_day
  pub same_cron : row.schedule_cron ≡ p.schedule_cron
  pub same_enabled : not (row.enabled == 0) ≡ p.enabled

some-inj : {A : Type 0} {x y : A} → some x ≡ some y → x ≡ y
some-inj h = cc

suc_nonzero : (n : ℕ) → (n + 1 == 0) ≡ false
suc_nonzero n = ground arith

find-append :
    (name : Text) (ps : List ProviderRow) (q : ProviderRow)
    → q.name ≡ name
    → find_provider name ps ≡ none
    → find_provider name (ps ++ (q ∷ [])) ≡ some q
unfolding find_provider
find-append name [] q same h = ground arith
find-append name (p ∷ ps) q same h = ground (arith, find-append name ps q same)

pub find-update :
    (stamp : ℕ) (json : Text) (p : Provider) (ps : List ProviderRow) (row : ProviderRow)
    → find_provider p.name ps ≡ some row
    → find_provider p.name (update_named p.name (update_row stamp json p) ps)
      ≡ some (update_row stamp json p row)
unfolding find_provider update_named update_row provider_row
find-update stamp json p [] row h = absurd (ground arith)
find-update stamp json p (q ∷ ps) row h = elim (Bool-cases (name_eq q.name p.name)) [
  | inl e ↦
      let same : q ≡ row = some-inj (rw (find_provider, e, if◌then◌else◌) at h) in
      rw (e, if◌then◌else◌, find_provider, e, if◌then◌else◌, same)
  | inr e ↦
      rw (e, if◌then◌else◌, find_provider, e, if◌then◌else◌)
        (find-update stamp json p ps row (rw (find_provider, e, if◌then◌else◌) at h))
]

find-name :
    (name : Text) (ps : List ProviderRow) (row : ProviderRow)
    → find_provider name ps ≡ some row
    → row.name ≡ name
unfolding find_provider
find-name name [] row h = absurd (ground arith)
find-name name (q ∷ ps) row h = elim (Bool-cases (name_eq q.name name)) [
  | inl e ↦
      let same : q ≡ row = some-inj (rw (find_provider, e, if◌then◌else◌) at h) in
      rw (← same) (ground arith)
  | inr e ↦ find-name name ps row (rw (find_provider, e, if◌then◌else◌) at h)
]

enabled_back : (b : Bool) → not (bool_to_int b == 0) ≡ b
unfolding bool_to_int
enabled_back true = refl
enabled_back false = refl

module _ {F : Type 0} (stamp : ℕ) (json : Text) (p : Provider) where
  -- After the statement of the upsert, the row of that name holds the provider, with the id and the
  -- creation time that it had, if it was there.
  pub upsert-HasSettings :
      (db : Db F)
      → (row : ProviderRow) × (find_provider p.name (upsert_sql stamp json p db).1.providers
          ≡ some row)
        × HasSettings p json row
        × (row.id ≡ (elim (find_provider p.name db.providers) [
          | none ↦ db.next_provider
          | some old ↦ old.id
        ]))
        × (row.created_at ≡ (elim (find_provider p.name db.providers) [
          | none ↦ stamp
          | some old ↦ old.created_at
        ]))
  unfolding upsert_sql provider_row update_row
  upsert-HasSettings db = elim (Option-cases (find_provider p.name db.providers)) [
    | inl e ↦
        let new = provider_row db.next_provider stamp json p in
        rw (upsert_sql, e)
          (
            new,
            find-append p.name db.providers new refl e,
            settings new refl refl refl refl refl refl refl,
            refl,
            refl,
          )
    | inr (old, e) ↦
        let kept = update_row stamp json p old in
        rw (upsert_sql, e)
          (
            kept,
            find-update stamp json p db.providers old e,
            settings kept (find-name p.name db.providers old e) refl refl refl refl refl refl,
            refl,
            refl,
          )
  ]
    where
      settings :
          (row : ProviderRow)
          → row.name ≡ p.name
          → row.kind ≡ p.kind
          → row.config_json ≡ json
          → row.priority ≡ p.priority
          → row.calls_per_day ≡ p.calls_per_day
          → row.schedule_cron ≡ p.schedule_cron
          → row.enabled ≡ bool_to_int p.enabled
          → HasSettings p json row
      settings row a b c d e f g = record {
        same_name = a;
        same_kind = b;
        same_config = c;
        same_priority = d;
        same_calls = e;
        same_cron = f;
        same_enabled = rw g (enabled_back p.enabled);
      }
