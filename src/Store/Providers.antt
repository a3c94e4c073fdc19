-- ===== src/Store/Providers.antt =====
-- internal/store/store.go: the table `providers`.
use argos_fx.Prelude.{
  ℕ, ◌+◌, Bool, true, false, ◌&&◌, ◌||◌, List, [], ◌∷◌, ◌++◌, map, Option, none, some, ◌==◌, not,
  if◌then◌else◌,
}
use argos_fx.Prelude.Int.{ltb_ℤ}
use argos_fx.Prelude.Sort.{sort}
use argos_fx.Text.{Text, codes, text_discrete, text_less}
use argos_fx.Clock.{rfc3339, parse_rfc3339}
use argos_fx.Error.{Outcome, ok, err, no_rows}
use argos_fx.Store.Tables.{Db, Provider, ProviderRow, Settings}
use argos_fx.Store.Monad.{M, ◌>>=◌, return, query, now}

abbrev pub name_eq : Text → Text → Bool
name_eq s t = elim (text_discrete s t) [ yes _ ↦ true | no _ ↦ false ]

-- `boolToInt`.
unfoldable pub bool_to_int : Bool → ℕ
bool_to_int b = if b then 1 else 0

-- The row of the INSERT, with the same stamp for both times.
unfoldable pub provider_row : ℕ → ℕ → Text → Provider → ProviderRow
unfolding bool_to_int
provider_row id stamp json p = record {
  id = id;
  name = p.name;
  kind = p.kind;
  config_json = json;
  priority = p.priority;
  calls_per_day = p.calls_per_day;
  schedule_cron = p.schedule_cron;
  enabled = bool_to_int p.enabled;
  created_at = stamp;
  updated_at = stamp;
}

-- DO UPDATE SET: all but the id, the name and the creation time.
unfoldable pub update_row : ℕ → Text → Provider → ProviderRow → ProviderRow
unfolding provider_row
update_row stamp json p row = record (provider_row row.id stamp json p) {
  name = row.name;
  created_at = row.created_at;
}

unfoldable pub find_provider : Text → List ProviderRow → Option ProviderRow
find_provider name [] = none
find_provider name (p ∷ ps) = if name_eq p.name name then some p else find_provider name ps

unfoldable pub update_named :
    Text → (ProviderRow → ProviderRow) → List ProviderRow → List ProviderRow
update_named name f [] = []
update_named name f (p ∷ ps) = if name_eq p.name name then f p ∷ ps else p ∷ update_named name f ps

-- `rows.Scan` into a `Provider`, and the decoding of its settings, whose error is dropped.
unfoldable pub scan_provider : (Text → Settings) → ProviderRow → Provider
scan_provider unmarshal r = record {
  id = r.id;
  name = r.name;
  kind = r.kind;
  config = unmarshal r.config_json;
  priority = r.priority;
  calls_per_day = r.calls_per_day;
  schedule_cron = r.schedule_cron;
  enabled = not (r.enabled == 0);
  created_at = parse_rfc3339 r.created_at;
  updated_at = parse_rfc3339 r.updated_at;
}

-- ORDER BY priority DESC, name ASC.
unfoldable pub provider_less : ProviderRow → ProviderRow → Bool
provider_less p q =
    ltb_ℤ q.priority p.priority || (not (ltb_ℤ p.priority q.priority) && text_less p.name q.name)

-- `if cfgJSON == nil`.
unfoldable pub config_text : Option Text → Text
config_text none = codes "{}"
config_text (some json) = json

module _ {F : Type 0} where
  -- The INSERT ... ON CONFLICT(name) DO UPDATE. Its result is `LastInsertId`, which SQLite sets on
  -- an insert and leaves alone on an update. The counter of AUTOINCREMENT goes on in both.
  unfoldable pub upsert_sql : ℕ → Text → Provider → Db F → Outcome ℕ × Db F
  unfolding find_provider update_named update_row provider_row
  upsert_sql stamp json p db = elim (find_provider p.name db.providers) [
    | none ↦ (
      ok db.next_provider,
      record db {
        providers = db.providers ++ (provider_row db.next_provider stamp json p ∷ []);
        next_provider = db.next_provider + 1;
        last_rowid = db.next_provider;
      },
    )
    | some row ↦ (
      ok db.last_rowid,
      record db {
        providers = update_named p.name (update_row stamp json p) db.providers;
        next_provider = db.next_provider + 1;
      },
    )
  ]

  unfoldable pub select_id : Text → M F ℕ
  unfolding find_provider
  select_id name = query λ db.
      (elim (find_provider name db.providers) [ none ↦ err no_rows | some row ↦ ok row.id ], db)

  -- `cfgJSON, _ := json.Marshal(p.Config)`, and "{}" if that gives nothing.
  unfoldable pub config_json : Settings → M F Text
  unfolding config_text
  config_json config w = (ok (config_text (w.marshal_config config)), w)

  unfoldable pub upsert_provider : Provider → M F ℕ
  unfolding config_json upsert_sql select_id
  upsert_provider p = do
    json ← config_json p.config
    t ← now
    id ← query (upsert_sql (rfc3339 t) json p)
    if id == 0 then select_id p.name else return id

  -- The loop of `rows.Next`.
  unfoldable pub scan_providers : List ProviderRow → M F (List Provider)
  unfolding scan_provider
  scan_providers rows w = (ok (map (scan_provider w.unmarshal_config) rows), w)

  unfoldable pub list_providers : M F (List Provider)
  unfolding scan_providers provider_less
  list_providers = do
    rows ← query λ db. (ok (sort provider_less db.providers), db)
    scan_providers rows

  unfoldable pub get_provider_by_name : Text → M F Provider
  unfolding scan_provider find_provider
  get_provider_by_name name = do
    row ← query λ db.
        (elim (find_provider name db.providers) [ none ↦ err no_rows | some row ↦ ok row ], db)
    λ w. (ok (scan_provider w.unmarshal_config row), w)
