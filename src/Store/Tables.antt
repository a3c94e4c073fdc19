-- ===== src/Store/Tables.antt =====
-- internal/store/migrations/0001_init.sql: the rows of the three tables, and the state of the one
-- connection to them.
use argos_fx.Prelude.{ℕ, Bool, List, Option}
use argos_fx.Prelude.Int.{ℤ}
use argos_fx.Text.{Text}
use argos_fx.Clock.{Time}

-- A value of the configuration's `map[string]any`: the program reads texts only.
pub data Setting : Type 0 where
  text : Text → Setting
  other : Setting

-- A nil map is `none`.
abbrev pub Settings : Type 0
Settings = Option (List (Text × Setting))

-- `type Provider struct`.
pub record Provider : Type 0 where
  pub id : ℕ
  pub name : Text
  pub kind : Text
  pub config : Settings
  pub priority : ℤ
  pub calls_per_day : Option ℤ
  pub schedule_cron : Text
  pub enabled : Bool
  pub created_at : Time
  pub updated_at : Time

-- A row of `providers`. The column of the settings holds a text of JSON. The columns of times hold RFC 3339 texts, that is, seconds.
pub record ProviderRow : Type 0 where
  pub id : ℕ
  pub name : Text
  pub kind : Text
  pub config_json : Text
  pub priority : ℤ
  pub calls_per_day : Option ℤ
  pub schedule_cron : Text
  pub enabled : ℕ
  pub created_at : ℕ
  pub updated_at : ℕ

-- `type Reading struct`.
pub record Reading (F : Type 0) : Type 0 where
  pub id : ℕ
  pub provider_id : ℕ
  pub base : Text
  pub quote : Text
  pub rate : F
  pub fetched_at : Time
  pub provider_ts : Text

-- A row of `readings`.
pub record ReadingRow (F : Type 0) : Type 0 where
  pub id : ℕ
  pub provider_id : ℕ
  pub base : Text
  pub quote : Text
  pub rate : F
  pub fetched_at : ℕ
  pub provider_ts : Option Text

-- A row of `usage`. The program deletes none, so that their rowids count from one.
pub record UsageRow : Type 0 where
  pub provider_id : ℕ
  pub day : ℕ
  pub count : ℕ

-- The tables, the counters of AUTOINCREMENT, and `last_insert_rowid` of the one connection,
-- which every INSERT into a table sets.
pub record Db (F : Type 0) : Type 0 where
  pub providers : List ProviderRow
  pub readings : List (ReadingRow F)
  pub usage : List UsageRow
  pub next_provider : ℕ
  pub next_reading : ℕ
  pub last_rowid : ℕ
