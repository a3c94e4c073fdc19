-- ===== src/Store/Monad.antt =====
-- The world that the program runs in, and its effects: the database, whose calls may fail, and the
-- clock. What the environment does is given by functions of a running number, about which nothing
-- is assumed: the n-th reading of the clock, whether the n-th call of the driver fails, and the
-- order in which a query without ORDER BY returns its rows.
use argos_fx.Prelude.{ℕ, ◌+◌, Bool, List, Option, if◌then◌else◌}
use argos_fx.Clock.{Time}
use argos_fx.Error.{Error, driver, Outcome, ok, err}
use argos_fx.Metrics.{Metrics}
use argos_fx.Text.{Text}
use argos_fx.Store.Tables.{Db, ReadingRow, Settings}

pub record World (F : Type 0) : Type 0 where
  pub db : Db F
  pub clock : ℕ → Time
  pub ticks : ℕ
  pub broken : ℕ → Bool
  pub queries : ℕ
  pub arrange : List (ReadingRow F) → List (ReadingRow F)
  -- calls of a provider's API so far
  pub fetches : ℕ
  -- whether the driver stores the number as NULL, as SQLite does with NaN
  pub is_null : F → Bool
  -- `json.Marshal` of a provider's settings, which fails for `none`, and the settings that
  -- `json.Unmarshal` leaves
  pub marshal_config : Settings → Option Text
  pub unmarshal_config : Text → Settings
  -- the registry of metrics, if there is one
  pub metrics : Option (Metrics F)

-- Like Go, an effect keeps the state that it reached when it fails.
abbrev pub Effect : Type 0 → Type 0 → Type 0
Effect S A = S → Outcome A × S

abbrev pub M : Type 0 → Type 0 → Type 0
M F A = Effect (World F) A

module _ {S A : Type 0} where
  unfoldable pub return : A → Effect S A
  return a w = (ok a, w)

  unfoldable pub fail : Error → Effect S A
  fail e w = (err e, w)

  unfoldable pub of_outcome : Outcome A → Effect S A
  of_outcome r w = (r, w)

  unfoldable pub map_outcome : (Outcome A → Outcome A) → Effect S A → Effect S A
  map_outcome f m w = let (r, w') = m w in (f r, w')

  -- Run with its result as a value: `x, err := m`.
  unfoldable pub attempt : Effect S A → Effect S (Outcome A)
  attempt m w = let (r, w') = m w in (ok r, w')

module _ {S A B : Type 0} where
  infixl 5 ◌>>=◌ ◌>>◌
  abbrev pub after : (A → Effect S B) → Outcome A × S → Outcome B × S
  after f (ok a, w) = f a w
  after f (err e, w) = (err e, w)

  -- To unfold this is to unfold the effects above too.
  unfoldable pub ◌>>=◌ : Effect S A → (A → Effect S B) → Effect S B
  unfolding return fail of_outcome map_outcome attempt
  ◌>>=◌ m f w = after f (m w)

  abbrev pub ◌>>◌ : Effect S A → Effect S B → Effect S B
  m >> k = m >>= λ _. k

module _ {F A : Type 0} where
  -- One call of the driver: it fails and changes nothing, or the statement runs.
  unfoldable pub query : (Db F → Outcome A × Db F) → M F A
  query statement w =
      let w' = record w { queries = w.queries + 1 } in
      if w.broken w.queries
      then (err driver, w')
      else let (r, db) = statement w.db in (r, record w' { db = db })

-- `time.Now().UTC()`.
unfoldable pub now : {F : Type 0} → M F Time
now w = (ok (w.clock w.ticks), record w { ticks = w.ticks + 1 })

-- The order in which the rows of a query come.
unfoldable pub arrange : {F : Type 0} → List (ReadingRow F) → M F (List (ReadingRow F))
arrange rows w = (ok (w.arrange rows), w)
