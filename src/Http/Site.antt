-- ===== src/Http/Site.antt =====
-- The state that the handlers share: the world of the database, the clock and the metrics, and the
-- response cache, if there is one. A handler always answers, so its effects do not fail.
use argos_fx.Prelude.{◌+◌, ◌++◌, [], Option, none, some}
use argos_fx.Text.{Text, codes}
use argos_fx.Clock.{Time}
use argos_fx.Error.{Outcome}
use argos_fx.Metrics.{Metrics}
use argos_fx.Cache
use argos_fx.Cache.{Cache, set}
use argos_fx.Store.{World, M}
use argos_fx.Http.Types.{Json, Library}

pub record Site (F : Type 0) : Type 0 where
  pub world : World F
  pub cache : Option (Cache Text)

abbrev pub H : Type 0 → Type 0 → Type 0
H F A = Site F → A × Site F

module _ {F A : Type 0} where
  unfoldable pub pure : A → H F A
  pure a s = (a, s)

  -- A call of the store or the aggregator, whose error is a value.
  unfoldable pub run : M F A → H F (Outcome A)
  run m s = let (r, w) = m s.world in (r, record s { world = w })

module _ {F A B : Type 0} where
  infixl 5 ◌>>=◌ ◌>>◌
  -- To unfold this is to unfold the effects above too.
  unfoldable pub ◌>>=◌ : H F A → (A → H F B) → H F B
  unfolding pure run
  ◌>>=◌ m f s = let (a, s') = m s in f a s'

  abbrev pub ◌>>◌ : H F A → H F B → H F B
  m >> k = m >>= λ _. k

abbrev pub get_at : Text → Time → Option (Cache Text) → Option Text × Option (Cache Text)
get_at key t none = (none, none)
get_at key t (some c) = let (v, c') = Cache.get key t c in (v, some c')

abbrev pub set_at : Text → Text → Time → Option (Cache Text) → Option (Cache Text)
set_at key body t none = none
set_at key body t (some c) = some (set key body t c)

module _ {F : Type 0} where
  -- `time.Now().UTC()`.
  unfoldable pub now : H F Time
  now s = (
    s.world.clock s.world.ticks,
    record s { world = record s.world { ticks = s.world.ticks + 1 } },
  )

  abbrev change : (Metrics F → Metrics F) → Option (Metrics F) → Option (Metrics F)
  change f none = none
  change f (some m) = some (f m)

  unfoldable pub with_metrics : (Metrics F → Metrics F) → H F (Unit {0})
  with_metrics f s =
      (tt, record s { world = record s.world { metrics = change f s.world.metrics } })

  -- The clock is read here also where `Get` finds nothing and does not look at it.
  unfoldable pub cache_lookup : Text → H F (Option Text)
  cache_lookup key s =
      let (t, s') = now s in let (v, c) = get_at key t s'.cache in (v, record s' { cache = c })

  -- A value that cannot be marshalled is not kept, and the body is nil.
  unfoldable pub cache_store : Library F → Text → Json F → H F Text
  cache_store lib key v s = elim (lib.marshal v) [
    | none ↦ ([], s)
    | some body ↦ let (t, s') = now s in (body, record s' { cache = set_at key body t s'.cache })
  ]

-- `fmt.Sprintf("%s->%s", from, to)`.
abbrev pub pair_key : Text → Text → Text
pair_key from to = from ++ (codes "->" ++ to)
