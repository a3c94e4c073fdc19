-- ===== src/Cache.antt =====
-- internal/ratelookup/cache.go: the cache of computed responses, with a time to live. The clock is
-- an argument of each call. Each critical section under the lock is one step: `Get` has two, and
-- `Races` lets other calls run between them.
pub mod Laws
pub mod Races
use argos_fx.Prelude.{
  ℕ, Bool, true, false, List, [], ◌∷◌, Option, none, some, length, ltb, if◌then◌else◌,
}
use argos_fx.Prelude.Int.{ℤ, pos, leb_ℤ}
use argos_fx.Text.{Text, text_discrete}
use argos_fx.Clock.{Time, Duration, add_duration, minute}
use argos_fx.Assoc
use argos_fx.Assoc.{put, remove}

-- `type item struct`.
pub record Item (V : Type 0) : Type 0 where
  pub value : V
  pub expires_at : Time

pub record Cache (V : Type 0) : Type 0 where
  pub ttl : Duration
  pub items : List (Text × Item V)

module _ {V : Type 0} where
  unfoldable pub new_cache : Duration → Cache V
  new_cache ttl = record { ttl = if leb_ℤ ttl (pos 0) then minute else ttl; items = [] }

  -- The first critical section of `Get`.
  unfoldable pub find : Text → Cache V → Option (Item V)
  find key c = Assoc.get text_discrete key c.items

  -- `time.Now().After(it.expiresAt)`.
  abbrev pub is_expired : Time → Item V → Bool
  is_expired t it = ltb it.expires_at t

  -- `Delete`, and the second critical section of `Get`.
  unfoldable pub delete : Text → Cache V → Cache V
  delete key c = record c { items = remove text_discrete key c.items }

  unfoldable pub get : Text → Time → Cache V → Option V × Cache V
  get key t c = elim (find key c) [
    | none ↦ (none, c)
    | some it ↦ if is_expired t it then (none, delete key c) else (some it.value, c)
  ]

  unfoldable pub set : Text → V → Time → Cache V → Cache V
  set key v t c = record c {
    items = put text_discrete key (record { value = v; expires_at = add_duration t c.ttl }) c.items;
  }

  unfoldable pub purge : Cache V → Cache V
  purge c = record c { items = [] }

  unfoldable pub len : Cache V → ℕ
  len c = length c.items
